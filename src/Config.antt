-- ===== src/Config.antt =====
-- src/config.rs. A `Duration` is its number of milliseconds.
use weldr.Common.{ℕ, String, Option, some}

pub record HealthCheck : Type 0 where
  pub interval : ℕ
  pub uri_path : String
  pub failures : ℕ
  pub passes : ℕ

pub record Timeout : Type 0 where
  pub connect : Option ℕ
  pub write : Option ℕ
  pub read : Option ℕ

pub record Config : Type 0 where
  pub health_check : HealthCheck
  pub timeout : Timeout

abbrev pub default_health_check : HealthCheck
default_health_check = record { interval = 10_000; uri_path = "/"; failures = 3; passes = 2 }

abbrev pub default_timeout : Timeout
default_timeout = record { connect = some 200; write = some 2_000; read = some 2_000 }

abbrev pub default : Config
default = record { health_check = default_health_check; timeout = default_timeout }
