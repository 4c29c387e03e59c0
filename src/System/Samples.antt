-- ===== src/System/Samples.antt =====
-- What the runs of the system take for its parameters.
use weldr.Common.{ℕ, String, Bool, true, none, some, ltb, arith}
use weldr.Config
use weldr.Server.{Server}
use weldr.Backend.{Heap, active}
use weldr.Health.Watch.{IsSane}
use weldr.Api.{Json, Text, decoded}
use weldr.System.{Setting}

abbrev pub text : Text String
text = record { parse = some; display = λ u. u; as_ref = λ u. u }

abbrev pub json : Json String
json = record {
  index_to_string = λ i. none;
  servers_to_string = λ s. some "servers";
  from_slice = λ c. decoded (record { url = c; links = none });
}

abbrev pub setting : Setting String String ℕ
setting = record {
  json = json;
  text = text;
  hash = λ v. v.stats.success;
  is_success = λ code. ltb code 300;
  config = record Config.default {
    health_check = record Config.default_health_check { failures = 2 };
  };
}

abbrev pub empty_heap : Heap String
empty_heap = record {
  next = 0;
  cell = λ i. record {
    server = record { url = ""; map_host = true };
    state = active;
    stats = record { failure = 0; success = 0 };
  };
}

abbrev pub is_server_error : ℕ → Bool
is_server_error code = ltb 499 code

abbrev pub site : Server String
site = record { url = "http://a"; map_host = true }

pub setting-IsSane : IsSane setting.config
setting-IsSane = record {
  failures_two = omega arith;
  failures_fit = omega arith;
  passes_two = omega arith;
  passes_fit = omega arith;
}
