-- ===== src/Stats.antt =====
-- src/stats.rs: the counters of a backend. A `usize` has 64 bits and wraps, as in a release build.
use weldr.Common.{ℕ, ◌+◌, ◌%◌, ◌^◌, ◌≡◌, ◌↔◌, Bool, true, ◌&&◌, arith, nat_beq, PartialEq}

pub record Stats : Type 0 where
  pub failure : ℕ
  pub success : ℕ

-- `x += 1` on a `usize` or a `u64`
abbrev pub add_one_64 : ℕ → ℕ
add_one_64 x = (x + 1) % 2 ^ 64

unfoldable pub new : Stats
new = record { failure = 0; success = 0 }

unfoldable pub inc_success : Stats → Stats
inc_success s = record s { success = add_one_64 s.success }

unfoldable pub inc_failure : Stats → Stats
inc_failure s = record s { failure = add_one_64 s.failure }

abbrev pub stats_beq : Stats → Stats → Bool
stats_beq a b = nat_beq a.failure b.failure && nat_beq a.success b.success

pub stats_beq_iff : (a b : Stats) → (stats_beq a b ≡ true) ↔ (a ≡ b)
stats_beq_iff a b = ground arith

instance abbrev pub stats_eq : PartialEq Stats
stats_eq = record { eq = stats_beq; eq_law = stats_beq_iff }
