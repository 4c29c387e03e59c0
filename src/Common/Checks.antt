-- ===== src/Common/Checks.antt =====
-- What fails or panics, as `none`; the assertions of the repository's own tests are such.
use mathlib.Core.Bool.{Bool, true, false}
use mathlib.Core.Option.{Option, none, some}
use weldr.Common.Tests.{PartialEq, ◌==◌}

infixl 5 ◌>>=◌
abbrev pub ◌>>=◌ {ℓ κ} : {A : Type ℓ} {B : Type κ} → Option A → (A → Option B) → Option B
none >>= next = none
some a >>= next = next a

-- `assert!`
abbrev pub assert : Bool → Option (Unit {0})
assert true = some tt
assert false = none

-- `assert_eq!`
abbrev pub assert_eq {ℓ} : {A : Type ℓ} ⦃e : PartialEq A⦄ → A → A → Option (Unit {0})
assert_eq a b = assert (a == b)
