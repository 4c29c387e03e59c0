-- ===== src/Pool/Hang.antt =====
-- `InnerPool::remove` (src/pool.rs) keeps `last_used`, and `get` waits to come back to it.
use mathlib.Core.Option
use weldr.Common.{
  ℕ, zero, suc, ◌%◌, ◌≤◌, ◌<◌, ◌≡◌, refl, ap, true, none, some, List, [], ◌∷◌, arith, length,
  get_elem?, All, All-retain, PartialEq,
}
use weldr.Stats.{add_one_64}
use weldr.Server.{Server}
use weldr.Backend
use weldr.Backend.{Backend, Heap}
use weldr.Pool.{InnerPool, get, get_loop, remove}

pub mod_lt : (i n : ℕ) → 0 < n → i % n < n
mod_lt i n h = grind arith

pub All-get_elem? {ℓ κ} :
    {A : Type ℓ} (P : A → Type κ) (xs : List A) (i : ℕ)
    → All P xs
    → i < length xs
    → (x : A) × (get_elem? xs i ≡ some x) × P x
All-get_elem? P [] i a h = absurd (omega arith)
All-get_elem? P (x ∷ xs) zero a h = (x, refl, a.0)
All-get_elem? P (x ∷ xs) (suc i) a h = All-get_elem? P xs i a.1 (omega arith)

module _ {ℓ} {U : Type ℓ} (h : Heap U) where
  get_loop_hangs :
      (fuel : ℕ) (bs : List Backend) (start i : ℕ)
      → All (λ b. Backend.is_down h b ≡ true) bs
      → 0 < length bs
      → length bs ≤ start
      → get_loop fuel h bs start i ≡ none
  unfolding get_loop
  get_loop_hangs zero bs start i downs pos past = refl
  get_loop_hangs (suc fuel) bs start i downs pos past =
      let n = add_one_64 i % length bs in
      let inside : n < length bs = mod_lt (add_one_64 i) (length bs) pos in
      let (b, got, is_down) = All-get_elem? _ bs n downs inside in
      ground (arith, got, is_down, inside, get_loop_hangs fuel bs start n downs pos past)

  get_list_hangs :
      (fuel : ℕ) (bs : List Backend) (i : ℕ)
      → All (λ b. Backend.is_down h b ≡ true) bs
      → 0 < length bs
      → length bs ≤ i
      → get fuel h (record { backends = bs; last_used = i }) ≡ none
  unfolding get
  get_list_hangs fuel [] i downs pos past = absurd (omega arith)
  get_list_hangs fuel (b ∷ bs) i downs pos past =
      ap (Option.map _) (get_loop_hangs fuel (b ∷ bs) i i downs pos past)

  -- With every backend down and `last_used` past the end `get` never returns.
  pub get_hangs :
      (fuel : ℕ) (p : InnerPool)
      → All (λ b. Backend.is_down h b ≡ true) p.backends
      → 0 < length p.backends
      → length p.backends ≤ p.last_used
      → get fuel h p ≡ none
  get_hangs fuel p = get_list_hangs fuel p.backends p.last_used

module _ {ℓ} {U : Type ℓ} ⦃e : PartialEq U⦄ (h : Heap U) where
  -- If every backend is down, and removing a server leaves some, but no more than `last_used`
  -- counts, then the next `get` returns within no number of rounds.
  pub remove-get_hangs :
      (fuel : ℕ) (p : InnerPool) (s : Server U)
      → All (λ b. Backend.is_down h b ≡ true) p.backends
      → 0 < length (remove h p s).backends
      → length (remove h p s).backends ≤ p.last_used
      → get fuel h (remove h p s) ≡ none
  unfolding remove
  remove-get_hangs fuel p s downs pos past =
      get_hangs h fuel (remove h p s) (All-retain _ _ p.backends downs) pos past
