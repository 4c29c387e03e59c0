-- ===== src/Pool/Keeps.antt =====
-- What a `get` (src/pool.rs) that returns leaves of the pool, for any number of rounds.
use weldr.Common.{
  ℕ, zero, suc, ◌%◌, ◌<◌, ◌≡◌, ap, sym, subst, Option, some, List, [], ◌∷◌, arith, length,
  Option-cases, inl, inr, All, All-got, Bool-cases, nat_beq, get_elem?, ◌∙◌,
}
use weldr.Backend
use weldr.Stats.{add_one_64}
use weldr.Backend.{Backend, Heap}
use weldr.Pool.{InnerPool, get, get_loop}
use weldr.Pool.Hang.{mod_lt}
use weldr.Pool.Get.{IsValid}

module _ {ℓ} {U : Type ℓ} (h : Heap U) where
  get_loop_inside :
      (fuel : ℕ) (bs : List Backend) (start i n : ℕ) (r : Option Backend)
      → 0 < length bs
      → get_loop fuel h bs start i ≡ some (r, n)
      → n < length bs
  unfolding get_loop
  get_loop_inside zero bs start i n r pos e = cc
  get_loop_inside (suc fuel) bs start i n r pos e =
      let here = add_one_64 i % length bs in
      let lt : here < length bs = mod_lt (add_one_64 i) (length bs) pos in
      ground (arith, lt, get_loop_inside fuel bs start here n r pos)

  get_list-IsValid :
      (fuel : ℕ) (bs : List Backend) (i : ℕ) (q : InnerPool) (r : Option Backend)
      → IsValid (record { backends = bs; last_used = i })
      → get fuel h (record { backends = bs; last_used = i }) ≡ some (r, q)
      → (q.backends ≡ bs) × IsValid q
  unfolding get
  get_list-IsValid fuel [] i q r v e =
      let same : record { backends = []; last_used = i } ≡ q = cc (e) in
      (ap (λ p. p.backends) (sym same), subst IsValid same v)
  get_list-IsValid fuel (b ∷ bs) i q r v e = elim (Option-cases (get_loop fuel h (b ∷ bs) i i)) [
    | inl out ↦ let never = rw out at e in cc (never)
    | inr ((r', n), ran) ↦
        let returned = rw ran at e in
        let same : record { backends = b ∷ bs; last_used = n } ≡ q = cc (returned) in
        (
          ap (λ p. p.backends) (sym same),
          subst IsValid same (record {
            fits = v.fits;
            in_range = omega (arith, get_loop_inside fuel (b ∷ bs) i i n r' (omega arith) ran);
          }),
        )
  ]

  get_list-backends :
      (fuel : ℕ) (bs : List Backend) (i : ℕ) (q : InnerPool) (r : Option Backend)
      → get fuel h (record { backends = bs; last_used = i }) ≡ some (r, q)
      → q.backends ≡ bs
  unfolding get
  get_list-backends fuel [] i q r e =
      let same : record { backends = []; last_used = i } ≡ q = cc (e) in
      ap (λ p. p.backends) (sym same)
  get_list-backends fuel (b ∷ bs) i q r e = elim (Option-cases (get_loop fuel h (b ∷ bs) i i)) [
    | inl out ↦ let never = rw out at e in cc (never)
    | inr ((r', n), ran) ↦
        let returned = rw ran at e in
        let same : record { backends = b ∷ bs; last_used = n } ≡ q = cc (returned) in
        ap (λ p. p.backends) (sym same)
  ]

  -- The list stays, of a pool that is valid or not.
  pub get-backends :
      (fuel : ℕ) (p q : InnerPool) (r : Option Backend)
      → get fuel h p ≡ some (r, q)
      → q.backends ≡ p.backends
  get-backends fuel p = get_list-backends fuel p.backends p.last_used

  -- The list stays, and `last_used` stays one of its indices.
  pub get-IsValid :
      (fuel : ℕ) (p q : InnerPool) (r : Option Backend)
      → IsValid p
      → get fuel h p ≡ some (r, q)
      → (q.backends ≡ p.backends) × IsValid q
  get-IsValid fuel p = get_list-IsValid fuel p.backends p.last_used

module _ {ℓ κ} {U : Type ℓ} (h : Heap U) (P : Backend → Type κ) where
  -- What `get` returns is one of the list.
  get_loop-All :
      (fuel : ℕ) (bs : List Backend) (start i n : ℕ) (b : Backend)
      → All P bs
      → get_loop fuel h bs start i ≡ some (some b, n)
      → P b
  unfolding get_loop
  get_loop-All zero bs start i n b all e = cc
  get_loop-All (suc fuel) bs start i n b all e =
      let here = add_one_64 i % length bs in
      elim (Option-cases (get_elem? bs here)) [
        | inl past ↦ let never = rw (past, get_loop) at e in cc (never)
        | inr (c, there) ↦ elim (Bool-cases (Backend.is_down h c)) [
          | inr up ↦
              let found = rw (there, up, get_loop) at e in
              let is : c ≡ b = cc (found) in subst P is (All-got P bs here c all there)
          | inl down ↦ elim (Bool-cases (nat_beq start here)) [
            | inl met ↦ let never = rw (there, down, met, get_loop) at e in cc (never)
            | inr on ↦ get_loop-All fuel bs start here n b all (rw (there, down, on, get_loop) at e)
          ]
        ]
      ]

  get_list-All :
      (fuel : ℕ) (bs : List Backend) (i : ℕ) (q : InnerPool) (b : Backend)
      → All P bs
      → get fuel h (record { backends = bs; last_used = i }) ≡ some (some b, q)
      → P b
  unfolding get
  get_list-All fuel [] i q b all e = cc
  get_list-All fuel (c ∷ bs) i q b all e = elim (Option-cases (get_loop fuel h (c ∷ bs) i i)) [
    | inl out ↦ let never = rw out at e in cc (never)
    | inr ((r, n), ran) ↦
        let returned = rw ran at e in
        let is : r ≡ some b = cc (returned) in
        get_loop-All fuel (c ∷ bs) i i n b all (ran ∙ ap (λ r. some (r, n)) is)
  ]

  pub get-All :
      (fuel : ℕ) (p q : InnerPool) (b : Backend)
      → All P p.backends
      → get fuel h p ≡ some (some b, q)
      → P b
  get-All fuel p = get_list-All fuel p.backends p.last_used
