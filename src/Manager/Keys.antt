-- ===== src/Manager/Keys.antt =====
-- Association lists by number: which numbers they have, and how often.
use weldr.Common.{
  ℕ, zero, suc, ◌+◌, ◌≤◌, ◌<◌, ◌≡◌, ◌≢◌, refl, sym, Bool, some, List, [], ◌∷◌, ◌++◌, get_elem?,
  if◌then◌else◌, nat_beq, retain, All, All-map, All-append, All-retain, arith, Bool-cases, inl, inr,
}
use weldr.Manager.Publisher.{insert, modify, remove_at}

module _ {ℓ κ} {A : Type ℓ} (P : A → Type κ) where
  pub All-remove_at : (xs : List A) (i : ℕ) → All P xs → All P (remove_at xs i)
  unfolding remove_at
  All-remove_at [] i a = tt
  All-remove_at (x ∷ xs) zero a = a.1
  All-remove_at (x ∷ xs) (suc i) a = (a.0, All-remove_at xs i a.1)

module _ {ℓ} {V : Type ℓ} where
  -- How many entries have the number `k`.
  unfoldable pub count : ℕ → List (ℕ × V) → ℕ
  count k [] = 0
  count k ((j, v) ∷ m) = if nat_beq j k then suc (count k m) else count k m

  abbrev pub Fresh : ℕ → List (ℕ × V) → Type 0
  Fresh k = All (λ e. e.0 ≢ k)

  -- No two entries have the same number.
  abbrev pub Distinct : List (ℕ × V) → Type 0
  Distinct [] = Unit
  Distinct (e ∷ m) = Fresh e.0 m × Distinct m

  abbrev pub Below : ℕ → List (ℕ × V) → Type 0
  Below n = All (λ e. e.0 < n)

  pub count-append : (k : ℕ) (xs ys : List (ℕ × V)) → count k (xs ++ ys) ≡ count k xs + count k ys
  unfolding count
  count-append k [] ys = omega arith
  count-append k ((j, v) ∷ xs) ys = ground (arith, count-append k xs ys)

  pub count-Below : (k n : ℕ) (xs : List (ℕ × V)) → Below n xs → n ≤ k → count k xs ≡ 0
  unfolding count
  count-Below k n [] b h = refl
  count-Below k n ((j, v) ∷ xs) b h = ground (arith, count-Below k n xs b.1 h)

  pub count-Fresh : (k : ℕ) (xs : List (ℕ × V)) → Fresh k xs → count k xs ≡ 0
  unfolding count
  count-Fresh k [] f = refl
  count-Fresh k ((j, v) ∷ xs) f = ground (arith, f.0, count-Fresh k xs f.1)

  pub count-remove_at :
      (k : ℕ) (xs : List (ℕ × V)) (i j : ℕ) (v : V)
      → get_elem? xs i ≡ some (j, v)
      → count k xs
        ≡ (if nat_beq j k then suc (count k (remove_at xs i)) else count k (remove_at xs i))
  unfolding count remove_at
  count-remove_at k [] i j v e = cc
  count-remove_at k ((j', v') ∷ xs) zero j v e = ground (arith, e)
  count-remove_at k ((j', v') ∷ xs) (suc i) j v e = ground (arith, count-remove_at k xs i j v e)

  pub insert-Fresh :
      (k : ℕ) (v : V) (subs : List (ℕ × V)) → Fresh k subs → insert k v subs ≡ subs ++ (k, v) ∷ []
  unfolding insert
  insert-Fresh k v [] f = refl
  insert-Fresh k v ((j, w) ∷ subs) f = ground (arith, f.0, insert-Fresh k v subs f.1)

  pub Below-Fresh : (n : ℕ) (subs : List (ℕ × V)) → Below n subs → Fresh n subs
  Below-Fresh n subs b = All-map (λ e l. ground (arith, l)) subs b

  pub append-Distinct :
      (k : ℕ) (v : V) (subs : List (ℕ × V))
      → Distinct subs
      → Fresh k subs
      → Distinct (subs ++ (k, v) ∷ [])
  append-Distinct k v [] d f = (tt, tt)
  append-Distinct k v (e ∷ subs) d f =
      (All-append _ subs _ d.0 ((λ q. f.0 (sym q)), tt), append-Distinct k v subs d.1 f.1)

  pub retain-Distinct :
      (t : ℕ × V → Bool) (subs : List (ℕ × V)) → Distinct subs → Distinct (retain t subs)
  retain-Distinct t [] d = tt
  retain-Distinct t (e ∷ subs) d = elim (Bool-cases (t e)) [
    | inl keeps ↦ rw keeps (All-retain _ t subs d.0, retain-Distinct t subs d.1)
    | inr leaves ↦ rw leaves (retain-Distinct t subs d.1)
  ]

  pub All-modify {κ} :
      (P : ℕ → Type κ) (k : ℕ) (f : V → V) (subs : List (ℕ × V))
      → All (λ e. P e.0) subs
      → All (λ e. P e.0) (modify k f subs)
  unfolding modify
  All-modify P k f [] a = tt
  All-modify P k f ((j, v) ∷ subs) a = elim (Bool-cases (nat_beq j k)) [
    | inl same ↦ rw same (a.0, a.1)
    | inr other ↦ rw other (a.0, All-modify P k f subs a.1)
  ]

  pub modify-Distinct :
      (k : ℕ) (f : V → V) (subs : List (ℕ × V)) → Distinct subs → Distinct (modify k f subs)
  unfolding modify
  modify-Distinct k f [] d = tt
  modify-Distinct k f ((j, v) ∷ subs) d = elim (Bool-cases (nat_beq j k)) [
    | inl same ↦ rw same (d.0, d.1)
    | inr other ↦ rw other (All-modify (λ i. i ≢ j) k f subs d.0, modify-Distinct k f subs d.1)
  ]
