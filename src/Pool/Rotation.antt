-- ===== src/Pool/Rotation.antt =====
-- `InnerPool::get` (src/pool.rs) against a queue: the list as `get` walks it, beginning behind
-- `last_used`.
use weldr.Common.{
  ℕ, zero, suc, ◌+◌, ◌%◌, ◌^◌, ◌≤◌, ◌<◌, ◌≡◌, refl, ap, sym, ◌∙◌, ◌⊎◌, inl, inr, Bool, true, false,
  not, Option, none, some, List, [], ◌∷◌, ◌++◌, append_assoc, arith, length, get_elem?, take, drop,
  length-append, take-append-drop, if◌then◌else◌, Bool-cases, nat_beq,
}
use weldr.Stats.{add_one_64}
use weldr.Backend
use weldr.Backend.{Backend, Heap}
use weldr.Pool.{get_loop}

-- `(i + 1) % len` of the loop, without the remainders.
pub next_index :
    (i len : ℕ)
    → i < len
    → len < 2 ^ 64
    → ((add_one_64 i % len ≡ suc i) × (suc i < len)) ⊎ ((add_one_64 i % len ≡ 0) × (suc i ≡ len))
next_index i len h fits = grind arith

next_cyclic :
    (i len start k n : ℕ)
    → ((n ≡ suc i) × (suc i < len)) ⊎ ((n ≡ 0) × (suc i ≡ len))
    → start < len
    → k < len
    → (i ≡ start + k) ⊎ (i + len ≡ start + k)
    → (n ≡ start + suc k) ⊎ (n + len ≡ start + suc k)
next_cyclic i len start k n step hs hk at = grind arith

module _ {ℓ} {A : Type ℓ} where
  -- The list from behind index `i`, round to `i` itself.
  abbrev pub order : List A → ℕ → List A
  order xs i = drop (suc i) xs ++ take (suc i) xs

  -- A queue whose head is served if it is live, and goes to the back in any case; at most one turn.
  unfoldable pub serve : (A → Bool) → List A → List A → Option A × List A
  serve live [] seen = (none, seen)
  serve live (x ∷ q) seen =
      let rest = serve live q (seen ++ x ∷ []) in
      if live x then (some x, q ++ seen ++ x ∷ []) else rest

  drop_split :
      (xs : List A) (i : ℕ)
      → i < length xs
      → (x : A) × (drop i xs ≡ x ∷ drop (suc i) xs)
        × (get_elem? xs i ≡ some x)
        × (take (suc i) xs ≡ take i xs ++ x ∷ [])
  drop_split [] i h = absurd (omega arith)
  drop_split (x ∷ xs) zero h = (x, refl, refl, refl)
  drop_split (x ∷ xs) (suc i) h =
      let (y, d, g, t) = drop_split xs i (omega arith) in (y, d, g, ap (◌∷◌ x) t)

  drop-length : (xs : List A) (i : ℕ) → i ≡ length xs → drop i xs ≡ []
  drop-length [] zero h = refl
  drop-length [] (suc i) h = refl
  drop-length (x ∷ xs) zero h = absurd (omega arith)
  drop-length (x ∷ xs) (suc i) h = drop-length xs i (omega arith)

  take-length : (xs : List A) (i : ℕ) → i ≡ length xs → take i xs ≡ xs
  take-length [] zero h = refl
  take-length [] (suc i) h = refl
  take-length (x ∷ xs) zero h = absurd (omega arith)
  take-length (x ∷ xs) (suc i) h = ap (◌∷◌ x) (take-length xs i (omega arith))

  -- One turn of the index takes the head of the order to its back.
  abbrev Turn : List A → ℕ → ℕ → Type ℓ
  Turn xs i n =
      (x : A) × (q : List A) × (order xs i ≡ x ∷ q)
      × (get_elem? xs n ≡ some x)
      × (order xs n ≡ q ++ x ∷ [])

  Turn-inside : (xs : List A) (i : ℕ) → suc i < length xs → Turn xs i (suc i)
  Turn-inside xs i h =
      let (x, d, g, t) = drop_split xs (suc i) h in
      (
        x,
        drop (suc (suc i)) xs ++ take (suc i) xs,
        rw d,
        g,
        rw t (sym (append_assoc (drop (suc (suc i)) xs) (take (suc i) xs) (x ∷ []))),
      )

  Turn-around : (xs : List A) (i : ℕ) → suc i ≡ length xs → Turn xs i 0
  Turn-around [] i h = absurd (omega arith)
  Turn-around (x ∷ xs) i h =
      (x, xs, rw (drop-length (x ∷ xs) (suc i) h, take-length (x ∷ xs) (suc i) h), refl, refl)

  pub length-order : (xs : List A) (i : ℕ) → i < length xs → length (order xs i) ≡ length xs
  length-order xs i h = omega (
    arith,
    length-append (drop (suc i) xs) (take (suc i) xs),
    length-append (take (suc i) xs) (drop (suc i) xs),
    ap length (take-append-drop (suc i) xs),
  )

  turn_lem :
      (xs : List A) (i : ℕ)
      → i < length xs
      → length xs < 2 ^ 64
      → Turn xs i (add_one_64 i % length xs)
  turn_lem xs i h fits = elim (next_index i (length xs) h fits) [
    | inl e ↦ rw e.0 (Turn-inside xs i e.1)
    | inr e ↦ rw e.0 (Turn-around xs i e.1)
  ]

-- Whether `get` hands a backend out.
abbrev pub live {ℓ} : {U : Type ℓ} → Heap U → Backend → Bool
live h b = not (Backend.is_down h b)

module _ {ℓ} {U : Type ℓ} (h : Heap U) (bs : List Backend) (start : ℕ) where
  -- What a run of the loop is to return, from `q` still to be tried and `seen` already down.
  abbrev pub Served : ℕ → ℕ → List Backend → List Backend → Type 0
  Served fuel i q seen =
      (n : ℕ) × (n < length bs)
      × (get_loop fuel h bs start i ≡ some ((serve (live h) q seen).0, n))
      × (order bs n ≡ (serve (live h) q seen).1)

  -- Where the loop stands with `q` to try and `seen` tried.
  pub record Stands (i : ℕ) (q seen : List Backend) : Type 0 where
    pub inside : i < length bs
    pub began : start < length bs
    pub fits : length bs < 2 ^ 64
    pub walk : order bs i ≡ q ++ seen
    pub cyclic : (i ≡ start + length seen) ⊎ (i + length bs ≡ start + length seen)

  Stands-length :
      (i : ℕ) (q seen : List Backend) → Stands i q seen → length q + length seen ≡ length bs
  Stands-length i q seen s =
      omega (arith, length-order bs i s.inside, ap length s.walk, length-append q seen)

  Stands-next :
      (i : ℕ) (x : Backend) (q seen : List Backend)
      → Stands i (x ∷ q) seen
      → let n = add_one_64 i % length bs in Stands n q (seen ++ x ∷ []) × (get_elem? bs n ≡ some x)
  Stands-next i x q seen s =
      let (y, r, front, got, back) = turn_lem bs i s.inside s.fits in
      let same : y ∷ r ≡ x ∷ (q ++ seen) = sym front ∙ s.walk in
      (
        record {
          inside = grind (arith, next_index i (length bs) s.inside s.fits);
          began = s.began;
          fits = s.fits;
          walk = back ∙ cc (same, append_assoc q seen (x ∷ []));
          cyclic =
              let e : length (seen ++ x ∷ []) ≡ suc (length seen) =
                omega (arith, length-append seen (x ∷ [])) in
              rw e (
                next_cyclic i (length bs) start (length seen) _
                  (next_index i (length bs) s.inside s.fits) s.began
                  (omega (arith, Stands-length i (x ∷ q) seen s)) s.cyclic);
        },
        cc (got, same),
      )

  -- The loop is back where it began exactly when nothing is left to try.
  back_to_start : (n : ℕ) (seen : List Backend) → Stands n [] seen → nat_beq start n ≡ true
  back_to_start n seen s = ground (arith, Stands-length n [] seen s)

  not_back_yet :
      (n : ℕ) (x y : Backend) (q seen : List Backend)
      → Stands n (y ∷ q) (seen ++ x ∷ [])
      → nat_beq start n ≡ false
  not_back_yet n x y q seen s =
      ground (arith, Stands-length n (y ∷ q) (seen ++ x ∷ []) s, length-append seen (x ∷ []))

  get_loop-serve :
      (fuel i : ℕ) (x : Backend) (q seen : List Backend)
      → Stands i (x ∷ q) seen
      → length q < fuel
      → Served fuel i (x ∷ q) seen
  unfolding get_loop serve
  get_loop-serve zero i x q seen s f = absurd (omega arith)
  get_loop-serve (suc fuel) i x [] seen s f =
      let (t, got) = Stands-next i x [] seen s in
      (
        add_one_64 i % length bs,
        t.inside,
        ground (arith, got, back_to_start _ _ t),
        ground (arith, t.walk),
      )
  get_loop-serve (suc fuel) i x (y ∷ q) seen s f =
      let (t, got) = Stands-next i x (y ∷ q) seen s in
      elim (Bool-cases (Backend.is_down h x)) [
        | inl is_down ↦
            let (n, lt, ran, back) = get_loop-serve fuel _ y q (seen ++ x ∷ []) t (omega arith) in
            (n, lt, ground (arith, got, not_back_yet _ _ _ _ _ t, ran), ground (arith, back))
        | inr up ↦ (
          add_one_64 i % length bs,
          t.inside,
          ground (arith, got),
          ground (arith, t.walk, append_assoc (y ∷ q) seen (x ∷ [])),
        )
      ]

  pub get_loop-serve_all :
      (fuel i : ℕ) (q : List Backend)
      → Stands i q []
      → 0 < length q
      → length q ≤ fuel
      → Served fuel i q []
  get_loop-serve_all fuel i [] s pos f = absurd (omega arith)
  get_loop-serve_all fuel i (x ∷ q) s pos f = get_loop-serve fuel i x q [] s (omega arith)
