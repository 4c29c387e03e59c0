-- ===== src/Pool/Get.antt =====
-- What `InnerPool::get` (src/pool.rs) returns, and what repeated calls return.
use weldr.Common.{
  ℕ, suc, ◌-◌, ◌^◌, ◌≤◌, ◌<◌, ◌≡◌, refl, ap, sym, subst, true, ◌∙◌, ◌↔◌, inl, inr, Bool, false,
  Option, none, some, List, [], ◌∷◌, ◌++◌, append-nil, arith, length, retain, All, retain-append,
  take, drop, take-append-drop, Bool-cases, length-append,
}
use mathlib.Core.List.{Perm, perm_append_comm}
use mathlib.Core.Option
use weldr.Backend.{Backend, Heap}
use weldr.Pool.{InnerPool, get}
use weldr.Pool.Rotation.{order, length-order, serve, live, get_loop-serve_all}

-- `last_used` is an index of the list, or 0 if that is empty; the list is no longer than a `usize`
-- counts.
pub record IsValid (p : InnerPool) : Type 0 where
  pub fits : length p.backends < 2 ^ 64
  pub in_range : p.last_used ≤ length p.backends - 1

abbrev pub queue : InnerPool → List Backend
queue p = order p.backends p.last_used

module _ {ℓ} {U : Type ℓ} (h : Heap U) where
  -- What a call of `get` does to the queue.
  abbrev pub Serves : ℕ → InnerPool → Type 0
  Serves fuel p =
      (q : InnerPool) × (get fuel h p ≡ some ((serve (live h) (queue p) []).0, q))
      × (queue q ≡ (serve (live h) (queue p) []).1)
      × (q.backends ≡ p.backends)
      × IsValid q

  get_list-serve :
      (fuel : ℕ) (bs : List Backend) (i : ℕ)
      → IsValid (record { backends = bs; last_used = i })
      → length bs ≤ fuel
      → Serves fuel (record { backends = bs; last_used = i })
  unfolding get serve
  get_list-serve fuel [] i v f = (record { backends = []; last_used = i }, refl, refl, refl, v)
  get_list-serve fuel (b ∷ bs) i v f =
      let e : length (order (b ∷ bs) i) ≡ suc (length bs) =
        length-order (b ∷ bs) i ((omega (arith, v.in_range))) in
      let (n, lt, ran, back) =
        get_loop-serve_all h (b ∷ bs) i fuel i (order (b ∷ bs) i)
          (record {
            inside = (omega (arith, v.in_range));
            began = (omega (arith, v.in_range));
            fits = v.fits;
            walk = sym (append-nil (order (b ∷ bs) i));
            cyclic = inl (omega arith);
          })
          (omega arith) (omega arith) in
      (
        record { backends = b ∷ bs; last_used = n },
        ap (Option.map _) ran,
        back,
        refl,
        record { fits = v.fits; in_range = omega (arith, lt) },
      )

  -- In a valid pool, where `last_used` is an index or 0 and the list fits a `usize`, the loop of
  -- `get` ends within as many rounds as there are backends; it does to the queue that begins behind
  -- `last_used` what `serve` does, which takes the first live backend and moves it, and what it
  -- skipped, to the back; it keeps the list, and leaves a valid pool.
  pub get-serve : (fuel : ℕ) (p : InnerPool) → IsValid p → length p.backends ≤ fuel → Serves fuel p
  get-serve fuel p v f = get_list-serve fuel p.backends p.last_used v f

  -- The backends that are up, in the order in which `get` comes to them.
  abbrev pub ring : InnerPool → List Backend
  ring p = retain (live h) (queue p)

module _ {ℓ} {A : Type ℓ} where
  abbrev pub front : List A → Option A
  front [] = none
  front (x ∷ xs) = some x

  abbrev pub turn : List A → List A
  turn [] = []
  turn (x ∷ xs) = xs ++ x ∷ []

  pub serve-retain :
      (p : A → Bool) (q seen : List A)
      → retain p seen ≡ []
      → ((serve p q seen).0 ≡ front (retain p q))
        × (retain p (serve p q seen).1 ≡ turn (retain p q))
  unfolding serve
  serve-retain p [] seen e = (refl, e)
  serve-retain p (x ∷ q) seen e =
      let dead : p x ≡ false → retain p (seen ++ x ∷ []) ≡ [] =
        λ d. ground (arith, retain-append p seen (x ∷ [])) in
      elim (Bool-cases (p x)) [
        | inl up ↦ (
          rw up,
          rw up (
              rw (retain-append p (q ++ seen) (x ∷ []), retain-append p q seen, e, up, append-nil)),
        )
        | inr down ↦
            let ih = serve-retain p q (seen ++ x ∷ []) (dead down) in (rw down ih.0, rw down ih.1)
      ]

  pub retain-order-perm :
      (p : A → Bool) (xs : List A) (i : ℕ) → Perm (retain p (order xs i)) (retain p xs)
  retain-order-perm p xs i =
      let whole : retain p (take (suc i) xs) ++ retain p (drop (suc i) xs) ≡ retain p xs =
        sym (retain-append p (take (suc i) xs) (drop (suc i) xs))
        ∙ ap (retain p) (take-append-drop (suc i) xs) in
      rw (retain-append p (drop (suc i) xs) (take (suc i) xs), ← whole)
        (perm_append_comm (retain p (drop (suc i) xs)) (retain p (take (suc i) xs)))

  pub length-retain-order :
      (p : A → Bool) (xs : List A) (i : ℕ) → length (retain p xs) ≡ length (retain p (order xs i))
  length-retain-order p xs i = omega (
    arith,
    ap length (retain-append p (drop (suc i) xs) (take (suc i) xs)),
    ap length (retain-append p (take (suc i) xs) (drop (suc i) xs)),
    ap (λ ys. length (retain p ys)) (take-append-drop (suc i) xs),
    length-append (retain p (drop (suc i) xs)) (retain p (take (suc i) xs)),
    length-append (retain p (take (suc i) xs)) (retain p (drop (suc i) xs)),
  )

module _ {ℓ} {U : Type ℓ} (h : Heap U) where
  -- `get` hands out the head of the ring and moves it to the back; of an empty ring, nothing.
  abbrev pub Turns : ℕ → InnerPool → Type 0
  Turns fuel p =
      (q : InnerPool) × (get fuel h p ≡ some (front (ring h p), q))
      × (ring h q ≡ turn (ring h p))
      × (q.backends ≡ p.backends)
      × IsValid q

  pub get-ring : (fuel : ℕ) (p : InnerPool) → IsValid p → length p.backends ≤ fuel → Turns fuel p
  get-ring fuel p v f =
      let (q, ran, back, same, vq) = get-serve h fuel p v f in
      let (first, rest) = serve-retain (live h) (queue p) [] refl in
      (q, ran ∙ ap (λ r. some (r, q)) first, ap (retain (live h)) back ∙ rest, same, vq)

  -- The ring holds exactly the backends that are up.
  pub ring-perm : (p : InnerPool) → Perm (ring h p) (retain (live h) p.backends)
  ring-perm p = retain-order-perm (live h) p.backends p.last_used

  front-none :
      (p : Backend → Bool) (xs : List Backend)
      → (front (retain p xs) ≡ none) ↔ All (λ b. p b ≡ false) xs
  front-none p [] = (λ _. tt, λ _. refl)
  front-none p (x ∷ xs) =
      let (there, back) = front-none p xs in
      elim (Bool-cases (p x)) [
        | inl up ↦ rw up (λ e. cc, λ e. cc)
        | inr dead ↦ rw dead (λ e. (refl, there e), λ e. back e.1)
      ]

  front_empty : (xs ys : List Backend) → length ys ≡ length xs → front xs ≡ none → front ys ≡ none
  front_empty [] [] e n = refl
  front_empty [] (y ∷ ys) e n = absurd (omega arith)
  front_empty (x ∷ xs) ys e n = cc

  front-retain :
      (p : Backend → Bool) (xs : List Backend) (b : Backend)
      → front (retain p xs) ≡ some b
      → p b ≡ true
  front-retain p [] b e = cc
  front-retain p (x ∷ xs) b e = elim (Bool-cases (p x)) [
    | inl up ↦
        let first = rw up at e in let same : x ≡ b = cc (first) in subst (λ y. p y ≡ true) same up
    | inr dead ↦ front-retain p xs b (rw dead at e)
  ]

  -- In a valid pool `get` returns within as many rounds as there are backends; what it returns is
  -- up, and it is nothing exactly when every backend is down.
  pub get_result :
      (fuel : ℕ) (p : InnerPool)
      → IsValid p
      → length p.backends ≤ fuel
      → (r : Option Backend) × (q : InnerPool) × (get fuel h p ≡ some (r, q))
        × ((b : Backend) → r ≡ some b → live h b ≡ true)
        × ((r ≡ none) ↔ All (λ b. live h b ≡ false) p.backends)
  get_result fuel p v f =
      let (q, ran, _, _, _) = get-ring fuel p v f in
      let e : length (retain (live h) p.backends) ≡ length (ring h p) =
        length-retain-order (live h) p.backends p.last_used in
      let (there, back) = front-none (live h) p.backends in
      (
        front (ring h p),
        q,
        ran,
        front-retain (live h) (queue p),
        (λ n. there (front_empty (ring h p) _ e n), λ a. front_empty _ (ring h p) (sym e) (back a)),
      )
