-- ===== src/Pool/RoundRobin.antt =====
-- Repeated calls of `InnerPool::get` (src/pool.rs).
use weldr.Common.{
  ℕ, ◌≤◌, ◌<◌, ◌≡◌, refl, ap, sym, ◌∙◌, ◌⊎◌, inl, inr, Bool, true, Option, none, some, List, [],
  ◌∷◌, ◌++◌, map, append-nil, append_assoc, arith, length, All, replicate, retain, Bool-cases,
}
use mathlib.Core.List.{Perm, Mem, mem-cons_self, mem-cons_of_mem}
use mathlib.Core.Option
use weldr.Backend.{Backend, Heap}
use weldr.Pool.{InnerPool, get}
use weldr.Pool.Rotation.{serve, live}
use weldr.Pool.Get.{
  front, turn, IsValid, queue, ring, get-serve, get-ring, ring-perm, length-retain-order,
}

module _ {ℓ} {U : Type ℓ} where
  -- One call of `get` for each heap: the backends may change state between the calls.
  unfoldable pub gets : ℕ → List (Heap U) → InnerPool → Option (List (Option Backend) × InnerPool)
  gets fuel [] p = some ([], p)
  gets fuel (h ∷ hs) p = elim (get fuel h p) [
    | none ↦ none
    | some (r, q) ↦ Option.map (λ t. (r ∷ t.0, t.1)) (gets fuel hs q)
  ]

  gets-cons :
      (fuel : ℕ) (h : Heap U) (hs : List (Heap U)) (p q q' : InnerPool) (r : Option Backend)
      (rs : List (Option Backend))
      → get fuel h p ≡ some (r, q)
      → gets fuel hs q ≡ some (rs, q')
      → gets fuel (h ∷ hs) p ≡ some (r ∷ rs, q')
  unfolding gets
  gets-cons fuel h hs p q q' r rs e f = ground (arith, e, f)

  gets-ring :
      (fuel : ℕ) (h : Heap U) (xs ys : List Backend) (p : InnerPool)
      → IsValid p
      → length p.backends ≤ fuel
      → ring h p ≡ xs ++ ys
      → (q : InnerPool) × (gets fuel (replicate (length xs) h) p ≡ some (map some xs, q))
        × (ring h q ≡ ys ++ xs)
  unfolding gets
  gets-ring fuel h [] ys p v f e = (p, refl, e ∙ sym (append-nil ys))
  gets-ring fuel h (x ∷ xs) ys p v f e =
      let (q, ran, turned, same, vq) = get-ring h fuel p v f in
      let (q', rans, turned') =
        gets-ring fuel h xs (ys ++ x ∷ []) q vq (omega (arith, ap length same))
          (turned ∙ ap turn e ∙ append_assoc xs ys (x ∷ [])) in
      (
        q',
        gets-cons fuel h _ p q q' (some x) (map some xs) (ran ∙ ap (λ zs. some (front zs, q)) e)
            rans,
        turned' ∙ append_assoc ys (x ∷ []) xs,
      )

  -- In a valid pool, while no state changes, as many calls of `get` as there are backends up serve
  -- each of those once, and leave the order in which they were served for the next round.
  pub gets-round :
      (fuel : ℕ) (h : Heap U) (p : InnerPool)
      → IsValid p
      → length p.backends ≤ fuel
      → (served : List Backend) × (q : InnerPool) × (gets fuel
            (replicate (length (retain (live h) p.backends)) h)
            p
          ≡ some (map some served, q))
        × Perm served (retain (live h) p.backends)
        × (ring h q ≡ served)
  gets-round fuel h p v f =
      let (q, ran, turned) = gets-ring fuel h (ring h p) [] p v f (sym (append-nil (ring h p))) in
      let e : length (retain (live h) p.backends) ≡ length (ring h p) =
        length-retain-order (live h) p.backends p.last_used in
      (ring h p, q, rw e ran, ring-perm h p, turned)

module _ {A : Type 0} (up : A → Bool) (b : A) (lives : up b ≡ true) where
  -- Of a queue that holds a live `b`, one turn serves `b` or takes something from before it.
  serve_nearer :
      (xs ys seen : List A)
      → ((serve up (xs ++ b ∷ ys) seen).0 ≡ some b)
        ⊎ ((xs' : List A) × (ys' : List A) × ((serve up (xs ++ b ∷ ys) seen).1 ≡ xs' ++ b ∷ ys')
            × (length xs' < length xs))
  unfolding serve
  serve_nearer [] ys seen = inl (rw lives)
  serve_nearer (x ∷ xs) ys seen = elim (Bool-cases (up x)) [
    | inl here ↦ inr (xs, ys ++ seen ++ x ∷ [], rw here (simp append_assoc), omega arith)
    | inr down ↦ rw down (elim (serve_nearer xs ys (seen ++ x ∷ [])) [
      | inl e ↦ inl e
      | inr (xs', ys', e, lt) ↦ inr (xs', ys', e, omega arith)
    ])
  ]

module _ {ℓ} {U : Type ℓ} (fuel : ℕ) where
  gets-total :
      (hs : List (Heap U)) (p : InnerPool)
      → IsValid p
      → length p.backends ≤ fuel
      → (rs : List (Option Backend)) × (q : InnerPool) × (gets fuel hs p ≡ some (rs, q))
  unfolding gets
  gets-total [] p v f = ([], p, refl)
  gets-total (h ∷ hs) p v f =
      let (q, ran, back, same, vq) = get-serve h fuel p v f in
      let (rs, q', rans) = gets-total hs q vq (omega (arith, ap length same)) in
      (_ ∷ rs, q', gets-cons fuel h hs p q q' _ rs ran rans)

  -- In a valid pool, a backend with k others before it in the queue, and up at each call, is served
  -- within k + 1 calls of `get`, whatever states the others take between the calls.
  pub gets-serves :
      (hs : List (Heap U)) (p : InnerPool) (b : Backend) (xs ys : List Backend)
      → IsValid p
      → length p.backends ≤ fuel
      → queue p ≡ xs ++ b ∷ ys
      → All (λ h. live h b ≡ true) hs
      → length xs < length hs
      → (rs : List (Option Backend)) × (q : InnerPool) × (gets fuel hs p ≡ some (rs, q))
        × Mem (some b) rs
  unfolding gets
  gets-serves [] p b xs ys v f e up lt = absurd (omega arith)
  gets-serves (h ∷ hs) p b xs ys v f e up lt =
      let (q, ran, back, same, vq) = get-serve h fuel p v f in
      let fq : length q.backends ≤ fuel = omega (arith, ap length same) in
      elim (serve_nearer (live h) b up.0 xs ys []) [
        | inl now ↦
            let (rs, q', rans) = gets-total hs q vq fq in
            (
              some b ∷ rs,
              q',
              gets-cons fuel h hs p q q' (some b) rs
                  (ran
                    ∙ ap (λ zs. some ((serve (live h) zs []).0, q)) e
                    ∙ ap (λ r. some (r, q)) now)
                  rans,
              mem-cons_self,
            )
        | inr (xs', ys', nearer, less) ↦
            let (rs, q', rans, served) =
              gets-serves hs q b xs' ys' vq fq
                (back ∙ ap (λ zs. (serve (live h) zs []).1) e ∙ nearer) up.1 (omega arith) in
            (_ ∷ rs, q', gets-cons fuel h hs p q q' _ rs ran rans, mem-cons_of_mem _ served)
      ]
