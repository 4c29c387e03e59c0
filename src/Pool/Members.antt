-- ===== src/Pool/Members.antt =====
-- Who is in the pool: `add`, `remove` and `find` of src/pool.rs.
use weldr.Common.{
  suc, ◌+◌, ◌^◌, ◌<◌, ◌≡◌, ◌≢◌, ne_==, refl, ap, subst, sym, ◌∙◌, inl, inr, Bool, true, false, not,
  none, some, [], ◌∷◌, ◌++◌, arith, length, find, any, All, All-map, All-append, any_congr,
  find_congr, any-append, find-append, any-find, any-false, find-retain, length-append,
  if◌then◌else◌, Bool-cases, PartialEq, ◌==◌, ==_refl, ==_eq,
}
use weldr.Stats
use weldr.Server.{Server, server_eq}
use weldr.Backend
use weldr.Backend.{Backend, InnerBackend, Heap, active, down, backend_eq, backend_beq_iff}
use weldr.Pool.{Pool, add, remove, add_server, remove_server, find_backend, find_server}
use weldr.Pool.Get.{IsValid}

-- Every reference of the pool points into the heap.
abbrev pub IsClosed {ℓ} : {U : Type ℓ} → Pool U → Type 0
IsClosed p = All (λ b. b < p.heap.next) p.backends

module _ {ℓ} {U : Type ℓ} where
  -- What `Backend::new` stores.
  abbrev pub fresh : Server U → InnerBackend U
  fresh s = record { server = s; state = active; stats = record { failure = 0; success = 0 } }

  -- A new backend leaves the others as they were.
  pub new-cell :
      (h : Heap U) (s : Server U) (b : Backend) → b < h.next → (Backend.new h s).0.cell b ≡ h.cell b
  unfolding Backend.new
  new-cell h s b lt = ground arith

  pub new-cell_self :
      (h : Heap U) (s : Server U) → (Backend.new h s).0.cell (Backend.new h s).1 ≡ fresh s
  unfolding Backend.new Stats.new
  new-cell_self h s = ground arith

  new-next :
      (h : Heap U) (s : Server U)
      → ((Backend.new h s).1 ≡ h.next) × ((Backend.new h s).0.next ≡ suc h.next)
  unfolding Backend.new
  new-next h s = (refl, refl)

  new-cell_next : (h : Heap U) (s : Server U) → (Backend.new h s).0.cell h.next ≡ fresh s
  unfolding Backend.new Stats.new
  new-cell_next h s = ground arith

module _ {ℓ} {U : Type ℓ} ⦃e : PartialEq U⦄ where
  -- Whether the pool holds an active backend for the server that has not counted anything.
  abbrev pub has_fresh : Pool U → Server U → Bool
  has_fresh p s = any (λ x. p.heap.cell x == fresh s) p.backends

  abbrev pub server_of : Pool U → Backend → Server U
  server_of p b = Backend.server p.heap b

  contains-has_fresh :
      (p : Pool U) (s : Server U)
      → IsClosed p
      → any
          (λ x.
            (Backend.new p.heap s).0.cell x
            == (Backend.new p.heap s).0.cell (Backend.new p.heap s).1)
          p.backends
        ≡ has_fresh p s
  contains-has_fresh p s c = rw (new-cell_self p.heap s) (
      any_congr _ _ p.backends
        (All-map (λ b lt. ap (λ v. v == fresh s) (new-cell p.heap s b lt)) p.backends c))

  -- Where no reference of the pool dangles, `Pool::add` refuses exactly when the pool holds an
  -- active backend for the server that has not counted anything, and otherwise appends a reference
  -- to a new one; in both cases `last_used` and every backend of the pool are as before.
  pub add_server_lem :
      (p : Pool U) (s : Server U)
      → IsClosed p
      → let q = (add_server p s).0 in
        ((add_server p s).1 ≡ not (has_fresh p s))
        × (q.backends ≡ (if has_fresh p s then p.backends else p.backends ++ p.heap.next ∷ []))
        × (q.last_used ≡ p.last_used)
        × (q.heap.next ≡ suc p.heap.next)
        × (q.heap.cell p.heap.next ≡ fresh s)
        × All (λ b. q.heap.cell b ≡ p.heap.cell b) p.backends
  unfolding add_server add
  add_server_lem p s c = (
    ground (arith, contains-has_fresh p s c),
    ground (arith, contains-has_fresh p s c, new-next p.heap s),
    ground (arith, contains-has_fresh p s c),
    (new-next p.heap s).1,
    new-cell_next p.heap s,
    All-map (λ b lt. new-cell p.heap s b lt) p.backends c,
  )

  -- The tests of `find` and of `contains` see the same after `add`.
  same_servers :
      (p : Pool U) (s t : Server U)
      → IsClosed p
      → find (λ b. server_of (add_server p s).0 b == t) p.backends
        ≡ find (λ b. server_of p b == t) p.backends
  same_servers p s t c =
      find_congr _ _ p.backends
        (All-map (λ b same. ap (λ v. v.server == t) same) p.backends (add_server_lem p s c).5)

  pub has_fresh-find :
      (p : Pool U) (s : Server U)
      → has_fresh p s ≡ true
      → (b : Backend) × (find_backend p s ≡ some b)
  unfolding find_backend find_server
  has_fresh-find p s h =
      any-find _ _ p.backends
        (λ b f.
          let same : p.heap.cell b ≡ fresh s = ==_eq _ _ f in
          subst (λ v. (v.server == s) ≡ true) (sym same) (==_refl s))
        h

  -- Where no reference of the pool dangles, after `Pool::add` of a server `Pool::find` finds it,
  -- and finds every other one as before.
  pub find-add_server :
      (p : Pool U) (s t : Server U)
      → IsClosed p
      → find_backend (add_server p s).0 t ≡ elim (find_backend p t) [
        | none ↦ if s == t then some p.heap.next else none
        | some b ↦ some b
      ]
  unfolding find_backend find_server
  find-add_server p s t c =
      let (_, listed, _, _, stored, _) = add_server_lem p s c in
      elim (Bool-cases (has_fresh p s)) [
        | inl old ↦
            let (b, found) = has_fresh-find p s old in
            rw (listed, old, same_servers p s t c) (ground (arith, found, ==_eq s t))
        | inr new ↦ rw (listed, new, find-append, same_servers p s t c) (ground (arith, stored))
      ]

  -- Where no reference dangles and no backend of the pool is an active one for the server that has
  -- not counted anything, `Pool::add` lists the server, once more if it is there already.
  pub add_server_again :
      (p : Pool U) (s : Server U)
      → IsClosed p
      → All (λ b. p.heap.cell b ≢ fresh s) p.backends
      → ((add_server p s).1 ≡ true)
        × ((add_server p s).0.backends ≡ p.backends ++ p.heap.next ∷ [])
        × (server_of (add_server p s).0 p.heap.next ≡ s)
  add_server_again p s c used =
      let none_fresh : has_fresh p s ≡ false =
        any-false _ p.backends (All-map (λ b ne. ne_== _ _ ne) p.backends used) in
      let (added, listed, _, _, stored, _) = add_server_lem p s c in
      (added ∙ ap not none_fresh, rw none_fresh at listed, ap (λ v. v.server) stored)

  pub add_server-IsClosed : (p : Pool U) (s : Server U) → IsClosed p → IsClosed (add_server p s).0
  add_server-IsClosed p s c =
      let (_, listed, _, grown, _, _) = add_server_lem p s c in
      let older : All (λ b. b < (add_server p s).0.heap.next) p.backends =
        All-map (λ b lt. omega (arith, grown)) p.backends c in
      elim (Bool-cases (has_fresh p s)) [
        | inl old ↦ rw (listed, old) older
        | inr new ↦ rw (listed, new) (All-append _ p.backends _ older (omega (arith, grown), tt))
      ]

  has_fresh-add_server :
      (p : Pool U) (s : Server U) → IsClosed p → has_fresh (add_server p s).0 s ≡ true
  has_fresh-add_server p s c =
      let (_, listed, _, _, stored, same) = add_server_lem p s c in
      let old_part : any (λ x. (add_server p s).0.heap.cell x == fresh s) p.backends
          ≡ has_fresh p s =
        any_congr _ _ p.backends (All-map (λ b eq. ap (λ v. v == fresh s) eq) p.backends same) in
      elim (Bool-cases (has_fresh p s)) [
        | inl old ↦ rw (listed, old) (old_part ∙ old)
        | inr new ↦
            rw (listed, new, any-append, old_part, new)
              (subst (λ v. (if v == fresh s then true else false) ≡ true) (sym stored)
                (ap (λ b. if b then true else false) (==_refl (fresh s))))
      ]

  -- Where no reference of the pool dangles, a server that is just added is refused, and the list
  -- stays.
  pub add_server_twice :
      (p : Pool U) (s : Server U)
      → IsClosed p
      → ((add_server (add_server p s).0 s).1 ≡ false)
        × ((add_server (add_server p s).0 s).0.backends ≡ (add_server p s).0.backends)
  add_server_twice p s c =
      let again = has_fresh-add_server p s c in
      let (added, listed, _, _, _, _) =
        add_server_lem (add_server p s).0 s (add_server-IsClosed p s c) in
      (added ∙ ap not again, rw again at listed)

  -- `Pool::add` keeps a valid pool valid, where no reference dangles and the list still fits a
  -- `usize`.
  pub add_server-IsValid :
      (p : Pool U) (s : Server U)
      → IsClosed p
      → length p.backends + 1 < 2 ^ 64
      → IsValid p.inner
      → IsValid (add_server p s).0.inner
  add_server-IsValid p s c room v =
      let (_, listed, kept, _, _, _) = add_server_lem p s c in
      elim (Bool-cases (has_fresh p s)) [
        | inl old ↦
            let e : (add_server p s).0.backends ≡ p.backends = rw old at listed in
            record {
              fits = omega (arith, ap length e);
              in_range = omega (arith, ap length e, kept, v.in_range);
            }
        | inr new ↦
            let e : (add_server p s).0.backends ≡ p.backends ++ p.heap.next ∷ [] =
              rw new at listed in
            let n = length-append p.backends (p.heap.next ∷ []) in
            record {
              fits = omega (arith, ap length e, n);
              in_range = omega (arith, ap length e, n, kept, v.in_range);
            }
      ]

  -- After `Pool::remove` of a server `Pool::find` does not find it, and finds every other one as
  -- before.
  pub find-remove_server :
      (p : Pool U) (s t : Server U)
      → find_backend (remove_server p s) t ≡ (if s == t then none else find_backend p t)
  unfolding find_backend find_server remove_server remove
  find-remove_server p s t = find-retain (server_of p) s t p.backends
