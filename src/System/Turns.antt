-- ===== src/System/Turns.antt =====
-- What the manager's own turns (src/mgmt/mod.rs) do to its pool, and what they publish of that.
use weldr.Common.{
  All-got, ℕ, ◌<◌, ◌≡◌, refl, ap, sym, subst, ◌∙◌, true, Option, none, List, [], ◌∷◌, ◌++◌, map,
  get_elem?, arith, All, All-map, All-append, All-find, Bool-cases, Option-cases, inl, inr,
  PartialEq, ==_refl, String,
}
use weldr.Config.{Config}
use weldr.Message.{Message}
use weldr.Server.{Server, server_eq}
use weldr.Backend.{Backend}
use weldr.Pool
use weldr.Pool.{Pool, find_backend, find_server}
use weldr.Pool.Members.{IsClosed, has_fresh, add_server_lem, find-add_server}
use weldr.Health.Check.{World, CheckResult, start_check, start_checks, run, on_result}
use weldr.Manager.Publisher.{remove_at}
use weldr.Manager.Keys.{All-remove_at}
use weldr.Worker.Status.{status, announced_all, add-state}
use weldr.Agreement.{pool_of, IsFirst, Told, kept-IsFirst}
use weldr.Agreement.Checks.{start_checks-Told, on_result-Told}
use weldr.Health.Streak.{on_result-Others}
use weldr.System.Channel.{publish_all}
use weldr.System.Additions.{AddsNew, marks-AddsNew}
use weldr.System.{ManagerProcess, Setting, world_of, commit, react, tick, answered}

module _ {ℓ} {U : Type ℓ} ⦃e : PartialEq U⦄ where
  pub IsFirst-below : (p : Pool U) (b : Backend) → IsClosed p → IsFirst p b → b < p.heap.next
  unfolding find_backend find_server
  IsFirst-below p b c f = All-find _ _ p.backends b c f.first

  pub added-IsFirst :
      (p : Pool U) (s : Server U) (b : Backend)
      → IsClosed p
      → IsFirst p b
      → IsFirst (Pool.add_server p s).0 b
  added-IsFirst p s b c f =
      let same : (Pool.add_server p s).0.heap.cell b ≡ p.heap.cell b =
        add-state p s (p.heap.cell b).server b c f.first in
      record {
        first = rw (same, find-add_server p s (p.heap.cell b).server c, f.first) refl;
        maps = ap (λ v. v.server.map_host) same ∙ f.maps;
      }

  new-IsFirst :
      (p : Pool U) (s : Server U)
      → IsClosed p
      → find_backend p s ≡ none
      → s.map_host ≡ true
      → IsFirst (Pool.add_server p s).0 p.heap.next
  new-IsFirst p s c missing maps =
      let stored = (add_server_lem p s c).4 in
      record {
        first = rw (stored, find-add_server p s s c, missing) (ground (arith, ==_refl s));
        maps = ap (λ v. v.server.map_host) stored ∙ maps;
      }

  pub add-All-IsFirst :
      (p : Pool U) (s : Server U)
      → IsClosed p
      → find_backend p s ≡ none
      → s.map_host ≡ true
      → All (IsFirst p) p.backends
      → All (IsFirst (Pool.add_server p s).0) (Pool.add_server p s).0.backends
  add-All-IsFirst p s c missing maps all =
      let q = (Pool.add_server p s).0 in
      let listed = (add_server_lem p s c).1 in
      let older : All (IsFirst q) p.backends =
        All-map (λ b f. added-IsFirst p s b c f) p.backends all in
      elim (Bool-cases (has_fresh p s)) [
        | inl old ↦ rw (listed, old) older
        | inr new ↦
            rw (listed, new) (All-append _ p.backends _ older (new-IsFirst p s c missing maps, tt))
      ]

module _ {ℓ κ} {U : Type ℓ} ⦃e : PartialEq U⦄ where
  -- Only backends of the pool are checked.
  sent-All :
      (P : Backend → Type κ) (parse : String → Option U) (display : U → String) (config : Config)
      (w : World U) (bs : List Backend)
      → All P bs
      → All P (map (λ x. x.0) (start_checks parse display config w bs).1)
  unfolding start_checks
  sent-All P parse display config w [] all = tt
  sent-All P parse display config w (b ∷ bs) all =
      let (w', sent) = start_check parse display config w b in
      let rest = sent-All P parse display config w' bs all.1 in
      elim (Option-cases sent) [
        | inl not_sent ↦ rw (not_sent, start_checks) rest
        | inr (url, is) ↦ rw (is, start_checks) (all.0, rest)
      ]

module _ {ℓ κ} {U : Type ℓ} ⦃e : PartialEq U⦄ {C : Type κ} where
  -- No reference of the manager dangles, and every backend is the first for its server.
  pub record ManagerInv (m : ManagerProcess U C) : Type ℓ where
    pub closed : IsClosed m.mgmt.pool
    pub firsts : All (IsFirst m.mgmt.pool) m.mgmt.pool.backends
    pub checked : All (IsFirst m.mgmt.pool) m.checks

  -- What is published from one state to the next tells what becomes of every server, and adds none
  -- that is listed.
  abbrev pub Published : ManagerProcess U C → ManagerProcess U C → Type (ℓ ⊔ κ)
  Published m m' =
      (ms : List (Message U)) × (m'.mgmt.manager.publisher
        ≡ publish_all ms m.mgmt.manager.publisher)
      × ((t : Server U) → status m'.mgmt.pool t ≡ announced_all (status m.mgmt.pool) ms t)
      × AddsNew (status m.mgmt.pool) ms

  pub Published-same : (m m' : ManagerProcess U C) → m'.mgmt ≡ m.mgmt → Published m m'
  unfolding publish_all announced_all
  Published-same m m' same =
      ([], ap (λ g. g.manager.publisher) same, (λ t. ap (λ g. status g.pool t) same), tt)

  pub commit-Published :
      (m : ManagerProcess U C) (w : World U) (checks : List Backend)
      → Told (world_of m) w
      → Published m (commit m w checks)
  unfolding commit
  commit-Published m w checks (ms, said, told, marks) = (
    ms,
    ap (λ q. publish_all q m.mgmt.manager.publisher) said,
    told,
    marks-AddsNew (status m.mgmt.pool) ms marks,
  )

  pub commit-ManagerInv :
      (m : ManagerProcess U C) (w : World U) (checks : List Backend)
      → w.pool ≡ m.mgmt.pool.inner
      → w.heap.next ≡ m.mgmt.pool.heap.next
      → ((i : Backend) → IsFirst m.mgmt.pool i → IsFirst (pool_of w) i)
      → ManagerInv m
      → All (IsFirst m.mgmt.pool) checks
      → ManagerInv (commit m w checks)
  unfolding commit
  commit-ManagerInv m w checks pools nexts keeps v all = record {
    closed = rw (pools, nexts) v.closed;
    firsts =
        subst (λ p. All (IsFirst (pool_of w)) p.backends) (sym pools)
          (All-map keeps m.mgmt.pool.backends v.firsts);
    checked = All-map keeps checks all;
  }

  module _ {Chunk S : Type 0} (setting : Setting U Chunk S) where
    open setting use {json, text, hash, is_success, config}

    -- What the start of the checks publishes, and keeps
    pub tick-turn :
        (m : ManagerProcess U C)
        → ManagerInv m
        → Published m (react setting m tick) × ManagerInv (react setting m tick)
    unfolding react run
    tick-turn m v =
        let w = world_of m in
        let bs = m.mgmt.pool.backends in
        let (w', sent) = start_checks text.parse text.display config w bs in
        let (told, keeps, pools, nexts) =
          start_checks-Told text.parse text.display config w bs v.firsts in
        let checks = m.checks ++ map (λ x. x.0) sent in
        (
          commit-Published m w' checks told,
          commit-ManagerInv m w' checks pools nexts keeps v (
              All-append _ m.checks _ v.checked
                (sent-All _ text.parse text.display config w bs v.firsts)),
        )

    pub answered-turn :
        (m : ManagerProcess U C) (i : ℕ) (r : CheckResult S)
        → ManagerInv m
        → Published m (react setting m (answered i r)) × ManagerInv (react setting m (answered i r))
    unfolding react
    answered-turn m i r v = elim (Option-cases (get_elem? m.checks i)) [
      | inl gone ↦ rw (gone, react) (Published-same m m refl, v)
      | inr (b, there) ↦
          let w = world_of m in
          let w' = on_result hash is_success config w b r in
          let first : IsFirst m.mgmt.pool b = All-got _ m.checks i b v.checked there in
          let others = on_result-Others hash is_success config w b r in
          let checks = remove_at m.checks i in
          rw (there, react)
            (
              commit-Published m w' checks (on_result-Told hash is_success config w b r first),
              commit-ManagerInv m w' checks others.0 others.3
                  (λ j f. kept-IsFirst w w' b j others f) v (All-remove_at _ m.checks i v.checked),
            )
    ]
