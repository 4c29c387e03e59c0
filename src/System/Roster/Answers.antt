-- ===== src/System/Roster/Answers.antt =====
-- An answer to a check (src/mgmt/health.rs) against the specification.
use weldr.Common.{
  ◌≡◌, ◌≢◌, refl, ap, sym, subst, ◌∙◌, ℕ, zero, suc, inl, inr, true, false, Bool-cases, some, List,
  [], ◌∷◌, map, All, All-map, All-both, All-got, PartialEq, arith, nat_beq, ◌==◌, ==_refl, ==_eq,
  ne_==, get_elem?,
}
use mathlib.Core.Option
use mathlib.Core.Path.{fun_ext}
use weldr.Server.{Server, server_eq}
use weldr.Backend
use weldr.Backend.{Backend, Heap}
use weldr.Manager.Publisher.{remove_at}
use weldr.Manager.Keys.{All-remove_at}
use weldr.Health.Check.{World, CheckResult, on_result}
use weldr.Health.Watch.{Watch, watch, IsSane, Tracks, succeeded, on_result-watch}
use weldr.Health.Streak.{on_result-Others, on_result-stats}
use weldr.Health.Apart.{on_result-elsewhere}
use weldr.Health.Keys.{on_result-Keys}
use weldr.Agreement.{pool_of, IsFirst, kept-IsFirst}
use weldr.System.{Setting}
use weldr.System.Roster.{Roster, checkable, put, counts}
use weldr.System.Roster.Mirrors.{Mirrors, first-apart}

module _ {ℓ κ} {A : Type ℓ} {B : Type κ} (f : A → B) where
  pub get_elem?-map : (xs : List A) (i : ℕ) → get_elem? (map f xs) i ≡ Option.map f (get_elem? xs i)
  get_elem?-map [] i = refl
  get_elem?-map (x ∷ xs) zero = refl
  get_elem?-map (x ∷ xs) (suc i) = get_elem?-map xs i

  map-remove_at : (xs : List A) (i : ℕ) → map f (remove_at xs i) ≡ remove_at (map f xs) i
  unfolding remove_at
  map-remove_at [] i = refl
  map-remove_at (x ∷ xs) zero = refl
  map-remove_at (x ∷ xs) (suc i) = ap (◌∷◌ (f x)) (map-remove_at xs i)

module _ {ℓ} {U : Type ℓ} ⦃e : PartialEq U⦄ {Chunk S : Type 0} (setting : Setting U Chunk S) where
  open setting use {hash, is_success, config, config.{health_check.{failures, passes}}}

  module _ (w : World U) (checks : List Backend) (a : Roster U) (i : ℕ) (b : Backend)
      (r : CheckResult S) (sane : IsSane config) (first : IsFirst (pool_of w) b)
      (there : get_elem? checks i ≡ some b) (v : Mirrors setting w checks a) where
    abbrev s : Server U
    s = (w.heap.cell b).server

    abbrev w' : World U
    w' = on_result hash is_success config w b r

    -- The check is of one that the specification awaits.
    awaited_here : get_elem? a.awaited i ≡ some s
    awaited_here =
        ap (λ l. get_elem? l i) (sym v.awaits)
        ∙ get_elem?-map (Backend.server w.heap) checks i
        ∙ ap (Option.map _) there

    asked_here : checkable setting s ≡ true
    asked_here = All-got _ a.awaited i s v.asked awaited_here

    counted_calm :
        (n : Watch) (t : Server U) → checkable setting t ≡ false → (put s n a.watched t).count ≡ 0
    counted_calm n t cannot = elim (Bool-cases (s == t)) [
      | inl same ↦
          let can : checkable setting t ≡ true =
            ap (checkable setting) (sym (==_eq s t same)) ∙ asked_here in
          cc (can, cannot)
      | inr apart ↦ rw apart (v.calm t cannot)
    ]

    abbrev counted : Watch
    counted = (watch failures passes (a.watched s) (succeeded is_success r)).0

    counted-Tracks :
        (c : Backend)
        → IsFirst (pool_of w) c
        → Tracks hash config w c (a.watched (w.heap.cell c).server)
        → Tracks hash config w' c (put s counted a.watched (w.heap.cell c).server)
    counted-Tracks c fc t = elim (Bool-cases (nat_beq b c)) [
      | inl own ↦
          let same : b ≡ c = ground (arith, own) in
          subst
            (λ j.
              Tracks hash config w j (a.watched (w.heap.cell j).server)
              → Tracks hash config w' j (put s counted a.watched (w.heap.cell j).server))
            same
            (λ t'.
              rw (==_refl s) (on_result-watch hash config w b sane is_success (a.watched s) r t').0)
            t
      | inr other ↦
          let ne : b ≢ c = ground (arith, other) in
          let apart = first-apart (pool_of w) b c first fc ne in
          rw (ne_== s (w.heap.cell c).server apart) (record {
            follows = on_result-elsewhere hash w b c _ _ apart t.follows is_success config r;
            below = t.below;
          })
    ]

    pub answered-Mirrors :
        All (IsFirst (pool_of w)) w.pool.backends
        → Mirrors setting w' (remove_at checks i) (counts setting a i s r)
    unfolding counts
    answered-Mirrors firsts =
        let others = on_result-Others hash is_success config w b r in
        let (pools, servers, _, _) = others in
        let moved : Backend.server w'.heap ≡ Backend.server w.heap = fun_ext servers in
        let Tracked =
          λ (c : Backend) (t : Server U). Tracks hash config w' c (put s counted a.watched t) in
        record {
          lists =
              ap (map (Backend.server w'.heap)) (ap (λ p. p.backends) pools)
              ∙ ap (λ f. map f w.pool.backends) moved
              ∙ v.lists;
          awaits =
              ap (λ f. map f (remove_at checks i)) moved
              ∙ map-remove_at (Backend.server w.heap) checks i
              ∙ ap (λ l. remove_at l i) v.awaits;
          tracks =
              subst (λ p. All (λ c. Tracked c (w'.heap.cell c).server) p.backends) (sym pools)
                (All-both (λ c fc t. subst (Tracked c) (sym (servers c)) (counted-Tracks c fc t))
                  w.pool.backends firsts v.tracks);
          keyed =
              All-map (λ x f. kept-IsFirst w w' b x.key others f) w'.health.health_state
                (on_result-Keys hash (IsFirst (pool_of w)) is_success config w b first v.keyed r);
          uncounted =
              subst
                (λ p.
                  All (λ c. (w'.heap.cell c).stats ≡ record { failure = 0; success = 0 })
                    p.backends)
                (sym pools)
                (All-map (λ c none_yet. on_result-stats hash is_success config w b r c ∙ none_yet)
                  w.pool.backends v.uncounted);
          calm = counted_calm counted;
          asked = All-remove_at _ a.awaited i v.asked;
        }
