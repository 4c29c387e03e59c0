-- ===== src/System/Roster/Ticks.antt =====
-- The start of the checks (src/mgmt/health.rs) against the specification.
use weldr.Common.{
  ◌≡◌, refl, ap, sym, subst, ◌∙◌, inl, inr, false, Bool-cases, List, ◌++◌, map, map-append, All,
  All-map, All-both, All-append, All-retained, PartialEq, arith, nat_beq, retain, if◌then◌else◌,
}
use mathlib.Core.Path.{fun_ext}
use weldr.Server.{Server, server_eq}
use weldr.Backend
use weldr.Backend.{Backend, Heap, ServerState, active, down}
use weldr.Pool.{find_backend, find_server}
use weldr.Health.Check.{World, start_checks}
use weldr.Health.Settle.{Follows}
use weldr.Health.Watch.{IsSane, Tracks}
use weldr.Agreement.{pool_of, IsFirst}
use weldr.Agreement.Checks.{start_checks-Told}
use weldr.System.{Setting}
use weldr.System.Roster.{Roster, checkable, down_watch, checks_all}
use weldr.System.Roster.Mirrors.{Mirrors, first-apart}
use weldr.System.Roster.Starts.{
  started, Apart, start_checks-health, start_checks-stats, start_checks-Serves, start_checks-sent,
  start_checks-stays, start_checks-turns,
}

module _ {ℓ} {U : Type ℓ} ⦃e : PartialEq U⦄ {Chunk S : Type 0} (setting : Setting U Chunk S) where
  open setting use {text.{parse, display}, hash, is_success, config}

  pub first-Apart :
      (w : World U) (b : Backend) (bs : List Backend)
      → IsFirst (pool_of w) b
      → All (IsFirst (pool_of w)) bs
      → Apart setting (Backend.server w.heap) b bs
  first-Apart w b bs fb all =
      All-map
        (λ i fi. elim (Bool-cases (nat_beq i b)) [
          | inl same ↦ inl (ground (arith, same))
          | inr other ↦ inr (first-apart (pool_of w) i b fi fb (ground (arith, other)))
        ])
        bs all

  started-Tracks :
      (w : World U) (a : Roster U) (b : Backend)
      → IsSane config
      → All (IsFirst (pool_of w)) w.pool.backends
      → ((t : Server U) → checkable setting t ≡ false → (a.watched t).count ≡ 0)
      → IsFirst (pool_of w) b
      → Tracks hash config w b (a.watched (w.heap.cell b).server)
      → Tracks hash config (started setting w w.pool.backends) b (
          if checkable setting (w.heap.cell b).server
          then a.watched (w.heap.cell b).server
          else down_watch)
  unfolding find_backend find_server
  started-Tracks w a b sane firsts calm fb t =
      let bs = w.pool.backends in
      let s = (w.heap.cell b).server in
      let apart = first-Apart w b bs fb firsts in
      let serves = Backend.server w.heap in
      elim (Bool-cases (checkable setting s)) [
        | inl can ↦ rw can (record {
          follows =
              start_checks-stays setting serves b w bs (a.watched s).state (a.watched s).count
                (λ i. refl) apart (inl can) t.follows;
          below = t.below;
        })
        | inr cannot ↦
            let none_counted =
              subst (Follows hash w b (a.watched s).state) (calm s cannot) t.follows in
            rw cannot (record {
              follows =
                  start_checks-turns setting serves b w bs (a.watched s).state (λ i. refl) apart
                    cannot fb.first none_counted;
              below = omega (arith, sane.passes_two);
            })
      ]

  -- The start of the checks
  pub started-Mirrors :
      (w : World U) (checks : List Backend) (a : Roster U)
      → IsSane config
      → All (IsFirst (pool_of w)) w.pool.backends
      → Mirrors setting w checks a
      → Mirrors setting
          (started setting w w.pool.backends)
          (checks ++ map (λ x. x.0) (start_checks parse display config w w.pool.backends).1)
          (checks_all setting a)
  started-Mirrors w checks a sane firsts v =
      let bs = w.pool.backends in
      let w' = started setting w bs in
      let serves = Backend.server w.heap in
      let servers = start_checks-Serves setting serves w bs (λ i. refl) in
      let (_, keeps, pools, _) = start_checks-Told parse display config w bs firsts in
      let sent = start_checks-sent setting serves w bs (λ i. refl) in
      let health = start_checks-health setting w bs in
      let Tracked = λ (b : Backend) (s : Server U).
        Tracks hash config w' b ((checks_all setting a).watched s) in
      let moved : Backend.server w'.heap ≡ serves = fun_ext servers in
      record {
        lists = rw (moved, pools) v.lists;
        awaits = rw moved (
            map-append serves checks _
            ∙ ap (λ r. map serves checks ++ r) sent
            ∙ ap (λ l. l ++ retain (checkable setting) (map serves bs)) v.awaits
            ∙ ap (λ l. a.awaited ++ retain (checkable setting) l) v.lists);
        tracks =
            subst (λ p. All (λ b. Tracked b (w'.heap.cell b).server) p.backends) (sym pools)
              (All-both
                (λ b fb t.
                  subst (Tracked b) (sym (servers b))
                    (started-Tracks w a b sane firsts v.calm fb t))
                bs firsts v.tracks);
        keyed =
            subst (λ h. All (λ x. IsFirst (pool_of w') x.key) h.health_state) (sym health)
              (All-map (λ x. keeps x.key) _ v.keyed);
        uncounted =
            subst
              (λ p.
                All (λ b. (w'.heap.cell b).stats ≡ record { failure = 0; success = 0 }) p.backends)
              (sym pools)
              (All-map (λ b none_yet. start_checks-stats setting w bs b ∙ none_yet) bs v.uncounted);
        calm = λ t cannot. rw cannot refl;
        asked = All-append _ a.awaited _ v.asked (All-retained (checkable setting) a.listed);
      }
