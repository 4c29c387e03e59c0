-- ===== src/Health/Bounds.antt =====
-- How many failed checks mark a server down (src/mgmt/health.rs), and where it is one more than the
-- configuration says.
use weldr.Common.{
  ℕ, zero, suc, ◌+◌, ◌<◌, ◌≡◌, ap, ◌∙◌, Bool, true, false, List, [], ◌∷◌, ◌++◌, map, replicate,
  refl, arith, if◌then◌else◌, leb, ltb, PartialEq, append-nil, ◌≤◌,
}
use weldr.Config.{Config}
use weldr.Message.{mark_server_down}
use weldr.Backend.{Backend, InnerBackend, active, down, state_eq}
use weldr.Health.{HealthState, passing, failing, down_step, update_entry}
use weldr.Health.Table.{health_of, update_entry_lem}
use weldr.Health.Check.{World, CheckResult, response, error, on_result, on_fail, disable}
use weldr.Health.Settle.{settle, change, on_fail-settle, disable-change}
use weldr.Health.Watch.{watch, IsSane, Tracks, succeeded}
use weldr.Health.Streak.{watch_all, on_results, on_results-watch}

fails_short :
    (failures passes n k : ℕ)
    → n + k < failures
    → watch_all failures passes (record { state = active; count = n }) (replicate k false)
      ≡ (record { state = active; count = n + k }, [])
unfolding watch_all watch
fails_short failures passes n zero h = ground arith
fails_short failures passes n (suc k) h =
    let more : leb failures (n + 1) ≡ false = ground arith in
    rw more (ground (arith, fails_short failures passes (n + 1) k))

fails_enough :
    (failures passes n k : ℕ)
    → n + suc k ≡ failures
    → watch_all failures passes (record { state = active; count = n }) (replicate (suc k) false)
      ≡ (record { state = down; count = 0 }, down ∷ [])
unfolding watch_all watch
fails_enough failures passes n zero h =
    let enough : leb failures (n + 1) ≡ true = ground arith in rw enough
fails_enough failures passes n (suc k) h =
    let more : leb failures (n + 1) ≡ false = ground arith in
    rw more (fails_enough failures passes (n + 1) k (omega arith))

-- From a count of 0, fewer failures in a row than required leave a server active, and as many mark it
-- down at the last of them.
pub watch_all-failures :
    (failures passes k : ℕ)
    → k ≤ failures
    → 0 < failures
    → watch_all failures passes (record { state = active; count = 0 }) (replicate k false) ≡ (
        if ltb k failures
        then (record { state = active; count = k }, [])
        else (record { state = down; count = 0 }, down ∷ []))
watch_all-failures failures passes zero h pos = ground (arith, fails_short failures passes 0 0)
watch_all-failures failures passes (suc k) h pos =
    ground (arith, fails_short failures passes 0 (suc k), fails_enough failures passes 0 k)

module _ {ℓ} {U : Type ℓ} ⦃e : PartialEq U⦄ (hash : InnerBackend U → ℕ) where
  -- One failed check of an active backend: the entry moves, and what is answered decides on the rest.
  module _ (config : Config) (w : World U) (b : Backend) (v : HealthState)
      (is : (w.heap.cell b).state ≡ active)
      (old : health_of hash w.heap b w.health.health_state ≡ v) where
    open config use {health_check.{failures}}

    moved : World U
    moved = record w {
      health = record {
        health_state =
            (update_entry hash (down_step false failures) w.heap b w.health.health_state).0;
      };
    }

    moved-health :
        health_of hash moved.heap b moved.health.health_state ≡ (down_step false failures v).0
    unfolding moved
    moved-health =
        (update_entry_lem hash (down_step false failures) w.heap b w.health.health_state).1
        ∙ ap (λ x. (down_step false failures x).0) old

    fails-by :
        (answer : Bool)
        → (down_step false failures v).1 ≡ answer
        → on_fail hash config w b ≡ (if answer then disable moved b else moved)
    unfolding moved settle
    fails-by answer said =
        let told =
          (update_entry_lem hash (down_step false failures) w.heap b w.health.health_state).0
          ∙ ap (λ x. (down_step false failures x).1) old
          ∙ said in
        on_fail-settle hash config w b active is
        ∙ ap (λ t. if t then disable moved b else moved) told

  module _ {S : Type 0} (is_success : S → Bool) (config : Config) where
    open config use {health_check.{failures, passes}}

    -- If the limits of the configuration are at least 2 and fit a `u64`, then from a count of 0 as
    -- many failed checks in a row as required mark an active backend down and publish that once;
    -- fewer do neither.
    pub failures_disable :
        (w : World U) (b : Backend) (rs : List (CheckResult S)) (k : ℕ)
        → IsSane config
        → Tracks hash config w b (record { state = active; count = 0 })
        → map (succeeded is_success) rs ≡ replicate k false
        → k ≤ failures
        → let w' = on_results hash is_success config w b rs in
          ((w'.heap.cell b).state ≡ (if ltb k failures then active else down))
          × (w'.published ≡ (
              if ltb k failures
              then w.published
              else w.published ++ mark_server_down (w.heap.cell b).server.url ∷ []))
    failures_disable w b rs k sane t fail le =
        let (t', said) = on_results-watch hash is_success config w b _ rs sane t in
        let spec =
          ap (watch_all failures passes (record { state = active; count = 0 })) fail
          ∙ watch_all-failures failures passes k le (omega (arith, sane.failures_two)) in
        (t'.follows.is ∙ ground (arith, spec), said ∙ ground (arith, spec, append-nil w.published))

    on_result-fail :
        (w : World U) (b : Backend) (r : CheckResult S)
        → succeeded is_success r ≡ false
        → on_result hash is_success config w b r ≡ on_fail hash config w b
    unfolding on_result
    on_result-fail w b (response status) bad = rw bad refl
    on_result-fail w b error bad = refl

    -- If fewer than two failures are required, and the table has an active backend as passing, be
    -- it for want of an entry, then the first of two failed checks leaves it active and publishes
    -- nothing, and the second marks it down and publishes that once.
    pub two_failures :
        (w : World U) (b : Backend) (n : ℕ) (r1 r2 : CheckResult S)
        → failures < 2
        → (w.heap.cell b).state ≡ active
        → health_of hash w.heap b w.health.health_state ≡ passing n
        → succeeded is_success r1 ≡ false
        → succeeded is_success r2 ≡ false
        → let w1 = on_result hash is_success config w b r1 in
          let w2 = on_result hash is_success config w1 b r2 in
          ((w1.heap.cell b).state ≡ active)
          × (w1.published ≡ w.published)
          × ((w2.heap.cell b).state ≡ down)
          × (w2.published ≡ w.published ++ mark_server_down (w.heap.cell b).server.url ∷ [])
    unfolding down_step moved change
    two_failures w b n r1 r2 few is old bad1 bad2 =
        let m = moved config w b (passing n) is old in
        let first =
          on_result-fail w b r1 bad1 ∙ fails-by config w b (passing n) is old false refl in
        let entry : health_of hash m.heap b m.health.health_state ≡ failing 1 =
          moved-health config w b (passing n) is old in
        let enough : leb failures 2 ≡ true = ground (arith, few) in
        let second =
          on_result-fail m b r2 bad2
          ∙ fails-by config m b (failing 1) is entry true (rw enough refl)
          ∙ disable-change hash _ b in
        rw (first, second) (is, refl, ground arith, refl)
