-- ===== src/Health/Settle.antt =====
-- One answer to a health check (src/mgmt/health.rs): what the update of the table does to the counts,
-- and what the branch that follows does to the backend.
use weldr.Common.{
  ℕ, ◌+◌, ◌^◌, ◌≤◌, ◌<◌, ◌≡◌, refl, ap, ◌∙◌, Bool, true, false, [], ◌∷◌, ◌++◌, arith, if◌then◌else◌,
  leb, PartialEq, ◌==◌,
}
use weldr.Config.{Config}
use weldr.Message.{Message, mark_server_down, mark_server_active}
use weldr.Backend
use weldr.Backend.{Backend, InnerBackend, Heap, ServerState, active, down, state_eq}
use weldr.Health.{
  HealthState, passing, failing, active_step, down_step, should_mark_active, should_mark_down,
  update_entry,
}
use weldr.Health.Table.{update_entry_lem, health_of}
use weldr.Health.Views.{
  set_state, counted, other, Counts, Counts-update, Counts-set_state, Counts-flip,
}
use weldr.Health.Check.{World, enable, disable, on_pass, on_fail}

-- What one of the two steps does to the count of its state, and that it keeps the other at 0.
abbrev pub Step : ServerState → (HealthState → HealthState × Bool) → HealthState → ℕ → Bool → Type 0
Step s f v n change =
    (counted s (f v).0 ≡ n)
    × ((f v).1 ≡ change)
    × (counted (other s) v ≡ 0 → counted (other s) (f v).0 ≡ 0)

pub pass_active : (passes : ℕ) (v : HealthState) → Step active (active_step true passes) v 0 false
unfolding active_step
pass_active passes (passing n) = (refl, refl, λ e. e)
pass_active passes (failing n) = (refl, refl, λ e. refl)

pub fail_down : (failures : ℕ) (v : HealthState) → Step down (down_step true failures) v 0 false
unfolding down_step
fail_down failures (passing n) = (refl, refl, λ e. refl)
fail_down failures (failing n) = (refl, refl, λ e. e)

pub fail_active :
    (failures : ℕ) (v : HealthState) (n : ℕ)
    → 2 ≤ failures
    → failures < 2 ^ 64
    → n < failures
    → counted active v ≡ n
    → let enough = leb failures (n + 1) in
      Step active (down_step false failures) v (if enough then 0 else n + 1) enough
unfolding down_step
fail_active failures (passing m) n two fits below e = ground arith
fail_active failures (failing m) n two fits below e = ground arith

pub pass_down :
    (passes : ℕ) (v : HealthState) (n : ℕ)
    → 2 ≤ passes
    → passes < 2 ^ 64
    → n < passes
    → counted down v ≡ n
    → let enough = leb passes (n + 1) in
      Step down (active_step false passes) v (if enough then 0 else n + 1) enough
unfolding active_step
pass_down passes (passing m) n two fits below e = ground arith
pass_down passes (failing m) n two fits below e = ground arith

-- The message for a change to a state.
abbrev pub announce {ℓ} : {U : Type ℓ} → ServerState → U → Message U
announce active url = mark_server_active url
announce down url = mark_server_down url

module _ {ℓ} {U : Type ℓ} ⦃e : PartialEq U⦄ (hash : InnerBackend U → ℕ) where
  -- Both closures: an update of the table, and what follows if its answer is true.
  unfoldable pub settle :
      (World U → World U) → (HealthState → HealthState × Bool) → World U → Backend → World U
  settle act f w b =
      let (m, answer) = update_entry hash f w.heap b w.health.health_state in
      let w' = record w { health = record { health_state = m } } in if answer then act w' else w'

  -- The backend is in state `s`, and the table counts `n` for it.
  pub record Follows (w : World U) (b : Backend) (s : ServerState) (n : ℕ) : Type 0 where
    pub is : (w.heap.cell b).state ≡ s
    pub counts : Counts hash w.heap b w.health.health_state s n

  -- What both branches of the closure do to the world when the state changes to `t`.
  unfoldable pub change : ServerState → World U → Backend → World U
  change t w b = record w {
    heap = set_state w.heap b t;
    published = w.published ++ announce t (w.heap.cell b).server.url ∷ [];
  }

  pub enable-change : (w : World U) (b : Backend) → enable w b ≡ change active w b
  unfolding enable change Backend.mark_active
  enable-change w b = ground arith

  pub disable-change : (w : World U) (b : Backend) → disable w b ≡ change down w b
  unfolding disable change Backend.mark_down
  disable-change w b = ground arith

  module _ (f : HealthState → HealthState × Bool) (act : World U → World U) (w : World U)
      (b : Backend) (s : ServerState) (c n : ℕ) (k : Follows w b s c) where
    abbrev pub here : HealthState
    here = health_of hash w.heap b w.health.health_state

    pub settle_stays :
        Step s f here n false
        → Follows (settle act f w b) b s n × ((settle act f w b).published ≡ w.published)
    unfolding settle
    settle_stays (counts, answer, keeps) =
        let a = (update_entry_lem hash f w.heap b w.health.health_state).0 ∙ answer in
        rw a (
          record {
            is = k.is;
            counts =
                Counts-update hash f w.heap b w.health.health_state s c n k.is k.counts counts
                  keeps;
          },
          refl,
        )

    pub settle_turns :
        ((v : World U) → act v ≡ change (other s) v b)
        → Step s f here 0 true
        → Follows (settle act f w b) b (other s) 0
          × ((settle act f w b).published
              ≡ w.published ++ announce (other s) (w.heap.cell b).server.url ∷ [])
    unfolding settle change
    settle_turns acts (counts, answer, keeps) =
        let a = (update_entry_lem hash f w.heap b w.health.health_state).0 ∙ answer in
        rw (a, acts _)
          (
            record {
              is = ground arith;
              counts = Counts-set_state hash w.heap b _ (other s) (other s) 0 (
                  Counts-flip hash w.heap b _ s (
                    Counts-update hash f w.heap b w.health.health_state s c 0 k.is k.counts counts
                      keeps));
            },
            refl,
          )

  module _ (config : Config) (w : World U) (b : Backend) where
    open config use {health_check.{failures, passes}}

    pub on_pass-settle :
        (s : ServerState)
        → (w.heap.cell b).state ≡ s
        → on_pass hash config w b ≡ settle (λ v. enable v b) (active_step (s == active) passes) w b
    unfolding on_pass settle should_mark_active
    on_pass-settle s is =
        ap (λ t. settle (λ v. enable v b) (active_step (t == active) passes) w b) is

    pub on_fail-settle :
        (s : ServerState)
        → (w.heap.cell b).state ≡ s
        → on_fail hash config w b ≡ settle (λ v. disable v b) (down_step (s == down) failures) w b
    unfolding on_fail settle should_mark_down
    on_fail-settle s is =
        ap (λ t. settle (λ v. disable v b) (down_step (t == down) failures) w b) is
