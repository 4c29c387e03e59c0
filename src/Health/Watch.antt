-- ===== src/Health/Watch.antt =====
-- The health checks of one backend (src/mgmt/health.rs) against a counter of consecutive results.
use weldr.Common.{
  ℕ, ◌+◌, ◌^◌, ◌≤◌, ◌<◌, ◌≡◌, refl, Bool, true, false, [], ◌∷◌, ◌++◌, arith, if◌then◌else◌, leb,
  Bool-cases, inl, inr, PartialEq,
}
use weldr.Config.{Config}
use weldr.Backend.{Backend, InnerBackend, ServerState, active, down, state_eq}
use weldr.Health.{HealthState, active_step, down_step}
use weldr.Health.Table.{health_of}
use weldr.Health.Views.{set_state_same, counted, other}
use weldr.Health.Check.{
  World, CheckResult, response, error, enable, disable, on_pass, on_fail, on_result,
}
use weldr.Health.Settle.{
  Step, pass_active, fail_down, fail_active, pass_down, announce, settle, Follows, change,
  enable-change, disable-change, settle_stays, settle_turns, on_pass-settle, on_fail-settle,
}

-- The specification: the state of the server, and how many results in a row spoke for a change.
pub record Watch : Type 0 where
  pub state : ServerState
  pub count : ℕ

-- One more result; with it, whether the state changes.
abbrev watch_state : ℕ → ℕ → ServerState → ℕ → Bool → Watch × Bool
watch_state failures passes active n true = (record { state = active; count = 0 }, false)
watch_state failures passes active n false =
    if leb failures (n + 1)
    then (record { state = down; count = 0 }, true)
    else (record { state = active; count = n + 1 }, false)
watch_state failures passes down n false = (record { state = down; count = 0 }, false)
watch_state failures passes down n true =
    if leb passes (n + 1)
    then (record { state = active; count = 0 }, true)
    else (record { state = down; count = n + 1 }, false)

unfoldable pub watch : ℕ → ℕ → Watch → Bool → Watch × Bool
watch failures passes w = watch_state failures passes w.state w.count

-- The configured number of results in a row that changes the state.
abbrev pub limit : Config → ServerState → ℕ
limit config active = config.health_check.failures
limit config down = config.health_check.passes

pub record IsSane (config : Config) : Type 0 where
  pub failures_two : 2 ≤ config.health_check.failures
  pub failures_fit : config.health_check.failures < 2 ^ 64
  pub passes_two : 2 ≤ config.health_check.passes
  pub passes_fit : config.health_check.passes < 2 ^ 64

-- Whether a check passed.
abbrev pub succeeded : {S : Type 0} → (S → Bool) → CheckResult S → Bool
succeeded is_success (response status) = is_success status
succeeded is_success error = false

module _ {ℓ} {U : Type ℓ} ⦃e : PartialEq U⦄ (hash : InnerBackend U → ℕ) where
  -- The backend stands as the watch says, which is below the limit of its state.
  pub record Tracks (config : Config) (w : World U) (b : Backend) (s : Watch) : Type 0 where
    pub follows : Follows hash w b s.state s.count
    pub below : s.count < limit config s.state

  -- The world `w'` after one result: the backend tracks, and a change is announced.
  abbrev pub Watches : Config → World U → World U → Backend → Watch × Bool → Type ℓ
  Watches config w w' b (s, changed) =
      Tracks config w' b s
      × (w'.published ≡ (
          if changed
          then w.published ++ announce s.state (w.heap.cell b).server.url ∷ []
          else w.published))

  counted_here :
      (w : World U) (b : Backend) (s : ServerState) (n : ℕ)
      → Follows hash w b s n
      → counted s (health_of hash w.heap b w.health.health_state) ≡ n
  counted_here w b s n k = rw (set_state_same w.heap b s k.is) at k.counts.now

  other-limit : (config : Config) (s : ServerState) → IsSane config → 0 < limit config (other s)
  other-limit config active sane = omega (arith, sane.passes_two)
  other-limit config down sane = omega (arith, sane.failures_two)

  -- A result that speaks for a change.
  settle_counts :
      (f : HealthState → HealthState × Bool) (act : World U → World U) (config : Config)
      (w : World U) (b : Backend) (s : ServerState) (n : ℕ) (enough : Bool)
      → IsSane config
      → Tracks config w b (record { state = s; count = n })
      → ((v : World U) → act v ≡ change hash (other s) v b)
      → leb (limit config s) (n + 1) ≡ enough
      → Step s f
          (health_of hash w.heap b w.health.health_state)
          (if enough then 0 else n + 1)
          enough
      → Watches config w (settle hash act f w b) b (
          if enough
          then (record { state = other s; count = 0 }, true)
          else (record { state = s; count = n + 1 }, false))
  settle_counts f act config w b s n true sane t acts lim step =
      let (k, said) = settle_turns hash f act w b s n 0 t.follows acts step in
      (record { follows = k; below = other-limit config s sane }, said)
  settle_counts f act config w b s n false sane t acts lim step =
      let (k, same) = settle_stays hash f act w b s n (n + 1) t.follows step in
      (record { follows = k; below = ground (arith, lim) }, same)

  module _ (config : Config) (w : World U) (b : Backend) (sane : IsSane config) where
    open config use {health_check.{failures, passes}}

    on_pass-watch :
        (s : ServerState) (n : ℕ)
        → Tracks config w b (record { state = s; count = n })
        → Watches config w (on_pass hash config w b) b (watch_state failures passes s n true)
    on_pass-watch active n t =
        let (k, same) =
          settle_stays hash (active_step true passes) (λ v. enable v b) w b active n 0 t.follows
            (pass_active passes _) in
        rw (on_pass-settle hash config w b active t.follows.is)
          (record { follows = k; below = omega (arith, sane.failures_two) }, same)
    on_pass-watch down n t = rw (on_pass-settle hash config w b down t.follows.is) (
        settle_counts (active_step false passes) (λ v. enable v b) config w b down n
          (leb passes (n + 1)) sane t (λ v. enable-change hash v b) refl
          (pass_down passes (health_of hash w.heap b w.health.health_state) n sane.passes_two
            sane.passes_fit t.below (counted_here w b down n t.follows)))

    on_fail-watch :
        (s : ServerState) (n : ℕ)
        → Tracks config w b (record { state = s; count = n })
        → Watches config w (on_fail hash config w b) b (watch_state failures passes s n false)
    on_fail-watch down n t =
        let (k, same) =
          settle_stays hash (down_step true failures) (λ v. disable v b) w b down n 0 t.follows
            (fail_down failures _) in
        rw (on_fail-settle hash config w b down t.follows.is)
          (record { follows = k; below = omega (arith, sane.passes_two) }, same)
    on_fail-watch active n t = rw (on_fail-settle hash config w b active t.follows.is) (
        settle_counts (down_step false failures) (λ v. disable v b) config w b active n
          (leb failures (n + 1)) sane t (λ v. disable-change hash v b) refl
          (fail_active failures (health_of hash w.heap b w.health.health_state) n sane.failures_two
            sane.failures_fit t.below (counted_here w b active n t.follows)))

    -- If the limits of the configuration are at least 2 and fit a `u64`, and a backend stands as a
    -- counter of consecutive results says, then an answer to its check moves it as the counter
    -- moves, and publishes a change of state and nothing else.
    pub on_result-watch :
        {S : Type 0} (is_success : S → Bool) (s : Watch) (r : CheckResult S)
        → Tracks config w b s
        → Watches config w
            (on_result hash is_success config w b r)
            b
            (watch failures passes s (succeeded is_success r))
    unfolding on_result watch
    on_result-watch is_success s (response status) t = elim (Bool-cases (is_success status)) [
      | inl ok ↦ rw ok (on_pass-watch s.state s.count t)
      | inr bad ↦ rw bad (on_fail-watch s.state s.count t)
    ]
    on_result-watch is_success s error t = on_fail-watch s.state s.count t
