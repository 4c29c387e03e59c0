-- ===== src/Health/Keys.antt =====
-- The keys of the table of src/mgmt/health.rs: which backends it may know, and what that leaves of the
-- counts of a new one.
use weldr.Common.{
  ℕ, ◌≡◌, ◌≢◌, refl, ap, sym, ◌∙◌, Bool, List, [], ◌∷◌, arith, if◌then◌else◌, Bool-cases, inl, inr,
  PartialEq, All, All-map, ◌==◌, nat_beq,
}
use weldr.Config.{Config}
use weldr.Backend.{Backend, InnerBackend, Heap, ServerState, active, down, backend_eq, state_eq}
use weldr.Health.{HealthState, passing, Entry, hits, update_entry, active_step, down_step}
use weldr.Health.Table.{health_of, hits-server}
use weldr.Health.Views.{set_state, counted, other, Counts}
use weldr.Health.Check.{
  World, CheckResult, response, error, enable, disable, on_pass, on_fail, on_result,
}
use weldr.Health.Settle.{
  settle, change, enable-change, disable-change, on_pass-settle, on_fail-settle,
}

module _ {ℓ} {U : Type ℓ} ⦃e : PartialEq U⦄ (hash : InnerBackend U → ℕ) where
  module _ {κ} (P : Backend → Type κ) where
    -- The keys of a table
    abbrev pub Keys : List Entry → Type κ
    Keys m = All (λ x. P x.key) m

    update_entry-Keys :
        (f : HealthState → HealthState × Bool) (h : Heap U) (b : Backend) (m : List Entry)
        → P b
        → Keys m
        → Keys (update_entry hash f h b m).0
    unfolding update_entry
    update_entry-Keys f h b [] here all = (here, tt)
    update_entry-Keys f h b (x ∷ xs) here all = elim (Bool-cases (hits hash h b x)) [
      | inl hit ↦ rw hit all
      | inr miss ↦ rw miss (all.0, update_entry-Keys f h b xs here all.1)
    ]

    settle-Keys :
        (f : HealthState → HealthState × Bool) (act : World U → World U) (t : ServerState)
        (w : World U) (b : Backend)
        → ((v : World U) → act v ≡ change hash t v b)
        → P b
        → Keys w.health.health_state
        → Keys (settle hash act f w b).health.health_state
    unfolding settle change
    settle-Keys f act t w b acts here all =
        let kept = update_entry-Keys f w.heap b w.health.health_state here all in
        elim (Bool-cases (update_entry hash f w.heap b w.health.health_state).1) [
          | inl yes_ ↦ rw (yes_, acts _) kept
          | inr no_ ↦ rw no_ kept
        ]

    module _ {S : Type 0} (is_success : S → Bool) (config : Config) (w : World U) (b : Backend)
        (here : P b) (all : Keys w.health.health_state) where
      open config use {health_check.{failures, passes}}

      passed-Keys : Keys (on_pass hash config w b).health.health_state
      passed-Keys = rw (on_pass-settle hash config w b (w.heap.cell b).state refl) (
          settle-Keys (active_step ((w.heap.cell b).state == active) passes) (λ v. enable v b)
            active w b (λ v. enable-change hash v b) here all)

      failed-Keys : Keys (on_fail hash config w b).health.health_state
      failed-Keys = rw (on_fail-settle hash config w b (w.heap.cell b).state refl) (
          settle-Keys (down_step ((w.heap.cell b).state == down) failures) (λ v. disable v b) down w
            b (λ v. disable-change hash v b) here all)

      -- An answer to a check of a backend adds no key but that backend.
      pub on_result-Keys :
          (r : CheckResult S) → Keys (on_result hash is_success config w b r).health.health_state
      unfolding on_result
      on_result-Keys (response status) = elim (Bool-cases (is_success status)) [
        | inl ok ↦ rw ok passed-Keys
        | inr bad ↦ rw bad failed-Keys
      ]
      on_result-Keys error = failed-Keys

  none_counted : (s : ServerState) → counted s (passing 0) ≡ 0
  none_counted active = refl
  none_counted down = refl

  -- Where no key has the server of `b`, nothing is counted for `b`.
  unknown-health :
      (h : Heap U) (b : Backend) (m : List Entry)
      → All (λ x. (h.cell x.key).server ≢ (h.cell b).server) m
      → health_of hash h b m ≡ passing 0
  unknown-health h b [] new = refl
  unknown-health h b (x ∷ m) new = elim (Bool-cases (hits hash h b x)) [
    | inl hit ↦ absurd (new.0 (hits-server hash h b x hit))
    | inr miss ↦ rw miss (unknown-health h b m new.1)
  ]

  pub new-Counts :
      (h : Heap U) (b : Backend) (m : List Entry) (s : ServerState)
      → All (λ x. (h.cell x.key).server ≢ (h.cell b).server) m
      → Counts hash h b m s 0
  new-Counts h b m s new =
      let servers : (t : ServerState) (i : Backend)
          → ((set_state h b t).cell i).server ≡ (h.cell i).server =
        λ t i. ground arith in
      let unknown = λ (t : ServerState).
        unknown-health (set_state h b t) b m
          (All-map (λ x ne e'. ne (sym (servers t x.key) ∙ e' ∙ servers t b)) m new) in
      record {
        now = ap (counted s) (unknown s) ∙ none_counted s;
        rest = ap (counted (other s)) (unknown (other s)) ∙ none_counted (other s);
      }

  -- Two heaps that have the same at `b` and at the keys look alike to `b`.
  module _ (h h' : Heap U) (b : Backend) (here : h'.cell b ≡ h.cell b) where
    same-health :
        (m : List Entry)
        → All (λ x. h'.cell x.key ≡ h.cell x.key) m
        → health_of hash h' b m ≡ health_of hash h b m
    same-health [] all = refl
    same-health (x ∷ m) all = rw (here, all.0, same-health m all.1) refl

  pub same-Counts :
      (h h' : Heap U) (b : Backend) (m : List Entry) (s : ServerState) (n : ℕ)
      → h'.cell b ≡ h.cell b
      → All (λ x. h'.cell x.key ≡ h.cell x.key) m
      → Counts hash h b m s n
      → Counts hash h' b m s n
  same-Counts h h' b m s n here all k =
      let set = λ (t : ServerState) (i : Backend) (e' : h'.cell i ≡ h.cell i).
        ap (λ c. if nat_beq b i then record c { state = t } else h'.cell i) here
        ∙ ap (λ c. if nat_beq b i then record (h.cell b) { state = t } else c) e' in
      let alike = λ (t : ServerState).
        same-health (set_state h b t) (set_state h' b t) b (set t b here) m
          (All-map (λ x e'. set t x.key e') m all) in
      record {
        now = ap (counted s) (alike s) ∙ k.now;
        rest = ap (counted (other s)) (alike (other s)) ∙ k.rest;
      }
