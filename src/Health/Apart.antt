-- ===== src/Health/Apart.antt =====
-- An answer to a check of one backend (src/mgmt/health.rs), and the counts of a backend of another
-- server.
use weldr.Common.{
  ℕ, ◌≡◌, ◌≢◌, refl, ap, sym, ◌∙◌, Bool, false, List, [], ◌∷◌, arith, if◌then◌else◌, Bool-cases,
  inl, inr, PartialEq, nat_beq, ◌==◌, ◌&&◌,
}
use weldr.Config.{Config}
use weldr.Backend.{Backend, InnerBackend, Heap, ServerState, active, down, state_eq, backend_eq}
use weldr.Health.{HealthState, Entry, hits, update_entry, active_step, down_step}
use weldr.Health.Table.{health_of, hits-server, update_entry_apart}
use weldr.Health.Views.{set_state, counted, other, view, Counts}
use weldr.Health.Check.{
  World, CheckResult, response, error, enable, disable, on_pass, on_fail, on_result,
}
use weldr.Health.Settle.{
  settle, Follows, change, enable-change, disable-change, on_pass-settle, on_fail-settle,
}

module _ {ℓ} {U : Type ℓ} ⦃e : PartialEq U⦄ (hash : InnerBackend U → ℕ) where
  -- Two heaps that differ at `b` only, and keep its server, look alike to a backend of another server.
  module _ (h h' : Heap U) (b b' : Backend)
      (servers : (i : Backend) → (h'.cell i).server ≡ (h.cell i).server)
      (others : (i : Backend) → b ≢ i → h'.cell i ≡ h.cell i)
      (apart : (h.cell b).server ≢ (h.cell b').server) where
    own_cell : h'.cell b' ≡ h.cell b'
    own_cell = others b' (λ e. apart (ap (λ i. (h.cell i).server) e))

    missed :
        (g : Heap U) (x : Entry)
        → (g.cell b).server ≢ (g.cell b').server
        → x.key ≡ b
        → hits hash g b' x ≡ false
    missed g x ne key = elim (Bool-cases (hits hash g b' x)) [
      | inl hit ↦ absurd (ne (ap (λ i. (g.cell i).server) (sym key) ∙ hits-server hash g b' x hit))
      | inr miss ↦ miss
    ]

    hits_alike : (x : Entry) → hits hash h' b' x ≡ hits hash h b' x
    hits_alike x = elim (Bool-cases (nat_beq x.key b)) [
      | inl at_b ↦
          let key : x.key ≡ b = ground (arith, at_b) in
          missed h' x (λ e'. apart (sym (servers b) ∙ e' ∙ servers b')) key
          ∙ sym (missed h x apart key)
      | inr elsewhere ↦
          let ne : b ≢ x.key = ground (arith, elsewhere) in
          ap (λ c. nat_beq x.hash (hash c) && (h'.cell x.key == c)) own_cell
          ∙ ap (λ c. nat_beq x.hash (hash (h.cell b')) && (c == h.cell b')) (others x.key ne)
    ]

    health_alike : (m : List Entry) → health_of hash h' b' m ≡ health_of hash h b' m
    health_alike [] = refl
    health_alike (x ∷ m) =
        ap (λ t. if t then x.value else health_of hash h' b' m) (hits_alike x)
        ∙ ap (λ v. if hits hash h b' x then x.value else v) (health_alike m)

  module _ (h h' : Heap U) (b b' : Backend)
      (servers : (i : Backend) → (h'.cell i).server ≡ (h.cell i).server)
      (others : (i : Backend) → b ≢ i → h'.cell i ≡ h.cell i)
      (apart : (h.cell b).server ≢ (h.cell b').server) where
    set_state-servers :
        (g : Heap U) (s : ServerState) (i : Backend)
        → ((set_state g b' s).cell i).server ≡ (g.cell i).server
    set_state-servers g s i = ground arith

    set_state-others :
        (s : ServerState) (i : Backend)
        → b ≢ i
        → (set_state h' b' s).cell i ≡ (set_state h b' s).cell i
    set_state-others s i ne =
        ap (λ c. if nat_beq b' i then record c { state = s } else h'.cell i)
          (own_cell h h' b b' servers others apart)
        ∙ ap (λ c. if nat_beq b' i then record (h.cell b') { state = s } else c) (others i ne)

    view-alike : (m : List Entry) (s : ServerState) → view hash h' b' m s ≡ view hash h b' m s
    view-alike m s =
        health_alike (set_state h b' s) (set_state h' b' s) b b'
          (λ i. set_state-servers h' s i ∙ servers i ∙ sym (set_state-servers h s i))
          (set_state-others s)
          (λ e'. apart (sym (set_state-servers h s b) ∙ e' ∙ set_state-servers h s b')) m

    view-update :
        (f : HealthState → HealthState × Bool) (m : List Entry) (s : ServerState)
        → view hash h' b' (update_entry hash f h b m).0 s ≡ view hash h b' m s
    view-update f m s =
        view-alike (update_entry hash f h b m).0 s
        ∙ update_entry_apart hash h (set_state h b' s) b b' (λ i. sym (set_state-servers h s i))
            (λ e'. apart (e' ∙ set_state-servers h s b')) f m

    -- With the same table
    pub Counts-alike :
        (m : List Entry) (s : ServerState) (n : ℕ)
        → Counts hash h b' m s n
        → Counts hash h' b' m s n
    Counts-alike m s n k = record {
      now = ap (counted s) (view-alike m s) ∙ k.now;
      rest = ap (counted (other s)) (view-alike m (other s)) ∙ k.rest;
    }

    pub Counts-elsewhere :
        (f : HealthState → HealthState × Bool) (m : List Entry) (s : ServerState) (n : ℕ)
        → Counts hash h b' m s n
        → Counts hash h' b' (update_entry hash f h b m).0 s n
    Counts-elsewhere f m s n k = record {
      now = ap (counted s) (view-update f m s) ∙ k.now;
      rest = ap (counted (other s)) (view-update f m (other s)) ∙ k.rest;
    }

  module _ (w : World U) (b b' : Backend) (s : ServerState) (n : ℕ)
      (apart : (w.heap.cell b).server ≢ (w.heap.cell b').server) (k : Follows hash w b' s n) where
    settle-elsewhere :
        (f : HealthState → HealthState × Bool) (act : World U → World U) (t : ServerState)
        → ((v : World U) → act v ≡ change hash t v b)
        → Follows hash (settle hash act f w b) b' s n
    unfolding settle change
    settle-elsewhere f act t acts =
        let h' = set_state w.heap b t in
        let others : (i : Backend) → b ≢ i → h'.cell i ≡ w.heap.cell i = λ i ne. ground arith in
        let servers : (i : Backend) → (h'.cell i).server ≡ (w.heap.cell i).server =
          λ i. ground arith in
        elim (Bool-cases (update_entry hash f w.heap b w.health.health_state).1) [
          | inl yes_ ↦
              rw (yes_, acts _)
                (record {
                  is = ap (λ c. c.state) (own_cell w.heap h' b b' servers others apart) ∙ k.is;
                  counts =
                      Counts-elsewhere w.heap h' b b' servers others apart f w.health.health_state s
                        n k.counts;
                })
          | inr no_ ↦ rw no_ (record {
            is = k.is;
            counts =
                Counts-elsewhere w.heap w.heap b b' (λ i. refl) (λ i ne. refl) apart f
                  w.health.health_state s n k.counts;
          })
        ]

    module _ {S : Type 0} (is_success : S → Bool) (config : Config) where
      open config use {health_check.{failures, passes}}

      passed-elsewhere : Follows hash (on_pass hash config w b) b' s n
      passed-elsewhere = rw (on_pass-settle hash config w b (w.heap.cell b).state refl) (
          settle-elsewhere (active_step ((w.heap.cell b).state == active) passes) (λ v. enable v b)
            active (λ v. enable-change hash v b))

      failed-elsewhere : Follows hash (on_fail hash config w b) b' s n
      failed-elsewhere = rw (on_fail-settle hash config w b (w.heap.cell b).state refl) (
          settle-elsewhere (down_step ((w.heap.cell b).state == down) failures) (λ v. disable v b)
            down (λ v. disable-change hash v b))

      -- An answer to a check of a backend leaves the counts of a backend of another server.
      pub on_result-elsewhere :
          (r : CheckResult S) → Follows hash (on_result hash is_success config w b r) b' s n
      unfolding on_result
      on_result-elsewhere (response status) = elim (Bool-cases (is_success status)) [
        | inl ok ↦ rw ok passed-elsewhere
        | inr bad ↦ rw bad failed-elsewhere
      ]
      on_result-elsewhere error = failed-elsewhere
