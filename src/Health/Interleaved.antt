-- ===== src/Health/Interleaved.antt =====
-- The answers to the checks of several backends, as they come in (src/mgmt/health.rs).
use weldr.Common.{
  ℕ, ◌≡◌, ◌≢◌, ap, sym, subst, ◌∙◌, Bool, List, [], ◌∷◌, arith, if◌then◌else◌, Bool-cases, inl, inr,
  PartialEq, nat_beq, map, All, All-map,
}
use weldr.Config.{Config}
use weldr.Backend.{Backend, InnerBackend}
use weldr.Health.Check.{World, CheckResult, on_result}
use weldr.Health.Watch.{Watch, watch, IsSane, Tracks, succeeded, on_result-watch}
use weldr.Health.Streak.{watch_all, Others, on_result-Others, on_all}
use weldr.Health.Apart.{on_result-elsewhere}

module _ {S : Type 0} where
  -- The answers that are for `b`, in order.
  unfoldable pub results_of : Backend → List (Backend × CheckResult S) → List (CheckResult S)
  results_of b [] = []
  results_of b ((i, r) ∷ rs) = if nat_beq i b then r ∷ results_of b rs else results_of b rs

module _ {ℓ} {U : Type ℓ} where
  -- Another backend has another server.
  abbrev pub Apart : World U → Backend → Backend → Type ℓ
  Apart w b i = i ≢ b → (w.heap.cell i).server ≢ (w.heap.cell b).server

  kept-Apart : (w w' : World U) (b c i : Backend) → Others w w' c → Apart w b i → Apart w' b i
  kept-Apart w w' b c i (_, servers, _, _) apart ne e = apart ne (sym (servers i) ∙ e ∙ servers b)

module _ {ℓ} {U : Type ℓ} ⦃e : PartialEq U⦄ (hash : InnerBackend U → ℕ) {S : Type 0}
    (is_success : S → Bool) (config : Config) where
  open config use {health_check.{failures, passes}}

  -- If the limits of the configuration are at least 2 and fit a `u64`, a backend stands as a
  -- counter of consecutive results says, and no other backend that answers has its server, then
  -- after answers to checks of any backends in any order it stands as the counter says after its
  -- own answers.
  pub on_all-watch :
      (w : World U) (b : Backend) (s : Watch) (rs : List (Backend × CheckResult S))
      → IsSane config
      → All (λ x. Apart w b x.0) rs
      → Tracks hash config w b s
      → Tracks hash config
          (on_all hash is_success config w rs)
          b
          (watch_all failures passes s (map (succeeded is_success) (results_of b rs))).0
  unfolding on_all results_of watch_all
  on_all-watch w b s [] sane apart t = t
  on_all-watch w b s ((i, r) ∷ rs) sane apart t =
      let w1 = on_result hash is_success config w i r in
      let others = on_result-Others hash is_success config w i r in
      let apart1 = All-map (λ x a. kept-Apart w w1 b i x.0 others a) rs apart.1 in
      elim (Bool-cases (nat_beq i b)) [
        | inl own ↦
            let same : i ≡ b = ground (arith, own) in
            let (s1, changed) = watch failures passes s (succeeded is_success r) in
            let now : Tracks hash config w1 b s1 =
              subst (λ j. Tracks hash config (on_result hash is_success config w j r) b s1)
                (sym same) (on_result-watch hash config w b sane is_success s r t).0 in
            rw own (on_all-watch w1 b s1 rs sane apart1 now)
        | inr other ↦
            let ne : i ≢ b = ground (arith, other) in
            let still : Tracks hash config w1 b s = record {
              follows =
                  on_result-elsewhere hash w i b s.state s.count (apart.0 ne) t.follows is_success
                    config r;
              below = t.below;
            } in
            rw other (on_all-watch w1 b s rs sane apart1 still)
      ]

  -- If the limits of the configuration are at least 2 and fit a `u64`, a backend stands as a
  -- counter of consecutive results says, and no other backend that answers has its server, then two
  -- sequences of answers that have the same answers for the backend, in the same order, leave it in
  -- the same state.
  pub on_all-order :
      (w : World U) (b : Backend) (s : Watch) (rs rs' : List (Backend × CheckResult S))
      → IsSane config
      → All (λ x. Apart w b x.0) rs
      → All (λ x. Apart w b x.0) rs'
      → Tracks hash config w b s
      → results_of b rs ≡ results_of b rs'
      → ((on_all hash is_success config w rs).heap.cell b).state
        ≡ ((on_all hash is_success config w rs').heap.cell b).state
  on_all-order w b s rs rs' sane apart apart' t same =
      let after = on_all-watch w b s rs sane apart t in
      let after' = on_all-watch w b s rs' sane apart' t in
      after.follows.is
      ∙ ap (λ own. (watch_all failures passes s (map (succeeded is_success) own)).0.state) same
      ∙ sym after'.follows.is
