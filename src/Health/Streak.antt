-- ===== src/Health/Streak.antt =====
-- Several answers in a row for one backend (src/mgmt/health.rs), and one answer and the others.
use weldr.Common.{
  ℕ, ◌≡◌, ◌≢◌, refl, ap, sym, ◌∙◌, Bool, true, false, List, [], ◌∷◌, ◌++◌, arith, if◌then◌else◌,
  Bool-cases, inl, inr, PartialEq, map, append-nil, append_assoc,
}
use weldr.Config.{Config}
use weldr.Backend
use weldr.Backend.{Backend, InnerBackend, Heap, ServerState, active, down}
use weldr.Health.{BackendHealth, should_mark_active, should_mark_down}
use weldr.Health.Check.{
  World, CheckResult, response, error, enable, disable, on_pass, on_fail, on_result,
}
use weldr.Health.Settle.{announce}
use weldr.Health.Watch.{Watch, watch, IsSane, Tracks, succeeded, on_result-watch}

-- The specification over several results: where it ends, and the states changed to on the way.
unfoldable pub watch_all : ℕ → ℕ → Watch → List Bool → Watch × List ServerState
watch_all failures passes s [] = (s, [])
watch_all failures passes s (ok ∷ oks) =
    let (s', changed) = watch failures passes s ok in
    let (s'', changes) = watch_all failures passes s' oks in
    (s'', if changed then s'.state ∷ changes else changes)

said-append {ℓ} :
    {M : Type ℓ} (changed : Bool) (now old : List M) (t : ServerState) (f : ServerState → M)
    (changes : List ServerState)
    → now ≡ (if changed then old ++ f t ∷ [] else old)
    → now ++ map f changes ≡ old ++ map f (if changed then t ∷ changes else changes)
said-append true now old t f changes e = rw e (append_assoc old (f t ∷ []) (map f changes))
said-append false now old t f changes e = rw e

module _ {ℓ} {U : Type ℓ} where
  -- An answer is for one backend: it leaves the pool, every server, and the other backends.
  abbrev pub Others : World U → World U → Backend → Type ℓ
  Others w w' b =
      (w'.pool ≡ w.pool)
      × ((i : Backend) → (w'.heap.cell i).server ≡ (w.heap.cell i).server)
      × ((i : Backend) → b ≢ i → w'.heap.cell i ≡ w.heap.cell i)
      × (w'.heap.next ≡ w.heap.next)

  enable-Others : (w : World U) (b : Backend) → Others w (enable w b) b
  unfolding enable Backend.mark_active
  enable-Others w b = (refl, (λ i. ground arith), (λ i ne. ground arith), refl)

  pub disable-Others : (w : World U) (b : Backend) → Others w (disable w b) b
  unfolding disable Backend.mark_down
  disable-Others w b = (refl, (λ i. ground arith), (λ i ne. ground arith), refl)

module _ {ℓ} {U : Type ℓ} ⦃e : PartialEq U⦄ (hash : InnerBackend U → ℕ) where
  -- A closure changes the table, and after that perhaps the backend.
  pub on_pass_cases {κ} :
      (P : World U → Type κ) (config : Config) (w : World U) (b : Backend)
      → ((m : BackendHealth) → P (record w { health = m }))
      → ((m : BackendHealth) → P (enable (record w { health = m }) b))
      → P (on_pass hash config w b)
  unfolding on_pass
  on_pass_cases P config w b stays turns =
      elim (Bool-cases (should_mark_active hash w.heap w.health b config.health_check.passes).1) [
        | inl y ↦ rw y (turns _)
        | inr n ↦ rw n (stays _)
      ]

  pub on_fail_cases {κ} :
      (P : World U → Type κ) (config : Config) (w : World U) (b : Backend)
      → ((m : BackendHealth) → P (record w { health = m }))
      → ((m : BackendHealth) → P (disable (record w { health = m }) b))
      → P (on_fail hash config w b)
  unfolding on_fail
  on_fail_cases P config w b stays turns =
      elim (Bool-cases (should_mark_down hash w.heap w.health b config.health_check.failures).1) [
        | inl y ↦ rw y (turns _)
        | inr n ↦ rw n (stays _)
      ]

  module _ {S : Type 0} (is_success : S → Bool) (config : Config) where
    open config use {health_check.{failures, passes}}

    passed : (w : World U) (b : Backend) → Others w (on_pass hash config w b) b
    passed w b =
        on_pass_cases (λ w'. Others w w' b) config w b
          (λ m. (refl, (λ i. refl), (λ i ne. refl), refl))
          (λ m. enable-Others (record w { health = m }) b)

    failed : (w : World U) (b : Backend) → Others w (on_fail hash config w b) b
    failed w b =
        on_fail_cases (λ w'. Others w w' b) config w b
          (λ m. (refl, (λ i. refl), (λ i ne. refl), refl))
          (λ m. disable-Others (record w { health = m }) b)

    -- An answer to a check of a backend changes neither the pool, nor the server of any backend,
    -- nor anything of the other backends, and makes no new one.
    pub on_result-Others :
        (w : World U) (b : Backend) (r : CheckResult S)
        → Others w (on_result hash is_success config w b r) b
    unfolding on_result
    on_result-Others w b (response status) = elim (Bool-cases (is_success status)) [
      | inl ok ↦ rw ok (passed w b)
      | inr bad ↦ rw bad (failed w b)
    ]
    on_result-Others w b error = failed w b

    passed-stats :
        (w : World U) (b i : Backend)
        → ((on_pass hash config w b).heap.cell i).stats ≡ (w.heap.cell i).stats
    unfolding enable Backend.mark_active
    passed-stats w b i =
        on_pass_cases (λ w'. (w'.heap.cell i).stats ≡ (w.heap.cell i).stats) config w b (λ m. refl)
          (λ m. ground arith)

    failed-stats :
        (w : World U) (b i : Backend)
        → ((on_fail hash config w b).heap.cell i).stats ≡ (w.heap.cell i).stats
    unfolding disable Backend.mark_down
    failed-stats w b i =
        on_fail_cases (λ w'. (w'.heap.cell i).stats ≡ (w.heap.cell i).stats) config w b (λ m. refl)
          (λ m. ground arith)

    -- Nor does it change what any backend has counted of the requests of clients.
    pub on_result-stats :
        (w : World U) (b : Backend) (r : CheckResult S) (i : Backend)
        → ((on_result hash is_success config w b r).heap.cell i).stats ≡ (w.heap.cell i).stats
    unfolding on_result
    on_result-stats w b (response status) i = elim (Bool-cases (is_success status)) [
      | inl ok ↦ rw ok (passed-stats w b i)
      | inr bad ↦ rw bad (failed-stats w b i)
    ]
    on_result-stats w b error i = failed-stats w b i

    -- The answers to the checks of one backend, as they come.
    unfoldable pub on_results : World U → Backend → List (CheckResult S) → World U
    unfolding on_result
    on_results w b [] = w
    on_results w b (r ∷ rs) = on_results (on_result hash is_success config w b r) b rs

    -- The answers to the checks of any backends, in any order
    unfoldable pub on_all : World U → List (Backend × CheckResult S) → World U
    unfolding on_result
    on_all w [] = w
    on_all w ((b, r) ∷ rs) = on_all (on_result hash is_success config w b r) rs

    -- If the limits of the configuration are at least 2 and fit a `u64`, and a backend stands as a
    -- counter of consecutive results says, then after any answers to its checks it stands as the
    -- counter says after them, and what was published are the changes of state of the counter, in
    -- order.
    pub on_results-watch :
        (w : World U) (b : Backend) (s : Watch) (rs : List (CheckResult S))
        → IsSane config
        → Tracks hash config w b s
        → let (s', changes) = watch_all failures passes s (map (succeeded is_success) rs) in
          Tracks hash config (on_results w b rs) b s'
          × ((on_results w b rs).published
              ≡ w.published ++ map (λ t. announce t (w.heap.cell b).server.url) changes)
    unfolding on_results watch_all
    on_results-watch w b s [] sane t = (t, sym (append-nil w.published))
    on_results-watch w b s (r ∷ rs) sane t =
        let (t1, said) = on_result-watch hash config w b sane is_success s r t in
        let (s1, changed) = watch failures passes s (succeeded is_success r) in
        let w1 = on_result hash is_success config w b r in
        let (t2, rest) = on_results-watch w1 b s1 rs sane t1 in
        let same : (w1.heap.cell b).server ≡ (w.heap.cell b).server =
          (on_result-Others w b r).1 b in
        (
          t2,
          rest
              ∙ ap
                  (λ v.
                    w1.published
                    ++ map (λ t. announce t v.url)
                        (watch_all failures passes s1 (map (succeeded is_success) rs)).1)
                  same
              ∙ said-append changed w1.published w.published s1.state _ _ said,
        )
