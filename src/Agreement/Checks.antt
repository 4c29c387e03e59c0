-- ===== src/Agreement/Checks.antt =====
-- Rounds of health checks in the manager (src/mgmt/health.rs), and what a worker makes of them.
use weldr.Common.{
  All, String, Option-cases, All-map, ◌≡◌, refl, ap, sym, ◌∙◌, Bool, Option, List, [], ◌∷◌, ◌++◌, ℕ,
  PartialEq, Bool-cases, inl, inr,
}
use Prim.Native.String.{◌++◌ as append}
use mathlib.Core.Path.{fun_ext}
use weldr.Config.{Config}
use weldr.Message.{Message}
use weldr.Server.{Server, server_eq}
use weldr.Backend
use weldr.Backend.{Backend, InnerBackend, ServerState, active, down}
use weldr.Pool.{Pool}
use weldr.Pool.Members.{IsClosed}
use weldr.Health.Check.{
  World, run, start_check, start_checks, CheckResult, response, error, on_pass, on_fail, on_result,
}
use weldr.Health.Streak.{
  on_pass_cases, on_fail_cases, on_result-Others, on_all, Others, disable-Others,
}
use weldr.Worker.Status.{status, announced_all, handle_all, handle_all-announced}
use weldr.Agreement.{
  pool_of, IsFirst, Told, Told-health, Told-down, Told-active, Told-nothing, Told-both,
  kept-IsFirst,
}

module _ {ℓ} {U : Type ℓ} ⦃e : PartialEq U⦄ where
  module _ (parse : String → Option U) (display : U → String) (config : Config) where
    -- The part of a check before the request is sent.
    start_check-Told :
        (w : World U) (b : Backend)
        → IsFirst (pool_of w) b
        → Told w (start_check parse display config w b).0
          × Others w (start_check parse display config w b).0 b
    unfolding start_check
    start_check-Told w b f =
        let url = append (display (w.heap.cell b).server.url) config.health_check.uri_path in
        let unchanged : Others w w b = (refl, (λ i. refl), (λ i ne. refl), refl) in
        elim (Option-cases (parse url)) [
          | inr (u, parsed) ↦ rw (parsed, start_check) (Told-nothing w, unchanged)
          | inl unparsed ↦ elim (Bool-cases (Backend.is_active w.heap b)) [
            | inl up ↦ rw (unparsed, up, start_check) (Told-down w b w.health f, disable-Others w b)
            | inr not_up ↦ rw (unparsed, not_up, start_check) (Told-nothing w, unchanged)
          ]
        ]

    pub start_checks-Told :
        (w : World U) (bs : List Backend)
        → All (IsFirst (pool_of w)) bs
        → Told w (start_checks parse display config w bs).0
          × ((i : Backend)
              → IsFirst (pool_of w) i
              → IsFirst (pool_of (start_checks parse display config w bs).0) i)
          × ((start_checks parse display config w bs).0.pool ≡ w.pool)
          × ((start_checks parse display config w bs).0.heap.next ≡ w.heap.next)
    unfolding start_checks
    start_checks-Told w [] firsts = (Told-nothing w, (λ i f. f), refl, refl)
    start_checks-Told w (b ∷ bs) firsts =
        let w1 = (start_check parse display config w b).0 in
        let (told, others) = start_check-Told w b firsts.0 in
        let keeps = λ (i : Backend). kept-IsFirst w w1 b i others in
        let (told', keeps', pools, nexts) = start_checks-Told w1 bs (All-map keeps bs firsts.1) in
        (
          Told-both w w1 (start_checks parse display config w1 bs).0 told told',
          (λ i f. keeps' i (keeps i f)),
          pools ∙ others.0,
          nexts ∙ others.3,
        )

  module _ (hash : InnerBackend U → ℕ) {S : Type 0} (is_success : S → Bool) (config : Config) where
    on_pass-Told :
        (w : World U) (b : Backend) → IsFirst (pool_of w) b → Told w (on_pass hash config w b)
    on_pass-Told w b f =
        on_pass_cases hash (Told w) config w b (Told-health w) (λ m. Told-active w b m f)

    on_fail-Told :
        (w : World U) (b : Backend) → IsFirst (pool_of w) b → Told w (on_fail hash config w b)
    on_fail-Told w b f =
        on_fail_cases hash (Told w) config w b (Told-health w) (λ m. Told-down w b m f)

    pub on_result-Told :
        (w : World U) (b : Backend) (r : CheckResult S)
        → IsFirst (pool_of w) b
        → Told w (on_result hash is_success config w b r)
    unfolding on_result
    on_result-Told w b (response status) f = elim (Bool-cases (is_success status)) [
      | inl ok ↦ rw ok (on_pass-Told w b f)
      | inr bad ↦ rw bad (on_fail-Told w b f)
    ]
    on_result-Told w b error f = on_fail-Told w b f

    on_all-Told :
        (w : World U) (rs : List (Backend × CheckResult S))
        → All (λ x. IsFirst (pool_of w) x.0) rs
        → Told w (on_all hash is_success config w rs)
    unfolding on_all
    on_all-Told w [] firsts = Told-nothing w
    on_all-Told w ((b, r) ∷ rs) firsts =
        let w1 = on_result hash is_success config w b r in
        Told-both w w1 (on_all hash is_success config w1 rs) (on_result-Told w b r firsts.0) (
          on_all-Told w1 rs (
            All-map
              (λ x f. kept-IsFirst w w1 b x.0 (on_result-Others hash is_success config w b r) f) rs
              firsts.1))

    -- A round of `run`, and after it answers to checks of any backends in any order
    unfoldable pub round :
        (String → Option U) → (U → String) → World U → List (Backend × CheckResult S) → World U
    unfolding run on_all
    round parse display w rs = on_all hash is_success config (run parse display config w).0 rs

    -- If a worker's pool without dangling references says the same of every server as the
    -- manager's, and each backend of the manager's pool, and each that answers, is the first for
    -- its server, which maps hosts, then after a round of checks with any answers in any order the
    -- worker that has handled what was published for it says the same again.
    pub round-agrees :
        (parse : String → Option U) (display : U → String) (w : World U)
        (rs : List (Backend × CheckResult S)) (q : Pool U)
        → All (IsFirst (pool_of w)) w.pool.backends
        → All (λ x. IsFirst (pool_of w) x.0) rs
        → IsClosed q
        → ((t : Server U) → status q t ≡ status (pool_of w) t)
        → let w' = round parse display w rs in
          (ms : List (Message U)) × (w'.published ≡ w.published ++ ms)
          × ((t : Server U) → status (handle_all q ms) t ≡ status (pool_of w') t)
    unfolding round run
    round-agrees parse display w rs q all_first firsts closed same =
        let w1 = (run parse display config w).0 in
        let (started, keeps, _, _) =
          start_checks-Told parse display config w w.pool.backends all_first in
        let answered = on_all-Told w1 rs (All-map (λ x f. keeps x.0 f) rs firsts) in
        let (ms, said, told, _) =
          Told-both w w1 (on_all hash is_success config w1 rs) started answered in
        (
          ms,
          said,
          λ t.
              handle_all-announced q ms t closed
              ∙ ap (λ d. announced_all d ms t) (fun_ext same)
              ∙ sym (told t),
        )
