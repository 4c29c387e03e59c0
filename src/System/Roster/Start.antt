-- ===== src/System/Roster/Start.antt =====
-- The start of one check (src/mgmt/health.rs): a backend that cannot be checked is down then, and the
-- counts of the others are as before.
use Prim.Native.String.{◌++◌ as append}
use weldr.Common.{
  ◌≡◌, ◌≢◌, refl, ap, sym, ◌∙◌, ◌⊎◌, inl, inr, true, false, Bool-cases, Option-cases, Option, none,
  some, PartialEq, arith, ℕ, if◌then◌else◌, ==_eq, subst,
}
use weldr.Server.{server_eq}
use weldr.Backend
use weldr.Backend.{Backend, InnerBackend, Heap, ServerState, active, down, state_eq}
use weldr.Health.Check.{World, disable, start_check}
use weldr.Health.Streak.{Others, disable-Others}
use weldr.Health.Settle.{Follows, change, disable-change}
use weldr.Health.Apart.{Counts-alike}
use weldr.Health.Views.{set_state, Counts, Counts-flip, Counts-set_state}
use weldr.System.{Setting}
use weldr.System.Roster.{checkable}

pub state_cases {ℓ} :
    {U : Type ℓ} (h : Heap U) (b : Backend)
    → ((h.cell b).state ≡ active) ⊎ ((h.cell b).state ≡ down)
state_cases h b = elim (Bool-cases (Backend.is_active h b)) [
  | inl up ↦ inl (==_eq (h.cell b).state active up)
  | inr not_up ↦ inr (ground (arith, not_up))
]

module _ {ℓ} {U : Type ℓ} ⦃e : PartialEq U⦄ {Chunk S : Type 0} (setting : Setting U Chunk S) where
  open setting use {text.{parse, display}, hash, config}

  abbrev pub after : World U → Backend → World U
  after w i = (start_check parse display config w i).0

  disable-Follows :
      (w : World U) (i b : Backend) (s : ServerState) (n : ℕ)
      → (w.heap.cell i).server ≢ (w.heap.cell b).server
      → Follows hash w b s n
      → Follows hash (disable w i) b s n
  unfolding change
  disable-Follows w i b s n apart k =
      let h' = set_state w.heap i down in
      let ne : i ≢ b = λ e'. apart (ap (λ j. (w.heap.cell j).server) e') in
      let cells : (j : Backend) → i ≢ j → h'.cell j ≡ w.heap.cell j = λ j nj. ground arith in
      rw (disable-change hash w i) (record {
        is = ap (λ v. v.state) (cells b ne) ∙ k.is;
        counts =
            Counts-alike hash w.heap h' i b (λ j. ground arith) cells apart w.health.health_state s
              n k.counts;
      })

  -- The match of `start_check` on the URL of the check
  abbrev parsed_to : World U → Backend → Option U → World U × Option U
  parsed_to w b none = (if Backend.is_active w.heap b then disable w b else w, none)
  parsed_to w b (some url) = (w, some url)

  after-parse :
      (w : World U) (b : Backend) (u : Option U)
      → parse (append (display (w.heap.cell b).server.url) config.health_check.uri_path) ≡ u
      → start_check parse display config w b ≡ parsed_to w b u
  unfolding start_check
  after-parse w b u parsed = ap (parsed_to w b) parsed

  -- Whether a request is sent.
  pub sent_cases :
      (w : World U) (b : Backend)
      → let can = checkable setting (w.heap.cell b).server in
        let sent = (start_check parse display config w b).1 in
        ((can ≡ false) × (sent ≡ none)) ⊎ ((can ≡ true) × (url : U) × (sent ≡ some url))
  sent_cases w b =
      let url = append (display (w.heap.cell b).server.url) config.health_check.uri_path in
      elim (Option-cases (parse url)) [
        | inl unparsed ↦
            inl (rw (unparsed, checkable), ap (λ x. x.1) (after-parse w b none unparsed))
        | inr (u, parsed) ↦
            inr (rw (parsed, checkable), u, ap (λ x. x.1) (after-parse w b (some u) parsed))
      ]

  -- What the part of the loop before the request does: nothing, or the backend is disabled.
  start_check_cases :
      (w : World U) (b : Backend)
      → let can = checkable setting (w.heap.cell b).server in
        ((can ≡ true) × (after w b ≡ w))
        ⊎ ((can ≡ false)
            × ((((w.heap.cell b).state ≡ down) × (after w b ≡ w))
                ⊎ (((w.heap.cell b).state ≡ active) × (after w b ≡ disable w b))))
  unfolding start_check
  start_check_cases w b =
      let url = append (display (w.heap.cell b).server.url) config.health_check.uri_path in
      elim (Option-cases (parse url)) [
        | inr (u, parsed) ↦
            inl (rw (parsed, checkable), ap (λ x. x.0) (after-parse w b (some u) parsed))
        | inl unparsed ↦ inr (
          rw (unparsed, checkable),
          elim (state_cases w.heap b) [
            | inl up ↦ inr (up, ap (λ x. x.0) (after-parse w b none unparsed) ∙ rw up refl)
            | inr is ↦ inl (is, ap (λ x. x.0) (after-parse w b none unparsed) ∙ rw is refl)
          ],
        )
      ]

  -- Nothing changes for a backend that is another one, can be checked, or is down.
  pub start_check-stays :
      (w : World U) (i b : Backend) (s : ServerState) (n : ℕ)
      → ((w.heap.cell i).server ≢ (w.heap.cell b).server)
        ⊎ ((checkable setting (w.heap.cell i).server ≡ true) ⊎ ((w.heap.cell i).state ≡ down))
      → Follows hash w b s n
      → Follows hash (after w i) b s n
  start_check-stays w i b s n why k = elim (start_check_cases w i) [
    | inl (can, same) ↦ rw same k
    | inr (cannot, inl (is, same)) ↦ rw same k
    | inr (cannot, inr (up, turned)) ↦ rw turned (elim why [
      | inl apart ↦ disable-Follows w i b s n apart k
      | inr (inl can) ↦ cc (can, cannot)
      | inr (inr is) ↦ cc (up, is)
    ])
  ]

  -- A backend that cannot be checked is down then.
  pub start_check-turns :
      (w : World U) (b : Backend) (s : ServerState)
      → checkable setting (w.heap.cell b).server ≡ false
      → Follows hash w b s 0
      → Follows hash (after w b) b down 0
  unfolding change
  start_check-turns w b s cannot k = elim (start_check_cases w b) [
    | inl (can, same) ↦ cc (can, cannot)
    | inr (cannot, inl (is, same)) ↦
        let its : s ≡ down = sym k.is ∙ is in rw same (subst (λ t. Follows hash w b t 0) its k)
    | inr (cannot, inr (up, turned)) ↦
        let its : s ≡ active = sym k.is ∙ up in
        let counts = subst (λ t. Counts hash w.heap b w.health.health_state t 0) its k.counts in
        rw (turned, disable-change hash w b)
          (record {
            is = ground arith;
            counts =
                Counts-set_state hash w.heap b w.health.health_state down down 0
                  (Counts-flip hash w.heap b w.health.health_state active counts);
          })
  ]

  pub start_check-Others : (w : World U) (i : Backend) → Others w (after w i) i
  start_check-Others w i = elim (start_check_cases w i) [
    | inl (can, same) ↦ rw same (refl, (λ j. refl), (λ j ne. refl), refl)
    | inr (cannot, inl (is, same)) ↦ rw same (refl, (λ j. refl), (λ j ne. refl), refl)
    | inr (cannot, inr (up, turned)) ↦ rw turned (disable-Others w i)
  ]

  pub start_check-health : (w : World U) (i : Backend) → (after w i).health ≡ w.health
  unfolding disable
  start_check-health w i = elim (start_check_cases w i) [
    | inl (can, same) ↦ ap (λ v. v.health) same
    | inr (cannot, inl (is, same)) ↦ ap (λ v. v.health) same
    | inr (cannot, inr (up, turned)) ↦ ap (λ v. v.health) turned
  ]

  pub start_check-stats :
      (w : World U) (i b : Backend) → ((after w i).heap.cell b).stats ≡ (w.heap.cell b).stats
  unfolding disable Backend.mark_down
  start_check-stats w i b = elim (start_check_cases w i) [
    | inl (can, same) ↦ ap (λ v. (v.heap.cell b).stats) same
    | inr (cannot, inl (is, same)) ↦ ap (λ v. (v.heap.cell b).stats) same
    | inr (cannot, inr (up, turned)) ↦ ap (λ v. (v.heap.cell b).stats) turned ∙ ground arith
  ]
