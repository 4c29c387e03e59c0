-- ===== src/System/Roster/Starts.antt =====
-- The start of the checks (`run` of src/mgmt/health.rs): what becomes of one backend, and which are
-- checked.
use weldr.Common.{
  ◌≡◌, ◌≢◌, refl, ap, sym, ◌∙◌, ◌⊎◌, inl, inr, true, false, some, List, [], ◌∷◌, map, All,
  PartialEq, ℕ, retain, ◌==◌, ne_==, subst, find,
}
use weldr.Server.{Server, server_eq}
use weldr.Backend.{Backend, ServerState, down, state_eq}
use weldr.Health.Check.{World, start_check, start_checks}
use weldr.Health.Settle.{Follows}
use weldr.System.{Setting}
use weldr.System.Roster.{checkable}
use weldr.System.Roster.Start.{
  after, sent_cases, start_check-stays, start_check-turns, start_check-Others, start_check-health,
  start_check-stats,
}

module _ {ℓ} {U : Type ℓ} ⦃e : PartialEq U⦄ {Chunk S : Type 0} (setting : Setting U Chunk S) where
  open setting use {text.{parse, display}, hash, config}

  abbrev pub started : World U → List Backend → World U
  started w bs = (start_checks parse display config w bs).0

  pub start_checks-health : (w : World U) (bs : List Backend) → (started w bs).health ≡ w.health
  unfolding start_checks
  start_checks-health w [] = refl
  start_checks-health w (i ∷ bs) =
      start_checks-health (after setting w i) bs ∙ start_check-health setting w i

  pub start_checks-stats :
      (w : World U) (bs : List Backend) (b : Backend)
      → ((started w bs).heap.cell b).stats ≡ (w.heap.cell b).stats
  unfolding start_checks
  start_checks-stats w [] b = refl
  start_checks-stats w (i ∷ bs) b =
      start_checks-stats (after setting w i) bs b ∙ start_check-stats setting w i b

  -- The servers of the backends stay while the checks start.
  module _ (server : Backend → Server U) where
    abbrev pub Serves : World U → Type ℓ
    Serves w = (i : Backend) → (w.heap.cell i).server ≡ server i

    after-Serves : (w : World U) (i : Backend) → Serves w → Serves (after setting w i)
    after-Serves w i same j = (start_check-Others setting w i).1 j ∙ same j

    -- Each of the backends is this one, or has another server.
    abbrev pub Apart : Backend → List Backend → Type ℓ
    Apart b bs = All (λ i. (i ≡ b) ⊎ (server i ≢ server b)) bs

    pub start_checks-Serves : (w : World U) (bs : List Backend) → Serves w → Serves (started w bs)
    unfolding start_checks
    start_checks-Serves w [] same = same
    start_checks-Serves w (i ∷ bs) same =
        start_checks-Serves (after setting w i) bs (after-Serves w i same)

    -- A check is sent for each backend that can be checked.
    pub start_checks-sent :
        (w : World U) (bs : List Backend)
        → Serves w
        → map server (map (λ x. x.0) (start_checks parse display config w bs).1)
          ≡ retain (checkable setting) (map server bs)
    unfolding start_checks start_check
    start_checks-sent w [] same = refl
    start_checks-sent w (i ∷ bs) same =
        let rest = start_checks-sent (after setting w i) bs (after-Serves w i same) in
        let can = checkable setting in
        elim (sent_cases setting w i) [
          | inl (cannot, unsent) ↦
              let cannot' : can (server i) ≡ false = sym (ap can (same i)) ∙ cannot in
              rw (cannot', unsent, start_checks) rest
          | inr (may, url, sent) ↦
              let may' : can (server i) ≡ true = sym (ap can (same i)) ∙ may in
              rw (may', sent, start_checks) (ap (◌∷◌ (server i)) rest)
        ]

    module _ (b : Backend) where
      pub start_checks-stays :
          (w : World U) (bs : List Backend) (s : ServerState) (n : ℕ)
          → Serves w
          → Apart b bs
          → (checkable setting (server b) ≡ true) ⊎ (s ≡ down)
          → Follows hash w b s n
          → Follows hash (started w bs) b s n
      unfolding start_checks
      start_checks-stays w [] s n same apart why k = k
      start_checks-stays w (i ∷ bs) s n same apart why k =
          let spared : ((w.heap.cell i).server ≢ (w.heap.cell b).server)
              ⊎ ((checkable setting (w.heap.cell i).server ≡ true)
                  ⊎ ((w.heap.cell i).state ≡ down)) =
            elim apart.0 [
              | inr ne ↦ inl (λ e'. ne (sym (same i) ∙ e' ∙ same b))
              | inl its ↦ inr (elim why [
                | inl can ↦ inl (ap (checkable setting) (same i ∙ ap server its) ∙ can)
                | inr is ↦ inr (ap (λ j. (w.heap.cell j).state) its ∙ k.is ∙ is)
              ])
            ] in
          let one : Follows hash (after setting w i) b s n =
            start_check-stays setting w i b s n spared k in
          start_checks-stays (after setting w i) bs s n (after-Serves w i same) apart.1 why one

      pub start_checks-turns :
          (w : World U) (bs : List Backend) (s : ServerState)
          → Serves w
          → Apart b bs
          → checkable setting (server b) ≡ false
          → find (λ i. server i == server b) bs ≡ some b
          → Follows hash w b s 0
          → Follows hash (started w bs) b down 0
      unfolding start_checks
      start_checks-turns w [] s same apart cannot there k = cc (there)
      start_checks-turns w (i ∷ bs) s same apart cannot there k = elim apart.0 [
        | inl its ↦
            let turned =
              start_check-turns setting w b s (ap (checkable setting) (same b) ∙ cannot) k in
            start_checks-stays (after setting w i) bs down 0 (after-Serves w i same) apart.1
              (inr refl) (subst (λ j. Follows hash (after setting w j) b down 0) (sym its) turned)
        | inr ne ↦
            let differs : (w.heap.cell i).server ≢ (w.heap.cell b).server =
              λ e'. ne (sym (same i) ∙ e' ∙ same b) in
            start_checks-turns (after setting w i) bs s (after-Serves w i same) apart.1 cannot
              (rw (ne_== (server i) (server b) ne) at there)
              (start_check-stays setting w i b s 0 (inl differs) k)
      ]
