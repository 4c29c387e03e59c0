-- ===== src/Backend.antt =====
-- The `Backend` of src/pool.rs: an `Rc<RefCell<InnerBackend>>`. The heap holds what the references
-- of one process point to; a reference is an address below `next`, and is never freed here, since a
-- backend that nothing points to cannot be observed.
use weldr.Common.{
  ℕ, suc, ◌≡◌, ◌↔◌, Bool, true, false, ◌&&◌, arith, nat_beq, if◌then◌else◌, PartialEq, ◌==◌,
}
use weldr.Stats
use weldr.Stats.{Stats, stats_eq}
use weldr.Server.{Server, server_eq}

pub data ServerState : Type 0 where
  active down : ServerState

abbrev pub state_beq : ServerState → ServerState → Bool
state_beq active active = true
state_beq down down = true
state_beq _ _ = false

pub state_beq_iff : (a b : ServerState) → (state_beq a b ≡ true) ↔ (a ≡ b)
state_beq_iff a b = ground arith

instance abbrev pub state_eq : PartialEq ServerState
state_eq = record { eq = state_beq; eq_law = state_beq_iff }

pub record InnerBackend {ℓ} (U : Type ℓ) : Type ℓ where
  pub server : Server U
  pub state : ServerState
  pub stats : Stats

module _ {ℓ} {U : Type ℓ} ⦃e : PartialEq U⦄ where
  abbrev pub backend_beq : InnerBackend U → InnerBackend U → Bool
  backend_beq a b = a.server == b.server && a.state == b.state && a.stats == b.stats

  pub backend_beq_iff : (a b : InnerBackend U) → (backend_beq a b ≡ true) ↔ (a ≡ b)
  backend_beq_iff a b = ground (arith, e.eq_law a.server.url b.server.url)

  instance abbrev pub backend_eq : PartialEq (InnerBackend U)
  backend_eq = record { eq = backend_beq; eq_law = backend_beq_iff }

-- A reference: the address of an `InnerBackend`.
abbrev pub Backend : Type 0
Backend = ℕ

pub record Heap {ℓ} (U : Type ℓ) : Type ℓ where
  pub next : ℕ
  pub cell : ℕ → InnerBackend U

module _ {ℓ} {U : Type ℓ} where
  abbrev pub write : Heap U → Backend → InnerBackend U → Heap U
  write h b v = record h { cell = λ i. if nat_beq b i then v else h.cell i }

  -- `Backend::new`: a fresh reference, with the heap that holds it
  unfoldable pub new : Heap U → Server U → Heap U × Backend
  unfolding Stats.new
  new h server = (
    record {
      next = suc h.next;
      cell = λ i.
          if nat_beq h.next i
          then record { server = server; state = active; stats = Stats.new }
          else h.cell i;
    },
    h.next,
  )

  unfoldable pub inc_success : Heap U → Backend → Heap U
  unfolding Stats.inc_success
  inc_success h b = write h b (record (h.cell b) { stats = Stats.inc_success (h.cell b).stats })

  unfoldable pub inc_failure : Heap U → Backend → Heap U
  unfolding Stats.inc_failure
  inc_failure h b = write h b (record (h.cell b) { stats = Stats.inc_failure (h.cell b).stats })

  abbrev pub server : Heap U → Backend → Server U
  server h b = (h.cell b).server

  abbrev pub is_active : Heap U → Backend → Bool
  is_active h b = (h.cell b).state == active

  abbrev pub is_down : Heap U → Backend → Bool
  is_down h b = (h.cell b).state == down

  unfoldable pub mark_active : Heap U → Backend → Heap U
  mark_active h b = write h b (record (h.cell b) { state = active })

  unfoldable pub mark_down : Heap U → Backend → Heap U
  mark_down h b = write h b (record (h.cell b) { state = down })
