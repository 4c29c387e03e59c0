-- ===== src/Health/Views.antt =====
-- The table of src/mgmt/health.rs as seen by one backend in each of its two states. A change of
-- state changes the hash of the key, so the table may have an entry for either state.
use mathlib.Core.Path.{fun_ext}
use weldr.Common.{ℕ, ◌≡◌, sym, ap, subst, inl, inr, Bool, List, arith, PartialEq}
use weldr.Backend
use weldr.Backend.{Backend, InnerBackend, Heap, ServerState, active, down}
use weldr.Health.{HealthState, passing, failing, Entry, update_entry}
use weldr.Health.Table.{health_of, update_entry_lem, update_entry_other}

-- How many checks in a row spoke for a change: failures of an active backend, passes of one down.
abbrev pub counted : ServerState → HealthState → ℕ
counted active (failing n) = n
counted active (passing n) = 0
counted down (passing n) = n
counted down (failing n) = 0

abbrev pub other : ServerState → ServerState
other active = down
other down = active

module _ {ℓ} {U : Type ℓ} where
  abbrev pub set_state : Heap U → Backend → ServerState → Heap U
  set_state h b s = Backend.write h b (record (h.cell b) { state = s })

  pub set_state_twice :
      (h : Heap U) (b : Backend) (s t : ServerState)
      → set_state (set_state h b s) b t ≡ set_state h b t
  set_state_twice h b s t = ap (λ c. record h { cell = c }) (fun_ext λ i. ground arith)

  pub set_state_same :
      (h : Heap U) (b : Backend) (s : ServerState) → (h.cell b).state ≡ s → set_state h b s ≡ h
  set_state_same h b s e = ap (λ c. record h { cell = c }) (fun_ext λ i. ground (arith, e))

module _ {ℓ} {U : Type ℓ} ⦃e : PartialEq U⦄ (hash : InnerBackend U → ℕ) where
  -- What the table has for `b` in state `s`.
  abbrev pub view : Heap U → Backend → List Entry → ServerState → HealthState
  view h b m s = health_of hash (set_state h b s) b m

  -- In state `s` the count is `c`, and in the other state nothing is counted.
  pub record Counts (h : Heap U) (b : Backend) (m : List Entry) (s : ServerState) (c : ℕ)
      : Type 0 where
    pub now : counted s (view h b m s) ≡ c
    pub rest : counted (other s) (view h b m (other s)) ≡ 0

  pub Counts-set_state :
      (h : Heap U) (b : Backend) (m : List Entry) (s t : ServerState) (c : ℕ)
      → Counts h b m s c
      → Counts (set_state h b t) b m s c
  Counts-set_state h b m s t c k = record {
    now = rw (set_state_twice h b t s) k.now;
    rest = rw (set_state_twice h b t (other s)) k.rest;
  }

  pub Counts-update :
      (f : HealthState → HealthState × Bool) (h : Heap U) (b : Backend) (m : List Entry)
      (s : ServerState) (c c' : ℕ)
      → (h.cell b).state ≡ s
      → Counts h b m s c
      → counted s (f (health_of hash h b m)).0 ≡ c'
      → (counted (other s) (health_of hash h b m) ≡ 0
          → counted (other s) (f (health_of hash h b m)).0 ≡ 0)
      → Counts h b (update_entry hash f h b m).0 s c'
  Counts-update f h b m s c c' is k counts keeps = record {
    now = rw (set_state_same h b s is, (update_entry_lem hash f h b m).1) counts;
    rest = elim (update_entry_other hash f h (set_state h b (other s)) b b m) [
      | inl e ↦ subst (λ v. counted (other s) v ≡ 0) (sym e) k.rest
      | inr (same, new) ↦
          subst (λ v. counted (other s) v ≡ 0) (sym new)
            (keeps (subst (λ v. counted (other s) v ≡ 0) same k.rest))
    ];
  }

  -- Where nothing is counted, the same holds of the other state.
  pub Counts-flip :
      (h : Heap U) (b : Backend) (m : List Entry) (s : ServerState)
      → Counts h b m s 0
      → Counts h b m (other s) 0
  Counts-flip h b m active k = record { now = k.rest; rest = k.now }
  Counts-flip h b m down k = record { now = k.rest; rest = k.now }
