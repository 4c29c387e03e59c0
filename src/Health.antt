-- ===== src/Health.antt =====
-- `BackendHealth` of src/mgmt/health.rs. Its `HashMap<Backend, HealthState>` is the list of its
-- entries, oldest first. An entry keeps the hash that its key had when it was stored, as the table
-- does; it is found by a backend with that hash whose contents equal the key's contents now. The
-- hash function is a parameter, since each map draws its own.
pub mod Table
pub mod Check
pub mod Views
pub mod Settle
pub mod Watch
pub mod Streak
pub mod Apart
pub mod Keys
pub mod Interleaved
pub mod Bounds
mod UnitTests
mod Tests
use weldr.Common.{
  ℕ, Bool, true, false, ◌&&◌, List, [], ◌∷◌, if◌then◌else◌, leb, nat_beq, PartialEq, ◌==◌,
}
use weldr.Stats.{add_one_64}
use weldr.Backend
use weldr.Backend.{Backend, InnerBackend, Heap, backend_eq}

pub data HealthState : Type 0 where
  passing failing : ℕ → HealthState

pub record Entry : Type 0 where
  pub hash : ℕ
  pub key : Backend
  pub value : HealthState

pub record BackendHealth : Type 0 where
  pub health_state : List Entry

unfoldable pub new : BackendHealth
new = record { health_state = [] }

-- The match of `should_mark_active` on whether the backend is active: the new state, the answer.
unfoldable pub active_step : Bool → ℕ → HealthState → HealthState × Bool
active_step true required (failing _) = (passing 0, false)
active_step true required (passing n) = (passing n, false)
active_step false required (passing n) =
    let n' = add_one_64 n in if leb required n' then (passing 0, true) else (passing n', false)
active_step false required (failing _) = (passing 1, false)

-- The match of `should_mark_down` on whether the backend is down.
unfoldable pub down_step : Bool → ℕ → HealthState → HealthState × Bool
down_step true required (passing _) = (failing 0, false)
down_step true required (failing n) = (failing n, false)
down_step false required (failing n) =
    let n' = add_one_64 n in if leb required n' then (failing 0, true) else (failing n', false)
down_step false required (passing _) = (failing 1, false)

module _ {ℓ} {U : Type ℓ} ⦃e : PartialEq U⦄ (hash : InnerBackend U → ℕ) where
  -- Whether the table takes an entry for that of `b`.
  abbrev pub hits : Heap U → Backend → Entry → Bool
  hits h b x = nat_beq x.hash (hash (h.cell b)) && (h.cell x.key == h.cell b)

  -- `entry(b).or_insert(Passing(0))`, and the update of what it points to by `f`.
  unfoldable pub update_entry :
      (HealthState → HealthState × Bool) → Heap U → Backend → List Entry → List Entry × Bool
  update_entry f h b [] =
      let (v, answer) = f (passing 0) in
      (record { hash = hash (h.cell b); key = b; value = v } ∷ [], answer)
  update_entry f h b (x ∷ xs) =
      let rest = update_entry f h b xs in
      if hits h b x
      then (record x { value = (f x.value).0 } ∷ xs, (f x.value).1)
      else (x ∷ rest.0, rest.1)

  -- `BackendHealth::should_mark_active`
  unfoldable pub should_mark_active : Heap U → BackendHealth → Backend → ℕ → BackendHealth × Bool
  unfolding update_entry active_step
  should_mark_active h m b required =
      let (xs, answer) =
        update_entry (active_step (Backend.is_active h b) required) h b m.health_state in
      (record { health_state = xs }, answer)

  -- `BackendHealth::should_mark_down`
  unfoldable pub should_mark_down : Heap U → BackendHealth → Backend → ℕ → BackendHealth × Bool
  unfolding update_entry down_step
  should_mark_down h m b required =
      let (xs, answer) =
        update_entry (down_step (Backend.is_down h b) required) h b m.health_state in
      (record { health_state = xs }, answer)
