-- ===== src/Pool.antt =====
-- The pool of src/pool.rs. `InnerPool` is the round-robin list of references; `Pool` is what a
-- process sees through `Rc<RefCell<InnerPool>>`: that list and the heap of the backends.
-- The `loop` of `get` runs on fuel, one unit for a round; `none` means that the fuel ran out.
pub mod Rotation
pub mod Get
pub mod Hang
pub mod Keeps
pub mod Members
pub mod Request
pub mod RoundRobin
pub mod Ends
mod UnitTests
mod Tests
use weldr.Common.{
  ℕ, zero, suc, ◌%◌, Bool, true, false, not, Option, none, some, List, [], ◌∷◌, ◌++◌, length,
  get_elem?, find, retain, any, if◌then◌else◌, nat_beq, PartialEq, ◌==◌,
}
use weldr.Stats.{add_one_64}
use weldr.Server.{Server, server_eq}
use weldr.Backend
use weldr.Backend.{Backend, Heap, backend_eq}
use mathlib.Core.Option

pub record InnerPool : Type 0 where
  pub backends : List Backend
  pub last_used : ℕ

-- `InnerPool::new`, for the tests
unfoldable pub new : List Backend → InnerPool
new backends = record { backends = backends; last_used = 0 }

-- `InnerPool::all`
abbrev pub all : InnerPool → List Backend
all p = p.backends

module _ {ℓ} {U : Type ℓ} where
  -- The loop of `InnerPool::get`: the value returned, and `last_used` then.
  unfoldable pub get_loop : ℕ → Heap U → List Backend → ℕ → ℕ → Option (Option Backend × ℕ)
  get_loop zero h bs start last_used = none
  get_loop (suc fuel) h bs start last_used =
      let here = add_one_64 last_used % length bs in
      let rest = get_loop fuel h bs start here in
      elim (get_elem? bs here) [
        | none ↦ some (none, here)
        | some b ↦
            if Backend.is_down h b
            then (if nat_beq start here then some (none, here) else rest)
            else some (some b, here)
      ]

  -- `InnerPool::get`
  unfoldable pub get : ℕ → Heap U → InnerPool → Option (Option Backend × InnerPool)
  unfolding get_loop
  get fuel h p = elim p.backends [
    | [] ↦ some (none, p)
    | _ ↦
        Option.map (λ r. (r.0, record p { last_used = r.1 }))
          (get_loop fuel h p.backends p.last_used p.last_used)
  ]

module _ {ℓ} {U : Type ℓ} ⦃e : PartialEq U⦄ where
  -- `InnerPool::add`; `contains` compares what the references point to.
  unfoldable pub add : Heap U → InnerPool → Backend → InnerPool × Bool
  add h p b =
      if any (λ x. h.cell x == h.cell b) p.backends
      then (p, false)
      else (record p { backends = p.backends ++ b ∷ [] }, true)

  -- `InnerPool::remove`
  unfoldable pub remove : Heap U → InnerPool → Server U → InnerPool
  remove h p s = record p { backends = retain (λ b. not (Backend.server h b == s)) p.backends }

  -- `InnerPool::find`
  unfoldable pub find_server : Heap U → InnerPool → Server U → Option Backend
  find_server h p s = find (λ b. Backend.server h b == s) p.backends

pub record Pool {ℓ} (U : Type ℓ) : Type ℓ where
  pub heap : Heap U
  pub inner : InnerPool
  pub open inner use *

-- `Pool::default()`, in a process whose heap is `h`
unfoldable pub default {ℓ} : {U : Type ℓ} → Heap U → Pool U
default h = record { heap = h; inner = record { backends = []; last_used = 0 } }

module _ {ℓ} {U : Type ℓ} ⦃e : PartialEq U⦄ where
  -- `Pool::add`
  unfoldable pub add_server : Pool U → Server U → Pool U × Bool
  add_server p s =
      let (h, b) = Backend.new p.heap s in
      let (inner, added) = add h p.inner b in (record { heap = h; inner = inner }, added)

  -- `Pool::remove`
  unfoldable pub remove_server : Pool U → Server U → Pool U
  unfolding remove
  remove_server p s = record p { inner = remove p.heap p.inner s }

  -- `Pool::find`
  unfoldable pub find_backend : Pool U → Server U → Option Backend
  unfolding find_server
  find_backend p s = find_server p.heap p.inner s
