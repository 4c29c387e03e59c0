-- ===== src/System/Joined.antt =====
-- What a worker can know of the servers (src/mgmt/worker.rs, src/mgmt/manager.rs): `subscribe` sends
-- nothing, so of a server that was listed when the worker subscribed it is never told.
use weldr.Common.{
  ◌≡◌, refl, ap, subst, ◌∙◌, sym, true, Option, none, some, List, [], ◌∷◌, arith, Bool-cases, inl,
  inr, PartialEq, ◌==◌, ==_eq,
}
use mathlib.Core.Path.{fun_ext}
use weldr.Message.{Message}
use weldr.Server
use weldr.Server.{Server, server_eq}
use weldr.Backend.{ServerState}
use weldr.Worker.Status.{announced, announced_all}
use weldr.System.Additions.{IsNew, AddsNew}

-- What is heard of a server, by what was known of it before.
abbrev pub heard {ℓ} : {A : Type ℓ} → Option A → Option A → Option A
heard none now = now
heard (some before) now = none

-- What is heard is so, and of something new.
pub heard-some {ℓ} :
    {A : Type ℓ} {now : Option A} {a : A} (before : Option A)
    → heard before now ≡ some a
    → (before ≡ none) × (now ≡ some a)
heard-some none e = (refl, e)
heard-some (some b) e = cc (e)

pub heard_same {ℓ} : {A : Type ℓ} (o : Option A) → heard o o ≡ none
heard_same none = refl
heard_same (some a) = refl

module _ {ℓ} {U : Type ℓ} ⦃e : PartialEq U⦄ where
  -- What is not listed was not then.
  abbrev pub Keeps : (Server U → Option ServerState) → (Server U → Option ServerState) → Type ℓ
  Keeps j d = (t : Server U) → d t ≡ none → j t ≡ none

  pub Keeps-announced :
      (j d : Server U → Option ServerState) (m : Message U) → Keeps j d → Keeps j (announced d m)
  unfolding announced
  Keeps-announced j d (Message.add_server url) k t e = ground (arith, k t, e)
  Keeps-announced j d (Message.mark_server_down url) k t e = ground (arith, k t, e)
  Keeps-announced j d (Message.mark_server_active url) k t e = ground (arith, k t, e)

  pub Keeps-announced_all :
      (j d : Server U → Option ServerState) (ms : List (Message U))
      → Keeps j d
      → Keeps j (announced_all d ms)
  unfolding announced_all
  Keeps-announced_all j d [] k = k
  Keeps-announced_all j d (m ∷ ms) k =
      Keeps-announced_all j (announced d m) ms (Keeps-announced j d m k)

  heard-announced :
      (j d : Server U → Option ServerState) (m : Message U)
      → IsNew d m
      → Keeps j d
      → (t : Server U) → announced (λ s. heard (j s) (d s)) m t ≡ heard (j t) (announced d m t)
  unfolding announced
  heard-announced j d (Message.add_server url) new k t =
      elim (Bool-cases (Server.new url true == t)) [
        | inl own ↦
            let same = ==_eq (Server.new url true) t own in
            let missing : d t ≡ none = ap d (sym same) ∙ new in
            rw own (ground (arith, missing, k t missing))
        | inr other ↦ rw other refl
      ]
  heard-announced j d (Message.mark_server_down url) new k t = ground arith
  heard-announced j d (Message.mark_server_active url) new k t = ground arith

  -- Requests that add no listed server tell of the others as the manager does.
  pub heard-announced_all :
      (j d : Server U → Option ServerState) (ms : List (Message U))
      → AddsNew d ms
      → Keeps j d
      → (t : Server U)
      → announced_all (λ s. heard (j s) (d s)) ms t ≡ heard (j t) (announced_all d ms t)
  unfolding announced_all
  heard-announced_all j d [] new k t = refl
  heard-announced_all j d (m ∷ ms) new k t =
      ap (λ f. announced_all f ms t) (fun_ext (heard-announced j d m new.0 k))
      ∙ heard-announced_all j (announced d m) ms new.1 (Keeps-announced j d m k) t

  heard-IsNew :
      (j d : Server U → Option ServerState) (m : Message U)
      → IsNew d m
      → IsNew (λ s. heard (j s) (d s)) m
  heard-IsNew j d (Message.add_server url) new = ground (arith, new)
  heard-IsNew j d (Message.mark_server_down url) new = tt
  heard-IsNew j d (Message.mark_server_active url) new = tt

  pub heard-AddsNew :
      (j d : Server U → Option ServerState) (ms : List (Message U))
      → AddsNew d ms
      → Keeps j d
      → AddsNew (λ s. heard (j s) (d s)) ms
  heard-AddsNew j d [] new k = tt
  heard-AddsNew j d (m ∷ ms) new k = (
    heard-IsNew j d m new.0,
    subst (λ f. AddsNew f ms) (sym (fun_ext (heard-announced j d m new.0 k)))
        (heard-AddsNew j (announced d m) ms new.1 (Keeps-announced j d m k)),
  )
