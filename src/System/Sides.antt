-- ===== src/System/Sides.antt =====
-- A worker's own steps (src/mgmt/worker.rs, src/pool.rs), and what they do to what its pool says.
use weldr.Common.{ℕ, ◌≡◌, refl, ap, ◌∙◌, some, find, Bool, ◌==◌, PartialEq}
use mathlib.Core.Option
use mathlib.Core.Path.{fun_ext}
use weldr.Message.{Message}
use weldr.Server.{Server, server_eq}
use weldr.Backend.{Backend}
use weldr.Pool.{Pool, find_backend, find_server}
use weldr.Pool.Members.{IsClosed}
use weldr.Pool.Request.{Dispatch, request, Answer, on_answer, on_answer_lem}
use weldr.Worker.{ok}
use weldr.Worker.Status.{status, handle, handlers-handle}
use weldr.Worker.Serving.{request-keeps}
use weldr.Api.{Text}
use weldr.System.Node.{receive}

module _ {ℓ} {U : Type ℓ} ⦃e : PartialEq U⦄ where
  -- What a worker gets as text is what was sent, where the text of a URL parses as that URL.
  pub receive-handle :
      (text : Text U) (p : Pool U) (m : Message U)
      → ((u : U) → text.parse (text.display u) ≡ some u)
      → receive text p m ≡ ok (handle p m)
  unfolding receive
  receive-handle text p (Message.add_server url) back =
      (handlers-handle text.parse p (text.display url) url (back url)).0
  receive-handle text p (Message.mark_server_down url) back =
      (handlers-handle text.parse p (text.display url) url (back url)).1
  receive-handle text p (Message.mark_server_active url) back =
      (handlers-handle text.parse p (text.display url) url (back url)).2

  same-status :
      (p q : Pool U)
      → q.backends ≡ p.backends
      → ((b : Backend)
          → ((q.heap.cell b).server ≡ (p.heap.cell b).server)
            × ((q.heap.cell b).state ≡ (p.heap.cell b).state))
      → (t : Server U) → status q t ≡ status p t
  unfolding find_backend find_server
  same-status p q listed same t =
      let tests = fun_ext λ b. ap (λ v. v == t) (same b).0 in
      let states = fun_ext λ b. (same b).1 in
      ap
        (λ bs. Option.map (λ b. (q.heap.cell b).state) (find (λ b. (q.heap.cell b).server == t) bs))
        listed
      ∙ ap (λ f. Option.map (λ b. (q.heap.cell b).state) (find f p.backends)) tests
      ∙ ap (λ f. Option.map f (find (λ b. (p.heap.cell b).server == t) p.backends)) states

  pub request-status :
      (fuel : ℕ) (p q : Pool U) (d : Dispatch U) (t : Server U)
      → request fuel p ≡ some (d, q)
      → status q t ≡ status p t
  request-status fuel p q d t e =
      let (heaps, listed) = request-keeps fuel p q d e in
      same-status p q listed
        (λ b. (ap (λ h. (h.cell b).server) heaps, ap (λ h. (h.cell b).state) heaps)) t

  pub request-IsClosed :
      (fuel : ℕ) (p q : Pool U) (d : Dispatch U)
      → request fuel p ≡ some (d, q)
      → IsClosed p
      → IsClosed q
  request-IsClosed fuel p q d e c =
      let (heaps, listed) = request-keeps fuel p q d e in rw (heaps, listed) c

  -- The answer to a request of a client changes no state.
  pub on_answer-status :
      {A : Type 0} (is_server_error : A → Bool) (p : Pool U) (b : Backend) (a : Answer A)
      (t : Server U)
      → status (record p { heap = on_answer is_server_error p.heap b a }) t ≡ status p t
  on_answer-status is_server_error p b a t =
      let q = record p { heap = on_answer is_server_error p.heap b a } in
      same-status p q refl
        (λ i. let (srv, st, _, _) = on_answer_lem is_server_error p.heap b i a in (srv, st)) t

pub ok-injective {ℓ} : {A : Type ℓ} {a b : A} → ok a ≡ ok b → a ≡ b
ok-injective e = cc (e)

-- The text of a URL parses as that URL.
abbrev pub IsReadable {ℓ} : {U : Type ℓ} → Text U → Type ℓ
IsReadable {U} text = (u : U) → text.parse (text.display u) ≡ some u
