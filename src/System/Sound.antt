-- ===== src/System/Sound.antt =====
-- What every pool of a worker (src/mgmt/worker.rs) keeps, whatever the worker does.
use weldr.Common.{
  ◌≤◌, Bool-cases, length-append, ◌∷◌, [], ℕ, ◌+◌, ◌^◌, ◌<◌, ◌≡◌, refl, ap, sym, subst, ◌∙◌, Bool,
  true, none, some, find, All, All-map, PartialEq, ◌==◌, Option-cases, inl, inr, length, arith,
}
use mathlib.Core.Path.{fun_ext}
use weldr.Message.{Message}
use weldr.Server
use weldr.Server.{Server, server_eq}
use weldr.Backend
use weldr.Backend.{Backend, ServerState}
use weldr.Pool.{Pool, find_backend, find_server}
use weldr.Pool.Get.{IsValid}
use weldr.Pool.Members.{IsClosed, has_fresh, add_server_lem}
use weldr.Pool.Request.{Dispatch, request, Answer, on_answer, on_answer_lem}
use weldr.Worker.{add_url, mark_url_down, mark_url_active}
use weldr.Worker.Status.{status, handle, handle-IsClosed, handle-IsValid}
use weldr.Worker.Serving.{request-Inv, request-keeps, on_answer-next}
use weldr.Agreement.{IsFirst}
use weldr.System.Additions.{IsNew}
use weldr.System.Turns.{add-All-IsFirst}

module _ {ℓ} {U : Type ℓ} ⦃e : PartialEq U⦄ where
  -- `last_used` is an index, no reference dangles, and every backend is the first for its server.
  pub record WorkerInv (p : Pool U) : Type ℓ where
    pub valid : IsValid p.inner
    pub closed : IsClosed p
    pub firsts : All (IsFirst p) p.backends

  same-IsFirst :
      (p q : Pool U) (b : Backend)
      → q.backends ≡ p.backends
      → ((i : Backend) → Backend.server q.heap i ≡ Backend.server p.heap i)
      → IsFirst p b
      → IsFirst q b
  unfolding find_backend find_server
  same-IsFirst p q b listed servers f =
      let same : Backend.server q.heap b ≡ Backend.server p.heap b = servers b in
      let tests = fun_ext λ j. ap (λ v. v == Backend.server p.heap b) (servers j) in
      record {
        first = rw (same, listed) (ap (λ t. find t p.backends) tests ∙ f.first);
        maps = ap (λ v. v.map_host) same ∙ f.maps;
      }

  keeps-WorkerInv :
      (p q : Pool U)
      → q.backends ≡ p.backends
      → q.heap.next ≡ p.heap.next
      → ((i : Backend) → Backend.server q.heap i ≡ Backend.server p.heap i)
      → IsValid q.inner
      → WorkerInv p
      → WorkerInv q
  keeps-WorkerInv p q listed nexts servers valid v = record {
    valid = valid;
    closed = rw (listed, nexts) v.closed;
    firsts =
        subst (All (IsFirst q)) (sym listed)
          (All-map (λ b f. same-IsFirst p q b listed servers f) p.backends v.firsts);
  }

  pub request-WorkerInv :
      (fuel : ℕ) (p q : Pool U) (d : Dispatch U)
      → request fuel p ≡ some (d, q)
      → WorkerInv p
      → WorkerInv q
  request-WorkerInv fuel p q d e v =
      let (heaps, listed) = request-keeps fuel p q d e in
      keeps-WorkerInv p q listed (ap (λ h. h.next) heaps) (λ i. ap (λ h. Backend.server h i) heaps)
        (request-Inv fuel p q d v.valid v.closed e).0 v

  pub on_answer-WorkerInv :
      {A : Type 0} (is_server_error : A → Bool) (p : Pool U) (b : Backend) (a : Answer A)
      → WorkerInv p
      → WorkerInv (record p { heap = on_answer is_server_error p.heap b a })
  on_answer-WorkerInv is_server_error p b a v =
      keeps-WorkerInv p (record p { heap = on_answer is_server_error p.heap b a }) refl
        (on_answer-next is_server_error p.heap b a)
        (λ i. (on_answer_lem is_server_error p.heap b i a).0) v.valid v

  -- A mark of a server changes only states.
  abbrev Marks : Pool U → Pool U → Type ℓ
  Marks p q =
      (q.backends ≡ p.backends)
      × (q.heap.next ≡ p.heap.next)
      × ((i : Backend) → Backend.server q.heap i ≡ Backend.server p.heap i)

  down-Marks : (p : Pool U) (url : U) → Marks p (mark_url_down p url)
  unfolding mark_url_down Backend.mark_down
  down-Marks p url = elim (Option-cases (find_backend p (Server.new url true))) [
    | inl missing ↦ rw (missing, mark_url_down) (refl, refl, λ i. refl)
    | inr (b, found) ↦ rw (found, mark_url_down) (refl, refl, λ i. ground arith)
  ]

  active-Marks : (p : Pool U) (url : U) → Marks p (mark_url_active p url)
  unfolding mark_url_active Backend.mark_active
  active-Marks p url = elim (Option-cases (find_backend p (Server.new url true))) [
    | inl missing ↦ rw (missing, mark_url_active) (refl, refl, λ i. refl)
    | inr (b, found) ↦ rw (found, mark_url_active) (refl, refl, λ i. ground arith)
  ]

  missing-status : (p : Pool U) (s : Server U) → status p s ≡ none → find_backend p s ≡ none
  missing-status p s e = elim (Option-cases (find_backend p s)) [
    | inl missing ↦ missing
    | inr (b, found) ↦ let never = rw found at e in cc (never)
  ]

  -- A request that adds no server twice keeps them.
  pub handle-WorkerInv :
      (p : Pool U) (m : Message U)
      → length p.backends + 1 < 2 ^ 60
      → IsNew (status p) m
      → WorkerInv p
      → WorkerInv (handle p m)
  unfolding handle add_url Server.new
  handle-WorkerInv p (Message.add_server url) room new v = record {
    valid = handle-IsValid p (Message.add_server url) v.closed (omega arith) v.valid;
    closed = handle-IsClosed p (Message.add_server url) v.closed;
    firsts =
        add-All-IsFirst p (Server.new url true) v.closed
          (missing-status p (Server.new url true) new) refl v.firsts;
  }
  handle-WorkerInv p (Message.mark_server_down url) room new v =
      let (listed, nexts, servers) = down-Marks p url in
      keeps-WorkerInv p (mark_url_down p url) listed nexts servers
        (handle-IsValid p (Message.mark_server_down url) v.closed (omega arith) v.valid) v
  handle-WorkerInv p (Message.mark_server_active url) room new v =
      let (listed, nexts, servers) = active-Marks p url in
      keeps-WorkerInv p (mark_url_active p url) listed nexts servers
        (handle-IsValid p (Message.mark_server_active url) v.closed (omega arith) v.valid) v

  -- A request makes the list longer by one at most.
  pub length-handle :
      (p : Pool U) (m : Message U)
      → IsClosed p
      → length (handle p m).backends ≤ length p.backends + 1
  unfolding handle add_url
  length-handle p (Message.add_server url) c =
      let listed = (add_server_lem p (Server.new url true) c).1 in
      elim (Bool-cases (has_fresh p (Server.new url true))) [
        | inl old ↦ omega (arith, ap length (rw old at listed))
        | inr new ↦
            omega (arith, ap length (rw new at listed), length-append p.backends (p.heap.next ∷ []))
      ]
  length-handle p (Message.mark_server_down url) c = omega (arith, ap length (down-Marks p url).0)
  length-handle p (Message.mark_server_active url) c =
      omega (arith, ap length (active-Marks p url).0)
