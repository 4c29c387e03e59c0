-- ===== src/Worker/Serving.antt =====
-- A worker process as it runs: requests of clients (`Pool::request`, src/pool.rs), their answers, and
-- the manager's requests (src/mgmt/worker.rs), interleaved in any order on one event loop.
use weldr.Common.{
  ℕ, ◌+◌, ◌^◌, ◌<◌, ◌≡◌, refl, ap, sym, subst, ◌∙◌, ◌↔◌, Bool, true, false, Option, none, some,
  List, [], ◌∷◌, ◌++◌, arith, length, All, PartialEq, Option-cases, inl, inr,
}
use mathlib.Core.Option
use weldr.Message.{Message}
use weldr.Server
use weldr.Backend
use weldr.Backend.{Backend, Heap}
use weldr.Pool.{Pool, get, default}
use weldr.Pool.Get.{IsValid, get_result}
use weldr.Pool.Keeps.{get-IsValid, get-backends, get-All}
use weldr.Pool.Rotation.{live}
use weldr.Pool.Members.{IsClosed}
use weldr.Pool.Request.{Dispatch, sent, exhausted, dispatch, Answer, ok, err, request, on_answer}
use weldr.Worker.Status.{handle, handle-IsClosed, handle-IsValid}

-- The pool, and the backends whose requests have not been answered.
pub record Process {ℓ} (U : Type ℓ) : Type ℓ where
  pub pool : Pool U
  pub in_flight : List Backend

module _ {ℓ} {U : Type ℓ} where
  pub request-Inv :
      (fuel : ℕ) (p q : Pool U) (d : Dispatch U)
      → IsValid p.inner
      → IsClosed p
      → request fuel p ≡ some (d, q)
      → IsValid q.inner × IsClosed q
  unfolding request
  request-Inv fuel p q d v c e = elim (Option-cases (get fuel p.heap p.inner)) [
    | inl out ↦ let never = rw out at e in cc (never)
    | inr ((r, inner), ran) ↦
        let (same, valid) = get-IsValid p.heap fuel p.inner inner r v ran in
        let returned = rw ran at e in
        let is : record p { inner = inner } ≡ q = cc (returned) in
        let closed : IsClosed (record p { inner = inner }) = rw same c in
        (subst (λ p'. IsValid p'.inner) is valid, subst IsClosed is closed)
  ]

  -- A request leaves the heap and the list.
  pub request-keeps :
      (fuel : ℕ) (p q : Pool U) (d : Dispatch U)
      → request fuel p ≡ some (d, q)
      → (q.heap ≡ p.heap) × (q.backends ≡ p.backends)
  unfolding request
  request-keeps fuel p q d e = elim (Option-cases (get fuel p.heap p.inner)) [
    | inl out ↦ let never = rw out at e in cc (never)
    | inr ((r, inner), ran) ↦
        let returned = rw ran at e in
        let is : record p { inner = inner } ≡ q = cc (returned) in
        (
          sym (ap (λ p'. p'.heap) is),
          sym (ap (λ p'. p'.backends) is) ∙ get-backends p.heap fuel p.inner inner r ran,
        )
  ]

  -- The backend that a request goes to is one of the list.
  pub request-All {κ} :
      (P : Backend → Type κ) (fuel : ℕ) (p q : Pool U) (b : Backend) (server : Server.Server U)
      → All P p.backends
      → request fuel p ≡ some (sent b server, q)
      → P b
  unfolding request
  request-All P fuel p q b server all e = elim (Option-cases (get fuel p.heap p.inner)) [
    | inl out ↦ let never = rw out at e in cc (never)
    | inr ((none, inner), ran) ↦ let never = rw ran at e in cc (never)
    | inr ((some c, inner), ran) ↦
        let returned = rw ran at e in
        let is : c ≡ b = cc (returned) in subst P is (get-All p.heap P fuel p.inner inner c all ran)
  ]

  pub on_answer-next :
      {S : Type 0} (is_server_error : S → Bool) (h : Heap U) (b : Backend) (a : Answer S)
      → (on_answer is_server_error h b a).next ≡ h.next
  unfolding on_answer
  on_answer-next is_server_error h b (ok status) = ground arith
  on_answer-next is_server_error h b err = refl

  dispatch-sent :
      (h : Heap U) (r : Option Backend)
      → ((b : Backend) → r ≡ some b → live h b ≡ true)
      → (b : Backend) (server : Server.Server U) → dispatch h r ≡ sent b server
      → (live h b ≡ true) × (server ≡ Backend.server h b)
  dispatch-sent h none up b server e = cc
  dispatch-sent h (some i) up b server e =
      let same : i ≡ b = cc (e) in
      let its : Backend.server h i ≡ server = cc (e) in
      (subst (λ j. live h j ≡ true) same (up i refl), sym its ∙ ap (Backend.server h) same)

  dispatch-exhausted {κ} :
      {P : Type κ} (h : Heap U) (r : Option Backend)
      → (r ≡ none) ↔ P
      → (dispatch h r ≡ exhausted) ↔ P
  dispatch-exhausted h none e = (λ _. e.0 refl, λ _. refl)
  dispatch-exhausted h (some b) e = (λ d. cc, λ x. let never = e.1 x in cc (never))

  -- Within as many rounds of the loop as there are backends a request goes to a backend that is up,
  -- with its server, or to none, which happens exactly when all are down.
  pub request_lem :
      (p : Pool U)
      → IsValid p.inner
      → (d : Dispatch U) × (q : Pool U) × (request (length p.backends) p ≡ some (d, q))
        × ((b : Backend) (server : Server.Server U)
            → d ≡ sent b server
            → (live p.heap b ≡ true) × (server ≡ Backend.server p.heap b))
        × ((d ≡ exhausted) ↔ All (λ b. live p.heap b ≡ false) p.backends)
  unfolding request
  request_lem p v =
      let (r, q, ran, up, none_iff) =
        get_result p.heap (length p.backends) p.inner v (omega arith) in
      (
        dispatch p.heap r,
        record p { inner = q },
        ap (Option.map _) ran,
        dispatch-sent p.heap r up,
        dispatch-exhausted p.heap r none_iff,
      )

module _ {ℓ} {U : Type ℓ} ⦃e : PartialEq U⦄ {S : Type 0} (is_server_error : S → Bool) where
  -- One step. A list holds fewer than 2 ^ 60 references, or `push` panics.
  pub data Step (s : Process U) : Process U → Type ℓ where
    client :
        (fuel : ℕ) {b : Backend} {server : Server.Server U} {p : Pool U}
        → request fuel s.pool ≡ some (sent b server, p)
        → Step s (record { pool = p; in_flight = b ∷ s.in_flight })
    refused :
        (fuel : ℕ) {p : Pool U}
        → request fuel s.pool ≡ some (exhausted, p)
        → Step s (record s { pool = p })
    answer :
        (xs ys : List Backend) (b : Backend) (a : Answer S)
        → s.in_flight ≡ xs ++ b ∷ ys
        → Step s (record {
          pool = record s.pool { heap = on_answer is_server_error s.pool.heap b a };
          in_flight = xs ++ ys;
        })
    manager :
        (m : Message U)
        → length s.pool.backends + 1 < 2 ^ 60
        → Step s (record s { pool = handle s.pool m })

  -- What a worker reaches that starts with an empty pool.
  pub data Reach (h : Heap U) : Process U → Type ℓ where
    start : Reach h (record { pool = default h; in_flight = [] })
    next : {s t : Process U} → Reach h s → Step s t → Reach h t

  -- Every request of a client can be dispatched, and no reference dangles.
  pub record Inv (s : Process U) : Type 0 where
    pub valid : IsValid s.pool.inner
    pub closed : IsClosed s.pool

  Step-Inv : {s t : Process U} → Step s t → Inv s → Inv t
  Step-Inv (client fuel e) v =
      let (valid, closed) = request-Inv fuel _ _ _ v.valid v.closed e in
      record { valid = valid; closed = closed }
  Step-Inv (refused fuel e) v =
      let (valid, closed) = request-Inv fuel _ _ _ v.valid v.closed e in
      record { valid = valid; closed = closed }
  Step-Inv {s} (answer xs ys b a e) v = record {
    valid = v.valid;
    closed = rw (on_answer-next is_server_error s.pool.heap b a) v.closed;
  }
  Step-Inv {s} (manager m room) v = record {
    valid = handle-IsValid s.pool m v.closed (omega arith) v.valid;
    closed = handle-IsClosed s.pool m v.closed;
  }

  pub Reach-Inv : {h : Heap U} {s : Process U} → Reach h s → Inv s
  unfolding default
  Reach-Inv start = record {
    valid = record { fits = omega arith; in_range = omega arith };
    closed = tt;
  }
  Reach-Inv (next r st) = Step-Inv st (Reach-Inv r)

  -- In every state that a worker reaches, by any interleaving of client requests, answers and
  -- requests of the manager, with fewer than 2 ^ 60 backends when one comes, a request of a client
  -- is dispatched within as many rounds of the loop as there are backends: to one that is up, with
  -- its server, or to none, and that exactly if all are down.
  pub Reach-request :
      {h : Heap U} {s : Process U}
      → Reach h s
      → (d : Dispatch U) × (q : Pool U) × (request (length s.pool.backends) s.pool ≡ some (d, q))
        × ((b : Backend) (server : Server.Server U)
            → d ≡ sent b server
            → (live s.pool.heap b ≡ true) × (server ≡ Backend.server s.pool.heap b))
        × ((d ≡ exhausted) ↔ All (λ b. live s.pool.heap b ≡ false) s.pool.backends)
  Reach-request {s} r = request_lem s.pool (Reach-Inv r).valid
