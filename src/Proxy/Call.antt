-- ===== src/Proxy/Call.antt =====
-- `Proxy::call` of src/proxy.rs on the pool of src/pool.rs: what is sent where, and what is counted.
-- The client that sends it is hyper's; its answer comes later, in any order.
use weldr.Common.{
  ℕ, String, Bool, true, false, Option, none, some, ◌≡◌, ◌≢◌, ◌⊎◌, inl, inr, refl, ap, ◌∙◌, All,
  length, arith, if◌then◌else◌, Option-cases,
}
use weldr.Stats
use weldr.Stats.{add_one_64}
use weldr.Server.{Server}
use weldr.Backend
use weldr.Backend.{Backend, Heap}
use weldr.Pool.{Pool}
use weldr.Pool.Get.{IsValid}
use weldr.Pool.Rotation.{live}
use weldr.Pool.Request.{Dispatch, Answer, ok, err, sent, exhausted, request, on_answer, succeeds}
use weldr.Worker.Serving.{request_lem, request-All, request-keeps}
use weldr.Proxy.{
  hidden, target, forward, HeaderOps, Request, ClientRequest, Response, UriOps, map_request,
  map_response, backend_request,
}
use weldr.Proxy.Headers.{Laws}
use weldr.Proxy.Forward.{forward_lem, version_cases, map_request_lem}

-- What a call does until it waits: a panic; or the loop of the pool does not end; or a request is
-- sent to a backend; or the future fails, since the pool is exhausted.
pub data Started (H M U B : Type 0) : Type 0 where
  panics : Started H M U B
  hangs : Started H M U B
  asks : Backend → ClientRequest H M U B → Pool U → Started H M U B
  refused : Pool U → Started H M U B

module _ {H V M U B : Type 0} (ops : HeaderOps H V) (text : UriOps U)
    (host_value : String → Option ℕ → V) where
  unfoldable pub call : ℕ → Pool U → Request H M U B → Started H M U B
  unfolding map_request request backend_request
  call fuel p req = elim (map_request ops req) [
    | none ↦ panics
    | some client_req ↦ elim (request fuel p) [
      | none ↦ hangs
      | some (d, q) ↦ elim d [
        | exhausted ↦ refused q
        | sent b server ↦ elim (backend_request ops text host_value server client_req) [
          | none ↦ panics
          | some r ↦ asks b r q
        ]
      ]
    ]
  ]

module _ {H V S B : Type 0} (ops : HeaderOps H V) where
  -- The closure behind `client.call(client_req).then`
  abbrev pub map_answer : Answer (Response H S B) → Answer (Response H S B)
  map_answer (ok res) = ok (map_response ops res)
  map_answer err = err

module _ {H V U S B : Type 0} (ops : HeaderOps H V) (is_server_error : S → Bool) where
  -- When the answer of the server comes: the pool counts it, and this is the reply to the client.
  unfoldable pub complete :
      Pool U → Backend → Answer (Response H S B) → Pool U × Answer (Response H S B)
  unfolding map_response on_answer
  complete p b a =
      let reply = map_answer ops a in
      (record p { heap = on_answer (λ r. is_server_error r.status) p.heap b reply }, reply)

  -- An answer is counted once, by its backend alone, as what the server answered.
  abbrev pub IsCounted : Pool U → Backend → Answer (Response H S B) → Type 0
  IsCounted p b a =
      let h = (complete p b a).0.heap in
      let fine = succeeds (λ (r : Response H S B). is_server_error r.status) a in
      let before = (p.heap.cell b).stats in
      ((h.cell b).stats.success ≡ (if fine then add_one_64 before.success else before.success))
      × ((h.cell b).stats.failure ≡ (if fine then before.failure else add_one_64 before.failure))
      × ((i : Backend) → i ≢ b → h.cell i ≡ p.heap.cell i)

  complete-IsCounted : (p : Pool U) (b : Backend) (a : Answer (Response H S B)) → IsCounted p b a
  unfolding complete on_answer map_response Stats.inc_success Stats.inc_failure
  complete-IsCounted p b (ok res) = ground arith
  complete-IsCounted p b err = ground arith

module _ {H V M U B : Type 0} (ops : HeaderOps H V) (text : UriOps U)
    (host_value : String → Option ℕ → V) where
  pub call-asks :
      (fuel : ℕ) (p q : Pool U) (req : Request H M U B) (b : Backend) (server : Server U)
      (r : ClientRequest H M U B)
      → request fuel p ≡ some (sent b server, q)
      → forward ops text host_value server req ≡ some r
      → call ops text host_value fuel p req ≡ asks b r q
  unfolding call forward
  call-asks fuel p q req b server r e f = elim (Option-cases (map_request ops req)) [
    | inl bad ↦ let never = rw bad at f in cc (never)
    | inr (c, mapped) ↦
        let made : backend_request ops text host_value server c ≡ some r = rw mapped at f in
        rw (mapped, e, made, call) refl
  ]

  pub call-refused :
      (fuel : ℕ) (p q : Pool U) (req : Request H M U B) (c : ClientRequest H M U B)
      → request fuel p ≡ some (exhausted, q)
      → map_request ops req ≡ some c
      → call ops text host_value fuel p req ≡ refused q
  unfolding call
  call-refused fuel p q req c e mapped = rw (mapped, e, call) refl

pub Dispatch-cases :
    {U : Type 0} (d : Dispatch U)
    → (d ≡ exhausted) ⊎ ((b : Backend) × (server : Server U) × (d ≡ sent b server))
Dispatch-cases exhausted = inl refl
Dispatch-cases (sent b server) = inr (b, server, refl)

module _ {H M U B : Type 0} (text : UriOps U) where
  -- The URL that is made for a request to the server parses, and has a host.
  abbrev pub HasUrl : Request H M U B → Server U → Type 0
  HasUrl req server =
      (uri : U) × (host : String) × (text.parse (target text server req.uri) ≡ some uri)
      × (text.host uri ≡ some host)

module _ {H V M U B S : Type 0} (ops : HeaderOps H V) (same : String → String → Bool)
    (laws : Laws ops same) (text : UriOps U) (host_value : String → Option ℕ → V)
    (is_server_error : S → Bool) where
  abbrev pub Reached : Pool U → Request H M U B → Backend → Type 0
  Reached p req b = HasUrl text req (Backend.server p.heap b)

  -- If the pool is valid, hyper knows the version of the request, and for every backend of the pool
  -- the URL made from its server's and the request's parses and has a host, then within as many
  -- rounds as there are backends either the call is refused and every backend is down, or a backend
  -- that is up is asked, with what `forward` makes for its server, and the list stays; and whenever
  -- its answer comes, that backend alone counts it, once, as a failure if it is an error or has a
  -- server error's status, and else as a success.
  pub call_lem :
      (p : Pool U) (req : Request H M U B)
      → IsValid p.inner
      → req.version ≢ hidden
      → All (Reached p req) p.backends
      → ((q : Pool U) × (call ops text host_value (length p.backends) p req ≡ refused q)
          × All (λ b. live p.heap b ≡ false) p.backends)
        ⊎ ((b : Backend) × (r : ClientRequest H M U B) × (q : Pool U) × (call ops text host_value
                (length p.backends)
                p
                req
              ≡ asks b r q)
            × (live p.heap b ≡ true)
            × (forward ops text host_value (Backend.server p.heap b) req ≡ some r)
            × (q.backends ≡ p.backends)
            × ((p' : Pool U) (a : Answer (Response H S B)) → IsCounted ops is_server_error p' b a))
  call_lem p req v known reached =
      let n = length p.backends in
      let (d, q, ran, up, refuses) = request_lem p v in
      let (number, is) = version_cases req.version known in
      let (h, mapped, _) = map_request_lem ops same laws req number is in
      elim (Dispatch-cases d) [
        | inl out ↦
            let none_up = ran ∙ ap (λ d. some (d, q)) out in
            inl (q, call-refused ops text host_value n p q req _ none_up mapped, refuses.0 out)
        | inr (b, server, goes) ↦
            let got = ran ∙ ap (λ d. some (d, q)) goes in
            let (lives, its) = up b server goes in
            let (uri, host, parsed, hosted) =
              request-All (Reached p req) n p q b server reached got in
            let own = Backend.server p.heap b in
            let (_, _, (h', made, _)) =
              forward_lem ops same laws text host_value own req uri host known parsed hosted in
            let asked = got ∙ ap (λ s. some (sent b s, q)) its in
            inr (
              b,
              record { method = req.method; uri = uri; headers = h'; body = req.body },
              q,
              call-asks ops text host_value n p q req b own _ asked made,
              lives,
              made,
              (request-keeps n p q d ran).1,
              (λ p' a. complete-IsCounted ops is_server_error p' b a),
            )
      ]
