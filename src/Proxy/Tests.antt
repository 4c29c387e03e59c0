-- ===== src/Proxy/Tests.antt =====
-- The proxy (src/proxy.rs) at concrete headers, requests and pools.
use weldr.Common.{
  ℕ, String, Bool, true, ◌&&◌, none, some, [], ◌∷◌, ◌≡◌, refl, ltb, nat_beq, false, All, ◌⊎◌,
  if◌then◌else◌, arith, string_partial_eq,
}
use weldr.Server.{Server}
use weldr.Backend
use weldr.Backend.{Backend, active, down}
use weldr.Pool.{Pool}
use weldr.Pool.Rotation.{live}
use weldr.Pool.Request.{Answer}
use weldr.Proxy.{
  http11, version_text, Response, ClientRequest, forward, map_response,
  filter_frontend_request_headers,
}
use weldr.Proxy.Headers.{filter_frontend_lem, map_response_lem}
use weldr.Proxy.Forward.{passed, forward_lem}
use weldr.Proxy.Call.{call, asks, refused, IsCounted, call_lem}
use weldr.Proxy.Samples.{Headers, same, ops, laws, headers, text, request, host_value}

filter_frontend_lem_example : ops.get_raw (filter_frontend_request_headers ops headers) "Foo" ≡ none
filter_frontend_lem_example = filter_frontend_lem ops same laws headers "Foo"

abbrev answer : Response Headers ℕ String
answer = record { status = 200; headers = headers; body = "hello" }

map_response_lem_example :
    let r = map_response ops answer in
    (r.status ≡ 200) × (r.body ≡ answer.body) × (ops.get_raw r.headers "Host" ≡ some "example.net")
map_response_lem_example = map_response_lem ops same laws answer "Host"

abbrev server : Server String
server = record { url = "http://server:8080"; map_host = true }

abbrev sent_to : String
sent_to = "http://server:8080/path?q=1"

forward_lem_example :
    (number : String) × (version_text http11 ≡ some number)
    × ((h : Headers) × (forward ops text host_value server request
          ≡ some (record { method = 1; uri = sent_to; headers = h; body = "" }))
        × ((k : String)
            → ops.get_raw h k ≡ (
                if true && same "Host" k
                then some "server"
                else passed ops same laws headers number k)))
forward_lem_example =
    forward_lem ops same laws text host_value server request sent_to "server" (λ e. cc) refl refl

-- Two servers, of which the first is down.
abbrev pool : Pool String
pool = record {
  heap = record {
    next = 2;
    cell = λ i. record {
      server = server;
      state = if nat_beq i 0 then down else active;
      stats = record { failure = 0; success = 0 };
    };
  };
  inner = record { backends = 0 ∷ 1 ∷ []; last_used = 1 };
}

abbrev is_server_error : ℕ → Bool
is_server_error code = ltb 499 code

call_lem_example :
    ((q : Pool String) × (call ops text host_value 2 pool request ≡ refused q)
      × All (λ b. live pool.heap b ≡ false) (0 ∷ 1 ∷ []))
    ⊎ ((b : Backend) × (r : ClientRequest Headers ℕ String String) × (q : Pool String) × (call ops
            text host_value 2 pool request
          ≡ asks b r q)
        × (live pool.heap b ≡ true)
        × (forward ops text host_value (Backend.server pool.heap b) request ≡ some r)
        × (q.backends ≡ pool.backends)
        × ((p' : Pool String) (a : Answer (Response Headers ℕ String))
            → IsCounted ops is_server_error p' b a))
call_lem_example =
    call_lem ops same laws text host_value is_server_error pool request
      record { fits = omega arith; in_range = omega arith } (λ e. cc (e))
      ((sent_to, "server", refl, refl), ((sent_to, "server", refl, refl), tt))
