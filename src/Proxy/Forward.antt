-- ===== src/Proxy/Forward.antt =====
-- What is sent to a server for a request of a client (src/proxy.rs).
use Prim.Native.String.{◌++◌ as append}
use weldr.Common.{
  ℕ, String, Bool, Option, none, some, ◌++◌, any, ◌≡◌, ◌≢◌, ◌&&◌, refl, ap, ◌∙◌, if◌then◌else◌,
  arith, Bool-cases, inl, inr,
}
use weldr.Server.{Server}
use weldr.Common.Checks.{◌>>=◌}
use weldr.Proxy.{
  HttpVersion, http09, http10, http11, h2, h2c, hidden, version_text, target, forward, HeaderOps,
  create_via_header, filter_frontend_request_headers, Request, ClientRequest, UriOps, map_request,
  backend_request,
}
use weldr.Proxy.Headers.{Laws, hop_by_hop, nominated, filter_frontend_lem}

pub version_cases :
    (v : HttpVersion) → v ≢ hidden → (number : String) × (version_text v ≡ some number)
version_cases http09 known = ("0.9", refl)
version_cases http10 known = ("1.0", refl)
version_cases http11 known = ("1.1", refl)
version_cases h2 known = ("2", refl)
version_cases h2c known = ("2", refl)
version_cases hidden known = absurd (known refl)

-- The value of `Via`, for the number of the version.
abbrev pub via_of : Option String → String → String
via_of none number = append number " weldr"
via_of (some before) number = append before (append ", " (append number " weldr"))

create_via_lem :
    (via : Option String) (v : HttpVersion) (number : String)
    → version_text v ≡ some number
    → create_via_header via v ≡ some (via_of via number)
unfolding create_via_header
create_via_lem none v number is = rw is
create_via_lem (some before) v number is = rw is

module _ {H V : Type 0} (ops : HeaderOps H V) (same : String → String → Bool)
    (laws : Laws ops same) where
  -- What a header of the request is on the way to the server.
  abbrev pub passed : H → String → String → Option V
  passed h number k =
      if same "Via" k
      then some (ops.raw (via_of (ops.get_via h) number))
      else if any (λ n. same n k) (nominated (ops.get_connection h) ++ hop_by_hop)
      then none
      else ops.get_raw h k

  pub map_request_lem :
      {M U B : Type 0} (req : Request H M U B) (number : String)
      → version_text req.version ≡ some number
      → (h : H) × (map_request ops req
          ≡ some (record { method = req.method; uri = req.uri; headers = h; body = req.body }))
        × ((k : String) → ops.get_raw h k ≡ passed req.headers number k)
  unfolding map_request
  map_request_lem req number is =
      let filtered = filter_frontend_request_headers ops req.headers in
      let via = ops.raw (via_of (ops.get_via req.headers) number) in
      (
        ops.extend ops.new (ops.set_raw filtered "Via" via),
        rw (create_via_lem (ops.get_via req.headers) req.version number is),
        λ k.
            laws.extended _ k
            ∙ laws.assigned filtered "Via" via k
            ∙ ap (λ v. if same "Via" k then some via else v)
                (filter_frontend_lem ops same laws req.headers k),
      )

  backend_request_lem :
      {M U B : Type 0} (text : UriOps U) (host_value : String → Option ℕ → V) (server : Server U)
      (req : ClientRequest H M U B) (uri : U) (host : String)
      → text.parse (target text server req.uri) ≡ some uri
      → text.host uri ≡ some host
      → (h : H) × (backend_request ops text host_value server req
          ≡ some (record req { uri = uri; headers = h }))
        × ((k : String)
            → ops.get_raw h k ≡ (
                if server.map_host && same "Host" k
                then some (host_value host (text.port uri))
                else ops.get_raw req.headers k))
  unfolding backend_request
  backend_request_lem text host_value server req uri host parsed hosted =
      let value = host_value host (text.port uri) in
      let bare = ops.remove_raw req.headers "Host" in
      elim (Bool-cases server.map_host) [
        | inl maps ↦ (
          ops.set_raw bare "Host" value,
          rw (parsed, maps, hosted, backend_request) refl,
          λ k. rw maps (
              ground (arith, laws.assigned bare "Host" value k, laws.removed req.headers "Host" k)),
        )
        | inr keeps ↦ (req.headers, rw (parsed, keeps, backend_request) refl, λ k. rw keeps refl)
      ]

  -- If hyper knows the version, and the URL made from the server's and the request's parses and has
  -- a host, then a request is sent to that URL with the client's method and body; its `Via` tells
  -- of the proxy, its `Host` is the server's where that maps hosts, and of the other headers those
  -- pass, unchanged, that the filter leaves.
  pub forward_lem :
      {M U B : Type 0} (text : UriOps U) (host_value : String → Option ℕ → V) (server : Server U)
      (req : Request H M U B) (uri : U) (host : String)
      → req.version ≢ hidden
      → text.parse (target text server req.uri) ≡ some uri
      → text.host uri ≡ some host
      → (number : String) × (version_text req.version ≡ some number)
        × ((h : H) × (forward ops text host_value server req
              ≡ some (record { method = req.method; uri = uri; headers = h; body = req.body }))
            × ((k : String)
                → ops.get_raw h k ≡ (
                    if server.map_host && same "Host" k
                    then some (host_value host (text.port uri))
                    else passed req.headers number k)))
  unfolding forward
  forward_lem text host_value server req uri host known parsed hosted =
      let (number, is) = version_cases req.version known in
      let (h, mapped, pass) = map_request_lem req number is in
      let (h', sent, host_set) =
        backend_request_lem text host_value server
          (record { method = req.method; uri = req.uri; headers = h; body = req.body }) uri host
          parsed hosted in
      (
        number,
        is,
        (
          h',
          ap (λ r. r >>= backend_request ops text host_value server) mapped ∙ sent,
          λ k.
              host_set k
              ∙ ap
                  (λ v.
                    if server.map_host && same "Host" k
                    then some (host_value host (text.port uri))
                    else v)
                  (pass k),
        ),
      )
