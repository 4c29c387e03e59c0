-- ===== src/Proxy.antt =====
-- src/proxy.rs: what the proxy does to a request and to its response. hyper is a parameter: its headers
-- are an interface, of which the laws of `Headers.Laws` say what removing and setting do; a method, a
-- body, a status and an address are types; a URL has its text, host and port. What panics is `none`.
pub mod Headers
pub mod Forward
pub mod Call
mod UnitTests
pub mod Samples
mod Tests
use Prim.Native.String.{◌++◌}
use weldr.Common.{ℕ, String, Bool, true, false, Option, none, some, List, [], ◌∷◌, if◌then◌else◌}
use weldr.Common.Checks.{◌>>=◌}
use weldr.Server.{Server}

pub data HttpVersion : Type 0 where
  http09 http10 http11 h2 h2c : HttpVersion
  hidden : HttpVersion

-- hyper's `ConnectionOption`
pub data ConnectionOption : Type 0 where
  close keep_alive : ConnectionOption
  connection_header : String → ConnectionOption

-- hyper's `Headers`, with raw values `V`: those of a name, removal, setting, `extend` by another's, and
-- what `get` reads as `Connection` or `Via`. A typed header is removed and set by its name.
pub record HeaderOps (H V : Type 0) : Type 0 where
  pub new : H
  pub get_raw : H → String → Option V
  pub remove_raw : H → String → H
  pub set_raw : H → String → V → H
  pub extend : H → H → H
  pub get_connection : H → Option (List ConnectionOption)
  pub get_via : H → Option String
  pub raw : String → V

-- `Via::append`
unfoldable pub append : String → String → String
append via other = via ++ (", " ++ other)

-- The match on the version; `unreachable!` is `none`.
abbrev pub version_text : HttpVersion → Option String
version_text http09 = some "0.9"
version_text http10 = some "1.0"
version_text http11 = some "1.1"
version_text h2 = some "2"
version_text h2c = some "2"
version_text hidden = none

unfoldable pub create_via_header : Option String → HttpVersion → Option String
unfolding append
create_via_header via version = do
  number ← version_text version
  some (elim via [ some v ↦ append v (number ++ " weldr") | none ↦ number ++ " weldr" ])

module _ {H V : Type 0} (ops : HeaderOps H V) where
  -- The loop over the options of the `Connection` header.
  abbrev pub remove_options : H → List ConnectionOption → H
  remove_options h [] = h
  remove_options h (close ∷ os) = remove_options (ops.remove_raw h "Close") os
  remove_options h (keep_alive ∷ os) = remove_options (ops.remove_raw h "Keep-Alive") os
  remove_options h (connection_header o ∷ os) = remove_options (ops.remove_raw h o) os

  -- One `remove` after another.
  abbrev pub remove_all : H → List String → H
  remove_all h [] = h
  remove_all h (n ∷ ns) = remove_all (ops.remove_raw h n) ns

  unfoldable pub filter_frontend_request_headers : H → H
  filter_frontend_request_headers headers =
      let h : H = elim (ops.get_connection headers) [
        | some options ↦ remove_options headers options
        | none ↦ headers
      ] in
      remove_all h (
        "Connection" ∷ "TE" ∷ "Transfer-Encoding" ∷ "Proxy-Authorization" ∷ "Trailer" ∷ "Upgrade"
        ∷ [])

  unfoldable pub filter_backend_response_headers : H → H
  filter_backend_response_headers headers =
      remove_all headers ("Transfer-Encoding" ∷ "Proxy-Authenticate" ∷ "Trailer" ∷ "Upgrade" ∷ [])

-- A request of a client, and the one sent to a server; `version` is that of the former.
pub record Request (H M U B : Type 0) : Type 0 where
  pub method : M
  pub uri : U
  pub version : HttpVersion
  pub headers : H
  pub body : B

pub record ClientRequest (H M U B : Type 0) : Type 0 where
  pub method : M
  pub uri : U
  pub headers : H
  pub body : B

pub record Response (H S B : Type 0) : Type 0 where
  pub status : S
  pub headers : H
  pub body : B

-- hyper's `Uri`
pub record UriOps (U : Type 0) : Type 0 where
  pub parse : String → Option U
  pub display : U → String
  pub path : U → String
  pub query : U → Option String
  pub host : U → Option String
  pub port : U → Option ℕ

-- The text of the URL to request
abbrev pub target : {U : Type 0} → UriOps U → Server U → U → String
target text server uri =
    text.display server.url
    ++ (text.path uri ++ ("?" ++ elim (text.query uri) [ none ↦ "" | some q ↦ q ]))

module _ {H V M U B : Type 0} (ops : HeaderOps H V) where
  unfoldable pub map_request : Request H M U B → Option (ClientRequest H M U B)
  unfolding create_via_header filter_frontend_request_headers
  map_request req = do
    via ← create_via_header (ops.get_via req.headers) req.version
    some (record {
      method = req.method;
      uri = req.uri;
      headers =
          ops.extend ops.new
            (ops.set_raw (filter_frontend_request_headers ops req.headers) "Via" (ops.raw via));
      body = req.body;
    })

  -- The closure that `call` hands to the pool: the request that the client sends, or a panic.
  -- `host_value` is what `Host::new` makes of a host and a port.
  unfoldable pub backend_request :
      UriOps U
      → (String → Option ℕ → V)
      → Server U
      → ClientRequest H M U B
      → Option (ClientRequest H M U B)
  backend_request text host_value server req = do
    uri ← text.parse (target text server req.uri)
    headers ←
        if server.map_host
        then (do
          host ← text.host uri
          some (
              ops.set_raw (ops.remove_raw req.headers "Host") "Host"
                (host_value host (text.port uri))))
        else some req.headers
    some (record req { uri = uri; headers = headers })

  -- `call`, for the server that the pool gives: what is sent to it.
  unfoldable pub forward :
      UriOps U
      → (String → Option ℕ → V)
      → Server U
      → Request H M U B
      → Option (ClientRequest H M U B)
  unfolding map_request backend_request
  forward text host_value server req = do
    client_req ← map_request req
    backend_request text host_value server client_req

module _ {H V S B : Type 0} (ops : HeaderOps H V) where
  unfoldable pub map_response : Response H S B → Response H S B
  unfolding filter_backend_response_headers
  map_response res = record {
    status = res.status;
    headers = ops.extend ops.new (filter_backend_response_headers ops res.headers);
    body = res.body;
  }
