-- ===== src/TestServer.antt =====
-- src/test-server.rs: the upstream server that the proxy's test and its benchmark run. Parameters: files,
-- the directory that the build knows as `CARGO_MANIFEST_DIR`, the parser of addresses, and what hyper's
-- server makes of one. What fails or panics is `none`.
mod Tests
use Prim.Native.String.{◌++◌, len}
use weldr.Common.{
  ℕ, ◌≡◌, refl, String, Bool, true, false, Option, none, some, List, [], ◌∷◌, length, if◌then◌else◌,
  ◌==◌, string_partial_eq, get_elem?, arith, Option-cases, Bool-cases, inl, inr, All,
}
use weldr.Common.Checks.{◌>>=◌}

-- What the code matches the method with, and the others.
pub data Method : Type 0 where
  get other : Method

pub data StatusCode : Type 0 where
  ok not_found : StatusCode

pub data Body : Type 0 where
  text : String → Body
  bytes : List ℕ → Body

-- `len`
abbrev pub size : Body → ℕ
size (text t) = len t
size (bytes bs) = length bs

pub record Response : Type 0 where
  pub status : StatusCode
  pub content_length : Option ℕ
  pub is_plaintext : Bool
  pub body : Option Body

module _ {File : Type 0} (manifest_dir : String) (open_file : String → Option File)
    (read_to_end : File → Option (List ℕ)) where
  unfoldable pub large : Option Response
  large = do
    file ← open_file (manifest_dir ++ "/tests/jquery-1.7.1.min.js")
    body ← read_to_end file
    some (record {
      status = ok;
      content_length = some (length body);
      is_plaintext = true;
      body = some (bytes body);
    })

  abbrev pub hello : Response
  hello = record {
    status = ok;
    content_length = some (len "Hello World");
    is_plaintext = false;
    body = some (text "Hello World");
  }

  abbrev pub missing : Response
  missing = record { status = not_found; content_length = none; is_plaintext = false; body = none }

  -- `TestServer::call`
  unfoldable pub call : Method → String → Option Response
  unfolding large
  call get path =
      let file = large in
      if path == "/" then some hello else if path == "/large" then file else some missing
  call other path = some missing

  -- A response has a length if and only if it has a body, which has that length.
  abbrev pub IsSized : Response → Type 0
  IsSized r = r.content_length ≡ elim r.body [ none ↦ none | some b ↦ some (size b) ]

  large-IsSized : (r : Response) → large ≡ some r → IsSized r
  unfolding large
  large-IsSized r e =
      elim (Option-cases (open_file (manifest_dir ++ "/tests/jquery-1.7.1.min.js"))) [
        | inl lost ↦ let never = rw lost at e in cc (never)
        | inr (file, opened) ↦ elim (Option-cases (read_to_end file)) [
          | inl unread ↦ let never = rw (opened, unread) at e in cc (never)
          | inr (body, read) ↦ let made = rw (opened, read) at e in ground (arith, made)
        ]
      ]

  pub call-IsSized : (m : Method) (path : String) (r : Response) → call m path ≡ some r → IsSized r
  unfolding call
  call-IsSized get path r e = elim (Bool-cases (path == "/")) [
    | inl root ↦ let said = rw root at e in ground (arith, said)
    | inr no_root ↦ elim (Bool-cases (path == "/large")) [
      | inl big ↦ large-IsSized r (rw (no_root, big) at e)
      | inr no_large ↦ let said = rw (no_root, no_large) at e in ground (arith, said)
    ]
  ]
  call-IsSized other path r e = ground (arith, e)

-- `main`: the logger, the address, and the server on it; the port is the first argument, if there is one.
unfoldable pub main :
    {Addr Server : Type 0}
    → Option (Unit {0})
    → (String → Option Addr)
    → (Addr → Option Server)
    → (Server → Option (Unit {0}))
    → List String
    → Option (Unit {0})
main init parse bind run args = do
  _ ← init
  let port : String = elim (get_elem? args 1) [ some p ↦ p | none ↦ "12345" ]
  addr ← parse ("0.0.0.0:" ++ port)
  server ← bind addr
  run server
