-- ===== src/TestServer/Tests.antt =====
-- The test server with a file of two bytes (src/test-server.rs).
use weldr.Common.{
  ℕ, ◌≡◌, refl, String, true, Option, none, some, List, [], ◌∷◌, if◌then◌else◌, ◌==◌,
  string_partial_eq,
}
use weldr.TestServer.{get, ok, bytes, call, main}

abbrev read_file : String → Option (List ℕ)
read_file path = if path == "/weldr/tests/jquery-1.7.1.min.js" then some (1 ∷ 2 ∷ []) else none

large_served :
    call "/weldr" read_file some get "/large"
    ≡ some (record {
      status = ok;
      content_length = some 2;
      is_plaintext = true;
      body = some (bytes (1 ∷ 2 ∷ []));
    })
unfolding call
large_served = refl

default_port :
    main (some tt) some some (λ addr. if addr == "0.0.0.0:12345" then some tt else none) []
    ≡ some tt
unfolding main
default_port = refl
