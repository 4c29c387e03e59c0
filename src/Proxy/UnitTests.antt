-- ===== src/Proxy/UnitTests.antt =====
-- The tests of src/proxy.rs that have a body, on the model: `none` is an assertion that fails. hyper's
-- `has` is whether a name has a value.
use mathlib.Core.Option
use weldr.Common.{
  ◌≡◌, refl, String, Bool, true, false, not, Option, none, some, List, [], ◌∷◌, ◌++◌, find, retain,
  ◌==◌, string_partial_eq, bool_partial_eq, if◌then◌else◌, assert_eq,
}
use weldr.Common.Checks.{◌>>=◌}
use weldr.Proxy.{
  HeaderOps, ConnectionOption, keep_alive, connection_header, http11, create_via_header,
  filter_frontend_request_headers, filter_backend_response_headers,
}

abbrev test_create_via_header : Option (Unit {0})
test_create_via_header = do
  let via : String = "1.0 proxy"
  let version = http11
  given ← create_via_header none version
  _ ← assert_eq "1.1 weldr" given
  given ← create_via_header (some via) version
  assert_eq "1.0 proxy, 1.1 weldr" given

module _ {H V : Type 0} (ops : HeaderOps H V) where
  -- The loop that sets the headers of a test.
  abbrev set_all : H → List (String × String) → H
  set_all h [] = h
  set_all h ((name, value) ∷ rest) = set_all (ops.set_raw h name (ops.raw value)) rest

  -- The assertions: whether each name has a value.
  abbrev assert_has : H → List (Bool × String) → Option (Unit {0})
  assert_has h [] = some tt
  assert_has h ((expected, name) ∷ rest) = do
    _ ← assert_eq expected (elim (ops.get_raw h name) [ none ↦ false | some v ↦ true ])
    assert_has h rest

  abbrev test_filter_frontend_request_headers : Option (Unit {0})
  test_filter_frontend_request_headers = do
    let bad =
        ("TE", "gzip")
        ∷ ("Transfer-Encoding", "chunked")
        ∷ ("Host", "example.net")
        ∷ ("Connection", "Keep-Alive, Foo, Bar")
        ∷ ("Foo", "abc")
        ∷ ("Foo", "def")
        ∷ ("Keep-Alive", "timeout=30")
        ∷ ("Proxy-Authorization", "randombase64value")
        ∷ ("Trailer", "X-Random-Header")
        ∷ ("Upgrade", "HTTP/2.0, SHTTP/1.3, IRC/6.9, RTA/x11")
        ∷ []
    let headers = set_all ops.new bad
    let given = filter_frontend_request_headers ops headers
    assert_has given (
        (false, "TE")
        ∷ (false, "Transfer-Encoding")
        ∷ (true, "Host")
        ∷ (false, "Connection")
        ∷ (false, "Foo")
        ∷ (false, "Keep-Alive")
        ∷ (false, "Proxy-Authorization")
        ∷ (false, "Trailer")
        ∷ (false, "Upgrade")
        ∷ [])

  abbrev test_filter_backend_response_headers : Option (Unit {0})
  test_filter_backend_response_headers = do
    let bad =
        ("Transfer-Encoding", "chunked")
        ∷ ("Host", "example.net")
        ∷ ("Proxy-Authenticate", "randombase64value")
        ∷ ("Trailer", "X-Random-Header")
        ∷ ("Upgrade", "HTTP/2.0")
        ∷ []
    let headers = set_all ops.new bad
    let given = filter_backend_response_headers ops headers
    assert_has given (
        (false, "Transfer-Encoding")
        ∷ (true, "Host")
        ∷ (false, "Proxy-Authenticate")
        ∷ (false, "Trailer")
        ∷ (false, "Upgrade")
        ∷ [])

abbrev Headers : Type 0
Headers = List (String × String)

abbrev value : Headers → String → Option String
value h k = Option.map (λ e. e.1) (find (λ e. e.0 == k) h)

-- The options of the one `Connection` header here.
abbrev options : String → Option (List ConnectionOption)
options text =
    if text == "Keep-Alive, Foo, Bar"
    then some (keep_alive ∷ connection_header "Foo" ∷ connection_header "Bar" ∷ [])
    else none

abbrev ops : HeaderOps Headers String
ops = record {
  new = [];
  get_raw = value;
  remove_raw = λ h n. retain (λ e. not (e.0 == n)) h;
  set_raw = λ h n v. (n, v) ∷ retain (λ e. not (e.0 == n)) h;
  extend = λ h g. g ++ h;
  get_connection = λ h. elim (value h "Connection") [ none ↦ none | some text ↦ options text ];
  get_via = λ h. value h "Via";
  raw = λ s. s;
}

create_via_header_passes : test_create_via_header ≡ some tt
unfolding create_via_header
create_via_header_passes = refl

filter_frontend_request_headers_passes : test_filter_frontend_request_headers ops ≡ some tt
unfolding filter_frontend_request_headers
filter_frontend_request_headers_passes = refl

filter_backend_response_headers_passes : test_filter_backend_response_headers ops ≡ some tt
unfolding filter_backend_response_headers
filter_backend_response_headers_passes = refl
