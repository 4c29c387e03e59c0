-- ===== src/Proxy/Samples.antt =====
-- What the runs of src/proxy.rs take for its parameters: headers as a list of names and values.
use mathlib.Core.Option
use weldr.Common.{
  ℕ, String, Bool, not, Option, some, List, [], ◌∷◌, ◌++◌, append-nil, ap, find, find-retain,
  retain, arith, ◌==◌, string_partial_eq,
}
use weldr.Proxy.{HeaderOps, connection_header, keep_alive, http11, UriOps, Request}
use weldr.Proxy.Headers.{Laws}

abbrev pub Headers : Type 0
Headers = List (String × String)

abbrev pub same : String → String → Bool
same a b = a == b

abbrev pub ops : HeaderOps Headers String
ops = record {
  new = [];
  get_raw = λ h k. Option.map (λ e. e.1) (find (λ e. e.0 == k) h);
  remove_raw = λ h n. retain (λ e. not (e.0 == n)) h;
  set_raw = λ h n v. (n, v) ∷ retain (λ e. not (e.0 == n)) h;
  extend = λ h g. g ++ h;
  get_connection = λ h. some (connection_header "Foo" ∷ keep_alive ∷ []);
  get_via = λ h. Option.map (λ e. e.1) (find (λ e. e.0 == "Via") h);
  raw = λ s. s;
}

pub laws : Laws ops same
laws = record {
  removed = λ h n k. ground (arith, find-retain (λ e. e.0) n k h);
  assigned = λ h n v k. ground (arith, find-retain (λ e. e.0) n k h);
  extended = λ h k. ap (λ g. ops.get_raw g k) (append-nil h);
}

abbrev pub headers : Headers
headers =
    ("Foo", "abc")
    ∷ ("Keep-Alive", "timeout=30")
    ∷ ("Via", "1.0 proxy")
    ∷ ("Host", "example.net")
    ∷ ("Upgrade", "HTTP/2.0")
    ∷ []

abbrev pub text : UriOps String
text = record {
  parse = λ s. some s;
  display = λ u. u;
  path = λ u. "/path";
  query = λ u. some "q=1";
  host = λ u. some "server";
  port = λ u. some 8080;
}

abbrev pub request : Request Headers ℕ String String
request = record { method = 1; uri = "/path?q=1"; version = http11; headers = headers; body = "" }

abbrev pub host_value : String → Option ℕ → String
host_value host port = host
