-- ===== src/System/Roster/Posted.antt =====
-- Which requests to the API (src/mgmt/api.rs) add a server, and what they add.
use weldr.Common.{
  ◌≡◌, refl, ap, inl, inr, Bool-cases, Option, none, some, String, PartialEq, ◌==◌,
  string_partial_eq,
}
use weldr.Server.{server_eq}
use weldr.Api.{Method, get, post, delete, other, call}
use weldr.Api.Servers.{Names, Decoded-cases, added, add_server-Names, call_cases}
use weldr.System.{ManagerProcess, Setting}
use weldr.System.Roster.{body_url, posted_url}

module _ {ℓ} {U : Type ℓ} {Chunk S : Type 0} (setting : Setting U Chunk S) where
  open setting use {json, text}

  body_url-Names :
      (body : Option Chunk) (url : U) → body_url setting body ≡ some url → Names json text body url
  unfolding body_url
  body_url-Names none url e = cc (e)
  body_url-Names (some chunk) url e = elim (Decoded-cases (json.from_slice chunk)) [
    | inl (server, good) ↦ record {
      chunk = chunk;
      server = server;
      came = refl;
      decodes = good;
      parses = rw (good, body_url) at e;
    }
    | inr (why, bad) ↦ cc (rw (bad, body_url) at e)
  ]

  Names-body_url :
      (body : Option Chunk) (url : U) → Names json text body url → body_url setting body ≡ some url
  unfolding body_url
  Names-body_url body url names = rw (names.came, names.decodes, body_url) names.parses

module _ {ℓ κ} {U : Type ℓ} ⦃e : PartialEq U⦄ {C : Type κ} {Chunk S : Type 0}
    (setting : Setting U Chunk S) where
  open setting use {json, text, hash, is_success, config}

  -- What a request to the API asks to add is added, with which the request is allowed.
  pub posted-added :
      (m : ManagerProcess U C) (method : Method) (path : String) (body : Option Chunk) (url : U)
      → posted_url setting method path body ≡ some url
      → Names json text body url
        × ((call json text m.mgmt method path body).0 ≡ (added json text m.mgmt url).0)
  unfolding posted_url call
  posted-added m get path body url e = cc (e)
  posted-added m delete path body url e = cc (e)
  posted-added m other path body url e = cc (e)
  posted-added m post path body url e = elim (Bool-cases (path == "/servers")) [
    | inr elsewhere ↦ absurd (cc (rw elsewhere at e))
    | inl here ↦
        let names = body_url-Names setting body url (rw here at e) in
        (names, rw here (ap (λ r. r.0) (add_server-Names json text m.mgmt body url names)))
  ]

  pub unposted-same :
      (m : ManagerProcess U C) (method : Method) (path : String) (body : Option Chunk)
      → posted_url setting method path body ≡ none
      → (call json text m.mgmt method path body).0 ≡ m.mgmt
  unfolding posted_url
  unposted-same m method path body e = elim (call_cases json text m.mgmt method path body) [
    | inl same ↦ same
    | inr (is_post, at_servers, (url, names, _)) ↦
        let e' = rw (is_post, at_servers) at e in cc (Names-body_url setting body url names, e')
  ]
