-- ===== src/Proxy/Headers.antt =====
-- Which headers pass the proxy (src/proxy.rs), name by name.
use weldr.Common.{
  String, Bool, Option, none, some, List, [], ◌∷◌, ◌++◌, map, any, any-append, ◌≡◌, refl, ◌∙◌,
  if◌then◌else◌, arith, Option-cases, inl, inr,
}
use weldr.Proxy.{
  ConnectionOption, close, keep_alive, connection_header, HeaderOps, remove_options, remove_all,
  filter_frontend_request_headers, filter_backend_response_headers, Response, map_response,
}

-- hyper's documented behaviour: a removed name has no value, a set one its value, and other names keep
-- theirs; `extend` of the empty headers gives the others. `same` compares names without their case.
pub record Laws {H V : Type 0} (ops : HeaderOps H V) (same : String → String → Bool) : Type 0 where
  pub removed :
      (h : H) (n k : String)
      → ops.get_raw (ops.remove_raw h n) k ≡ (if same n k then none else ops.get_raw h k)
  pub assigned :
      (h : H) (n : String) (v : V) (k : String)
      → ops.get_raw (ops.set_raw h n v) k ≡ (if same n k then some v else ops.get_raw h k)
  pub extended : (h : H) (k : String) → ops.get_raw (ops.extend ops.new h) k ≡ ops.get_raw h k

-- The header that an option of `Connection` names.
abbrev pub option_name : ConnectionOption → String
option_name close = "Close"
option_name keep_alive = "Keep-Alive"
option_name (connection_header o) = o

-- The headers that are taken from every request, and from every response.
abbrev pub hop_by_hop : List String
hop_by_hop =
    "Connection" ∷ "TE" ∷ "Transfer-Encoding" ∷ "Proxy-Authorization" ∷ "Trailer" ∷ "Upgrade" ∷ []

abbrev pub hop_by_hop_of_response : List String
hop_by_hop_of_response = "Transfer-Encoding" ∷ "Proxy-Authenticate" ∷ "Trailer" ∷ "Upgrade" ∷ []

-- The names that `Connection` nominates.
abbrev pub nominated : Option (List ConnectionOption) → List String
nominated none = []
nominated (some options) = map option_name options

module _ {H V : Type 0} (ops : HeaderOps H V) (same : String → String → Bool)
    (laws : Laws ops same) where
  get-remove_all :
      (names : List String) (h : H) (k : String)
      → ops.get_raw (remove_all ops h names) k
        ≡ (if any (λ n. same n k) names then none else ops.get_raw h k)
  get-remove_all [] h k = refl
  get-remove_all (n ∷ names) h k =
      ground (arith, get-remove_all names (ops.remove_raw h n) k, laws.removed h n k)

  remove-options_names :
      (os : List ConnectionOption) (h : H)
      → remove_options ops h os ≡ remove_all ops h (map option_name os)
  remove-options_names [] h = refl
  remove-options_names (close ∷ os) h = remove-options_names os _
  remove-options_names (keep_alive ∷ os) h = remove-options_names os _
  remove-options_names (connection_header o ∷ os) h = remove-options_names os _

  -- Of the headers of a request exactly those pass, unchanged, that are none of the six of
  -- `hop_by_hop` and that no option of its `Connection` header names.
  pub filter_frontend_lem :
      (h : H) (k : String)
      → ops.get_raw (filter_frontend_request_headers ops h) k ≡ (
          if any (λ n. same n k) (nominated (ops.get_connection h) ++ hop_by_hop)
          then none
          else ops.get_raw h k)
  unfolding filter_frontend_request_headers
  filter_frontend_lem h k = elim (Option-cases (ops.get_connection h)) [
    | inl without ↦ rw without (get-remove_all hop_by_hop h k)
    | inr (os, is) ↦
        rw (is, remove-options_names os h)
          (ground (
            arith,
            get-remove_all hop_by_hop (remove_all ops h (map option_name os)) k,
            get-remove_all (map option_name os) h k,
            any-append (λ n. same n k) (map option_name os) hop_by_hop,
          ))
  ]

  -- Of the headers of a response exactly those pass, unchanged, that are none of the four of
  -- `hop_by_hop_of_response`; its status and its body pass.
  pub map_response_lem :
      {S B : Type 0} (res : Response H S B) (k : String)
      → let r = map_response ops res in
        (r.status ≡ res.status)
        × (r.body ≡ res.body)
        × (ops.get_raw r.headers k ≡ (
            if any (λ n. same n k) hop_by_hop_of_response then none else ops.get_raw res.headers k))
  unfolding map_response filter_backend_response_headers
  map_response_lem res k =
      (refl, refl, laws.extended _ k ∙ get-remove_all hop_by_hop_of_response res.headers k)
