-- ===== src/Api/Servers.antt =====
-- What a call of the management API (src/mgmt/api.rs) does to the manager's pool and to its publisher.
use weldr.Common.{
  string_partial_eq, String, Bool, true, Option, none, some, List, [], ◌∷◌, map, ◌≡◌, refl, sym,
  subst, ◌∙◌, ◌⊎◌, inl, inr, arith, find, find-holds, Bool-cases, Option-cases, PartialEq, ◌==◌,
  ==_eq, ==_refl,
}
use mathlib.Core.List.{Mem, mem-cons_self, mem-cons_of_mem, mem-map_of_mem}
use weldr.Message.{Message}
use weldr.Server
use weldr.Server.{Server, server_eq}
use weldr.Backend
use weldr.Backend.{Backend, ServerState}
use weldr.Pool
use weldr.Pool.{Pool, find_backend, find_server}
use weldr.Pool.Members.{IsClosed, find-add_server}
use weldr.Manager
use weldr.Manager.Publisher.{publish}
use weldr.Worker.{add_url}
use weldr.Worker.Status.{status, announced, handle, handle-announced}
use weldr.Api.{
  Mgmt, Method, get, post, delete, other, Reply, Json, Text, Decoded, decoded, invalid, PoolServer,
  json_reply, pool_server, pool_servers, all_servers_reponse, add_server, call,
}

pub Decoded-cases :
    {A : Type 0} (d : Decoded A)
    → ((a : A) × (d ≡ decoded a)) ⊎ ((why : String) × (d ≡ invalid why))
Decoded-cases (decoded a) = inl (a, refl)
Decoded-cases (invalid why) = inr (why, refl)

module _ {ℓ} {U : Type ℓ} {Chunk : Type 0} (json : Json Chunk) (text : Text U) where
  -- A body that names a server with a URL.
  pub record Names (body : Option Chunk) (url : U) : Type ℓ where
    pub chunk : Chunk
    pub server : PoolServer
    pub came : body ≡ some chunk
    pub decodes : json.from_slice chunk ≡ decoded server
    pub parses : text.parse server.url ≡ some url

module _ {ℓ κ} {U : Type ℓ} ⦃e : PartialEq U⦄ {C : Type κ} {Chunk : Type 0} (json : Json Chunk)
    (text : Text U) where
  -- The manager and the reply after `url` is added.
  abbrev pub added : Mgmt U C → U → Mgmt U C × Reply
  added m url =
      let pool = (Pool.add_server m.pool (Server.new url true)).0 in
      (
        record {
          pool = pool;
          manager = record m.manager {
            publisher = publish (Message.add_server url) m.manager.publisher;
          };
        },
        json_reply (json.servers_to_string (pool_servers text pool)),
      )

  pub add_server-Names :
      (m : Mgmt U C) (body : Option Chunk) (url : U)
      → Names json text body url
      → add_server json text m body ≡ added m url
  unfolding add_server all_servers_reponse Manager.publish_new_server
  add_server-Names m body url names = rw (names.came, names.decodes, names.parses, add_server) refl

  add_server_cases :
      (m : Mgmt U C) (body : Option Chunk)
      → ((add_server json text m body).0 ≡ m)
        ⊎ ((url : U) × Names json text body url × (add_server json text m body ≡ added m url))
  unfolding add_server all_servers_reponse Manager.publish_new_server
  add_server_cases m none = inl refl
  add_server_cases m (some chunk) = elim (Decoded-cases (json.from_slice chunk)) [
    | inr (why, bad) ↦ inl (rw (bad, add_server))
    | inl (server, good) ↦ elim (Option-cases (text.parse server.url)) [
      | inl unparsed ↦ inl (rw (good, unparsed, add_server))
      | inr (url, parsed) ↦
          let names : Names json text (some chunk) url = record {
            chunk = chunk;
            server = server;
            came = refl;
            decodes = good;
            parses = parsed;
          } in
          inr (url, names, add_server-Names m (some chunk) url names)
    ]
  ]

  -- Whatever the request is, the manager stays as it was; or it is a POST to /servers with a body
  -- that names a server with a URL, which is then added to the pool and published, and the reply is
  -- the new listing.
  pub call_cases :
      (m : Mgmt U C) (method : Method) (path : String) (body : Option Chunk)
      → ((call json text m method path body).0 ≡ m)
        ⊎ ((method ≡ post)
            × (path ≡ "/servers")
            × ((url : U) × Names json text body url
                × (call json text m method path body ≡ added m url)))
  unfolding call
  call_cases m get path body = inl (ground arith)
  call_cases m post path body = elim (Bool-cases (path == "/servers")) [
    | inr elsewhere ↦ inl (rw elsewhere)
    | inl here ↦ elim (add_server_cases m body) [
      | inl same ↦ inl (rw here same)
      | inr (url, names, is) ↦ inr (refl, ==_eq path _ here, (url, names, rw here is))
    ]
  ]
  call_cases m delete path body = inl (ground arith)
  call_cases m other path body = inl refl

  -- Where no reference dangles, a POST to /servers with a body that names a server with a URL
  -- changes what the manager's pool says of every server as the request that it publishes tells a
  -- worker to.
  pub call-announced :
      (m : Mgmt U C) (body : Option Chunk) (url : U) (s : Server U)
      → IsClosed m.pool
      → Names json text body url
      → let m' = (call json text m post "/servers" body).0 in
        (status m'.pool s ≡ announced (status m.pool) (Message.add_server url) s)
        × (m'.manager.publisher ≡ publish (Message.add_server url) m.manager.publisher)
  unfolding call handle add_url
  call-announced m body url s c names =
      rw (add_server-Names m body url names)
        (handle-announced m.pool (Message.add_server url) s c, refl)

module _ {ℓ} {A : Type ℓ} where
  find-Mem : (p : A → Bool) (xs : List A) (a : A) → find p xs ≡ some a → Mem a xs
  find-Mem p [] a f = cc
  find-Mem p (x ∷ xs) a f = elim (Bool-cases (p x)) [
    | inl here ↦
        let first = rw here at f in
        let same : x ≡ a = cc (first) in subst (λ y. Mem a (y ∷ xs)) (sym same) mem-cons_self
    | inr later ↦ mem-cons_of_mem x (find-Mem p xs a (rw later at f))
  ]

module _ {ℓ} {U : Type ℓ} ⦃e : PartialEq U⦄ (text : Text U) where
  found-listed :
      (p : Pool U) (s : Server U) (b : Backend)
      → find_backend p s ≡ some b
      → Mem (pool_server text s) (pool_servers text p).servers
  unfolding find_backend find_server pool_servers
  found-listed p s b f =
      let there = mem-map_of_mem (Backend.server p.heap) (find-Mem _ p.backends b f) in
      let same : Backend.server p.heap b ≡ s = ==_eq _ _ (find-holds _ p.backends b f) in
      mem-map_of_mem (pool_server text)
        (subst (λ v. Mem v (map (Backend.server p.heap) p.backends)) same there)

  added-listed :
      (p : Pool U) (s : Server U)
      → IsClosed p
      → Mem (pool_server text s) (pool_servers text (Pool.add_server p s).0).servers
  added-listed p s c = elim (Option-cases (find_backend p s)) [
    | inl missing ↦
        found-listed (Pool.add_server p s).0 s p.heap.next
          (find-add_server p s s c ∙ rw missing (ground (arith, ==_refl s)))
    | inr (b, found) ↦
        found-listed (Pool.add_server p s).0 s b (find-add_server p s s c ∙ rw found refl)
  ]

module _ {ℓ κ} {U : Type ℓ} ⦃e : PartialEq U⦄ {C : Type κ} {Chunk : Type 0} (json : Json Chunk)
    (text : Text U) where
  -- Where no reference dangles, the reply to a POST to /servers with a body that names a server
  -- with a URL is the listing of the new pool, which has the server; a GET of /servers replies the
  -- same then, and changes nothing.
  pub call-listed :
      (m : Mgmt U C) (body : Option Chunk) (url : U)
      → IsClosed m.pool
      → Names json text body url
      → let (m', reply) = call json text m post "/servers" body in
        (reply ≡ json_reply (json.servers_to_string (pool_servers text m'.pool)))
        × Mem (pool_server text (Server.new url true)) (pool_servers text m'.pool).servers
        × (call json text m' get "/servers" none ≡ (m', reply))
  unfolding call all_servers_reponse
  call-listed m body url c names =
      rw (add_server-Names json text m body url names)
        (refl, added-listed text m.pool (Server.new url true) c, refl)
