-- ===== src/Api.antt =====
-- src/mgmt/api.rs: the management API of the manager, on its pool and its publisher. Parameters: hyper's
-- `Uri` with its `FromStr`, `Display` and `AsRef<str>`, the type of a body's chunk, and serde_json.
pub mod Servers
pub mod Restore
mod Tests
use Prim.Native.String.{◌++◌, len}
use weldr.Common.{
  ℕ, String, Bool, true, false, ◌&&◌, Option, none, some, List, [], ◌∷◌, map, if◌then◌else◌,
  PartialEq, ◌==◌, string_partial_eq,
}
use weldr.Server
use weldr.Server.{Server}
use weldr.Backend
use weldr.Pool
use weldr.Pool.{Pool}
use weldr.Manager
use weldr.Manager.{Manager}

pub record Link : Type 0 where
  pub rel : String
  pub href : String
  pub method : Option String

pub record PoolServer : Type 0 where
  pub url : String
  pub links : Option (List Link)

pub record PoolServers : Type 0 where
  pub servers : List PoolServer
  pub links : Option (List Link)

pub record Index : Type 0 where
  pub about : String
  pub links : List Link

pub data StatusCode : Type 0 where
  ok bad_request not_found : StatusCode

-- The methods that the code compares with, and the others.
pub data Method : Type 0 where
  get post delete : Method
  other : Method

pub record Response : Type 0 where
  pub status : StatusCode
  pub content_length : Option ℕ
  pub is_json : Bool
  pub body : Option String

-- What the future of a call gives, or the call panics, as `expect` does.
pub data Reply : Type 0 where
  response : Response → Reply
  error : Reply
  panic : Reply

-- What `serde_json::from_slice` gives; of its error the code prints the text.
pub data Decoded (A : Type 0) : Type 0 where
  decoded : A → Decoded A
  invalid : String → Decoded A

-- serde_json, for the types above.
pub record Json (Chunk : Type 0) : Type 0 where
  pub index_to_string : Index → Option String
  pub servers_to_string : PoolServers → Option String
  pub from_slice : Chunk → Decoded PoolServer

pub record Text {ℓ} (U : Type ℓ) : Type ℓ where
  pub parse : String → Option U
  pub display : U → String
  pub as_ref : U → String

-- `Mgmt`
pub record Mgmt {ℓ κ} (U : Type ℓ) (C : Type κ) : Type (ℓ ⊔ κ) where
  pub pool : Pool U
  pub manager : Manager C U

-- `Mgmt::new`
abbrev pub new {ℓ κ} : {U : Type ℓ} {C : Type κ} → Pool U → Manager C U → Mgmt U C
new pool manager = record { pool = pool; manager = manager }

-- A response with a JSON body, once it is encoded.
abbrev pub json_reply : Option String → Reply
json_reply none = panic
json_reply (some body) =
    response
      (record { status = ok; content_length = some (len body); is_json = true; body = some body })

abbrev pub not_found_reply : Reply
not_found_reply =
    response (record { status = not_found; content_length = none; is_json = false; body = none })

-- The answer to a request to remove a server.
abbrev pub remove_reply : Reply
remove_reply = response (record {
  status = ok;
  content_length = some (len "Remove server");
  is_json = false;
  body = some "Remove server";
})

module _ {ℓ} {U : Type ℓ} (text : Text U) where
  unfoldable pub pool_server : Server U → PoolServer
  pool_server server = record {
    url = text.as_ref server.url;
    links = some (
        record {
          rel = "delete";
          href = "/servers/" ++ text.display server.url;
          method = some "DELETE";
        }
        ∷ []);
  }

  unfoldable pub pool_servers : Pool U → PoolServers
  unfolding pool_server
  pool_servers pool = record {
    servers = map pool_server (map (Backend.server pool.heap) (Pool.all pool.inner));
    links = some (record { rel = "add"; href = "/servers"; method = some "POST" } ∷ []);
  }

module _ {Chunk : Type 0} (json : Json Chunk) where
  unfoldable pub index : Reply
  index = json_reply (
      json.index_to_string (record {
        about = "Weldr Management API";
        links = record { rel = "servers"; href = "/servers"; method = none } ∷ [];
      }))

  module _ {ℓ} {U : Type ℓ} (text : Text U) where
    unfoldable pub all_servers_reponse : Pool U → Reply
    unfolding pool_servers
    all_servers_reponse pool = json_reply (json.servers_to_string (pool_servers text pool))

module _ {ℓ κ} {U : Type ℓ} ⦃e : PartialEq U⦄ {C : Type κ} {Chunk : Type 0} (json : Json Chunk)
    (text : Text U) where
  -- `add_server`, with the body that came, or the error instead of it
  unfoldable pub add_server : Mgmt U C → Option Chunk → Mgmt U C × Reply
  unfolding all_servers_reponse Manager.publish_new_server Server.new Pool.add_server
  add_server m none = (m, error)
  add_server m (some chunk) = elim (json.from_slice chunk) [
    | decoded server ↦ elim (text.parse server.url) [
      | some url ↦
          let pool = (Pool.add_server m.pool (Server.new url true)).0 in
          (
            record { pool = pool; manager = Manager.publish_new_server m.manager url },
            all_servers_reponse json text pool,
          )
      | none ↦ (m, panic)
    ]
    | invalid why ↦ (
      m,
      response (record {
        status = bad_request;
        content_length = some (len ("invalid JSON: " ++ why));
        is_json = false;
        body = some ("invalid JSON: " ++ why);
      }),
    )
  ]

  -- `Mgmt::call`; a request is its method, its path and its body.
  unfoldable pub call : Mgmt U C → Method → String → Option Chunk → Mgmt U C × Reply
  unfolding index add_server
  call m get path body =
      if path == "/"
      then (m, index json)
      else if path == "/servers"
      then (m, all_servers_reponse json text m.pool)
      else (m, not_found_reply)
  call m post path body =
      let added = add_server m body in if path == "/servers" then added else (m, not_found_reply)
  call m delete path body = if path == "/servers" then (m, remove_reply) else (m, not_found_reply)
  call m other path body = (m, not_found_reply)
