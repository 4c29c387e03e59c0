-- ===== src/Worker.antt =====
-- `SubscriberImpl` of src/mgmt/worker.rs: a worker's answers to the manager's requests. Parameters:
-- the text of the request, which reading may fail to give, and `Uri::from_str`.
pub mod Status
pub mod Serving
pub mod Again
mod Tests
use weldr.Common.{String, Bool, true, Option, none, some, PartialEq}
use weldr.Server
use weldr.Server.{Server}
use weldr.Backend
use weldr.Backend.{Backend, Heap}
use weldr.Pool
use weldr.Pool.{Pool, find_backend}

-- A `Promise`: fulfilled, or failed by `pry!`; or the handler panics, as `expect` does.
pub data Promise {ℓ} (A : Type ℓ) : Type ℓ where
  ok : A → Promise A
  rpc_error : Promise A
  panic : Promise A

infixl 5 ◌>>=◌
abbrev pub ◌>>=◌ {ℓ κ} : {A : Type ℓ} {B : Type κ} → Promise A → (A → Promise B) → Promise B
ok a >>= f = f a
rpc_error >>= f = rpc_error
panic >>= f = panic

-- `pry!(pry!(params.get()).get_url())`
abbrev pub get_url : Option String → Promise String
get_url none = rpc_error
get_url (some text) = ok text

-- `expect`
abbrev pub expect {ℓ} : {A : Type ℓ} → Option A → Promise A
expect none = panic
expect (some a) = ok a

module _ {ℓ} {U : Type ℓ} ⦃e : PartialEq U⦄ where
  -- What the three handlers do with the URL that they have read.
  unfoldable pub add_url : Pool U → U → Pool U
  add_url p url = (Pool.add_server p (Server.new url true)).0

  unfoldable pub mark_url_down : Pool U → U → Pool U
  mark_url_down p url = elim (find_backend p (Server.new url true)) [
    | some b ↦ record p { heap = Backend.mark_down p.heap b }
    | none ↦ p
  ]

  unfoldable pub mark_url_active : Pool U → U → Pool U
  mark_url_active p url = elim (find_backend p (Server.new url true)) [
    | some b ↦ record p { heap = Backend.mark_active p.heap b }
    | none ↦ p
  ]

  module _ (parse : String → Option U) where
    unfoldable pub add_server : Pool U → Option String → Promise (Pool U)
    unfolding add_url
    add_server p params = do
      url_str ← get_url params
      url ← expect (parse url_str)
      ok (add_url p url)

    unfoldable pub mark_server_down : Pool U → Option String → Promise (Pool U)
    unfolding mark_url_down
    mark_server_down p params = do
      url_str ← get_url params
      url ← expect (parse url_str)
      ok (mark_url_down p url)

    unfoldable pub mark_server_active : Pool U → Option String → Promise (Pool U)
    unfolding mark_url_active
    mark_server_active p params = do
      url_str ← get_url params
      url ← expect (parse url_str)
      ok (mark_url_active p url)
