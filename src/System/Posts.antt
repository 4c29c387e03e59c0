-- ===== src/System/Posts.antt =====
-- The turn of the manager (src/mgmt/mod.rs) in which its API (src/mgmt/api.rs) serves a request.
use weldr.Common.{
  ◌≡◌, refl, ap, ◌∙◌, true, Option, none, [], ◌∷◌, All-map, PartialEq, inl, inr, String,
}
use mathlib.Core.Option
use weldr.Message
use weldr.Server
use weldr.Server.{Server}
use weldr.Pool
use weldr.Pool.{Pool, find_backend}
use weldr.Pool.Members.{add_server-IsClosed}
use weldr.Manager.Publisher.{publish}
use weldr.Worker.{add_url}
use weldr.Worker.Status.{status, handle, announced_all, handle-announced}
use weldr.Api.{Method}
use weldr.Api.Servers.{Names, call_cases}
use weldr.System.Channel.{publish_all}
use weldr.System.Turns.{ManagerInv, Published, Published-same, added-IsFirst, add-All-IsFirst}
use weldr.System.{ManagerProcess, Setting, react, api}

module _ {ℓ κ} {U : Type ℓ} ⦃e : PartialEq U⦄ {C : Type κ} where
  pub mgmt-ManagerInv :
      (m m' : ManagerProcess U C)
      → m'.mgmt ≡ m.mgmt
      → m'.checks ≡ m.checks
      → ManagerInv m
      → ManagerInv m'
  mgmt-ManagerInv m m' same checks v = record {
    closed = rw same v.closed;
    firsts = rw same v.firsts;
    checked = rw (same, checks) v.checked;
  }

  -- A server that is not listed is added, and is published.
  post-turn :
      (m m' : ManagerProcess U C) (url : U)
      → m'.mgmt.pool ≡ (Pool.add_server m.mgmt.pool (Server.new url true)).0
      → m'.mgmt.manager.publisher ≡ publish (Message.add_server url) m.mgmt.manager.publisher
      → m'.checks ≡ m.checks
      → find_backend m.mgmt.pool (Server.new url true) ≡ none
      → ManagerInv m
      → Published m m' × ManagerInv m'
  unfolding publish_all announced_all handle add_url Server.new
  post-turn m m' url pools publishers checks missing v =
      let s = Server.new url true in
      (
        (
          Message.add_server url ∷ [],
          publishers,
          (λ t.
              ap (λ p. status p t) pools
              ∙ handle-announced m.mgmt.pool (Message.add_server url) t v.closed),
          (ap (Option.map _) missing, tt),
        ),
        record {
          closed = rw pools (add_server-IsClosed m.mgmt.pool s v.closed);
          firsts = rw pools (add-All-IsFirst m.mgmt.pool s v.closed missing refl v.firsts);
          checked =
              rw (pools, checks)
                (All-map (λ b f. added-IsFirst m.mgmt.pool s b v.closed f) m.checks v.checked);
        },
      )

  module _ {Chunk S : Type 0} (setting : Setting U Chunk S) where
    open setting use {json, text}

    pub api-turn :
        (m : ManagerProcess U C) (method : Method) (path : String) (body : Option Chunk)
        → ((url : U)
            → Names json text body url
            → find_backend m.mgmt.pool (Server.new url true) ≡ none)
        → ManagerInv m
        → Published m (react setting m (api method path body))
          × ManagerInv (react setting m (api method path body))
    unfolding react
    api-turn m method path body unlisted v =
        let m' = react setting m (api method path body) in
        elim (call_cases json text m.mgmt method path body) [
          | inl same ↦ (Published-same m m' same, mgmt-ManagerInv m m' same refl v)
          | inr (_, _, (url, names, is)) ↦
              post-turn m m' url (ap (λ r. r.0.pool) is) (ap (λ r. r.0.manager.publisher) is) refl
                (unlisted url names) v
        ]
