-- ===== src/System/Roster.antt =====
-- What the manager process (src/mgmt/mod.rs) is to do, without the heap, the hash table and the publisher
-- of the code: the servers that were posted, for each of them a counter of consecutive results, and the
-- servers whose checks are under way.
pub mod Mirrors
pub mod Reads
pub mod Start
pub mod Starts
pub mod Ticks
pub mod Answers
pub mod Posts
pub mod Posted
pub mod Stands
pub mod Refines
pub mod Obeys
pub mod Clients
mod Tests
use Prim.Native.String.{◌++◌ as append}
use weldr.Common.{
  ℕ, ◌≡◌, ◌≢◌, String, Bool, true, false, Option, none, some, List, [], ◌∷◌, ◌++◌, get_elem?, any,
  retain, if◌then◌else◌, PartialEq, ◌==◌, string_partial_eq,
}
use weldr.Server
use weldr.Server.{Server, server_eq}
use weldr.Backend.{Heap, ServerState, active, down}
use weldr.Health.Check.{CheckResult}
use weldr.Health.Watch.{Watch, watch, succeeded}
use weldr.Manager.Publisher.{remove_at}
use weldr.Api.{Method, post, decoded, invalid}
use weldr.System.{ManagerProcess, Event, api, tick, answered, rpc, Setting, begin, react}

pub record Roster {ℓ} (U : Type ℓ) : Type ℓ where
  pub listed : List (Server U)
  pub watched : Server U → Watch
  pub awaited : List (Server U)

abbrev pub fresh_watch : Watch
fresh_watch = record { state = active; count = 0 }

abbrev pub down_watch : Watch
down_watch = record { state = down; count = 0 }

abbrev pub empty {ℓ} : {U : Type ℓ} → Roster U
empty = record { listed = []; watched = λ t. fresh_watch; awaited = [] }

module _ {ℓ} {U : Type ℓ} {Chunk S : Type 0} (setting : Setting U Chunk S) where
  open setting use {json, text, is_success, config}

  -- The URL that a body names.
  unfoldable pub body_url : Option Chunk → Option U
  body_url none = none
  body_url (some chunk) = elim (json.from_slice chunk) [
    | decoded server ↦ text.parse server.url
    | invalid why ↦ none
  ]

  -- The URL of the server that a request to the API asks to add, if it asks that.
  unfoldable pub posted_url : Method → String → Option Chunk → Option U
  unfolding body_url
  posted_url post path body = let url = body_url body in if path == "/servers" then url else none
  posted_url _ path body = none

  -- Whether there is a URL at which the server can be checked.
  abbrev pub checkable : Server U → Bool
  checkable t = elim (text.parse (append (text.display t.url) config.health_check.uri_path)) [
    | none ↦ false
    | some url ↦ true
  ]

module _ {ℓ} {U : Type ℓ} ⦃e : PartialEq U⦄ where
  abbrev pub put : Server U → Watch → (Server U → Watch) → Server U → Watch
  put s w f t = if s == t then w else f t

  -- A server that is listed stays as it is.
  unfoldable pub adds : Roster U → U → Roster U
  unfolding Server.new
  adds a url =
      let s = Server.new url true in
      if any (λ t. t == s) a.listed
      then a
      else record a { listed = a.listed ++ s ∷ []; watched = put s fresh_watch a.watched }

  -- The state that a server is in, if it is listed.
  abbrev pub stands : Roster U → Server U → Option ServerState
  stands a t = if any (λ s. s == t) a.listed then some (a.watched t).state else none

module _ {ℓ} {U : Type ℓ} ⦃e : PartialEq U⦄ {Chunk S : Type 0} (setting : Setting U Chunk S) where
  open setting use {is_success, config.{health_check.{failures, passes}}}

  -- A server that cannot be checked is down from now on; the others are checked.
  abbrev pub checks_all : Roster U → Roster U
  checks_all a = record a {
    watched = λ t. if checkable setting t then a.watched t else down_watch;
    awaited = a.awaited ++ retain (checkable setting) a.listed;
  }

  -- The counter of the server counts the answer, and no other.
  unfoldable pub counts : Roster U → ℕ → Server U → CheckResult S → Roster U
  unfolding watch remove_at
  counts a i s r = record a {
    watched = put s (watch failures passes (a.watched s) (succeeded is_success r)).0 a.watched;
    awaited = remove_at a.awaited i;
  }

module _ {ℓ κ} {U : Type ℓ} ⦃e : PartialEq U⦄ {C : Type κ} {Chunk S : Type 0}
    (setting : Setting U Chunk S) where
  -- One event, for the specification
  unfoldable pub observe : Roster U → Event U C Chunk S → Roster U
  unfolding posted_url adds counts
  observe a (api method path body) = elim (posted_url setting method path body) [
    | none ↦ a
    | some url ↦ adds a url
  ]
  observe a tick = checks_all setting a
  observe a (answered i r) = elim (get_elem? a.awaited i) [
    | none ↦ a
    | some s ↦ counts setting a i s r
  ]
  observe a (rpc ev) = a

  -- No server is posted that is listed and down.
  abbrev pub Admits : Roster U → Event U C Chunk S → Type ℓ
  Admits a (api method path body) =
      (url : U)
      → posted_url setting method path body ≡ some url
      → stands a (Server.new url true) ≢ some down
  Admits a tick = Unit
  Admits a (answered i r) = Unit
  Admits a (rpc ev) = Unit

  -- The manager and the specification, after the same events.
  pub data Run : ManagerProcess U C → Roster U → Type (ℓ ⊔ κ) where
    begins : (h : Heap U) → Run (begin h) empty
    turns :
        {m : ManagerProcess U C} {a : Roster U} (ev : Event U C Chunk S)
        → Run m a
        → Admits a ev
        → Run (react setting m ev) (observe a ev)
