-- ===== src/System/Additions.antt =====
-- Requests to a worker (src/mgmt/worker.rs) of which none adds a server that is there already.
use weldr.Common.{◌≡◌, true, Option, none, List, [], ◌∷◌, ◌++◌, All, PartialEq}
use weldr.Message.{Message}
use weldr.Server
use weldr.Server.{Server}
use weldr.Backend.{ServerState}
use weldr.Worker.Status.{announced, announced_all}
use weldr.Agreement.{is_mark}

module _ {ℓ} {U : Type ℓ} ⦃e : PartialEq U⦄ where
  -- What a request adds has no state yet.
  abbrev pub IsNew : (Server U → Option ServerState) → Message U → Type 0
  IsNew d (Message.add_server url) = d (Server.new url true) ≡ none
  IsNew d (Message.mark_server_down url) = Unit
  IsNew d (Message.mark_server_active url) = Unit

  abbrev pub AddsNew : (Server U → Option ServerState) → List (Message U) → Type 0
  AddsNew d [] = Unit
  AddsNew d (m ∷ ms) = IsNew d m × AddsNew (announced d m) ms

  mark-IsNew : (d : Server U → Option ServerState) (m : Message U) → is_mark m ≡ true → IsNew d m
  mark-IsNew d (Message.add_server url) mark = cc (mark)
  mark-IsNew d (Message.mark_server_down url) mark = tt
  mark-IsNew d (Message.mark_server_active url) mark = tt

  pub marks-AddsNew :
      (d : Server U → Option ServerState) (ms : List (Message U))
      → All (λ m. is_mark m ≡ true) ms
      → AddsNew d ms
  marks-AddsNew d [] marks = tt
  marks-AddsNew d (m ∷ ms) marks =
      (mark-IsNew d m marks.0, marks-AddsNew (announced d m) ms marks.1)

  pub append-AddsNew :
      (d : Server U → Option ServerState) (xs ys : List (Message U))
      → AddsNew d xs
      → AddsNew (announced_all d xs) ys
      → AddsNew d (xs ++ ys)
  unfolding announced_all
  append-AddsNew d [] ys xn yn = yn
  append-AddsNew d (x ∷ xs) ys xn yn = (xn.0, append-AddsNew (announced d x) xs ys xn.1 yn)
