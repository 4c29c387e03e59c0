-- ===== src/System/Cluster/Samples.antt =====
-- A worker subscribes, a server is posted, another worker subscribes, and a second server is posted, of
-- which both hear; the first handles all that it is sent.
use weldr.Common.{
  ℕ, String, ◌≡◌, refl, ap, subst, ◌∙◌, true, Option, none, some, [], ◌∷◌, arith, string_partial_eq,
}
use weldr.Message
use weldr.Server
use weldr.Server.{Server}
use weldr.Backend
use weldr.Backend.{Heap}
use weldr.Pool.{default, find_backend, add}
use weldr.Manager
use weldr.Manager.Publisher
use weldr.Manager.Keys.{count}
use weldr.Worker.{add_url}
use weldr.Api.{post, Method, PoolServer}
use weldr.Api.Servers.{Names}
use weldr.System.{Event, spares, api, begin, advance, react}
use weldr.System.Node.{Node, receive, handles}
use weldr.System.Samples.{setting, empty_heap, is_server_error}
use weldr.System.Cluster.{
  Cluster, Reach, start, next, manages, works, joins, turn, tell, joining, join, subscribing,
  MayTurn,
}

abbrev pub posts : String → Event String ℕ String ℕ
posts url = api post "/servers" (some url)

abbrev pub add_b : Message.Message String
add_b = Message.add_server "http://b"

abbrev pub c0 : Cluster String ℕ
c0 = record { manager = begin empty_heap; nodes = [] }

abbrev pub c1 : Cluster String ℕ
c1 = join setting c0 7 empty_heap

abbrev pub c2 : Cluster String ℕ
c2 = turn setting c1 (posts "http://a")

abbrev pub c3 : Cluster String ℕ
c3 = join setting c2 8 empty_heap

abbrev pub c4 : Cluster String ℕ
c4 = turn setting c3 (posts "http://b")

-- The first worker, as it stands after the second post, and when it has handled that.
abbrev pub first : Node String
first = tell setting c3.manager (posts "http://b") (
    tell setting c2.manager (subscribing setting 8)
      (tell setting c1.manager (posts "http://a") (joining setting c0.manager empty_heap)))

abbrev pub half : Node String
half = record first { worker = add_url first.worker "http://a"; todo = add_b ∷ [] }

abbrev pub whole : Node String
whole = record half { worker = add_url half.worker "http://b"; todo = [] }

abbrev pub late : Node String
late = tell setting c3.manager (posts "http://b") (joining setting c2.manager empty_heap)

abbrev pub c6 : Cluster String ℕ
c6 = record c4 { nodes = late ∷ whole ∷ [] }

-- The URL of a post
posted_url :
    (method : Method) (path : String) (body : Option String) (url : String)
    → posts "http://b" ≡ api method path body
    → Names setting.json setting.text body url
    → "http://b" ≡ url
posted_url method path body url e names =
    let its : some "http://b" ≡ body = cc (e) in
    let came : "http://b" ≡ names.chunk = cc (its ∙ names.came) in
    let server : record { url = names.chunk; links = none } ≡ names.server = cc (names.decodes) in
    let parsed : names.server.url ≡ url = cc (names.parses) in
    came ∙ ap (λ (s : PoolServer). s.url) server ∙ parsed

pub may1 : MayTurn setting c0 (subscribing setting 7)
unfolding Publisher.step Manager.new begin find_backend default react advance count add Backend.new
may1 = (record { ids_left = omega arith; unlisted = λ method path body url e names. refl }, tt)

pub may2 : MayTurn setting c1 (posts "http://a")
unfolding Publisher.step Manager.new begin find_backend default react advance count add Backend.new
may2 = (
  record { ids_left = omega arith; unlisted = λ method path body url e names. refl },
  (record { room = omega arith; stays = λ r e. cc (e) }, tt),
)

pub may3 : MayTurn setting c2 (subscribing setting 8)
unfolding Publisher.step Manager.new begin find_backend default react advance count add Backend.new
    spares
may3 = (
  record { ids_left = omega arith; unlisted = λ method path body url e names. cc (e) },
  (
    record {
      room = omega arith;
      stays = λ r e.
          let is : Publisher.subscribes (some 8) ≡ r = cc (e) in
          subst (λ r. spares 0 c2.manager.mgmt.manager.publisher r ≡ true) is refl;
    },
    tt,
  ),
)

pub may4 : MayTurn setting c3 (posts "http://b")
unfolding Publisher.step Manager.new begin find_backend default react advance count add Backend.new
may4 = (
  record {
    ids_left = omega arith;
    unlisted = λ method path body url e names.
        subst (λ u. find_backend c3.manager.mgmt.pool (Server.new u true) ≡ none)
          (posted_url method path body url e names) refl;
  },
  (
    record { room = omega arith; stays = λ r e. cc (e) },
    (record { room = omega arith; stays = λ r e. cc (e) }, tt),
  ),
)

pub c4-Reach : Reach setting is_server_error c4
c4-Reach =
    next
      (next
        (next (next (start empty_heap) (joins 7 empty_heap may1)) (manages (posts "http://a") may2))
        (joins 8 empty_heap may3))
      (manages (posts "http://b") may4)

pub c6-Reach : Reach setting is_server_error c6
unfolding Publisher.step Manager.new begin default react advance receive add
c6-Reach =
    next
      (next c4-Reach (
        works (late ∷ []) [] first refl (
          handles (Message.add_server "http://a") (add_b ∷ []) {q = half.worker} refl (omega arith)
            refl)))
      (works (late ∷ []) [] half refl (handles add_b [] {q = whole.worker} refl (omega arith) refl))
