-- ===== src/System/Roster/Tests.antt =====
-- A server is posted twice, and two of its checks fail.
use weldr.Common.{
  subst, ◌≢◌, ℕ, String, true, ◌≡◌, refl, none, some, map, string_partial_eq, if◌then◌else◌, ◌==◌,
}
use weldr.Server
use weldr.Server.{Server}
use weldr.Backend
use weldr.Backend.{active, down}
use weldr.Health.Check.{error}
use weldr.Health.Watch.{watch}
use weldr.Api.{post}
use weldr.Worker.Status.{status}
use weldr.System.{ManagerProcess, Event, api, tick, answered, Setting, begin, react}
use weldr.System.Samples.{setting, setting-IsSane, text, empty_heap, site}
use weldr.System.Roster.{
  Roster, empty, observe, stands, posted_url, adds, counts, Run, begins, turns,
}
use weldr.System.Roster.Refines.{Run-stands}

abbrev post_a : Event String ℕ String ℕ
post_a = api post "/servers" (some "http://a")

abbrev ticks : Event String ℕ String ℕ
ticks = tick

abbrev fails : Event String ℕ String ℕ
fails = answered 0 error

-- The manager after the post, after the same once more, and after each check
abbrev m1 : ManagerProcess String ℕ
m1 = react setting (react setting (begin empty_heap) post_a) post_a

abbrev m3 : ManagerProcess String ℕ
m3 = react setting (react setting m1 ticks) fails

abbrev m5 : ManagerProcess String ℕ
m5 = react setting (react setting m3 ticks) fails

abbrev a1 : Roster String
a1 = observe setting empty post_a

abbrev a5 : Roster String
a5 =
    observe setting
      (observe setting (observe setting (observe setting (observe setting a1 post_a) ticks) fails)
        ticks)
      fails

again :
    (url : String)
    → posted_url setting post "/servers" (some "http://a") ≡ some url
    → stands a1 (Server.new url true) ≢ some down
unfolding adds observe posted_url
again url e =
    let same : "http://a" ≡ url = cc (e) in
    subst (λ u. stands a1 (Server.new u true) ≢ some down) same (λ is. cc (is))

run1 : Run setting m1 (observe setting a1 post_a)
run1 = turns post_a (turns post_a (begins empty_heap) (λ url e is. cc (is))) again

run5 : Run setting m5 a5
run5 = turns fails (turns ticks (turns fails (turns ticks run1 tt) tt) tt) tt

Run-stands_example :
    (map (Backend.server m5.mgmt.pool.heap) m5.mgmt.pool.backends ≡ a5.listed)
    × (map (Backend.server m5.mgmt.pool.heap) m5.checks ≡ a5.awaited)
    × ((t : Server String) → status m5.mgmt.pool t ≡ stands a5 t)
Run-stands_example = Run-stands setting setting-IsSane run5

-- The server is down then.
down_now : stands a5 site ≡ some down
unfolding observe posted_url adds counts watch
down_now = refl

-- A server whose check has no URL is down after the next tick.
abbrev picky : Setting String String ℕ
picky = record setting { text = record text { parse = λ u. if u == "bad/" then none else some u } }

abbrev post_bad : Event String ℕ String ℕ
post_bad = api post "/servers" (some "bad")

unchecked :
    stands
      (observe picky (observe picky empty post_bad) ticks)
      (record { url = "bad"; map_host = true })
    ≡ some down
unfolding observe posted_url adds
unchecked = refl
