-- ===== src/System/Tests.antt =====
-- The manager and a worker over one server: it is posted, the worker hears of it, it is checked, and
-- goes down after two failures.
use weldr.Common.{ℕ, String, ◌≡◌, refl, some, [], ◌∷◌, arith, string_partial_eq}
use weldr.Message
use weldr.Backend
use weldr.Backend.{Backend, Heap, InnerBackend, active, down}
use weldr.Pool.{Pool, default, find_backend, add}
use weldr.Health
use weldr.Health.Check.{error}
use weldr.Manager
use weldr.Manager.Publisher
use weldr.Manager.Publisher.{Publisher, subscribes}
use weldr.Manager.Keys.{count}
use weldr.Worker.{add_url}
use weldr.Api.{post}
use weldr.Worker.Status.{status, announced_all}
use weldr.System.{
  System, api, tick, answered, Allowed, Holds, advance, Reach, start, next, manages, works, begin,
  begins, enter, react,
}
use weldr.System.Joined.{heard as hear}
use weldr.System.Node.{receive, handles}
use weldr.System.Agrees.{Reach-agrees}
use weldr.System.Samples.{setting, empty_heap, is_server_error, site}

abbrev begun : System String ℕ
begun = enter setting (begin empty_heap) 7 empty_heap

-- The manager's pool when the worker subscribed
abbrev joined : Pool String
joined = default empty_heap

-- The server is posted.
abbrev posted : System String ℕ
posted = advance setting begun (api post "/servers" (some "http://a"))

posted-Allowed : Allowed setting begun.manager (api post "/servers" (some "http://a"))
unfolding Publisher.step Manager.new begin find_backend default react enter
posted-Allowed = record { ids_left = omega arith; unlisted = λ method path body url e names. refl }

posted-Holds : Holds setting begun.manager 0 (api post "/servers" (some "http://a"))
unfolding Publisher.step Manager.new begin find_backend default advance count enter
posted-Holds = record { room = omega arith; stays = λ r e. cc (e) }

posted-Reach : Reach setting is_server_error joined posted
unfolding Manager.new begin default enter
posted-Reach =
    next (start (begin empty_heap) 7 empty_heap refl (begins empty_heap) (omega arith))
      (manages (api post "/servers" (some "http://a")) posted-Allowed posted-Holds)

-- The worker hears of it, and then it is checked, and the check fails.
abbrev heard : System String ℕ
heard = record posted { worker = add_url posted.worker "http://a"; todo = [] }

abbrev ticked : System String ℕ
ticked = advance setting heard tick

abbrev failed : System String ℕ
failed = advance setting ticked (answered 0 error)

heard-Reach : Reach setting is_server_error joined heard
unfolding Publisher.step Manager.new begin enter default advance receive
heard-Reach =
    next posted-Reach (
      works (handles (Message.add_server "http://a") [] {q = heard.worker} refl (omega arith) refl))

ticked-Allowed : Allowed setting heard.manager tick
unfolding Publisher.step Manager.new begin default advance count add Health.new Backend.new enter
ticked-Allowed = record {
  ids_left = omega arith;
  unlisted = λ method path body url e names. cc (e);
}

ticked-Holds : Holds setting heard.manager 0 tick
unfolding Publisher.step Manager.new begin default advance count add Health.new Backend.new enter
ticked-Holds = record { room = omega arith; stays = λ r e. cc (e) }

failed-Allowed : Allowed setting ticked.manager (answered 0 error)
unfolding Publisher.step Manager.new begin default advance count add Health.new Backend.new enter
failed-Allowed = record {
  ids_left = omega arith;
  unlisted = λ method path body url e names. cc (e);
}

failed-Holds : Holds setting ticked.manager 0 (answered 0 error)
unfolding Publisher.step Manager.new begin default advance count add Health.new Backend.new enter
failed-Holds = record { room = omega arith; stays = λ r e. cc (e) }

failed-Reach : Reach setting is_server_error joined failed
unfolding advance enter begin
failed-Reach =
    next (next heard-Reach (manages tick ticked-Allowed ticked-Holds))
      (manages (answered 0 error) failed-Allowed failed-Holds)

Reach-agrees_example :
    announced_all (status failed.worker) failed.todo site
    ≡ hear (status joined site) (status failed.manager.mgmt.pool site)
Reach-agrees_example = Reach-agrees setting is_server_error joined (λ u. refl) failed-Reach site

-- After one more failure it is sent that the server is down.
told :
    (advance setting (advance setting failed tick) (answered 0 error)).todo
    ≡ Message.mark_server_down "http://a" ∷ []
unfolding Publisher.step Manager.new begin enter default advance add Health.new Backend.new
    Backend.mark_down
told = refl
