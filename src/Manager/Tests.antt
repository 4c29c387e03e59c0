-- ===== src/Manager/Tests.antt =====
-- Three workers, and a publisher with two subscribers (src/mgmt/manager.rs).
use weldr.Common.{
  ℕ, ◌+◌, ◌≡◌, refl, true, false, some, List, [], ◌∷◌, ◌++◌, All, arith, ltb, if◌then◌else◌,
}
use weldr.Message.{add_server, mark_server_down}
use weldr.Manager.Exec.{to_string}
use weldr.Manager.{Manager, IoResult, ok, err, ForkResult, parent, child, execs, start_workers}
use weldr.Manager.Publisher.{Event, subscribes, publishes, replies, run, new, publish}
use weldr.Manager.InFlight.{Counted}
use weldr.Manager.Delivery.{requests_to, run-Counted, publish-requests_to}

abbrev no_workers : Manager ℕ ℕ
no_workers = record {
  workers = [];
  publisher = record { next_id = 0; subscribers = []; pending = [] };
}

abbrev fork : ℕ → IoResult ForkResult
fork id = if ltb id 3 then ok (parent (1000 + id)) else err 11

four : to_string 4 ≡ "4"
unfolding to_string
four = refl

long : to_string 18_446_744_073_709_551_615 ≡ "18446744073709551615"
unfolding to_string
long = refl

-- The second child runs the program as a worker.
forked :
    start_workers
      (some "weldr")
      some
      (λ id. if ltb id 1 then ok (parent 1000) else ok child)
      no_workers
      5
    ≡ (no_workers, execs (record { program = "weldr"; args = "worker" ∷ "--id" ∷ "1" ∷ [] }))
unfolding start_workers
forked = refl

-- Two subscribe; the first answers once and the second fails.
abbrev events : List (Event ℕ ℕ)
events =
    subscribes (some 1)
    ∷ subscribes (some 2)
    ∷ publishes (add_server 70)
    ∷ publishes (mark_server_down 70)
    ∷ replies 0 true
    ∷ replies 0 false
    ∷ []

left : (run new events).pending ≡ (0, mark_server_down 70) ∷ (1, mark_server_down 70) ∷ []
unfolding new run
left = refl

run-Counted_example : All (Counted (run new events).pending) (run new events).subscribers
run-Counted_example = run-Counted events (omega arith)

publish-requests_to_example :
    (publish (add_server 71) (run new events)).pending
    ≡ (run new events).pending
      ++ requests_to (add_server 71) (run new events).pending (run new events).subscribers
publish-requests_to_example = publish-requests_to events (add_server 71) (omega arith)
