-- ===== src/Worker/Tests.antt =====
-- A worker process that learns of two servers, of which one goes down (src/mgmt/worker.rs,
-- src/pool.rs).
use weldr.Common.{
  ℕ, ◌≡◌, refl, ap, ◌↔◌, Bool, true, false, some, [], ◌∷◌, All, arith, length, leb, nat_partial_eq,
}
use weldr.Message.{add_server, mark_server_down}
use weldr.Server
use weldr.Server.{Server}
use weldr.Backend
use weldr.Backend.{Backend, Heap, ServerState, active, down}
use weldr.Pool.{Pool, default}
use weldr.Pool.Rotation.{live}
use weldr.Pool.Members.{IsClosed}
use weldr.Pool.Request.{Dispatch, sent, exhausted, request}
use weldr.Worker
use weldr.Worker.{Promise, ok}
use weldr.Worker.Status.{status, announced, handle, handle_all, announced_all, handle_all-announced}
use weldr.Worker.Again.{add_again-down}
use weldr.Worker.Serving.{Reach, start, next, manager, Reach-Inv, Reach-request}

abbrev site : ℕ → Server ℕ
site url = record { url = url; map_host = true }

abbrev heap : Heap ℕ
heap = record {
  next = 0;
  cell =
      λ i. record { server = site 0; state = active; stats = record { failure = 0; success = 0 } };
}

abbrev is_error : ℕ → Bool
is_error status = leb 500 status

-- 70 and 71 are added, and 70 is marked down.
abbrev two : Pool ℕ
two = handle_all (default heap) (add_server 70 ∷ add_server 71 ∷ mark_server_down 70 ∷ [])

two-Reach : Reach is_error heap (record { pool = two; in_flight = [] })
unfolding default handle_all handle Worker.Pool.add_server Worker.Pool.add Backend.new Server.new
two-Reach =
    next
      (next (next start (manager (add_server 70) (omega arith)))
        (manager (add_server 71) (omega arith)))
      (manager (mark_server_down 70) (omega arith))

Reach-request_example :
    (d : Dispatch ℕ) × (q : Pool ℕ) × (request (length two.backends) two ≡ some (d, q))
    × ((b : Backend) (server : Server ℕ)
        → d ≡ sent b server
        → (live two.heap b ≡ true) × (server ≡ Backend.server two.heap b))
    × ((d ≡ exhausted) ↔ All (λ b. live two.heap b ≡ false) two.backends)
Reach-request_example = Reach-request is_error two-Reach

two-IsClosed : IsClosed two
two-IsClosed = (Reach-Inv is_error two-Reach).closed

default-IsClosed : IsClosed (default heap)
unfolding default
default-IsClosed = tt

handle_all-announced_example : status two (site 70) ≡ some down
unfolding announced_all announced default Server.new
handle_all-announced_example =
    handle_all-announced (default heap) (add_server 70 ∷ add_server 71 ∷ mark_server_down 70 ∷ [])
      (site 70) default-IsClosed

-- One server, which has answered five requests.
abbrev worn : Pool ℕ
worn = record {
  heap = record {
    next = 1;
    cell = λ i. record {
      server = site 70;
      state = active;
      stats = record { failure = 0; success = 5 };
    };
  };
  inner = record { backends = 0 ∷ []; last_used = 0 };
}

add_again-down_example :
    let q = handle_all worn (add_server 70 ∷ mark_server_down 70 ∷ []) in
    (q.backends ≡ 0 ∷ 1 ∷ [])
    × (Backend.server q.heap 1 ≡ site 70)
    × (live q.heap 1 ≡ true)
    × (live q.heap 0 ≡ false)
unfolding Server.new Worker.Pool.find_backend
add_again-down_example =
    add_again-down worn 70 0 (omega arith, tt)
      ((λ e. omega (arith, ap (λ v. v.stats.success) e)), tt) refl
