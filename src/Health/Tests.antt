-- ===== src/Health/Tests.antt =====
-- Health checks of two backends with the default configuration (src/mgmt/health.rs).
use weldr.Common.{ℕ, ◌+◌, ◌≡◌, refl, Bool, true, List, [], ◌∷◌, arith, ltb, nat_partial_eq, All, ap}
use weldr.Config
use weldr.Config.{Config}
use weldr.Server.{Server}
use weldr.Message.{mark_server_down, mark_server_active}
use weldr.Backend.{Backend, Heap, InnerBackend, active, down}
use weldr.Health
use weldr.Health.{should_mark_down, passing}
use weldr.Health.Check.{on_result, World, CheckResult, response, error}
use weldr.Health.Watch.{watch, IsSane, Tracks}
use weldr.Health.Streak.{watch_all, on_results, on_results-watch, on_all}
use weldr.Health.Interleaved.{Apart, results_of, on_all-watch, on_all-order}
use weldr.Health.Bounds.{two_failures, failures_disable}

abbrev site : ℕ → Server ℕ
site url = record { url = url; map_host = true }

abbrev heap : Heap ℕ
heap = record {
  next = 2;
  cell = λ i. record {
    server = site (70 + i);
    state = active;
    stats = record { failure = 0; success = 0 };
  };
}

abbrev world : World ℕ
world = record {
  heap = heap;
  pool = record { backends = 0 ∷ 1 ∷ []; last_used = 0 };
  health = Health.new;
  published = [];
}

-- A hash that tells the states apart, as a good one does.
abbrev hash : InnerBackend ℕ → ℕ
hash v = elim v.state [ active ↦ v.server.url | down ↦ 1000 + v.server.url ]

abbrev is_success : ℕ → Bool
is_success status = ltb status 300

abbrev answers : List (CheckResult ℕ)
answers =
    response 503 ∷ error ∷ response 404 ∷ response 200 ∷ error ∷ response 200 ∷ response 200 ∷ []

default-IsSane : IsSane Config.default
default-IsSane = record {
  failures_two = omega arith;
  failures_fit = omega arith;
  passes_two = omega arith;
  passes_fit = omega arith;
}

start : Tracks hash Config.default world 0 (record { state = active; count = 0 })
unfolding Health.new
start = record {
  follows = record { is = refl; counts = record { now = refl; rest = refl } };
  below = omega arith;
}

-- Down at the third answer, up at the last.
on_results-watch_example :
    let w = on_results hash is_success Config.default world 0 answers in
    Tracks hash Config.default w 0 (record { state = active; count = 0 })
    × (w.published ≡ mark_server_down 70 ∷ mark_server_active 70 ∷ [])
unfolding watch_all watch
on_results-watch_example =
    on_results-watch hash is_success Config.default world 0 (record { state = active; count = 0 })
      answers default-IsSane start

-- Where one failure is required
abbrev hasty : Config
hasty = record Config.default { health_check = record Config.default_health_check { failures = 1 } }

two_failures_example :
    let w1 = on_result hash is_success hasty world 0 error in
    let w2 = on_result hash is_success hasty w1 0 (response 503) in
    ((w1.heap.cell 0).state ≡ active)
    × (w1.published ≡ [])
    × ((w2.heap.cell 0).state ≡ down)
    × (w2.published ≡ mark_server_down 70 ∷ [])
unfolding Health.new
two_failures_example =
    two_failures hash is_success hasty world 0 0 error (response 503) (omega arith) refl refl refl
      refl

failures_disable_example :
    let w =
      on_results hash is_success Config.default world 0
        (response 503 ∷ error ∷ response 404 ∷ []) in
    ((w.heap.cell 0).state ≡ down) × (w.published ≡ mark_server_down 70 ∷ [])
failures_disable_example =
    failures_disable hash is_success Config.default world 0
      (response 503 ∷ error ∷ response 404 ∷ []) 3 default-IsSane start refl (omega arith)

-- Answers for both backends: the first gets three failures, the second a success among two.
abbrev mixed : List (Backend × CheckResult ℕ)
mixed =
    (0, response 503)
    ∷ (1, error)
    ∷ (0, error)
    ∷ (1, response 200)
    ∷ (0, response 404)
    ∷ (1, error)
    ∷ []

abbrev sorted : List (Backend × CheckResult ℕ)
sorted =
    (1, error)
    ∷ (1, response 200)
    ∷ (1, error)
    ∷ (0, response 503)
    ∷ (0, error)
    ∷ (0, response 404)
    ∷ []

Apart-01 : Apart world 0 1
Apart-01 ne e = omega (arith, ap (λ v. v.url) e)

Apart-00 : Apart world 0 0
Apart-00 ne = absurd (ne refl)

mixed-Apart : All (λ x. Apart world 0 x.0) mixed
mixed-Apart = (Apart-00, (Apart-01, (Apart-00, (Apart-01, (Apart-00, (Apart-01, tt))))))

sorted-Apart : All (λ x. Apart world 0 x.0) sorted
sorted-Apart = (Apart-01, (Apart-01, (Apart-01, (Apart-00, (Apart-00, (Apart-00, tt))))))

on_all-watch_example :
    Tracks hash Config.default
      (on_all hash is_success Config.default world mixed)
      0
      (record { state = down; count = 0 })
unfolding watch_all watch results_of
on_all-watch_example =
    on_all-watch hash is_success Config.default world 0 (record { state = active; count = 0 }) mixed
      default-IsSane mixed-Apart start

on_all-order_example :
    ((on_all hash is_success Config.default world mixed).heap.cell 0).state
    ≡ ((on_all hash is_success Config.default world sorted).heap.cell 0).state
unfolding results_of
on_all-order_example =
    on_all-order hash is_success Config.default world 0 (record { state = active; count = 0 }) mixed
      sorted default-IsSane mixed-Apart sorted-Apart start refl
