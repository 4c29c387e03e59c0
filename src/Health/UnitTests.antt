-- ===== src/Health/UnitTests.antt =====
-- The tests of src/mgmt/health.rs, on the model. Parsing a URL is a parameter; a test is `none` if an
-- assertion or an `unwrap` of it fails.
use weldr.Common.{
  ℕ, ◌≡◌, refl, String, true, false, Option, some, PartialEq, string_partial_eq, bool_partial_eq,
  assert_eq,
}
use weldr.Common.Checks.{◌>>=◌}
use weldr.Server
use weldr.Server.{server_eq}
use weldr.Backend
use weldr.Backend.{Backend, Heap, InnerBackend, backend_eq, active, down}
use weldr.Health
use weldr.Health.{should_mark_active, should_mark_down}

module _ {U : Type 0} ⦃e : PartialEq U⦄ (from_str : String → Option U) (hash : InnerBackend U → ℕ)
    (h : Heap U) where
  -- `backend()`
  abbrev backend : Option (Heap U × Backend)
  backend = do
    url ← from_str "http://127.0.0.1:6000\n                "
    some (Backend.new h (Server.new url false))

  abbrev test_should_mark_active : Option (Unit {0})
  test_should_mark_active = do
    (h, b) ← backend
    let passes : ℕ = 2
    let health = Health.new
    let h = Backend.mark_down h b
    let (health, first) = should_mark_active hash h health b passes
    _ ← assert_eq false first
    let (health, second) = should_mark_active hash h health b passes
    assert_eq true second

  abbrev test_should_mark_down : Option (Unit {0})
  test_should_mark_down = do
    (h, b) ← backend
    let failures : ℕ = 2
    let health = Health.new
    let (health, first) = should_mark_down hash h health b failures
    _ ← assert_eq false first
    let (health, second) = should_mark_down hash h health b failures
    assert_eq true second

  abbrev test_backend_flapping : Option (Unit {0})
  test_backend_flapping = do
    (h, b) ← backend
    let passes : ℕ = 3
    let failures : ℕ = 2
    let health = Health.new
    let (health, first) = should_mark_down hash h health b failures
    _ ← assert_eq false first
    let (health, second) = should_mark_active hash h health b passes
    _ ← assert_eq false second
    let (health, third) = should_mark_down hash h health b failures
    _ ← assert_eq false third
    let (health, fourth) = should_mark_down hash h health b failures
    assert_eq true fourth

abbrev empty_heap : Heap String
empty_heap = record {
  next = 0;
  cell = λ i. record {
    server = record { url = ""; map_host = false };
    state = active;
    stats = record { failure = 0; success = 0 };
  };
}

abbrev hash : InnerBackend String → ℕ
hash v = elim v.state [ active ↦ 1 | down ↦ 2 ]

should_mark_active_passes : test_should_mark_active some hash empty_heap ≡ some tt
unfolding should_mark_active Health.new Backend.new Server.new Backend.mark_down
should_mark_active_passes = refl

should_mark_down_passes : test_should_mark_down some hash empty_heap ≡ some tt
unfolding should_mark_down Health.new Backend.new Server.new
should_mark_down_passes = refl

backend_flapping_passes : test_backend_flapping some hash empty_heap ≡ some tt
unfolding should_mark_active should_mark_down Health.new Backend.new Server.new
backend_flapping_passes = refl
