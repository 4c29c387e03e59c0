-- ===== src/Pool/UnitTests.antt =====
-- The tests of src/pool.rs, on the model. Parsing a URL is a parameter; a test is `none` if an assertion
-- or an `unwrap` of it fails.
use weldr.Common.{
  ◌≡◌, refl, String, Bool, true, false, not, Option, none, some, List, [], ◌∷◌, map, length,
  PartialEq, ◌==◌, ◌&&◌, nat_partial_eq, string_partial_eq, assert, assert_eq,
}
use weldr.Common.Checks.{◌>>=◌}
use weldr.Server
use weldr.Server.{server_eq}
use weldr.Backend
use weldr.Backend.{Backend, Heap, InnerBackend, backend_eq, active}
use weldr.Pool
use weldr.Pool.{InnerPool, get, add, remove}

module _ {U : Type 0} ⦃e : PartialEq U⦄ where
  -- `==` of two `Vec<Backend>`
  abbrev same_backends : List (InnerBackend U) → List (InnerBackend U) → Bool
  same_backends [] [] = true
  same_backends [] (y ∷ ys) = false
  same_backends (x ∷ xs) [] = false
  same_backends (x ∷ xs) (y ∷ ys) = (x == y) && same_backends xs ys

  abbrev assert_all : Heap U → List Backend → InnerPool → Option (Unit {0})
  assert_all h bs p = assert (same_backends (map h.cell bs) (map h.cell (Pool.all p)))

abbrev is_none : Option Backend → Bool
is_none none = true
is_none (some b) = false

module _ {U : Type 0} where
  -- `get`, with as many rounds as there are backends
  abbrev get_once : Heap U → InnerPool → Option (Option Backend × InnerPool)
  get_once h p = get (length p.backends) h p

  -- `get().unwrap()`
  abbrev get_some : Heap U → InnerPool → Option (Backend × InnerPool)
  get_some h p = do (r, q) ← get_once h p; b ← r; some (b, q)

module _ {U : Type 0} ⦃e : PartialEq U⦄ (from_str : String → Option U) (h : Heap U) where
  abbrev test_rrb_backend : Option (Unit {0})
  test_rrb_backend = do
    url0 ← from_str "http://127.0.0.1:6000"
    let (h, b0) = Backend.new h (Server.new url0 false)
    url1 ← from_str "http://127.0.0.1:6001"
    let (h, b1) = Backend.new h (Server.new url1 false)
    let rrb = Pool.new (b0 ∷ b1 ∷ [])
    _ ← assert_eq 2 (length rrb.backends)
    (first, rrb) ← get_some h rrb
    (second, rrb) ← get_some h rrb
    (third, rrb) ← get_some h rrb
    (fourth, rrb) ← get_some h rrb
    _ ← assert_eq (h.cell first) (h.cell third)
    _ ← assert_eq (h.cell second) (h.cell fourth)
    assert (not (h.cell first == h.cell second))

  abbrev test_empty_rrb_backend : Option (Unit {0})
  test_empty_rrb_backend = do
    let rrb = Pool.new []
    _ ← assert_eq 0 (length rrb.backends)
    (r, rrb) ← get_once h rrb
    _ ← assert (is_none r)
    assert_eq 0 (length (Pool.all rrb))

  abbrev test_add_to_rrb_backend : Option (Unit {0})
  test_add_to_rrb_backend = do
    let rrb = Pool.new []
    (r, rrb) ← get_once h rrb
    _ ← assert (is_none r)
    url ← from_str "http://127.0.0.1:6000"
    let server = Server.new url false
    let (h, backend) = Backend.new h server
    let (rrb, _) = add h rrb backend
    let (h, b1) = Backend.new h server
    (r, rrb) ← get_once h rrb
    _ ← assert (not (is_none r))
    assert_all h (b1 ∷ []) rrb

  abbrev test_remove_from_rrb_backend : Option (Unit {0})
  test_remove_from_rrb_backend = do
    let rrb = Pool.new []
    url1 ← from_str "http://127.0.0.1:6000"
    let server1 = Server.new url1 false
    url2 ← from_str "http://127.0.0.1:6001"
    let server2 = Server.new url2 false
    let (h, added1) = Backend.new h server1
    let (rrb, _) = add h rrb added1
    let (h, added2) = Backend.new h server2
    let (rrb, _) = add h rrb added2
    _ ← assert_eq 2 (length rrb.backends)
    let (h, b1) = Backend.new h server1
    let (h, b2) = Backend.new h server2
    _ ← assert_all h (b1 ∷ b2 ∷ []) rrb
    unknown ← from_str "http://127.0.0.1:1234"
    let unknown_server = Server.new unknown false
    let rrb = remove h rrb unknown_server
    _ ← assert_eq 2 (length rrb.backends)
    _ ← assert_all h (b1 ∷ b2 ∷ []) rrb
    let rrb = remove h rrb server1
    _ ← assert_eq 1 (length rrb.backends)
    _ ← assert_all h (b2 ∷ []) rrb
    let rrb = remove h rrb server2
    _ ← assert_eq 0 (length rrb.backends)
    assert_eq 0 (length (Pool.all rrb))

abbrev empty_heap : Heap String
empty_heap = record {
  next = 0;
  cell = λ i. record {
    server = record { url = ""; map_host = false };
    state = active;
    stats = record { failure = 0; success = 0 };
  };
}

rrb_backend_passes : test_rrb_backend some empty_heap ≡ some tt
unfolding Pool.new get Backend.new Server.new
rrb_backend_passes = refl

empty_rrb_backend_passes : test_empty_rrb_backend some empty_heap ≡ some tt
unfolding Pool.new get
empty_rrb_backend_passes = refl

add_to_rrb_backend_passes : test_add_to_rrb_backend some empty_heap ≡ some tt
unfolding Pool.new get add Backend.new Server.new
add_to_rrb_backend_passes = refl

remove_from_rrb_backend_passes : test_remove_from_rrb_backend some empty_heap ≡ some tt
unfolding Pool.new add remove Backend.new Server.new
remove_from_rrb_backend_passes = refl
