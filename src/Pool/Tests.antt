-- ===== src/Pool/Tests.antt =====
-- Pools of three backends, and what the theorems about src/pool.rs say of them.
use weldr.Common.{
  ℕ, ◌≡◌, ◌↔◌, refl, Bool, true, false, Option, none, some, List, [], ◌∷◌, map, All, length, retain,
  replicate, arith, if◌then◌else◌, leb, nat_beq, nat_partial_eq, ◌+◌,
}
use mathlib.Core.List.{Perm, Mem}
use weldr.Server.{Server}
use weldr.Backend.{Backend, Heap, InnerBackend, active, down}
use weldr.Pool.{InnerPool, Pool, get, remove, add_server, remove_server, find_backend}
use weldr.Pool.Rotation.{live}
use weldr.Pool.Get.{get_result, Serves, IsValid, get-serve, ring}
use weldr.Pool.RoundRobin.{gets, gets-round, gets-serves}
use weldr.Pool.Hang.{remove-get_hangs}
use weldr.Pool.Ends.{Returns, Ends, get-Ends}
use weldr.Pool.Members.{IsClosed, fresh, add_server_lem, find-add_server, find-remove_server}
use weldr.Pool.Request.{Answer, ok, err, tally, on_answers, on_answers_lem}

abbrev site : ℕ → Server ℕ
site url = record { url = url; map_host = true }

abbrev cell_of : Bool → ℕ → InnerBackend ℕ
cell_of is_up url = record {
  server = site url;
  state = if is_up then active else down;
  stats = record { failure = 0; success = 0 };
}

-- Servers 70, 71 and 72, of which 71 is down.
abbrev heap : Heap ℕ
heap = record { next = 3; cell = λ i. cell_of (if nat_beq i 1 then false else true) (70 + i) }

abbrev all_down : Heap ℕ
all_down = record { next = 3; cell = λ i. cell_of false (70 + i) }

abbrev three : InnerPool
three = record { backends = 0 ∷ 1 ∷ 2 ∷ []; last_used = 0 }

abbrev last_of_three : InnerPool
last_of_three = record { backends = 0 ∷ 1 ∷ 2 ∷ []; last_used = 2 }

-- What a removal leaves of that.
abbrev last_of_two : InnerPool
last_of_two = record { backends = 0 ∷ 1 ∷ []; last_used = 2 }

abbrev pool : Pool ℕ
pool = record { heap = heap; inner = three }

three-IsValid : IsValid three
three-IsValid = record { fits = omega arith; in_range = omega arith }

pool-IsClosed : IsClosed pool
pool-IsClosed = (omega arith, (omega arith, (omega arith, tt)))

get_skips : get 3 heap three ≡ some (some 2, record three { last_used = 2 })
unfolding get
get_skips = refl

get-serve_example : Serves heap 3 three
get-serve_example = get-serve heap 3 three three-IsValid (omega arith)

gets-round_example :
    (served : List Backend) × (q : InnerPool) × (gets 3
        (replicate (length (retain (live heap) (0 ∷ 1 ∷ 2 ∷ []))) heap)
        three
      ≡ some (map some served, q))
    × Perm served (retain (live heap) (0 ∷ 1 ∷ 2 ∷ []))
    × (ring heap q ≡ served)
gets-round_example = gets-round 3 heap three three-IsValid (omega arith)

gets-serves_example :
    (rs : List (Option Backend)) × (q : InnerPool) × (gets 3 (heap ∷ heap ∷ heap ∷ []) three
      ≡ some (rs, q))
    × Mem (some 0) rs
gets-serves_example =
    gets-serves 3 (heap ∷ heap ∷ heap ∷ []) three 0 (1 ∷ 2 ∷ []) [] three-IsValid (omega arith) refl
      (refl, (refl, (refl, tt))) (omega arith)

remove-get_hangs_example : get 1000 all_down (remove all_down last_of_three (site 72)) ≡ none
unfolding remove
remove-get_hangs_example =
    remove-get_hangs all_down 1000 last_of_three (site 72) (refl, (refl, (refl, tt))) (omega arith)
      (omega arith)

get-Ends_example :
    (((fuel : ℕ) × Returns all_down fuel last_of_two) ↔ Ends all_down last_of_two)
    × (Ends all_down last_of_two ↔ Returns all_down 2 last_of_two)
get-Ends_example = get-Ends all_down last_of_two (omega arith)

add_server_lem_example :
    let q = (add_server pool (site 99)).0 in
    ((add_server pool (site 99)).1 ≡ true)
    × (q.backends ≡ 0 ∷ 1 ∷ 2 ∷ 3 ∷ [])
    × (q.last_used ≡ 0)
    × (q.heap.next ≡ 4)
    × (q.heap.cell 3 ≡ fresh (site 99))
    × All (λ b. q.heap.cell b ≡ heap.cell b) (0 ∷ 1 ∷ 2 ∷ [])
add_server_lem_example = add_server_lem pool (site 99) pool-IsClosed

find-add_server_example : find_backend (add_server pool (site 99)).0 (site 99) ≡ some 3
unfolding find_backend
find-add_server_example = find-add_server pool (site 99) (site 99) pool-IsClosed

find-remove_server_example : find_backend (remove_server pool (site 71)) (site 72) ≡ some 2
unfolding find_backend
find-remove_server_example = find-remove_server pool (site 71) (site 72)

abbrev is_error : ℕ → Bool
is_error status = leb 500 status

abbrev answers : List (Backend × Answer ℕ)
answers = (0, ok 200) ∷ (2, ok 404) ∷ (0, ok 503) ∷ (0, err) ∷ []

on_answers_lem_example :
    let v = (on_answers is_error heap answers).cell 0 in
    (v.server ≡ site 70) × (v.state ≡ active) × (v.stats.success ≡ 1) × (v.stats.failure ≡ 2)
unfolding tally
on_answers_lem_example = on_answers_lem is_error heap 0 answers (omega arith) (omega arith)

get_result_example :
    (r : Option Backend) × (q : InnerPool) × (get 3 heap three ≡ some (r, q))
    × ((b : Backend) → r ≡ some b → live heap b ≡ true)
    × ((r ≡ none) ↔ All (λ b. live heap b ≡ false) (0 ∷ 1 ∷ 2 ∷ []))
get_result_example = get_result heap 3 three three-IsValid (omega arith)
