-- ===== src/Agreement/Tests.antt =====
-- A manager with two servers and a worker that knows them, over a round of checks.
use weldr.Common.{
  ℕ, String, ◌+◌, ◌≡◌, refl, Bool, true, Option, none, some, List, [], ◌∷◌, ◌++◌, arith, ltb, leb,
  nat_partial_eq, string_partial_eq, ◌==◌, if◌then◌else◌,
}
use weldr.Config
use weldr.Message.{Message, mark_server_down}
use weldr.Server.{Server}
use weldr.Backend.{Backend, Heap, InnerBackend, active}
use weldr.Pool.{find_backend}
use weldr.Health
use weldr.Health.Check.{World, CheckResult, response, error}
use weldr.Worker.Status.{status, handle_all}
use weldr.Agreement.{pool_of, IsFirst}
use weldr.Agreement.Checks.{round, round-agrees}

abbrev heap : Heap ℕ
heap = record {
  next = 2;
  cell = λ i. record {
    server = record { url = 70 + i; map_host = true };
    state = active;
    stats = record { failure = 0; success = 0 };
  };
}

abbrev world : World ℕ
world = record {
  heap = heap;
  pool = record { backends = 0 ∷ 1 ∷ []; last_used = 0 };
  health = Health.new;
  published = [];
}

abbrev hash : InnerBackend ℕ → ℕ
hash v = v.server.url

abbrev is_success : ℕ → Bool
is_success code = ltb code 300

-- No URL but the second server's parses.
abbrev parse : String → Option ℕ
parse url = if url == "b/" then some 71 else none

abbrev display : ℕ → String
display url = if leb url 70 then "a" else "b"

abbrev answers : List (Backend × CheckResult ℕ)
answers = (1, response 503) ∷ (1, error) ∷ (1, response 404) ∷ []

zero-IsFirst : IsFirst (pool_of world) 0
unfolding find_backend
zero-IsFirst = record { first = refl; maps = refl }

one-IsFirst : IsFirst (pool_of world) 1
unfolding find_backend
one-IsFirst = record { first = refl; maps = refl }

round-agrees_example :
    let w = round hash is_success Config.default parse display world answers in
    (ms : List (Message ℕ)) × (w.published ≡ [] ++ ms)
    × ((t : Server ℕ) → status (handle_all (pool_of world) ms) t ≡ status (pool_of w) t)
round-agrees_example =
    round-agrees hash is_success Config.default parse display world answers (pool_of world)
      (zero-IsFirst, (one-IsFirst, tt)) (one-IsFirst, (one-IsFirst, (one-IsFirst, tt)))
      (omega arith, (omega arith, tt)) (λ t. refl)

-- The first goes down since its URL does not parse, the second after three failures.
both_down :
    (round hash is_success Config.default parse display world answers).published
    ≡ mark_server_down 70 ∷ mark_server_down 71 ∷ []
unfolding round weldr.Backend.mark_down Health.new
both_down = refl
