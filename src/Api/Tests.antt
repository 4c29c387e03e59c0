-- ===== src/Api/Tests.antt =====
-- A manager with one subscriber and one server (src/mgmt/api.rs).
use weldr.Common.{
  map, nat_beq, ==_ne, if◌then◌else◌, string_partial_eq, ◌≢◌, ℕ, String, none, some, [], ◌∷◌, ◌≡◌,
  refl, ◌⊎◌, nat_partial_eq, arith, true,
}
use mathlib.Core.List.{Mem}
use weldr.Message.{Message}
use weldr.Server
use weldr.Server.{Server, server_eq}
use weldr.Backend.{Heap, active, down}
use weldr.Pool.{Pool, default}
use weldr.Pool.Members.{IsClosed}
use weldr.Manager
use weldr.Manager.Publisher.{publish}
use weldr.Worker.Status.{status, announced}
use weldr.Api.Restore.{post_all, post_all-listing}
use weldr.Api.{
  PoolServer, Mgmt, get, post, Json, Text, decoded, json_reply, pool_server, pool_servers, call,
}
use weldr.Api.Servers.{Names, added, call_cases, call-announced, call-listed}

-- A chunk is the text of the URL; there is one URL but 70.
abbrev json : Json String
json = record {
  index_to_string = λ i. some i.about;
  servers_to_string = λ s. elim s.servers [ [] ↦ some "none" | x ∷ xs ↦ some x.url ];
  from_slice = λ chunk. decoded (record { url = chunk; links = none });
}

abbrev text : Text ℕ
text = record { parse = λ s. some 80; display = λ u. "url"; as_ref = λ u. "url" }

abbrev heap : Heap ℕ
heap = record {
  next = 1;
  cell = λ i. record {
    server = record { url = 70; map_host = true };
    state = active;
    stats = record { failure = 0; success = 0 };
  };
}

abbrev mgmt : Mgmt ℕ ℕ
mgmt = record {
  pool = record { heap = heap; inner = record { backends = 0 ∷ []; last_used = 0 } };
  manager = record {
    workers = [];
    publisher = record {
      next_id = 1;
      subscribers = (0, record { client = 5; requests_in_flight = 0 }) ∷ [];
      pending = [];
    };
  };
}

mgmt-IsClosed : IsClosed mgmt.pool
mgmt-IsClosed = (omega arith, tt)

names : Names json text (some "url") 80
names = record {
  chunk = "url";
  server = record { url = "url"; links = none };
  came = refl;
  decodes = refl;
  parses = refl;
}

abbrev servers_path : String
servers_path = "/servers"

call_cases_example :
    ((call json text mgmt post servers_path (some "url")).0 ≡ mgmt)
    ⊎ ((post ≡ post)
        × (servers_path ≡ "/servers")
        × ((url : ℕ) × Names json text (some "url") url
            × (call json text mgmt post servers_path (some "url") ≡ added json text mgmt url)))
call_cases_example = call_cases json text mgmt post servers_path (some "url")

call-announced_example :
    let m' = (call json text mgmt post "/servers" (some "url")).0 in
    (status m'.pool (record { url = 80; map_host = true }) ≡ some active)
    × (m'.manager.publisher ≡ publish (Message.add_server 80) mgmt.manager.publisher)
unfolding announced Server.new weldr.Pool.find_backend
call-announced_example =
    call-announced json text mgmt (some "url") 80 (record { url = 80; map_host = true })
      mgmt-IsClosed names

call-listed_example :
    let (m', reply) = call json text mgmt post "/servers" (some "url") in
    (reply ≡ json_reply (json.servers_to_string (pool_servers text m'.pool)))
    × Mem (pool_server text (Server.new 80 true)) (pool_servers text m'.pool).servers
    × (call json text m' get "/servers" none ≡ (m', reply))
call-listed_example = call-listed json text mgmt (some "url") 80 mgmt-IsClosed names

abbrev listing_json : Json PoolServer
listing_json = record {
  index_to_string = λ i. none;
  servers_to_string = λ s. none;
  from_slice = decoded;
}

abbrev plain : Text String
plain = record { parse = some; display = λ u. u; as_ref = λ u. u }

-- Two servers, the second of which is down.
abbrev two : Pool String
two = record {
  heap = record {
    next = 2;
    cell = λ i. record {
      server = record { url = if nat_beq i 0 then "a" else "b"; map_host = true };
      state = if nat_beq i 0 then active else down;
      stats = record { failure = 3; success = 4 };
    };
  };
  inner = record { backends = 0 ∷ 1 ∷ []; last_used = 1 };
}

abbrev unused : Mgmt String ℕ
unused = record { pool = default two.heap; manager = Manager.new }

abbrev listed : ℕ → Server String
listed i = record { url = if nat_beq i 0 then "a" else "b"; map_host = true }

listed-apart : listed 1 ≢ listed 0
listed-apart = ==_ne (listed 1) (listed 0) refl

post_all-listing_example :
    pool_servers plain
      (post_all listing_json plain unused (map (λ s. s) (pool_servers plain two).servers)).pool
    ≡ pool_servers plain two
post_all-listing_example =
    post_all-listing listing_json plain (λ s. s) two unused two.heap
      record { reads = λ s. refl; parses = λ u. refl } (refl, (refl, tt))
      ((listed-apart, tt), (tt, tt)) refl
