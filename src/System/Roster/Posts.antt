-- ===== src/System/Roster/Posts.antt =====
-- The turn of the manager (src/mgmt/api.rs) that adds a server, against the specification.
use weldr.Common.{
  ◌≡◌, ◌≢◌, refl, ap, sym, subst, ◌∙◌, inl, inr, true, false, find-any, Bool-cases, none, some,
  List, [], ◌∷◌, ◌++◌, map, map-append, map_congr, All, All-map, All-both, All-append, All-find,
  PartialEq, arith, ◌==◌, ==_refl, ne_==,
}
use weldr.Server
use weldr.Server.{Server, server_eq}
use weldr.Backend
use weldr.Backend.{Backend, Heap, active, down, backend_eq, ServerState}
use weldr.Pool
use weldr.Pool.{Pool, find_backend, find_server}
use weldr.Pool.Members.{
  IsClosed, fresh, has_fresh, has_fresh-find, add_server-IsClosed, add_server_lem,
}
use weldr.Health.Check.{World}
use weldr.Health.Watch.{Watch, IsSane, Tracks}
use weldr.Health.Keys.{new-Counts, same-Counts}
use weldr.Worker.Status.{add-state}
use weldr.Agreement.{pool_of, IsFirst}
use weldr.System.{Setting}
use weldr.System.Turns.{added-IsFirst, add-All-IsFirst}
use weldr.System.Roster.{Roster, put, adds, stands, fresh_watch}
use weldr.System.Roster.Mirrors.{Mirrors}
use weldr.System.Roster.Reads.{mirrored-listed, mirrored-stands}
use weldr.System.Roster.Start.{state_cases}
use weldr.Worker.Status.{found_server}
use mathlib.Core.Option

module _ {ℓ} {U : Type ℓ} ⦃e : PartialEq U⦄ {Chunk S : Type 0} (setting : Setting U Chunk S)
    (w : World U) (checks : List Backend) (a : Roster U) (url : U) (closed : IsClosed (pool_of w))
    (firsts : All (IsFirst (pool_of w)) w.pool.backends)
    (checked : All (IsFirst (pool_of w)) checks) (v : Mirrors setting w checks a) where
  open setting use {hash, config}

  abbrev s : Server U
  s = Server.new url true

  abbrev grown : Pool U
  grown = (Pool.add_server (pool_of w) s).0

  abbrev w' : World U
  w' = record w { heap = grown.heap; pool = grown.inner }

  stays : (b : Backend) → IsFirst (pool_of w) b → grown.heap.cell b ≡ w.heap.cell b
  stays b f = add-state (pool_of w) s (w.heap.cell b).server b closed f.first

  servers :
      (bs : List Backend)
      → All (IsFirst (pool_of w)) bs
      → map (Backend.server grown.heap) bs ≡ map (Backend.server w.heap) bs
  servers bs all = map_congr _ _ bs (All-map (λ b f. ap (λ c. c.server) (stays b f)) bs all)

  -- What is listed already stands as it did.
  older-Tracks :
      (b : Backend) (n : Watch)
      → IsFirst (pool_of w) b
      → Tracks hash config w b n
      → Tracks hash config w' b n
  older-Tracks b n f t =
      let same = stays b f in
      let cells = All-map (λ x fx. stays x.key fx) w.health.health_state v.keyed in
      record {
        follows = record {
          is = ap (λ c. c.state) same ∙ t.follows.is;
          counts = same-Counts hash w.heap grown.heap b _ _ _ same cells t.follows.counts;
        };
        below = t.below;
      }

  older-stats :
      (b : Backend)
      → IsFirst (pool_of w) b
      → (w.heap.cell b).stats ≡ record { failure = 0; success = 0 }
      → (grown.heap.cell b).stats ≡ record { failure = 0; success = 0 }
  older-stats b f none_yet = ap (λ c. c.stats) (stays b f) ∙ none_yet

  older-keyed : All (λ x. IsFirst grown x.key) w.health.health_state
  older-keyed =
      All-map (λ x f. added-IsFirst (pool_of w) s x.key closed f) w.health.health_state v.keyed

  pub grown-IsClosed : IsClosed grown
  grown-IsClosed = add_server-IsClosed (pool_of w) s closed

  pub grown-IsFirst : (bs : List Backend) → All (IsFirst (pool_of w)) bs → All (IsFirst grown) bs
  grown-IsFirst bs all = All-map (λ b f. added-IsFirst (pool_of w) s b closed f) bs all

  -- The server is listed already, and is not down.
  module _ (b : Backend) (found : find_backend (pool_of w) s ≡ some b)
      (up : stands a s ≢ some down) where
    is_fresh : w.heap.cell b ≡ fresh s
    unfolding find_backend find_server
    is_fresh =
        let c = w.heap.cell b in
        let told : some c.state ≡ stands a s =
          ap (Option.map (λ i. (w.heap.cell i).state)) (sym found)
          ∙ mirrored-stands setting w checks a s v in
        let not_down : c.state ≡ active = elim (state_cases w.heap b) [
          | inl is ↦ is
          | inr is ↦ absurd (up (sym told ∙ ap some is))
        ] in
        ap (λ x. record c { server = x }) (found_server (pool_of w) s b found)
        ∙ ap (λ (x : ServerState). record { server = s; state = x; stats = c.stats }) not_down
        ∙ ap (λ x. record { server = s; state = active; stats = x })
            (All-find _ _ w.pool.backends b v.uncounted found)

    refused : grown.backends ≡ w.pool.backends
    unfolding find_backend find_server
    refused =
        let old : has_fresh (pool_of w) s ≡ true =
          find-any (λ x. w.heap.cell x == fresh s) _ w.pool.backends b found
            (rw is_fresh (==_refl (fresh s))) in
        (add_server_lem (pool_of w) s closed).1 ∙ rw old refl

    adds-listed : adds a url ≡ a
    unfolding adds Server.new
    adds-listed =
        let there =
          mirrored-listed setting w checks a s v
          ∙ ap (λ o. elim o [ none ↦ false | some x ↦ true ]) found in
        rw there refl

    pub repeated-firsts : All (IsFirst grown) grown.backends
    repeated-firsts =
        subst (All (IsFirst grown)) (sym refused) (grown-IsFirst w.pool.backends firsts)

    pub repeated-Mirrors : Mirrors setting w' checks (adds a url)
    repeated-Mirrors = subst (Mirrors setting w' checks) (sym adds-listed) (record {
      lists =
          ap (map (Backend.server grown.heap)) refused ∙ servers w.pool.backends firsts ∙ v.lists;
      awaits = servers checks checked ∙ v.awaits;
      tracks =
          subst (All (λ b. Tracks hash config w' b (a.watched (grown.heap.cell b).server)))
            (sym refused)
            (All-both
              (λ b f t.
                subst (λ c. Tracks hash config w' b (a.watched c.server)) (sym (stays b f))
                  (older-Tracks b _ f t))
              w.pool.backends firsts v.tracks);
      keyed = older-keyed;
      calm = v.calm;
      uncounted =
          subst (All (λ b. (grown.heap.cell b).stats ≡ record { failure = 0; success = 0 }))
            (sym refused) (All-both older-stats w.pool.backends firsts v.uncounted);
      asked = v.asked;
    })

  -- The server is not listed.
  module _ (missing : find_backend (pool_of w) s ≡ none) where
    appended : grown.backends ≡ w.pool.backends ++ w.heap.next ∷ []
    appended = elim (Bool-cases (has_fresh (pool_of w) s)) [
      | inl old ↦ let (b, found) = has_fresh-find (pool_of w) s old in cc (found, missing)
      | inr new ↦ (add_server_lem (pool_of w) s closed).1 ∙ rw new refl
    ]

    differs : (b : Backend) → IsFirst (pool_of w) b → s ≢ (w.heap.cell b).server
    differs b f same =
        let found = ap (find_backend (pool_of w)) same ∙ f.first in cc (found, missing)

    stored : grown.heap.cell w.heap.next ≡ fresh s
    stored = (add_server_lem (pool_of w) s closed).4

    pub added-firsts : All (IsFirst grown) grown.backends
    unfolding Server.new
    added-firsts = add-All-IsFirst (pool_of w) s closed missing refl firsts

    listed-Tracks :
        (b : Backend)
        → IsFirst (pool_of w) b
        → Tracks hash config w b (a.watched (w.heap.cell b).server)
        → Tracks hash config w' b (put s fresh_watch a.watched (grown.heap.cell b).server)
    listed-Tracks b f t =
        rw (stays b f, ne_== s (w.heap.cell b).server (differs b f)) (older-Tracks b _ f t)

    new-Tracks :
        IsSane config
        → Tracks hash config w' w.heap.next
            (put s fresh_watch a.watched (grown.heap.cell w.heap.next).server)
    new-Tracks sane =
        let its = ap (λ c. c.server) stored in
        let others : All
            (λ x. (grown.heap.cell x.key).server ≢ (grown.heap.cell w.heap.next).server)
            w.health.health_state =
          All-map
            (λ x fx e'. differs x.key fx (sym its ∙ sym e' ∙ ap (λ c. c.server) (stays x.key fx)))
            w.health.health_state v.keyed in
        rw (its, ==_refl s)
          (record {
            follows = record {
              is = ap (λ c. c.state) stored;
              counts = new-Counts hash grown.heap w.heap.next _ active others;
            };
            below = omega (arith, sane.failures_two);
          })

    adds-new :
        adds a url ≡ record a { listed = a.listed ++ s ∷ []; watched = put s fresh_watch a.watched }
    unfolding adds
    adds-new =
        let there =
          mirrored-listed setting w checks a s v
          ∙ ap (λ o. elim o [ none ↦ false | some x ↦ true ]) missing in
        rw there refl

    pub added-Mirrors : IsSane config → Mirrors setting w' checks (adds a url)
    added-Mirrors sane =
        let Tracked = λ (b : Backend).
          Tracks hash config w' b (put s fresh_watch a.watched (grown.heap.cell b).server) in
        let Uncounted =
          λ (b : Backend). (grown.heap.cell b).stats ≡ record { failure = 0; success = 0 } in
        subst (Mirrors setting w' checks) (sym adds-new) (record {
          lists =
              ap (map (Backend.server grown.heap)) appended
              ∙ map-append (Backend.server grown.heap) w.pool.backends _
              ∙ rw (servers w.pool.backends firsts, v.lists)
                  (ap (λ c. a.listed ++ c.server ∷ []) stored);
          awaits = servers checks checked ∙ v.awaits;
          tracks = subst (All Tracked) (sym appended) (
              All-append Tracked w.pool.backends _
                (All-both listed-Tracks w.pool.backends firsts v.tracks) (new-Tracks sane, tt));
          keyed = older-keyed;
          calm = λ t cannot. elim (Bool-cases (s == t)) [
            | inl same ↦ rw same refl
            | inr apart ↦ rw apart (v.calm t cannot)
          ];
          uncounted = subst (All Uncounted) (sym appended) (
              All-append Uncounted w.pool.backends _
                (All-both older-stats w.pool.backends firsts v.uncounted)
                (ap (λ c. c.stats) stored, tt));
          asked = v.asked;
        })
