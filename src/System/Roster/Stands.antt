-- ===== src/System/Roster/Stands.antt =====
-- The manager (src/mgmt/mod.rs) and the specification after the same events.
use weldr.Common.{
  true, ◌≡◌, ◌≢◌, refl, ap, sym, ◌∙◌, ℕ, inl, inr, Option-cases, Option, some, String, [], All-got,
  PartialEq, get_elem?, string_partial_eq,
}
use mathlib.Core.Option
use weldr.Server
use weldr.Server.{server_eq}
use weldr.Backend
use weldr.Backend.{Backend, Heap}
use weldr.Pool.{default, find_backend}
use weldr.Health
use weldr.Health.Check.{CheckResult, run}
use weldr.Health.Watch.{IsSane}
use weldr.Manager.Publisher
use weldr.Manager.Publisher.{remove_at}
use weldr.Api.{Method}
use weldr.Api.Servers.{added}
use weldr.System.{
  ManagerProcess, Setting, world_of, commit, begin, react, Event, api, tick, answered, rpc,
}
use weldr.System.Roster.{Roster, posted_url, observe, Run, begins, turns}
use weldr.System.Roster.Mirrors.{Mirrors, Mirrors-published}
use weldr.System.Roster.Ticks.{started-Mirrors}
use weldr.System.Roster.Answers.{answered-Mirrors, get_elem?-map}
use weldr.System.Roster.Posts.{
  grown-IsClosed, grown-IsFirst, added-Mirrors, added-firsts, repeated-Mirrors, repeated-firsts,
}
use weldr.System.Turns.{ManagerInv, tick-turn, answered-turn}
use weldr.Backend.{ServerState, down}
use weldr.System.Roster.{Admits, adds, stands}
use weldr.System.Roster.Posted.{posted-added, unposted-same}

module _ {ℓ κ} {U : Type ℓ} ⦃e : PartialEq U⦄ {C : Type κ} {Chunk S : Type 0}
    (setting : Setting U Chunk S) where
  open setting use {json, text, hash, is_success, config}

  -- The manager stands for the specification, and its pool is sound.
  abbrev pub Shown : ManagerProcess U C → Roster U → Type ℓ
  Shown m a = Mirrors setting (world_of m) m.checks a × ManagerInv m

  -- One event keeps them together.
  abbrev Next : ManagerProcess U C → Roster U → Event U C Chunk S → Type ℓ
  Next m a ev = Shown (react setting m ev) (observe setting a ev)

  grown-Shown :
      (m m' : ManagerProcess U C) (a : Roster U) (url : U)
      → IsSane config
      → m' ≡ record m { mgmt = (added json text m.mgmt url).0 }
      → stands a (Server.new url true) ≢ some down
      → Shown m a
      → Shown m' (adds a url)
  grown-Shown m m' a url sane is up (v, inv) =
      let w = world_of m in
      let p = m.mgmt.pool in
      let closed = grown-IsClosed setting w m.checks a url inv.closed inv.firsts inv.checked v in
      let kept = grown-IsFirst setting w m.checks a url inv.closed inv.firsts inv.checked v in
      elim (Option-cases (find_backend p (Server.new url true))) [
        | inl missing ↦ rw is (
          added-Mirrors setting w m.checks a url inv.closed inv.firsts inv.checked v missing sane,
          record {
            closed = closed;
            firsts =
                added-firsts setting w m.checks a url inv.closed inv.firsts inv.checked v missing;
            checked = kept m.checks inv.checked;
          },
        )
        | inr (b, found) ↦ rw is (
          repeated-Mirrors setting w m.checks a url inv.closed inv.firsts inv.checked v b found up,
          record {
            closed = closed;
            firsts =
                repeated-firsts setting w m.checks a url inv.closed inv.firsts inv.checked v b found
                  up;
            checked = kept m.checks inv.checked;
          },
        )
      ]

  api-Shown :
      (m : ManagerProcess U C) (a : Roster U) (method : Method) (path : String)
      (body : Option Chunk)
      → IsSane config
      → ((url : U)
          → posted_url setting method path body ≡ some url
          → stands a (Server.new url true) ≢ some down)
      → Shown m a
      → Next m a (api method path body)
  unfolding react observe
  api-Shown m a method path body sane ok v =
      elim (Option-cases (posted_url setting method path body)) [
        | inl nothing ↦
            rw (nothing, unposted-same setting m method path body nothing, react, observe) v
        | inr (url, posted) ↦
            let (_, is) = posted-added setting m method path body url posted in
            let m' = react setting m (api method path body) in
            rw (posted, observe)
              (grown-Shown m m' a url sane (ap (λ g. record m { mgmt = g }) is) (ok url posted) v)
      ]

  tick-Shown : (m : ManagerProcess U C) (a : Roster U) → IsSane config → Shown m a → Next m a tick
  unfolding react observe commit run
  tick-Shown m a sane (v, inv) =
      let w = world_of m in
      (
        Mirrors-published setting _ [] _ _ (started-Mirrors setting w m.checks a sane inv.firsts v),
        (tick-turn setting m inv).1,
      )

  answered-Next :
      (m : ManagerProcess U C) (a : Roster U) (i : ℕ) (r : CheckResult S)
      → IsSane config
      → Mirrors setting (world_of m) m.checks a
      → ManagerInv m
      → let m' = react setting m (answered i r) in
        Mirrors setting (world_of m') m'.checks (observe {C = C} setting a (answered i r))
  unfolding react observe commit
  answered-Next m a i r sane v inv =
      let w = world_of m in
      let there' =
        ap (λ l. get_elem? l i) (sym v.awaits) ∙ get_elem?-map (Backend.server w.heap) m.checks i in
      elim (Option-cases (get_elem? m.checks i)) [
        | inl gone ↦
            let gone' = there' ∙ ap (Option.map _) gone in rw (gone, gone', react, observe) v
        | inr (b, there) ↦
            let found = there' ∙ ap (Option.map _) there in
            let first = All-got _ m.checks i b inv.checked there in
            rw (there, found, react, observe)
              (Mirrors-published setting _ [] _ _
                (answered-Mirrors setting w m.checks a i b r sane first there v inv.firsts))
      ]

  answered-Shown :
      (m : ManagerProcess U C) (a : Roster U) (i : ℕ) (r : CheckResult S)
      → IsSane config
      → Shown m a
      → Next m a (answered i r)
  answered-Shown m a i r sane (v, inv) =
      (answered-Next m a i r sane v inv, (answered-turn setting m i r inv).1)

  rpc-Shown :
      (m : ManagerProcess U C) (a : Roster U) (r : Publisher.Event C U)
      → Shown m a
      → Next m a (rpc r)
  unfolding react observe
  rpc-Shown m a r (v, inv) = (
    Mirrors-published setting (world_of m) [] m.checks a v,
    record { closed = inv.closed; firsts = inv.firsts; checked = inv.checked },
  )

  react-Shown :
      (m : ManagerProcess U C) (a : Roster U) (ev : Event U C Chunk S)
      → IsSane config
      → Admits setting a ev
      → Shown m a
      → Next m a ev
  react-Shown m a (api method path body) sane ok v = api-Shown m a method path body sane ok v
  react-Shown m a tick sane ok v = tick-Shown m a sane v
  react-Shown m a (answered i r) sane ok v = answered-Shown m a i r sane v
  react-Shown m a (rpc r) sane ok v = rpc-Shown m a r v

  pub Run-Shown :
      {m : ManagerProcess U C} {a : Roster U} → IsSane config → Run setting m a → Shown m a
  unfolding begin default Health.new
  Run-Shown sane (begins h) = (
    record {
      lists = refl;
      awaits = refl;
      tracks = tt;
      keyed = tt;
      calm = λ t cannot. refl;
      uncounted = tt;
      asked = tt;
    },
    record { closed = tt; firsts = tt; checked = tt },
  )
  Run-Shown sane (turns {m} {a} ev r ok) = react-Shown m a ev sane ok (Run-Shown sane r)
