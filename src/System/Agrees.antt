-- ===== src/System/Agrees.antt =====
-- The manager (src/mgmt/mod.rs) and a worker (src/mgmt/worker.rs), whatever the order of their steps.
use weldr.Common.{List, arith, some, ◌+◌, ◌<◌, ◌≡◌, refl, ap, sym, subst, ◌∙◌, ◌^◌, Bool, PartialEq}
use mathlib.Core.Path.{fun_ext}
use weldr.Server.{Server, server_eq}
use weldr.Pool.{Pool, find_backend, default}
use weldr.Manager.Publisher.{subscribes}
use weldr.Worker.Status.{status, handle, announced_all, handle-announced}
use weldr.System.Additions.{AddsNew}
use weldr.System.Sound.{WorkerInv, handle-WorkerInv, request-WorkerInv, on_answer-WorkerInv}
use weldr.System.Turns.{tick-turn, answered-turn}
use weldr.System.Posts.{api-turn}
use weldr.System.Rpc.{subscribe-has}
use weldr.System.Joined.{heard, heard_same}
use weldr.System.Heard.{Inv, Published-Inv, rpc-Inv}
use weldr.System.Alone.{AloneInv, rpc-AloneInv, Managed-AloneInv}
use weldr.Backend.{Heap}
use weldr.System.Sides.{receive-handle, request-status, on_answer-status, IsReadable, ok-injective}
use weldr.Message.{Message}
use weldr.System.Node.{WorkerStep, handles, requests, completes}
use weldr.System.{
  ManagerProcess, Setting, react, Event, api, tick, answered, rpc, System, advance, Allowed, Holds,
  enter, Step, works, manages, Reach, start, next,
}

module _ {ℓ κ} {U : Type ℓ} ⦃e : PartialEq U⦄ {C : Type κ} {Chunk S A : Type 0}
    (setting : Setting U Chunk S) (is_server_error : A → Bool) (joined : Pool U) where
  advance-Inv :
      (s : System U C) (ev : Event U C Chunk S)
      → Allowed setting s.manager ev
      → Holds setting s.manager s.id ev
      → Inv joined s
      → Inv joined (advance setting s ev)
  unfolding advance react
  advance-Inv s (api method path body) allowed holds v =
      Published-Inv joined s (react setting s.manager (api method path body)) holds.room
        (api-turn setting s.manager method path body
          (λ url. allowed.unlisted method path body url refl) v.manager_inv)
        v
  advance-Inv s tick allowed holds v =
      Published-Inv joined s (react setting s.manager tick) holds.room
        (tick-turn setting s.manager v.manager_inv) v
  advance-Inv s (answered i r) allowed holds v =
      Published-Inv joined s (react setting s.manager (answered i r)) holds.room
        (answered-turn setting s.manager i r v.manager_inv) v
  advance-Inv s (rpc r) allowed holds v =
      rpc-Inv joined s (react setting s.manager (rpc r)) r refl allowed.ids_left
        (holds.stays r refl) v

  works-Inv :
      (s : System U C) {q : Pool U} {rest : List (Message U)}
      → IsReadable setting.text
      → WorkerStep setting.text is_server_error s.worker s.todo q rest
      → Inv joined s
      → Inv joined (record s { worker = q; todo = rest })
  unfolding announced_all
  works-Inv s back (handles m rest {q} front room got) v =
      let is : handle s.worker m ≡ q =
        ok-injective (sym (receive-handle setting.text s.worker m back) ∙ got) in
      let told = λ (t : Server U). handle-announced s.worker m t v.worker_inv.closed in
      let (new, later) = subst (AddsNew (status s.worker)) front v.adds in
      record {
        manager_inv = v.manager_inv;
        sound = v.sound;
        subscribed = v.subscribed;
        known = v.known;
        worker_inv = subst WorkerInv is (handle-WorkerInv s.worker m room new v.worker_inv);
        adds =
            subst (λ d. AddsNew d rest) (fun_ext λ t. sym (told t) ∙ ap (λ p. status p t) is) later;
        agree = λ t.
            ap (λ p. announced_all (status p) rest t) (sym is)
            ∙ ap (λ d. announced_all d rest t) (fun_ext told)
            ∙ ap (λ ms. announced_all (status s.worker) ms t) (sym front)
            ∙ v.agree t;
      }
  works-Inv s back (requests fuel {d} {q} e) v = record {
    manager_inv = v.manager_inv;
    sound = v.sound;
    subscribed = v.subscribed;
    known = v.known;
    worker_inv = request-WorkerInv fuel s.worker q d e v.worker_inv;
    adds =
        subst (λ f. AddsNew f s.todo) (sym (fun_ext λ u. request-status fuel s.worker q d u e))
          v.adds;
    agree = λ t.
        ap (λ f. announced_all f s.todo t) (fun_ext λ u. request-status fuel s.worker q d u e)
        ∙ v.agree t;
  }
  works-Inv s back (completes b a) v = record {
    manager_inv = v.manager_inv;
    sound = v.sound;
    subscribed = v.subscribed;
    known = v.known;
    worker_inv = on_answer-WorkerInv is_server_error s.worker b a v.worker_inv;
    adds =
        subst (λ f. AddsNew f s.todo)
          (sym (fun_ext λ u. on_answer-status is_server_error s.worker b a u)) v.adds;
    agree = λ t.
        ap (λ f. announced_all f s.todo t)
          (fun_ext λ u. on_answer-status is_server_error s.worker b a u)
        ∙ v.agree t;
  }

  Step-Inv :
      {s t : System U C}
      → IsReadable setting.text
      → Step setting is_server_error s t
      → Inv joined s
      → Inv joined t
  Step-Inv {s} back (manages ev allowed holds) v = advance-Inv s ev allowed holds v
  Step-Inv {s} back (works st) v = works-Inv s back st v

  enter-Inv :
      (m : ManagerProcess U C) (client : C) (h : Heap U)
      → m.mgmt.pool ≡ joined
      → m.mgmt.manager.publisher.next_id + 1 < 2 ^ 64
      → AloneInv m
      → Inv joined (enter setting m client h)
  unfolding enter react default announced_all find_backend
  enter-Inv m client h listed ids_left v =
      let w = rpc-AloneInv setting m (subscribes (some client)) ids_left v in
      record {
        manager_inv = w.manager_inv;
        sound = w.sound;
        subscribed = subscribe-has m.mgmt.manager.publisher client;
        worker_inv = record {
          valid = record { fits = omega arith; in_range = omega arith };
          closed = tt;
          firsts = tt;
        };
        adds = tt;
        known = λ t missing. ap (λ p. status p t) (sym listed) ∙ missing;
        agree = λ t.
            sym (heard_same (status m.mgmt.pool t))
            ∙ ap (λ p. heard (status p t) (status m.mgmt.pool t)) listed;
      }

  pub Reach-Inv :
      {s : System U C}
      → IsReadable setting.text
      → Reach setting is_server_error joined s
      → Inv joined s
  Reach-Inv back (start m client h listed r ids_left) =
      enter-Inv m client h listed ids_left (Managed-AloneInv setting r)
  Reach-Inv back (next r st) = Step-Inv back st (Reach-Inv back r)

  -- If the text of a URL parses as that URL, then in every state that a manager reaches from its
  -- start and a worker from its subscription at any time, by requests to the API, ticks, answers to
  -- checks, what comes over RPC, requests of clients and their answers in any order, while no
  -- listed server is posted again, numbers for subscribers are left, the worker lists fewer than 2
  -- ^ 60 backends, its subscription stays, and it has fewer than five requests without an answer:
  -- once the requests sent to the worker are handled, its pool says nothing of the servers that
  -- were listed when it subscribed, and of every other server what the manager's pool says.
  pub Reach-agrees :
      {s : System U C}
      → IsReadable setting.text
      → Reach setting is_server_error joined s
      → (t : Server U)
      → announced_all (status s.worker) s.todo t
        ≡ heard (status joined t) (status s.manager.mgmt.pool t)
  Reach-agrees back r = (Reach-Inv back r).agree
