-- ===== src/System/Heard.antt =====
-- What holds between the manager (src/mgmt/mod.rs) and a worker (src/mgmt/worker.rs), and that the
-- manager's turns keep it.
use weldr.Common.{
  ◌+◌, ◌<◌, ◌≡◌, ap, sym, subst, ◌∙◌, true, ◌^◌, ◌++◌, append-nil, PartialEq, length, drop,
}
use mathlib.Core.Path.{fun_ext}
use weldr.Server.{Server, server_eq}
use weldr.Pool.{Pool}
use weldr.Manager.Publisher
use weldr.Manager.Publisher.{step, subscribes}
use weldr.Manager.Delivery.{step-IsSound}
use weldr.Manager.InFlight.{IsSound}
use weldr.Manager.Keys.{count}
use weldr.Worker.Status.{status, announced_all}
use weldr.Agreement.{announced_all-append}
use weldr.System.Channel.{to, has, publish_all-to, drop_short}
use weldr.System.Additions.{AddsNew, append-AddsNew}
use weldr.System.Sound.{WorkerInv}
use weldr.System.Turns.{ManagerInv, Published}
use weldr.System.Rpc.{step-spares}
use weldr.System.Joined.{heard, Keeps, Keeps-announced_all, heard-announced_all, heard-AddsNew}
use weldr.System.{ManagerProcess, spares, System}

module _ {ℓ κ} {U : Type ℓ} ⦃e : PartialEq U⦄ {C : Type κ} (joined : Pool U) where
  -- The pools are sound, the subscription holds, and what the worker's pool says of each server is
  -- what the manager's says, once what is under way has come, unless the server was listed when the
  -- worker subscribed.
  pub record Inv (s : System U C) : Type (ℓ ⊔ κ) where
    pub manager_inv : ManagerInv s.manager
    pub sound : IsSound s.manager.mgmt.manager.publisher
    pub subscribed : has s.id s.manager.mgmt.manager.publisher.subscribers ≡ true
    pub worker_inv : WorkerInv s.worker
    pub adds : AddsNew (status s.worker) s.todo
    pub known : Keeps (status joined) (status s.manager.mgmt.pool)
    pub agree :
        (t : Server U)
        → announced_all (status s.worker) s.todo t
          ≡ heard (status joined t) (status s.manager.mgmt.pool t)

  -- A turn of the manager that publishes what it does.
  pub Published-Inv :
      (s : System U C) (m : ManagerProcess U C)
      → count s.id m.mgmt.manager.publisher.pending < 5
      → Published s.manager m × ManagerInv m
      → Inv s
      → Inv (record s {
        manager = m;
        todo =
            s.todo
            ++ to s.id (
                drop
                  (length s.manager.mgmt.manager.publisher.pending)
                  m.mgmt.manager.publisher.pending);
      })
  Published-Inv s m room ((ms, said, told, new), inv) v =
      let p = s.manager.mgmt.manager.publisher in
      let (sent, sound, stays) = publish_all-to s.id ms p v.sound v.subscribed (rw said at room) in
      let old = status s.manager.mgmt.pool in
      record {
        manager_inv = inv;
        sound = rw said sound;
        subscribed = rw said stays;
        worker_inv = v.worker_inv;
        adds =
            rw (said, sent)
              (append-AddsNew (status s.worker) s.todo ms v.adds (
                subst (λ d. AddsNew d ms) (sym (fun_ext v.agree))
                  (heard-AddsNew (status joined) old ms new v.known)));
        known =
            subst (Keeps (status joined)) (sym (fun_ext told))
              (Keeps-announced_all (status joined) old ms v.known);
        agree = λ t.
            rw (said, sent)
              (announced_all-append (status s.worker) s.todo ms t
                ∙ ap (λ d. announced_all d ms t) (fun_ext v.agree)
                ∙ heard-announced_all (status joined) old ms new v.known t
                ∙ ap (heard (status joined t)) (sym (told t)));
      }

  pub rpc-Inv :
      (s : System U C) (m : ManagerProcess U C) (r : Publisher.Event C U)
      → m ≡ record s.manager {
        mgmt = record s.manager.mgmt {
          manager = record s.manager.mgmt.manager {
            publisher = step s.manager.mgmt.manager.publisher r;
          };
        };
      }
      → s.manager.mgmt.manager.publisher.next_id + 1 < 2 ^ 64
      → spares s.id s.manager.mgmt.manager.publisher r ≡ true
      → Inv s
      → Inv (record s {
        manager = m;
        todo =
            s.todo
            ++ to s.id (
                drop
                  (length s.manager.mgmt.manager.publisher.pending)
                  m.mgmt.manager.publisher.pending);
      })
  unfolding to
  rpc-Inv s m r is ids_left spared v =
      let p = s.manager.mgmt.manager.publisher in
      let (stays, shorter) = step-spares s.id p r spared v.subscribed in
      let none_sent = drop_short (length p.pending) (step p r).pending shorter in
      rw is (record {
        manager_inv = record {
          closed = v.manager_inv.closed;
          firsts = v.manager_inv.firsts;
          checked = v.manager_inv.checked;
        };
        sound = step-IsSound p r ids_left v.sound;
        subscribed = stays;
        worker_inv = v.worker_inv;
        adds = rw (none_sent, append-nil s.todo) v.adds;
        known = v.known;
        agree = λ t. rw (none_sent, append-nil s.todo) (v.agree t);
      })
