-- ===== src/System/Alone.antt =====
-- The manager's turns (src/mgmt/mod.rs), whoever has subscribed.
use weldr.Common.{◌+◌, ◌^◌, ◌<◌, refl, PartialEq}
use weldr.Pool.{default}
use weldr.Manager.Publisher
use weldr.Manager.Publisher.{step}
use weldr.Manager.Delivery.{step-IsSound}
use weldr.Manager.InFlight.{IsSound, new-IsSound}
use weldr.System.Channel.{publish_all-IsSound}
use weldr.System.Turns.{ManagerInv, Published, tick-turn, answered-turn}
use weldr.System.Posts.{api-turn}
use weldr.System.{
  ManagerProcess, Setting, react, Event, api, tick, answered, rpc, begin, Allowed, Managed, begins,
  turns,
}

module _ {ℓ κ} {U : Type ℓ} ⦃e : PartialEq U⦄ {C : Type κ} where
  -- The manager's pool, and its publisher, are sound.
  pub record AloneInv (m : ManagerProcess U C) : Type (ℓ ⊔ κ) where
    pub manager_inv : ManagerInv m
    pub sound : IsSound m.mgmt.manager.publisher

  Published-AloneInv :
      (m m' : ManagerProcess U C) → Published m m' × ManagerInv m' → AloneInv m → AloneInv m'
  Published-AloneInv m m' ((ms, said, told, new), inv) v = record {
    manager_inv = inv;
    sound = rw said (publish_all-IsSound ms m.mgmt.manager.publisher v.sound);
  }

  module _ {Chunk S : Type 0} (setting : Setting U Chunk S) where
    pub rpc-AloneInv :
        (m : ManagerProcess U C) (r : Publisher.Event C U)
        → m.mgmt.manager.publisher.next_id + 1 < 2 ^ 64
        → AloneInv m
        → AloneInv (react setting m (rpc r))
    unfolding react
    rpc-AloneInv m r ids_left v = record {
      manager_inv = record {
        closed = v.manager_inv.closed;
        firsts = v.manager_inv.firsts;
        checked = v.manager_inv.checked;
      };
      sound = step-IsSound m.mgmt.manager.publisher r ids_left v.sound;
    }

    react-AloneInv :
        (m : ManagerProcess U C) (ev : Event U C Chunk S)
        → Allowed setting m ev
        → AloneInv m
        → AloneInv (react setting m ev)
    react-AloneInv m (api method path body) ok v =
        Published-AloneInv m _
          (api-turn setting m method path body (λ url. ok.unlisted method path body url refl)
            v.manager_inv)
          v
    react-AloneInv m tick ok v = Published-AloneInv m _ (tick-turn setting m v.manager_inv) v
    react-AloneInv m (answered i r) ok v =
        Published-AloneInv m _ (answered-turn setting m i r v.manager_inv) v
    react-AloneInv m (rpc r) ok v = rpc-AloneInv m r ok.ids_left v

    pub Managed-AloneInv : {m : ManagerProcess U C} → Managed setting m → AloneInv m
    unfolding begin default
    Managed-AloneInv (begins h) = record {
      manager_inv = record { closed = tt; firsts = tt; checked = tt };
      sound = new-IsSound;
    }
    Managed-AloneInv (turns {m} ev r ok) = react-AloneInv m ev ok (Managed-AloneInv r)
