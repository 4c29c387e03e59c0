-- ===== src/Manager/Delivery.antt =====
-- The publisher over any sequence of subscriptions, drops, publications and answers
-- (src/mgmt/manager.rs).
use weldr.Common.{
  ℕ, ◌+◌, ◌^◌, ◌≤◌, ◌<◌, ◌≡◌, refl, ap, Bool, true, false, none, some, List, [], ◌∷◌, ◌++◌, map,
  get_elem?, ltb, retain, All, All-retain, arith, inl, inr, Option-cases, length,
}
use weldr.Message.{Message}
use weldr.Manager.Publisher.{
  SubscriberHandle, Publisher, remove, subscribe, drop_subscription, send_all, publish, on_reply,
  Event, subscribes, drops, publishes, replies, step, run, new,
}
use weldr.Manager.Keys.{
  count, Distinct, Below, All-remove_at, retain-Distinct, All-modify, modify-Distinct,
}
use weldr.Manager.InFlight.{
  Counted, IsSound, new-IsSound, publish-IsSound, subscribe-IsSound, drop-IsSound, on_reply-Counted,
}

module _ {ℓ} {C : Type ℓ} where
  on_reply-Distinct :
      (idx : ℕ) (answered : Bool) (subs : List (ℕ × SubscriberHandle C))
      → Distinct subs
      → Distinct (on_reply idx answered subs)
  unfolding on_reply remove
  on_reply-Distinct idx true subs d = modify-Distinct idx _ subs d
  on_reply-Distinct idx false subs d = retain-Distinct _ subs d

  on_reply-Below :
      (idx : ℕ) (answered : Bool) (n : ℕ) (subs : List (ℕ × SubscriberHandle C))
      → Below n subs
      → Below n (on_reply idx answered subs)
  unfolding on_reply remove
  on_reply-Below idx true n subs b = All-modify (λ i. i < n) idx _ subs b
  on_reply-Below idx false n subs b = All-retain _ _ subs b

module _ {ℓ κ} {C : Type ℓ} {U : Type κ} where
  reply-IsSound :
      (p : Publisher C U) (i : ℕ) (answered : Bool)
      → IsSound p
      → IsSound (step p (replies i answered))
  unfolding step
  reply-IsSound p i answered v = elim (Option-cases (get_elem? p.pending i)) [
    | inl none_there ↦ rw (none_there, step) v
    | inr ((idx, m), got) ↦
        rw (got, step)
          record {
            distinct = on_reply-Distinct idx answered p.subscribers v.distinct;
            known = on_reply-Below idx answered p.next_id p.subscribers v.known;
            sent_to_known = All-remove_at _ p.pending i v.sent_to_known;
            counted =
                on_reply-Counted p.pending i idx m got answered p.subscribers v.distinct v.counted;
          }
  ]

  pub step-IsSound :
      (p : Publisher C U) (e : Event C U) → p.next_id + 1 < 2 ^ 64 → IsSound p → IsSound (step p e)
  unfolding step
  step-IsSound p (subscribes client) room v = subscribe-IsSound p client room v
  step-IsSound p (drops id) room v = drop-IsSound p id v
  step-IsSound p (publishes m) room v = publish-IsSound m p v
  step-IsSound p (replies i answered) room v = reply-IsSound p i answered v

  step-next_id :
      (p : Publisher C U) (e : Event C U)
      → p.next_id + 1 < 2 ^ 64
      → (step p e).next_id ≤ p.next_id + 1
  unfolding step subscribe drop_subscription publish
  step-next_id p (subscribes none) room = omega arith
  step-next_id p (subscribes (some client)) room = omega (arith, room)
  step-next_id p (drops id) room = omega arith
  step-next_id p (publishes m) room = omega arith
  step-next_id p (replies i answered) room = elim (Option-cases (get_elem? p.pending i)) [
    | inl none_there ↦ rw (none_there, step) (omega arith)
    | inr ((idx, m), got) ↦ rw (got, step) (omega arith)
  ]

  pub run-IsSound :
      (es : List (Event C U)) (p : Publisher C U)
      → p.next_id + length es < 2 ^ 64
      → IsSound p
      → IsSound (run p es)
  unfolding run
  run-IsSound [] p room v = v
  run-IsSound (e ∷ es) p room v =
      let room_now : p.next_id + 1 < 2 ^ 64 = omega (arith, room) in
      let next = step-next_id p e room_now in
      run-IsSound es (step p e) (omega (arith, room, next)) (step-IsSound p e room_now v)

  -- After any fewer than 2 ^ 64 subscriptions, drops, publications and answers, in any order, the
  -- count of each subscriber is the number of its requests that wait for their answer, and is at
  -- most five.
  pub run-Counted :
      (es : List (Event C U))
      → length es < 2 ^ 64
      → All (Counted (run new es).pending) (run new es).subscribers
  unfolding new
  run-Counted es room = (run-IsSound es new (omega (arith, room)) new-IsSound).counted

  -- The request to each subscriber that has fewer than five.
  unfoldable pub requests_to :
      Message U → List (ℕ × Message U) → List (ℕ × SubscriberHandle C) → List (ℕ × Message U)
  requests_to m pending subs = map (λ e. (e.0, m)) (retain (λ e. ltb (count e.0 pending) 5) subs)

  sent-requests_to :
      (m : Message U) (pending : List (ℕ × Message U)) (subs : List (ℕ × SubscriberHandle C))
      → All (Counted pending) subs
      → (send_all m subs).1 ≡ requests_to m pending subs
  unfolding send_all requests_to
  sent-requests_to m pending [] c = refl
  sent-requests_to m pending ((j, s) ∷ subs) c =
      ground (arith, c.0, sent-requests_to m pending subs c.1)

  -- After any fewer than 2 ^ 64 such events, a publication sends one request to each subscriber
  -- that has fewer than five without an answer, and none to another.
  pub publish-requests_to :
      (es : List (Event C U)) (m : Message U)
      → length es < 2 ^ 64
      → (publish m (run new es)).pending
        ≡ (run new es).pending ++ requests_to m (run new es).pending (run new es).subscribers
  unfolding publish
  publish-requests_to es m room =
      ap (λ sent. (run new es).pending ++ sent)
        (sent-requests_to m (run new es).pending (run new es).subscribers (run-Counted es room))
