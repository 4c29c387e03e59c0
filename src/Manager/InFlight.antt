-- ===== src/Manager/InFlight.antt =====
-- The count `requests_in_flight` of each subscriber (src/mgmt/manager.rs).
use weldr.Common.{
  ℕ, ◌+◌, ◌^◌, ◌≤◌, ◌<◌, ◌≡◌, ◌≢◌, refl, sym, Bool, true, false, Option, none, some, List, [], ◌∷◌,
  ◌++◌, get_elem?, nat_beq, All, All-map, All-append, All-retain, All-zip, arith, Bool-cases, inl,
  inr,
}
use weldr.Stats.{add_one_64}
use weldr.Message.{Message}
use weldr.Manager.Keys.{
  count, Fresh, Distinct, Below, count-append, count-Below, count-remove_at, insert-Fresh,
  Below-Fresh, append-Distinct, retain-Distinct,
}
use weldr.Manager.Publisher.{
  SubscriberHandle, Publisher, remove, modify, remove_at, subscribe, drop_subscription, send_all,
  publish, on_reply, new, dec_i32, below_five,
}

module _ {ℓ κ} {C : Type ℓ} {U : Type κ} where
  -- The count of an entry is the number of its requests that wait for an answer, at most five.
  abbrev pub Counted : List (ℕ × Message U) → ℕ × SubscriberHandle C → Type 0
  Counted pending (id, s) = (s.requests_in_flight ≡ count id pending) × (s.requests_in_flight ≤ 5)

  pub record IsSound (p : Publisher C U) : Type 0 where
    pub distinct : Distinct p.subscribers
    pub known : Below p.next_id p.subscribers
    pub sent_to_known : Below p.next_id p.pending
    pub counted : All (Counted p.pending) p.subscribers

  pub new-IsSound : IsSound new
  unfolding new
  new-IsSound = record { distinct = tt; known = tt; sent_to_known = tt; counted = tt }

  -- Requests are sent once to each entry below five, which counts it.
  send_all-keys :
      (m : Message U) (subs : List (ℕ × SubscriberHandle C)) (k : ℕ)
      → Fresh k subs
      → Fresh k (send_all m subs).0
  unfolding send_all
  send_all-keys m [] k f = tt
  send_all-keys m ((j, s) ∷ subs) k f = ground (arith, f.0, send_all-keys m subs k f.1)

  send_all-Distinct :
      (m : Message U) (subs : List (ℕ × SubscriberHandle C))
      → Distinct subs
      → Distinct (send_all m subs).0
  unfolding send_all
  send_all-Distinct m [] d = tt
  send_all-Distinct m ((j, s) ∷ subs) d =
      ground (arith, send_all-keys m subs j d.0, send_all-Distinct m subs d.1)

  send_all-Below :
      (m : Message U) (subs : List (ℕ × SubscriberHandle C)) (n : ℕ)
      → Below n subs
      → Below n (send_all m subs).0 × Below n (send_all m subs).1
  unfolding send_all
  send_all-Below m [] n b = (tt, tt)
  send_all-Below m ((j, s) ∷ subs) n b = ground (arith, send_all-Below m subs n b.1)

  pub sent-Fresh :
      (m : Message U) (subs : List (ℕ × SubscriberHandle C)) (k : ℕ)
      → Fresh k subs
      → count k (send_all m subs).1 ≡ 0
  unfolding send_all count
  sent-Fresh m [] k f = refl
  sent-Fresh m ((j, s) ∷ subs) k f = ground (arith, f.0, sent-Fresh m subs k f.1)

  -- A request to `j` is none of the others'.
  other-request :
      (j : ℕ) (m : Message U) (pending sent : List (ℕ × Message U)) (e : ℕ × SubscriberHandle C)
      → (e.0 ≢ j) × Counted (pending ++ sent) e
      → Counted (pending ++ (j, m) ∷ sent) e
  unfolding count
  other-request j m pending sent (k, s) (ne, counts) =
      ground (arith, count-append k pending sent, count-append k pending ((j, m) ∷ sent))

  send_all-Counted :
      (m : Message U) (pending : List (ℕ × Message U)) (subs : List (ℕ × SubscriberHandle C))
      → Distinct subs
      → All (Counted pending) subs
      → All (Counted (pending ++ (send_all m subs).1)) (send_all m subs).0
  unfolding send_all count
  send_all-Counted m pending [] d c = tt
  send_all-Counted m pending ((j, s) ∷ subs) d c =
      let quiet = sent-Fresh m subs j d.0 in
      let sum = count-append j pending (send_all m subs).1 in
      let sum2 = count-append j pending ((j, m) ∷ (send_all m subs).1) in
      let ih = send_all-Counted m pending subs d.1 c.1 in
      let keys = send_all-keys m subs j d.0 in
      let others : All (Counted (pending ++ (j, m) ∷ (send_all m subs).1)) (send_all m subs).0 =
        All-map (λ e. other-request j m pending (send_all m subs).1 e) _ (All-zip _ _ _ keys ih) in
      elim (Bool-cases (below_five s.requests_in_flight)) [
        | inl room ↦ rw room (ground (arith, c.0, quiet, sum2), others)
        | inr full ↦ rw full (ground (arith, c.0, quiet, sum), ih)
      ]

  pub publish-IsSound : (m : Message U) (p : Publisher C U) → IsSound p → IsSound (publish m p)
  unfolding publish
  publish-IsSound m p v = record {
    distinct = send_all-Distinct m p.subscribers v.distinct;
    known = (send_all-Below m p.subscribers p.next_id v.known).0;
    sent_to_known =
        All-append _ p.pending _ v.sent_to_known
          (send_all-Below m p.subscribers p.next_id v.known).1;
    counted = send_all-Counted m p.pending p.subscribers v.distinct v.counted;
  }

  pub subscribe-IsSound :
      (p : Publisher C U) (client : Option C)
      → p.next_id + 1 < 2 ^ 64
      → IsSound p
      → IsSound (subscribe p client)
  unfolding subscribe
  subscribe-IsSound p none room v = v
  subscribe-IsSound p (some client) room v =
      let id = p.next_id in
      let handle : SubscriberHandle C = record { client = client; requests_in_flight = 0 } in
      let fresh = Below-Fresh id p.subscribers v.known in
      let next : add_one_64 id ≡ id + 1 = omega (arith, room) in
      rw (next, insert-Fresh id handle p.subscribers fresh)
        (record {
          distinct = append-Distinct id handle p.subscribers v.distinct fresh;
          known =
              All-append _ p.subscribers _ (All-map (λ e l. omega (arith, l)) p.subscribers v.known)
                (omega arith, tt);
          sent_to_known = All-map (λ e l. omega (arith, l)) p.pending v.sent_to_known;
          counted =
              All-append _ p.subscribers _ v.counted (
                (sym (count-Below id id p.pending v.sent_to_known (omega arith)), omega arith),
                tt,
              );
        })

  pub drop-IsSound : (p : Publisher C U) (id : ℕ) → IsSound p → IsSound (drop_subscription p id)
  unfolding drop_subscription remove
  drop-IsSound p id v = record {
    distinct = retain-Distinct _ p.subscribers v.distinct;
    known = All-retain _ _ p.subscribers v.known;
    sent_to_known = v.sent_to_known;
    counted = All-retain _ _ p.subscribers v.counted;
  }

  -- An answer takes one request from those that wait.
  other-answer :
      (pending : List (ℕ × Message U)) (i idx : ℕ) (m : Message U) (e : ℕ × SubscriberHandle C)
      → get_elem? pending i ≡ some (idx, m)
      → (e.0 ≢ idx) × Counted pending e
      → Counted (remove_at pending i) e
  other-answer pending i idx m (k, s) got (ne, counts) =
      ground (arith, count-remove_at k pending i idx m got)

  own-answer :
      (pending : List (ℕ × Message U)) (i idx j : ℕ) (m : Message U) (s : SubscriberHandle C)
      → get_elem? pending i ≡ some (idx, m)
      → j ≡ idx
      → Counted pending (j, s)
      → Counted
          (remove_at pending i)
          (j, record s { requests_in_flight = dec_i32 s.requests_in_flight })
  own-answer pending i idx j m s got same counts =
      ground (arith, count-remove_at j pending i idx m got)

  module _ (pending : List (ℕ × Message U)) (i idx : ℕ) (m : Message U)
      (got : get_elem? pending i ≡ some (idx, m)) where
    pub on_reply-Counted :
        (answered : Bool) (subs : List (ℕ × SubscriberHandle C))
        → Distinct subs
        → All (Counted pending) subs
        → All (Counted (remove_at pending i)) (on_reply idx answered subs)
    unfolding on_reply modify remove
    on_reply-Counted true [] d c = tt
    on_reply-Counted false [] d c = tt
    on_reply-Counted true ((j, s) ∷ subs) d c = elim (Bool-cases (nat_beq j idx)) [
      | inl same ↦ rw same (
        own-answer pending i idx j m s got (ground (arith, same)) c.0,
        All-map
            (λ e (ne, counts).
              other-answer pending i idx m e got (ground (arith, ne, same), counts))
            _ (All-zip _ _ _ d.0 c.1),
      )
      | inr other ↦ rw other (
        other-answer pending i idx m (j, s) got (ground (arith, other), c.0),
        on_reply-Counted true subs d.1 c.1,
      )
    ]
    on_reply-Counted false ((j, s) ∷ subs) d c = elim (Bool-cases (nat_beq j idx)) [
      | inl same ↦ rw same (on_reply-Counted false subs d.1 c.1)
      | inr other ↦ rw other (
        other-answer pending i idx m (j, s) got (ground (arith, other), c.0),
        on_reply-Counted false subs d.1 c.1,
      )
    ]
