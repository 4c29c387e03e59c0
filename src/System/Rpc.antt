-- ===== src/System/Rpc.antt =====
-- What comes to the publisher over RPC (src/mgmt/manager.rs), as the subscriber `k` sees it.
use weldr.Common.{
  ℕ, zero, suc, ◌≤◌, ◌≡◌, refl, ◌∙◌, Bool, true, false, not, ◌||◌, none, some, List, [], ◌∷◌,
  get_elem?, arith, nat_beq, Option-cases, inl, inr, length,
}
use weldr.Manager.Publisher.{
  SubscriberHandle, Publisher, insert, remove, modify, remove_at, on_reply, subscribe,
  drop_subscription, step, Event, subscribes, drops, publishes, replies,
}
use weldr.System.Channel.{has}
use weldr.System.{spares}

module _ {ℓ} {V : Type ℓ} where
  has-insert :
      (k i : ℕ) (v : V) (subs : List (ℕ × V)) → has k subs ≡ true → has k (insert i v subs) ≡ true
  unfolding insert
  has-insert k i v [] h = cc
  has-insert k i v ((j, w) ∷ subs) h = ground (arith, has-insert k i v subs)

  has-insert_self : (k : ℕ) (v : V) (subs : List (ℕ × V)) → has k (insert k v subs) ≡ true
  unfolding insert
  has-insert_self k v [] = ground arith
  has-insert_self k v ((j, w) ∷ subs) = ground (arith, has-insert_self k v subs)

  has-modify : (k i : ℕ) (f : V → V) (subs : List (ℕ × V)) → has k (modify i f subs) ≡ has k subs
  unfolding modify
  has-modify k i f [] = refl
  has-modify k i f ((j, w) ∷ subs) = ground (arith, has-modify k i f subs)

  has-remove :
      (k i : ℕ) (subs : List (ℕ × V))
      → nat_beq i k ≡ false
      → has k subs ≡ true
      → has k (remove i subs) ≡ true
  unfolding remove
  has-remove k i [] other h = cc
  has-remove k i ((j, w) ∷ subs) other h = ground (arith, has-remove k i subs other)

  length-remove_at : (xs : List V) (i : ℕ) → length (remove_at xs i) ≤ length xs
  unfolding remove_at
  length-remove_at [] i = omega arith
  length-remove_at (x ∷ xs) zero = omega arith
  length-remove_at (x ∷ xs) (suc i) = omega (arith, length-remove_at xs i)

module _ {ℓ} {C : Type ℓ} where
  has-on_reply :
      (k i : ℕ) (fine : Bool) (subs : List (ℕ × SubscriberHandle C))
      → (fine || not (nat_beq i k)) ≡ true
      → has k subs ≡ true
      → has k (on_reply i fine subs) ≡ true
  unfolding on_reply
  has-on_reply k i true subs ok h = has-modify k i _ subs ∙ h
  has-on_reply k i false subs ok h = has-remove k i subs (ground (arith, ok)) h

module _ {ℓ κ} {C : Type ℓ} {U : Type κ} where
  -- A subscriber that is spared stays, and is sent nothing.
  pub step-spares :
      (k : ℕ) (p : Publisher C U) (ev : Event C U)
      → spares k p ev ≡ true
      → has k p.subscribers ≡ true
      → (has k (step p ev).subscribers ≡ true) × (length (step p ev).pending ≤ length p.pending)
  unfolding step spares subscribe drop_subscription
  step-spares k p (subscribes none) ok h = (h, omega arith)
  step-spares k p (subscribes (some client)) ok h =
      (has-insert k p.next_id _ p.subscribers h, omega arith)
  step-spares k p (drops i) ok h =
      (has-remove k i p.subscribers (ground (arith, ok)) h, omega arith)
  step-spares k p (publishes m) ok h = cc
  step-spares k p (replies i fine) ok h = elim (Option-cases (get_elem? p.pending i)) [
    | inl gone ↦ rw (gone, step) (h, omega arith)
    | inr ((j, m), got) ↦
        let its : (fine || not (nat_beq j k)) ≡ true = rw (got, spares) at ok in
        rw (got, step) (has-on_reply k j fine p.subscribers its h, length-remove_at p.pending i)
  ]

  -- Who subscribes, is a subscriber then.
  pub subscribe-has :
      (p : Publisher C U) (client : C)
      → has p.next_id (subscribe p (some client)).subscribers ≡ true
  unfolding subscribe
  subscribe-has p client = has-insert_self p.next_id _ p.subscribers
