-- ===== src/Manager/Publisher.antt =====
-- The module `capnp` of src/mgmt/manager.rs: who has subscribed, and the requests under way. A
-- subscriber's client is the RPC library's, a parameter `C`; the map is the list of its entries. An
-- answer to a request comes later, in any order; `pending` holds the requests that wait for theirs.
-- An `i32` is its bit pattern.
use weldr.Common.{
  ℕ, zero, suc, ◌+◌, ◌-◌, ◌%◌, ◌^◌, Bool, true, false, not, ◌||◌, Option, none, some, List, [], ◌∷◌,
  ◌++◌, get_elem?, if◌then◌else◌, ltb, leb, nat_beq, retain,
}
use weldr.Stats.{add_one_64}
use weldr.Message.{Message, add_server, mark_server_down, mark_server_active}

-- `x += 1`, `x -= 1` and `x < 5` on an `i32`
abbrev pub inc_i32 : ℕ → ℕ
inc_i32 x = (x + 1) % 2 ^ 32

abbrev pub dec_i32 : ℕ → ℕ
dec_i32 x = (x + (2 ^ 32 - 1)) % 2 ^ 32

abbrev pub below_five : ℕ → Bool
below_five x = ltb x 5 || leb (2 ^ 31) x

pub record SubscriberHandle {ℓ} (C : Type ℓ) : Type ℓ where
  pub client : C
  pub requests_in_flight : ℕ

module _ {ℓ} {V : Type ℓ} where
  -- `HashMap::insert`
  unfoldable pub insert : ℕ → V → List (ℕ × V) → List (ℕ × V)
  insert k v [] = (k, v) ∷ []
  insert k v ((j, w) ∷ m) = if nat_beq j k then (k, v) ∷ m else (j, w) ∷ insert k v m

  -- `HashMap::remove`
  unfoldable pub remove : ℕ → List (ℕ × V) → List (ℕ × V)
  remove k = retain (λ e. not (nat_beq e.0 k))

  -- `HashMap::get_mut`, and a change of what it gives
  unfoldable pub modify : ℕ → (V → V) → List (ℕ × V) → List (ℕ × V)
  modify k f [] = []
  modify k f ((j, v) ∷ m) = if nat_beq j k then (j, f v) ∷ m else (j, v) ∷ modify k f m

  -- The list without its element at an index.
  unfoldable pub remove_at : List V → ℕ → List V
  remove_at [] i = []
  remove_at (x ∷ xs) zero = xs
  remove_at (x ∷ xs) (suc i) = x ∷ remove_at xs i

module _ {ℓ} {C : Type ℓ} where
  -- The closure behind `then`, for a request to `idx` that is answered, or fails.
  unfoldable pub on_reply : ℕ → Bool → List (ℕ × SubscriberHandle C) → List (ℕ × SubscriberHandle C)
  unfolding modify remove
  on_reply idx true subs =
      modify idx (λ s. record s { requests_in_flight = dec_i32 s.requests_in_flight }) subs
  on_reply idx false subs = remove idx subs

-- What happens to the publisher, one thing at a time: the reply is to the request at an index.
pub data Event {ℓ κ} (C : Type ℓ) (U : Type κ) : Type (ℓ ⊔ κ) where
  subscribes : Option C → Event C U
  drops : ℕ → Event C U
  publishes : Message U → Event C U
  replies : ℕ → Bool → Event C U

-- `PublisherImpl` and what it shares with the subscriptions and the closures.
pub record Publisher {ℓ κ} (C : Type ℓ) (U : Type κ) : Type (ℓ ⊔ κ) where
  pub next_id : ℕ
  pub subscribers : List (ℕ × SubscriberHandle C)
  pub pending : List (ℕ × Message U)

module _ {ℓ κ} {C : Type ℓ} {U : Type κ} where
  -- `PublisherImpl::new(SubscriberMap::new())`
  unfoldable pub new : Publisher C U
  new = record { next_id = 0; subscribers = []; pending = [] }

  -- `subscribe`; reading the subscriber from the request may fail.
  unfoldable pub subscribe : Publisher C U → Option C → Publisher C U
  unfolding insert
  subscribe p none = p
  subscribe p (some client) = record p {
    next_id = add_one_64 p.next_id;
    subscribers =
        insert p.next_id (record { client = client; requests_in_flight = 0 }) p.subscribers;
  }

  -- `drop` of the `SubscriptionImpl` of a subscriber
  unfoldable pub drop_subscription : Publisher C U → ℕ → Publisher C U
  unfolding remove
  drop_subscription p id = record p { subscribers = remove id p.subscribers }

  -- The loop of the three functions below: the entries after it, and the requests sent.
  unfoldable pub send_all :
      Message U
      → List (ℕ × SubscriberHandle C)
      → List (ℕ × SubscriberHandle C) × List (ℕ × Message U)
  send_all m [] = ([], [])
  send_all m ((idx, s) ∷ rest) =
      let (subs, sent) = send_all m rest in
      if below_five s.requests_in_flight
      then (
        (idx, record s { requests_in_flight = inc_i32 s.requests_in_flight }) ∷ subs,
        (idx, m) ∷ sent,
      )
      else ((idx, s) ∷ subs, sent)

  unfoldable pub publish : Message U → Publisher C U → Publisher C U
  unfolding send_all
  publish m p =
      let (subs, sent) = send_all m p.subscribers in
      record p { subscribers = subs; pending = p.pending ++ sent }

  unfoldable pub publish_new_server : U → Publisher C U → Publisher C U
  unfolding publish
  publish_new_server url = publish (add_server url)

  unfoldable pub publish_server_state_down : U → Publisher C U → Publisher C U
  unfolding publish
  publish_server_state_down url = publish (mark_server_down url)

  unfoldable pub publish_server_state_active : U → Publisher C U → Publisher C U
  unfolding publish
  publish_server_state_active url = publish (mark_server_active url)

  unfoldable pub step : Publisher C U → Event C U → Publisher C U
  unfolding subscribe drop_subscription publish on_reply remove_at
  step p (subscribes client) = subscribe p client
  step p (drops id) = drop_subscription p id
  step p (publishes m) = publish m p
  step p (replies i answered) = elim (get_elem? p.pending i) [
    | none ↦ p
    | some (idx, _) ↦ record p {
      subscribers = on_reply idx answered p.subscribers;
      pending = remove_at p.pending i;
    }
  ]

  unfoldable pub run : Publisher C U → List (Event C U) → Publisher C U
  unfolding step
  run p [] = p
  run p (e ∷ es) = run (step p e) es
