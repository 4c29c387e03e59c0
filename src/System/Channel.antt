-- ===== src/System/Channel.antt =====
-- What one subscriber is sent (src/mgmt/manager.rs) while it has room.
use weldr.Common.{
  ℕ, zero, suc, ◌≤◌, ◌<◌, ◌≡◌, refl, ap, sym, ◌∙◌, Bool, true, List, [], ◌∷◌, ◌++◌, append-nil,
  append_assoc, arith, if◌then◌else◌, nat_beq, any, All, Bool-cases, inl, inr, length, drop,
}
use weldr.Message.{Message}
use weldr.Manager.Publisher.{SubscriberHandle, Publisher, send_all, publish}
use weldr.Manager.Keys.{count, count-append, Fresh, Distinct}
use weldr.Manager.InFlight.{Counted, IsSound, publish-IsSound}

module _ {ℓ} {A : Type ℓ} where
  -- The requests to `k`, in order
  unfoldable pub to : ℕ → List (ℕ × A) → List A
  to k [] = []
  to k ((j, m) ∷ sent) = if nat_beq j k then m ∷ to k sent else to k sent

  pub to-append : (k : ℕ) (xs ys : List (ℕ × A)) → to k (xs ++ ys) ≡ to k xs ++ to k ys
  unfolding to
  to-append k [] ys = refl
  to-append k ((j, m) ∷ xs) ys = ground (arith, to-append k xs ys)

  pub drop-append_length : (xs ys : List A) → drop (length xs) (xs ++ ys) ≡ ys
  drop-append_length [] ys = refl
  drop-append_length (x ∷ xs) ys = drop-append_length xs ys

  pub drop_short : (n : ℕ) (xs : List A) → length xs ≤ n → drop n xs ≡ []
  drop_short zero [] h = refl
  drop_short zero (x ∷ xs) h = absurd (omega arith)
  drop_short (suc n) [] h = refl
  drop_short (suc n) (x ∷ xs) h = drop_short n xs (omega arith)

  -- Whether there is an entry with the number `k`.
  abbrev pub has : ℕ → List (ℕ × A) → Bool
  has k = any (λ e. nat_beq e.0 k)

module _ {ℓ κ} {C : Type ℓ} {U : Type κ} where
  to-Fresh :
      (k : ℕ) (m : Message U) (subs : List (ℕ × SubscriberHandle C))
      → Fresh k subs
      → to k (send_all m subs).1 ≡ []
  unfolding to send_all
  to-Fresh k m [] f = refl
  to-Fresh k m ((j, s) ∷ subs) f = ground (arith, f.0, to-Fresh k m subs f.1)

  -- Either `k` is sent the message, or it has five.
  to-send_all :
      (k : ℕ) (m : Message U) (pending : List (ℕ × Message U))
      (subs : List (ℕ × SubscriberHandle C))
      → Distinct subs
      → All (Counted pending) subs
      → has k subs ≡ true
      → count k pending < 5
      → to k (send_all m subs).1 ≡ m ∷ []
  unfolding to send_all
  to-send_all k m pending [] d c h room = cc
  to-send_all k m pending ((j, s) ∷ subs) d c h room = elim (Bool-cases (nat_beq j k)) [
    | inl own ↦
        let same : j ≡ k = ground (arith, own) in
        ground (arith, c.0, ap (λ i. count i pending) same, to-Fresh j m subs d.0)
    | inr other ↦ ground (arith, other, to-send_all k m pending subs d.1 c.1 (rw other at h) room)
  ]

  has-send_all :
      (k : ℕ) (m : Message U) (subs : List (ℕ × SubscriberHandle C))
      → has k (send_all m subs).0 ≡ has k subs
  unfolding send_all
  has-send_all k m [] = refl
  has-send_all k m ((j, s) ∷ subs) = ground (arith, has-send_all k m subs)

  -- Several publications in a row.
  unfoldable pub publish_all : List (Message U) → Publisher C U → Publisher C U
  publish_all [] p = p
  publish_all (m ∷ ms) p = publish_all ms (publish m p)

  publish_all-pending :
      (ms : List (Message U)) (p : Publisher C U)
      → (sent : List (ℕ × Message U)) × ((publish_all ms p).pending ≡ p.pending ++ sent)
  unfolding publish_all publish
  publish_all-pending [] p = ([], sym (append-nil p.pending))
  publish_all-pending (m ∷ ms) p =
      let (sent, e) = publish_all-pending ms (publish m p) in
      let now = (send_all m p.subscribers).1 in (now ++ sent, e ∙ append_assoc p.pending now sent)

  pub publish_all-next_id :
      (ms : List (Message U)) (p : Publisher C U) → (publish_all ms p).next_id ≡ p.next_id
  unfolding publish_all publish
  publish_all-next_id [] p = refl
  publish_all-next_id (m ∷ ms) p = publish_all-next_id ms (publish m p)

  pub publish_all-IsSound :
      (ms : List (Message U)) (p : Publisher C U) → IsSound p → IsSound (publish_all ms p)
  unfolding publish_all
  publish_all-IsSound [] p v = v
  publish_all-IsSound (m ∷ ms) p v = publish_all-IsSound ms (publish m p) (publish-IsSound m p v)

  -- A subscriber that has room for all is sent all.
  pub publish_all-to :
      (k : ℕ) (ms : List (Message U)) (p : Publisher C U)
      → IsSound p
      → has k p.subscribers ≡ true
      → count k (publish_all ms p).pending < 5
      → (to k (drop (length p.pending) (publish_all ms p).pending) ≡ ms)
        × IsSound (publish_all ms p)
        × (has k (publish_all ms p).subscribers ≡ true)
  unfolding publish_all publish to
  publish_all-to k [] p v there room =
      (ap (to k) (drop_short (length p.pending) p.pending (omega arith)), v, there)
  publish_all-to k (m ∷ ms) p v there room =
      let now = (send_all m p.subscribers).1 in
      let p1 = publish m p in
      let (sent, e) = publish_all-pending ms p1 in
      let there1 : has k p1.subscribers ≡ true = has-send_all k m p.subscribers ∙ there in
      let (told, v1, still) = publish_all-to k ms p1 (publish-IsSound m p v) there1 room in
      let rest : to k sent ≡ ms =
        ap (to k) (sym (ap (drop (length p1.pending)) e ∙ drop-append_length p1.pending sent))
        ∙ told in
      let before : count k p.pending < 5 =
        omega
          (arith, ap (count k) e, count-append k p1.pending sent, count-append k p.pending now) in
      let whole : (publish_all ms p1).pending ≡ p.pending ++ (now ++ sent) =
        e ∙ append_assoc p.pending now sent in
      (
        ap (λ q. to k (drop (length p.pending) q)) whole
            ∙ ap (to k) (drop-append_length p.pending (now ++ sent))
            ∙ to-append k now sent
            ∙ ap (λ q. q ++ to k sent)
                (to-send_all k m p.pending p.subscribers v.distinct v.counted there before)
            ∙ ap (λ q. m ∷ q) rest,
        v1,
        still,
      )
