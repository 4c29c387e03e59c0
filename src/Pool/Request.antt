-- ===== src/Pool/Request.antt =====
-- `Pool::request` of src/pool.rs: a request takes a backend from the pool now, and when the answer
-- comes, later and in any order, the backend counts it. `is_server_error` is that of hyper's
-- `StatusCode`, a parameter.
use weldr.Common.{
  not, ◌&&◌, bool_beq, ℕ, suc, ◌+◌, ◌%◌, ◌^◌, ◌<◌, ◌≡◌, refl, ap, ◌∙◌, Bool, true, false, Option,
  none, some, List, [], ◌∷◌, arith, if◌then◌else◌, nat_beq,
}
use mathlib.Core.Option
use weldr.Stats
use weldr.Server.{Server}
use weldr.Backend
use weldr.Backend.{Backend, Heap}
use weldr.Pool.{Pool, get}

-- What `f` is called with, or the error `Pool is exhausted of servers`.
pub data Dispatch {ℓ} (U : Type ℓ) : Type ℓ where
  sent : Backend → Server U → Dispatch U
  exhausted : Dispatch U

-- What comes back for a request.
pub data Answer (S : Type 0) : Type 0 where
  ok : S → Answer S
  err : Answer S

module _ {S : Type 0} (is_server_error : S → Bool) where
  -- Whether an answer counts as a success.
  abbrev pub succeeds : Answer S → Bool
  succeeds (ok status) = not (is_server_error status)
  succeeds err = false

  -- How many of the answers are for `b`, and successes or not.
  unfoldable pub tally : Bool → Backend → List (Backend × Answer S) → ℕ
  tally wanted b [] = 0
  tally wanted b ((i, a) ∷ rest) =
      if nat_beq i b && bool_beq (succeeds a) wanted
      then suc (tally wanted b rest)
      else tally wanted b rest

-- One more on a counter, or not.
abbrev bump : Bool → ℕ → ℕ
bump hit x = if hit then Stats.add_one_64 x else x

bump-lt : (hit : Bool) (x : ℕ) → x < 2 ^ 64 → bump hit x < 2 ^ 64
bump-lt true x h = omega arith
bump-lt false x h = h

bump-add :
    (hit : Bool) (x n : ℕ) → (bump hit x + n) % 2 ^ 64 ≡ (x + (if hit then suc n else n)) % 2 ^ 64
bump-add true x n = omega arith
bump-add false x n = refl

module _ {ℓ} {U : Type ℓ} where
  -- The two arms of the match on what `get` returned.
  abbrev pub dispatch : Heap U → Option Backend → Dispatch U
  dispatch h (some b) = sent b (Backend.server h b)
  dispatch h none = exhausted

  unfoldable pub request : ℕ → Pool U → Option (Dispatch U × Pool U)
  unfolding get
  request fuel p =
      Option.map (λ r. (dispatch p.heap r.0, record p { inner = r.1 })) (get fuel p.heap p.inner)

  module _ {S : Type 0} (is_server_error : S → Bool) where
    -- The closure behind `then`; it passes the answer on as it is.
    unfoldable pub on_answer : Heap U → Backend → Answer S → Heap U
    unfolding Backend.inc_failure Backend.inc_success
    on_answer h b (ok status) =
        if is_server_error status then Backend.inc_failure h b else Backend.inc_success h b
    on_answer h b err = Backend.inc_failure h b

    unfoldable pub on_answers : Heap U → List (Backend × Answer S) → Heap U
    unfolding on_answer
    on_answers h [] = h
    on_answers h ((b, a) ∷ rest) = on_answers (on_answer h b a) rest

    -- One answer adds one to one counter of its backend, and changes nothing else.
    pub on_answer_lem :
        (h : Heap U) (i b : Backend) (a : Answer S)
        → let v = h.cell b in
          let v' = (on_answer h i a).cell b in
          (v'.server ≡ v.server)
          × (v'.state ≡ v.state)
          × (v'.stats.success ≡ (
              if nat_beq i b && bool_beq (succeeds is_server_error a) true
              then Stats.add_one_64 v.stats.success
              else v.stats.success))
          × (v'.stats.failure ≡ (
              if nat_beq i b && bool_beq (succeeds is_server_error a) false
              then Stats.add_one_64 v.stats.failure
              else v.stats.failure))
    unfolding on_answer Stats.inc_success Stats.inc_failure
    on_answer_lem h i b (ok status) = ground arith
    on_answer_lem h i b err = ground arith

    -- The counters of a backend, which fit a `usize`, grow by the numbers of its answers of each
    -- kind, modulo 2 ^ 64, whatever their order among those of the other backends; its server and
    -- its state stay.
    pub on_answers_lem :
        (h : Heap U) (b : Backend) (answers : List (Backend × Answer S))
        → (h.cell b).stats.success < 2 ^ 64
        → (h.cell b).stats.failure < 2 ^ 64
        → let v = h.cell b in
          let v' = (on_answers h answers).cell b in
          (v'.server ≡ v.server)
          × (v'.state ≡ v.state)
          × (v'.stats.success ≡ (v.stats.success + tally is_server_error true b answers) % 2 ^ 64)
          × (v'.stats.failure ≡ (v.stats.failure + tally is_server_error false b answers) % 2 ^ 64)
    unfolding on_answers tally
    on_answers_lem h b [] s f = (refl, refl, omega arith, omega arith)
    on_answers_lem h b ((i, a) ∷ rest) s f =
        let (srv, st, su, fa) = on_answer_lem h i b a in
        let (srv', st', su', fa') =
          on_answers_lem (on_answer h i a) b rest (rw su (bump-lt _ _ s)) (rw fa (bump-lt _ _ f)) in
        (
          srv' ∙ srv,
          st' ∙ st,
          su'
              ∙ ap (λ x. (x + tally is_server_error true b rest) % 2 ^ 64) su
              ∙ bump-add _ (h.cell b).stats.success _,
          fa'
              ∙ ap (λ x. (x + tally is_server_error false b rest) % 2 ^ 64) fa
              ∙ bump-add _ (h.cell b).stats.failure _,
        )
