-- ===== src/Pool/Ends.antt =====
-- When the loop of `InnerPool::get` (src/pool.rs) ends at all, wherever `last_used` stands.
use weldr.Common.{
  ℕ, zero, suc, ◌-◌, ◌%◌, ◌^◌, ◌≤◌, ◌<◌, ◌≡◌, refl, ap, sym, ◌∙◌, ◌↔◌, ◌⊎◌, inl, inr, Bool, true,
  false, Option, none, some, List, [], ◌∷◌, arith, length, any, All, Bool-cases, Option-cases, ltb,
}
use mathlib.Core.Option
use weldr.Stats.{add_one_64}
use weldr.Backend
use weldr.Backend.{Backend, Heap}
use weldr.Pool.{InnerPool, get, get_loop}
use weldr.Pool.Rotation.{live}
use weldr.Pool.Get.{IsValid, get_result}
use weldr.Pool.Hang.{mod_lt, get_hangs}

module _ {ℓ} {U : Type ℓ} (h : Heap U) where
  -- Where the loop finds a backend, it finds the same from a start that it never meets.
  start_unmet :
      (fuel : ℕ) (bs : List Backend) (start start' i : ℕ) (b : Backend) (n : ℕ)
      → 0 < length bs
      → length bs ≤ start'
      → get_loop fuel h bs start i ≡ some (some b, n)
      → get_loop fuel h bs start' i ≡ some (some b, n)
  unfolding get_loop
  start_unmet zero bs start start' i b n pos past e = cc
  start_unmet (suc fuel) bs start start' i b n pos past e =
      let here = add_one_64 i % length bs in
      let lt : here < length bs = mod_lt (add_one_64 i) (length bs) pos in
      ground (arith, lt, start_unmet fuel bs start start' here b n pos past)

  -- The loop depends on where it stands only by where it goes from there.
  same_next :
      (fuel : ℕ) (bs : List Backend) (start i j : ℕ)
      → add_one_64 i % length bs ≡ add_one_64 j % length bs
      → get_loop fuel h bs start i ≡ get_loop fuel h bs start j
  unfolding get_loop
  same_next zero bs start i j e = refl
  same_next (suc fuel) bs start i j e = ground (arith, e)

  any_not_all :
      (t : Backend → Bool) (bs : List Backend) → any t bs ≡ true → All (λ b. t b ≡ false) bs → ⊥
  any_not_all t [] y n = cc
  any_not_all t (b ∷ bs) y n = ground (arith, n.0, any_not_all t bs)

  -- The index before `m` in a list of length `n`.
  before : ℕ → ℕ → ℕ
  before zero n = n - 1
  before (suc m) n = m

  before-next : (m n : ℕ) → m < n → n < 2 ^ 64 → add_one_64 (before m n) % n ≡ m
  unfolding before
  before-next zero n lt fits = grind arith
  before-next (suc m) n lt fits = grind arith

  before-lt : (m n : ℕ) → m < n → before m n < n
  unfolding before
  before-lt zero n lt = omega arith
  before-lt (suc m) n lt = omega arith

  get_loop-some :
      (fuel : ℕ) (b : Backend) (bs : List Backend) (i : ℕ) (r : Option Backend) (q : InnerPool)
      → get fuel h (record { backends = b ∷ bs; last_used = i }) ≡ some (r, q)
      → (n : ℕ) × (get_loop fuel h (b ∷ bs) i i ≡ some (r, n))
  unfolding get
  get_loop-some fuel b bs i r q e = elim (Option-cases (get_loop fuel h (b ∷ bs) i i)) [
    | inl out ↦ let never = rw out at e in cc (never)
    | inr ((r', n), ran) ↦
        let returned = rw ran at e in
        let same : r' ≡ r = cc (returned) in (n, ran ∙ ap (λ x. some (x, n)) same)
  ]

  -- From outside the list the loop comes to a live backend, if there is one.
  get_list-live :
      (b : Backend) (bs : List Backend) (i : ℕ)
      → length (b ∷ bs) < 2 ^ 64
      → length (b ∷ bs) ≤ i
      → any (live h) (b ∷ bs) ≡ true
      → (r : Option Backend × ℕ) × (get_loop (length (b ∷ bs)) h (b ∷ bs) i i ≡ some r)
  get_list-live b bs i fits past lives =
      let n = length (b ∷ bs) in
      let here = add_one_64 i % n in
      let lt : here < n = mod_lt (add_one_64 i) n (omega arith) in
      let j = before here n in
      let valid : IsValid (record { backends = b ∷ bs; last_used = j }) = record {
        fits = fits;
        in_range = omega (arith, before-lt here n lt);
      } in
      let (r, q, ran, _, none_iff) =
        get_result h n (record { backends = b ∷ bs; last_used = j }) valid (omega arith) in
      let (m, looped) = get_loop-some n b bs j r q ran in
      elim (Option-cases r) [
        | inl nothing ↦ absurd (any_not_all (live h) (b ∷ bs) lives (none_iff.0 nothing))
        | inr (x, found) ↦ (
          (some x, m),
          same_next n (b ∷ bs) i i j (sym (before-next here n lt fits))
              ∙ start_unmet n (b ∷ bs) j i j x m (omega arith) past
                  (looped ∙ ap (λ y. some (y, m)) found),
        )
      ]

  -- A call within `fuel` rounds returns.
  abbrev pub Returns : ℕ → InnerPool → Type 0
  Returns fuel p = (r : Option Backend × InnerPool) × (get fuel h p ≡ some r)

  -- The list is empty, or `last_used` is one of its indices, or some backend is up.
  abbrev pub Ends : InnerPool → Type 0
  Ends p = (p.backends ≡ []) ⊎ (p.last_used < length p.backends) ⊎ (any (live h) p.backends ≡ true)

  Returns-inside :
      (b : Backend) (bs : List Backend) (i : ℕ)
      → length (b ∷ bs) < 2 ^ 64
      → i < length (b ∷ bs)
      → Returns (length (b ∷ bs)) (record { backends = b ∷ bs; last_used = i })
  Returns-inside b bs i fits inside =
      let (r, q, ran, _, _) =
        get_result h (length (b ∷ bs)) (record { backends = b ∷ bs; last_used = i })
          (record { fits = fits; in_range = omega arith }) (omega arith) in
      ((r, q), ran)

  Returns-list :
      (bs : List Backend) (i : ℕ)
      → length bs < 2 ^ 64
      → Ends (record { backends = bs; last_used = i })
      → Returns (length bs) (record { backends = bs; last_used = i })
  unfolding get
  Returns-list [] i fits e = ((none, record { backends = []; last_used = i }), refl)
  Returns-list (b ∷ bs) i fits (inl e) = cc
  Returns-list (b ∷ bs) i fits (inr (inl inside)) = Returns-inside b bs i fits inside
  Returns-list (b ∷ bs) i fits (inr (inr lives)) = elim (Bool-cases (ltb i (length (b ∷ bs)))) [
    | inl inside ↦ Returns-inside b bs i fits (ground (arith, inside))
    | inr past ↦
        let (r, ran) = get_list-live b bs i fits (ground (arith, past)) lives in
        ((r.0, record { backends = b ∷ bs; last_used = r.1 }), ap (Option.map _) ran)
  ]

  all_down :
      (bs : List Backend) → any (live h) bs ≡ false → All (λ b. Backend.is_down h b ≡ true) bs
  all_down [] n = tt
  all_down (b ∷ bs) n = ground (arith, all_down bs)

  Ends-list :
      (bs : List Backend) (i fuel : ℕ)
      → Returns fuel (record { backends = bs; last_used = i })
      → Ends (record { backends = bs; last_used = i })
  Ends-list [] i fuel r = inl refl
  Ends-list (b ∷ bs) i fuel (r, ran) = elim (Bool-cases (ltb i (length (b ∷ bs)))) [
    | inl inside ↦ inr (inl (ground (arith, inside)))
    | inr past ↦ elim (Bool-cases (any (live h) (b ∷ bs))) [
      | inl lives ↦ inr (inr lives)
      | inr downs ↦
          let never =
            get_hangs h fuel (record { backends = b ∷ bs; last_used = i }) (all_down (b ∷ bs) downs)
              (omega arith) (ground (arith, past)) in
          cc (ran, never)
    ]
  ]

  -- For a list that fits a `usize`, `get` returns, within some number of rounds, exactly if the
  -- list is empty, or `last_used` is one of its indices, or some backend is up; and then within as
  -- many rounds as there are backends.
  pub get-Ends :
      (p : InnerPool)
      → length p.backends < 2 ^ 64
      → (((fuel : ℕ) × Returns fuel p) ↔ Ends p) × (Ends p ↔ Returns (length p.backends) p)
  get-Ends p fits =
      let there = λ (fuel : ℕ) (r : Returns fuel p). Ends-list p.backends p.last_used fuel r in
      let back = Returns-list p.backends p.last_used fits in
      (((λ r. there r.0 r.1), λ e. (length p.backends, back e)), (back, there (length p.backends)))
