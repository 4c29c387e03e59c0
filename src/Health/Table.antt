-- ===== src/Health/Table.antt =====
-- What the table of src/mgmt/health.rs says of a backend, and what an update of an entry leaves.
use weldr.Common.{
  ℕ, ◌≡◌, refl, sym, ap, ◌∙◌, ◌⊎◌, inl, inr, Bool, true, false, List, [], ◌∷◌, arith, if◌then◌else◌,
  Bool-cases, PartialEq, ==_refl, ==_eq, &&-right, nat_beq, ◌≢◌,
}
use weldr.Backend.{Backend, InnerBackend, Heap, backend_eq}
use weldr.Health.{HealthState, passing, Entry, hits, update_entry}

module _ {ℓ} {U : Type ℓ} ⦃e : PartialEq U⦄ (hash : InnerBackend U → ℕ) where
  -- The state that the table has for `b`, or the one that it would insert.
  abbrev pub health_of : Heap U → Backend → List Entry → HealthState
  health_of h b [] = passing 0
  health_of h b (x ∷ xs) = if hits hash h b x then x.value else health_of h b xs

  hits_new :
      (h : Heap U) (b : Backend) (v : HealthState)
      → hits hash h b (record { hash = hash (h.cell b); key = b; value = v }) ≡ true
  hits_new h b v = ground (arith, ==_refl (h.cell b))

  -- An update gives the answer for the state at hand, and leaves the new one.
  pub update_entry_lem :
      (f : HealthState → HealthState × Bool) (h : Heap U) (b : Backend) (m : List Entry)
      → ((update_entry hash f h b m).1 ≡ (f (health_of h b m)).1)
        × (health_of h b (update_entry hash f h b m).0 ≡ (f (health_of h b m)).0)
  unfolding update_entry
  update_entry_lem f h b [] = (refl, rw (hits_new h b (f (passing 0)).0))
  update_entry_lem f h b (x ∷ xs) =
      let ih = update_entry_lem f h b xs in
      elim (Bool-cases (hits hash h b x)) [
        | inl hit ↦ (rw hit, rw (hit, hit))
        | inr miss ↦ (rw miss ih.0, rw (miss, miss) ih.1)
      ]

  -- Any other view of the table is as before, or was and is the view of `b`.
  pub update_entry_other :
      (f : HealthState → HealthState × Bool) (h h' : Heap U) (b b' : Backend) (m : List Entry)
      → (health_of h' b' (update_entry hash f h b m).0 ≡ health_of h' b' m)
        ⊎ ((health_of h' b' m ≡ health_of h b m)
            × (health_of h' b' (update_entry hash f h b m).0 ≡ (f (health_of h b m)).0))
  unfolding update_entry
  update_entry_other f h h' b b' [] =
      elim (Bool-cases
        (hits hash h' b' (record { hash = hash (h.cell b); key = b; value = (f (passing 0)).0 }))) [
          | inl hit ↦ inr (refl, rw hit)
          | inr miss ↦ inl (rw miss)
        ]
  update_entry_other f h h' b b' (x ∷ xs) =
      let ih = update_entry_other f h h' b b' xs in
      elim (Bool-cases (hits hash h b x)) [
        | inl hit ↦ elim (Bool-cases (hits hash h' b' x)) [
          | inl hit' ↦ inr (rw (hit, hit'), rw (hit, hit'))
          | inr miss' ↦ inl (rw (hit, miss'))
        ]
        | inr miss ↦ elim (Bool-cases (hits hash h' b' x)) [
          | inl hit' ↦ inl (rw (miss, hit'))
          | inr miss' ↦ rw (miss, miss') ih
        ]
      ]

  pub hits-server :
      (h : Heap U) (b : Backend) (x : Entry)
      → hits hash h b x ≡ true
      → (h.cell x.key).server ≡ (h.cell b).server
  hits-server h b x t =
      ap (λ v. v.server)
        (==_eq (h.cell x.key) (h.cell b) (&&-right (nat_beq x.hash (hash (h.cell b))) _ t))

  -- For views under two heaps with the same servers, an update for a backend of one server leaves what
  -- the table has for a backend of another.
  module _ (h h' : Heap U) (b b' : Backend)
      (same : (i : Backend) → (h.cell i).server ≡ (h'.cell i).server)
      (apart : (h.cell b).server ≢ (h'.cell b').server) where
    hits_apart : (x : Entry) → (h.cell x.key).server ≡ (h.cell b).server → hits hash h' b' x ≡ false
    hits_apart x t = elim (Bool-cases (hits hash h' b' x)) [
      | inl hit ↦ absurd (apart (sym t ∙ same x.key ∙ hits-server h' b' x hit))
      | inr miss ↦ miss
    ]

    pub update_entry_apart :
        (f : HealthState → HealthState × Bool) (m : List Entry)
        → health_of h' b' (update_entry hash f h b m).0 ≡ health_of h' b' m
    unfolding update_entry
    update_entry_apart f [] =
        rw (hits_apart (record { hash = hash (h.cell b); key = b; value = (f (passing 0)).0 }) refl)
    update_entry_apart f (x ∷ xs) = elim (Bool-cases (hits hash h b x)) [
      | inl hit ↦ let miss' = hits_apart x (hits-server h b x hit) in rw (hit, miss')
      | inr miss ↦
          rw miss (ap (λ v. if hits hash h' b' x then x.value else v) (update_entry_apart f xs))
    ]
