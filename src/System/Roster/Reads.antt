-- ===== src/System/Roster/Reads.antt =====
-- What the pool of a state that stands for the specification says of the servers (src/pool.rs).
use weldr.Common.{
  ◌≡◌, refl, ap, sym, ◌∙◌, inl, inr, true, false, Bool, Bool-cases, Option-cases, none, some, List,
  [], ◌∷◌, map, find, any, All-find, PartialEq, ◌==◌,
}
use weldr.Server.{Server, server_eq}
use weldr.Backend
use weldr.Backend.{Backend, Heap}
use weldr.Pool.{find_backend, find_server}
use weldr.Health.Check.{World}
use weldr.Agreement.{pool_of}
use weldr.Worker.Status.{status, found_server}
use weldr.System.{Setting}
use weldr.System.Roster.{Roster, stands}
use weldr.System.Roster.Mirrors.{Mirrors}

module _ {ℓ κ} {A : Type ℓ} {B : Type κ} where
  any-map-find :
      (f : A → B) (p : B → Bool) (xs : List A)
      → any p (map f xs) ≡ elim (find (λ x. p (f x)) xs) [ none ↦ false | some x ↦ true ]
  any-map-find f p [] = refl
  any-map-find f p (x ∷ xs) = elim (Bool-cases (p (f x))) [
    | inl hit ↦ rw hit refl
    | inr miss ↦ rw miss (any-map-find f p xs)
  ]

module _ {ℓ} {U : Type ℓ} ⦃e : PartialEq U⦄ {Chunk S : Type 0} (setting : Setting U Chunk S)
    (w : World U) (checks : List Backend) (a : Roster U) (t : Server U)
    (v : Mirrors setting w checks a) where
  pub mirrored-listed :
      any (λ s. s == t) a.listed
      ≡ elim (find_backend (pool_of w) t) [ none ↦ false | some b ↦ true ]
  unfolding find_backend find_server
  mirrored-listed =
      ap (any (λ s. s == t)) (sym v.lists)
      ∙ any-map-find (Backend.server w.heap) (λ s. s == t) w.pool.backends

  -- The backend that is found is in the state that the specification says.
  pub mirrored-state :
      (b : Backend)
      → find_backend (pool_of w) t ≡ some b
      → (w.heap.cell b).state ≡ (a.watched t).state
  unfolding find_backend find_server
  mirrored-state b found =
      let here : (w.heap.cell b).server ≡ t = found_server (pool_of w) t b found in
      let tracked = All-find _ _ w.pool.backends b v.tracks found in
      tracked.follows.is ∙ ap (λ s. (a.watched s).state) here

  pub mirrored-stands : status (pool_of w) t ≡ stands a t
  mirrored-stands = elim (Option-cases (find_backend (pool_of w) t)) [
    | inl missing ↦
        let unlisted : any (λ s. s == t) a.listed ≡ false =
          mirrored-listed ∙ ap (λ o. elim o [ none ↦ false | some x ↦ true ]) missing in
        rw (missing, unlisted) refl
    | inr (b, found) ↦
        let there : any (λ s. s == t) a.listed ≡ true =
          mirrored-listed ∙ ap (λ o. elim o [ none ↦ false | some x ↦ true ]) found in
        rw (found, there) (ap some (mirrored-state b found))
  ]
