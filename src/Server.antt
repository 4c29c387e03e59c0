-- ===== src/Server.antt =====
-- src/server.rs: an upstream server. `Uri` is hyper's, a parameter `U` with its equality.
use weldr.Common.{◌≡◌, ◌↔◌, Bool, true, ◌&&◌, arith, bool_beq, PartialEq, ◌==◌}

pub record Server {ℓ} (U : Type ℓ) : Type ℓ where
  pub url : U
  pub map_host : Bool

unfoldable pub new {ℓ} : {U : Type ℓ} → U → Bool → Server U
new url map_host = record { url = url; map_host = map_host }

module _ {ℓ} {U : Type ℓ} ⦃e : PartialEq U⦄ where
  abbrev pub server_beq : Server U → Server U → Bool
  server_beq a b = a.url == b.url && bool_beq a.map_host b.map_host

  pub server_beq_iff : (a b : Server U) → (server_beq a b ≡ true) ↔ (a ≡ b)
  server_beq_iff a b = ground (arith, e.eq_law a.url b.url)

  instance abbrev pub server_eq : PartialEq (Server U)
  server_eq = record { eq = server_beq; eq_law = server_beq_iff }
