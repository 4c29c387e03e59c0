-- ===== src/Message.antt =====
-- The requests of weldr.capnp that the manager sends to its workers.
pub data Message {ℓ} (U : Type ℓ) : Type ℓ where
  add_server : U → Message U
  mark_server_down : U → Message U
  mark_server_active : U → Message U
