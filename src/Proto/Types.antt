-- ===== src/Proto/Types.antt =====
-- crates/fluxsync-proto/src/types.rs: what the core takes of the wire types.
pub data Kind : Type 0 where
  text url code image file : Kind
