-- ===== src/Proto.antt =====
-- crates/fluxsync-proto: what crosses the network.
pub mod Types
pub mod Msg
pub mod Codec
pub mod Caps
pub mod File
