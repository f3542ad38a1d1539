-- ===== src/Crypto.antt =====
-- crates/fluxsync-crypto: the session of a link and its guard against replays.
pub mod Replay
pub mod Session
