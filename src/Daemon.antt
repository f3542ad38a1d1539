-- ===== src/Daemon.antt =====
-- crates/fluxsyncd: the daemon's own state machines, with clock and randomness as arguments.
pub mod Backoff
pub mod RateLimit
pub mod SeqStore
pub mod Outbox
pub mod Transport
pub mod Driver
