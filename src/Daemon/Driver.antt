-- ===== src/Daemon/Driver.antt =====
-- crates/fluxsyncd/src/driver: what the tasks of the daemon keep, and what they do with a frame.
pub mod Reassembly
pub mod Frames
pub mod Inflight
pub mod Pulls
pub mod Shared
pub mod Inbound
pub mod Actions
pub mod Liveness
