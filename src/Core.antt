-- ===== src/Core.antt =====
-- crates/fluxsync-core: the pure core that the daemon drives event by event.
pub mod Id
pub mod Clock
pub mod Dedup
pub mod Seen
pub mod Policy
pub mod Error
pub mod Events
pub mod State
pub mod Fsm
pub mod App
