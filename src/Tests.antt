-- ===== src/Tests.antt =====
-- Concrete runs: fixtures, and the theorems at them.
pub mod Fixtures
pub mod Handling
pub mod Rings
pub mod Meshes
pub mod Sessions
pub mod Stores
pub mod Wire
pub mod Texts
pub mod Transports
pub mod Transfers
pub mod Dispatch
