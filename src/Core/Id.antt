-- ===== src/Core/Id.antt =====
-- crates/fluxsync-core/src/id.rs. A 32-byte id is the number whose big-endian bytes it is, so that
-- the derived order of the ids is the order of the numbers; `[0u8; 32]` is 0.
use fluxsync.Base.{ℕ, Bool, ◌&&◌, ◌==◌}

abbrev pub DeviceId : Type 0
DeviceId = ℕ

abbrev pub zero_id : DeviceId
zero_id = 0

pub record EventId : Type 0 where
  pub origin : DeviceId
  pub seq : ℕ

-- The derived equality.
abbrev pub event_eq : EventId → EventId → Bool
event_eq a b = a.origin == b.origin && a.seq == b.seq
