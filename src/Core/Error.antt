-- ===== src/Core/Error.antt =====
-- crates/fluxsync-core/src/error.rs: the errors, and results that may be one.
use fluxsync.Base.{ℕ, String}

pub data CoreError : Type 0 where
  bad_battery_level : ℕ → CoreError
  invalid_device_name : String → CoreError
  invalid_retention : ℕ → CoreError

pub data Result {ℓ} (A : Type ℓ) : Type ℓ where
  ok : A → Result A
  err : CoreError → Result A
