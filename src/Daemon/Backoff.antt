-- ===== src/Daemon/Backoff.antt =====
-- crates/fluxsyncd/src/backoff.rs: the pacing of blind redials. Durations and instants are
-- milliseconds, the clock and the 64-bit random draw are arguments.
pub mod Laws
use fluxsync.Base.{
  ℕ, ◌+◌, ◌-◌, ◌*◌, ◌/◌, ◌^◌, min, Bool, true, Option, none, some, leb, ◌==◌, if◌then◌else◌,
  u64_range,
}

abbrev pub initial_base : ℕ
initial_base = 500

abbrev pub cap : ℕ
cap = 8000

abbrev pub max_shift : ℕ
max_shift = 4

abbrev pub min_stable : ℕ
min_stable = 15000

abbrev pub floor_margin : ℕ
floor_margin = 500

-- crates/fluxsyncd/src/rate_limit.rs: the interval of one regained token.
abbrev pub refill_interval : ℕ
refill_interval = 6000

abbrev pub steady_state_floor : ℕ
steady_state_floor = refill_interval + floor_margin

abbrev pub u32_max : ℕ
u32_max = 4294967295

pub record PeerBackoff : Type 0 where
  pub attempt : ℕ
  pub next_ready_at : Option ℕ

unfoldable pub new : PeerBackoff
new = record { attempt = 0; next_ready_at = none }

is_past : ℕ → Option ℕ → Bool
is_past now none = true
is_past now (some t) = leb t now

unfoldable pub ready : PeerBackoff → ℕ → Bool
unfolding is_past
ready b now = is_past now b.next_ready_at

unfoldable pub base_delay_for_attempt : ℕ → ℕ
base_delay_for_attempt attempt = initial_base * 2 ^ min attempt max_shift

unfoldable pub jitter_floor : ℕ → ℕ
jitter_floor base = if leb cap base then steady_state_floor else base / 2

unfoldable pub full_jitter : ℕ → ℕ → ℕ
full_jitter base draw =
    let span = base - jitter_floor base in
    let extra = if span == 0 then 0 else draw * (span + 1) / u64_range in jitter_floor base + extra

unfoldable pub on_attempt_failed : PeerBackoff → ℕ → ℕ → PeerBackoff
on_attempt_failed b now draw = record {
  attempt = min (b.attempt + 1) u32_max;
  next_ready_at = some (now + full_jitter (base_delay_for_attempt b.attempt) draw);
}

unfoldable pub on_handshake_ok : PeerBackoff → PeerBackoff
on_handshake_ok b = record { attempt = 0; next_ready_at = none }

unfoldable pub on_session_ended : PeerBackoff → ℕ → PeerBackoff
on_session_ended b uptime =
    if leb min_stable uptime then record { attempt = 0; next_ready_at = none } else b
