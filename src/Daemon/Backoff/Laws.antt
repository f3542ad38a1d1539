-- ===== src/Daemon/Backoff/Laws.antt =====
-- How long a redial waits, and that flapping does not shorten the wait.
use fluxsync.Base.{
  ℕ, zero, suc, ◌+◌, ◌-◌, ◌*◌, ◌/◌, ◌^◌, ◌≤◌, ◌<◌, min, ◌≡◌, ◌⊎◌, inl, inr, refl, ap, Bool, true,
  false, List, [], ◌∷◌, arith, ltb, count, if◌then◌else◌, All, u64_range,
}
use native.Mathlib.Nat.{mul-le-mul_right}
use fluxsync.Daemon.Backoff.{
  cap, min_stable, refill_interval, u32_max, PeerBackoff, ready, base_delay_for_attempt,
  jitter_floor, full_jitter, on_attempt_failed, on_session_ended,
}

scaled_le : (draw n : ℕ) → draw < u64_range → draw * (n + 1) / u64_range ≤ n
scaled_le draw n lt =
    let le : draw ≤ 18446744073709551615 = omega arith in omega (arith, mul-le-mul_right (n + 1) le)

-- The base is one of five.
base_cases :
    (n : ℕ)
    → let b = base_delay_for_attempt n in
      ((n < 4) × ((b ≡ 500) ⊎ (b ≡ 1000) ⊎ (b ≡ 2000) ⊎ (b ≡ 4000))) ⊎ ((4 ≤ n) × (b ≡ 8000))
unfolding base_delay_for_attempt
base_cases zero = inl (omega arith, inl refl)
base_cases (suc zero) = inl (omega arith, inr (inl refl))
base_cases (suc (suc zero)) = inl (omega arith, inr (inr (inl refl)))
base_cases (suc (suc (suc zero))) = inl (omega arith, inr (inr (inr refl)))
base_cases (suc (suc (suc (suc n)))) = inr (omega arith, ap (λ k. 500 * 2 ^ k) capped)
  where
    capped : min (suc (suc (suc (suc n)))) 4 ≡ 4
    capped = omega arith

full_jitter_bounds :
    (base draw : ℕ)
    → draw < u64_range
    → jitter_floor base ≤ base
    → (jitter_floor base ≤ full_jitter base draw) × (full_jitter base draw ≤ base)
unfolding full_jitter
full_jitter_bounds base draw lt h = ground (arith, scaled_le draw (base - jitter_floor base) lt)

-- The wait after the failed attempt of this number.
abbrev pub wait_after : ℕ → ℕ → ℕ
wait_after attempt draw = full_jitter (base_delay_for_attempt attempt) draw

wait_bounds :
    (attempt draw : ℕ)
    → draw < u64_range
    → (250 ≤ wait_after attempt draw)
      × (wait_after attempt draw ≤ cap)
      × (4 ≤ attempt → refill_interval < wait_after attempt draw)
unfolding jitter_floor
wait_bounds attempt draw lt = elim (base_cases attempt) [
  | inl early ↦ early_bounds early.0 early.1
  | inr late ↦ late_bounds late.1
]
  where
    base : ℕ
    base = base_delay_for_attempt attempt

    bounds :
        jitter_floor base ≤ base
        → (jitter_floor base ≤ wait_after attempt draw) × (wait_after attempt draw ≤ base)
    bounds = full_jitter_bounds base draw lt

    early_bounds :
        attempt < 4
        → (base ≡ 500) ⊎ (base ≡ 1000) ⊎ (base ≡ 2000) ⊎ (base ≡ 4000)
        → (250 ≤ wait_after attempt draw)
          × (wait_after attempt draw ≤ cap)
          × (4 ≤ attempt → refill_interval < wait_after attempt draw)
    early_bounds few b = ground (arith, bounds)

    late_bounds :
        base ≡ 8000
        → (250 ≤ wait_after attempt draw)
          × (wait_after attempt draw ≤ cap)
          × (4 ≤ attempt → refill_interval < wait_after attempt draw)
    late_bounds b = ground (arith, bounds)

-- After a failed dial a redial is never allowed within a quarter of a second, always allowed after
-- the cap of eight seconds, and from the fifth failure in a row on not before the peer's rate
-- limiter has regained a token.
pub redial_window :
    (b : PeerBackoff) (now draw t : ℕ)
    → draw < u64_range
    → (ready (on_attempt_failed b now draw) t ≡ true → now + 250 ≤ t)
      × (now + cap ≤ t → ready (on_attempt_failed b now draw) t ≡ true)
      × (4 ≤ b.attempt → ready (on_attempt_failed b now draw) t ≡ true → now + refill_interval < t)
unfolding ready on_attempt_failed
redial_window b now draw t lt = ground (arith, wait_bounds b.attempt draw lt)

-- A dial that fails, and a dial that succeeds for a session that ends after `uptime`.
pub data Cycle : Type 0 where
  failed : (now draw : ℕ) → Cycle
  session : (uptime : ℕ) → Cycle

abbrev pub cycle : PeerBackoff → Cycle → PeerBackoff
cycle b (failed now draw) = on_attempt_failed b now draw
cycle b (session uptime) = on_session_ended b uptime

abbrev pub cycles : PeerBackoff → List Cycle → PeerBackoff
cycles b [] = b
cycles b (c ∷ cs) = cycles (cycle b c) cs

abbrev pub is_flap : Cycle → Bool
is_flap (failed now draw) = true
is_flap (session uptime) = ltb uptime min_stable

abbrev pub is_failure : Cycle → Bool
is_failure (failed now draw) = true
is_failure (session uptime) = false

cycle_flap :
    (b : PeerBackoff) (c : Cycle)
    → is_flap c ≡ true
    → (cycle b c).attempt ≡ (if is_failure c then min (b.attempt + 1) u32_max else b.attempt)
unfolding on_attempt_failed on_session_ended
cycle_flap b (failed now draw) h = refl
cycle_flap b (session uptime) h = ground arith

-- Sessions shorter than fifteen seconds never make the redials faster: the counter of attempts goes
-- up with every failed dial, whatever such sessions come between, until a 32-bit number is full.
pub flaps_escalate :
    (b : PeerBackoff) (cs : List Cycle)
    → All (λ c. is_flap c ≡ true) cs
    → b.attempt ≤ u32_max
    → (cycles b cs).attempt ≡ min (b.attempt + count is_failure cs) u32_max
flaps_escalate b [] h le = omega arith
flaps_escalate b (c ∷ cs) h le =
    ground (arith, cycle_flap b c h.0, flaps_escalate (cycle b c) cs h.1)
