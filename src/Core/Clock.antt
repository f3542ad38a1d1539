-- ===== src/Core/Clock.antt =====
-- crates/fluxsync-core/src/clock.rs: the Lamport clock, a saturating `u64` counter, and what the
-- core reads of the wall clock.
use fluxsync.Base.{
  ℕ, ◌+◌, ◌≤◌, ◌<◌, ◌^◌, min, max, List, [], ◌∷◌, String, arith, saturating_add, u64_max, length,
}

abbrev pub lamport_observe_max : ℕ
lamport_observe_max = 2 ^ 40

pub record LamportClock : Type 0 where
  pub counter : ℕ

abbrev pub new : LamportClock
new = record { counter = 0 }

unfoldable pub tick : LamportClock → LamportClock
tick c = record { counter = saturating_add c.counter 1 }

unfoldable pub observe : LamportClock → ℕ → LamportClock
observe c seen = record {
  counter = saturating_add (max c.counter (min seen lamport_observe_max)) 1;
}

pub record WallClock : Type 0 where
  pub hhmm : String
  pub unix_millis : ℕ

-- A clock that has seen a list of peer values, oldest first.
unfoldable pub observe_all : LamportClock → List ℕ → LamportClock
observe_all c [] = c
observe_all c (s ∷ seen) = observe_all (observe c s) seen

observe_all_le :
    (k : ℕ) (c : LamportClock) (seen : List ℕ)
    → c.counter ≤ lamport_observe_max + k
    → (observe_all c seen).counter ≤ lamport_observe_max + k + length seen
unfolding observe_all observe
observe_all_le k c [] h = omega arith
observe_all_le k c (s ∷ seen) h =
    omega (arith, observe_all_le (k + 1) (observe c s) seen (omega arith))

-- Whatever values peers send, n of them leave a new clock at 2^40 + n at most: a peer that claims
-- the largest value does not pin the counter at the top of `u64`.
pub observe_all_bounded :
    (seen : List ℕ) → (observe_all new seen).counter ≤ lamport_observe_max + length seen
observe_all_bounded seen = omega (arith, observe_all_le 0 new seen (omega arith))

-- A clock below the top of `u64` grows strictly at each event, and an observed value up to 2^40 is
-- passed: an event that follows another one in time or by a message has the larger number.
pub tick-observe_grow :
    (c : LamportClock) (seen : ℕ)
    → c.counter < u64_max
    → (c.counter < (tick c).counter)
      × (c.counter < (observe c seen).counter)
      × (min seen lamport_observe_max < (observe c seen).counter)
unfolding tick observe
tick-observe_grow c seen h = (omega arith, omega arith, omega arith)
