-- ===== src/Crypto/Replay.antt =====
-- crates/fluxsync-crypto/src/session.rs: the sliding window that refuses replayed nonces.
pub mod Bits
pub mod Laws
use fluxsync.Base.{
  ℕ, zero, suc, ◌+◌, ◌-◌, Bool, true, false, not, ◌||◌, List, [], ◌∷◌, ltb, leb, ◌==◌,
  if◌then◌else◌, take, length,
}

abbrev pub replay_window : ℕ
replay_window = 64

-- A `u64` that is read bit by bit: its 64 bits, bit 0 first.
abbrev pub Bitmap : Type 0
Bitmap = List Bool

abbrev pub zeros : ℕ → Bitmap
zeros zero = []
zeros (suc n) = false ∷ zeros n

-- The number 0.
unfoldable pub none_set : Bitmap
none_set = zeros 64

-- `bits & (1 << i) != 0`
abbrev pub bit : ℕ → Bitmap → Bool
bit i [] = false
bit zero (b ∷ bs) = b
bit (suc i) (b ∷ bs) = bit i bs

-- `bits | (1 << i)`
abbrev pub set_bit : ℕ → Bitmap → Bitmap
set_bit i [] = []
set_bit zero (b ∷ bs) = true ∷ bs
set_bit (suc i) (b ∷ bs) = b ∷ set_bit i bs

-- `bits << n`: the bits shifted out at the top are lost.
abbrev pub shift_left : ℕ → Bitmap → Bitmap
shift_left zero bs = bs
shift_left (suc n) bs = let shifted = shift_left n bs in take (length shifted) (false ∷ shifted)

unfoldable pub one : Bitmap
unfolding none_set
one = set_bit 0 none_set

pub record ReplayWindow : Type 0 where
  pub highest : ℕ
  pub bitmap : Bitmap
  pub started : Bool

unfoldable pub default : ReplayWindow
default = record { highest = 0; bitmap = none_set; started = false }

unfoldable pub is_fresh : ReplayWindow → ℕ → Bool
is_fresh w nonce =
    let diff = w.highest - nonce in
    if not w.started || ltb w.highest nonce
    then true
    else if leb replay_window diff
    then false
    else not (bit diff w.bitmap)

unfoldable pub accept : ReplayWindow → ℕ → ReplayWindow
accept w nonce =
    let shift = nonce - w.highest in
    let diff = w.highest - nonce in
    if not w.started
    then record { highest = nonce; bitmap = one; started = true }
    else if ltb w.highest nonce
    then record w {
      highest = nonce;
      bitmap = if leb replay_window shift then one else set_bit 0 (shift_left shift w.bitmap);
    }
    else if ltb diff replay_window
    then record w { bitmap = set_bit diff w.bitmap }
    else w
