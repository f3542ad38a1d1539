-- ===== src/Crypto/Replay/Bits.antt =====
-- What the shifts and masks of the bitmap do to a single bit.
use fluxsync.Base.{
  ℕ, zero, suc, ◌-◌, ◌≤◌, ◌<◌, ◌≡◌, refl, ◌∙◌, false, ◌&&◌, ◌||◌, [], ◌∷◌, arith, ltb, leb, ◌==◌,
  take, length,
}
use fluxsync.Crypto.Replay.{Bitmap, zeros, bit, set_bit, shift_left, one}

pub bit-zeros : (i n : ℕ) → bit i (zeros n) ≡ false
bit-zeros i zero = refl
bit-zeros zero (suc n) = refl
bit-zeros (suc i) (suc n) = bit-zeros i n

pub bit-set_bit :
    (i j : ℕ) (bs : Bitmap) → bit i (set_bit j bs) ≡ ((i == j && ltb i (length bs)) || bit i bs)
bit-set_bit i j [] = ground arith
bit-set_bit zero zero (b ∷ bs) = ground arith
bit-set_bit zero (suc j) (b ∷ bs) = ground arith
bit-set_bit (suc i) zero (b ∷ bs) = ground arith
bit-set_bit (suc i) (suc j) (b ∷ bs) = ground (arith, bit-set_bit i j bs)

pub bit-take : (i n : ℕ) (bs : Bitmap) → bit i (take n bs) ≡ (ltb i n && bit i bs)
bit-take i zero bs = ground arith
bit-take i (suc n) [] = ground arith
bit-take zero (suc n) (b ∷ bs) = ground arith
bit-take (suc i) (suc n) (b ∷ bs) = ground (arith, bit-take i n bs)

pub length-set_bit : (j : ℕ) (bs : Bitmap) → length (set_bit j bs) ≡ length bs
length-set_bit j [] = refl
length-set_bit zero (b ∷ bs) = refl
length-set_bit (suc j) (b ∷ bs) = omega (arith, length-set_bit j bs)

pub length-zeros : (n : ℕ) → length (zeros n) ≡ n
length-zeros zero = refl
length-zeros (suc n) = omega (arith, length-zeros n)

pub length-take : (n : ℕ) (bs : Bitmap) → n ≤ length bs → length (take n bs) ≡ n
length-take zero bs h = refl
length-take (suc n) [] h = absurd (omega arith)
length-take (suc n) (b ∷ bs) h = omega (arith, length-take n bs (omega arith))

pub length-shift_left : (n : ℕ) (bs : Bitmap) → length (shift_left n bs) ≡ length bs
length-shift_left zero bs = refl
length-shift_left (suc n) bs =
    let shifted = shift_left n bs in
    length-take (length shifted) (false ∷ shifted) (omega arith) ∙ length-shift_left n bs

pub bit-shift_left :
    (i n : ℕ) (bs : Bitmap) → i < length bs → bit i (shift_left n bs) ≡ (leb n i && bit (i - n) bs)
bit-shift_left i zero bs lt = ground arith
bit-shift_left zero (suc n) bs lt =
    let shifted = shift_left n bs in ground (arith, bit-take 0 (length shifted) (false ∷ shifted))
bit-shift_left (suc i) (suc n) bs lt =
    let shifted = shift_left n bs in
    ground (
      arith,
      length-shift_left n bs,
      bit-take (suc i) (length shifted) (false ∷ shifted),
      bit-shift_left i n bs (omega arith),
    )

pub length-one : length one ≡ 64
unfolding one
length-one = refl

pub bit-one : (i : ℕ) → bit i one ≡ (i == 0)
unfolding one
bit-one i = ground (arith, bit-set_bit i 0 (zeros 64), bit-zeros i 64)
