-- ===== src/Daemon/Driver/Frames/Chunks.antt =====
-- A payload in chunks.
use fluxsync.Base.{
  ℕ, zero, suc, ◌+◌, ◌-◌, ◌*◌, ◌≤◌, ◌<◌, ◌≡◌, refl, ap, ◌∙◌, [], ◌∷◌, ◌++◌, arith, length, take,
}
use fluxsync.Core.Events.{Bytes}
use fluxsync.Crypto.Session.{skip}
use fluxsync.Daemon.Driver.Frames.{chunks_within}
use fluxsync.Daemon.Driver.Reassembly.Slots.{concat}

length-skip : (n : ℕ) (bs : Bytes) → length (skip n bs) ≡ length bs - n
length-skip zero bs = omega arith
length-skip (suc n) [] = omega arith
length-skip (suc n) (b ∷ bs) = omega (arith, length-skip n bs)

take-skip : (n : ℕ) (bs : Bytes) → take n bs ++ skip n bs ≡ bs
take-skip zero bs = refl
take-skip (suc n) [] = refl
take-skip (suc n) (b ∷ bs) = ap (λ x. b ∷ x) (take-skip n bs)

-- The chunks one after the other are the payload.
pub concat-chunks_within :
    (fuel size : ℕ) (payload : Bytes)
    → length payload ≤ fuel
    → 0 < size
    → concat (chunks_within fuel size payload) ≡ payload
unfolding chunks_within
concat-chunks_within zero size [] le pos = refl
concat-chunks_within zero size (b ∷ bs) le pos = absurd (omega arith)
concat-chunks_within (suc fuel) size [] le pos = refl
concat-chunks_within (suc fuel) size (b ∷ bs) le pos =
    ap (λ rest. take size (b ∷ bs) ++ rest)
      (concat-chunks_within fuel size (skip size (b ∷ bs))
        (omega (arith, length-skip size (b ∷ bs))) pos)
    ∙ take-skip size (b ∷ bs)

-- There are no more of them than it takes.
pub length-chunks_within :
    (fuel size : ℕ) (payload : Bytes)
    → size ≡ 1024
    → 1024 * length (chunks_within fuel size payload) ≤ length payload + 1023
unfolding chunks_within
length-chunks_within zero size payload h = omega arith
length-chunks_within (suc fuel) size [] h = omega arith
length-chunks_within (suc fuel) size (b ∷ bs) h =
    omega
      (arith, h, length-skip size (b ∷ bs), length-chunks_within fuel size (skip size (b ∷ bs)) h)

pub pos-chunks_within :
    (fuel size : ℕ) (payload : Bytes)
    → 0 < length payload
    → length payload ≤ fuel
    → 0 < length (chunks_within fuel size payload)
unfolding chunks_within
pos-chunks_within zero size payload pos le = absurd (omega arith)
pos-chunks_within (suc fuel) size [] pos le = absurd (omega arith)
pos-chunks_within (suc fuel) size (b ∷ bs) pos le = omega arith
