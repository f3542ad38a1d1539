-- ===== src/Daemon/Driver/Reassembly/Slots.antt =====
-- The slots of a transfer, and the bytes that they hold.
use mathlib.Core.Bool.{true≢false}
use fluxsync.Base.{
  ℕ, zero, suc, ◌<◌, ◌≡◌, refl, sym, ap, ◌∙◌, Bool, true, false, ◌||◌, List, [], ◌∷◌, ◌++◌, Option,
  none, some, arith, ◌==◌, is_some, Option-cases, inl, inr, length, get_elem?,
}
use fluxsync.Core.Events.{Bytes}
use fluxsync.Daemon.Driver.Reassembly.{nones, fill, prepend, joined}

abbrev pub concat : List Bytes → Bytes
concat [] = []
concat (p ∷ ps) = p ++ concat ps

-- What is there is the part of its place.
abbrev pub Fits : List (Option Bytes) → List Bytes → Type 0
Fits [] [] = Unit
Fits [] (p ∷ ps) = ⊥
Fits (c ∷ cs) [] = ⊥
Fits (none ∷ cs) (p ∷ ps) = Fits cs ps
Fits (some b ∷ cs) (p ∷ ps) = (b ≡ p) × Fits cs ps

abbrev pub filled : ℕ → List (Option Bytes) → Bool
filled i [] = false
filled zero (c ∷ cs) = is_some c
filled (suc i) (c ∷ cs) = filled i cs

some_inj : {x y : Bytes} → some x ≡ some y → x ≡ y
some_inj h = ground arith

pub Fits-nones : (parts : List Bytes) → Fits (nones (length parts)) parts
Fits-nones [] = tt
Fits-nones (p ∷ ps) = Fits-nones ps

pub filled-nones : (i n : ℕ) → filled i (nones n) ≡ false
filled-nones i zero = refl
filled-nones zero (suc n) = refl
filled-nones (suc i) (suc n) = filled-nones i n

pub Fits-fill :
    (i : ℕ) (b : Bytes) (cs : List (Option Bytes)) (ps : List Bytes)
    → get_elem? ps i ≡ some b
    → Fits cs ps
    → Fits (fill i b cs) ps
Fits-fill i b [] [] at fits = fits
Fits-fill i b [] (p ∷ ps) at fits = fits
Fits-fill i b (c ∷ cs) [] at fits = absurd fits
Fits-fill zero b (none ∷ cs) (p ∷ ps) at fits = (ground arith, fits)
Fits-fill zero b (some d ∷ cs) (p ∷ ps) at fits = (ground arith, fits.1)
Fits-fill (suc i) b (none ∷ cs) (p ∷ ps) at fits = Fits-fill i b cs ps at fits
Fits-fill (suc i) b (some d ∷ cs) (p ∷ ps) at fits = (fits.0, Fits-fill i b cs ps at fits.1)

pub filled-fill :
    (i j : ℕ) (b : Bytes) (cs : List (Option Bytes))
    → j < length cs
    → filled i (fill j b cs) ≡ (i == j || filled i cs)
filled-fill i j b [] lt = absurd (omega arith)
filled-fill zero zero b (c ∷ cs) lt = ground arith
filled-fill zero (suc j) b (c ∷ cs) lt = ground arith
filled-fill (suc i) zero b (c ∷ cs) lt = ground arith
filled-fill (suc i) (suc j) b (c ∷ cs) lt = filled-fill i j b cs (omega arith) ∙ ground arith

pub length-Fits : (cs : List (Option Bytes)) (ps : List Bytes) → Fits cs ps → length cs ≡ length ps
length-Fits [] [] fits = refl
length-Fits [] (p ∷ ps) fits = absurd fits
length-Fits (c ∷ cs) [] fits = absurd fits
length-Fits (none ∷ cs) (p ∷ ps) fits = ap suc (length-Fits cs ps fits)
length-Fits (some b ∷ cs) (p ∷ ps) fits = ap suc (length-Fits cs ps fits.1)

-- Whatever comes out whole is the parts one after the other.
pub joined-Fits :
    (cs : List (Option Bytes)) (ps : List Bytes) (full : Bytes)
    → Fits cs ps
    → joined cs ≡ some full
    → full ≡ concat ps
unfolding joined
joined-Fits [] [] full fits h = ground arith
joined-Fits [] (p ∷ ps) full fits h = absurd fits
joined-Fits (c ∷ cs) [] full fits h = absurd fits
joined-Fits (none ∷ cs) (p ∷ ps) full fits h = ground arith
joined-Fits (some b ∷ cs) (p ∷ ps) full fits h = elim (Option-cases (joined cs)) [
  | inl gap ↦ ground arith
  | inr (rest, whole) ↦
      let tail = joined-Fits cs ps rest fits.1 whole in
      some_inj (sym h ∙ ap (prepend (some b)) whole ∙ rw (fits.0, tail) refl)
]

-- It comes out whole when every slot is filled.
pub joined-filled :
    (cs : List (Option Bytes)) (ps : List Bytes)
    → Fits cs ps
    → ((i : ℕ) → i < length ps → filled i cs ≡ true)
    → joined cs ≡ some (concat ps)
unfolding joined
joined-filled [] [] fits all = refl
joined-filled [] (p ∷ ps) fits all = absurd fits
joined-filled (c ∷ cs) [] fits all = absurd fits
joined-filled (none ∷ cs) (p ∷ ps) fits all = absurd (true≢false (sym (all 0 (omega arith))))
joined-filled (some b ∷ cs) (p ∷ ps) fits all =
    let rest = joined-filled cs ps fits.1 (λ i lt. all (suc i) (omega arith)) in
    rw (rest, fits.0) refl
