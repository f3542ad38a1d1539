-- ===== src/Base/Aged.antt =====
-- An entry of a queue and how many newer ones stand behind it; numbers that stand in a list once.
use Prim.Native.Nat.{ℕ, ◌+◌, ◌<◌}
use mathlib.Core.Path.{◌≡◌, refl, ap}
use mathlib.Core.Bool.{Bool, false, not}
use mathlib.Core.List.{List, [], ◌∷◌, ◌++◌, append_assoc}
use native.Mathlib.Omega.{arith}
use fluxsync.Base.Tests.{◌==◌, if◌then◌else◌}
use fluxsync.Base.Lists.{length, length-append, pop_front, any, any-append, retain}

module _ {ℓ} {A : Type ℓ} where
  pub record IsAged (x : A) (age : ℕ) (xs : List A) : Type ℓ where
    pub older : List A
    pub newer : List A
    pub splits : xs ≡ older ++ x ∷ newer
    pub aged : length newer ≡ age

  pub IsAged-append :
      (x y : A) {age : ℕ} (xs : List A) → IsAged x age xs → IsAged x (age + 1) (xs ++ y ∷ [])
  IsAged-append x y {age} xs h = record {
    older = h.older;
    newer = h.newer ++ y ∷ [];
    splits = rw h.splits (append_assoc h.older (x ∷ h.newer) (y ∷ []));
    aged = omega (arith, length-append h.newer (y ∷ []), h.aged);
  }

  pub IsAged-pop :
      (x : A) (age : ℕ) (older newer : List A) (xs : List A)
      → xs ≡ older ++ x ∷ newer
      → length newer ≡ age
      → age + 1 < length xs
      → IsAged x age (pop_front xs)
  IsAged-pop x age [] newer xs e a h = absurd (omega (arith, ap length e))
  IsAged-pop x age (o ∷ older) newer xs e a h = record {
    older = older;
    newer = newer;
    splits = rw e refl;
    aged = a;
  }

abbrev pub has : ℕ → List ℕ → Bool
has x xs = any (λ y. y == x) xs

abbrev pub AreDistinct : List ℕ → Type 0
AreDistinct [] = Unit {0}
AreDistinct (x ∷ xs) = (has x xs ≡ false) × AreDistinct xs

pub has-append :
    (x : ℕ) (xs ys : List ℕ) → has x xs ≡ false → has x ys ≡ false → has x (xs ++ ys) ≡ false
has-append x xs ys h k = ground (arith, any-append (λ y. y == x) xs ys)

pub AreDistinct-append :
    (x : ℕ) (xs : List ℕ) → has x xs ≡ false → AreDistinct xs → AreDistinct (xs ++ x ∷ [])
AreDistinct-append x [] h d = (refl, tt)
AreDistinct-append x (y ∷ ys) h d =
    ground (arith, has-append y ys (x ∷ []), AreDistinct-append x ys)

pub has-retain :
    (x y : ℕ) (xs : List ℕ)
    → has x (retain (λ e. not (e == y)) xs) ≡ (if x == y then false else has x xs)
has-retain x y [] = ground arith
has-retain x y (e ∷ xs) = ground (arith, has-retain x y xs)
