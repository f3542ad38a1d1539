-- ===== src/Base/Lists.antt =====
-- Lists under Boolean tests (`any`, `retain`, `count`), and lists measured by native numbers.
use Prim.Native.Nat.{ℕ, zero, suc, ◌+◌, ◌≤◌}
use mathlib.Core.Path.{◌≡◌, refl}
use mathlib.Core.Bool.{Bool, true, false, ◌||◌}
use mathlib.Core.Option
use mathlib.Core.Option.{Option, none, some}
use mathlib.Core.List.{List, [], ◌∷◌, ◌++◌}
use native.Mathlib.Omega.{arith}
use fluxsync.Base.Tests.{if◌then◌else◌}

module _ {ℓ} {A : Type ℓ} where
  abbrev pub length : List A → ℕ
  length [] = 0
  length (x ∷ xs) = suc (length xs)

  pub length-append : (xs ys : List A) → length (xs ++ ys) ≡ length xs + length ys
  length-append [] ys = omega arith
  length-append (x ∷ xs) ys = omega (arith, length-append xs ys)

  abbrev pub is_empty : List A → Bool
  is_empty [] = true
  is_empty (x ∷ xs) = false

  abbrev pub any : (A → Bool) → List A → Bool
  any p [] = false
  any p (x ∷ xs) = p x || any p xs

  -- `Vec::retain`: keep the items that pass, in order.
  abbrev pub retain : (A → Bool) → List A → List A
  retain p [] = []
  retain p (x ∷ xs) = let rest = retain p xs in if p x then x ∷ rest else rest

  abbrev pub count : (A → Bool) → List A → ℕ
  count p [] = 0
  count p (x ∷ xs) = let rest = count p xs in if p x then suc rest else rest

  abbrev pub take : ℕ → List A → List A
  take zero xs = []
  take (suc n) [] = []
  take (suc n) (x ∷ xs) = x ∷ take n xs

  -- `Iterator::position`.
  abbrev pub position : (A → Bool) → List A → Option ℕ
  position p [] = none
  position p (x ∷ xs) = let rest = Option.map suc (position p xs) in if p x then some 0 else rest

  abbrev pub get_elem? : List A → ℕ → Option A
  get_elem? [] i = none
  get_elem? (x ∷ xs) zero = some x
  get_elem? (x ∷ xs) (suc i) = get_elem? xs i

  -- `remove(i)`; out of range nothing is removed.
  abbrev pub remove_at : List A → ℕ → List A
  remove_at [] i = []
  remove_at (x ∷ xs) zero = xs
  remove_at (x ∷ xs) (suc i) = x ∷ remove_at xs i

  -- `VecDeque::pop_front` with the value dropped.
  abbrev pub pop_front : List A → List A
  pop_front [] = []
  pop_front (x ∷ xs) = xs

module _ {ℓ} {A : Type ℓ} (p : A → Bool) where
  pub count-append : (xs ys : List A) → count p (xs ++ ys) ≡ count p xs + count p ys
  count-append [] ys = omega arith
  count-append (x ∷ xs) ys = ground (arith, count-append xs ys)

  pub any-append : (xs ys : List A) → any p (xs ++ ys) ≡ (any p xs || any p ys)
  any-append [] ys = refl
  any-append (x ∷ xs) ys = ground (arith, any-append xs ys)

  pub length-retain-le : (xs : List A) → length (retain p xs) ≤ length xs
  length-retain-le [] = omega arith
  length-retain-le (x ∷ xs) = ground (arith, length-retain-le xs)

  pub count-le-length : (xs : List A) → count p xs ≤ length xs
  count-le-length [] = omega arith
  count-le-length (x ∷ xs) = ground (arith, count-le-length xs)

module _ {ℓ} {A : Type ℓ} (p q : A → Bool) where
  -- Dropping items that `p` does not count leaves the count of `p`.
  pub count-retain :
      ((x : A) → p x ≡ true → q x ≡ true) → (xs : List A) → count p (retain q xs) ≡ count p xs
  count-retain h [] = refl
  count-retain h (x ∷ xs) = ground (arith, h x, count-retain h xs)

  pub count-retain-le : (xs : List A) → count p (retain q xs) ≤ count p xs
  count-retain-le [] = omega arith
  count-retain-le (x ∷ xs) = ground (arith, count-retain-le xs)

  -- No item that `q` refuses stays.
  pub count-retain_none :
      ((x : A) → q x ≡ true → p x ≡ false) → (xs : List A) → count p (retain q xs) ≡ 0
  count-retain_none h [] = refl
  count-retain_none h (x ∷ xs) = ground (arith, h x, count-retain_none h xs)

-- A property of every item.
abbrev pub All {ℓ κ} : {A : Type ℓ} → (A → Type κ) → List A → Type κ
All P [] = Unit
All P (x ∷ xs) = P x × All P xs

module _ {ℓ κ} {A : Type ℓ} (P : A → Type κ) where
  pub All-append : (xs ys : List A) → All P xs → All P ys → All P (xs ++ ys)
  All-append [] ys h k = k
  All-append (x ∷ xs) ys h k = (h.0, All-append xs ys h.1 k)

  pub All-retain : (q : A → Bool) (xs : List A) → All P xs → All P (retain q xs)
  All-retain q [] h = tt
  All-retain q (x ∷ xs) h = ground (arith, All-retain q xs h.1)
