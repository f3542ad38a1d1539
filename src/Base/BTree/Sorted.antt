-- ===== src/Base/BTree/Sorted.antt =====
-- Maps whose keys ascend, as those of the program do.
use fluxsync.Base.BTree
use fluxsync.Base.BTree.{nat_ord}
use Prim.Native.Nat.{ℕ, ◌<◌}
use mathlib.Core.Path.{◌≡◌, refl}
use mathlib.Core.Bool.{Bool, true, false}
use mathlib.Core.List.{List, [], ◌∷◌}
use mathlib.Core.Option.{none}
use native.Mathlib.Omega.{arith}
use fluxsync.Base.Lists.{length, retain}

module _ {V : Type 0} where
  abbrev pub IsBelow : ℕ → List (ℕ × V) → Type 0
  IsBelow k [] = Unit
  IsBelow k ((j, v) ∷ m) = (k < j) × IsBelow k m

  abbrev pub IsSorted : List (ℕ × V) → Type 0
  IsSorted [] = Unit
  IsSorted ((j, v) ∷ m) = IsBelow j m × IsSorted m

  IsBelow-insert :
      (i k : ℕ) (v : V) (m : List (ℕ × V)) → i < k → IsBelow i m → IsBelow i (BTree.insert k v m)
  IsBelow-insert i k v [] lt h = (lt, tt)
  IsBelow-insert i k v ((j, w) ∷ m) lt h = ground (arith, IsBelow-insert i k v m lt h.1)

  IsBelow-trans : (i k : ℕ) (m : List (ℕ × V)) → i < k → IsBelow k m → IsBelow i m
  IsBelow-trans i k [] lt h = tt
  IsBelow-trans i k ((j, w) ∷ m) lt h = (omega (arith, h.0), IsBelow-trans i k m lt h.1)

  pub insert-IsSorted :
      (k : ℕ) (v : V) (m : List (ℕ × V)) → IsSorted m → IsSorted (BTree.insert k v m)
  insert-IsSorted k v [] h = (tt, tt)
  insert-IsSorted k v ((j, w) ∷ m) h =
      ground (arith, insert-IsSorted k v m h.1, IsBelow-trans k j m, IsBelow-insert j k v m)

  remove-IsBelow : (i k : ℕ) (m : List (ℕ × V)) → IsBelow i m → IsBelow i (BTree.remove k m)
  remove-IsBelow i k [] h = tt
  remove-IsBelow i k ((j, w) ∷ m) h = ground (arith, remove-IsBelow i k m h.1)

  pub remove-IsSorted : (k : ℕ) (m : List (ℕ × V)) → IsSorted m → IsSorted (BTree.remove k m)
  remove-IsSorted k [] h = tt
  remove-IsSorted k ((j, w) ∷ m) h =
      ground (arith, remove-IsSorted k m h.1, remove-IsBelow j k m h.0)

  retain-IsBelow :
      (p : ℕ × V → Bool) (i : ℕ) (m : List (ℕ × V)) → IsBelow i m → IsBelow i (retain p m)
  retain-IsBelow p i [] h = tt
  retain-IsBelow p i ((j, w) ∷ m) h = ground (arith, retain-IsBelow p i m h.1)

  pub retain-IsSorted : (p : ℕ × V → Bool) (m : List (ℕ × V)) → IsSorted m → IsSorted (retain p m)
  retain-IsSorted p [] h = tt
  retain-IsSorted p ((j, w) ∷ m) h =
      ground (arith, retain-IsSorted p m h.1, retain-IsBelow p j m h.0)

  pub absent_below : (k : ℕ) (m : List (ℕ × V)) → IsBelow k m → BTree.contains_key k m ≡ false
  absent_below k [] h = refl
  absent_below k ((j, w) ∷ m) h = ground (arith, absent_below k m h.1)

  -- An insertion at a key that is there keeps the length.
  pub length-insert_held :
      (k : ℕ) (v : V) (m : List (ℕ × V))
      → IsSorted m
      → BTree.contains_key k m ≡ true
      → length (BTree.insert k v m) ≡ length m
  length-insert_held k v [] h held = ground arith
  length-insert_held k v ((j, w) ∷ m) h held =
      ground (arith, length-insert_held k v m h.1, IsBelow-trans k j m, absent_below k m)

  pub get_below : (k : ℕ) (m : List (ℕ × V)) → IsBelow k m → BTree.get k m ≡ none
  get_below k [] h = refl
  get_below k ((j, w) ∷ m) h = ground (arith, get_below k m h.1)
