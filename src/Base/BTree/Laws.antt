-- ===== src/Base/BTree/Laws.antt =====
-- Lookups in a map keyed by numbers, after an insertion or a removal, and its size.
use Prim.Native.Nat.{ℕ, ◌+◌, ◌≤◌}
use mathlib.Core.Path.{◌≡◌, refl}
use mathlib.Core.Bool.{true}
use mathlib.Core.List.{List, [], ◌∷◌}
use mathlib.Core.Option.{none, some}
use native.Mathlib.Omega.{arith}
use fluxsync.Base.Tests.{◌==◌, if◌then◌else◌, is_some}
use fluxsync.Base.Lists.{length}
use fluxsync.Base.BTree.{nat_ord, get, contains_key, insert, remove}

module _ {V : Type 0} where
  pub get-insert :
      (h k : ℕ) (v : V) (m : List (ℕ × V))
      → get h (insert k v m) ≡ (if h == k then some v else get h m)
  get-insert h k v [] = ground arith
  get-insert h k v ((j, w) ∷ m) = ground (arith, get-insert h k v m)

  pub get-remove :
      (h k : ℕ) (m : List (ℕ × V)) → get h (remove k m) ≡ (if h == k then none else get h m)
  get-remove h k [] = ground arith
  get-remove h k ((j, w) ∷ m) = ground (arith, get-remove h k m)

  pub length-remove : (k : ℕ) (m : List (ℕ × V)) → length (remove k m) ≤ length m
  length-remove k [] = omega arith
  length-remove k ((j, w) ∷ m) = ground (arith, length-remove k m)

  pub length-remove_held :
      (k : ℕ) (m : List (ℕ × V)) → contains_key k m ≡ true → length (remove k m) + 1 ≤ length m
  length-remove_held k [] h = ground arith
  length-remove_held k ((j, w) ∷ m) h = ground (arith, length-remove k m, length-remove_held k m)

  pub length-insert : (k : ℕ) (v : V) (m : List (ℕ × V)) → length (insert k v m) ≤ length m + 1
  length-insert k v [] = omega arith
  length-insert k v ((j, w) ∷ m) = ground (arith, length-insert k v m)

  pub contains_key-insert :
      (h k : ℕ) (v : V) (m : List (ℕ × V))
      → contains_key h (insert k v m) ≡ (if h == k then true else contains_key h m)
  contains_key-insert h k v [] = ground arith
  contains_key-insert h k v ((j, w) ∷ m) = ground (arith, contains_key-insert h k v m)

  pub contains_key-is_some : (k : ℕ) (m : List (ℕ × V)) → contains_key k m ≡ is_some (get k m)
  contains_key-is_some k [] = refl
  contains_key-is_some k ((j, w) ∷ m) = ground (arith, contains_key-is_some k m)
