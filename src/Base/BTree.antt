-- ===== src/Base/BTree.antt =====
-- `BTreeMap` as an association list in the order of its keys. A lookup takes the first entry of
-- its key; an insertion keeps the list sorted.
pub mod Laws
pub mod Sorted
use Prim.Native.Nat.{ℕ, Ordering, compare}
use Prim.Native.String.{String, compare as compare_string}
use mathlib.Core.Bool.{Bool, true, false}
use mathlib.Core.List.{List, [], ◌∷◌}
use mathlib.Core.Option.{Option, none, some}
use fluxsync.Base.Tests.{if◌then◌else◌}

-- The order of a key type, as `Ord` gives it.
pub record Ord (K : Type 0) : Type 0 where
  pub cmp : K → K → Ordering

abbrev pub is_eq : Ordering → Bool
is_eq Ordering.eq = true
is_eq _ = false

instance abbrev pub nat_ord : Ord ℕ
nat_ord = record { cmp = compare }

instance abbrev pub string_ord : Ord String
string_ord = record { cmp = compare_string }

module _ {K V : Type 0} ⦃o : Ord K⦄ where
  abbrev pub get : K → List (K × V) → Option V
  get k [] = none
  get k ((j, v) ∷ m) = let rest = get k m in if is_eq (o.cmp j k) then some v else rest

  abbrev pub contains_key : K → List (K × V) → Bool
  contains_key k [] = false
  contains_key k ((j, v) ∷ m) =
      let rest = contains_key k m in if is_eq (o.cmp j k) then true else rest

  abbrev pub insert : K → V → List (K × V) → List (K × V)
  insert k v [] = (k, v) ∷ []
  insert k v ((j, w) ∷ m) =
      let rest = insert k v m in
      elim (o.cmp k j) [
        | Ordering.lt ↦ (k, v) ∷ (j, w) ∷ m
        | Ordering.eq ↦ (k, v) ∷ m
        | Ordering.gt ↦ (j, w) ∷ rest
      ]

  abbrev pub remove : K → List (K × V) → List (K × V)
  remove k [] = []
  remove k ((j, v) ∷ m) = let rest = remove k m in if is_eq (o.cmp j k) then rest else (j, v) ∷ rest
