-- ===== src/Core/App/Rows.antt =====
-- What a new row does to the history: it comes first, nothing that is pinned goes, and few rows
-- that are not pinned stay.
use mathlib.Core.Option
use fluxsync.Base.{
  ℕ, zero, suc, ◌+◌, ◌-◌, ◌≤◌, min, max, ◌≡◌, refl, ap, subst, Bool-cases, inl, inr, ◌∙◌, Bool,
  true, false, not, ◌||◌, List, [], ◌∷◌, Option, none, some, arith, if◌then◌else◌, position,
  remove_at, count, length, leb, ltb, if_holds, if_split, count-le-length,
}
use fluxsync.Core.App.{history_soft_cap}
use fluxsync.Core.App.History.{
  cap_from, cap_history_keeping_favorites, cap_if_long, take_row, push_row, pinned_at, same_row,
}
use fluxsync.Core.State.{HistoryItem}

abbrev pub is_pinned : HistoryItem → Bool
is_pinned h = h.favorite

abbrev pub is_loose : HistoryItem → Bool
is_loose h = not h.favorite

-- The walk that met `n` loose rows lets as many more pass as the cap leaves.
cap_from-loose :
    (n : ℕ) (hs : List HistoryItem)
    → count is_loose (cap_from n hs) ≡ min (count is_loose hs) (history_soft_cap - n)
unfolding cap_from
cap_from-loose n [] = ground arith
cap_from-loose n (h ∷ hs) = ground (arith, cap_from-loose n hs, cap_from-loose (n + 1) hs)

cap_from-pinned :
    (n : ℕ) (hs : List HistoryItem) → count is_pinned (cap_from n hs) ≡ count is_pinned hs
unfolding cap_from
cap_from-pinned n [] = refl
cap_from-pinned n (h ∷ hs) = ground (arith, cap_from-pinned n hs, cap_from-pinned (n + 1) hs)

count-remove_at :
    (hs : List HistoryItem) (i : ℕ)
    → count is_pinned (remove_at hs i) + (if pinned_at hs i then 1 else 0) ≡ count is_pinned hs
count-remove_at [] i = refl
count-remove_at (h ∷ hs) zero = ground arith
count-remove_at (h ∷ hs) (suc i) = ground (arith, count-remove_at hs i)

take_row-pinned :
    (hs : List HistoryItem) (item : HistoryItem) (o : Option ℕ)
    → item.favorite ≡ false
    → count is_pinned (take_row hs item o) ≡ count is_pinned hs
unfolding take_row
take_row-pinned hs item none h = ground arith
take_row-pinned hs item (some i) h = ground (arith, count-remove_at hs i)

-- The pin of the first row that this one repeats.
abbrev pub pin_of : HistoryItem → List HistoryItem → Bool
pin_of item [] = false
pin_of item (h ∷ hs) = let rest = pin_of item hs in if same_row item h then h.favorite else rest

abbrev found_pin : List HistoryItem → Option ℕ → Bool
found_pin hs none = false
found_pin hs (some i) = pinned_at hs i

found_pin-suc :
    (h : HistoryItem) (hs : List HistoryItem) (o : Option ℕ)
    → found_pin (h ∷ hs) (Option.map suc o) ≡ found_pin hs o
found_pin-suc h hs none = refl
found_pin-suc h hs (some i) = refl

found_pin-position :
    (item : HistoryItem) (hs : List HistoryItem)
    → found_pin hs (position (same_row item) hs) ≡ pin_of item hs
found_pin-position item [] = refl
found_pin-position item (h ∷ hs) = elim (Bool-cases (same_row item h)) [
  | inl same ↦ rw same refl
  | inr other ↦
      rw other (found_pin-suc h hs (position (same_row item) hs) ∙ found_pin-position item hs)
]

-- How many rows the one at the place that was found leaves.
abbrev Found : (HistoryItem → Bool) → List HistoryItem → Option ℕ → Type 0
Found p hs none = count p hs ≡ 0
Found p hs (some i) = count p (remove_at hs i) + 1 ≡ count p hs

Found-suc :
    (p : HistoryItem → Bool) (h : HistoryItem) (hs : List HistoryItem) (o : Option ℕ)
    → p h ≡ false
    → Found p hs o
    → Found p (h ∷ hs) (Option.map suc o)
Found-suc p h hs none other f = ground (arith, other, f)
Found-suc p h hs (some i) other f = ground (arith, other, f)

position-Found : (p : HistoryItem → Bool) (hs : List HistoryItem) → Found p hs (position p hs)
position-Found p [] = refl
position-Found p (h ∷ hs) = elim (Bool-cases (p h)) [
  | inl here ↦ rw here (ground (arith, here))
  | inr other ↦ rw other (Found-suc p h hs (position p hs) other (position-Found p hs))
]

take_row-le :
    (p : HistoryItem → Bool) (hs : List HistoryItem) (item : HistoryItem) (o : Option ℕ)
    → Found p hs o
    → count p (take_row hs item o) ≤ max 1 (count p hs)
unfolding take_row
take_row-le p hs item none f = ground (arith, f)
take_row-le p hs item (some i) f = ground (arith, f)

cap_from-le :
    (p : HistoryItem → Bool) (n : ℕ) (hs : List HistoryItem) → count p (cap_from n hs) ≤ count p hs
unfolding cap_from
cap_from-le p n [] = omega arith
cap_from-le p n (h ∷ hs) = ground (arith, cap_from-le p n hs, cap_from-le p (n + 1) hs)

-- The first row is this one.
abbrev pub IsFirst : HistoryItem → List HistoryItem → Type 0
IsFirst item [] = ⊥
IsFirst item (h ∷ hs) = h ≡ item

or_false : (b : Bool) → b ≡ (b || false)
or_false true = refl
or_false false = refl

take_row-IsFirst :
    (hs : List HistoryItem) (item : HistoryItem) (o : Option ℕ)
    → IsFirst (record item { favorite = item.favorite || found_pin hs o }) (take_row hs item o)
unfolding take_row
take_row-IsFirst hs item none = ap (λ b. record item { favorite = b }) (or_false item.favorite)
take_row-IsFirst hs item (some i) = refl

or_true : (b : Bool) → (b || true) ≡ false → ⊥
or_true b h = ground arith

cap_from-IsFirst :
    (hs : List HistoryItem) (item : HistoryItem) → IsFirst item hs → IsFirst item (cap_from 0 hs)
unfolding cap_from
cap_from-IsFirst [] item h = h
cap_from-IsFirst (h ∷ hs) item e =
    let rest = cap_from (if h.favorite then 0 else 1) hs in
    if_split (IsFirst item) (h.favorite || leb 1 history_soft_cap) (h ∷ rest) rest (λ _. e)
      (λ no. absurd (or_true h.favorite no))

module _ (hs : List HistoryItem) where
  cap_if_long-loose : count is_loose (cap_if_long hs) ≤ history_soft_cap
  unfolding cap_if_long cap_history_keeping_favorites
  cap_if_long-loose = ground (arith, cap_from-loose 0 hs, count-le-length is_loose hs)

  cap_if_long-pinned : count is_pinned (cap_if_long hs) ≡ count is_pinned hs
  unfolding cap_if_long cap_history_keeping_favorites
  cap_if_long-pinned = ground (arith, cap_from-pinned 0 hs)

  cap_if_long-le : (p : HistoryItem → Bool) → count p (cap_if_long hs) ≤ count p hs
  unfolding cap_if_long cap_history_keeping_favorites
  cap_if_long-le p = ground (arith, cap_from-le p 0 hs)

  cap_if_long-IsFirst : (item : HistoryItem) → IsFirst item hs → IsFirst item (cap_if_long hs)
  unfolding cap_if_long cap_history_keeping_favorites
  cap_if_long-IsFirst item h =
      if_holds (IsFirst item) (ltb history_soft_cap (length hs)) (cap_from 0 hs) hs
        (cap_from-IsFirst hs item h) h

-- A new row, not pinned, comes first, with the pin of the row that it repeats, which goes: of the rows
-- that are the same as this one, one is there then, or not more than before. As many rows are pinned
-- as before; and at most fifty that are not pinned stay.
pub push_row_keeps :
    (hs : List HistoryItem) (item : HistoryItem)
    → item.favorite ≡ false
    → IsFirst (record item { favorite = pin_of item hs }) (push_row hs item)
      × (count (same_row item) (push_row hs item) ≤ max 1 (count (same_row item) hs))
      × (count is_pinned (push_row hs item) ≡ count is_pinned hs)
      × (count is_loose (push_row hs item) ≤ history_soft_cap)
unfolding push_row
push_row_keeps hs item h =
    let found = position (same_row item) hs in
    let taken = take_row hs item found in
    let pin : (item.favorite || found_pin hs found) ≡ pin_of item hs =
      ap (λ b. b || found_pin hs found) h ∙ found_pin-position item hs in
    let first : IsFirst (record item { favorite = pin_of item hs }) taken =
      subst (λ b. IsFirst (record item { favorite = b }) taken) pin
        (take_row-IsFirst hs item found) in
    let once = take_row-le (same_row item) hs item found (position-Found (same_row item) hs) in
    (
      cap_if_long-IsFirst taken (record item { favorite = pin_of item hs }) first,
      omega (arith, once, cap_if_long-le taken (same_row item)),
      cap_if_long-pinned taken ∙ take_row-pinned hs item found h,
      cap_if_long-loose taken,
    )
