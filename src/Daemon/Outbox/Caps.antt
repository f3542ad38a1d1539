-- ===== src/Daemon/Outbox/Caps.antt =====
-- The buffer keeps within its caps, and the newest entry in it.
use fluxsync.Base.{
  ℕ, ◌+◌, ◌≤◌, ◌≡◌, refl, sym, ◌∙◌, ap, subst, Bool, true, false, ◌||◌, List, [], ◌∷◌, ◌++◌, map,
  some, arith, ◌==◌, any-append, retain, length, if_split, Bool-cases, Option-cases, inl, inr,
  ==_iff, ==_self, u64_max,
}
use fluxsync.Base.BTree
use fluxsync.Base.BTree.{nat_ord}
use fluxsync.Daemon.Outbox.{
  max_items, max_total_bytes, Entry, Outbox, is_expired, remove_entry, remove, remove_many,
  purge_expired, evict_entry, is_over_caps, evict_from, evict_over_caps, append, insert, clear_all,
  is_live,
}
use fluxsync.Base.BTree.Laws.{get-insert, get-remove}
use fluxsync.Daemon.Outbox.Sync.{
  in_order, size_of, bytes_of, AreDistinct, bytes_of-insert, IsInSync, in_order-drop_hash,
}
use fluxsync.Daemon.Outbox.Removal.{
  live-insert, remove-IsInSync, remove_many-IsInSync, evict_entry-IsInSync,
}

abbrev pub IsWithinCaps : Outbox → Type 0
IsWithinCaps o = (length o.order ≤ max_items) × (o.total_bytes ≤ max_total_bytes)

evict_from-IsInSync :
    (hs : List ℕ) (o : Outbox)
    → IsInSync (record o { order = hs })
    → IsInSync (evict_from hs o) × IsWithinCaps (evict_from hs o)
unfolding evict_from
evict_from-IsInSync [] o s = (s, (omega arith, omega (arith, s.counted)))
evict_from-IsInSync (h ∷ hs) o s =
    let next = evict_entry o h (BTree.get h o.entries) in
    if_split (λ (x : Outbox). IsInSync x × IsWithinCaps x) (is_over_caps (h ∷ hs) o)
      (evict_from hs next) (record o { order = h ∷ hs })
      (λ _. evict_from-IsInSync hs next (evict_entry-IsInSync o h hs s))
      (λ within. (s, within_caps within))
  where
    within_caps :
        is_over_caps (h ∷ hs) o ≡ false
        → (length (h ∷ hs) ≤ max_items) × (o.total_bytes ≤ max_total_bytes)
    within_caps w = ground arith

abbrev is_last : ℕ → List ℕ → Bool
is_last h [] = false
is_last h (k ∷ []) = k == h
is_last h (k ∷ j ∷ ks) = is_last h (j ∷ ks)

in_order_last : (h : ℕ) (hs : List ℕ) → is_last h hs ≡ true → in_order h hs ≡ true
in_order_last h [] e = ground arith
in_order_last h (k ∷ []) e = ground arith
in_order_last h (k ∷ j ∷ ks) e = ground (arith, in_order_last h (j ∷ ks) e)

evict_entry-get :
    (o : Outbox) (k h : ℕ)
    → (k == h) ≡ false
    → BTree.get h (evict_entry o k (BTree.get k o.entries)).entries ≡ BTree.get h o.entries
unfolding evict_entry
evict_entry-get o k h ne = elim (Option-cases (BTree.get k o.entries)) [
  | inl missing ↦ rw missing
  | inr (e, found) ↦ rw found (ground (arith, get-remove h k o.entries))
]

other_hash :
    (k h : ℕ) (hs : List ℕ) → in_order k hs ≡ false → in_order h hs ≡ true → (k == h) ≡ false
other_hash k h hs out here = elim (Bool-cases (k == h)) [
  | inl same ↦ absurd (ground (arith, ap (λ x. in_order x hs) ((==_iff k h).0 same), out, here))
  | inr other ↦ other
]

-- The newest entry is not evicted, if it fits at all.
evict_from-newest :
    (hs : List ℕ) (o : Outbox) (h : ℕ)
    → IsInSync (record o { order = hs })
    → is_last h hs ≡ true
    → size_of (BTree.get h o.entries) ≤ max_total_bytes
    → BTree.get h (evict_from hs o).entries ≡ BTree.get h o.entries
unfolding evict_from
evict_from-newest [] o h s last fits = refl
evict_from-newest (k ∷ []) o h s last fits =
    let next = evict_entry o k (BTree.get k o.entries) in
    let same : k ≡ h = (==_iff k h).0 last in
    if_split (λ (x : Outbox). BTree.get h x.entries ≡ BTree.get h o.entries)
      (is_over_caps (k ∷ []) o) (evict_from [] next) (record o { order = k ∷ [] })
      (λ over.
        absurd
          (ground (arith, over, s.counted, fits, ap (λ x. size_of (BTree.get x o.entries)) same)))
      (λ _. refl)
evict_from-newest (k ∷ j ∷ ks) o h s last fits =
    let next = evict_entry o k (BTree.get k o.entries) in
    let other : (k == h) ≡ false =
      other_hash k h (j ∷ ks) s.distinct.0 (in_order_last h (j ∷ ks) last) in
    if_split (λ (x : Outbox). BTree.get h x.entries ≡ BTree.get h o.entries)
      (is_over_caps (k ∷ j ∷ ks) o) (evict_from (j ∷ ks) next) (record o { order = k ∷ j ∷ ks })
      (λ _.
        evict_from-newest (j ∷ ks) next h (evict_entry-IsInSync o k (j ∷ ks) s) last
          (subst (λ e. size_of e ≤ max_total_bytes) (sym (evict_entry-get o k h other)) fits)
        ∙ evict_entry-get o k h other)
      (λ _. refl)

in_order-append : (x h : ℕ) (hs : List ℕ) → in_order x (hs ++ h ∷ []) ≡ (in_order x hs || h == x)
in_order-append x h hs = ground (arith, any-append (λ k. k == x) hs (h ∷ []))

AreDistinct-append :
    (h : ℕ) (hs : List ℕ) → AreDistinct hs → in_order h hs ≡ false → AreDistinct (hs ++ h ∷ [])
AreDistinct-append h [] d out = (refl, tt)
AreDistinct-append h (k ∷ hs) d out =
    (ground (arith, in_order-append k h hs, d.0), AreDistinct-append h hs d.1 (ground arith))

bytes_of-append :
    (h : ℕ) (hs : List ℕ) (m : List (ℕ × Entry))
    → bytes_of (hs ++ h ∷ []) m ≡ bytes_of hs m + size_of (BTree.get h m)
bytes_of-append h [] m = omega arith
bytes_of-append h (k ∷ hs) m = omega (arith, bytes_of-append h hs m)

is_last-append : (h : ℕ) (hs : List ℕ) → is_last h (hs ++ h ∷ []) ≡ true
is_last-append h [] = ==_self h
is_last-append h (k ∷ []) = ==_self h
is_last-append h (k ∷ j ∷ hs) = is_last-append h (j ∷ hs)

append-IsInSync :
    (o : Outbox) (h : ℕ) (e : Entry)
    → IsInSync o
    → in_order h o.order ≡ false
    → o.total_bytes + length e.payload ≤ u64_max
    → IsInSync (append o h e)
unfolding append
append-IsInSync o h e s out small = record {
  distinct = AreDistinct-append h o.order s.distinct out;
  same = λ x. ground (arith, s.same x, in_order-append x h o.order, live-insert x h e o.entries);
  counted = ground (
    arith,
    s.counted,
    bytes_of-append h o.order (BTree.insert h e o.entries),
    bytes_of-insert h e o.order o.entries out,
    ap size_of (get-insert h h e o.entries),
    ==_self h,
  );
}

get-insert_same :
    (h : ℕ) (e : Entry) (m : List (ℕ × Entry)) → BTree.get h (BTree.insert h e m) ≡ some e
get-insert_same h e m = ground (arith, get-insert h h e m, ==_self h)

-- A removal leaves the hash out and never adds bytes.
remove-leaves :
    (o : Outbox) (h : ℕ)
    → IsInSync o
    → (in_order h (remove o h).order ≡ false) × ((remove o h).total_bytes ≤ o.total_bytes)
unfolding remove remove_entry
remove-leaves o h s = elim (Option-cases (BTree.get h o.entries)) [
  | inl missing ↦ rw missing (ground (arith, s.same h, ap is_live missing), omega arith)
  | inr (e, found) ↦
      rw found (ground (arith, in_order-drop_hash h h o.order s.distinct, ==_self h), omega arith)
]

remove_many-total :
    (o : Outbox) (hs : List ℕ) → IsInSync o → (remove_many o hs).total_bytes ≤ o.total_bytes
unfolding remove_many
remove_many-total o [] s = omega arith
remove_many-total o (h ∷ hs) s =
    omega
      (arith, remove_many-total (remove o h) hs (remove-IsInSync o h s), (remove-leaves o h s).1)

-- An insertion leaves the buffer within both of its caps with its hashes, entries and byte count in
-- agreement, and the new entry in it, whatever it evicts; removals and clearing keep the agreement.
pub insert-keeps_IsInSync :
    (o : Outbox) (h : ℕ) (e : Entry) (now : ℕ) (gone : List ℕ)
    → IsInSync o
    → o.total_bytes ≤ max_total_bytes
    → length e.payload ≤ max_total_bytes
    → let next = insert o h e now in
      IsInSync next
      × IsWithinCaps next
      × (BTree.get h next.entries ≡ some e)
      × IsInSync (remove_many o gone)
      × IsInSync (clear_all o)
unfolding insert purge_expired evict_over_caps clear_all
insert-keeps_IsInSync o h e now gone s room fits =
    let kept = purged-IsInSync in
    let room_left : removed.total_bytes ≤ max_total_bytes =
      omega (arith, remove_many-total o expired s, (remove-leaves purged h kept).1) in
    let whole =
      append-IsInSync removed h e (remove-IsInSync purged h kept) (remove-leaves purged h kept).0
        (omega (arith, room_left)) in
    let newest : BTree.get h added.entries ≡ some e = added_newest in
    (
      (evict_from-IsInSync added.order added whole).0,
      (evict_from-IsInSync added.order added whole).1,
      evict_from-newest added.order added h whole added_last (added_fits newest) ∙ newest,
      remove_many-IsInSync o gone s,
      record { distinct = tt; same = λ x. refl; counted = refl },
    )
  where
    expired : List ℕ
    expired = map (λ x. x.0) (retain (λ x. is_expired o.max_age now x.1) o.entries)

    purged : Outbox
    purged = remove_many o expired

    purged-IsInSync : IsInSync purged
    purged-IsInSync = remove_many-IsInSync o expired s

    removed : Outbox
    removed = remove purged h

    added : Outbox
    added = append removed h e

    added_last : is_last h added.order ≡ true
    added_last = is_last-append h removed.order

    added_newest : BTree.get h added.entries ≡ some e
    added_newest = get-insert_same h e removed.entries

    added_fits :
        BTree.get h added.entries ≡ some e → size_of (BTree.get h added.entries) ≤ max_total_bytes
    added_fits found = subst (λ x. size_of x ≤ max_total_bytes) (sym found) fits
