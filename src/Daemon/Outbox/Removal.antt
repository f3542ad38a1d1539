-- ===== src/Daemon/Outbox/Removal.antt =====
-- Removals and evictions keep the three parts of the buffer in agreement.
use fluxsync.Base.{
  ℕ, ◌≡◌, ◌∙◌, true, not, ◌&&◌, ◌||◌, List, [], ◌∷◌, Option, none, some, arith, ◌==◌, length,
  Option-cases, inl, inr, ==_self,
}
use fluxsync.Base.BTree
use fluxsync.Base.BTree.{nat_ord}
use fluxsync.Daemon.Outbox.{
  Entry, Outbox, drop_hash, remove_entry, remove, remove_many, evict_entry, is_live,
}
use fluxsync.Base.BTree.Laws.{get-insert, get-remove}
use fluxsync.Daemon.Outbox.Sync.{
  size_of, bytes_of-remove, IsInSync, in_order-drop_hash, AreDistinct-drop_hash, bytes_of-drop_hash,
}

pub live_some :
    (o : Option Entry) (e : Entry)
    → o ≡ some e
    → (is_live o ≡ true) × (size_of o ≡ length e.payload)
live_some none e h = ground arith
live_some (some d) e h = ground arith

pub live-remove :
    (x h : ℕ) (m : List (ℕ × Entry))
    → is_live (BTree.get x (BTree.remove h m)) ≡ (is_live (BTree.get x m) && not (x == h))
live-remove x h m = ground (arith, get-remove x h m)

pub live-insert :
    (x h : ℕ) (e : Entry) (m : List (ℕ × Entry))
    → is_live (BTree.get x (BTree.insert h e m)) ≡ (is_live (BTree.get x m) || x == h)
live-insert x h e m = ground (arith, get-insert x h e m)

pub remove_entry-IsInSync :
    (o : Outbox) (h : ℕ) (e : Entry)
    → IsInSync o
    → BTree.get h o.entries ≡ some e
    → IsInSync (remove_entry o h (some e))
unfolding remove_entry
remove_entry-IsInSync o h e s found = record {
  distinct = AreDistinct-drop_hash h o.order s.distinct;
  same = λ x.
      in_order-drop_hash x h o.order s.distinct
      ∙ ground (arith, s.same x, live-remove x h o.entries);
  counted = ground (
    arith,
    s.counted,
    s.same h,
    live_some (BTree.get h o.entries) e found,
    bytes_of-drop_hash h o.order o.entries,
    bytes_of-remove h (drop_hash h o.order) o.entries,
    in_order-drop_hash h h o.order s.distinct,
    ==_self h,
  );
}

pub remove-IsInSync : (o : Outbox) (h : ℕ) → IsInSync o → IsInSync (remove o h)
unfolding remove remove_entry
remove-IsInSync o h s = elim (Option-cases (BTree.get h o.entries)) [
  | inl missing ↦ rw missing s
  | inr (e, found) ↦ rw found (remove_entry-IsInSync o h e s found)
]

pub remove_many-IsInSync : (o : Outbox) (hs : List ℕ) → IsInSync o → IsInSync (remove_many o hs)
unfolding remove_many
remove_many-IsInSync o [] s = s
remove_many-IsInSync o (h ∷ hs) s = remove_many-IsInSync (remove o h) hs (remove-IsInSync o h s)

pub evict_entry-IsInSync :
    (o : Outbox) (h : ℕ) (hs : List ℕ)
    → IsInSync (record o { order = h ∷ hs })
    → IsInSync (record (evict_entry o h (BTree.get h o.entries)) { order = hs })
unfolding evict_entry
evict_entry-IsInSync o h hs s = elim (Option-cases (BTree.get h o.entries)) [
  | inl missing ↦ absurd (ground (arith, s.same h, missing, ==_self h))
  | inr (e, found) ↦ rw found (record {
    distinct = s.distinct.1;
    same = λ x. ground (arith, s.same x, s.distinct.0, live-remove x h o.entries);
    counted = ground (
      arith,
      s.counted,
      live_some (BTree.get h o.entries) e found,
      bytes_of-remove h hs o.entries s.distinct.0,
    );
  })
]
