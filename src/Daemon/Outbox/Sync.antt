-- ===== src/Daemon/Outbox/Sync.antt =====
-- When `order`, `entries` and `total_bytes` tell the same, and what a dropped hash does to each.
use fluxsync.Base.{
  ℕ, ◌+◌, ◌≡◌, refl, ap, Bool, false, not, ◌&&◌, List, [], ◌∷◌, Option, none, some, arith, ◌==◌,
  if◌then◌else◌, any, length, position, if_split, Bool-cases, Option-cases, inl, inr, ==_iff,
}
use fluxsync.Base.BTree
use fluxsync.Base.BTree.Laws.{get-insert, get-remove}
use fluxsync.Base.BTree.{nat_ord}
use fluxsync.Daemon.Outbox.{Entry, Outbox, drop_hash, is_live}

abbrev pub in_order : ℕ → List ℕ → Bool
in_order h hs = any (λ k. k == h) hs

abbrev pub size_of : Option Entry → ℕ
size_of none = 0
size_of (some e) = length e.payload

-- The bytes of the entries that stand in the order.
abbrev pub bytes_of : List ℕ → List (ℕ × Entry) → ℕ
bytes_of [] m = 0
bytes_of (h ∷ hs) m = size_of (BTree.get h m) + bytes_of hs m

abbrev pub AreDistinct : List ℕ → Type 0
AreDistinct [] = Unit {0}
AreDistinct (h ∷ hs) = (in_order h hs ≡ false) × AreDistinct hs

-- Entries of other hashes do not count.
pub bytes_of-remove :
    (h : ℕ) (hs : List ℕ) (m : List (ℕ × Entry))
    → in_order h hs ≡ false
    → bytes_of hs (BTree.remove h m) ≡ bytes_of hs m
bytes_of-remove h [] m out = refl
bytes_of-remove h (k ∷ hs) m out = ground (arith, get-remove k h m, bytes_of-remove h hs m)

pub bytes_of-insert :
    (h : ℕ) (e : Entry) (hs : List ℕ) (m : List (ℕ × Entry))
    → in_order h hs ≡ false
    → bytes_of hs (BTree.insert h e m) ≡ bytes_of hs m
bytes_of-insert h e [] m out = refl
bytes_of-insert h e (k ∷ hs) m out = ground (arith, get-insert k h e m, bytes_of-insert h e hs m)

-- `order` and `entries` hold the same hashes, each once, and the count of bytes is right.
pub record IsInSync (o : Outbox) : Type 0 where
  pub distinct : AreDistinct o.order
  pub same : (h : ℕ) → in_order h o.order ≡ is_live (BTree.get h o.entries)
  pub counted : o.total_bytes ≡ bytes_of o.order o.entries

pub drop_hash_step :
    (h k : ℕ) (ks : List ℕ) → drop_hash h (k ∷ ks) ≡ (if k == h then ks else k ∷ drop_hash h ks)
unfolding drop_hash
drop_hash_step h k ks = elim (Option-cases (position (λ x. x == h) ks)) [
  | inl missing ↦ rw missing (ground arith)
  | inr (i, found) ↦ rw found (ground arith)
]

pub drop_hash_nil : (h : ℕ) → drop_hash h [] ≡ []
unfolding drop_hash
drop_hash_nil h = refl

pub in_order-drop_hash :
    (x h : ℕ) (ks : List ℕ)
    → AreDistinct ks
    → in_order x (drop_hash h ks) ≡ (in_order x ks && not (x == h))
in_order-drop_hash x h [] d = ap (in_order x) (drop_hash_nil h)
in_order-drop_hash x h (k ∷ ks) d =
    ground (arith, ap (in_order x) (drop_hash_step h k ks), in_order-drop_hash x h ks d.1)

pub AreDistinct-drop_hash : (h : ℕ) (ks : List ℕ) → AreDistinct ks → AreDistinct (drop_hash h ks)
AreDistinct-drop_hash h [] d = rw (drop_hash_nil h) tt
AreDistinct-drop_hash h (k ∷ ks) d = rw (drop_hash_step h k ks) (
    if_split AreDistinct (k == h) ks (k ∷ drop_hash h ks) (λ _. d.1)
      (λ _. (ground (arith, in_order-drop_hash k h ks d.1, d.0), AreDistinct-drop_hash h ks d.1)))

pub bytes_of-drop_hash :
    (h : ℕ) (ks : List ℕ) (m : List (ℕ × Entry))
    → bytes_of (drop_hash h ks) m + (if in_order h ks then size_of (BTree.get h m) else 0)
      ≡ bytes_of ks m
bytes_of-drop_hash h [] m = rw (drop_hash_nil h) refl
bytes_of-drop_hash h (k ∷ ks) m = elim (Bool-cases (k == h)) [
  | inl here ↦
      let same : k ≡ h = (==_iff k h).0 here in
      ground (
        arith,
        ap (λ xs. bytes_of xs m) (drop_hash_step h k ks),
        ap (λ x. size_of (BTree.get x m)) same,
      )
  | inr later ↦
      ground (arith, ap (λ xs. bytes_of xs m) (drop_hash_step h k ks), bytes_of-drop_hash h ks m)
]
