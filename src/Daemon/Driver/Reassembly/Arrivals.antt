-- ===== src/Daemon/Driver/Reassembly/Arrivals.antt =====
-- crates/fluxsyncd/src/driver/inbound.rs: what one message of a transfer makes of its entry.
use mathlib.Core.Option
use fluxsync.Base.{
  ℕ, zero, suc, ◌+◌, ◌%◌, ◌≤◌, ◌≡◌, ◌⊎◌, inl, inr, refl, sym, ap, subst, ◌∙◌, true, false, ◌||◌,
  List, [], Option, none, some, arith, ltb, ◌==◌, if◌then◌else◌, is_empty, length, get_elem?,
  OnSome, ==_self,
}
use fluxsync.Base.BTree
use fluxsync.Base.BTree.{nat_ord}
use fluxsync.Core.Events.{Bytes}
use fluxsync.Daemon.Driver.Frames.{Label, item_with, chunked}
use fluxsync.Daemon.Driver.Reassembly.{
  Reassembly, ReassemblyMap, CompleteItem, reassembly_key, make_room, joined, complete_with, settle,
  with_header, with_chunk, on_header, on_chunk,
}
use fluxsync.Daemon.Driver.Reassembly.Alive.{IsRecent, header-IsRecent, chunk-IsRecent}
use fluxsync.Daemon.Driver.Reassembly.Parts.{
  get-make_room, get-settle, get-settle_done, part_msg, get-chunk_msgs, get_elem-lt, get_elem-ge,
  filled_nonempty, has, sent_item, outcome, IsPart, outcome_cases, header-IsPart, header-has,
  part_at, chunk-IsPart, chunk-has,
}
use fluxsync.Daemon.Driver.Reassembly.Slots.{filled}
use fluxsync.Proto.Msg.{Msg, clipboard_item, chunk}

module _ (peer : ℕ) (l : Label) (parts : List Bytes) where
  -- What an entry that stays is like.
  abbrev pub Kept : ℕ → ℕ → Reassembly → Type 0
  Kept start last r =
      (IsPart peer l parts) r × ((outcome peer l parts) r ≡ none) × IsRecent start last r

  -- After message `k` at `now`: nothing has come out and the entry has one message more, or the item has
  -- come out and the entry is gone.
  abbrev pub Next : ℕ → ℕ → ℕ → Option Reassembly → Option Reassembly → Option CompleteItem → Type 0
  Next start now k o o' done =
      ((done ≡ none)
        × OnSome (Kept start now) o'
        × ((j : ℕ) → j ≤ length parts → has j o' ≡ (j == k || has j o)))
      ⊎ ((done ≡ some (sent_item peer l parts)) × (o' ≡ none))

  Next-settle :
      (start now key k : ℕ) (m : ReassemblyMap) (o : Option Reassembly) (r : Reassembly)
      → (IsPart peer l parts) r
      → IsRecent start now r
      → ((j : ℕ) → has j (some r) ≡ (j == k || has j o))
      → let (m', done) = settle key m r ((outcome peer l parts) r) in
        Next start now k o (BTree.get key m') done
  Next-settle start now key k m o r part recent more = elim ((outcome_cases peer l parts) r part) [
    | inl gap ↦ rw gap (
        inl (
          refl,
          subst (λ x. OnSome (Kept start now) x) (sym (get-settle key m r)) (part, gap, recent),
          λ j lt. ap (has j) (get-settle key m r) ∙ more j,
        ))
    | inr whole ↦ rw whole (inr (refl, get-settle_done key m r (sent_item peer l parts)))
  ]

  parts_of :
      (start last : ℕ) (o : Option Reassembly)
      → OnSome (Kept start last) o
      → OnSome (IsPart peer l parts) o
  parts_of start last none kept = kept
  parts_of start last (some r) kept = kept.0

  pub recency :
      (start last : ℕ) (o : Option Reassembly)
      → OnSome (Kept start last) o
      → OnSome (IsRecent start last) o
  recency start last none kept = kept
  recency start last (some r) kept = kept.2

  module _ (blake3 : Bytes → ℕ) where
    abbrev pub key : ℕ
    key = reassembly_key blake3 peer l.hash

    Next-header :
        (start last now : ℕ) (m : ReassemblyMap)
        → start ≤ now
        → OnSome (Kept start last) (BTree.get key m)
        → let (m', done) = on_header blake3 peer (item_with l []) now m in
          Next start now 0 (BTree.get key m) (BTree.get key m') done
    unfolding on_header
    Next-header start last now m le kept =
        let roomy = make_room key m in
        let same = get-make_room key m in
        let r = with_header peer (item_with l []) now (BTree.get key roomy) in
        let part = (header-IsPart peer l parts) now (BTree.get key roomy) (
          subst (OnSome (IsPart peer l parts)) (sym same)
            (parts_of start last (BTree.get key m) kept)) in
        let recent = header-IsRecent peer (item_with l []) start last now (BTree.get key roomy) le (
          subst (OnSome (IsRecent start last)) (sym same)
            (recency start last (BTree.get key m) kept)) in
        let (m', done) = settle key roomy r ((outcome peer l parts) r) in
        subst (λ o. Next start now 0 o (BTree.get key m') done) same
          (Next-settle start now key 0 roomy (BTree.get key roomy) r part recent
            (λ j. (header-has peer l parts) now j (BTree.get key roomy)))

    Next-chunk :
        (start last now i : ℕ) (p : Bytes) (m : ReassemblyMap)
        → get_elem? parts i ≡ some p
        → length parts ≤ 16384
        → start ≤ now
        → OnSome (Kept start last) (BTree.get key m)
        → let (m', done) = on_chunk blake3 peer ((part_at peer l parts) i p) now m in
          Next start now (suc i) (BTree.get key m) (BTree.get key m') done
    unfolding on_chunk
    Next-chunk start last now i p m at small le kept =
        let lt = get_elem-lt parts i p at in
        let roomy = make_room key m in
        let same = get-make_room key m in
        let o = BTree.get key roomy in
        let r = with_chunk peer ((part_at peer l parts) i p) now o in
        let known =
          subst (OnSome (IsPart peer l parts)) (sym same)
            (parts_of start last (BTree.get key m) kept) in
        let recent = chunk-IsRecent peer ((part_at peer l parts) i p) start last now o le (
          subst (OnSome (IsRecent start last)) (sym same)
            (recency start last (BTree.get key m) kept)) in
        let part = (chunk-IsPart peer l parts) now i p o at known in
        let there : filled i r.chunks ≡ true =
          (chunk-has peer l parts) now i (suc i) p o at known ∙ rw (==_self (suc i)) refl in
        let full = filled_nonempty i r.chunks there in
        let out : Option Bytes → ReassemblyMap × Option CompleteItem =
          λ payload. settle key roomy r (complete_with r peer l.hash r.metadata payload) in
        let Goal : ReassemblyMap × Option CompleteItem → Type 0 =
          λ x. Next start now (suc i) (BTree.get key m) (BTree.get key x.0) x.1 in
        let step : Goal (out (if is_empty r.chunks then none else joined r.chunks)) =
          subst
            (λ x.
              Next start now (suc i) x
                (BTree.get key (settle key roomy r ((outcome peer l parts) r)).0)
                (settle key roomy r ((outcome peer l parts) r)).1)
            same
            (Next-settle start now key (suc i) roomy o r part recent
              (λ j. (chunk-has peer l parts) now i j p o at known)) in
        let sized : (ltb 16384 (length parts) || length parts == 0) ≡ false = ground arith in
        rw sized (subst (λ b. Goal (out (if b then none else joined r.chunks))) full step)

    -- What the daemon does with a message of the transfer.
    abbrev pub arrive : Option Msg → ℕ → ReassemblyMap → ReassemblyMap × Option CompleteItem
    arrive (some (clipboard_item item)) now m =
        if is_empty item.payload then on_header blake3 peer item now m else (m, none)
    arrive (some (chunk c)) now m = on_chunk blake3 peer c now m
    arrive _ now m = (m, none)

    Next-part :
        (start last now i : ℕ) (m : ReassemblyMap) (o : Option Bytes)
        → get_elem? parts i ≡ o
        → length parts ≤ 16384
        → suc i ≤ length parts
        → start ≤ now
        → OnSome (Kept start last) (BTree.get key m)
        → let (m', done) = arrive (Option.map (part_msg l.hash (length parts) (0 + i)) o) now m in
          Next start now (suc i) (BTree.get key m) (BTree.get key m') done
    Next-part start last now i m none at small in_range le kept =
        absurd (omega (arith, get_elem-ge parts i at))
    Next-part start last now i m (some p) at small in_range le kept =
        let lt = get_elem-lt parts i p at in
        let same_idx : (0 + i) % 65536 ≡ i = omega (arith, lt) in
        let same_total : length parts % 65536 ≡ length parts = omega arith in
        rw (same_idx, same_total) (Next-chunk start last now i p m at small le kept)

    pub Next-message :
        (start last now k : ℕ) (m : ReassemblyMap)
        → length parts ≤ 16384
        → k ≤ length parts
        → start ≤ now
        → OnSome (Kept start last) (BTree.get key m)
        → let (m', done) = arrive (get_elem? (chunked l parts) k) now m in
          Next start now k (BTree.get key m) (BTree.get key m') done
    unfolding chunked
    Next-message start last now zero m small in_range le kept = Next-header start last now m le kept
    Next-message start last now (suc i) m small in_range le kept =
        subst
          (λ x.
            Next start now (suc i) (BTree.get key m) (BTree.get key (arrive x now m).0)
              (arrive x now m).1)
          (sym (get-chunk_msgs l.hash (length parts) 0 i parts))
          (Next-part start last now i m (get_elem? parts i) refl small in_range le kept)
