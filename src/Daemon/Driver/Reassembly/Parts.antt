-- ===== src/Daemon/Driver/Reassembly/Parts.antt =====
-- What an entry holds of a transfer, and what comes out of it.
use mathlib.Core.Bool.{true≢false}
use mathlib.Core.Option
use fluxsync.Base.{
  ℕ, zero, suc, ◌+◌, ◌%◌, ◌≤◌, ◌<◌, ◌≡◌, ◌⊎◌, inl, inr, refl, sym, ap, ◌∙◌, Bool, true, false, not,
  ◌&&◌, ◌||◌, List, [], ◌∷◌, Option, none, some, arith, leb, ◌==◌, if◌then◌else◌, is_empty, is_some,
  length, get_elem?, OnSome, if_holds, ◌≢◌, Option-cases, ==_self,
}
use fluxsync.Base.BTree
use fluxsync.Base.BTree.{nat_ord}
use fluxsync.Base.BTree.Laws.{get-insert, get-remove, contains_key-is_some}
use fluxsync.Core.Events.{Bytes}
use fluxsync.Daemon.Driver.Frames.{Label, item_with, chunk_msgs}
use fluxsync.Daemon.Driver.Reassembly.{
  Metadata, Reassembly, ReassemblyMap, CompleteItem, evict, oldest, make_room, nones, fill, joined,
  complete_with, settle, with_header, with_chunk,
}
use fluxsync.Daemon.Driver.Reassembly.Slots.{
  concat, Fits, filled, Fits-nones, filled-nones, Fits-fill, filled-fill, length-Fits, joined-Fits,
  joined-filled,
}
use fluxsync.Proto.Msg.{Chunk, Msg, chunk}

get-evict :
    (key : ℕ) (m : ReassemblyMap) (o : Option (ℕ × ℕ))
    → BTree.get key m ≡ none
    → BTree.get key (evict o m) ≡ BTree.get key m
get-evict key m none absent = refl
get-evict key m (some (j, t)) absent =
    get-remove key j m
    ∙ rw absent (if_holds (λ (x : Option Reassembly). x ≡ none) (key == j) none none refl refl)

-- Where the key has no entry, the one that goes is another.
pub get-make_room :
    (key : ℕ) (m : ReassemblyMap) → BTree.get key (make_room key m) ≡ BTree.get key m
unfolding make_room
get-make_room key m = elim (Option-cases (BTree.get key m)) [
  | inl absent ↦
      if_holds (λ x. BTree.get key x ≡ BTree.get key m)
        (not (BTree.contains_key key m) && leb 5 (length m)) (evict (oldest m) m) m
        (get-evict key m (oldest m) absent) refl
  | inr (r, held) ↦
      let known : BTree.contains_key key m ≡ true = contains_key-is_some key m ∙ ap is_some held in
      rw known refl
]

pub get-settle :
    (key : ℕ) (m : ReassemblyMap) (r : Reassembly)
    → (BTree.get key (settle key m r none).0 ≡ some r)
get-settle key m r = get-insert key key r m ∙ rw (==_self key) refl

pub get-settle_done :
    (key : ℕ) (m : ReassemblyMap) (r : Reassembly) (i : CompleteItem)
    → (BTree.get key (settle key m r (some i)).0 ≡ none)
get-settle_done key m r i = get-remove key key m ∙ rw (==_self key) refl

abbrev pub part_msg : ℕ → ℕ → ℕ → Bytes → Msg
part_msg hash total idx p =
    chunk (record { item_id = hash; idx = idx % 65536; total = total % 65536; bytes = p })

pub get-chunk_msgs :
    (hash total idx i : ℕ) (ps : List Bytes)
    → get_elem? (chunk_msgs hash total idx ps) i
      ≡ Option.map (part_msg hash total (idx + i)) (get_elem? ps i)
unfolding chunk_msgs
get-chunk_msgs hash total idx i [] = refl
get-chunk_msgs hash total idx zero (p ∷ ps) =
    let same : idx ≡ idx + 0 = omega arith in ap (λ j. some (part_msg hash total j p)) same
get-chunk_msgs hash total idx (suc i) (p ∷ ps) =
    let same : (idx + 1) + i ≡ idx + suc i = omega arith in
    get-chunk_msgs hash total (idx + 1) i ps
    ∙ ap (λ j. Option.map (part_msg hash total j) (get_elem? ps i)) same

pub get_elem-lt : (ps : List Bytes) (i : ℕ) (p : Bytes) → get_elem? ps i ≡ some p → i < length ps
get_elem-lt [] i p h = ground arith
get_elem-lt (q ∷ ps) zero p h = omega arith
get_elem-lt (q ∷ ps) (suc i) p h = omega (arith, get_elem-lt ps i p h)

pub get_elem-ge : (ps : List Bytes) (i : ℕ) → get_elem? ps i ≡ none → length ps ≤ i
get_elem-ge [] i h = omega arith
get_elem-ge (q ∷ ps) zero h = ground arith
get_elem-ge (q ∷ ps) (suc i) h = omega (arith, get_elem-ge ps i h)

pub filled_nonempty : (i : ℕ) (cs : List (Option Bytes)) → filled i cs ≡ true → is_empty cs ≡ false
filled_nonempty i [] h = sym h
filled_nonempty i (c ∷ cs) h = refl

-- The slots of an entry, where chunks have come or not.
abbrev slots : ℕ → List (Option Bytes) → List (Option Bytes)
slots total cs = if is_empty cs then nones total else cs

-- Which of the messages an entry has: the header is the first.
abbrev pub has : ℕ → Option Reassembly → Bool
has k none = false
has zero (some r) = is_some r.metadata
has (suc i) (some r) = filled i r.chunks

module _ (peer : ℕ) (l : Label) (parts : List Bytes) where
  abbrev metadata : Metadata
  metadata = record { lamport = l.lamport; kind = l.kind; sensitive = l.sensitive }

  abbrev pub sent_item : CompleteItem
  sent_item = record {
    source = peer;
    origin = l.origin;
    event_seq = l.event_seq;
    hash = l.hash;
    kind = l.kind;
    sensitive = l.sensitive;
    lamport = l.lamport;
    payload = concat parts;
  }

  -- What comes out of the entry as it is.
  abbrev pub outcome : Reassembly → Option CompleteItem
  outcome r =
      complete_with r peer l.hash r.metadata (if is_empty r.chunks then none else joined r.chunks)

  pub record IsPart (r : Reassembly) : Type 0 where
    pub fits : Fits (slots (length parts) r.chunks) parts
    pub labelled :
        (r.metadata ≡ none)
        ⊎ ((r.metadata ≡ some metadata) × (r.origin ≡ l.origin) × (r.event_seq ≡ l.event_seq))

  joined_cases :
      (cs : List (Option Bytes))
      → Fits (slots (length parts) cs) parts
      → let o = if is_empty cs then none else joined cs in (o ≡ none) ⊎ (o ≡ some (concat parts))
  joined_cases [] fits = inl refl
  joined_cases (c ∷ cs) fits = elim (Option-cases (joined (c ∷ cs))) [
    | inl gap ↦ inl gap
    | inr (full, whole) ↦ inr (whole ∙ ap some (joined-Fits (c ∷ cs) parts full fits whole))
  ]

  -- Nothing comes out but the item that was sent.
  pub outcome_cases :
      (r : Reassembly) → IsPart r → (outcome r ≡ none) ⊎ (outcome r ≡ some sent_item)
  outcome_cases r part = elim (part.labelled) [
    | inl unknown ↦ inl (rw unknown refl)
    | inr (known, origin, seq) ↦ elim (joined_cases r.chunks part.fits) [
      | inl gap ↦ inl (rw (known, gap) refl)
      | inr whole ↦ inr (rw (known, whole, origin, seq) refl)
    ]
  ]

  slots_whole :
      (cs : List (Option Bytes))
      → Fits (slots (length parts) cs) parts
      → 0 < length parts
      → ((i : ℕ) → i < length parts → filled i cs ≡ true)
      → (if is_empty cs then none else joined cs) ≡ some (concat parts)
  slots_whole [] fits pos all = absurd (true≢false (sym (all 0 pos)))
  slots_whole (c ∷ cs) fits pos all = joined-filled (c ∷ cs) parts fits all

  -- With every message there, the item comes out.
  pub outcome_whole :
      (r : Reassembly)
      → IsPart r
      → 0 < length parts
      → ((k : ℕ) → k ≤ length parts → has k (some r) ≡ true)
      → outcome r ≢ none
  outcome_whole r part pos all gap = elim (part.labelled) [
    | inl unknown ↦ true≢false (sym (all 0 (omega arith)) ∙ ap is_some unknown)
    | inr (known, origin, seq) ↦
        let whole = slots_whole r.chunks part.fits pos (λ i lt. all (suc i) (omega arith)) in
        let made : outcome r ≡ some sent_item = rw (known, whole, origin, seq) refl in
        true≢false (ap is_some (sym made ∙ gap))
  ]

  pub header-IsPart :
      (now : ℕ) (o : Option Reassembly)
      → OnSome IsPart o
      → IsPart (with_header peer (item_with l []) now o)
  unfolding with_header
  header-IsPart now none part = record {
    fits = Fits-nones parts;
    labelled = inr (refl, refl, refl);
  }
  header-IsPart now (some r) part = record { fits = part.fits; labelled = inr (refl, refl, refl) }

  pub header-has :
      (now k : ℕ) (o : Option Reassembly)
      → has k (some (with_header peer (item_with l []) now o)) ≡ (k == 0 || has k o)
  unfolding with_header
  header-has now zero none = refl
  header-has now (suc i) none = ground arith
  header-has now zero (some r) = refl
  header-has now (suc i) (some r) = ground arith

  abbrev pub part_at : ℕ → Bytes → Chunk
  part_at i p = record { item_id = l.hash; idx = i; total = length parts; bytes = p }

  Fits-slots :
      (i : ℕ) (p : Bytes) (cs : List (Option Bytes))
      → get_elem? parts i ≡ some p
      → Fits (slots (length parts) cs) parts
      → Fits (slots (length parts) (fill i p (slots (length parts) cs))) parts
  Fits-slots i p cs at fits =
      let filled_up = fill i p (slots (length parts) cs) in
      if_holds (λ x. Fits x parts) (is_empty filled_up) (nones (length parts)) filled_up
        (Fits-nones parts) (Fits-fill i p (slots (length parts) cs) parts at fits)

  nones_fit : Fits (slots (length parts) (nones (length parts))) parts
  nones_fit =
      let n = nones (length parts) in
      if_holds (λ x. Fits x parts) (is_empty n) n n (Fits-nones parts) (Fits-nones parts)

  filled-slots :
      (j : ℕ) (cs : List (Option Bytes)) → filled j (slots (length parts) cs) ≡ filled j cs
  filled-slots j [] = filled-nones j (length parts)
  filled-slots j (c ∷ cs) = refl

  slot_has :
      (i j : ℕ) (p : Bytes) (cs : List (Option Bytes))
      → get_elem? parts i ≡ some p
      → Fits (slots (length parts) cs) parts
      → filled j (fill i p (slots (length parts) cs)) ≡ (suc j == suc i || filled j cs)
  slot_has i j p cs at fits =
      let lt = get_elem-lt parts i p at in
      let size = length-Fits (slots (length parts) cs) parts fits in
      ground (
        arith,
        filled-fill j i p (slots (length parts) cs) (omega (arith, lt, size)),
        filled-slots j cs,
      )

  pub chunk-IsPart :
      (now i : ℕ) (p : Bytes) (o : Option Reassembly)
      → get_elem? parts i ≡ some p
      → OnSome IsPart o
      → IsPart (with_chunk peer (part_at i p) now o)
  unfolding with_chunk
  chunk-IsPart now i p none at part = record {
    fits = Fits-slots i p (nones (length parts)) at nones_fit;
    labelled = inl refl;
  }
  chunk-IsPart now i p (some r) at part = record {
    fits = Fits-slots i p r.chunks at part.fits;
    labelled = part.labelled;
  }

  pub chunk-has :
      (now i k : ℕ) (p : Bytes) (o : Option Reassembly)
      → get_elem? parts i ≡ some p
      → OnSome IsPart o
      → has k (some (with_chunk peer (part_at i p) now o)) ≡ (k == suc i || has k o)
  unfolding with_chunk
  chunk-has now i zero p none at part = ground arith
  chunk-has now i (suc j) p none at part =
      slot_has i j p (nones (length parts)) at nones_fit
      ∙ ap (λ b. suc j == suc i || b) (filled-nones j (length parts))
  chunk-has now i zero p (some r) at part = ground arith
  chunk-has now i (suc j) p (some r) at part = slot_has i j p r.chunks at part.fits
