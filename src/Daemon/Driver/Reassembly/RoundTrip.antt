-- ===== src/Daemon/Driver/Reassembly/RoundTrip.antt =====
-- crates/fluxsyncd/src/driver/inbound.rs: an item that is sent in chunks is put together again.
use mathlib.Core.Bool.{true≢false}
use fluxsync.Base.{
  ℕ, ◌+◌, ◌≤◌, ◌<◌, ◌≡◌, inl, inr, refl, sym, ap, subst, ◌∙◌, Bool, true, false, ◌||◌, List, [],
  ◌∷◌, Option, none, some, arith, ◌==◌, is_empty, any, length, get_elem?, OnSome, All,
}
use fluxsync.Base.BTree
use fluxsync.Base.BTree.{nat_ord}
use fluxsync.Core.Events.{Bytes}
use fluxsync.Daemon.Driver.Frames.{Label, chunked, chunks_within}
use fluxsync.Daemon.Driver.Frames.Chunks.{
  concat-chunks_within, length-chunks_within, pos-chunks_within,
}
use fluxsync.Daemon.Driver.Reassembly.{
  Reassembly, ReassemblyMap, CompleteItem, reassembly_key, cleanup,
}
use fluxsync.Daemon.Driver.Reassembly.Alive.{get-cleanup}
use fluxsync.Daemon.Driver.Reassembly.Parts.{has, sent_item, outcome_whole}
use fluxsync.Daemon.Driver.Reassembly.Slots.{concat}
use fluxsync.Daemon.Driver.Reassembly.Arrivals.{Kept, recency, key, arrive, Next-message}

-- What the daemon meets while the transfer lasts: a message of it, by its place, or a tick of the
-- cleanup.
pub data Moment : Type 0 where
  arrives : (place now : ℕ) → Moment
  ticks : (now : ℕ) → Moment

abbrev pub brings : ℕ → Moment → Bool
brings k (arrives place now) = place == k
brings k (ticks now) = false

-- The messages are among those of the transfer, the instants do not go back, and a tick comes
-- within five seconds of the last message and within a minute of the start.
abbrev pub IsSteady : ℕ → ℕ → ℕ → List Moment → Type 0
IsSteady count start last [] = Unit
IsSteady count start last (arrives place now ∷ ds) =
    (place ≤ count) × (last ≤ now) × IsSteady count start now ds
IsSteady count start last (ticks now ∷ ds) =
    (now < start + 60000) × (now < last + 5000) × IsSteady count start last ds

module _ (peer : ℕ) (l : Label) (parts : List Bytes) (blake3 : Bytes → ℕ) where
  abbrev emitted : Option CompleteItem → List CompleteItem → List CompleteItem
  emitted none items = items
  emitted (some i) items = i ∷ items

  -- The items that come out.
  abbrev pub completions : ReassemblyMap → List Moment → List CompleteItem
  completions m [] = []
  completions m (arrives k now ∷ ds) =
      let (m', done) = arrive peer l parts blake3 (get_elem? (chunked l parts) k) now m in
      emitted done (completions m' ds)
  completions m (ticks now ∷ ds) = completions (cleanup now m) ds

  none-Kept :
      (start last : ℕ) (o : Option Reassembly) → o ≡ none → OnSome (Kept peer l parts start last) o
  none-Kept start last o h = subst (OnSome (Kept peer l parts start last)) (sym h) tt

  after_tick :
      (start last now : ℕ) (m : ReassemblyMap)
      → now < start + 60000
      → now < last + 5000
      → OnSome (Kept peer l parts start last) (BTree.get (key peer l parts blake3) m)
      → BTree.get (key peer l parts blake3) (cleanup now m) ≡ BTree.get (key peer l parts blake3) m
  after_tick start last now m young busy kept =
      get-cleanup start last now (key peer l parts blake3) m young busy
        (recency peer l parts start last (BTree.get (key peer l parts blake3) m) kept)

  All-sent :
      (start last : ℕ) (m : ReassemblyMap) (ds : List Moment)
      → length parts ≤ 16384
      → start ≤ last
      → IsSteady (length parts) start last ds
      → OnSome (Kept peer l parts start last) (BTree.get (key peer l parts blake3) m)
      → All (λ i. i ≡ sent_item peer l parts) (completions m ds)
  All-sent start last m [] small le steady kept = tt
  All-sent start last m (arrives k now ∷ ds) small le (in_range, later, steady) kept =
      let (m', done) = arrive peer l parts blake3 (get_elem? (chunked l parts) k) now m in
      let on : start ≤ now = omega (arith, le, later) in
      elim (Next-message peer l parts blake3 start last now k m small in_range on kept) [
        | inl (quiet, still, more) ↦ rw quiet (All-sent start now m' ds small on steady still)
        | inr (out, gone) ↦ rw out (
          refl,
          All-sent start now m' ds small on steady
              (none-Kept start now (BTree.get (key peer l parts blake3) m') gone),
        )
      ]
  All-sent start last m (ticks now ∷ ds) small le (young, busy, steady) kept =
      All-sent start last (cleanup now m) ds small le steady (
        subst (OnSome (Kept peer l parts start last))
          (sym (after_tick start last now m young busy kept)) kept)

  nothing_left :
      (start last : ℕ) (o : Option Reassembly)
      → 0 < length parts
      → OnSome (Kept peer l parts start last) o
      → ((j : ℕ) → j ≤ length parts → (has j o || false) ≡ true)
      → ⊥
  nothing_left start last none pos kept all = true≢false (sym (all 0 (omega arith)))
  nothing_left start last (some r) pos kept all =
      outcome_whole peer l parts r kept.0 pos (λ j le. ground (arith, all j le)) kept.1

  comes_out :
      (start last : ℕ) (m : ReassemblyMap) (ds : List Moment)
      → length parts ≤ 16384
      → 0 < length parts
      → start ≤ last
      → IsSteady (length parts) start last ds
      → OnSome (Kept peer l parts start last) (BTree.get (key peer l parts blake3) m)
      → ((j : ℕ)
          → j ≤ length parts
          → (has j (BTree.get (key peer l parts blake3) m) || any (brings j) ds) ≡ true)
      → is_empty (completions m ds) ≡ false
  comes_out start last m [] small pos le steady kept all =
      absurd (nothing_left start last (BTree.get (key peer l parts blake3) m) pos kept all)
  comes_out start last m (arrives k now ∷ ds) small pos le (in_range, later, steady) kept all =
      let (m', done) = arrive peer l parts blake3 (get_elem? (chunked l parts) k) now m in
      let on : start ≤ now = omega (arith, le, later) in
      elim (Next-message peer l parts blake3 start last now k m small in_range on kept) [
        | inl (quiet, still, more) ↦ rw quiet (
            comes_out start now m' ds small pos on steady still
              (λ j lt. ground (arith, more j lt, all j lt)))
        | inr (out, gone) ↦ rw out refl
      ]
  comes_out start last m (ticks now ∷ ds) small pos le (young, busy, steady) kept all =
      let same = after_tick start last now m young busy kept in
      comes_out start last (cleanup now m) ds small pos le steady
        (subst (OnSome (Kept peer l parts start last)) (sym same) kept)
        (λ j lt. ap (λ o. has j o || any (brings j) ds) same ∙ all j lt)

-- An item of 1 byte to 16 MB that is sent in chunks arrives as it was sent, provided that it keeps
-- coming and that no message of another transfer comes in between. Where nothing of this transfer is
-- there at `start`, its header and each of its chunks come in at least once, in whatever order and
-- however often, and every tick of the cleanup in between finds less than five seconds gone since the
-- last message, or since `start` before the first, and less than a minute since `start`, then the item
-- comes out with its payload and its label, and nothing else does.
pub reassembled :
    (blake3 : Bytes → ℕ) (peer : ℕ) (l : Label) (payload : Bytes) (m : ReassemblyMap) (start : ℕ)
    (ds : List Moment)
    → 0 < length payload
    → length payload ≤ 16777216
    → BTree.get (reassembly_key blake3 peer l.hash) m ≡ none
    → IsSteady (length (chunks_within (length payload) 1024 payload)) start start ds
    → ((k : ℕ)
        → k ≤ length (chunks_within (length payload) 1024 payload)
        → any (brings k) ds ≡ true)
    → let parts = chunks_within (length payload) 1024 payload in
      let items = completions peer l parts blake3 m ds in
      let item : CompleteItem = record {
        source = peer;
        origin = l.origin;
        event_seq = l.event_seq;
        hash = l.hash;
        kind = l.kind;
        sensitive = l.sensitive;
        lamport = l.lamport;
        payload = payload;
      } in
      All (λ i. i ≡ item) items × (is_empty items ≡ false)
reassembled blake3 peer l payload m start ds pos small absent steady all =
    let parts = chunks_within (length payload) 1024 payload in
    let k = reassembly_key blake3 peer l.hash in
    let few : length parts ≤ 16384 =
      omega (arith, length-chunks_within (length payload) 1024 payload refl) in
    let some_part : 0 < length parts =
      pos-chunks_within (length payload) 1024 payload pos (omega arith) in
    let whole : concat parts ≡ payload =
      concat-chunks_within (length payload) 1024 payload (omega arith) (omega arith) in
    let kept = none-Kept peer l parts blake3 start start (BTree.get k m) absent in
    let now : start ≤ start = omega arith in
    (
      subst
          (λ bytes.
            All (λ i. i ≡ (record (sent_item peer l parts) { payload = bytes }))
              (completions peer l parts blake3 m ds))
          whole (All-sent peer l parts blake3 start start m ds few now steady kept),
      comes_out peer l parts blake3 start start m ds few some_part now steady kept
          (λ j le. rw (absent, all j le) refl),
    )
