-- ===== src/Daemon/Driver/Reassembly/Bounds.antt =====
-- How many transfers are put together at a time.
use fluxsync.Base.{
  ℕ, ◌+◌, ◌≤◌, ◌≡◌, ◌≢◌, inl, inr, refl, true, not, ◌&&◌, ◌||◌, List, [], ◌∷◌, Option, none, some,
  arith, leb, ltb, ◌==◌, length, length-retain-le, ◌-◌, leb→le, if_split, if_holds, Bool-cases,
  Option-cases,
}
use fluxsync.Base.BTree
use fluxsync.Base.BTree.{nat_ord}
use fluxsync.Base.BTree.Laws.{length-insert, length-remove, length-remove_held}
use fluxsync.Base.BTree.Sorted.{
  IsSorted, insert-IsSorted, remove-IsSorted, retain-IsSorted, length-insert_held,
}
use fluxsync.Core.Events.{Bytes}
use fluxsync.Daemon.Driver.Reassembly.{
  Reassembly, ReassemblyMap, CompleteItem, older, oldest, evict, make_room, settle, on_header,
  on_chunk, cleanup,
}
use fluxsync.Proto.Codec.{max_chunks}
use fluxsync.Proto.Msg.{ClipboardItem, Chunk}

-- What the receive loop does with the map.
pub data Turn : Type 0 where
  header : (peer : ℕ) → ClipboardItem → (now : ℕ) → Turn
  part : (peer : ℕ) → Chunk → (now : ℕ) → Turn
  tick : (now : ℕ) → Turn

pub record IsBounded (m : ReassemblyMap) : Type 0 where
  pub sorted : IsSorted m
  pub few : length m ≤ 5

held-older :
    (k t j u : ℕ) (m : ReassemblyMap) (r : Reassembly) (o : Option (ℕ × ℕ))
    → ((i : ℕ) (v : ℕ) → o ≡ some (i, v) → BTree.contains_key i m ≡ true)
    → older k t o ≡ some (j, u)
    → BTree.contains_key j ((k, r) ∷ m) ≡ true
held-older k t j u m r none h e = ground arith
held-older k t j u m r (some (i, v)) h e = ground (arith, h i v refl)

held-oldest : (m : ReassemblyMap) (j u : ℕ) → oldest m ≡ some (j, u) → BTree.contains_key j m ≡ true
unfolding oldest
held-oldest [] j u e = ground arith
held-oldest ((k, r) ∷ m) j u e =
    held-older k r.last_update j u m r (oldest m) (λ i v. held-oldest m i v) e

older_some : (k t : ℕ) (o : Option (ℕ × ℕ)) → older k t o ≢ none
older_some k t none h = ground arith
older_some k t (some (j, u)) h = ground arith

length-evict : (m : ReassemblyMap) → 5 ≤ length m → length (evict (oldest m) m) + 1 ≤ length m
unfolding oldest
length-evict [] le = absurd (omega arith)
length-evict ((k, r) ∷ m) le = elim (Option-cases (oldest ((k, r) ∷ m))) [
  | inl gone ↦ absurd (older_some k r.last_update (oldest m) gone)
  | inr ((j, u), e) ↦ rw e (length-remove_held j ((k, r) ∷ m) (held-oldest ((k, r) ∷ m) j u e))
]

evict-IsSorted : (o : Option (ℕ × ℕ)) (m : ReassemblyMap) → IsSorted m → IsSorted (evict o m)
evict-IsSorted none m h = h
evict-IsSorted (some (k, t)) m h = remove-IsSorted k m h

inserted :
    (key : ℕ) (r : Reassembly) (m : ReassemblyMap)
    → IsSorted m
    → length m ≤ 4
    → IsBounded (BTree.insert key r m)
inserted key r m sorted few = record {
  sorted = insert-IsSorted key r m sorted;
  few = omega (arith, length-insert key r m);
}

insert-make_room :
    (key : ℕ) (r : Reassembly) (m : ReassemblyMap)
    → IsBounded m
    → IsBounded (BTree.insert key r (make_room key m))
unfolding make_room
insert-make_room key r m b = elim (Bool-cases (BTree.contains_key key m)) [
  | inl held ↦ rw held (record {
    sorted = insert-IsSorted key r m b.sorted;
    few = rw (length-insert_held key r m b.sorted held) b.few;
  })
  | inr absent ↦ elim (Bool-cases (leb 5 (length m))) [
    | inl full ↦
        rw (absent, full)
          (inserted key r (evict (oldest m) m) (evict-IsSorted (oldest m) m b.sorted)
            (omega (arith, length-evict m (leb→le 5 (length m) full), b.few)))
    | inr room ↦ rw (absent, room) (inserted key r m b.sorted (ground (arith, room)))
  ]
]

removed : (key : ℕ) (m : ReassemblyMap) → IsSorted m → length m ≤ 5 → IsBounded (BTree.remove key m)
removed key m sorted few = record {
  sorted = remove-IsSorted key m sorted;
  few = omega (arith, length-remove key m);
}

remove-make_room :
    (key : ℕ) (m : ReassemblyMap) → IsBounded m → IsBounded (BTree.remove key (make_room key m))
unfolding make_room
remove-make_room key m b =
    if_split (λ x. IsBounded (BTree.remove key x))
      (not (BTree.contains_key key m) && leb 5 (length m)) (evict (oldest m) m) m
      (λ full.
        removed key (evict (oldest m) m) (evict-IsSorted (oldest m) m b.sorted)
          (omega (arith, length-evict m (ground (arith, full)), b.few)))
      (λ room. removed key m b.sorted b.few)

settle-IsBounded :
    (key : ℕ) (m : ReassemblyMap) (r : Reassembly) (o : Option CompleteItem)
    → IsBounded m
    → IsBounded (settle key (make_room key m) r o).0
settle-IsBounded key m r none b = insert-make_room key r m b
settle-IsBounded key m r (some item) b = remove-make_room key m b

module _ (blake3 : Bytes → ℕ) where
  abbrev pub turn : Turn → ReassemblyMap → ReassemblyMap
  turn (header peer item now) m = (on_header blake3 peer item now m).0
  turn (part peer c now) m = (on_chunk blake3 peer c now m).0
  turn (tick now) m = cleanup now m

  abbrev pub turns : List Turn → ReassemblyMap → ReassemblyMap
  turns [] m = m
  turns (t ∷ ts) m = turns ts (turn t m)

  turn-IsBounded : (t : Turn) (m : ReassemblyMap) → IsBounded m → IsBounded (turn t m)
  unfolding on_header on_chunk cleanup
  turn-IsBounded (header peer item now) m b = settle-IsBounded _ m _ _ b
  turn-IsBounded (part peer c now) m b =
      if_holds (λ (x : ReassemblyMap × Option CompleteItem). IsBounded x.0)
        (ltb max_chunks c.total || c.total == 0) (m, none) _ b (settle-IsBounded _ m _ _ b)
  turn-IsBounded (tick now) m b = record {
    sorted = retain-IsSorted _ m b.sorted;
    few = omega (
      arith,
      length-retain-le
          (λ (e : ℕ × Reassembly).
            ltb (now - e.1.first_seen) 60000 && ltb (now - e.1.last_update) 5000)
          m,
      b.few,
    );
  }

  turns-IsBounded : (ts : List Turn) (m : ReassemblyMap) → IsBounded m → IsBounded (turns ts m)
  turns-IsBounded [] m b = b
  turns-IsBounded (t ∷ ts) m b = turns-IsBounded ts (turn t m) (turn-IsBounded t m b)

  -- However many headers and chunks peers send, and of however many items, five transfers are put
  -- together at a time at most.
  pub turns_bounded : (ts : List Turn) → length (turns ts []) ≤ 5
  turns_bounded ts = (turns-IsBounded ts [] (record { sorted = tt; few = omega arith })).few
