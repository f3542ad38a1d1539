-- ===== src/Daemon/Driver/Reassembly.antt =====
-- crates/fluxsyncd/src/driver/inbound.rs and frames.rs: transfers in chunks that are put together
-- again. A `HashMap` is an association list in the order of its keys, which is one of the orders
-- that its iterators may take; instants are milliseconds. BLAKE3 is a parameter.
pub mod Slots
pub mod Parts
pub mod Alive
pub mod Arrivals
pub mod RoundTrip
pub mod Bounds
use fluxsync.Base.{
  ℕ, zero, suc, ◌+◌, ◌-◌, ◌*◌, ◌/◌, ◌%◌, ◌^◌, Bool, true, false, not, ◌&&◌, ◌||◌, List, [], ◌∷◌,
  ◌++◌, Option, none, some, ltb, leb, ◌==◌, if◌then◌else◌, is_empty, is_some, length, retain, take,
}
use fluxsync.Base.BTree
use fluxsync.Base.BTree.{nat_ord}
use fluxsync.Core.Events.{Bytes}
use fluxsync.Proto.Codec.{max_chunks}
use fluxsync.Proto.Msg.{ClipboardItem, Chunk, Nak, Msg, clipboard_item, chunk}
use fluxsync.Proto.Types.{Kind}

-- `(u64, Kind, bool)`
pub record Metadata : Type 0 where
  pub lamport : ℕ
  pub kind : Kind
  pub sensitive : Bool

pub record Reassembly : Type 0 where
  pub metadata : Option Metadata
  pub origin : ℕ
  pub event_seq : ℕ
  pub chunks : List (Option Bytes)
  pub last_update : ℕ
  pub first_seen : ℕ
  pub source : ℕ
  pub item_hash : ℕ

abbrev pub ReassemblyMap : Type 0
ReassemblyMap = List (ℕ × Reassembly)

pub record CompleteItem : Type 0 where
  pub source : ℕ
  pub origin : ℕ
  pub event_seq : ℕ
  pub hash : ℕ
  pub kind : Kind
  pub sensitive : Bool
  pub lamport : ℕ
  pub payload : Bytes

-- The bytes of an id, the most significant first.
abbrev pub be_bytes : ℕ → ℕ → Bytes
be_bytes zero n = []
be_bytes (suc k) n = be_bytes k (n / 256) ++ n % 256 ∷ []

unfoldable pub reassembly_key : (Bytes → ℕ) → ℕ → ℕ → ℕ
reassembly_key blake3 source item_id = blake3 (be_bytes 32 source ++ be_bytes 32 item_id)

-- `min_by_key` of `last_update`: the first of the least.
abbrev pub older : ℕ → ℕ → Option (ℕ × ℕ) → Option (ℕ × ℕ)
older k t none = some (k, t)
older k t (some (j, u)) = if leb t u then some (k, t) else some (j, u)

unfoldable pub oldest : ReassemblyMap → Option (ℕ × ℕ)
oldest [] = none
oldest ((k, r) ∷ m) = older k r.last_update (oldest m)

abbrev pub evict : Option (ℕ × ℕ) → ReassemblyMap → ReassemblyMap
evict none m = m
evict (some (k, t)) m = BTree.remove k m

unfoldable pub make_room : ℕ → ReassemblyMap → ReassemblyMap
unfolding oldest
make_room key m =
    if not (BTree.contains_key key m) && leb 5 (length m) then evict (oldest m) m else m

-- `vec![None; n]`
abbrev pub nones : ℕ → List (Option Bytes)
nones zero = []
nones (suc n) = none ∷ nones n

-- `v[i] = Some(b)` for an index in range; out of range nothing is stored.
abbrev pub fill : ℕ → Bytes → List (Option Bytes) → List (Option Bytes)
fill i b [] = []
fill zero b (c ∷ cs) = some b ∷ cs
fill (suc i) b (c ∷ cs) = c ∷ fill i b cs

abbrev pub prepend : Option Bytes → Option Bytes → Option Bytes
prepend none rest = none
prepend (some b) none = none
prepend (some b) (some bs) = some (b ++ bs)

-- The whole payload, where every chunk is there.
unfoldable pub joined : List (Option Bytes) → Option Bytes
joined [] = some []
joined (c ∷ cs) = prepend c (joined cs)

abbrev pub entry_or : Option Reassembly → Reassembly → Reassembly
entry_or none r = r
entry_or (some r) fresh = r

abbrev pub complete_with : Reassembly → ℕ → ℕ → Option Metadata → Option Bytes → Option CompleteItem
complete_with r peer_id hash none payload = none
complete_with r peer_id hash (some d) none = none
complete_with r peer_id hash (some d) (some payload) = some (record {
  source = peer_id;
  origin = r.origin;
  event_seq = r.event_seq;
  hash = hash;
  kind = d.kind;
  sensitive = d.sensitive;
  lamport = d.lamport;
  payload = payload;
})

-- The entry goes when it is complete.
abbrev pub settle :
    ℕ → ReassemblyMap → Reassembly → Option CompleteItem → ReassemblyMap × Option CompleteItem
settle key m r none = (BTree.insert key r m, none)
settle key m r (some item) = (BTree.remove key m, some item)

-- The entry with the header of the transfer in it.
unfoldable pub with_header : ℕ → ClipboardItem → ℕ → Option Reassembly → Reassembly
with_header peer_id item now entry =
    let d : Metadata = record {
      lamport = item.lamport;
      kind = item.kind;
      sensitive = item.sensitive;
    } in
    let fresh : Reassembly = record {
      metadata = some d;
      origin = item.origin;
      event_seq = item.event_seq;
      chunks = [];
      last_update = now;
      first_seen = now;
      source = peer_id;
      item_hash = item.hash;
    } in
    record (entry_or entry fresh) {
      metadata = some d;
      origin = item.origin;
      event_seq = item.event_seq;
      last_update = now;
    }

-- The entry with one more chunk in it.
unfoldable pub with_chunk : ℕ → Chunk → ℕ → Option Reassembly → Reassembly
with_chunk peer_id c now entry =
    let fresh : Reassembly = record {
      metadata = none;
      origin = 0;
      event_seq = 0;
      chunks = nones c.total;
      last_update = now;
      first_seen = now;
      source = peer_id;
      item_hash = c.item_id;
    } in
    let r = entry_or entry fresh in
    let slots = if is_empty r.chunks then nones c.total else r.chunks in
    record r { last_update = now; chunks = fill c.idx c.bytes slots }

module _ (blake3 : Bytes → ℕ) where
  -- The arm of a `ClipboardItem` without a payload.
  unfoldable pub on_header :
      ℕ → ClipboardItem → ℕ → ReassemblyMap → ReassemblyMap × Option CompleteItem
  unfolding reassembly_key make_room joined with_header
  on_header peer_id item now map =
      let key = reassembly_key blake3 peer_id item.hash in
      let m = make_room key map in
      let r = with_header peer_id item now (BTree.get key m) in
      let payload = if is_empty r.chunks then none else joined r.chunks in
      settle key m r (complete_with r peer_id item.hash r.metadata payload)

  unfoldable pub on_chunk : ℕ → Chunk → ℕ → ReassemblyMap → ReassemblyMap × Option CompleteItem
  unfolding reassembly_key make_room joined with_chunk
  on_chunk peer_id c now map =
      let key = reassembly_key blake3 peer_id c.item_id in
      let m = make_room key map in
      let r = with_chunk peer_id c now (BTree.get key m) in
      let done = settle key m r (complete_with r peer_id c.item_id r.metadata (joined r.chunks)) in
      if ltb max_chunks c.total || c.total == 0 then (map, none) else done

-- The tick of `cleanup_interval`.
unfoldable pub cleanup : ℕ → ReassemblyMap → ReassemblyMap
cleanup now m = retain (λ e. ltb (now - e.1.first_seen) 60000 && ltb (now - e.1.last_update) 5000) m

abbrev pub nak_missing_per_frame : ℕ
nak_missing_per_frame = 400

-- The indices, from `i` on, of the chunks that are not there.
abbrev pub missing_from : ℕ → List (Option Bytes) → List ℕ
missing_from i [] = []
missing_from i (none ∷ cs) = i % 65536 ∷ missing_from (i + 1) cs
missing_from i (some b ∷ cs) = missing_from (i + 1) cs

unfoldable pub build_pending_naks : ReassemblyMap → List (ℕ × Nak)
build_pending_naks [] = []
build_pending_naks ((k, r) ∷ m) =
    let rest = build_pending_naks m in
    let missing = take nak_missing_per_frame (missing_from 0 r.chunks) in
    let want_header = not (is_some r.metadata) in
    let nak : Nak = record {
      item_id = r.item_hash;
      want_header = want_header;
      missing = missing;
    } in
    if is_empty r.chunks || (is_empty missing && not want_header)
    then rest
    else (r.source, nak) ∷ rest
