-- ===== src/Daemon/Driver/Inflight.antt =====
-- crates/fluxsyncd/src/driver/shared.rs, inbound.rs and actions.rs: the items that peers have not
-- acknowledged yet. A `HashMap` is an association list, a `HashSet` a list in which nothing occurs
-- twice; what a function sends is a list of peers with frames.
pub mod Entries
pub mod Ends
pub mod Acks
use fluxsync.Base.{
  ℕ, zero, suc, ◌+◌, ◌-◌, Bool, true, false, not, List, [], ◌∷◌, ◌++◌, map, Option, none, some, ltb,
  leb, ◌==◌, if◌then◌else◌, is_empty, any, retain, get_elem?,
}
use fluxsync.Base.BTree
use fluxsync.Base.BTree.{nat_ord}
use fluxsync.Core.Events.{Bytes}
use fluxsync.Proto.Msg.{Nak}

abbrev pub retransmit_interval_ms : ℕ
retransmit_interval_ms = 2000

abbrev pub max_retransmit : ℕ
max_retransmit = 6

abbrev pub inflight_max_age_ms : ℕ
inflight_max_age_ms = 90000

pub record Inflight : Type 0 where
  pub frames : List Bytes
  pub attempts : ℕ
  pub last_sent : ℕ
  pub first_sent : ℕ
  pub pending_peers : List ℕ

abbrev pub InflightMap : Type 0
InflightMap = List (ℕ × Inflight)

abbrev pub is_pending : ℕ → List ℕ → Bool
is_pending peer peers = any (λ p. p == peer) peers

-- `HashSet::extend`
abbrev pub extend : List ℕ → List ℕ → List ℕ
extend set [] = set
extend set (p ∷ ps) = extend (if is_pending p set then set else set ++ p ∷ []) ps

abbrev pub peers_of : Option Inflight → List ℕ
peers_of none = []
peers_of (some item) = item.pending_peers

-- The frames are new, and the peers that an entry of this hash waits for stay.
unfoldable pub track_inflight : InflightMap → ℕ → List Bytes → List ℕ → ℕ → InflightMap
track_inflight m hash frames peers now =
    let entry : Inflight = record {
      frames = frames;
      attempts = 0;
      last_sent = now;
      first_sent = now;
      pending_peers = extend (peers_of (BTree.get hash m)) peers;
    } in
    BTree.insert hash entry m

abbrev pub without : ℕ → Inflight → Inflight
without peer item = record item { pending_peers = retain (λ p. not (p == peer)) item.pending_peers }

-- `Delivered`, where the peer was waited for.
abbrev pub acked : InflightMap → ℕ → ℕ → Option Inflight → InflightMap × Bool
acked m peer hash none = (m, false)
acked m peer hash (some item) =
    let left = without peer item in
    (
      if is_empty left.pending_peers then BTree.remove hash m else BTree.insert hash left m,
      is_pending peer item.pending_peers,
    )

-- The arm of `Ack`: the map, and whether the delivery is reported.
unfoldable pub on_ack : InflightMap → ℕ → ℕ → InflightMap × Bool
on_ack m peer hash = if hash == 0 then (m, false) else acked m peer hash (BTree.get hash m)

abbrev pub frame_at : List Bytes → ℕ → List Bytes
frame_at frames i = elim (get_elem? frames i) [ none ↦ [] | some f ↦ f ∷ [] ]

abbrev pub frames_at : List Bytes → List ℕ → List Bytes
frames_at frames [] = []
frames_at frames (i ∷ is) = frame_at frames (i + 1) ++ frames_at frames is

-- The frames that are asked for, the header among them.
abbrev pub requested : Nak → Inflight → List Bytes
requested nak item =
    (if nak.want_header then frame_at item.frames 0 else []) ++ frames_at item.frames nak.missing

abbrev pub answered : InflightMap → ℕ → Nak → ℕ → Option Inflight → InflightMap × List Bytes
answered m peer nak now none = (m, [])
answered m peer nak now (some item) =
    let to_send = requested nak item in
    if is_pending peer item.pending_peers
    then (
      if is_empty to_send then m else BTree.insert nak.item_id (record item { last_sent = now }) m,
      to_send,
    )
    else (m, [])

-- The arm of `Nak`: the map, and what goes to the peer.
unfoldable pub on_nak : InflightMap → ℕ → Nak → ℕ → InflightMap × List Bytes
on_nak m peer nak now = answered m peer nak now (BTree.get nak.item_id m)

abbrev pub RetransmitBatch : Type 0
RetransmitBatch = List ℕ × List Bytes

-- What a tick does with an item: it goes, it stays as it is, or it is sent again.
unfoldable pub retransmit_item : ℕ → Inflight → Option (Inflight × Bool)
retransmit_item now item =
    if ltb inflight_max_age_ms (now - item.first_sent)
    then none
    else if ltb (now - item.last_sent) retransmit_interval_ms
    then some (item, false)
    else if leb max_retransmit item.attempts
    then none
    else some (record item { attempts = item.attempts + 1; last_sent = now }, true)

abbrev pub kept :
    ℕ
    → Option (Inflight × Bool)
    → InflightMap × List RetransmitBatch
    → InflightMap × List RetransmitBatch
kept hash none rest = rest
kept hash (some (item, false)) (m, batches) = ((hash, item) ∷ m, batches)
kept hash (some (item, true)) (m, batches) =
    ((hash, item) ∷ m, (item.pending_peers, item.frames) ∷ batches)

-- The tick of `retransmit_interval`.
unfoldable pub retransmit : ℕ → InflightMap → InflightMap × List RetransmitBatch
unfolding retransmit_item
retransmit now [] = ([], [])
retransmit now ((hash, item) ∷ m) = kept hash (retransmit_item now item) (retransmit now m)

unfoldable pub purge_peer_from_inflight : ℕ → InflightMap → InflightMap
purge_peer_from_inflight peer [] = []
purge_peer_from_inflight peer ((hash, item) ∷ m) =
    let rest = purge_peer_from_inflight peer m in
    let left = without peer item in
    if not (is_empty left.pending_peers) then (hash, left) ∷ rest else rest
