-- ===== src/Daemon/Driver/Shared.antt =====
-- crates/fluxsyncd/src/driver/shared.rs, frames.rs, liveness.rs and resync.rs: what the tasks of the
-- daemon share, and what they do with it: each function takes it and returns it. What goes out is
-- noted in `effects`, in its order, a send that fails too. The channel of events has room. Metrics and logs are not modelled.
use package.text.Mathlib.Text.{◌==◌ as str_eq}
use fluxsync.Base.{
  ℕ, ◌==◌, Bool, true, false, not, ◌&&◌, ◌||◌, List, [], ◌∷◌, ◌++◌, String, Option, none, some,
  if◌then◌else◌, is_empty, any, retain,
}
use fluxsync.Base.BTree
use fluxsync.Base.BTree.{nat_ord}
use fluxsync.Core.Events.{Bytes, Event, primary_failover, mesh_peers_changed}
use fluxsync.Core.Seen.{SeenSet}
use fluxsync.Core.State.{State}
use fluxsync.Crypto.Session.{Cipher}
use fluxsync.Daemon.Backoff.{PeerBackoff}
use fluxsync.Daemon.Driver.Frames.{Rgba, frame_of}
use fluxsync.Daemon.Driver.Inflight.{InflightMap, track_inflight}
use fluxsync.Daemon.Driver.Pulls.{PendingPulls, ClearedTombstone}
use fluxsync.Daemon.Driver.Reassembly.{ReassemblyMap}
use fluxsync.Daemon.Outbox.{Outbox, Entry}
use fluxsync.Daemon.Transport.{Transport, linked_peer_ids, promote_secondary}
use fluxsync.Daemon.Transport.Wire.{send_encrypted_to}
use fluxsync.Proto.Caps.{cap_file}
use fluxsync.Proto.Codec.{Cbor, Result, ok, err, ProtoError, encode}
use fluxsync.Proto.Msg.{Msg, ack}
use fluxsync.Proto.Types.{Kind, text, url, code, image, file}

-- Third-party code, the label of an item in the history, and the instant of the call, monotonic and
-- since the epoch.
pub record World : Type 0 where
  pub blake3 : Bytes → ℕ
  pub cbor : Cbor
  pub decode_png : Bytes → Option Rgba
  pub unhex : String → Option ℕ
  pub preview_label : Kind → Bytes → String
  pub now : ℕ
  pub now_ms : ℕ

pub record TrustedPeer : Type 0 where
  pub static_pub : ℕ
  pub name : String

-- The words are their places in the list of words.
pub record PendingPair : Type 0 where
  pub static_pub : ℕ
  pub name : String
  pub sas_words : List ℕ
  pub from : ℕ
  pub expires_at : ℕ

pub record PeerMeta : Type 0 where
  pub name : String
  pub platform : String
  pub caps : List String
  pub battery : ℕ
  pub charging : Bool
  pub hello_seen : Bool
  pub verify_restart_sent : Bool

abbrev pub new_meta : PeerMeta
new_meta = record {
  name = "";
  platform = "";
  caps = [];
  battery = 255;
  charging = false;
  hello_seen = false;
  verify_restart_sent = false;
}

pub data Effect : Type 0 where
  sent : (peer : ℕ) → Bytes → Effect
  event : Event → Effect
  delivered : (hash peer : ℕ) → Effect
  saved_peers : Effect

pub record Shared (T : Type 0) : Type 0 where
  pub has_keystore : Bool
  pub state : State
  pub transport : Transport T
  pub trusted : List (ℕ × TrustedPeer)
  pub pending_pairs : List (ℕ × PendingPair)
  pub deferred_sas_confirm : List ℕ
  pub disc_cache : List (ℕ × ℕ)
  pub backoff : List (ℕ × PeerBackoff)
  pub peer_meta : List (ℕ × PeerMeta)
  pub inflight : InflightMap
  pub reassembly : ReassemblyMap
  pub mesh_seen : SeenSet
  pub echo_ack_sent : List ℕ
  pub outbox : Outbox
  pub outbox_stage : List (ℕ × Entry)
  pub pending_pulls : PendingPulls
  pub cleared_tombstone : ClearedTombstone
  pub effects : List Effect

abbrev pub has_cap : String → List String → Bool
has_cap cap caps = any (λ c. str_eq c cap) caps

abbrev pub meta_has_cap : String → Option PeerMeta → Bool
meta_has_cap cap none = false
meta_has_cap cap (some m) = has_cap cap m.caps

abbrev pub peer_has_cap : String → List (ℕ × PeerMeta) → ℕ → Bool
peer_has_cap cap meta peer = meta_has_cap cap (BTree.get peer meta)

unfoldable pub accepts_kind : List (ℕ × PeerMeta) → ℕ → Kind → Bool
accepts_kind meta peer file = peer_has_cap cap_file meta peer
accepts_kind meta peer text = true
accepts_kind meta peer url = true
accepts_kind meta peer code = true
accepts_kind meta peer image = true

abbrev pub meta_or_new : Option PeerMeta → PeerMeta
meta_or_new none = new_meta
meta_or_new (some m) = m

-- `HashSet` of ids.
abbrev pub in_set : ℕ → List ℕ → Bool
in_set peer set = any (λ p. p == peer) set

abbrev pub add_to_set : ℕ → List ℕ → List ℕ
add_to_set peer set = if in_set peer set then set else set ++ peer ∷ []

abbrev pub drop_from_set : ℕ → List ℕ → List ℕ
drop_from_set peer set = retain (λ p. not (p == peer)) set

abbrev pub failover_event : ℕ → Option PeerMeta → Event
failover_event id none = primary_failover id "" "" []
failover_event id (some m) = primary_failover id m.name m.platform m.caps

module _ {T : Type 0} where
  unfoldable pub say : Effect → Shared T → Shared T
  say e sh = record sh { effects = sh.effects ++ e ∷ [] }

  unfoldable pub emit : Event → Shared T → Shared T
  unfolding say
  emit ev sh = say (event ev) sh

  unfoldable pub emit_if : Bool → Event → Shared T → Shared T
  unfolding emit
  emit_if b ev sh = if b then emit ev sh else sh

  -- `remove` on the map of the peers that are shown, which is told where there was an entry.
  unfoldable pub forget_meta : ℕ → Shared T → Shared T
  forget_meta peer sh =
      emit_if (BTree.contains_key peer sh.peer_meta) mesh_peers_changed
        (record sh { peer_meta = BTree.remove peer sh.peer_meta })

  unfoldable pub resync_authorized : Shared T → ℕ → Bool
  resync_authorized sh peer =
      in_set peer (linked_peer_ids sh.transport) && peer_has_cap "resync-1" sh.peer_meta peer

  abbrev pub failed_over : Shared T → Transport T × Option ℕ → Shared T × Bool
  failed_over sh (t, none) = (record sh { transport = t }, false)
  failed_over sh (t, some id) = (
    emit mesh_peers_changed
        (emit (failover_event id (BTree.get id sh.peer_meta)) (record sh { transport = t })),
    true,
  )

  unfoldable pub try_primary_failover : World → Shared T → Shared T × Bool
  try_primary_failover w sh = failed_over sh (promote_secondary sh.transport w.now_ms)

  -- Who an item goes on to: the linked peers but its source and its origin, which are confirmed and
  -- can take its kind.
  unfoldable pub forward_targets : Shared T → Kind → ℕ → ℕ → List ℕ
  unfolding accepts_kind
  forward_targets sh kind source origin =
      retain (λ d. accepts_kind sh.peer_meta d kind)
        (retain
          (λ d.
            not (d == source) && not (d == origin) && not (BTree.contains_key d sh.pending_pairs))
          (linked_peer_ids sh.transport))

module _ {T : Type 0} (cipher : Cipher T) where
  unfoldable pub send : ℕ → Bytes → Shared T → Shared T
  send peer bytes sh =
      say (sent peer bytes)
        (record sh { transport = (send_encrypted_to cipher sh.transport peer bytes).0 })

  abbrev pub send_encoded : ℕ → Result Bytes ProtoError → Shared T → Shared T
  send_encoded peer (err e) sh = sh
  send_encoded peer (ok bytes) sh = send peer bytes sh

  unfoldable pub send_msg : World → ℕ → Msg → Shared T → Shared T
  unfolding send
  send_msg w peer msg sh = send_encoded peer (encode w.cbor (frame_of msg)) sh

  unfoldable pub ack_source : World → ℕ → ℕ → Shared T → Shared T
  unfolding send_msg
  ack_source w peer hash sh = send_msg w peer (ack (record { lamport = 0; hash = hash })) sh

  unfoldable pub send_frames : ℕ → List Bytes → Shared T → Shared T
  send_frames peer [] sh = sh
  send_frames peer (f ∷ fs) sh = send_frames peer fs (send peer f sh)

  unfoldable pub send_to_all : List ℕ → List Bytes → Shared T → Shared T
  unfolding send_frames
  send_to_all [] frames sh = sh
  send_to_all (p ∷ ps) frames sh = send_to_all ps frames (send_frames p frames sh)

  unfoldable pub forward_frames : World → Kind → ℕ → ℕ → ℕ → List Bytes → Shared T → Shared T
  unfolding forward_targets send_to_all
  forward_frames w kind source origin hash frames sh =
      let targets = forward_targets sh kind source origin in
      let out = send_to_all targets frames sh in
      if is_empty targets || is_empty frames
      then sh
      else record out { inflight = track_inflight out.inflight hash frames targets w.now }
