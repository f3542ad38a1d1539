-- ===== src/Daemon/Driver/Actions.antt =====
-- crates/fluxsyncd/src/driver/actions.rs: the actions of the core that send, and what a wipe clears.
-- The clipboard of the system, the cache of images, the logs and the snapshot for clients are left
-- out, and the pauses between frames.
pub mod Egress
pub mod Wiped
use fluxsync.Base.{
  ℕ, ◌+◌, ◌==◌, Bool, true, false, not, ◌&&◌, ◌||◌, List, [], ◌∷◌, Option, none, some,
  if◌then◌else◌, is_empty, is_some, is_some_eq, length, ltb, retain,
}
use fluxsync.Base.BTree
use fluxsync.Base.BTree.{nat_ord}
use fluxsync.Core.App.{App}
use fluxsync.Core.App.Mesh.{next_local_event_id}
use fluxsync.Core.Events.{Bytes, Action, send_item, pending_dropped}
use fluxsync.Core.State.{HistoryItem}
use fluxsync.Crypto.Session.{Cipher}
use fluxsync.Daemon.Driver.Frames.{Label, frame_of, build_item_frames}
use fluxsync.Daemon.Driver.Inflight.{track_inflight}
use fluxsync.Daemon.Driver.Shared.{World, Shared, sent, say, accepts_kind, send_to_all}
use fluxsync.Daemon.Outbox
use fluxsync.Daemon.Outbox.{Entry}
use fluxsync.Daemon.SeqStore.{Disk, SeqStore, Writes, advance}
use fluxsync.Daemon.Transport.{linked_peer_ids, cached_peer_id, drop_session}
use fluxsync.Daemon.Transport.Wire.{send_encrypted}
use fluxsync.Proto.Codec.{Result, ok, err, ProtoError, encode, max_payload}
use fluxsync.Proto.Msg.{Msg, bye, battery_status}
use fluxsync.Proto.Types.{Kind}

-- What `dispatch` changes: the app, the store of sequence numbers with its files, and the rest.
pub record Sender (T : Type 0) : Type 0 where
  pub app : App
  pub store : Option SeqStore
  pub disk : Disk
  pub shared : Shared T

abbrev pub is_send : Action → Bool
is_send (send_item hash kind payload sensitive) = true
is_send _ = false

abbrev pub id_or_zero : Option ℕ → ℕ
id_or_zero none = 0
id_or_zero (some id) = id

-- The numbers on disk move past the one that is used; a write that fails is logged.
abbrev pub advanced : Writes → ℕ → Option SeqStore → Disk → Option SeqStore × Disk
advanced writes seq none disk = (none, disk)
advanced writes seq (some s) disk = let (d, s', done) = advance disk s writes seq in (some s', d)

abbrev pub forget_staged : List ℕ → List (ℕ × Entry) → List (ℕ × Entry)
forget_staged [] stage = stage
forget_staged (h ∷ hs) stage = forget_staged hs (BTree.remove h stage)

unfoldable pub purge_dropped_pending_from_outbox_stage :
    List Action → List (ℕ × Entry) → List (ℕ × Entry)
purge_dropped_pending_from_outbox_stage [] stage = stage
purge_dropped_pending_from_outbox_stage (pending_dropped hashes ∷ actions) stage =
    purge_dropped_pending_from_outbox_stage actions (forget_staged hashes stage)
purge_dropped_pending_from_outbox_stage (_ ∷ actions) stage =
    purge_dropped_pending_from_outbox_stage actions stage

module _ {T : Type 0} where
  abbrev pub primary_is_pending : Shared T → Option ℕ → Bool
  primary_is_pending sh none = false
  primary_is_pending sh (some id) = BTree.contains_key id sh.pending_pairs

  unfoldable pub gate_outbound : List Action → Shared T → List Action
  gate_outbound actions sh =
      if primary_is_pending sh (cached_peer_id sh.transport)
      then retain (λ a. not (is_send a)) actions
      else actions

  -- What a wipe leaves in memory, with the rows that the vault on disk is to hold, where one ran.
  unfoldable pub sync_security_wipe_if_needed :
      App → ℕ → Shared T → ℕ × Shared T × Option (List HistoryItem)
  sync_security_wipe_if_needed app last_wipe_gen sh =
      let gen_now = app.state.vault_wipe_gen in
      let wiped = record sh {
        outbox = Outbox.clear_all sh.outbox;
        outbox_stage = [];
        inflight = [];
      } in
      if gen_now == last_wipe_gen
      then (last_wipe_gen, sh, none)
      else (gen_now, wiped, some app.state.history)

  -- Who of the linked peers an item of this device goes to.
  unfoldable pub send_targets : Shared T → Kind → List ℕ
  unfolding accepts_kind
  send_targets sh kind =
      retain (λ p. accepts_kind sh.peer_meta p kind)
        (retain (λ p. not (BTree.contains_key p sh.pending_pairs)) (linked_peer_ids sh.transport))

  -- A copy to resend, of what is not sensitive.
  abbrev pub keep_copy : World → ℕ → Bool → Entry → Shared T → Shared T
  keep_copy w hash true e sh = sh
  keep_copy w hash false e sh = record sh { outbox = Outbox.insert sh.outbox hash e w.now }

module _ {T : Type 0} (cipher : Cipher T) where
  abbrev pub send_primary : Shared T → Result Bytes ProtoError → Shared T
  send_primary sh (err e) = sh
  send_primary sh (ok bytes) =
      say (sent (id_or_zero (cached_peer_id sh.transport)) bytes)
        (record sh { transport = (send_encrypted cipher sh.transport bytes).0 })

  unfoldable pub fan_out : World → ℕ → Kind → List Bytes → Shared T → Shared T
  unfolding send_targets send_to_all
  fan_out w hash kind frames sh =
      let targets = send_targets sh kind in
      let out = send_to_all cipher targets frames sh in
      if is_empty targets
      then out
      else record out { inflight = track_inflight out.inflight hash frames targets w.now }

  -- An item of which there is nothing to send, or nobody to send it to, leaves no trace.
  unfoldable pub spread : World → ℕ → Kind → Bool → Entry → List Bytes → Shared T → Shared T
  unfolding fan_out
  spread w hash kind sensitive entry frames sh =
      let out = fan_out w hash kind frames (keep_copy w hash sensitive entry sh) in
      if is_empty frames || is_empty (linked_peer_ids sh.transport) then sh else out

  -- The arm of `SendItem`.
  unfoldable pub on_send_item : World → Writes → ℕ → Kind → Bytes → Bool → Sender T → Sender T
  unfolding spread next_local_event_id
  on_send_item w writes hash kind payload sensitive s =
      let (app, id) = next_local_event_id s.app in
      let (store, disk) = advanced writes (id.seq + 1) s.store s.disk in
      let label : Label = record {
        lamport = app.clock.counter;
        hash = hash;
        kind = kind;
        sensitive = sensitive;
        origin = id.origin;
        event_seq = id.seq;
      } in
      let entry : Entry = record {
        payload = payload;
        kind = kind;
        origin = id.origin;
        seq = id.seq;
        created = w.now;
      } in
      let frames = build_item_frames w.cbor label payload in
      if ltb max_payload (length payload) then s else record {
        app = app;
        store = store;
        disk = disk;
        shared = spread w hash kind sensitive entry frames s.shared;
      }

  unfoldable pub on_close_session : World → App → Shared T → Shared T
  on_close_session w app sh =
      let tracked = app.state.peer_id in
      let occupant = cached_peer_id sh.transport in
      let said = send_primary sh (encode w.cbor (frame_of bye)) in
      if not (tracked == 0)
        && (is_some occupant && not (is_some_eq occupant tracked))
        && is_some sh.transport.conn.session
      then sh
      else record said { transport = drop_session said.transport }

  unfoldable pub on_send_battery : World → ℕ → Bool → Shared T → Shared T
  on_send_battery w level charging sh = send_primary sh (
      encode w.cbor
        (frame_of (battery_status (record { lamport = 0; level = level; charging = charging }))))

  unfoldable pub on_drop_peer : World → Shared T → Shared T
  on_drop_peer w sh =
      let said = send_primary sh (encode w.cbor (frame_of bye)) in
      record said { transport = drop_session said.transport }
