-- ===== src/Daemon/Driver/Inbound/Items.antt =====
-- crates/fluxsyncd/src/driver/inbound.rs: the arms for items and chunks, and `complete_reassembled_item`.
use fluxsync.Base.{
  ℕ, Bool, false, true, not, ◌&&◌, List, [], Option, none, some, if◌then◌else◌, is_empty,
}
use fluxsync.Base.BTree
use fluxsync.Base.BTree.{nat_ord}
use fluxsync.Core.Events.{Bytes, ReceivedFrame, frame_received_clipboard}
use fluxsync.Core.Id.{EventId}
use fluxsync.Core.Policy.{Decision, pass, defer, block, inbound, decide}
use fluxsync.Core.Seen.{observe}
use fluxsync.Crypto.Session.{Cipher}
use fluxsync.Daemon.Driver.Frames.{Label, frame_of, pushed, build_item_frames, verify_content_hash}
use fluxsync.Daemon.Driver.Pulls.{take_pending_pull}
use fluxsync.Daemon.Driver.Reassembly.{CompleteItem, ReassemblyMap, on_header, on_chunk}
use fluxsync.Daemon.Driver.Shared.{World, Shared, emit, ack_source, forward_frames}
use fluxsync.Daemon.Outbox
use fluxsync.Daemon.Outbox.{Entry}
use fluxsync.Proto.Codec.{encode}
use fluxsync.Proto.Msg.{ClipboardItem, Chunk, clipboard_item}

abbrev pub is_block : Decision → Bool
is_block block = true
is_block pass = false
is_block defer = false

-- The entry of the resend buffer that an item becomes.
abbrev pub staged : CompleteItem → ℕ → Entry
staged item now = record {
  payload = item.payload;
  kind = item.kind;
  origin = item.origin;
  seq = item.event_seq;
  created = now;
}

abbrev pub label_of : CompleteItem → Label
label_of item = record {
  lamport = item.lamport;
  hash = item.hash;
  kind = item.kind;
  sensitive = item.sensitive;
  origin = item.origin;
  event_seq = item.event_seq;
}

-- An item that came in a single frame.
abbrev pub whole : ℕ → ClipboardItem → CompleteItem
whole peer item = record {
  source = peer;
  origin = item.origin;
  event_seq = item.event_seq;
  hash = item.hash;
  kind = item.kind;
  sensitive = item.sensitive;
  lamport = item.lamport;
  payload = item.payload;
}

abbrev pub received_frame : World → CompleteItem → Bool → ReceivedFrame
received_frame w item resync = record {
  hash = item.hash;
  kind = item.kind;
  payload = item.payload;
  preview = w.preview_label item.kind item.payload;
  sensitive = item.sensitive;
  lamport = item.lamport;
  resync = resync;
  peer_id = item.source;
}

module _ {T : Type 0} where
  -- What the firewall says of the item.
  abbrev pub verdict : Shared T → CompleteItem → Decision
  verdict sh item = decide sh.state.firewall item.kind item.sensitive inbound

  -- The resend buffer holds what the firewall passes; what it asks about waits, the first to come.
  abbrev pub admit : World → Decision → CompleteItem → Shared T → Shared T
  admit w pass item sh = record sh {
    outbox = Outbox.insert sh.outbox item.hash (staged item w.now) w.now;
  }
  admit w defer item sh = record sh {
    outbox_stage =
        if BTree.contains_key item.hash sh.outbox_stage
        then sh.outbox_stage
        else BTree.insert item.hash (staged item w.now) sh.outbox_stage;
  }
  admit w block item sh = sh

  unfoldable pub admit_item : World → CompleteItem → Shared T → Shared T
  admit_item w item sh = if item.sensitive then sh else admit w (verdict sh item) item sh

  abbrev pub blocks_relay : Shared T → CompleteItem → Bool
  blocks_relay sh item = not item.sensitive && is_block (verdict sh item)

  -- The event to the core, which says whether the item was asked for.
  unfoldable pub hand_over : World → CompleteItem → Shared T → Shared T
  hand_over w item sh =
      let (pulls, resync) = take_pending_pull sh.pending_pulls item.source item.hash w.now in
      emit (frame_received_clipboard (received_frame w item resync))
        (record sh { pending_pulls = pulls })

module _ {T : Type 0} (cipher : Cipher T) where
  -- The first sight of an item: it is admitted, goes on, and is handed over.
  unfoldable pub first_sight : World → CompleteItem → List Bytes → Shared T → Shared T
  unfolding admit_item hand_over
  first_sight w item frames sh =
      let admitted = admit_item w item sh in
      let relayed =
        if blocks_relay sh item
        then admitted
        else forward_frames cipher w item.kind item.source item.origin item.hash frames admitted in
      hand_over w item relayed

  -- An item whose bytes are complete: it is checked, acknowledged, and looked up by its event id.
  unfoldable pub take_in : World → CompleteItem → List Bytes → Shared T → Shared T
  unfolding first_sight
  take_in w item frames sh =
      let acked = ack_source cipher w item.source item.hash sh in
      let eid : EventId = record { origin = item.origin; seq = item.event_seq } in
      let (seen, fresh) = observe acked.mesh_seen eid in
      let noted = record acked { mesh_seen = seen } in
      let taken = first_sight w item frames noted in
      if not (verify_content_hash w.blake3 w.decode_png item.kind item.payload item.hash)
      then sh
      else if fresh
      then taken
      else noted

  unfoldable pub complete_reassembled_item : World → CompleteItem → Shared T → Shared T
  unfolding take_in
  complete_reassembled_item w item sh =
      take_in w item (build_item_frames w.cbor (label_of item) item.payload) sh

  abbrev pub after_part : World → Shared T → ReassemblyMap × Option CompleteItem → Shared T
  after_part w sh (m, none) = record sh { reassembly = m }
  after_part w sh (m, some item) = complete_reassembled_item w item (record sh { reassembly = m })

  -- The arm of `ClipboardItem`: the header of a transfer, or an item in one frame.
  unfoldable pub on_clipboard_item : World → ℕ → ClipboardItem → Shared T → Shared T
  unfolding take_in complete_reassembled_item
  on_clipboard_item w peer item sh =
      let begun = after_part w sh (on_header w.blake3 peer item w.now sh.reassembly) in
      let single =
        take_in w (whole peer item) (pushed (encode w.cbor (frame_of (clipboard_item item))) [])
          sh in
      if is_empty item.payload then begun else single

  unfoldable pub on_chunk_frame : World → ℕ → Chunk → Shared T → Shared T
  unfolding complete_reassembled_item
  on_chunk_frame w peer c sh = after_part w sh (on_chunk w.blake3 peer c w.now sh.reassembly)
