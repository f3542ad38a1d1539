-- ===== src/Core/Fsm.antt =====
-- crates/fluxsync-core/src/fsm.rs: the transition table, one clause for each arm that applies.
pub mod Laws
use Prim.Native.String.{◌++◌ as concat, count as chars_count}
use fluxsync.Base.{ℕ, ◌+◌, ◌/◌, Bool, true, false, List, [], ◌∷◌, ◌++◌, String, length}
use fluxsync.Base.Text.{decimal}
use fluxsync.Proto.Types.{Kind, text, url, code, image, file}
use fluxsync.Core.Events.{
  Bytes, LocalCopy, ReceivedFrame, Event, toggle_on, toggle_off, peer_seen, peer_platform,
  peer_caps, peer_lost, handshake_ok, handshake_timeout, set_trusted_peer, untrusted_peer_seen,
  ghost_timeout, manual_unpair, network_changed, battery_changed_self, battery_changed_peer,
  local_clipboard_change, frame_received_clipboard, reconnect, mesh_peers_changed, primary_failover,
  set_favorite, clear_history, resolve_pending, sas_pairing_started, sas_local_confirmed,
  sas_peer_confirmed, sas_peer_rejected, sas_reset, peer_revoked, Action, start_discovery,
  stop_discovery, send_handshake, drop_peer, open_session, close_session, send_item, ack_item,
  write_clipboard, emit_state, burst_replay, send_battery, log_ok, log_info, log_warn,
}

pub data Phase : Type 0 where
  idle discovering handshaking linked : Phase

-- `payload.len().div_ceil(1024)`
kib : Bytes → ℕ
kib payload = (length payload + 1023) / 1024

unfoldable pub received_label : Kind → Bytes → String → String
unfolding kib decimal
received_label image payload preview =
    concat "Clipboard updated — image, " (concat (decimal (kib payload)) " KB from peer.")
received_label file payload preview =
    concat "File received — " (concat (decimal (kib payload)) " KB from peer.")
received_label text payload preview =
    concat "Clipboard updated — " (concat (decimal (chars_count preview)) " chars from peer.")
received_label url payload preview =
    concat "Clipboard updated — " (concat (decimal (chars_count preview)) " chars from peer.")
received_label code payload preview =
    concat "Clipboard updated — " (concat (decimal (chars_count preview)) " chars from peer.")

unfoldable pub transition : Phase → Event → Phase × List Action
transition phase toggle_off =
    (idle, close_session ∷ stop_discovery ∷ emit_state ∷ log_info "Sync turned off." ∷ [])
transition phase manual_unpair = (
  idle,
  close_session ∷ stop_discovery ∷ drop_peer ∷ emit_state ∷ log_info "Unpaired from peer." ∷ [],
)
transition idle toggle_on =
    (discovering, start_discovery ∷ emit_state ∷ log_info "Sync turned on. Looking for peers." ∷ [])
transition discovering (peer_seen peer_id name) = (
  handshaking,
  send_handshake peer_id ∷ log_info (concat "Discovered peer \"" (concat name "\".")) ∷ [],
)
transition discovering network_changed = (
  discovering,
  stop_discovery ∷ start_discovery ∷ log_warn "Network changed. Searching again." ∷ [],
)
transition phase (untrusted_peer_seen name) = (
  discovering,
  drop_peer
      ∷ emit_state
      ∷ log_warn "Peer cryptographic mismatch detected. Unpairing."
      ∷ start_discovery
      ∷ [],
)
transition discovering ghost_timeout = (
  discovering,
  drop_peer
      ∷ emit_state
      ∷ log_warn "Reconnection timeout. Returning to scan mode."
      ∷ start_discovery
      ∷ [],
)
transition handshaking ghost_timeout = (
  discovering,
  drop_peer
      ∷ emit_state
      ∷ log_warn "Reconnection timeout. Returning to scan mode."
      ∷ start_discovery
      ∷ [],
)
transition handshaking handshake_ok = (
  linked,
  open_session
      ∷ burst_replay
      ∷ send_battery 100 false
      ∷ emit_state
      ∷ log_ok "Handshake complete. Link is live."
      ∷ [],
)
transition handshaking handshake_timeout =
    (discovering, log_warn "Handshake interrupted or timed out. Retrying." ∷ start_discovery ∷ [])
transition handshaking (peer_lost peer_id) =
    (discovering, log_warn "Handshake interrupted or timed out. Retrying." ∷ start_discovery ∷ [])
transition handshaking (peer_seen peer_id name) = (handshaking, [])
transition linked (local_clipboard_change c) =
    (linked, send_item c.hash c.kind c.payload c.sensitive ∷ [])
transition linked (frame_received_clipboard f) = (
  linked,
  write_clipboard f.kind f.payload f.sensitive
      ∷ ack_item f.hash
      ∷ emit_state
      ∷ log_ok (received_label f.kind f.payload f.preview)
      ∷ [],
)
transition linked (peer_seen peer_id name) =
    (linked, emit_state ∷ log_ok "Peer identity confirmed." ∷ [])
transition linked (peer_lost peer_id) = (
  discovering,
  close_session ∷ emit_state ∷ log_warn "Peer offline. Searching again." ∷ start_discovery ∷ [],
)
transition linked (battery_changed_self level charging) =
    (linked, send_battery level charging ∷ emit_state ∷ [])
transition phase (battery_changed_self level charging) = (phase, emit_state ∷ [])
transition phase (battery_changed_peer level charging) = (phase, emit_state ∷ [])
transition phase (peer_platform platform) = (phase, emit_state ∷ [])
transition phase (peer_caps caps) = (phase, emit_state ∷ [])
transition phase mesh_peers_changed = (phase, emit_state ∷ [])
transition phase (primary_failover peer_id name platform caps) = (phase, emit_state ∷ [])
transition linked reconnect = (linked, burst_replay ∷ [])
transition discovering reconnect = (discovering, start_discovery ∷ [])
transition handshaking reconnect = (handshaking, [])
transition linked network_changed = (linked, [])
transition handshaking network_changed = (discovering, start_discovery ∷ [])
transition phase (frame_received_clipboard f) = (
  phase,
  ack_item f.hash
      ∷ log_warn "Clipboard frame received before link established — acked, not applied."
      ∷ [],
)
transition phase event = (phase, [])
