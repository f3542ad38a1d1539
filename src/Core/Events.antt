-- ===== src/Core/Events.antt =====
-- crates/fluxsync-core/src/events.rs: what the daemon tells the core, and what the core answers.
-- Ids and digests are numbers (`Core.Id`), payloads are lists of bytes.
use fluxsync.Base.{ℕ, Bool, List, String}
use fluxsync.Proto.Types.{Kind}

abbrev pub Bytes : Type 0
Bytes = List ℕ

-- The fields of `LocalClipboardChange`.
pub record LocalCopy : Type 0 where
  pub hash : ℕ
  pub kind : Kind
  pub payload : Bytes
  pub preview : String
  pub sensitive : Bool
  pub lamport : ℕ

-- The fields of `FrameReceivedClipboard`.
pub record ReceivedFrame : Type 0 where
  pub hash : ℕ
  pub kind : Kind
  pub payload : Bytes
  pub preview : String
  pub sensitive : Bool
  pub lamport : ℕ
  pub resync : Bool
  pub peer_id : ℕ

pub data Event : Type 0 where
  toggle_on : Event
  toggle_off : Event
  peer_seen : (peer_id : ℕ) → (name : String) → Event
  peer_platform : (platform : String) → Event
  peer_caps : (caps : List String) → Event
  peer_lost : (peer_id : ℕ) → Event
  handshake_ok : Event
  handshake_timeout : Event
  set_trusted_peer : (name : String) → Event
  untrusted_peer_seen : (name : String) → Event
  ghost_timeout : Event
  manual_unpair : Event
  network_changed : Event
  battery_changed_self : (level : ℕ) → (charging : Bool) → Event
  battery_changed_peer : (level : ℕ) → (charging : Bool) → Event
  local_clipboard_change : LocalCopy → Event
  frame_received_clipboard : ReceivedFrame → Event
  reconnect : Event
  mesh_peers_changed : Event
  primary_failover :
      (peer_id : ℕ) → (name : String) → (platform : String) → (caps : List String) → Event
  set_favorite : (hash : String) → (favorite : Bool) → Event
  clear_history : (include_favorites : Bool) → Event
  resolve_pending : (hash : String) → (allow : Bool) → Event
  sas_pairing_started : (peer_id : ℕ) → Event
  sas_local_confirmed : (peer_id : ℕ) → Event
  sas_peer_confirmed : (peer_id : ℕ) → Event
  sas_peer_rejected : (peer_id : ℕ) → Event
  sas_reset : Event
  peer_revoked : (peer_id : ℕ) → Event

pub data LogLevel : Type 0 where
  ok info sync warn err : LogLevel

pub record LogEntry : Type 0 where
  pub level : LogLevel
  pub msg : String

pub data Action : Type 0 where
  start_discovery : Action
  stop_discovery : Action
  send_handshake : (peer_id : ℕ) → Action
  drop_peer : Action
  open_session : Action
  close_session : Action
  send_item : (hash : ℕ) → (kind : Kind) → (payload : Bytes) → (sensitive : Bool) → Action
  ack_item : (hash : ℕ) → Action
  write_clipboard : (kind : Kind) → (payload : Bytes) → (sensitive : Bool) → Action
  emit_state : Action
  emit_log : LogEntry → Action
  burst_replay : Action
  send_battery : (level : ℕ) → (charging : Bool) → Action
  duplicate_dropped : Action
  resync_apply_suppressed : Action
  pending_dropped : (hashes : List ℕ) → Action

abbrev pub log_ok : String → Action
log_ok m = emit_log (record { level = ok; msg = m })

abbrev pub log_info : String → Action
log_info m = emit_log (record { level = info; msg = m })

abbrev pub log_warn : String → Action
log_warn m = emit_log (record { level = warn; msg = m })
