-- ===== src/Core/State.antt =====
-- crates/fluxsync-core/src/state.rs: the state that clients read, and the daemon's configuration.
-- `metrics` and the lists `peers` and `paired` are filled in by the daemon: the core never reads
-- them, and only `set_metrics` writes `metrics`.
use fluxsync.Base.{ℕ, Bool, false, List, [], String, Option, none, ltb, if◌then◌else◌}
use fluxsync.Proto.Types.{Kind}
use fluxsync.Core.Error.{Result, ok, err, bad_battery_level}
use fluxsync.Core.Policy.{FirewallPolicy, Direction}

pub record PendingItem : Type 0 where
  pub hash : String
  pub kind : Kind
  pub preview : String
  pub sensitive : Bool
  pub direction : Direction
  pub peer_id : Option String

pub record PeerInfo : Type 0 where
  pub peer_id : ℕ
  pub name : String
  pub platform : String
  pub battery : ℕ
  pub charging : Bool
  pub primary : Bool
  pub caps : List String

pub record PairedDevice : Type 0 where
  pub peer_id : ℕ
  pub name : String
  pub platform : String
  pub online : Bool
  pub primary : Bool
  pub battery : ℕ
  pub charging : Bool

pub data DisconnectReason : Type 0 where
  heartbeat_timeout network_changed decrypt_failure peer_sent_bye ipc_shutdown
        unknown_transport_error :
      DisconnectReason

pub record ConnectionMetrics : Type 0 where
  pub handshakes_total : ℕ
  pub handshakes_failed : ℕ
  pub heartbeats_sent : ℕ
  pub heartbeats_received : ℕ
  pub heartbeats_missed_consecutive : ℕ
  pub last_rtt_ms : ℕ
  pub rtt_p99_ms : ℕ
  pub network_changes : ℕ
  pub reconnects : ℕ
  pub decrypt_failures : ℕ
  pub dedup_drops : ℕ
  pub last_disconnect_reason : Option DisconnectReason
  pub uptime_session_secs : ℕ
  pub items_sent : ℕ
  pub items_received : ℕ
  pub items_resynced : ℕ
  pub resync_applies_suppressed : ℕ
  pub rekeys : ℕ

pub data HistorySource : Type 0 where
  local remote : HistorySource

pub record HistoryItem : Type 0 where
  pub kind : Kind
  pub preview : String
  pub time : String
  pub source : HistorySource
  pub sensitive : Bool
  pub lamport : ℕ
  pub hash : String
  pub favorite : Bool
  pub resync : Bool
  pub source_peer_id : Option String
  pub created_ms : ℕ

pub data Status : Type 0 where
  inactive syncing : Status

-- The texts that `sas_phase` takes.
pub data SasPhase : Type 0 where
  idle showing peer_confirmed local_confirmed confirmed peer_rejected : SasPhase

pub record Config : Type 0 where
  pub peer_name_self : String
  pub version : String
  pub build_id : String
  pub cipher : String
  pub firewall : FirewallPolicy
  pub mdns_enabled : Bool

pub record State : Type 0 where
  pub phase : String
  pub on : Bool
  pub battery_level : ℕ
  pub charging : Bool
  pub peer_id : ℕ
  pub peer_name : String
  pub trusted_peer_name : Option String
  pub device_name : String
  pub peer_platform : String
  pub peer_caps : List String
  pub peer_battery : ℕ
  pub peer_charging : Bool
  pub peers : List PeerInfo
  pub paired : List PairedDevice
  pub history : List HistoryItem
  pub status : Status
  pub version : String
  pub build_id : String
  pub link_latency_ms : ℕ
  pub cipher : String
  pub metrics : Option ConnectionMetrics
  pub firewall : FirewallPolicy
  pub pending : List PendingItem
  pub vault_wipe_gen : ℕ
  pub history_retention_secs : ℕ
  pub delivered : List (String × List String)
  pub mdns_enabled : Bool
  pub sas_phase : SasPhase
  pub sas_peer : Option ℕ

abbrev pub default_history_retention_secs : ℕ
default_history_retention_secs = 86400

unfoldable pub initial : Config → State
initial config = record {
  phase = "idle";
  on = false;
  battery_level = 255;
  charging = false;
  peer_id = 0;
  peer_name = "";
  trusted_peer_name = none;
  device_name = config.peer_name_self;
  peer_platform = "";
  peer_caps = [];
  peer_battery = 255;
  peer_charging = false;
  peers = [];
  paired = [];
  history = [];
  status = inactive;
  version = config.version;
  build_id = config.build_id;
  link_latency_ms = 0;
  cipher = config.cipher;
  metrics = none;
  firewall = config.firewall;
  pending = [];
  vault_wipe_gen = 0;
  history_retention_secs = default_history_retention_secs;
  delivered = [];
  mdns_enabled = config.mdns_enabled;
  sas_phase = idle;
  sas_peer = none;
}

-- `policy::status_for`.
unfoldable pub status_for : State → Status
status_for s = if s.on then syncing else inactive

unfoldable pub set_self_battery : State → ℕ → Bool → Result State
set_self_battery s level charging =
    if ltb 100 level
    then err (bad_battery_level level)
    else ok (record s { battery_level = level; charging = charging })
