-- ===== src/Proto/Msg.antt =====
-- crates/fluxsync-proto/src/types.rs: the envelope and its messages.
use fluxsync.Base.{ℕ, Bool, List, String, Option}
use fluxsync.Proto.Types.{Kind}

pub record HandshakeInit : Type 0 where
  pub peer_id : ℕ
  pub ephemeral_pub : ℕ
  pub static_pub : ℕ
  pub lamport : ℕ

pub record HandshakeResp : Type 0 where
  pub peer_id : ℕ
  pub ephemeral_pub : ℕ
  pub static_pub : ℕ
  pub lamport : ℕ

pub record ClipboardItem : Type 0 where
  pub lamport : ℕ
  pub hash : ℕ
  pub kind : Kind
  pub payload : List ℕ
  pub sensitive : Bool
  pub wall_time_ms : ℕ
  pub origin : ℕ
  pub event_seq : ℕ

pub record BatteryStatus : Type 0 where
  pub lamport : ℕ
  pub level : ℕ
  pub charging : Bool

pub record Heartbeat : Type 0 where
  pub lamport : ℕ
  pub rtt_hint : Option ℕ

pub record Chunk : Type 0 where
  pub item_id : ℕ
  pub idx : ℕ
  pub total : ℕ
  pub bytes : List ℕ

pub record Ack : Type 0 where
  pub lamport : ℕ
  pub hash : ℕ

pub record Nak : Type 0 where
  pub item_id : ℕ
  pub want_header : Bool
  pub missing : List ℕ

pub record Hello : Type 0 where
  pub name : String
  pub platform : String
  pub caps : List String

pub record ResyncOffer : Type 0 where
  pub hashes : List String

pub record ResyncPull : Type 0 where
  pub hashes : List String

pub record PairConfirm : Type 0 where
  pub accept : Bool

pub data Msg : Type 0 where
  handshake_init : HandshakeInit → Msg
  handshake_resp : HandshakeResp → Msg
  clipboard_item : ClipboardItem → Msg
  battery_status : BatteryStatus → Msg
  heartbeat : Heartbeat → Msg
  chunk : Chunk → Msg
  ack : Ack → Msg
  nak : Nak → Msg
  bye : Msg
  revoke : Msg
  hello : Hello → Msg
  resync_offer : ResyncOffer → Msg
  resync_pull : ResyncPull → Msg
  pair_confirm : PairConfirm → Msg
  pair_verify_started : Msg

pub record Frame : Type 0 where
  pub version : ℕ
  pub msg : Msg
