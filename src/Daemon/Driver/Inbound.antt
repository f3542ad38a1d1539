-- ===== src/Daemon/Driver/Inbound.antt =====
-- crates/fluxsyncd/src/driver/inbound.rs: what the daemon does with a frame of a peer.
pub mod Items
pub mod Links
pub mod Pairing
pub mod Resync
pub mod Greeting
pub mod Effects
pub mod Sends
pub mod Vouched
pub mod Kept
pub mod Relay
pub mod Once
use fluxsync.Base.{ℕ, Bool, true, false, not, ◌||◌, ◌&&◌, if◌then◌else◌}
use fluxsync.Base.BTree
use fluxsync.Base.BTree.{nat_ord}
use fluxsync.Crypto.Session.{Cipher}
use fluxsync.Daemon.Driver.Inbound.Items.{on_clipboard_item, on_chunk_frame}
use fluxsync.Daemon.Driver.Inbound.Links.{
  on_battery, on_ack_frame, on_bye, on_revoke, on_heartbeat, on_nak_frame,
}
use fluxsync.Daemon.Driver.Inbound.Pairing.{on_pair_confirm, on_pair_verify_started}
use fluxsync.Daemon.Driver.Inbound.Resync.{on_resync_offer, on_resync_pull}
use fluxsync.Daemon.Driver.Inbound.Greeting.{on_hello}
use fluxsync.Daemon.Driver.Shared.{World, Shared}
use fluxsync.Proto.Msg.{
  Msg, handshake_init, handshake_resp, clipboard_item, battery_status, heartbeat, chunk, ack, nak,
  bye, revoke, hello, resync_offer, resync_pull, pair_confirm, pair_verify_started,
}

abbrev pub blocks_until_confirmed : Msg → Bool
blocks_until_confirmed (clipboard_item item) = true
blocks_until_confirmed (chunk c) = true
blocks_until_confirmed (resync_offer o) = true
blocks_until_confirmed (resync_pull p) = true
blocks_until_confirmed _ = false

module _ {T : Type 0} where
  -- Trusted, and not waiting for a confirmation.
  abbrev pub is_confirmed : Shared T → ℕ → Bool
  is_confirmed sh peer =
      not (BTree.contains_key peer sh.pending_pairs) && BTree.contains_key peer sh.trusted

module _ {T : Type 0} (cipher : Cipher T) where
  unfoldable pub run_arm : World → ℕ → Msg → Shared T → Shared T
  unfolding on_clipboard_item on_chunk_frame on_battery on_heartbeat on_ack_frame on_nak_frame
      on_bye on_revoke on_hello on_resync_offer on_resync_pull on_pair_confirm
      on_pair_verify_started
  run_arm w peer (clipboard_item item) sh = on_clipboard_item cipher w peer item sh
  run_arm w peer (chunk c) sh = on_chunk_frame cipher w peer c sh
  run_arm w peer (battery_status b) sh = on_battery peer b sh
  run_arm w peer (heartbeat h) sh = on_heartbeat cipher w peer sh
  run_arm w peer (ack a) sh = on_ack_frame peer a sh
  run_arm w peer (nak n) sh = on_nak_frame cipher w peer n sh
  run_arm w peer bye sh = on_bye w peer sh
  run_arm w peer revoke sh = on_revoke w peer sh
  run_arm w peer (handshake_init h) sh = sh
  run_arm w peer (handshake_resp h) sh = sh
  run_arm w peer (hello h) sh = on_hello cipher w peer h sh
  run_arm w peer (resync_offer o) sh = on_resync_offer cipher w peer o sh
  run_arm w peer (resync_pull p) sh = on_resync_pull cipher w peer p sh
  run_arm w peer (pair_confirm pc) sh = on_pair_confirm cipher w peer pc sh
  run_arm w peer pair_verify_started sh = on_pair_verify_started w peer sh

  unfoldable pub dispatch_inbound_frame : World → ℕ → Msg → Shared T → Shared T
  unfolding run_arm
  dispatch_inbound_frame w peer msg sh =
      if blocks_until_confirmed msg && not (is_confirmed sh peer) then sh else run_arm w peer msg sh
