-- ===== src/Daemon/Driver/Inbound/Resync.antt =====
-- crates/fluxsyncd/src/driver/inbound.rs: the arms for `ResyncOffer` and `ResyncPull`.
use fluxsync.Base.{
  Bool, true, false, not, ◌&&◌, ℕ, List, [], ◌∷◌, map, String, Option, none, some, if◌then◌else◌,
  is_empty, take,
}
use fluxsync.Core.App.{hex32}
use fluxsync.Core.Events.{Bytes}
use fluxsync.Core.Policy.{Decision, pass, defer, block, outbound, decide}
use fluxsync.Crypto.Session.{Cipher}
use fluxsync.Daemon.Driver.Frames.{Label, build_item_frames}
use fluxsync.Daemon.Driver.Inflight.{track_inflight}
use fluxsync.Daemon.Driver.Pulls.{
  cleared_hex_snapshot, in_flight_pull_hashes, missing_resync_hashes, track_pending_pulls,
}
use fluxsync.Daemon.Driver.Shared.{
  World, Shared, accepts_kind, resync_authorized, send_msg, send_frames,
}
use fluxsync.Daemon.Outbox
use fluxsync.Daemon.Outbox.{Entry}
use fluxsync.Proto.Codec.{max_resync_hashes}
use fluxsync.Proto.Msg.{ResyncOffer, ResyncPull, resync_pull}

abbrev pub is_pass : Decision → Bool
is_pass pass = true
is_pass defer = false
is_pass block = false

-- An entry of the resend buffer keeps no clock value, so it goes out with 0.
abbrev pub served_label : ℕ → Entry → Label
served_label hash e = record {
  lamport = 0;
  hash = hash;
  kind = e.kind;
  sensitive = false;
  origin = e.origin;
  event_seq = e.seq;
}

module _ {T : Type 0} (cipher : Cipher T) where
  unfoldable pub ask : World → ℕ → List String → Shared T → Shared T
  ask w peer missing sh =
      if is_empty missing
      then sh
      else send_msg cipher w peer (resync_pull (record { hashes = missing })) sh

  unfoldable pub on_resync_offer : World → ℕ → ResyncOffer → Shared T → Shared T
  unfolding resync_authorized missing_resync_hashes track_pending_pulls ask
  on_resync_offer w peer offer sh =
      let missing =
        missing_resync_hashes offer.hashes (map (λ h. h.hash) sh.state.history)
          (map hex32 (Outbox.hashes sh.outbox w.now))
          (cleared_hex_snapshot sh.cleared_tombstone w.now)
          (in_flight_pull_hashes sh.pending_pulls w.now) in
      let (pulls, tracked) = track_pending_pulls w.unhex sh.pending_pulls peer missing w.now in
      if not (resync_authorized sh peer)
      then sh
      else ask w peer tracked (record sh { pending_pulls = pulls })

  unfoldable pub send_tracked : World → ℕ → ℕ → List Bytes → Shared T → Shared T
  send_tracked w peer hash frames sh =
      let out = send_frames cipher peer frames sh in
      if is_empty frames
      then sh
      else record out { inflight = track_inflight out.inflight hash frames (peer ∷ []) w.now }

  -- What the firewall passes now, and the peer can take.
  unfoldable pub serve_entry : World → ℕ → ℕ → Option Entry → Shared T → Shared T
  unfolding send_tracked
  serve_entry w peer hash none sh = sh
  serve_entry w peer hash (some e) sh =
      if is_pass (decide sh.state.firewall e.kind false outbound)
        && accepts_kind sh.peer_meta peer e.kind
      then send_tracked w peer hash (build_item_frames w.cbor (served_label hash e) e.payload) sh
      else sh

  unfoldable pub serve_hash : World → ℕ → Option ℕ → Shared T → Shared T
  unfolding serve_entry
  serve_hash w peer none sh = sh
  serve_hash w peer (some hash) sh = serve_entry w peer hash (Outbox.get sh.outbox hash w.now) sh

  unfoldable pub serve_all : World → ℕ → List String → Shared T → Shared T
  unfolding serve_hash
  serve_all w peer [] sh = sh
  serve_all w peer (h ∷ hs) sh = serve_all w peer hs (serve_hash w peer (w.unhex h) sh)

  unfoldable pub on_resync_pull : World → ℕ → ResyncPull → Shared T → Shared T
  unfolding resync_authorized serve_all
  on_resync_pull w peer pull sh =
      if not (resync_authorized sh peer)
      then sh
      else serve_all w peer (take max_resync_hashes pull.hashes) sh
