-- ===== src/Daemon/Driver/Inbound/Links.antt =====
-- crates/fluxsyncd/src/driver/inbound.rs: the arms for battery, heartbeat, acknowledgements, requests
-- for chunks, and the ends of a link.
use fluxsync.Base.{
  ℕ, ◌-◌, ◌==◌, Bool, true, false, not, ◌&&◌, Option, none, some, if◌then◌else◌, is_some_eq,
}
use fluxsync.Base.BTree
use fluxsync.Base.BTree.{nat_ord}
use fluxsync.Core.Events.{mesh_peers_changed, battery_changed_peer, peer_lost, sas_reset}
use fluxsync.Crypto.Session.{Cipher}
use fluxsync.Daemon.Backoff
use fluxsync.Daemon.Backoff.{PeerBackoff}
use fluxsync.Daemon.Driver.Inflight.{InflightMap}
use fluxsync.Daemon.Driver.Inflight
use fluxsync.Daemon.Driver.Shared.{
  World, Shared, PeerMeta, delivered, saved_peers, drop_from_set, meta_or_new, say, emit, emit_if,
  forget_meta, try_primary_failover, send_msg, send_frames,
}
use fluxsync.Daemon.Transport.{
  cached_peer_id, session_established_at_for, drop_session_for, purge_peer,
}
use fluxsync.Proto.Msg.{BatteryStatus, Ack, Nak, ack}

abbrev pub bool_eq : Bool → Bool → Bool
bool_eq true b = b
bool_eq false b = not b

abbrev pub backoff_or_new : Option PeerBackoff → PeerBackoff
backoff_or_new none = Backoff.new
backoff_or_new (some b) = b

module _ {T : Type 0} where
  abbrev pub is_primary : Shared T → ℕ → Bool
  is_primary sh peer = is_some_eq (cached_peer_id sh.transport) peer

  unfoldable pub on_battery : ℕ → BatteryStatus → Shared T → Shared T
  on_battery peer b sh =
      let e = meta_or_new (BTree.get peer sh.peer_meta) in
      let same = e.battery == b.level && bool_eq e.charging b.charging in
      let e' : PeerMeta = record e { battery = b.level; charging = b.charging } in
      let known = record sh {
        peer_meta = BTree.insert peer (if same then e else e') sh.peer_meta;
      } in
      emit_if (is_primary sh peer) (battery_changed_peer b.level b.charging)
        (emit_if (not same) mesh_peers_changed known)

  abbrev pub reported : ℕ → ℕ → InflightMap × Bool → Shared T → Shared T
  reported hash peer (m, true) sh = say (delivered hash peer) (record sh { inflight = m })
  reported hash peer (m, false) sh = record sh { inflight = m }

  unfoldable pub on_ack_frame : ℕ → Ack → Shared T → Shared T
  on_ack_frame peer a sh = reported a.hash peer (Inflight.on_ack sh.inflight peer a.hash) sh

  -- The backoff of a peer whose session began at `established`; none where there was none.
  abbrev pub rested : World → ℕ → Option ℕ → Shared T → Shared T
  rested w peer none sh = sh
  rested w peer (some established) sh =
      let b = backoff_or_new (BTree.get peer sh.backoff) in
      record sh {
        backoff =
            BTree.insert peer (Backoff.on_session_ended b (w.now_ms - established)) sh.backoff;
      }

  -- Another link takes over, or the core is told that there is none.
  abbrev pub lost_unless : ℕ → Shared T × Bool → Shared T
  lost_unless peer (sh, true) = sh
  lost_unless peer (sh, false) = emit (peer_lost peer) sh

  unfoldable pub fail_over_if : Bool → World → ℕ → Shared T → Shared T
  fail_over_if true w peer sh = lost_unless peer (try_primary_failover w sh)
  fail_over_if false w peer sh = sh

  unfoldable pub on_bye : World → ℕ → Shared T → Shared T
  unfolding forget_meta fail_over_if
  on_bye w peer sh =
      let primary = is_primary sh peer in
      let established =
        if primary
        then some sh.transport.conn.session_established_at_ms
        else session_established_at_for sh.transport peer in
      let slow = rested w peer established sh in
      let down = record slow { transport = drop_session_for slow.transport peer } in
      let gone = forget_meta peer down in
      fail_over_if primary w peer
        (record gone { echo_ack_sent = drop_from_set peer gone.echo_ack_sent })

  -- A peer leaves the set of those that are trusted, which is saved where it was in it.
  unfoldable pub distrust : ℕ → Shared T → Shared T
  distrust peer sh =
      let out = record sh {
        trusted = BTree.remove peer sh.trusted;
        disc_cache = BTree.remove peer sh.disc_cache;
        backoff = BTree.remove peer sh.backoff;
      } in
      if BTree.contains_key peer sh.trusted && sh.has_keystore then say saved_peers out else out

  unfoldable pub on_revoke : World → ℕ → Shared T → Shared T
  unfolding forget_meta fail_over_if distrust
  on_revoke w peer sh =
      let out = distrust peer sh in
      let unpaired =
        emit_if (BTree.contains_key peer out.pending_pairs) sas_reset
          (record out { pending_pairs = BTree.remove peer out.pending_pairs }) in
      let purged = record unpaired {
        deferred_sas_confirm = drop_from_set peer unpaired.deferred_sas_confirm;
        echo_ack_sent = drop_from_set peer unpaired.echo_ack_sent;
        transport = purge_peer unpaired.transport peer;
      } in
      let gone = forget_meta peer purged in fail_over_if (is_primary gone peer) w peer gone

module _ {T : Type 0} (cipher : Cipher T) where
  unfoldable pub on_heartbeat : World → ℕ → Shared T → Shared T
  on_heartbeat w peer sh = send_msg cipher w peer (ack (record { lamport = 0; hash = 0 })) sh

  unfoldable pub on_nak_frame : World → ℕ → Nak → Shared T → Shared T
  on_nak_frame w peer n sh =
      let (m, frames) = Inflight.on_nak sh.inflight peer n w.now in
      send_frames cipher peer frames (record sh { inflight = m })
