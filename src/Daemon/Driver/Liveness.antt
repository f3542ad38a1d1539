-- ===== src/Daemon/Driver/Liveness.antt =====
-- crates/fluxsyncd/src/driver/liveness.rs: the tick of `heartbeat_loop`, with the counters of the loop
-- as arguments. The probe of an address without a session does nothing but log.
pub mod Silence
use fluxsync.Base.{
  ℕ, ◌+◌, ◌-◌, ◌==◌, Bool, true, false, List, [], ◌∷◌, Option, none, some, if◌then◌else◌, any,
  is_some, leb, ltb, retain,
}
use fluxsync.Base.BTree
use fluxsync.Base.BTree.{nat_ord}
use fluxsync.Core.Events.{mesh_peers_changed, peer_lost, peer_revoked}
use fluxsync.Crypto.Session.{Cipher}
use fluxsync.Daemon.Driver.Actions.{send_primary, on_send_battery}
use fluxsync.Daemon.Driver.Frames.{frame_of}
use fluxsync.Daemon.Driver.Inbound.Links.{rested}
use fluxsync.Daemon.Driver.Shared.{World, Shared, emit, send_msg, try_primary_failover}
use fluxsync.Daemon.Transport.{
  PeerConn, Transport, cached_peer_id, drop_session_for, secondary_liveness,
  session_established_at_for,
}
use fluxsync.Proto.Codec.{encode}
use fluxsync.Proto.Msg.{Heartbeat, heartbeat}

abbrev pub ping : Heartbeat
ping = record { lamport = 0; rtt_hint = none }

abbrev pub Missed : Type 0
Missed = List (ℕ × ℕ)

abbrev pub count_or_zero : Option ℕ → ℕ
count_or_zero none = 0
count_or_zero (some n) = n

module _ {T : Type 0} where
  abbrev pub set_last_rx : ℕ → Shared T → Shared T
  set_last_rx now sh =
      let t = sh.transport in
      let c : PeerConn T = record t.conn { last_rx_ms = now } in
      record sh { transport = record t { conn = c } }

  -- The core is told that the primary peer is lost, unless another link took over.
  abbrev pub gone_unless : Option ℕ → Shared T × Bool → Shared T
  gone_unless peer (sh, true) = sh
  gone_unless none (sh, false) = sh
  gone_unless (some peer) (sh, false) = emit (peer_lost peer) sh

  abbrev pub rested_if : World → Option ℕ → Option ℕ → Shared T → Shared T
  rested_if w none established sh = sh
  rested_if w (some peer) established sh = rested w peer established sh

  -- The third ping in a row that went unanswered.
  unfoldable pub give_up_primary : World → Shared T → Shared T
  unfolding try_primary_failover
  give_up_primary w sh =
      let dead_peer = cached_peer_id sh.transport in
      let slow = rested_if w dead_peer (some sh.transport.conn.session_established_at_ms) sh in
      gone_unless dead_peer (try_primary_failover w (set_last_rx w.now_ms slow))

  -- A secondary peer that went silent loses its session, and its parked items.
  unfoldable pub give_up_secondary : World → ℕ → Shared T → Shared T
  give_up_secondary w peer sh =
      let slow = rested w peer (session_established_at_for sh.transport peer) sh in
      emit mesh_peers_changed (
        emit (peer_revoked peer) (record slow { transport = drop_session_for slow.transport peer }))

module _ {T : Type 0} (cipher : Cipher T) where
  -- The ping, and the battery of this device where it is known.
  unfoldable pub greet_primary : World → ℕ → Bool → Shared T → Shared T
  unfolding on_send_battery
  greet_primary w level charging sh =
      let pinged = send_primary cipher sh (encode w.cbor (frame_of (heartbeat ping))) in
      let told = on_send_battery cipher w level charging pinged in
      if level == 255 then pinged else told

  unfoldable pub beat_primary : World → ℕ → Bool → ℕ → Shared T → ℕ × Shared T
  unfolding greet_primary give_up_primary
  beat_primary w level charging missed sh =
      let pinged = greet_primary w level charging sh in
      let silent = ltb 3000 (w.now_ms - pinged.transport.conn.last_rx_ms) in
      if is_some sh.transport.conn.session
      then (if silent
          then (if leb 3 (missed + 1) then (0, give_up_primary w pinged) else (missed + 1, pinged))
          else (0, pinged))
      else (missed, sh)

  unfoldable pub beat_secondaries : World → List (ℕ × ℕ) → Missed → Shared T → Missed × Shared T
  unfolding give_up_secondary
  beat_secondaries w [] missed sh = (missed, sh)
  beat_secondaries w ((peer, last_rx) ∷ rest) missed sh =
      let pinged = send_msg cipher w peer (heartbeat ping) sh in
      let n = count_or_zero (BTree.get peer missed) + 1 in
      let heard = BTree.remove peer missed in
      let (counts, out) =
        if◌then◌else◌ {A = Missed × Shared T} (ltb 3000 (w.now_ms - last_rx))
          (if◌then◌else◌ {A = Missed × Shared T} (leb 3 n) (heard, give_up_secondary w peer pinged)
            (BTree.insert peer n missed, pinged))
          (heard, pinged) in
      beat_secondaries w rest counts out

  -- A tick of the loop, of its two counters and of all that is shared.
  unfoldable pub heartbeat_tick : World → ℕ → Bool → ℕ × Missed → Shared T → (ℕ × Missed) × Shared T
  unfolding beat_primary beat_secondaries
  heartbeat_tick w level charging (missed, secondary_missed) sh =
      let (n, out) = beat_primary w level charging missed sh in
      let live = secondary_liveness out.transport.extra in
      let kept = retain (λ e. any (λ l. l.0 == e.0) live) secondary_missed in
      let (m, done) = beat_secondaries w live kept out in ((n, m), done)
