-- ===== src/Daemon/Driver/Inbound/Effects.antt =====
-- What the steps of the dispatch add to the effects, for any property that all effects have but those
-- that hand an item to the core.
use fluxsync.Base.{
  ℕ, ◌≡◌, refl, Bool, true, false, ◌&&◌, [], ◌∷◌, Option, none, some, is_some, All, All-append,
  if_holds,
}
use fluxsync.Base.BTree
use fluxsync.Base.BTree.{nat_ord}
use fluxsync.Core.Events.{
  Bytes, Event, ReceivedFrame, frame_received_clipboard, mesh_peers_changed, peer_lost,
  battery_changed_peer, sas_peer_rejected, sas_reset, sas_pairing_started,
}
use fluxsync.Daemon.Driver.Inbound.Links.{
  is_primary, on_battery, reported, on_ack_frame, rested, lost_unless, fail_over_if, on_bye,
  distrust, on_revoke,
}
use fluxsync.Daemon.Driver.Inbound.Pairing.{
  on_reject, reopen, verify_started, on_pair_verify_started,
}
use fluxsync.Daemon.Driver.Inflight.{InflightMap}
use fluxsync.Daemon.Driver.Inflight
use fluxsync.Daemon.Driver.Shared.{
  World, Shared, Effect, event, delivered, saved_peers, TrustedPeer, PeerMeta, say, emit, emit_if,
  forget_meta, failover_event, failed_over, try_primary_failover,
}
use fluxsync.Daemon.Transport.{Transport, promote_secondary}
use fluxsync.Proto.Msg.{BatteryStatus, Ack}

-- The item that an effect hands to the core.
abbrev pub item_of : Effect → Option ReceivedFrame
item_of (event (frame_received_clipboard f)) = some f
item_of _ = none

abbrev pub is_item : Effect → Bool
is_item e = is_some (item_of e)

quiet_failover : (id : ℕ) (o : Option PeerMeta) → is_item (event (failover_event id o)) ≡ false
quiet_failover id none = refl
quiet_failover id (some m) = refl

module _ {T : Type 0} (P : Effect → Type 0) (q : (e : Effect) → is_item e ≡ false → P e) where
  abbrev pub Holds : Shared T → Type 0
  Holds sh = All P sh.effects

  pub say-Holds : (e : Effect) (sh : Shared T) → P e → Holds sh → Holds (say e sh)
  unfolding say
  say-Holds e sh p h = All-append P sh.effects (e ∷ []) h (p, tt)

  pub emit-Holds : (ev : Event) (sh : Shared T) → P (event ev) → Holds sh → Holds (emit ev sh)
  unfolding emit
  emit-Holds ev sh p h = say-Holds (event ev) sh p h

  pub emit_if-Holds :
      (b : Bool) (ev : Event) (sh : Shared T)
      → is_item (event ev) ≡ false
      → Holds sh
      → Holds (emit_if b ev sh)
  unfolding emit_if
  emit_if-Holds b ev sh quiet h =
      if_holds Holds b (emit ev sh) sh (emit-Holds ev sh (q (event ev) quiet) h) h

  forget_meta-Holds : (peer : ℕ) (sh : Shared T) → Holds sh → Holds (forget_meta peer sh)
  unfolding forget_meta
  forget_meta-Holds peer sh h =
      emit_if-Holds (BTree.contains_key peer sh.peer_meta) mesh_peers_changed _ refl h

  failed_over-Holds :
      (sh : Shared T) (r : Transport T × Option ℕ) → Holds sh → Holds (failed_over sh r).0
  failed_over-Holds sh (t, none) h = h
  failed_over-Holds sh (t, some id) h =
      let ev = failover_event id (BTree.get id sh.peer_meta) in
      emit-Holds mesh_peers_changed _ (q (event mesh_peers_changed) refl) (
        emit-Holds ev (record sh { transport = t })
          (q (event ev) (quiet_failover id (BTree.get id sh.peer_meta))) h)

  lost_unless-Holds : (peer : ℕ) (r : Shared T × Bool) → Holds r.0 → Holds (lost_unless peer r)
  lost_unless-Holds peer (sh, true) h = h
  lost_unless-Holds peer (sh, false) h =
      emit-Holds (peer_lost peer) sh (q (event (peer_lost peer)) refl) h

  fail_over_if-Holds :
      (b : Bool) (w : World) (peer : ℕ) (sh : Shared T)
      → Holds sh
      → Holds (fail_over_if b w peer sh)
  unfolding fail_over_if try_primary_failover
  fail_over_if-Holds true w peer sh h =
      lost_unless-Holds peer (try_primary_failover w sh)
        (failed_over-Holds sh (promote_secondary sh.transport w.now_ms) h)
  fail_over_if-Holds false w peer sh h = h

  pub on_battery-Holds :
      (peer : ℕ) (b : BatteryStatus) (sh : Shared T) → Holds sh → Holds (on_battery peer b sh)
  unfolding on_battery
  on_battery-Holds peer b sh h =
      emit_if-Holds _ (battery_changed_peer b.level b.charging) _ refl
        (emit_if-Holds _ mesh_peers_changed _ refl h)

  reported-Holds :
      (hash peer : ℕ) (r : InflightMap × Bool) (sh : Shared T)
      → Holds sh
      → Holds (reported hash peer r sh)
  reported-Holds hash peer (m, true) sh h =
      say-Holds (delivered hash peer) (record sh { inflight = m }) (q (delivered hash peer) refl) h
  reported-Holds hash peer (m, false) sh h = h

  pub on_ack_frame-Holds :
      (peer : ℕ) (a : Ack) (sh : Shared T) → Holds sh → Holds (on_ack_frame peer a sh)
  unfolding on_ack_frame
  on_ack_frame-Holds peer a sh h =
      reported-Holds a.hash peer (Inflight.on_ack sh.inflight peer a.hash) sh h

  rested-Holds :
      (w : World) (peer : ℕ) (o : Option ℕ) (sh : Shared T) → Holds sh → Holds (rested w peer o sh)
  rested-Holds w peer none sh h = h
  rested-Holds w peer (some t) sh h = h

  pub on_bye-Holds : (w : World) (peer : ℕ) (sh : Shared T) → Holds sh → Holds (on_bye w peer sh)
  unfolding on_bye
  on_bye-Holds w peer sh h =
      fail_over_if-Holds (is_primary sh peer) w peer _
        (forget_meta-Holds peer _ (rested-Holds w peer _ sh h))

  distrust-Holds : (peer : ℕ) (sh : Shared T) → Holds sh → Holds (distrust peer sh)
  unfolding distrust
  distrust-Holds peer sh h =
      if_holds Holds (BTree.contains_key peer sh.trusted && sh.has_keystore) _ _
        (say-Holds saved_peers _ (q saved_peers refl) h) h

  pub on_revoke-Holds :
      (w : World) (peer : ℕ) (sh : Shared T) → Holds sh → Holds (on_revoke w peer sh)
  unfolding on_revoke
  on_revoke-Holds w peer sh h =
      fail_over_if-Holds _ w peer _
        (forget_meta-Holds peer _ (emit_if-Holds _ sas_reset _ refl (distrust-Holds peer sh h)))

  pub on_reject-Holds :
      (w : World) (peer : ℕ) (sh : Shared T) → Holds sh → Holds (on_reject w peer sh)
  unfolding on_reject
  on_reject-Holds w peer sh h = fail_over_if-Holds _ w peer _ (
      emit_if-Holds _ (sas_peer_rejected peer) _ refl
        (forget_meta-Holds peer _ (distrust-Holds peer _ h)))

  reopen-Holds :
      (w : World) (peer : ℕ) (p : TrustedPeer) (o : Option Bytes) (sh : Shared T)
      → Holds sh
      → Holds (reopen w peer p o sh)
  unfolding reopen
  reopen-Holds w peer p none sh h = h
  reopen-Holds w peer p (some hash) sh h =
      emit-Holds (sas_pairing_started peer) _ (q (event (sas_pairing_started peer)) refl) h

  verify_started-Holds :
      (w : World) (peer : ℕ) (o : Option TrustedPeer) (sh : Shared T)
      → Holds sh
      → Holds (verify_started w peer o sh)
  verify_started-Holds w peer none sh h = h
  verify_started-Holds w peer (some p) sh h = if_holds Holds _ sh _ h (reopen-Holds w peer p _ sh h)

  pub on_pair_verify_started-Holds :
      (w : World) (peer : ℕ) (sh : Shared T) → Holds sh → Holds (on_pair_verify_started w peer sh)
  unfolding on_pair_verify_started
  on_pair_verify_started-Holds w peer sh h =
      verify_started-Holds w peer (BTree.get peer sh.trusted) sh h
