-- ===== src/Daemon/Driver/Inbound/Sends.antt =====
-- The same of the steps that send.
use fluxsync.Base.{
  ℕ, ◌≡◌, refl, true, false, not, ◌&&◌, ◌||◌, List, [], ◌∷◌, String, Option, none, some,
  if◌then◌else◌, is_empty, take, if_holds,
}
use fluxsync.Base.BTree
use fluxsync.Base.BTree.{nat_ord}
use fluxsync.Core.Events.{
  Bytes, mesh_peers_changed, peer_caps, peer_platform, peer_seen, sas_peer_confirmed,
}
use fluxsync.Core.Policy.{outbound, decide}
use fluxsync.Crypto.Session.{Cipher}
use fluxsync.Daemon.Driver.Frames.{build_item_frames, frame_of}
use fluxsync.Daemon.Driver.Inbound.Greeting.{
  note_hello, introduce, settle_sas, announced, announce_pairing, offer_outbox, on_hello,
}
use fluxsync.Daemon.Driver.Inbound.Links.{is_primary, on_heartbeat, on_nak_frame}
use fluxsync.Daemon.Driver.Inbound.Pairing.{
  in_sas_flow, refreshed, echo_ack, on_accept, on_reject, on_pair_confirm,
}
use fluxsync.Daemon.Driver.Inbound.Resync.{
  is_pass, served_label, ask, on_resync_offer, send_tracked, serve_entry, serve_hash, serve_all,
  on_resync_pull,
}
use fluxsync.Daemon.Driver.Shared.{
  World, Shared, Effect, sent, event, PeerMeta, emit, resync_authorized, send, send_encoded,
  send_msg, ack_source, send_frames, send_to_all, forward_targets, forward_frames, meta_or_new,
  has_cap, in_set, drop_from_set, accepts_kind,
}
use fluxsync.Daemon.Outbox.{Entry}
use fluxsync.Proto.Caps.{negotiate_caps}
use fluxsync.Proto.Codec.{Result, ok, err, ProtoError, encode, max_resync_hashes}
use fluxsync.Proto.Msg.{Msg, Nak, Hello, ResyncOffer, ResyncPull, PairConfirm, pair_confirm}
use fluxsync.Proto.Types.{Kind}
use fluxsync.Daemon.Driver.Inbound.Effects.{
  is_item, Holds, say-Holds, emit-Holds, emit_if-Holds, on_reject-Holds,
}

module _ {T : Type 0} (cipher : Cipher T) (P : Effect → Type 0)
    (q : (e : Effect) → is_item e ≡ false → P e) where
  send-Holds :
      (peer : ℕ) (bytes : Bytes) (sh : Shared T)
      → Holds P q sh
      → Holds P q (send cipher peer bytes sh)
  unfolding send
  send-Holds peer bytes sh h = say-Holds P q (sent peer bytes) _ (q (sent peer bytes) refl) h

  send_encoded-Holds :
      (peer : ℕ) (r : Result Bytes ProtoError) (sh : Shared T)
      → Holds P q sh
      → Holds P q (send_encoded cipher peer r sh)
  send_encoded-Holds peer (err e) sh h = h
  send_encoded-Holds peer (ok bytes) sh h = send-Holds peer bytes sh h

  send_msg-Holds :
      (w : World) (peer : ℕ) (m : Msg) (sh : Shared T)
      → Holds P q sh
      → Holds P q (send_msg cipher w peer m sh)
  unfolding send_msg
  send_msg-Holds w peer m sh h = send_encoded-Holds peer (encode w.cbor (frame_of m)) sh h

  pub ack_source-Holds :
      (w : World) (peer hash : ℕ) (sh : Shared T)
      → Holds P q sh
      → Holds P q (ack_source cipher w peer hash sh)
  unfolding ack_source
  ack_source-Holds w peer hash sh h = send_msg-Holds w peer _ sh h

  send_frames-Holds :
      (peer : ℕ) (fs : List Bytes) (sh : Shared T)
      → Holds P q sh
      → Holds P q (send_frames cipher peer fs sh)
  unfolding send_frames
  send_frames-Holds peer [] sh h = h
  send_frames-Holds peer (f ∷ fs) sh h =
      send_frames-Holds peer fs (send cipher peer f sh) (send-Holds peer f sh h)

  send_to_all-Holds :
      (ps : List ℕ) (fs : List Bytes) (sh : Shared T)
      → Holds P q sh
      → Holds P q (send_to_all cipher ps fs sh)
  unfolding send_to_all
  send_to_all-Holds [] fs sh h = h
  send_to_all-Holds (p ∷ ps) fs sh h =
      send_to_all-Holds ps fs (send_frames cipher p fs sh) (send_frames-Holds p fs sh h)

  pub forward_frames-Holds :
      (w : World) (kind : Kind) (source origin hash : ℕ) (fs : List Bytes) (sh : Shared T)
      → Holds P q sh
      → Holds P q (forward_frames cipher w kind source origin hash fs sh)
  unfolding forward_frames
  forward_frames-Holds w kind source origin hash fs sh h =
      let targets = forward_targets sh kind source origin in
      if_holds (Holds P q) (is_empty targets || is_empty fs) sh _ h
        (send_to_all-Holds targets fs sh h)

  pub on_heartbeat-Holds :
      (w : World) (peer : ℕ) (sh : Shared T)
      → Holds P q sh
      → Holds P q (on_heartbeat cipher w peer sh)
  unfolding on_heartbeat
  on_heartbeat-Holds w peer sh h = send_msg-Holds w peer _ sh h

  pub on_nak_frame-Holds :
      (w : World) (peer : ℕ) (n : Nak) (sh : Shared T)
      → Holds P q sh
      → Holds P q (on_nak_frame cipher w peer n sh)
  unfolding on_nak_frame
  on_nak_frame-Holds w peer n sh h = send_frames-Holds peer _ _ h

  echo_ack-Holds :
      (w : World) (peer : ℕ) (sh : Shared T) → Holds P q sh → Holds P q (echo_ack cipher w peer sh)
  unfolding echo_ack
  echo_ack-Holds w peer sh h = if_holds (Holds P q) _ _ sh (send_msg-Holds w peer _ _ h) h

  on_accept-Holds :
      (w : World) (peer : ℕ) (sh : Shared T) → Holds P q sh → Holds P q (on_accept cipher w peer sh)
  unfolding on_accept
  on_accept-Holds w peer sh h =
      let longer : Shared T = record sh {
        pending_pairs = refreshed peer w.now (BTree.get peer sh.pending_pairs) sh.pending_pairs;
      } in
      if_holds (Holds P q) (BTree.contains_key peer sh.pending_pairs || in_sas_flow sh.state peer)
        (emit (sas_peer_confirmed peer) longer) (echo_ack cipher w peer longer)
        (emit-Holds P q (sas_peer_confirmed peer) longer (q (event (sas_peer_confirmed peer)) refl)
          h)
        (echo_ack-Holds w peer longer h)

  pub on_pair_confirm-Holds :
      (w : World) (peer : ℕ) (pc : PairConfirm) (sh : Shared T)
      → Holds P q sh
      → Holds P q (on_pair_confirm cipher w peer pc sh)
  unfolding on_pair_confirm
  on_pair_confirm-Holds w peer pc sh h =
      if_holds (Holds P q) pc.accept (on_accept cipher w peer sh) (on_reject w peer sh)
        (on_accept-Holds w peer sh h) (on_reject-Holds P q w peer sh h)

  ask-Holds :
      (w : World) (peer : ℕ) (missing : List String) (sh : Shared T)
      → Holds P q sh
      → Holds P q (ask cipher w peer missing sh)
  unfolding ask
  ask-Holds w peer missing sh h =
      if_holds (Holds P q) (is_empty missing) sh _ h (send_msg-Holds w peer _ sh h)

  pub on_resync_offer-Holds :
      (w : World) (peer : ℕ) (o : ResyncOffer) (sh : Shared T)
      → Holds P q sh
      → Holds P q (on_resync_offer cipher w peer o sh)
  unfolding on_resync_offer
  on_resync_offer-Holds w peer o sh h =
      if_holds (Holds P q) (not (resync_authorized sh peer)) sh _ h (ask-Holds w peer _ _ h)

  send_tracked-Holds :
      (w : World) (peer hash : ℕ) (fs : List Bytes) (sh : Shared T)
      → Holds P q sh
      → Holds P q (send_tracked cipher w peer hash fs sh)
  unfolding send_tracked
  send_tracked-Holds w peer hash fs sh h =
      if_holds (Holds P q) (is_empty fs) sh _ h (send_frames-Holds peer fs sh h)

  serve_entry-Holds :
      (w : World) (peer hash : ℕ) (o : Option Entry) (sh : Shared T)
      → Holds P q sh
      → Holds P q (serve_entry cipher w peer hash o sh)
  unfolding serve_entry
  serve_entry-Holds w peer hash none sh h = h
  serve_entry-Holds w peer hash (some e) sh h =
      let frames = build_item_frames w.cbor (served_label hash e) e.payload in
      if_holds (Holds P q)
        (is_pass (decide sh.state.firewall e.kind false outbound)
          && accepts_kind sh.peer_meta peer e.kind)
        (send_tracked cipher w peer hash frames sh) sh (send_tracked-Holds w peer hash frames sh h)
        h

  serve_hash-Holds :
      (w : World) (peer : ℕ) (o : Option ℕ) (sh : Shared T)
      → Holds P q sh
      → Holds P q (serve_hash cipher w peer o sh)
  unfolding serve_hash
  serve_hash-Holds w peer none sh h = h
  serve_hash-Holds w peer (some hash) sh h = serve_entry-Holds w peer hash _ sh h

  serve_all-Holds :
      (w : World) (peer : ℕ) (hs : List String) (sh : Shared T)
      → Holds P q sh
      → Holds P q (serve_all cipher w peer hs sh)
  unfolding serve_all
  serve_all-Holds w peer [] sh h = h
  serve_all-Holds w peer (x ∷ hs) sh h =
      serve_all-Holds w peer hs (serve_hash cipher w peer (w.unhex x) sh)
        (serve_hash-Holds w peer (w.unhex x) sh h)

  pub on_resync_pull-Holds :
      (w : World) (peer : ℕ) (p : ResyncPull) (sh : Shared T)
      → Holds P q sh
      → Holds P q (on_resync_pull cipher w peer p sh)
  unfolding on_resync_pull
  on_resync_pull-Holds w peer p sh h =
      let served = serve_all cipher w peer (take max_resync_hashes p.hashes) sh in
      if_holds (Holds P q) (not (resync_authorized sh peer)) sh served h
        (serve_all-Holds w peer (take max_resync_hashes p.hashes) sh h)

  note_hello-Holds :
      (peer : ℕ) (x : Hello) (caps : List String) (sh : Shared T)
      → Holds P q sh
      → Holds P q (note_hello peer x caps sh)
  unfolding note_hello
  note_hello-Holds peer x caps sh h = emit_if-Holds P q _ mesh_peers_changed _ refl h

  introduce-Holds :
      (peer : ℕ) (x : Hello) (caps : List String) (sh : Shared T)
      → Holds P q sh
      → Holds P q (introduce peer x caps sh)
  unfolding introduce
  introduce-Holds peer x caps sh h =
      if_holds (Holds P q) (is_primary sh peer) _ sh
        (emit-Holds P q (peer_caps caps) _ (q (event (peer_caps caps)) refl) (
          emit_if-Holds P q _ (peer_platform x.platform) _ refl
            (emit-Holds P q (peer_seen peer x.name) sh (q (event (peer_seen peer x.name)) refl) h)))
        h

  settle_sas-Holds :
      (w : World) (peer : ℕ) (caps : List String) (sh : Shared T)
      → Holds P q sh
      → Holds P q (settle_sas cipher w peer caps sh)
  unfolding settle_sas
  settle_sas-Holds w peer caps sh h =
      let had_deferred = in_set peer sh.deferred_sas_confirm in
      let has_pending = BTree.contains_key peer sh.pending_pairs in
      let left : Shared T = record sh {
        deferred_sas_confirm = drop_from_set peer sh.deferred_sas_confirm;
      } in
      let accept = pair_confirm (record { accept = true }) in
      let flushed =
        if had_deferred && not has_pending then send_msg cipher w peer accept left else left in
      let told = emit (sas_peer_confirmed peer) left in
      if_holds (Holds P q) (not (had_deferred || has_pending)) left
        (if not (has_cap "sas-confirm" caps) then told else flushed) h
        (if_holds (Holds P q) (not (has_cap "sas-confirm" caps)) told flushed
          (emit-Holds P q (sas_peer_confirmed peer) left (q (event (sas_peer_confirmed peer)) refl)
            h)
          (if_holds (Holds P q) (had_deferred && not has_pending)
            (send_msg cipher w peer accept left) left (send_msg-Holds w peer accept left h) h))

  announced-Holds :
      (w : World) (peer : ℕ) (e : PeerMeta) (sh : Shared T)
      → Holds P q sh
      → Holds P q (announced cipher w peer e sh)
  announced-Holds w peer e sh h =
      if_holds (Holds P q) e.verify_restart_sent _ _ h (send_msg-Holds w peer _ _ h)

  announce_pairing-Holds :
      (w : World) (peer : ℕ) (caps : List String) (sh : Shared T)
      → Holds P q sh
      → Holds P q (announce_pairing cipher w peer caps sh)
  unfolding announce_pairing
  announce_pairing-Holds w peer caps sh h =
      let e = meta_or_new (BTree.get peer sh.peer_meta) in
      if_holds (Holds P q)
        (BTree.contains_key peer sh.pending_pairs && has_cap "verify-restart" caps)
        (announced cipher w peer e sh) sh (announced-Holds w peer e sh h) h

  offer_outbox-Holds :
      (w : World) (peer : ℕ) (caps : List String) (sh : Shared T)
      → Holds P q sh
      → Holds P q (offer_outbox cipher w peer caps sh)
  unfolding offer_outbox
  offer_outbox-Holds w peer caps sh h = if_holds (Holds P q) _ _ sh (send_msg-Holds w peer _ sh h) h

  pub on_hello-Holds :
      (w : World) (peer : ℕ) (x : Hello) (sh : Shared T)
      → Holds P q sh
      → Holds P q (on_hello cipher w peer x sh)
  unfolding on_hello
  on_hello-Holds w peer x sh h =
      let caps = negotiate_caps x.caps in
      let noted = note_hello peer x caps sh in
      let settled = settle_sas cipher w peer caps noted in
      let told = announce_pairing cipher w peer caps settled in
      let offered = offer_outbox cipher w peer caps told in
      introduce-Holds peer x caps offered (
        offer_outbox-Holds w peer caps told (
          announce_pairing-Holds w peer caps settled
            (settle_sas-Holds w peer caps noted (note_hello-Holds peer x caps sh h))))
