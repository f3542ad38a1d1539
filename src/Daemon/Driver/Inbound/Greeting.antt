-- ===== src/Daemon/Driver/Inbound/Greeting.antt =====
-- crates/fluxsyncd/src/driver/inbound.rs: the arm for `Hello`.
use package.text.Mathlib.Text.{◌==◌ as str_eq}
use fluxsync.Base.{
  ℕ, Bool, true, false, not, ◌&&◌, ◌||◌, List, [], ◌∷◌, String, if◌then◌else◌, is_empty,
}
use fluxsync.Base.BTree
use fluxsync.Base.BTree.{nat_ord}
use fluxsync.Base.Text.{is_empty as is_empty_text}
use fluxsync.Core.Events.{
  mesh_peers_changed, peer_seen, peer_platform, peer_caps, sas_peer_confirmed,
}
use fluxsync.Crypto.Session.{Cipher}
use fluxsync.Daemon.Driver.Inbound.Links.{is_primary}
use fluxsync.Daemon.Driver.Pulls.{build_resync_offer}
use fluxsync.Daemon.Driver.Shared.{
  World, Shared, PeerMeta, has_cap, in_set, drop_from_set, meta_or_new, emit, emit_if, send_msg,
}
use fluxsync.Daemon.Outbox
use fluxsync.Proto.Caps.{negotiate_caps}
use fluxsync.Proto.Msg.{Hello, pair_confirm, pair_verify_started, resync_offer}

abbrev pub same_caps : List String → List String → Bool
same_caps [] [] = true
same_caps [] (d ∷ ds) = false
same_caps (c ∷ cs) [] = false
same_caps (c ∷ cs) (d ∷ ds) = str_eq c d && same_caps cs ds

-- What the peer says of itself; an empty platform says nothing.
abbrev pub introduced : PeerMeta → Hello → List String → PeerMeta
introduced e h caps = record e {
  name = h.name;
  platform = if is_empty_text h.platform then e.platform else h.platform;
  caps = caps;
  hello_seen = true;
}

abbrev pub is_news : PeerMeta → Hello → List String → Bool
is_news e h caps =
    not (str_eq e.name h.name)
    || (not (is_empty_text h.platform) && not (str_eq e.platform h.platform))
    || not (same_caps e.caps caps)

module _ {T : Type 0} where
  unfoldable pub note_hello : ℕ → Hello → List String → Shared T → Shared T
  note_hello peer h caps sh =
      let e = meta_or_new (BTree.get peer sh.peer_meta) in
      emit_if (is_news e h caps) mesh_peers_changed
        (record sh { peer_meta = BTree.insert peer (introduced e h caps) sh.peer_meta })

  -- The primary peer is shown to the core.
  unfoldable pub introduce : ℕ → Hello → List String → Shared T → Shared T
  introduce peer h caps sh =
      if is_primary sh peer
      then emit (peer_caps caps) (
          emit_if (not (is_empty_text h.platform)) (peer_platform h.platform)
            (emit (peer_seen peer h.name) sh))
      else sh

module _ {T : Type 0} (cipher : Cipher T) where
  -- A peer that cannot confirm counts as confirmed; an accept that waited for the peer's greeting goes
  -- out now, unless a newer pairing waits.
  unfoldable pub settle_sas : World → ℕ → List String → Shared T → Shared T
  settle_sas w peer caps sh =
      let has_pending = BTree.contains_key peer sh.pending_pairs in
      let had_deferred = in_set peer sh.deferred_sas_confirm in
      let left = record sh { deferred_sas_confirm = drop_from_set peer sh.deferred_sas_confirm } in
      if not (had_deferred || has_pending)
      then left
      else if not (has_cap "sas-confirm" caps)
      then emit (sas_peer_confirmed peer) left
      else if had_deferred && not has_pending
      then send_msg cipher w peer (pair_confirm (record { accept = true })) left
      else left

  abbrev pub announced : World → ℕ → PeerMeta → Shared T → Shared T
  announced w peer e sh =
      let e' : PeerMeta = record e { verify_restart_sent = true } in
      let noted = record sh { peer_meta = BTree.insert peer e' sh.peer_meta } in
      if e.verify_restart_sent
      then record sh { peer_meta = BTree.insert peer e sh.peer_meta }
      else send_msg cipher w peer pair_verify_started noted

  unfoldable pub announce_pairing : World → ℕ → List String → Shared T → Shared T
  announce_pairing w peer caps sh =
      if BTree.contains_key peer sh.pending_pairs && has_cap "verify-restart" caps
      then announced w peer (meta_or_new (BTree.get peer sh.peer_meta)) sh
      else sh

  unfoldable pub offer_outbox : World → ℕ → List String → Shared T → Shared T
  unfolding build_resync_offer
  offer_outbox w peer caps sh =
      let hashes = Outbox.hashes sh.outbox w.now in
      if not (BTree.contains_key peer sh.pending_pairs)
        && has_cap "resync-1" caps
        && not (is_empty hashes)
      then send_msg cipher w peer (resync_offer (build_resync_offer hashes)) sh
      else sh

  unfoldable pub on_hello : World → ℕ → Hello → Shared T → Shared T
  unfolding note_hello settle_sas announce_pairing offer_outbox introduce negotiate_caps
  on_hello w peer h sh =
      let caps = negotiate_caps h.caps in
      introduce peer h caps (
        offer_outbox w peer caps
          (announce_pairing w peer caps (settle_sas w peer caps (note_hello peer h caps sh))))
