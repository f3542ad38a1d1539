-- ===== src/Core/App/Handle/Keeps.antt =====
-- How a property of the app is shown to survive every event: it is enough that it reads the
-- history, the two halves of the parking lot and the dedup ring alone, and survives the few edits
-- that the arms make to these.
use fluxsync.Base.{
  ℕ, refl, Bool, false, not, ◌&&◌, List, String, Option, none, some, ◌==◌, if◌then◌else◌,
  Bool-cases, inl, inr, if_holds, OnSome,
}
use fluxsync.Core.App.{App, other_peers_linked}
use fluxsync.Core.App.Arms.{prepare}
use fluxsync.Core.App.Arms.Clips.{on_local_change, on_frame}
use fluxsync.Core.App.Arms.Outcome.{Prepared, changed}
use fluxsync.Core.App.Arms.Peers.{
  is_peer_mismatch, wipe_history, peer_swap, set_peer_id, set_peer_name, on_peer_seen, on_failover,
  forget_peer, on_untrusted_peer, on_ghost_timeout, on_manual_unpair, revoke_shown, on_peer_revoked,
}
use fluxsync.Core.App.Arms.Sas.{reset_sas, after_local_confirm, after_peer_confirm}
use fluxsync.Core.App.Handle.{
  handle, drive, finish, finish_if, finish_actions, suppressed_actions, publish,
}
use fluxsync.Core.App.Pending.{resolve_pending, drop_pending_all, drop_pending_for, apply_firewall}
use fluxsync.Core.Clock.{WallClock}
use fluxsync.Core.Events.{
  Bytes, LocalCopy, ReceivedFrame, Event, peer_seen, peer_lost, untrusted_peer_seen, ghost_timeout,
  manual_unpair, local_clipboard_change, frame_received_clipboard, primary_failover, set_favorite,
  clear_history, resolve_pending as resolves, sas_local_confirmed, sas_peer_confirmed,
  sas_peer_rejected, sas_reset, peer_revoked, Action,
}
use fluxsync.Core.Fsm.{Phase, linked, transition}
use fluxsync.Core.State.{peer_rejected}
use fluxsync.Core.App.Handle.Agree.{
  Agree, favorite_set, history_cleared, named_agrees, moved_agrees, gone_agrees, unpaired_agrees,
  revoked_agrees, sas_agrees, lost_agrees, failover_agrees, reset_agrees, published_agrees,
}

pub record Survives (blake3 : Bytes → ℕ) (Q : App → Type 0) : Type 0 where
  pub agree : (a b : App) → Agree a b → Q a → Q b
  pub drop_for : (a : App) (peer_id : ℕ) → Q a → Q (drop_pending_for a peer_id).0
  pub drop_all : (a : App) → Q a → Q (drop_pending_all a)
  pub wipe : (a : App) → Q a → Q (wipe_history a)
  pub copy : (a : App) (c : LocalCopy) (wall : WallClock) → Q a → Q (on_local_change a c wall).app
  pub frame :
      (a : App) (f : ReceivedFrame) (wall : WallClock) → Q a → Q (on_frame blake3 a f wall).app
  pub favorite : (a : App) (hash : String) (b : Bool) → Q a → Q (favorite_set a hash b)
  pub clear : (a : App) (b : Bool) → Q a → Q (history_cleared a b)
  pub gate : (a : App) (e : Event) (xs : List Action) → Q a → Q (apply_firewall a e xs).0
  pub resolve : (a : App) (hash : String) (allow : Bool) → Q a → Q (resolve_pending a hash allow).0

module _ {blake3 : Bytes → ℕ} {Q : App → Type 0} (k : Survives blake3 Q) where
  peer_swap_keeps : (a : App) (peer_id : ℕ) → Q a → Q (peer_swap a peer_id).app
  unfolding peer_swap
  peer_swap_keeps a peer_id q =
      elim (Bool-cases
        (not (a.last_paired_peer_id == 0) && not (peer_id == a.last_paired_peer_id))) [
          | inl swap ↦ rw swap (elim (Bool-cases (other_peers_linked a)) [
            | inl others ↦ rw others (k.drop_for a a.last_paired_peer_id q)
            | inr alone ↦ rw alone (k.drop_all (wipe_history a) (k.wipe a q))
          ])
          | inr same ↦ rw same q
        ]

  on_peer_seen_keeps :
      (a : App) (peer_id : ℕ) (name : String)
      → Q a
      → OnSome (λ p. Q p.app) (on_peer_seen a peer_id name)
  unfolding on_peer_seen
  on_peer_seen_keeps a peer_id name q =
      if_holds (OnSome (λ (p : Prepared). Q p.app)) (is_peer_mismatch a peer_id) none
        (some (seen peer_id)) tt kept
    where
      named : App
      named = set_peer_name a name

      named_keeps : Q named
      named_keeps = k.agree a named (named_agrees a name) q

      swapped : Prepared
      swapped = peer_swap named peer_id

      moved : Prepared
      moved = record swapped { app = set_peer_id swapped.app peer_id }

      seen : ℕ → Prepared
      seen i = if i == 0 then changed named else moved

      kept : Q (seen peer_id).app
      kept =
          if_holds (λ (p : Prepared). Q p.app) (peer_id == 0) (changed named) moved named_keeps
            (k.agree swapped.app moved.app (moved_agrees swapped.app peer_id)
              (peer_swap_keeps named peer_id named_keeps))

  on_untrusted_peer_keeps : (a : App) → Q a → Q (on_untrusted_peer a)
  unfolding on_untrusted_peer
  on_untrusted_peer_keeps a q =
      let gone = record a { state = reset_sas (forget_peer a.state) } in
      k.drop_all (wipe_history gone) (k.wipe gone (k.agree a gone (gone_agrees a) q))

  on_ghost_timeout_keeps : (a : App) (p : Phase) → Q a → Q (on_ghost_timeout a p).app
  unfolding on_ghost_timeout
  on_ghost_timeout_keeps a linked q = q
  on_ghost_timeout_keeps a p q =
      let gone = record a { state = reset_sas (forget_peer a.state) } in
      k.drop_for gone a.state.peer_id (k.agree a gone (gone_agrees a) q)

  on_manual_unpair_keeps : (a : App) → Q a → Q (on_manual_unpair a)
  unfolding on_manual_unpair
  on_manual_unpair_keeps a q =
      let s = reset_sas (forget_peer a.state) in
      let gone = record a { state = record s { on = false; trusted_peer_name = none } } in
      k.drop_all gone (k.agree a gone (unpaired_agrees a) q)

  on_peer_revoked_keeps : (a : App) (peer_id : ℕ) → Q a → Q (on_peer_revoked a peer_id).app
  unfolding on_peer_revoked
  on_peer_revoked_keeps a peer_id q =
      let scoped = (drop_pending_for a peer_id).0 in
      k.agree scoped (record scoped { state = revoke_shown scoped.state peer_id })
        (revoked_agrees scoped peer_id) (k.drop_for a peer_id q)

  on_failover_keeps :
      (a : App) (peer_id : ℕ) (name platform : String) (caps : List String)
      → Q a
      → Q (on_failover a peer_id name platform caps)
  on_failover_keeps a peer_id name platform caps q =
      k.agree a _ (failover_agrees a peer_id name platform caps) q

  prepare_keeps :
      (a : App) (e : Event) (wall : WallClock)
      → Q a
      → OnSome (λ p. Q p.app) (prepare blake3 a e wall)
  unfolding prepare
  prepare_keeps a (peer_seen peer_id name) wall q = on_peer_seen_keeps a peer_id name q
  prepare_keeps a (local_clipboard_change c) wall q = k.copy a c wall q
  prepare_keeps a (frame_received_clipboard f) wall q = k.frame a f wall q
  prepare_keeps a (peer_lost peer_id) wall q = k.agree a _ (lost_agrees a peer_id) q
  prepare_keeps a (primary_failover peer_id name platform caps) wall q =
      on_failover_keeps a peer_id name platform caps q
  prepare_keeps a (untrusted_peer_seen name) wall q = on_untrusted_peer_keeps a q
  prepare_keeps a ghost_timeout wall q = on_ghost_timeout_keeps a a.phase q
  prepare_keeps a manual_unpair wall q = on_manual_unpair_keeps a q
  prepare_keeps a (sas_local_confirmed peer_id) wall q =
      k.agree a _ (sas_agrees a peer_id (after_local_confirm a.state.sas_phase)) q
  prepare_keeps a (sas_peer_confirmed peer_id) wall q =
      k.agree a _ (sas_agrees a peer_id (after_peer_confirm a.state.sas_phase)) q
  prepare_keeps a (sas_peer_rejected peer_id) wall q =
      k.agree a _ (sas_agrees a peer_id peer_rejected) q
  prepare_keeps a sas_reset wall q = k.agree a _ (reset_agrees a) q
  prepare_keeps a (set_favorite hash b) wall q = k.favorite a hash b q
  prepare_keeps a (clear_history b) wall q = k.clear a b q
  prepare_keeps a (peer_revoked peer_id) wall q = on_peer_revoked_keeps a peer_id q
  prepare_keeps a e wall q = k.agree a _ (refl, refl, refl, refl) q

  finish_keeps : (e : Event) (p : Prepared) → Q p.app → Q (finish e p).0
  unfolding finish publish
  finish_keeps e p q =
      let (next, actions) = transition p.app.phase e in
      let (app, gated) = apply_firewall p.app e actions in
      let done = publish app next in
      let sent = finish_actions app e p.suppress_resync_apply p.pending_dropped gated in
      if_holds (λ (r : App × List Action). Q r.0) p.suppress_action (p.app, suppressed_actions e)
        (done, sent) q (k.agree app done (published_agrees app next) (k.gate p.app e actions q))

  finish_if_keeps :
      (a : App) (e : Event) (o : Option Prepared)
      → Q a
      → OnSome (λ p. Q p.app) o
      → Q (finish_if a e o).0
  unfolding finish_if
  finish_if_keeps a e none q h = q
  finish_if_keeps a e (some p) q h = finish_keeps e p h

  pub handle_keeps : (a : App) (e : Event) (wall : WallClock) → Q a → Q (handle blake3 a e wall).0
  unfolding handle drive
  handle_keeps a (resolves hash allow) wall q = k.resolve a hash allow q
  handle_keeps a e wall q =
      finish_if_keeps a e (prepare blake3 a e wall) q (prepare_keeps a e wall q)
