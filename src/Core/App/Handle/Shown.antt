-- ===== src/Core/App/Handle/Shown.antt =====
-- The published state tells the truth on the machine below it: the name of the phase and the status.
use fluxsync.Base.{
  Bool-cases, inl, inr, ℕ, ◌≡◌, refl, true, false, not, ◌&&◌, List, String, Option, none, some,
  arith, ◌==◌, if◌then◌else◌, if_holds, if_same, if_split, OnSome, sym, ◌∙◌,
}
use fluxsync.Core.App.{App, other_peers_linked}
use fluxsync.Core.App.Arms.{prepare}
use fluxsync.Core.App.Arms.Clips.{
  on_local_change, local_row, on_frame, record_frame, remote_row, dedup_frame,
}
use fluxsync.Core.App.Arms.Outcome.{Prepared, changed}
use fluxsync.Core.App.Arms.Peers.{
  is_peer_mismatch, wipe_history, peer_swap, set_peer_id, set_peer_name, on_peer_seen,
  on_ghost_timeout, on_peer_revoked,
}
use fluxsync.Core.App.Canon.{content_digest}
use fluxsync.Core.App.Handle.{
  handle, drive, finish, finish_if, finish_actions, suppressed_actions, publish, phase_name,
}
use fluxsync.Core.App.History.{push_history}
use fluxsync.Core.App.Pending.{resolve_pending, drop_pending_all, drop_pending_for, apply_firewall}
use fluxsync.Core.Clock.{WallClock}
use fluxsync.Core.Clock
use fluxsync.Core.Dedup.{observe_clipboard}
use fluxsync.Core.Events.{
  Bytes, LocalCopy, ReceivedFrame, Event, peer_seen, local_clipboard_change,
  frame_received_clipboard, ghost_timeout, peer_revoked, resolve_pending as resolves, Action,
}
use fluxsync.Core.Fsm.{Phase, idle, discovering, handshaking, linked, transition}
use fluxsync.Core.State.{status_for}

-- The state shows the phase of the machine, and the status that follows from the switch.
abbrev pub IsShown : App → Type 0
IsShown app = (app.state.phase ≡ phase_name app.phase) × (app.state.status ≡ status_for app.state)

-- An arm whose actions are suppressed leaves the app shown: nothing is published after it.
abbrev ShownIfSuppressed : Prepared → Type 0
ShownIfSuppressed p = p.suppress_action ≡ true → IsShown p.app

no_true {ℓ} : {A : Type ℓ} → false ≡ true → A
no_true h = ground arith

publish-IsShown : (a : App) (next : Phase) → IsShown (publish a next)
unfolding publish status_for
publish-IsShown a next = (refl, refl)

finish-IsShown : (e : Event) (p : Prepared) → ShownIfSuppressed p → IsShown (finish e p).0
unfolding finish
finish-IsShown e p h =
    let (next, actions) = transition p.app.phase e in
    let (app, gated) = apply_firewall p.app e actions in
    let done = publish app next in
    let sent = finish_actions app e p.suppress_resync_apply p.pending_dropped gated in
    if_split (λ (r : App × List Action). IsShown r.0) p.suppress_action
      (p.app, suppressed_actions e) (done, sent) h (λ _. publish-IsShown app next)

copy-IsShown :
    (a : App) (c : LocalCopy) (wall : WallClock)
    → IsShown a
    → ShownIfSuppressed (on_local_change a c wall)
unfolding on_local_change push_history status_for
copy-IsShown a c wall q _ =
    let (ring, fresh) = observe_clipboard a.dedup c.hash wall.unix_millis in
    let seen = record a { clock = Clock.observe a.clock c.lamport; dedup = ring } in
    let pushed = push_history seen (local_row c wall) in
    if_holds (λ (p : Prepared). IsShown p.app) (not fresh) _
      (changed (if not c.sensitive then pushed else seen)) q
      (if_holds IsShown (not c.sensitive) pushed seen q q)

record_frame-IsShown :
    (a : App) (f : ReceivedFrame) (wall : WallClock) → IsShown a → IsShown (record_frame a f wall)
unfolding record_frame push_history status_for
record_frame-IsShown a f wall q = if_holds IsShown _ (push_history a (remote_row f wall)) a q q

frame-IsShown :
    (blake3 : Bytes → ℕ) (a : App) (f : ReceivedFrame) (wall : WallClock)
    → IsShown a
    → ShownIfSuppressed (on_frame blake3 a f wall)
unfolding on_frame status_for
frame-IsShown blake3 a f wall q _ =
    let (ring, duplicate) =
      dedup_frame a.dedup f (content_digest blake3 f.kind f.payload) wall.unix_millis in
    let seen = record a { clock = Clock.observe a.clock f.lamport; dedup = ring } in
    if_holds IsShown duplicate seen (record_frame seen f wall) q
      (record_frame-IsShown seen f wall q)

peer_swap_runs : (a : App) (peer_id : ℕ) → (peer_swap a peer_id).suppress_action ≡ false
unfolding peer_swap
peer_swap_runs a peer_id =
    elim (Bool-cases (not (a.last_paired_peer_id == 0) && not (peer_id == a.last_paired_peer_id))) [
      | inl swap ↦ rw swap (
          if_same (λ (p : Prepared). p.suppress_action) (other_peers_linked a)
            (record {
              app = (drop_pending_for a a.last_paired_peer_id).0;
              suppress_action = false;
              suppress_resync_apply = false;
              pending_dropped = (drop_pending_for a a.last_paired_peer_id).1;
            })
            (changed (drop_pending_all (wipe_history a))) refl refl)
      | inr same ↦ rw same
    ]

seen-IsShown :
    (a : App) (peer_id : ℕ) (name : String) → OnSome ShownIfSuppressed (on_peer_seen a peer_id name)
unfolding on_peer_seen
seen-IsShown a peer_id name =
    let named = set_peer_name a name in
    let swapped = peer_swap named peer_id in
    let moved = record swapped { app = set_peer_id swapped.app peer_id } in
    if_holds (OnSome ShownIfSuppressed) (is_peer_mismatch a peer_id) none
      (some (if peer_id == 0 then changed named else moved)) tt
      (if_holds ShownIfSuppressed (peer_id == 0) (changed named) moved no_true
        (λ h. no_true (sym (peer_swap_runs named peer_id) ∙ h)))

ghost-IsShown : (a : App) (p : Phase) → ShownIfSuppressed (on_ghost_timeout a p)
unfolding on_ghost_timeout
ghost-IsShown a linked h = no_true h
ghost-IsShown a idle h = no_true h
ghost-IsShown a discovering h = no_true h
ghost-IsShown a handshaking h = no_true h

prepare-IsShown :
    (blake3 : Bytes → ℕ) (a : App) (e : Event) (wall : WallClock)
    → IsShown a
    → OnSome ShownIfSuppressed (prepare blake3 a e wall)
unfolding prepare on_peer_revoked
prepare-IsShown blake3 a (peer_seen peer_id name) wall q = seen-IsShown a peer_id name
prepare-IsShown blake3 a (local_clipboard_change c) wall q = copy-IsShown a c wall q
prepare-IsShown blake3 a (frame_received_clipboard f) wall q = frame-IsShown blake3 a f wall q
prepare-IsShown blake3 a ghost_timeout wall q = ghost-IsShown a a.phase
prepare-IsShown blake3 a (peer_revoked peer_id) wall q = no_true
prepare-IsShown blake3 a e wall q = no_true

finish_if-IsShown :
    (a : App) (e : Event) (o : Option Prepared)
    → IsShown a
    → OnSome ShownIfSuppressed o
    → IsShown (finish_if a e o).0
unfolding finish_if
finish_if-IsShown a e none q h = q
finish_if-IsShown a e (some p) q h = finish-IsShown e p h

pub handle-IsShown :
    (blake3 : Bytes → ℕ) (a : App) (e : Event) (wall : WallClock)
    → IsShown a
    → IsShown (handle blake3 a e wall).0
unfolding handle drive resolve_pending status_for
handle-IsShown blake3 a (resolves hash allow) wall q = q
handle-IsShown blake3 a e wall q =
    finish_if-IsShown a e (prepare blake3 a e wall) q (prepare-IsShown blake3 a e wall q)
