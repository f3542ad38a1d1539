-- ===== src/Core/App/Handle/Traffic.antt =====
-- Which clipboard actions `handle` answers an event with: acknowledgements, writes to the clipboard
-- and items for the peer.
use fluxsync.Base.{
  ℕ, ◌≡◌, refl, Bool, true, false, not, ◌&&◌, List, arith, count, count-retain, Bool-cases, inl,
  inr, if_same,
}
use fluxsync.Core.App.{App}
use fluxsync.Core.App.Arms.{prepare}
use fluxsync.Core.App.Arms.Clips.{
  on_local_change, on_frame, is_pass, dedup_frame, record_frame, remote_row,
}
use fluxsync.Core.Clock
use fluxsync.Core.App.Arms.Outcome.{Prepared}
use fluxsync.Core.App.Canon.{content_digest}
use fluxsync.Core.App.Handle.{handle, drive, finish, finish_if, suppressed_actions}
use fluxsync.Core.App.Handle.Stages.{is_ack-IsTraffic, count-finish_kept}
use fluxsync.Core.App.Pending.{not_send, not_write, strip_sync_action, apply_firewall}
use fluxsync.Core.Clock.{WallClock}
use fluxsync.Core.Dedup.{observe_clipboard}
use fluxsync.Core.Events.{Bytes, LocalCopy, ReceivedFrame, Action, frame_received_clipboard}
use fluxsync.Core.Fsm.{Phase, idle, discovering, handshaking, linked, transition}
use fluxsync.Core.Fsm.Laws.{is_ack, is_write, transition_acks}
use fluxsync.Core.Policy.{Direction, decide}
use fluxsync.Proto.Types.{Kind}
use fluxsync.Core.App.History.{push_history}

abbrev pub is_linked_phase : Phase → Bool
is_linked_phase linked = true
is_linked_phase idle = false
is_linked_phase discovering = false
is_linked_phase handshaking = false

ack_not_write : (h : ℕ) (a : Action) → is_ack h a ≡ true → not_write a ≡ true
ack_not_write h a e = ground arith

write_not_send : (a : Action) → is_write a ≡ true → not_send a ≡ true
write_not_send a e = ground arith

-- An item goes through the gate: the link is up and the firewall passes it.
abbrev pub goes_through : App → Kind → Bool → Direction → Bool
goes_through app kind sensitive dir =
    is_linked_phase app.phase && is_pass (decide app.config.firewall kind sensitive dir)

module _ (app : App) (xs : List Action) where
  count-gate_ack :
      (f : ReceivedFrame) (h : ℕ)
      → count (is_ack h) (apply_firewall app (frame_received_clipboard f) xs).1
        ≡ count (is_ack h) xs
  unfolding apply_firewall strip_sync_action
  count-gate_ack f h = ground (arith, count-retain (is_ack h) not_write (ack_not_write h) xs)

module _ (p : Prepared) where
  count-finish_ack :
      (f : ReceivedFrame) → count (is_ack f.hash) (finish (frame_received_clipboard f) p).1 ≡ 1
  unfolding finish suppressed_actions
  count-finish_ack f =
      let e = frame_received_clipboard f in
      let xs = (transition p.app.phase e).1 in
      let gated = apply_firewall p.app e xs in
      ground (
        arith,
        count-finish_kept (is_ack f.hash) (is_ack-IsTraffic f.hash) (ack_not_write f.hash) gated.0 e
            p.suppress_resync_apply p.pending_dropped gated.1,
        count-gate_ack p.app xs f f.hash,
        (transition_acks p.app.phase e).0 f refl,
      )

record_frame_keeps :
    (app : App) (f : ReceivedFrame) (wall : WallClock)
    → ((record_frame app f wall).phase ≡ app.phase)
      × ((record_frame app f wall).config ≡ app.config)
unfolding record_frame push_history
record_frame_keeps app f wall = (
  if_same (λ (a : App). a.phase) _ (push_history app (remote_row f wall)) app refl refl,
  if_same (λ (a : App). a.config) _ (push_history app (remote_row f wall)) app refl refl,
)

-- The arms for clipboard events keep the phase and the firewall.
pub on_frame_keeps :
    (blake3 : Bytes → ℕ) (app : App) (f : ReceivedFrame) (wall : WallClock)
    → let p = on_frame blake3 app f wall in
      (p.app.phase ≡ app.phase)
      × (p.app.config ≡ app.config)
      × (p.suppress_resync_apply ≡ f.resync)
      × (p.suppress_action
          ≡ (dedup_frame app.dedup f (content_digest blake3 f.kind f.payload) wall.unix_millis).1)
unfolding on_frame push_history
on_frame_keeps blake3 app f wall =
    let now = wall.unix_millis in
    let (ring, duplicate) = dedup_frame app.dedup f (content_digest blake3 f.kind f.payload) now in
    let seen = record app { clock = Clock.observe app.clock f.lamport; dedup = ring } in
    let kept = record_frame_keeps seen f wall in
    (
      if_same (λ (a : App). a.phase) duplicate seen (record_frame seen f wall) refl kept.0,
      if_same (λ (a : App). a.config) duplicate seen (record_frame seen f wall) refl kept.1,
      refl,
      refl,
    )

pub on_local_change_keeps :
    (app : App) (c : LocalCopy) (wall : WallClock)
    → let p = on_local_change app c wall in
      (p.app.phase ≡ app.phase)
      × (p.app.config ≡ app.config)
      × (p.suppress_action ≡ not (observe_clipboard app.dedup c.hash wall.unix_millis).1)
unfolding on_local_change push_history
on_local_change_keeps app c wall = (
  if_same (λ (p : Prepared). p.app.phase) _ _ _ refl
      (if_same (λ (a : App). a.phase) _ _ _ refl refl),
  if_same (λ (p : Prepared). p.app.config) _ _ _ refl
      (if_same (λ (a : App). a.config) _ _ _ refl refl),
  elim (Bool-cases (observe_clipboard app.dedup c.hash wall.unix_millis).1) [
    | inl t ↦ rw t
    | inr t ↦ rw t
  ],
)

-- Every received frame is acknowledged exactly once, by the hash that it carries, whether it is
-- applied, a duplicate, held or dropped by the firewall, a resync, or too early.
pub handle_acks :
    (blake3 : Bytes → ℕ) (app : App) (f : ReceivedFrame) (wall : WallClock)
    → count (is_ack f.hash) (handle blake3 app (frame_received_clipboard f) wall).1 ≡ 1
unfolding handle drive prepare finish_if
handle_acks blake3 app f wall = count-finish_ack (on_frame blake3 app f wall) f
