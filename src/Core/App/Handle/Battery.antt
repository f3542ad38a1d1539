-- ===== src/Core/App/Handle/Battery.antt =====
-- The battery readings that `handle` sends.
use fluxsync.Base.{
  ℕ, ◌≡◌, ◌≢◌, Bool, true, false, not, List, [], ◌∷◌, ◌++◌, Option, none, some, arith, All,
  All-append, if_holds,
}
use fluxsync.Base.BTree
use fluxsync.Base.BTree.{string_ord}
use fluxsync.Core.App.{App, PendingPayload}
use fluxsync.Core.App.Arms.{prepare}
use fluxsync.Core.App.Arms.Outcome.{Prepared}
use fluxsync.Core.App.Handle.{
  handle, drive, finish, finish_if, finish_actions, suppressed_actions, real_battery,
  ensure_emit_state, publish, strip_resync_apply, add_dropped, status_eq, mutates_state,
}
use fluxsync.Core.App.Pending.{resolve_pending, held_action, apply_firewall, release}
use fluxsync.Core.Clock.{WallClock}
use fluxsync.Core.Events.{
  Bytes, Event, resolve_pending as resolves, frame_received_clipboard, Action, send_battery,
  emit_state,
}
use fluxsync.Core.Fsm.{transition}
use fluxsync.Core.Policy.{inbound, outbound, Direction}
use fluxsync.Core.State.{State, status_for}

-- A battery action carries the reading of the state, which is a real one; 255 stands for none.
abbrev pub Reads : State → Action → Type 0
Reads s (send_battery level charging) =
    (level ≡ s.battery_level) × (charging ≡ s.charging) × (level ≢ 255)
Reads s _ = Unit {0}

real_battery-All : (s : State) (xs : List Action) → All (Reads s) (real_battery s xs)
unfolding real_battery
real_battery-All s [] = tt
real_battery-All s (send_battery l c ∷ xs) = ground (arith, real_battery-All s xs)
real_battery-All s (a ∷ xs) = (tt, real_battery-All s xs)

ensure_emit_state-All :
    (s : State) (b : Bool) (xs : List Action)
    → All (Reads s) xs
    → All (Reads s) (ensure_emit_state b xs)
unfolding ensure_emit_state
ensure_emit_state-All s b xs h =
    if_holds (All (Reads s)) _ (xs ++ emit_state ∷ []) xs
      (All-append (Reads s) xs (emit_state ∷ []) h (tt, tt)) h

suppressed_actions-All : (s : State) (e : Event) → All (Reads s) (suppressed_actions e)
unfolding suppressed_actions
suppressed_actions-All s (frame_received_clipboard f) = (tt, (tt, tt))
suppressed_actions-All s e = (tt, tt)

finish_actions-All :
    (app : App) (e : Event) (sup : Bool) (hs : List ℕ) (xs : List Action)
    → All (Reads app.state) (finish_actions app e sup hs xs)
unfolding finish_actions
finish_actions-All app e sup hs xs =
    let kept = strip_resync_apply sup (add_dropped hs xs) in
    let real = real_battery app.state kept in
    let moved = not (status_eq app.state.status (status_for app.state)) in
    ensure_emit_state-All app.state (mutates_state e) (ensure_emit_state moved real)
      (ensure_emit_state-All app.state moved real (real_battery-All app.state kept))

finish-All : (e : Event) (p : Prepared) → All (Reads (finish e p).0.state) (finish e p).1
unfolding finish publish
finish-All e p =
    let (next, actions) = transition p.app.phase e in
    let (app, gated) = apply_firewall p.app e actions in
    let sent = finish_actions app e p.suppress_resync_apply p.pending_dropped gated in
    if_holds (λ (r : App × List Action). All (Reads r.0.state) r.1) p.suppress_action
      (p.app, suppressed_actions e) (publish app next, sent) (suppressed_actions-All p.app.state e)
      (finish_actions-All app e p.suppress_resync_apply p.pending_dropped gated)

held_action-All :
    (s : State) (p : PendingPayload) (dir : Direction)
    → All (Reads s) (held_action p dir ∷ emit_state ∷ [])
unfolding held_action
held_action-All s p inbound = (tt, (tt, tt))
held_action-All s p outbound = (tt, (tt, tt))

release-All :
    (s : State) (o : Option PendingPayload) (allow : Bool) → All (Reads s) (release o allow)
unfolding release
release-All s none allow = (tt, tt)
release-All s (some p) true = held_action-All s p p.direction
release-All s (some p) false = (tt, tt)

drive-All :
    (app : App) (e : Event) (o : Option Prepared)
    → All (Reads (finish_if app e o).0.state) (finish_if app e o).1
unfolding finish_if
drive-All app e none = tt
drive-All app e (some p) = finish-All e p

-- Every battery level that the core sends is the one of its own state after the event, and is a
-- real reading: neither the 100 of the transition table nor the 255 for "not read yet" goes out.
pub handle_battery :
    (blake3 : Bytes → ℕ) (app : App) (e : Event) (wall : WallClock)
    → let (next, actions) = handle blake3 app e wall in All (Reads next.state) actions
unfolding handle drive resolve_pending
handle_battery blake3 app (resolves hash allow) wall =
    release-All (resolve_pending app hash allow).0.state (BTree.get hash app.pending_payloads) allow
handle_battery blake3 app e wall = drive-All app e (prepare blake3 app e wall)
