-- ===== src/Core/App/Handle.antt =====
-- crates/fluxsync-core/src/app.rs, `App::handle`: what follows the transition, and the whole.
pub mod Stages
pub mod Traffic
pub mod Battery
pub mod Agree
pub mod Keeps
pub mod Secrets
pub mod Ring
pub mod Shown
pub mod Kept
pub mod Backed
pub mod Sas
pub mod Identity
pub mod Wipes
use fluxsync.Base.{
  ℕ, Bool, true, false, not, ◌&&◌, ◌||◌, List, [], ◌∷◌, ◌++◌, String, Option, none, some, ◌==◌,
  if◌then◌else◌, any, retain, is_empty,
}
use fluxsync.Core.App.{App}
use fluxsync.Core.App.Arms.{prepare}
use fluxsync.Core.App.Arms.Outcome.{Prepared}
use fluxsync.Core.App.Pending.{not_write, apply_firewall, resolve_pending}
use fluxsync.Core.Clock.{WallClock}
use fluxsync.Core.Events.{
  Bytes, ReceivedFrame, Event, toggle_on, toggle_off, peer_seen, peer_platform, peer_caps,
  peer_lost, handshake_ok, handshake_timeout, set_trusted_peer, untrusted_peer_seen, ghost_timeout,
  manual_unpair, network_changed, battery_changed_self, battery_changed_peer,
  local_clipboard_change, frame_received_clipboard, reconnect, mesh_peers_changed, primary_failover,
  set_favorite, clear_history, resolve_pending as resolves, sas_pairing_started,
  sas_local_confirmed, sas_peer_confirmed, sas_peer_rejected, sas_reset, peer_revoked, Action,
  ack_item, emit_state, send_battery, duplicate_dropped, resync_apply_suppressed,
  pending_dropped as dropped_hashes,
}
use fluxsync.Core.Fsm.{Phase, idle, discovering, handshaking, linked, transition}
use fluxsync.Core.State.{State, Status, inactive, syncing, status_for}

-- The actions of a suppressed event.
unfoldable pub suppressed_actions : Event → List Action
suppressed_actions (frame_received_clipboard f) = duplicate_dropped ∷ ack_item f.hash ∷ []
suppressed_actions _ = duplicate_dropped ∷ []

unfoldable pub add_dropped : List ℕ → List Action → List Action
add_dropped hashes actions =
    if not (is_empty hashes) then actions ++ dropped_hashes hashes ∷ [] else actions

unfoldable pub strip_resync_apply : Bool → List Action → List Action
strip_resync_apply suppress actions =
    let kept = retain not_write actions in
    if suppress
    then (if any (λ a. not (not_write a)) actions
        then kept ++ resync_apply_suppressed ∷ []
        else kept)
    else actions

-- `retain_mut`: every outgoing battery action carries the reading of this device, and goes where
-- there is none.
unfoldable pub real_battery : State → List Action → List Action
real_battery s [] = []
real_battery s (send_battery level charging ∷ actions) =
    let rest = real_battery s actions in
    if not (s.battery_level == 255) then send_battery s.battery_level s.charging ∷ rest else rest
real_battery s (a ∷ actions) = a ∷ real_battery s actions

abbrev pub phase_name : Phase → String
phase_name idle = "idle"
phase_name discovering = "discovering"
phase_name handshaking = "handshaking"
phase_name linked = "linked"

abbrev pub status_eq : Status → Status → Bool
status_eq inactive inactive = true
status_eq syncing syncing = true
status_eq _ _ = false

abbrev pub is_emit_state : Action → Bool
is_emit_state emit_state = true
is_emit_state _ = false

unfoldable pub ensure_emit_state : Bool → List Action → List Action
ensure_emit_state wanted actions =
    if wanted && not (any is_emit_state actions) then actions ++ emit_state ∷ [] else actions

-- The events after which the state is always emitted.
abbrev pub mutates_state : Event → Bool
mutates_state toggle_on = true
mutates_state toggle_off = true
mutates_state (battery_changed_self level charging) = true
mutates_state (battery_changed_peer level charging) = true
mutates_state (peer_seen peer_id name) = true
mutates_state (peer_lost peer_id) = true
mutates_state manual_unpair = true
mutates_state (untrusted_peer_seen name) = true
mutates_state ghost_timeout = true
mutates_state (set_trusted_peer name) = true
mutates_state (set_favorite hash favorite) = true
mutates_state (clear_history include_favorites) = true
mutates_state (frame_received_clipboard f) = true
mutates_state (local_clipboard_change c) = true
mutates_state (sas_pairing_started peer_id) = true
mutates_state (sas_local_confirmed peer_id) = true
mutates_state (sas_peer_confirmed peer_id) = true
mutates_state (sas_peer_rejected peer_id) = true
mutates_state sas_reset = true
mutates_state (peer_revoked peer_id) = true
mutates_state _ = false

-- The new phase, its name in the state and the derived status.
unfoldable pub publish : App → Phase → App
publish app next =
    let s = app.state in
    record app { phase = next; state = record s { phase = phase_name next; status = status_for s } }

unfoldable pub finish_actions : App → Event → Bool → List ℕ → List Action → List Action
unfolding add_dropped strip_resync_apply ensure_emit_state
finish_actions app event suppress_resync dropped actions = ensure_emit_state (mutates_state event) (
    ensure_emit_state (not (status_eq app.state.status (status_for app.state)))
      (real_battery app.state (strip_resync_apply suppress_resync (add_dropped dropped actions))))

unfoldable pub finish : Event → Prepared → App × List Action
finish event p =
    let (next, actions) = transition p.app.phase event in
    let (app, gated) = apply_firewall p.app event actions in
    if p.suppress_action then (p.app, suppressed_actions event) else (
      publish app next,
      finish_actions app event p.suppress_resync_apply p.pending_dropped gated,
    )

unfoldable pub finish_if : App → Event → Option Prepared → App × List Action
finish_if app event none = (app, [])
finish_if app event (some p) = finish event p

-- An event that is no answer to a parked item.
unfoldable pub drive : (Bytes → ℕ) → App → Event → WallClock → App × List Action
drive blake3 app event wall = finish_if app event (prepare blake3 app event wall)

unfoldable pub handle : (Bytes → ℕ) → App → Event → WallClock → App × List Action
handle blake3 app (resolves hash allow) wall = resolve_pending app hash allow
handle blake3 app event wall = drive blake3 app event wall
