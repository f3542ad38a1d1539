-- ===== src/Core/App/Arms.antt =====
-- crates/fluxsync-core/src/app.rs, `App::handle`: the match that changes the state before the
-- transition runs, one clause for each arm.
pub mod Outcome
pub mod Sas
pub mod Peers
pub mod Clips
use package.text.Mathlib.Text.{◌==◌ as str_eq}
use fluxsync.Base.{
  ℕ, ◌+◌, Bool, true, false, not, ◌&&◌, ◌||◌, List, [], ◌∷◌, map, String, Option, none, some, ◌==◌,
  if◌then◌else◌, retain, is_some_eq,
}
use fluxsync.Base.Text.{trim, is_empty as is_empty_text}
use fluxsync.Proto.Types.{Kind}
use fluxsync.Core.App.{App, hex32, other_peers_linked}
use fluxsync.Core.App.Canon.{content_digest}
use fluxsync.Core.App.History.{push_history}
use fluxsync.Core.App.Pending.{drop_pending_all, drop_pending_for}
use fluxsync.Core.Clock.{WallClock}
use fluxsync.Core.Clock
use fluxsync.Core.Dedup.{DedupRing, observe_clipboard, contains}
use fluxsync.Core.Events.{
  Bytes, LocalCopy, ReceivedFrame, Event, toggle_on, toggle_off, peer_seen, peer_platform,
  peer_caps, peer_lost, set_trusted_peer, untrusted_peer_seen, ghost_timeout, manual_unpair,
  battery_changed_self, battery_changed_peer, local_clipboard_change, frame_received_clipboard,
  primary_failover, set_favorite, clear_history, sas_pairing_started, sas_local_confirmed,
  sas_peer_confirmed, sas_peer_rejected, sas_reset, peer_revoked,
}
use fluxsync.Core.Fsm.{Phase, linked, handshaking, discovering}
use fluxsync.Core.Fsm
use fluxsync.Core.Policy.{Decision, pass, defer, block, inbound, decide}
use fluxsync.Core.State.{
  State, HistoryItem, HistorySource, local, remote, SasPhase, idle, showing, peer_confirmed,
  local_confirmed, confirmed, peer_rejected,
}
use Outcome.{Prepared, changed}
use Sas.{on_peer_lost, reset_sas, after_local_confirm, after_peer_confirm, sas_to}
use Peers.{
  on_peer_seen, on_failover, on_untrusted_peer, on_ghost_timeout, on_manual_unpair, on_peer_revoked,
}
use Clips.{on_local_change, on_frame, set_favorite_row, on_clear_history}

-- An arm that only changes the state.
abbrev pub with_state : App → State → Prepared
with_state app s = changed (record app { state = s })

unfoldable pub prepare : (Bytes → ℕ) → App → Event → WallClock → Option Prepared
prepare blake3 app toggle_on wall =
    let s = app.state in some (with_state app (record s { on = true }))
prepare blake3 app toggle_off wall =
    let s = app.state in some (with_state app (record s { on = false }))
prepare blake3 app (peer_seen peer_id name) wall = on_peer_seen app peer_id name
prepare blake3 app (battery_changed_self level charging) wall =
    let s = app.state in
    some (with_state app (record s { battery_level = level; charging = charging }))
prepare blake3 app (battery_changed_peer level charging) wall =
    let s = app.state in
    some (with_state app (record s { peer_battery = level; peer_charging = charging }))
prepare blake3 app (peer_platform platform) wall =
    let s = app.state in some (with_state app (record s { peer_platform = platform }))
prepare blake3 app (peer_caps caps) wall =
    let s = app.state in some (with_state app (record s { peer_caps = caps }))
prepare blake3 app (local_clipboard_change c) wall = some (on_local_change app c wall)
prepare blake3 app (frame_received_clipboard f) wall = some (on_frame blake3 app f wall)
prepare blake3 app (peer_lost peer_id) wall = some (with_state app (on_peer_lost app.state peer_id))
prepare blake3 app (primary_failover peer_id name platform caps) wall =
    some (changed (on_failover app peer_id name platform caps))
prepare blake3 app (untrusted_peer_seen name) wall = some (changed (on_untrusted_peer app))
prepare blake3 app ghost_timeout wall = some (on_ghost_timeout app app.phase)
prepare blake3 app manual_unpair wall = some (changed (on_manual_unpair app))
prepare blake3 app (sas_pairing_started peer_id) wall =
    let s = app.state in
    some (with_state app (record s { sas_phase = showing; sas_peer = some peer_id }))
prepare blake3 app (sas_local_confirmed peer_id) wall =
    let s = app.state in some (with_state app (sas_to s peer_id (after_local_confirm s.sas_phase)))
prepare blake3 app (sas_peer_confirmed peer_id) wall =
    let s = app.state in some (with_state app (sas_to s peer_id (after_peer_confirm s.sas_phase)))
prepare blake3 app (sas_peer_rejected peer_id) wall =
    let s = app.state in some (with_state app (sas_to s peer_id peer_rejected))
prepare blake3 app sas_reset wall = some (with_state app (reset_sas app.state))
prepare blake3 app (set_trusted_peer name) wall =
    let s = app.state in some (with_state app (record s { trusted_peer_name = some name }))
prepare blake3 app (set_favorite hash favorite) wall =
    let s = app.state in
    some (with_state app (record s { history = map (set_favorite_row hash favorite) s.history }))
prepare blake3 app (clear_history include_favorites) wall =
    some (with_state app (on_clear_history app.state include_favorites))
prepare blake3 app (peer_revoked peer_id) wall = some (on_peer_revoked app peer_id)
prepare blake3 app event wall = some (changed app)
