-- ===== src/Core/App/Arms/Peers.antt =====
-- crates/fluxsync-core/src/app.rs, `App::handle`: the arms for peers that come, go and change.
use fluxsync.Base.{
  ℕ, ◌+◌, ◌%◌, u64_range, Bool, true, false, not, ◌&&◌, List, [], String, Option, none, some, ◌==◌,
  if◌then◌else◌,
}
use fluxsync.Base.Text.{is_empty as is_empty_text}
use fluxsync.Core.App.{App, other_peers_linked}
use fluxsync.Core.App.Pending.{drop_pending_all, drop_pending_for}
use fluxsync.Core.Fsm.{Phase, linked, handshaking, discovering}
use fluxsync.Core.Fsm
use fluxsync.Core.State.{State}
use fluxsync.Core.App.Arms.Outcome.{Prepared, changed}
use fluxsync.Core.App.Arms.Sas.{reset_sas}

abbrev pub is_settled : Phase → Bool
is_settled Fsm.Phase.idle = true
is_settled discovering = true
is_settled handshaking = false
is_settled linked = false

unfoldable pub is_peer_mismatch : App → ℕ → Bool
is_peer_mismatch app other_id =
    if not (is_empty_text app.state.peer_name) && not (app.state.peer_id == other_id)
    then not (is_settled app.phase)
    else false

unfoldable pub wipe_history : App → App
wipe_history app =
    let s = app.state in
    record app {
      state = record s { history = []; vault_wipe_gen = (s.vault_wipe_gen + 1) % u64_range };
    }

-- FS-046: the swap to a different device than the last one paired.
unfoldable pub peer_swap : App → ℕ → Prepared
peer_swap app peer_id =
    let (scoped, dropped) = drop_pending_for app app.last_paired_peer_id in
    if not (app.last_paired_peer_id == 0) && not (peer_id == app.last_paired_peer_id)
    then (if other_peers_linked app
        then record {
          app = scoped;
          suppress_action = false;
          suppress_resync_apply = false;
          pending_dropped = dropped;
        }
        else changed (drop_pending_all (wipe_history app)))
    else changed app

unfoldable pub set_peer_id : App → ℕ → App
set_peer_id app peer_id =
    let s = app.state in
    record app { last_paired_peer_id = peer_id; state = record s { peer_id = peer_id } }

unfoldable pub set_peer_name : App → String → App
set_peer_name app name = let s = app.state in record app { state = record s { peer_name = name } }

-- `none` is the early `return vec![]` on a mismatch.
unfoldable pub on_peer_seen : App → ℕ → String → Option Prepared
on_peer_seen app peer_id name =
    let named = set_peer_name app name in
    let swapped = peer_swap named peer_id in
    if is_peer_mismatch app peer_id
    then none
    else some (
        if peer_id == 0
        then changed named
        else record swapped { app = set_peer_id swapped.app peer_id })

unfoldable pub on_failover : App → ℕ → String → String → List String → App
on_failover app peer_id name platform caps =
    let s = app.state in
    let shown = record s {
      peer_name = name;
      peer_platform = platform;
      peer_caps = caps;
      peer_battery = 255;
      peer_charging = false;
    } in
    if peer_id == 0
    then record app { state = shown }
    else record app { last_paired_peer_id = peer_id; state = record shown { peer_id = peer_id } }

-- The single-peer projection with no peer.
unfoldable pub forget_peer : State → State
forget_peer s = record s {
  peer_name = "";
  peer_platform = "";
  peer_caps = [];
  peer_id = 0;
  peer_battery = 255;
  peer_charging = false;
}

unfoldable pub on_untrusted_peer : App → App
on_untrusted_peer app =
    let gone = record app { state = reset_sas (forget_peer app.state) } in
    drop_pending_all (wipe_history gone)

unfoldable pub on_ghost_timeout : App → Phase → Prepared
on_ghost_timeout app linked = changed app
on_ghost_timeout app phase =
    let gone = record app { state = reset_sas (forget_peer app.state) } in
    let (scoped, dropped) = drop_pending_for gone app.state.peer_id in
    record {
      app = scoped;
      suppress_action = false;
      suppress_resync_apply = false;
      pending_dropped = dropped;
    }

unfoldable pub on_manual_unpair : App → App
on_manual_unpair app =
    let s = reset_sas (forget_peer app.state) in
    drop_pending_all (record app { state = record s { on = false; trusted_peer_name = none } })

unfoldable pub revoke_shown : State → ℕ → State
revoke_shown s peer_id =
    if not (peer_id == 0) && peer_id == s.peer_id
    then (let gone = forget_peer s in record gone { trusted_peer_name = none })
    else s

unfoldable pub on_peer_revoked : App → ℕ → Prepared
on_peer_revoked app peer_id =
    let (scoped, dropped) = drop_pending_for app peer_id in
    record {
      app = record scoped { state = revoke_shown scoped.state peer_id };
      suppress_action = false;
      suppress_resync_apply = false;
      pending_dropped = dropped;
    }
