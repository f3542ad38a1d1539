-- ===== src/Core/App/Handle/Agree.antt =====
-- When two apps agree on the history, the parking lot and the dedup ring, and the edits of the arms
-- that leave an app so.
use fluxsync.Base.{
  ℕ, ◌≡◌, refl, Bool, false, not, ◌&&◌, List, map, String, none, ◌==◌, if_holds, is_some_eq,
}
use fluxsync.Core.App.{App}
use fluxsync.Core.App.Arms.Clips.{set_favorite_row, on_clear_history}
use fluxsync.Core.App.Arms.Peers.{
  set_peer_id, set_peer_name, on_failover, forget_peer, revoke_shown,
}
use fluxsync.Core.App.Arms.Sas.{on_peer_lost, is_in_flight, reset_sas, sas_to}
use fluxsync.Core.App.Handle.{publish}
use fluxsync.Core.Fsm.{Phase}
use fluxsync.Core.State.{State, SasPhase, idle as sas_idle}

-- Two apps agree on what such a property reads.
abbrev pub Agree : App → App → Type 0
Agree a b =
    (a.state.history ≡ b.state.history)
    × (a.state.pending ≡ b.state.pending)
    × (a.pending_payloads ≡ b.pending_payloads)
    × (a.dedup ≡ b.dedup)

-- The same, for two states of one app.
abbrev SameLists : State → State → Type 0
SameLists s t = (s.history ≡ t.history) × (s.pending ≡ t.pending)

revoke_shown_lists : (s : State) (peer_id : ℕ) → SameLists s (revoke_shown s peer_id)
unfolding revoke_shown forget_peer
revoke_shown_lists s peer_id =
    let gone = forget_peer s in
    if_holds (SameLists s) (not (peer_id == 0) && peer_id == s.peer_id)
      (record gone { trusted_peer_name = none }) s (refl, refl) (refl, refl)

sas_to_lists : (s : State) (peer_id : ℕ) (next : SasPhase) → SameLists s (sas_to s peer_id next)
unfolding sas_to
sas_to_lists s peer_id next =
    if_holds (SameLists s) (is_some_eq s.sas_peer peer_id) (record s { sas_phase = next }) s
      (refl, refl) (refl, refl)

on_peer_lost_lists : (s : State) (peer_id : ℕ) → SameLists s (on_peer_lost s peer_id)
unfolding on_peer_lost
on_peer_lost_lists s peer_id =
    let gone = record s { peer_battery = 255; peer_charging = false } in
    if_holds (SameLists s) (is_some_eq s.sas_peer peer_id && is_in_flight s.sas_phase)
      (record gone { sas_phase = sas_idle; sas_peer = none }) gone (refl, refl) (refl, refl)

pub named_agrees : (a : App) (name : String) → Agree a (set_peer_name a name)
unfolding set_peer_name
named_agrees a name = (refl, refl, refl, refl)

pub moved_agrees : (a : App) (peer_id : ℕ) → Agree a (set_peer_id a peer_id)
unfolding set_peer_id
moved_agrees a peer_id = (refl, refl, refl, refl)

pub gone_agrees : (a : App) → Agree a (record a { state = reset_sas (forget_peer a.state) })
unfolding reset_sas forget_peer
gone_agrees a = (refl, refl, refl, refl)

pub unpaired_agrees :
    (a : App)
    → let s = reset_sas (forget_peer a.state) in
      Agree a (record a { state = record s { on = false; trusted_peer_name = none } })
unfolding reset_sas forget_peer
unpaired_agrees a = (refl, refl, refl, refl)

pub revoked_agrees :
    (a : App) (peer_id : ℕ) → Agree a (record a { state = revoke_shown a.state peer_id })
revoked_agrees a peer_id = let s = revoke_shown_lists a.state peer_id in (s.0, s.1, refl, refl)

pub sas_agrees :
    (a : App) (peer_id : ℕ) (next : SasPhase)
    → Agree a (record a { state = sas_to a.state peer_id next })
sas_agrees a peer_id next = let s = sas_to_lists a.state peer_id next in (s.0, s.1, refl, refl)

pub lost_agrees :
    (a : App) (peer_id : ℕ) → Agree a (record a { state = on_peer_lost a.state peer_id })
lost_agrees a peer_id = let s = on_peer_lost_lists a.state peer_id in (s.0, s.1, refl, refl)

pub failover_agrees :
    (a : App) (peer_id : ℕ) (name platform : String) (caps : List String)
    → Agree a (on_failover a peer_id name platform caps)
unfolding on_failover
failover_agrees a peer_id name platform caps =
    let s = a.state in
    let shown = record s {
      peer_name = name;
      peer_platform = platform;
      peer_caps = caps;
      peer_battery = 255;
      peer_charging = false;
    } in
    if_holds (Agree a) (peer_id == 0) (record a { state = shown })
      (record a { last_paired_peer_id = peer_id; state = record shown { peer_id = peer_id } })
      (refl, refl, refl, refl) (refl, refl, refl, refl)

pub reset_agrees : (a : App) → Agree a (record a { state = reset_sas a.state })
unfolding reset_sas
reset_agrees a = (refl, refl, refl, refl)

pub published_agrees : (a : App) (next : Phase) → Agree a (publish a next)
unfolding publish
published_agrees a next = (refl, refl, refl, refl)

abbrev pub favorite_set : App → String → Bool → App
favorite_set app hash favorite =
    let s = app.state in
    record app { state = record s { history = map (set_favorite_row hash favorite) s.history } }

abbrev pub history_cleared : App → Bool → App
history_cleared app include_favorites = record app {
  state = on_clear_history app.state include_favorites;
}
