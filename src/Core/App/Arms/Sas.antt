-- ===== src/Core/App/Arms/Sas.antt =====
-- crates/fluxsync-core/src/app.rs, `App::handle`: the arms of the SAS verification.
use fluxsync.Base.{ℕ, Bool, true, false, ◌&&◌, none, if◌then◌else◌, is_some_eq}
use fluxsync.Core.State.{State, SasPhase, idle, showing, peer_confirmed, local_confirmed, confirmed}

abbrev pub is_in_flight : SasPhase → Bool
is_in_flight showing = true
is_in_flight peer_confirmed = true
is_in_flight local_confirmed = true
is_in_flight _ = false

unfoldable pub on_peer_lost : State → ℕ → State
on_peer_lost s peer_id =
    let gone = record s { peer_battery = 255; peer_charging = false } in
    if is_some_eq s.sas_peer peer_id && is_in_flight s.sas_phase
    then record gone { sas_phase = idle; sas_peer = none }
    else gone

unfoldable pub reset_sas : State → State
reset_sas s = record s { sas_phase = idle; sas_peer = none }

unfoldable pub after_local_confirm : SasPhase → SasPhase
after_local_confirm peer_confirmed = confirmed
after_local_confirm confirmed = confirmed
after_local_confirm _ = local_confirmed

unfoldable pub after_peer_confirm : SasPhase → SasPhase
after_peer_confirm local_confirmed = confirmed
after_peer_confirm confirmed = confirmed
after_peer_confirm _ = peer_confirmed

-- The arms of `SasLocalConfirmed`, `SasPeerConfirmed` and `SasPeerRejected`, each behind the guard
-- that `sas_peer` names its peer.
unfoldable pub sas_to : State → ℕ → SasPhase → State
sas_to s peer_id next = if is_some_eq s.sas_peer peer_id then record s { sas_phase = next } else s
