-- ===== src/Core/App/Handle/Backed.antt =====
-- What the arms of `handle` do to the fields of the verification, measured by a tally of the
-- confirmations that the events bring.
use fluxsync.Base.{
  ℕ, ◌≡◌, refl, ◌⊎◌, inl, inr, Bool, true, false, not, ◌&&◌, List, String, Option, none, some,
  arith, ◌==◌, if◌then◌else◌, if_same, if_holds, OnSome, is_some_eq, Bool-cases,
}
use fluxsync.Core.App.{App, other_peers_linked}
use fluxsync.Core.App.Arms.Outcome.{Prepared, changed}
use fluxsync.Core.App.Arms.Peers.{
  is_peer_mismatch, wipe_history, peer_swap, set_peer_id, set_peer_name, on_peer_seen, on_failover,
  forget_peer, on_ghost_timeout, revoke_shown,
}
use fluxsync.Core.App.Arms.Sas.{
  on_peer_lost, is_in_flight, reset_sas, sas_to, after_local_confirm, after_peer_confirm,
}
use fluxsync.Core.App.Handle.Kept.{IsApart, IsBesideRows}
use fluxsync.Core.App.Pending.{drop_pending_all, drop_pending_for}
use fluxsync.Core.Events.{Event, sas_pairing_started, sas_local_confirmed, sas_peer_confirmed}
use fluxsync.Core.Fsm.{Phase, idle, discovering, handshaking, linked}
use fluxsync.Core.State.{
  State, SasPhase, idle as sas_idle, showing, peer_confirmed, local_confirmed, confirmed,
  peer_rejected,
}

-- The SAS fields of the state.
abbrev pub sas_of : State → SasPhase × Option ℕ
sas_of s = (s.sas_phase, s.sas_peer)

pub sas-IsBesideRows : IsBesideRows sas_of
sas-IsBesideRows = record { rows = λ _ _. refl }

pub sas-IsApart : IsApart sas_of
sas-IsApart = record { pending = λ _ _. refl; published = λ _ _ _. refl }

-- What the events themselves say: the peer that the last pairing is with, and who of the two has
-- confirmed since it started. No event takes a confirmation back but a new pairing.
pub record Tally : Type 0 where
  pub peer : Option ℕ
  pub local : Bool
  pub remote : Bool

abbrev pub tally : Event → Tally → Tally
tally (sas_pairing_started p) t = record { peer = some p; local = false; remote = false }
tally (sas_local_confirmed p) t = if is_some_eq t.peer p then record t { local = true } else t
tally (sas_peer_confirmed p) t = if is_some_eq t.peer p then record t { remote = true } else t
tally e t = t

-- The phase claims no more than the tally.
abbrev pub Claims : SasPhase → Tally → Type 0
Claims sas_idle t = Unit {0}
Claims showing t = Unit {0}
Claims peer_rejected t = Unit {0}
Claims local_confirmed t = t.local ≡ true
Claims peer_confirmed t = t.remote ≡ true
Claims confirmed t = (t.local ≡ true) × (t.remote ≡ true)

-- The fields are those of no pairing, or of the one of the tally.
abbrev pub Backed : SasPhase × Option ℕ → Tally → Type 0
Backed v t = ((v.0 ≡ sas_idle) × (v.1 ≡ none)) ⊎ ((v.1 ≡ t.peer) × Claims v.0 t)

abbrev pub IsBacked : App → Tally → Type 0
IsBacked a t = Backed (sas_of a.state) t

pub swap_kept : (a : App) (peer_id : ℕ) → sas_of (peer_swap a peer_id).app.state ≡ sas_of a.state
unfolding peer_swap drop_pending_for drop_pending_all wipe_history
swap_kept a peer_id =
    elim (Bool-cases (not (a.last_paired_peer_id == 0) && not (peer_id == a.last_paired_peer_id))) [
      | inl swap ↦ rw swap (elim (Bool-cases (other_peers_linked a)) [
        | inl others ↦ rw others
        | inr alone ↦ rw alone
      ])
      | inr same ↦ rw same
    ]

pub seen_kept :
    (a : App) (peer_id : ℕ) (name : String)
    → OnSome (λ p. sas_of p.app.state ≡ sas_of a.state) (on_peer_seen a peer_id name)
unfolding on_peer_seen set_peer_name set_peer_id
seen_kept a peer_id name =
    let named = set_peer_name a name in
    let swapped = peer_swap named peer_id in
    let moved = record swapped { app = set_peer_id swapped.app peer_id } in
    if_holds (OnSome (λ (p : Prepared). sas_of p.app.state ≡ sas_of a.state))
      (is_peer_mismatch a peer_id) none (some (if peer_id == 0 then changed named else moved)) tt
      (if_same (λ (p : Prepared). sas_of p.app.state) (peer_id == 0) (changed named) moved refl
        (swap_kept named peer_id))

pub lost-Backed :
    (s : State) (p : ℕ) (t : Tally) → Backed (sas_of s) t → Backed (sas_of (on_peer_lost s p)) t
unfolding on_peer_lost
lost-Backed s p t h =
    let gone = record s { peer_battery = 255; peer_charging = false } in
    if_holds (λ (x : State). Backed (sas_of x) t)
      (is_some_eq s.sas_peer p && is_in_flight s.sas_phase)
      (record gone { sas_phase = sas_idle; sas_peer = none }) gone (inl (refl, refl)) h

pub ghost-IsBacked :
    (a : App) (p : Phase) (t : Tally) → IsBacked a t → IsBacked (on_ghost_timeout a p).app t
unfolding on_ghost_timeout drop_pending_for reset_sas
ghost-IsBacked a linked t h = h
ghost-IsBacked a idle t h = inl (refl, refl)
ghost-IsBacked a discovering t h = inl (refl, refl)
ghost-IsBacked a handshaking t h = inl (refl, refl)

pub revoked_kept : (s : State) (p : ℕ) → sas_of (revoke_shown s p) ≡ sas_of s
unfolding revoke_shown forget_peer
revoked_kept s p =
    let gone = forget_peer s in
    if_same sas_of (not (p == 0) && p == s.peer_id) (record gone { trusted_peer_name = none }) s
      refl refl

pub failover_kept :
    (a : App) (p : ℕ) (name platform : String) (caps : List String)
    → sas_of (on_failover a p name platform caps).state ≡ sas_of a.state
unfolding on_failover
failover_kept a p name platform caps =
    let s = a.state in
    let shown = record s {
      peer_name = name;
      peer_platform = platform;
      peer_caps = caps;
      peer_battery = 255;
      peer_charging = false;
    } in
    if_same (λ (x : App). sas_of x.state) (p == 0) (record a { state = shown })
      (record a { last_paired_peer_id = p; state = record shown { peer_id = p } }) refl refl

pub local-Backed :
    (s : State) (p : ℕ) (t : Tally)
    → Backed (sas_of s) t
    → Backed
        (sas_of (sas_to s p (after_local_confirm s.sas_phase)))
        (tally (sas_local_confirmed p) t)
unfolding sas_to after_local_confirm
local-Backed s p t h = ground arith

pub remote-Backed :
    (s : State) (p : ℕ) (t : Tally)
    → Backed (sas_of s) t
    → Backed (sas_of (sas_to s p (after_peer_confirm s.sas_phase))) (tally (sas_peer_confirmed p) t)
unfolding sas_to after_peer_confirm
remote-Backed s p t h = ground arith

pub rejected-Backed :
    (s : State) (p : ℕ) (t : Tally)
    → Backed (sas_of s) t
    → Backed (sas_of (sas_to s p peer_rejected)) t
unfolding sas_to
rejected-Backed s p t h = ground arith
