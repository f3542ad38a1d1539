-- ===== src/Core/App/Handle/Sas.antt =====
-- The verification by short words: what has to happen before `handle` shows it as confirmed.
use fluxsync.Core.App.Handle.Backed.{
  sas_of, sas-IsApart, Tally, tally, Backed, IsBacked, seen_kept, sas-IsBesideRows, lost-Backed,
  ghost-IsBacked, revoked_kept, failover_kept, local-Backed, remote-Backed, rejected-Backed,
}
use fluxsync.Base.{
  ℕ, ◌≡◌, refl, sym, subst, inl, inr, true, false, List, [], ◌∷◌, Option, none, some, arith, OnSome,
}
use fluxsync.Core.App.{App, new, new_with_device}
use fluxsync.Core.App.Arms.{prepare}
use fluxsync.Core.App.Arms.Clips.{on_clear_history}
use fluxsync.Core.App.Arms.Outcome.{Prepared}
use fluxsync.Core.App.Arms.Peers.{
  wipe_history, on_peer_seen, forget_peer, on_untrusted_peer, on_manual_unpair, on_peer_revoked,
}
use fluxsync.Core.App.Arms.Sas.{reset_sas}
use fluxsync.Core.App.Handle.{handle, drive, finish_if}
use fluxsync.Core.App.Handle.Kept.{finish_kept, copy_kept, frame_kept}
use fluxsync.Core.App.Pending.{resolve_pending, drop_pending_all, drop_pending_for}
use fluxsync.Core.Clock.{WallClock}
use fluxsync.Core.Events.{
  Bytes, Event, peer_seen, peer_lost, untrusted_peer_seen, ghost_timeout, manual_unpair,
  local_clipboard_change, frame_received_clipboard, primary_failover, resolve_pending as resolves,
  sas_pairing_started, sas_local_confirmed, sas_peer_confirmed, sas_peer_rejected, sas_reset,
  peer_revoked,
}
use fluxsync.Core.Id.{DeviceId}
use fluxsync.Core.State.{State, Config, SasPhase, confirmed, initial}

abbrev IsBackedBy : App → Tally → Prepared → Type 0
IsBackedBy a t p = IsBacked p.app t

kept-Backed : {u v : SasPhase × Option ℕ} (t : Tally) → u ≡ v → Backed v t → Backed u t
kept-Backed t e h = subst (λ w. Backed w t) (sym e) h

seen_backed :
    (a : App) (o : Option Prepared) (t : Tally)
    → IsBacked a t
    → OnSome (λ p. sas_of p.app.state ≡ sas_of a.state) o
    → OnSome (IsBackedBy a t) o
seen_backed a none t h k = tt
seen_backed a (some p) t h k = kept-Backed t k h

prepare_backed :
    (blake3 : Bytes → ℕ) (a : App) (e : Event) (wall : WallClock) (t : Tally)
    → IsBacked a t
    → OnSome (IsBackedBy a (tally e t)) (prepare blake3 a e wall)
unfolding prepare on_untrusted_peer on_manual_unpair on_peer_revoked reset_sas forget_peer
    drop_pending_all drop_pending_for wipe_history on_clear_history
prepare_backed blake3 a (peer_seen p name) wall t h =
    seen_backed a (on_peer_seen a p name) t h (seen_kept a p name)
prepare_backed blake3 a (local_clipboard_change c) wall t h =
    kept-Backed t (copy_kept sas-IsBesideRows a c wall) h
prepare_backed blake3 a (frame_received_clipboard f) wall t h =
    kept-Backed t (frame_kept sas-IsBesideRows blake3 a f wall) h
prepare_backed blake3 a (peer_lost p) wall t h = lost-Backed a.state p t h
prepare_backed blake3 a (primary_failover p name platform caps) wall t h =
    kept-Backed t (failover_kept a p name platform caps) h
prepare_backed blake3 a (untrusted_peer_seen name) wall t h = inl (refl, refl)
prepare_backed blake3 a ghost_timeout wall t h = ghost-IsBacked a a.phase t h
prepare_backed blake3 a manual_unpair wall t h = inl (refl, refl)
prepare_backed blake3 a (sas_pairing_started p) wall t h = inr (refl, tt)
prepare_backed blake3 a (sas_local_confirmed p) wall t h = local-Backed a.state p t h
prepare_backed blake3 a (sas_peer_confirmed p) wall t h = remote-Backed a.state p t h
prepare_backed blake3 a (sas_peer_rejected p) wall t h = rejected-Backed a.state p t h
prepare_backed blake3 a sas_reset wall t h = inl (refl, refl)
prepare_backed blake3 a (peer_revoked p) wall t h =
    kept-Backed t (revoked_kept (drop_pending_for a p).0.state p) h
prepare_backed blake3 a e wall t h = h

finish-IsBacked :
    (a : App) (e : Event) (o : Option Prepared) (t : Tally)
    → IsBacked a t
    → OnSome (IsBackedBy a (tally e t)) o
    → (o ≡ none → tally e t ≡ t)
    → IsBacked (finish_if a e o).0 (tally e t)
unfolding finish_if
finish-IsBacked a e none t h k same = subst (IsBacked a) (sym (same refl)) h
finish-IsBacked a e (some p) t h k same = kept-Backed (tally e t) (finish_kept sas-IsApart e p) k

no_none {ℓ κ} : {A : Type ℓ} {B : Type κ} {a : A} → some a ≡ none → B
no_none h = ground arith

handle-IsBacked :
    (blake3 : Bytes → ℕ) (a : App) (e : Event) (wall : WallClock) (t : Tally)
    → IsBacked a t
    → IsBacked (handle blake3 a e wall).0 (tally e t)
unfolding handle drive resolve_pending prepare
handle-IsBacked blake3 a (resolves hash allow) wall t h = h
handle-IsBacked blake3 a (sas_pairing_started p) wall t h =
    let e = sas_pairing_started p in
    finish-IsBacked a e (prepare blake3 a e wall) t h (prepare_backed blake3 a e wall t h) no_none
handle-IsBacked blake3 a (sas_local_confirmed p) wall t h =
    let e = sas_local_confirmed p in
    finish-IsBacked a e (prepare blake3 a e wall) t h (prepare_backed blake3 a e wall t h) no_none
handle-IsBacked blake3 a (sas_peer_confirmed p) wall t h =
    let e = sas_peer_confirmed p in
    finish-IsBacked a e (prepare blake3 a e wall) t h (prepare_backed blake3 a e wall t h) no_none
handle-IsBacked blake3 a e wall t h =
    finish-IsBacked a e (prepare blake3 a e wall) t h (prepare_backed blake3 a e wall t h)
      (λ _. refl)

-- A run of events, each with the clock that it is handled at.
abbrev pub run : (Bytes → ℕ) → App → List (Event × WallClock) → App
run blake3 a [] = a
run blake3 a (e ∷ es) = run blake3 (handle blake3 a e.0 e.1).0 es

abbrev pub tally_run : Tally → List (Event × WallClock) → Tally
tally_run t [] = t
tally_run t (e ∷ es) = tally_run (tally e.0 t) es

abbrev pub no_tally : Tally
no_tally = record { peer = none; local = false; remote = false }

run-IsBacked :
    (blake3 : Bytes → ℕ) (a : App) (es : List (Event × WallClock)) (t : Tally)
    → IsBacked a t
    → IsBacked (run blake3 a es) (tally_run t es)
run-IsBacked blake3 a [] t h = h
run-IsBacked blake3 a (e ∷ es) t h =
    run-IsBacked blake3 (handle blake3 a e.0 e.1).0 es (tally e.0 t)
      (handle-IsBacked blake3 a e.0 e.1 t h)

confirmed-Backed :
    (s : State) (t : Tally)
    → Backed (sas_of s) t
    → s.sas_phase ≡ confirmed
    → (s.sas_peer ≡ t.peer) × (t.local ≡ true) × (t.remote ≡ true)
confirmed-Backed s t h k = ground arith

new-IsBacked :
    (config : Config) (device : DeviceId) → IsBacked (new_with_device config device) no_tally
unfolding new_with_device new initial
new-IsBacked config device = inl (refl, refl)

-- Whatever events a fresh app handles, its verification is shown as confirmed only if, since the
-- last pairing started, this device and the peer of that pairing have both confirmed, and it is
-- that peer that the state names: confirmations for other peers never count.
pub run_confirmed :
    (blake3 : Bytes → ℕ) (config : Config) (device : DeviceId) (es : List (Event × WallClock))
    → let s = (run blake3 (new_with_device config device) es).state in
      let t = tally_run no_tally es in
      s.sas_phase ≡ confirmed → (s.sas_peer ≡ t.peer) × (t.local ≡ true) × (t.remote ≡ true)
run_confirmed blake3 config device es h =
    let a = new_with_device config device in
    confirmed-Backed (run blake3 a es).state (tally_run no_tally es)
      (run-IsBacked blake3 a es no_tally (new-IsBacked config device)) h
