-- ===== src/Core/App/Handle/Identity.antt =====
-- Whom the single-peer view names: an announcement cannot take a link over.
use fluxsync.Base.{
  ℕ, ◌≡◌, refl, sym, subst, ◌⊎◌, inl, inr, Bool, true, false, not, ◌&&◌, ◌||◌, List, String, Option,
  none, some, arith, ◌==◌, if◌then◌else◌, if_same, if_holds, if_split, OnSome, ==_self, is_some_eq,
  Bool-cases,
}
use fluxsync.Base.Text.{is_empty}
use fluxsync.Core.App.{App, other_peers_linked}
use fluxsync.Core.App.Arms.{prepare}
use fluxsync.Core.App.Arms.Clips.{on_clear_history}
use fluxsync.Core.App.Arms.Outcome.{Prepared, changed}
use fluxsync.Core.App.Arms.Peers.{
  is_settled, is_peer_mismatch, wipe_history, peer_swap, set_peer_id, set_peer_name, on_peer_seen,
  on_failover, forget_peer, on_untrusted_peer, on_ghost_timeout, on_manual_unpair, revoke_shown,
  on_peer_revoked,
}
use fluxsync.Core.App.Arms.Sas.{
  on_peer_lost, is_in_flight, reset_sas, sas_to, after_local_confirm, after_peer_confirm,
}
use fluxsync.Core.App.Handle.{handle, drive, finish_if}
use fluxsync.Core.App.Handle.Kept.{IsApart, finish_kept, IsBesideRows, copy_kept, frame_kept}
use fluxsync.Core.App.Pending.{resolve_pending, drop_pending_all, drop_pending_for}
use fluxsync.Core.Clock.{WallClock}
use fluxsync.Core.Events.{
  Bytes, Event, peer_seen, peer_lost, untrusted_peer_seen, ghost_timeout, manual_unpair,
  local_clipboard_change, frame_received_clipboard, primary_failover, resolve_pending as resolves,
  sas_local_confirmed, sas_peer_confirmed, sas_peer_rejected, peer_revoked,
}
use fluxsync.Core.Fsm.{Phase, idle, discovering, handshaking, linked}
use fluxsync.Core.State.{State, SasPhase, idle as sas_idle, peer_rejected}

abbrev peer_of : State → ℕ
peer_of s = s.peer_id

peer-IsBesideRows : IsBesideRows peer_of
peer-IsBesideRows = record { rows = λ _ _. refl }

peer-IsApart : IsApart peer_of
peer-IsApart = record { pending = λ _ _. refl; published = λ _ _ _. refl }

-- An event that may make another device the peer: a failover to it, or its announcement at a time
-- when no named peer is being linked.
abbrev pub may_bind : App → Event → ℕ → Bool
may_bind a (peer_seen p name) q =
    p == q && (is_settled a.phase || is_empty a.state.peer_name || a.state.peer_id == p)
may_bind a (primary_failover p name platform caps) q = p == q
may_bind a e q = false

abbrev Allowed : App → Event → ℕ → Type 0
Allowed a e q = (q ≡ a.state.peer_id) ⊎ (q ≡ 0) ⊎ (may_bind a e q ≡ true)

abbrev AllowedBy : App → Event → Prepared → Type 0
AllowedBy a e p = Allowed a e p.app.state.peer_id

swap_kept : (a : App) (peer_id : ℕ) → (peer_swap a peer_id).app.state.peer_id ≡ a.state.peer_id
unfolding peer_swap drop_pending_for drop_pending_all wipe_history
swap_kept a peer_id =
    elim (Bool-cases (not (a.last_paired_peer_id == 0) && not (peer_id == a.last_paired_peer_id))) [
      | inl swap ↦ rw swap (elim (Bool-cases (other_peers_linked a)) [
        | inl others ↦ rw others
        | inr alone ↦ rw alone
      ])
      | inr same ↦ rw same
    ]

match_binds :
    (a : App) (p : ℕ) (name : String)
    → is_peer_mismatch a p ≡ false
    → may_bind a (peer_seen p name) p ≡ true
unfolding is_peer_mismatch
match_binds a p name h = ground arith

seen_allowed :
    (a : App) (p : ℕ) (name : String)
    → OnSome (AllowedBy a (peer_seen p name)) (on_peer_seen a p name)
unfolding on_peer_seen set_peer_name set_peer_id
seen_allowed a p name =
    let e = peer_seen p name in
    let named = set_peer_name a name in
    let swapped = peer_swap named p in
    let moved = record swapped { app = set_peer_id swapped.app p } in
    if_split (OnSome (AllowedBy a e)) (is_peer_mismatch a p) none
      (some (if p == 0 then changed named else moved)) (λ _. tt)
      (λ ok.
        if_holds (AllowedBy a e) (p == 0) (changed named) moved (inl refl)
          (inr (inr (match_binds a p name ok))))

failover-Allowed :
    (a : App) (p : ℕ) (name platform : String) (caps : List String)
    → Allowed a
        (primary_failover p name platform caps)
        (on_failover a p name platform caps).state.peer_id
unfolding on_failover
failover-Allowed a p name platform caps =
    let e = primary_failover p name platform caps in
    let s = a.state in
    let shown = record s {
      peer_name = name;
      peer_platform = platform;
      peer_caps = caps;
      peer_battery = 255;
      peer_charging = false;
    } in
    if_holds (λ (x : App). Allowed a e x.state.peer_id) (p == 0) (record a { state = shown })
      (record a { last_paired_peer_id = p; state = record shown { peer_id = p } }) (inl refl)
      (inr (inr (==_self p)))

lost_kept : (s : State) (p : ℕ) → (on_peer_lost s p).peer_id ≡ s.peer_id
unfolding on_peer_lost
lost_kept s p =
    let gone = record s { peer_battery = 255; peer_charging = false } in
    if_same peer_of (is_some_eq s.sas_peer p && is_in_flight s.sas_phase)
      (record gone { sas_phase = sas_idle; sas_peer = none }) gone refl refl

sas_kept : (s : State) (p : ℕ) (next : SasPhase) → (sas_to s p next).peer_id ≡ s.peer_id
unfolding sas_to
sas_kept s p next =
    if_same peer_of (is_some_eq s.sas_peer p) (record s { sas_phase = next }) s refl refl

ghost_allowed : (a : App) (p : Phase) → AllowedBy a ghost_timeout (on_ghost_timeout a p)
unfolding on_ghost_timeout drop_pending_for reset_sas forget_peer
ghost_allowed a linked = inl refl
ghost_allowed a idle = inr (inl refl)
ghost_allowed a discovering = inr (inl refl)
ghost_allowed a handshaking = inr (inl refl)

revoked_allowed :
    (s : State) (p : ℕ)
    → ((revoke_shown s p).peer_id ≡ s.peer_id) ⊎ ((revoke_shown s p).peer_id ≡ 0)
unfolding revoke_shown forget_peer
revoked_allowed s p =
    let gone = forget_peer s in
    if_holds (λ (x : State). (x.peer_id ≡ s.peer_id) ⊎ (x.peer_id ≡ 0))
      (not (p == 0) && p == s.peer_id) (record gone { trusted_peer_name = none }) s (inr refl)
      (inl refl)

no_bind : (a : App) (e : Event) (q : ℕ) → (q ≡ a.state.peer_id) ⊎ (q ≡ 0) → Allowed a e q
no_bind a e q (inl h) = inl h
no_bind a e q (inr h) = inr (inl h)

prepare_allowed :
    (blake3 : Bytes → ℕ) (a : App) (e : Event) (wall : WallClock)
    → OnSome (AllowedBy a e) (prepare blake3 a e wall)
unfolding prepare on_untrusted_peer on_manual_unpair on_peer_revoked reset_sas forget_peer
    drop_pending_all drop_pending_for wipe_history on_clear_history
prepare_allowed blake3 a (peer_seen p name) wall = seen_allowed a p name
prepare_allowed blake3 a (local_clipboard_change c) wall =
    inl (copy_kept peer-IsBesideRows a c wall)
prepare_allowed blake3 a (frame_received_clipboard f) wall =
    inl (frame_kept peer-IsBesideRows blake3 a f wall)
prepare_allowed blake3 a (peer_lost p) wall = inl (lost_kept a.state p)
prepare_allowed blake3 a (primary_failover p name platform caps) wall =
    failover-Allowed a p name platform caps
prepare_allowed blake3 a (untrusted_peer_seen name) wall = inr (inl refl)
prepare_allowed blake3 a ghost_timeout wall = ghost_allowed a a.phase
prepare_allowed blake3 a manual_unpair wall = inr (inl refl)
prepare_allowed blake3 a (sas_local_confirmed p) wall =
    inl (sas_kept a.state p (after_local_confirm a.state.sas_phase))
prepare_allowed blake3 a (sas_peer_confirmed p) wall =
    inl (sas_kept a.state p (after_peer_confirm a.state.sas_phase))
prepare_allowed blake3 a (sas_peer_rejected p) wall = inl (sas_kept a.state p peer_rejected)
prepare_allowed blake3 a (peer_revoked p) wall =
    let s = (drop_pending_for a p).0.state in
    no_bind a (peer_revoked p) (revoke_shown s p).peer_id (revoked_allowed s p)
prepare_allowed blake3 a e wall = inl refl

finish-Allowed :
    (a : App) (e : Event) (o : Option Prepared)
    → OnSome (AllowedBy a e) o
    → Allowed a e (finish_if a e o).0.state.peer_id
unfolding finish_if
finish-Allowed a e none h = inl refl
finish-Allowed a e (some p) h = subst (Allowed a e) (sym (finish_kept peer-IsApart e p)) h

-- The peer that the state names changes to another device only by a failover to that device or by
-- its announcement while no named peer is linked or being linked; every other event keeps the
-- peer or forgets it.
pub handle_binds :
    (blake3 : Bytes → ℕ) (a : App) (e : Event) (wall : WallClock)
    → let q = (handle blake3 a e wall).0.state.peer_id in
      (q ≡ a.state.peer_id) ⊎ (q ≡ 0) ⊎ (may_bind a e q ≡ true)
unfolding handle drive resolve_pending
handle_binds blake3 a (resolves hash allow) wall = inl refl
handle_binds blake3 a e wall =
    finish-Allowed a e (prepare blake3 a e wall) (prepare_allowed blake3 a e wall)
