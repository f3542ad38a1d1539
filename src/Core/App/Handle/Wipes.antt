-- ===== src/Core/App/Handle/Wipes.antt =====
-- What wipes the vault: which events raise the counter that has the daemon rewrite it, and what of
-- the history is left then.
use fluxsync.Base.{
  ℕ, ◌+◌, ◌%◌, u64_range, All, retain, [], ◌∷◌, ◌≡◌, refl, sym, ◌∙◌, subst, inl, inr, Bool, true,
  false, not, ◌&&◌, List, String, Option, none, some, arith, ◌==◌, if_same, is_some_eq, Bool-cases,
}
use fluxsync.Core.App.{App, other_peers_linked}
use fluxsync.Core.App.Arms.{prepare}
use fluxsync.Core.App.Arms.Clips.{on_clear_history}
use fluxsync.Core.App.Arms.Outcome.{Prepared}
use fluxsync.Core.App.Arms.Peers.{
  is_peer_mismatch, wipe_history, peer_swap, set_peer_id, set_peer_name, on_peer_seen, on_failover,
  forget_peer, on_untrusted_peer, on_ghost_timeout, on_manual_unpair, revoke_shown, on_peer_revoked,
}
use fluxsync.Core.App.Arms.Sas.{
  on_peer_lost, is_in_flight, reset_sas, sas_to, after_local_confirm, after_peer_confirm,
}
use fluxsync.Core.App.Handle.{handle, drive, finish_if}
use fluxsync.Core.App.Handle.Kept.{IsApart, finish_kept, IsBesideRows, copy_kept, frame_kept}
use fluxsync.Core.App.Pending.{resolve_pending, drop_pending_all, drop_pending_for}
use fluxsync.Core.Clock.{WallClock}
use fluxsync.Core.Events.{
  Bytes, Event, peer_seen, peer_lost, clear_history, untrusted_peer_seen, ghost_timeout,
  local_clipboard_change, frame_received_clipboard, primary_failover, resolve_pending as resolves,
  sas_local_confirmed, sas_peer_confirmed, sas_peer_rejected, peer_revoked,
}
use fluxsync.Core.Fsm.{Phase, idle, discovering, handshaking, linked}
use fluxsync.Core.State.{HistoryItem, State, SasPhase, idle as sas_idle, peer_rejected}

abbrev vault_of : State → ℕ × List HistoryItem
vault_of s = (s.vault_wipe_gen, s.history)

abbrev counter_of : State → ℕ
counter_of s = s.vault_wipe_gen

counter-IsBesideRows : IsBesideRows counter_of
counter-IsBesideRows = record { rows = λ _ _. refl }

vault-IsApart : IsApart vault_of
vault-IsApart = record { pending = λ _ _. refl; published = λ _ _ _. refl }

-- Another device than the last one paired, while no further one is linked.
unfoldable pub takes_over : App → ℕ → Bool
takes_over a p =
    not (is_peer_mismatch a p)
    && not (p == 0)
    && (not (a.last_paired_peer_id == 0) && not (p == a.last_paired_peer_id))
    && not (other_peers_linked a)

abbrev pub wipes : App → Event → Bool
wipes a (clear_history include_favorites) = true
wipes a (untrusted_peer_seen name) = true
wipes a (peer_seen p name) = takes_over a p
wipes a e = false

-- The counter and the history behind an event that wipes, or does not.
abbrev pub After : Bool → State → ℕ × List HistoryItem → Type 0
After true s v = (v.0 ≡ (s.vault_wipe_gen + 1) % u64_range) × All (λ h. h.favorite ≡ true) v.1
After false s v = v.0 ≡ s.vault_wipe_gen

abbrev Leaves : App → Event → Option Prepared → Type 0
Leaves a e none = After (wipes a e) a.state (vault_of a.state)
Leaves a e (some p) = After (wipes a e) a.state (vault_of p.app.state)

retain-favorites :
    (hs : List HistoryItem) → All (λ h. h.favorite ≡ true) (retain (λ h. h.favorite) hs)
retain-favorites [] = tt
retain-favorites (h ∷ hs) = ground (arith, retain-favorites hs)

cleared-After : (s : State) (b : Bool) → After true s (vault_of (on_clear_history s b))
unfolding on_clear_history
cleared-After s true = (refl, tt)
cleared-After s false = (refl, retain-favorites s.history)

module _ (a : App) (p : ℕ) where
  abbrev other_device : Bool
  other_device = not (a.last_paired_peer_id == 0) && not (p == a.last_paired_peer_id)

  takes_mismatch : is_peer_mismatch a p ≡ true → takes_over a p ≡ false
  unfolding takes_over
  takes_mismatch h = rw h refl

  takes_unnamed : (p == 0) ≡ true → takes_over a p ≡ false
  unfolding takes_over
  takes_unnamed h = ground arith

  takes_same : other_device ≡ false → takes_over a p ≡ false
  unfolding takes_over
  takes_same h = ground arith

  takes_shared : other_peers_linked a ≡ true → takes_over a p ≡ false
  unfolding takes_over
  takes_shared h = ground arith

  takes_alone :
      is_peer_mismatch a p ≡ false
      → (p == 0) ≡ false
      → other_device ≡ true
      → other_peers_linked a ≡ false
      → takes_over a p ≡ true
  unfolding takes_over
  takes_alone m z w o = rw (m, z, w, o) refl

  After-take :
      (v : ℕ × List HistoryItem)
      → takes_over a p ≡ false
      → v.0 ≡ a.state.vault_wipe_gen
      → After (takes_over a p) a.state v
  After-take v h q = subst (λ b. After b a.state v) (sym h) q

  named_links : (name : String) → other_peers_linked (set_peer_name a name) ≡ other_peers_linked a
  unfolding other_peers_linked set_peer_name
  named_links name = refl

  seen-Leaves : (name : String) → Leaves a (peer_seen p name) (on_peer_seen a p name)
  unfolding on_peer_seen set_peer_name set_peer_id peer_swap drop_pending_for drop_pending_all
      wipe_history
  seen-Leaves name =
      let kept : (takes_over a p ≡ false) → After (takes_over a p) a.state (vault_of a.state) =
        λ h. After-take (vault_of a.state) h refl in
      elim (Bool-cases (is_peer_mismatch a p)) [
        | inl bad ↦ let t = kept (takes_mismatch bad) in rw bad t
        | inr fits ↦ elim (Bool-cases (p == 0)) [
          | inl unnamed ↦ let t = kept (takes_unnamed unnamed) in rw (fits, unnamed) t
          | inr named ↦ elim (Bool-cases other_device) [
            | inl swap ↦ elim (Bool-cases (other_peers_linked (set_peer_name a name))) [
              | inl others ↦
                  let t = kept (takes_shared (sym (named_links name) ∙ others)) in
                  rw (fits, named, swap, others) t
              | inr alone ↦
                  rw (fits, named, swap, alone)
                    (subst (λ b. After b a.state ((a.state.vault_wipe_gen + 1) % u64_range, []))
                      (sym (takes_alone fits named swap (sym (named_links name) ∙ alone)))
                      (refl, tt))
            ]
            | inr same ↦ let t = kept (takes_same same) in rw (fits, named, same) t
          ]
        ]
      ]

failover_kept :
    (a : App) (p : ℕ) (name platform : String) (caps : List String)
    → (on_failover a p name platform caps).state.vault_wipe_gen ≡ a.state.vault_wipe_gen
unfolding on_failover
failover_kept a p name platform caps =
    let s = a.state in
    let shown = record s {
      peer_name = name;
      peer_platform = platform;
      peer_caps = caps;
      peer_battery = 255;
      peer_charging = false;
    } in
    if_same (λ (x : App). x.state.vault_wipe_gen) (p == 0) (record a { state = shown })
      (record a { last_paired_peer_id = p; state = record shown { peer_id = p } }) refl refl

lost_kept : (s : State) (p : ℕ) → (on_peer_lost s p).vault_wipe_gen ≡ s.vault_wipe_gen
unfolding on_peer_lost
lost_kept s p =
    let gone = record s { peer_battery = 255; peer_charging = false } in
    if_same (λ x. x.vault_wipe_gen) (is_some_eq s.sas_peer p && is_in_flight s.sas_phase)
      (record gone { sas_phase = sas_idle; sas_peer = none }) gone refl refl

sas_kept :
    (s : State) (p : ℕ) (next : SasPhase) → (sas_to s p next).vault_wipe_gen ≡ s.vault_wipe_gen
unfolding sas_to
sas_kept s p next =
    if_same (λ x. x.vault_wipe_gen) (is_some_eq s.sas_peer p) (record s { sas_phase = next }) s refl
      refl

ghost_kept :
    (a : App) (p : Phase) → (on_ghost_timeout a p).app.state.vault_wipe_gen ≡ a.state.vault_wipe_gen
unfolding on_ghost_timeout drop_pending_for reset_sas forget_peer
ghost_kept a linked = refl
ghost_kept a idle = refl
ghost_kept a discovering = refl
ghost_kept a handshaking = refl

revoked_kept : (s : State) (p : ℕ) → (revoke_shown s p).vault_wipe_gen ≡ s.vault_wipe_gen
unfolding revoke_shown forget_peer
revoked_kept s p =
    let gone = forget_peer s in
    if_same (λ (x : State). x.vault_wipe_gen) (not (p == 0) && p == s.peer_id)
      (record gone { trusted_peer_name = none }) s refl refl

prepare-Leaves :
    (blake3 : Bytes → ℕ) (a : App) (e : Event) (wall : WallClock)
    → Leaves a e (prepare blake3 a e wall)
unfolding prepare on_untrusted_peer on_manual_unpair on_peer_revoked reset_sas forget_peer
    drop_pending_all drop_pending_for wipe_history
prepare-Leaves blake3 a (peer_seen p name) wall = seen-Leaves a p name
prepare-Leaves blake3 a (clear_history b) wall = cleared-After a.state b
prepare-Leaves blake3 a (untrusted_peer_seen name) wall = (refl, tt)
prepare-Leaves blake3 a (local_clipboard_change c) wall = copy_kept counter-IsBesideRows a c wall
prepare-Leaves blake3 a (frame_received_clipboard f) wall =
    frame_kept counter-IsBesideRows blake3 a f wall
prepare-Leaves blake3 a (peer_lost p) wall = lost_kept a.state p
prepare-Leaves blake3 a (primary_failover p name platform caps) wall =
    failover_kept a p name platform caps
prepare-Leaves blake3 a ghost_timeout wall = ghost_kept a a.phase
prepare-Leaves blake3 a (sas_local_confirmed p) wall =
    sas_kept a.state p (after_local_confirm a.state.sas_phase)
prepare-Leaves blake3 a (sas_peer_confirmed p) wall =
    sas_kept a.state p (after_peer_confirm a.state.sas_phase)
prepare-Leaves blake3 a (sas_peer_rejected p) wall = sas_kept a.state p peer_rejected
prepare-Leaves blake3 a (peer_revoked p) wall = revoked_kept (drop_pending_for a p).0.state p
prepare-Leaves blake3 a e wall = refl

finish-After :
    (a : App) (e : Event) (o : Option Prepared)
    → Leaves a e o
    → After (wipes a e) a.state (vault_of (finish_if a e o).0.state)
unfolding finish_if
finish-After a e none h = h
finish-After a e (some p) h =
    subst (After (wipes a e) a.state) (sym (finish_kept vault-IsApart e p)) h

-- The vault is wiped by exactly three events: the wish to clear the history, a peer that is not
-- trusted, and another device than the last one paired, announced with its id while no further one
-- is linked and no other peer is being linked. Then the wipe counter goes up by one, around 2 ^ 64,
-- and no row but favorites is left; every other event keeps the counter.
pub handle-wipes :
    (blake3 : Bytes → ℕ) (a : App) (e : Event) (wall : WallClock)
    → After (wipes a e) a.state (vault_of (handle blake3 a e wall).0.state)
unfolding handle drive resolve_pending
handle-wipes blake3 a (resolves hash allow) wall = refl
handle-wipes blake3 a e wall =
    finish-After a e (prepare blake3 a e wall) (prepare-Leaves blake3 a e wall)
