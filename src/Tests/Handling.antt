-- ===== src/Tests/Handling.antt =====
-- `handle` at concrete events.
use fluxsync.Base.{max, false, ◌≡◌, ◌≤◌, ◌⊎◌, refl, true, List, [], ◌∷◌, some, count}
use fluxsync.Core.App.{new_with_device, new, history_soft_cap}
use fluxsync.Core.App.Arms.{prepare}
use fluxsync.Core.App.Arms.Peers.{
  on_peer_seen, set_peer_name, set_peer_id, peer_swap, is_peer_mismatch,
}
use fluxsync.Core.App.Arms.Sas.{sas_to, after_local_confirm, after_peer_confirm}
use fluxsync.Core.App.Handle.{handle, drive, finish, finish_if, publish}
use fluxsync.Core.App.Handle.Identity.{may_bind, handle_binds}
use fluxsync.Core.App.Handle.Sas.{run, tally_run, no_tally, run_confirmed}
use fluxsync.Core.App.Handle.Wipes.{After, wipes, handle-wipes}
use fluxsync.Core.App.Handle.Traffic.{handle_acks}
use fluxsync.Core.App.Pending.{apply_firewall, judge, parked_of}
use fluxsync.Core.App.Reach.{IsSound, Reachable-IsSound, fresh, then_step, handled}
use fluxsync.Core.App.Rows.{IsFirst, pin_of, is_pinned, is_loose, push_row_keeps}
use fluxsync.Core.App.History.{push_row, same_row}
use fluxsync.Core.Clock.{WallClock}
use fluxsync.Core.Dedup
use fluxsync.Core.Events.{
  Event, local_clipboard_change, frame_received_clipboard, peer_seen, clear_history,
  sas_pairing_started, sas_local_confirmed, sas_peer_confirmed, toggle_on,
}
use fluxsync.Core.Fsm.{transition, linked}
use fluxsync.Core.Fsm.Laws.{is_ack}
use fluxsync.Core.State.{initial, confirmed}
use fluxsync.Tests.Fixtures.{
  digest, config, noon, phone, fresh_app, linked_app, hello, copied, row, pinned_row,
}

linked_app_links : linked_app.phase ≡ linked
unfolding handle drive prepare finish_if finish publish apply_firewall judge parked_of transition
    new_with_device new initial on_peer_seen set_peer_name set_peer_id peer_swap is_peer_mismatch
linked_app_links = refl

handle_acks_example :
    count (is_ack 77) (handle digest linked_app (frame_received_clipboard hello) noon).1 ≡ 1
handle_acks_example = handle_acks digest linked_app hello noon

handle_binds_example :
    let q = (handle digest linked_app (peer_seen 5 "thief") noon).0.state.peer_id in
    (q ≡ linked_app.state.peer_id) ⊎ (q ≡ 0) ⊎ (may_bind linked_app (peer_seen 5 "thief") q ≡ true)
handle_binds_example = handle_binds digest linked_app (peer_seen 5 "thief") noon

handle-wipes_example :
    let s = (handle digest linked_app (clear_history false) noon).0.state in
    After (wipes linked_app (clear_history false)) linked_app.state (s.vault_wipe_gen, s.history)
handle-wipes_example = handle-wipes digest linked_app (clear_history false) noon

Reachable-IsSound_example :
    IsSound
      (handle digest
        (handle digest fresh_app toggle_on noon).0
        (local_clipboard_change copied)
        noon).0
Reachable-IsSound_example =
    let on = (handle digest fresh_app toggle_on noon).0 in
    Reachable-IsSound digest tt (
      then_step (then_step (fresh config 7) (handled fresh_app toggle_on noon))
        (handled on (local_clipboard_change copied) noon))

abbrev verifying : List (Event × WallClock)
verifying =
    (sas_pairing_started phone, noon)
    ∷ (sas_local_confirmed phone, noon)
    ∷ (sas_peer_confirmed phone, noon)
    ∷ []

verifying_confirms : (run digest fresh_app verifying).state.sas_phase ≡ confirmed
unfolding handle drive prepare finish_if finish publish apply_firewall judge parked_of transition
    new_with_device new initial sas_to after_local_confirm after_peer_confirm
verifying_confirms = refl

run_confirmed_example :
    let s = (run digest fresh_app verifying).state in
    let t = tally_run no_tally verifying in
    (s.sas_peer ≡ some phone) × (t.local ≡ true) × (t.remote ≡ true)
run_confirmed_example = run_confirmed digest config 7 verifying verifying_confirms

push_row_keeps_example :
    IsFirst
      (record row { favorite = pin_of row (pinned_row ∷ []) })
      (push_row (pinned_row ∷ []) row)
    × (count (same_row row) (push_row (pinned_row ∷ []) row)
        ≤ max 1 (count (same_row row) (pinned_row ∷ [])))
    × (count is_pinned (push_row (pinned_row ∷ []) row) ≡ 1)
    × (count is_loose (push_row (pinned_row ∷ []) row) ≤ history_soft_cap)
push_row_keeps_example = push_row_keeps (pinned_row ∷ []) row refl
