-- ===== src/Core/App/Handle/Kept.antt =====
-- The parts of the state that the stages behind the arms of `handle` leave alone.
use fluxsync.Base.{
  if◌then◌else◌, ℕ, not, ◌≡◌, refl, ◌∙◌, List, [], ◌∷◌, ◌++◌, String, Option, none, some, if_same,
}
use fluxsync.Base.BTree
use fluxsync.Base.BTree.{string_ord}
use fluxsync.Core.App.{App, hex32}
use fluxsync.Core.App.Arms.Outcome.{Prepared, changed}
use fluxsync.Core.App.Arms.Clips.{
  on_local_change, local_row, on_frame, record_frame, remote_row, dedup_frame,
}
use fluxsync.Core.App.Canon.{content_digest}
use fluxsync.Core.App.History.{push_history}
use fluxsync.Core.Clock.{WallClock}
use fluxsync.Core.Clock
use fluxsync.Core.Dedup.{observe_clipboard}
use fluxsync.Core.App.Handle.{finish, finish_actions, suppressed_actions, publish, phase_name}
use fluxsync.Core.App.Pending.{
  apply_firewall, judge, gate, park_pending, payload_half, display_half, Parked, parked_of,
}
use fluxsync.Core.Events.{Event, Action, Bytes, LocalCopy, ReceivedFrame}
use fluxsync.Core.Fsm.{Phase, transition}
use fluxsync.Core.Policy.{Decision, pass, defer, block, decide}
use fluxsync.Core.State.{State, Status, PendingItem, HistoryItem, status_for}

-- A reading of the state that looks at none of phase, status and parked rows.
pub record IsApart {ℓ} {C : Type ℓ} (g : State → C) : Type ℓ where
  pub pending : (s : State) (rows : List PendingItem) → g (record s { pending = rows }) ≡ g s
  pub published :
      (s : State) (name : String) (status : Status)
      → g (record s { phase = name; status = status }) ≡ g s

module _ {ℓ} {C : Type ℓ} {g : State → C} (apart : IsApart g) where
  abbrev of : App → C
  of a = g a.state

  park_kept : (a : App) (p : Parked) → of (park_pending a p) ≡ of a
  unfolding park_pending
  park_kept a p =
      let s = a.state in
      let parked = record a {
        pending_payloads = BTree.insert (hex32 p.hash) (payload_half p) a.pending_payloads;
        state = record s { pending = s.pending ++ display_half p ∷ [] };
      } in
      if_same of (BTree.contains_key (hex32 p.hash) a.pending_payloads) a parked refl
        (apart.pending s (s.pending ++ display_half p ∷ []))

  gate_kept : (a : App) (p : Parked) (xs : List Action) (d : Decision) → of (gate a p xs d).0 ≡ of a
  unfolding gate
  gate_kept a p xs pass = refl
  gate_kept a p xs block = refl
  gate_kept a p xs defer = park_kept a p

  judge_kept : (a : App) (xs : List Action) (o : Option Parked) → of (judge a xs o).0 ≡ of a
  unfolding judge
  judge_kept a xs none = refl
  judge_kept a xs (some p) =
      gate_kept a p xs (decide a.config.firewall p.kind p.sensitive p.direction)

  publish_kept : (a : App) (next : Phase) → of (publish a next) ≡ of a
  unfolding publish
  publish_kept a next = apart.published a.state (phase_name next) (status_for a.state)

  -- What an arm leaves is what `handle` leaves.
  pub finish_kept : (e : Event) (p : Prepared) → g (finish e p).0.state ≡ g p.app.state
  unfolding finish apply_firewall
  finish_kept e p =
      let (next, actions) = transition p.app.phase e in
      let (app, gated) = apply_firewall p.app e actions in
      let sent = finish_actions app e p.suppress_resync_apply p.pending_dropped gated in
      if_same (λ (r : App × List Action). g r.0.state) p.suppress_action
        (p.app, suppressed_actions e) (publish app next, sent) refl
        (publish_kept app next ∙ judge_kept p.app actions (parked_of e))

-- A reading that does not look at the history.
pub record IsBesideRows {ℓ} {C : Type ℓ} (g : State → C) : Type ℓ where
  pub rows : (s : State) (history : List HistoryItem) → g (record s { history = history }) ≡ g s

module _ {ℓ} {C : Type ℓ} {g : State → C} (beside : IsBesideRows g) where
  push_kept : (a : App) (item : HistoryItem) → g (push_history a item).state ≡ g a.state
  unfolding push_history
  push_kept a item = beside.rows a.state (push_history a item).state.history

  pub copy_kept :
      (a : App) (c : LocalCopy) (wall : WallClock)
      → g (on_local_change a c wall).app.state ≡ g a.state
  unfolding on_local_change
  copy_kept a c wall =
      let (ring, fresh) = observe_clipboard a.dedup c.hash wall.unix_millis in
      let seen = record a { clock = Clock.observe a.clock c.lamport; dedup = ring } in
      let pushed = push_history seen (local_row c wall) in
      if_same (λ (p : Prepared). g p.app.state) (not fresh) _
        (changed (if not c.sensitive then pushed else seen)) refl
        (if_same (λ (x : App). g x.state) (not c.sensitive) pushed seen
          (push_kept seen (local_row c wall)) refl)

  pub frame_kept :
      (blake3 : Bytes → ℕ) (a : App) (f : ReceivedFrame) (wall : WallClock)
      → g (on_frame blake3 a f wall).app.state ≡ g a.state
  unfolding on_frame record_frame
  frame_kept blake3 a f wall =
      let (ring, duplicate) =
        dedup_frame a.dedup f (content_digest blake3 f.kind f.payload) wall.unix_millis in
      let seen = record a { clock = Clock.observe a.clock f.lamport; dedup = ring } in
      if_same (λ (x : App). g x.state) duplicate seen (record_frame seen f wall) refl
        (if_same (λ (x : App). g x.state) _ (push_history seen (remote_row f wall)) seen
          (push_kept seen (remote_row f wall)) refl)
