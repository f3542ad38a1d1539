-- ===== src/Core/App/Handle/Ring.antt =====
-- The dedup ring of the app keeps its shape and its capacity under every event.
use fluxsync.Base.{
  ℕ, ◌<◌, ◌≡◌, subst, sym, Bool, true, not, ◌&&◌, List, [], ◌∷◌, Option, none, some, arith,
  Bool-cases, inl, inr, if_holds,
}
use fluxsync.Core.App.{App}
use fluxsync.Core.App.Arms.Clips.{on_local_change, on_frame, record_frame, remote_row, dedup_frame}
use fluxsync.Core.App.Arms.Peers.{wipe_history}
use fluxsync.Core.App.Canon.{content_digest}
use fluxsync.Core.App.Handle.Keeps.{Survives}
use fluxsync.Core.App.Handle.Secrets.{gate_history}
use fluxsync.Core.App.History.{push_history}
use fluxsync.Core.App.Restore.{seed, observe_decoded, hex32_decode}
use fluxsync.Core.App.Pending.{resolve_pending, drop_pending_all, drop_pending_for}
use fluxsync.Core.Clock.{WallClock}
use fluxsync.Core.Clock
use fluxsync.Core.Dedup.{DedupRing, observe_clipboard, contains, dedup_capacity}
use fluxsync.Core.Dedup.Shape.{
  IsWellFormed, observe-IsWellFormed, observe-capacity, observe_clipboard-IsWellFormed,
  observe_clipboard-capacity,
}
use fluxsync.Core.State.{HistoryItem}
use fluxsync.Core.Events.{Bytes, LocalCopy, ReceivedFrame}

-- A ring in shape, of the capacity that `App::new` gives it.
abbrev pub IsRing : DedupRing → Type 0
IsRing r = IsWellFormed r × (r.capacity ≡ dedup_capacity)

abbrev pub HasRing : App → Type 0
HasRing app = IsRing app.dedup

positive : (r : DedupRing) → IsRing r → 0 < r.capacity
positive r q = omega (arith, q.1)

observe_clipboard-IsRing :
    (r : DedupRing) (h now : ℕ) → IsRing r → IsRing (observe_clipboard r h now).0
observe_clipboard-IsRing r h now q = (
  observe_clipboard-IsWellFormed r h now (positive r q) q.0,
  rw (observe_clipboard-capacity r h now) q.1,
)

copy_keeps :
    (a : App) (c : LocalCopy) (wall : WallClock)
    → HasRing a
    → HasRing (on_local_change a c wall).app
unfolding on_local_change push_history
copy_keeps a c wall q =
    let ring = observe_clipboard-IsRing a.dedup c.hash wall.unix_millis q in
    elim (Bool-cases (observe_clipboard a.dedup c.hash wall.unix_millis).1) [
      | inl fresh ↦ rw fresh (elim (Bool-cases c.sensitive) [
        | inl secret ↦ rw secret ring
        | inr plain ↦ rw plain ring
      ])
      | inr echo ↦ rw echo ring
    ]

dedup_frame-IsRing :
    (r : DedupRing) (f : ReceivedFrame) (digest now : ℕ)
    → IsRing r
    → IsRing (dedup_frame r f digest now).0
unfolding dedup_frame
dedup_frame-IsRing r f digest now q =
    let (next, fresh) = observe_clipboard r digest now in
    if_holds (λ (x : DedupRing × Bool). IsRing x.0) (f.resync && contains r digest) (r, true)
      (next, not fresh) q (observe_clipboard-IsRing r digest now q)

record_frame_ring :
    (a : App) (f : ReceivedFrame) (wall : WallClock) → HasRing a → HasRing (record_frame a f wall)
unfolding record_frame push_history
record_frame_ring a f wall q = if_holds HasRing _ (push_history a (remote_row f wall)) a q q

frame_keeps :
    (blake3 : Bytes → ℕ) (a : App) (f : ReceivedFrame) (wall : WallClock)
    → HasRing a
    → HasRing (on_frame blake3 a f wall).app
unfolding on_frame
frame_keeps blake3 a f wall q =
    let digest = content_digest blake3 f.kind f.payload in
    let (ring, duplicate) = dedup_frame a.dedup f digest wall.unix_millis in
    let seen = record a { clock = Clock.observe a.clock f.lamport; dedup = ring } in
    let kept = dedup_frame-IsRing a.dedup f digest wall.unix_millis q in
    if_holds HasRing duplicate seen (record_frame seen f wall) kept
      (record_frame_ring seen f wall kept)

pub ring_survives : (blake3 : Bytes → ℕ) → Survives blake3 HasRing
unfolding drop_pending_for drop_pending_all wipe_history resolve_pending
ring_survives blake3 = record {
  agree = λ a b same q. subst IsRing same.3 q;
  drop_for = λ a peer_id q. q;
  drop_all = λ a q. q;
  wipe = λ a q. q;
  copy = copy_keeps;
  frame = frame_keeps blake3;
  favorite = λ a hash b q. q;
  clear = λ a b q. q;
  gate = λ a e xs q. subst IsRing (sym (gate_history a e xs).1) q;
  resolve = λ a hash allow q. q;
}

observe_decoded-IsRing : (r : DedupRing) (o : Option ℕ) → IsRing r → IsRing (observe_decoded r o)
unfolding observe_decoded
observe_decoded-IsRing r none q = q
observe_decoded-IsRing r (some h) q =
    (observe-IsWellFormed r h (positive r q) q.0, rw (observe-capacity r h) q.1)

-- The rows of the vault leave the ring in shape.
pub seed-IsRing : (items : List HistoryItem) (r : DedupRing) → IsRing r → IsRing (seed items r)
unfolding seed
seed-IsRing [] r q = q
seed-IsRing (item ∷ items) r q =
    observe_decoded-IsRing (seed items r) (hex32_decode item.hash) (seed-IsRing items r q)
