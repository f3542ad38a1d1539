-- ===== src/Core/App/Handle/Secrets.antt =====
-- Sensitive content never reaches the history: the list on screen, its capped copy and the vault
-- that is written from it.
use package.text.Mathlib.Text.{◌==◌ as str_eq}
use fluxsync.Base.{
  ℕ, zero, suc, ◌+◌, ◌≡◌, refl, subst, sym, Bool, true, false, not, ◌&&◌, ◌||◌, List, [], ◌∷◌, map,
  String, Option, none, some, arith, if◌then◌else◌, position, remove_at, All, All-retain, if_holds,
  if_same, if_split, leb, ltb, length,
}
use fluxsync.Core.App.{App, history_soft_cap}
use fluxsync.Core.App.Arms.Clips.{
  on_local_change, local_row, on_frame, remote_row, record_frame, dedup_frame, is_pass,
  set_favorite_row, on_clear_history,
}
use fluxsync.Core.App.Arms.Outcome.{Prepared, changed}
use fluxsync.Core.App.Arms.Peers.{wipe_history}
use fluxsync.Core.App.Canon.{content_digest}
use fluxsync.Core.App.Handle.Keeps.{Survives}
use fluxsync.Core.App.Handle.Agree.{history_cleared}
use fluxsync.Core.App.History.{
  cap_from, cap_history_keeping_favorites, cap_if_long, take_row, push_row, push_history, same_row,
}
use fluxsync.Core.App.Pending.{
  resolve_pending, drop_pending_all, drop_pending_for, apply_firewall, judge, gate, park_pending,
  Parked, parked_of,
}
use fluxsync.Core.Clock.{WallClock}
use fluxsync.Core.Clock
use fluxsync.Core.Dedup.{observe_clipboard}
use fluxsync.Core.Events.{Bytes, LocalCopy, ReceivedFrame, Event, Action}
use fluxsync.Core.Policy.{Decision, pass, defer, block, decide, inbound}
use fluxsync.Core.State.{HistoryItem}

abbrev pub IsPlain : HistoryItem → Type 0
IsPlain h = h.sensitive ≡ false

abbrev pub HasNoSecret : App → Type 0
HasNoSecret app = All IsPlain app.state.history

All-remove_at : (hs : List HistoryItem) (i : ℕ) → All IsPlain hs → All IsPlain (remove_at hs i)
All-remove_at [] i q = tt
All-remove_at (h ∷ hs) zero q = q.1
All-remove_at (h ∷ hs) (suc i) q = (q.0, All-remove_at hs i q.1)

pub All-cap_from : (n : ℕ) (hs : List HistoryItem) → All IsPlain hs → All IsPlain (cap_from n hs)
unfolding cap_from
All-cap_from n [] q = tt
All-cap_from n (h ∷ hs) q =
    let rest = cap_from (if h.favorite then n else n + 1) hs in
    let k = All-cap_from (if h.favorite then n else n + 1) hs q.1 in
    if_holds (All IsPlain) (h.favorite || leb (n + 1) history_soft_cap) (h ∷ rest) rest (q.0, k) k

All-take_row :
    (hs : List HistoryItem) (item : HistoryItem) (o : Option ℕ)
    → IsPlain item
    → All IsPlain hs
    → All IsPlain (take_row hs item o)
unfolding take_row
All-take_row hs item none p q = (p, q)
All-take_row hs item (some i) p q = (p, All-remove_at hs i q)

All-push_row :
    (hs : List HistoryItem) (item : HistoryItem)
    → IsPlain item
    → All IsPlain hs
    → All IsPlain (push_row hs item)
unfolding push_row cap_if_long cap_history_keeping_favorites
All-push_row hs item p q =
    let taken = take_row hs item (position (same_row item) hs) in
    let k = All-take_row hs item (position (same_row item) hs) p q in
    if_holds (All IsPlain) (ltb history_soft_cap (length taken)) (cap_from 0 taken) taken
      (All-cap_from 0 taken k) k

not-true : (b : Bool) → not b ≡ true → b ≡ false
not-true b h = ground arith

not-true_and : (b c : Bool) → (not b && c) ≡ true → b ≡ false
not-true_and b c h = ground arith

abbrev suppressed : App → Prepared
suppressed seen = record {
  app = seen;
  suppress_action = true;
  suppress_resync_apply = false;
  pending_dropped = [];
}

copy_keeps :
    (a : App) (c : LocalCopy) (wall : WallClock)
    → HasNoSecret a
    → HasNoSecret (on_local_change a c wall).app
unfolding on_local_change push_history local_row
copy_keeps a c wall q =
    let (ring, fresh) = observe_clipboard a.dedup c.hash wall.unix_millis in
    let seen = record a { clock = Clock.observe a.clock c.lamport; dedup = ring } in
    let pushed = push_history seen (local_row c wall) in
    let shown = if not c.sensitive then pushed else seen in
    if_holds (λ (p : Prepared). HasNoSecret p.app) (not fresh) (suppressed seen) (changed shown) q
      (if_split HasNoSecret (not c.sensitive) pushed seen
        (λ plain. All-push_row a.state.history (local_row c wall) (not-true c.sensitive plain) q)
        (λ _. q))

record_frame_plain :
    (a : App) (f : ReceivedFrame) (wall : WallClock)
    → HasNoSecret a
    → HasNoSecret (record_frame a f wall)
unfolding record_frame push_history remote_row
record_frame_plain a f wall q =
    if_split HasNoSecret
      (not f.sensitive && is_pass (decide a.config.firewall f.kind f.sensitive inbound))
      (push_history a (remote_row f wall)) a
      (λ admitted.
        All-push_row a.state.history (remote_row f wall) (not-true_and f.sensitive _ admitted) q)
      (λ _. q)

frame_keeps :
    (blake3 : Bytes → ℕ) (a : App) (f : ReceivedFrame) (wall : WallClock)
    → HasNoSecret a
    → HasNoSecret (on_frame blake3 a f wall).app
unfolding on_frame
frame_keeps blake3 a f wall q =
    let (ring, duplicate) =
      dedup_frame a.dedup f (content_digest blake3 f.kind f.payload) wall.unix_millis in
    let seen = record a { clock = Clock.observe a.clock f.lamport; dedup = ring } in
    if_holds HasNoSecret duplicate seen (record_frame seen f wall) q
      (record_frame_plain seen f wall q)

favorite_keeps :
    (hash : String) (b : Bool) (hs : List HistoryItem)
    → All IsPlain hs
    → All IsPlain (map (set_favorite_row hash b) hs)
unfolding set_favorite_row
favorite_keeps hash b [] q = tt
favorite_keeps hash b (h ∷ hs) q = (
  if_holds IsPlain (str_eq h.hash hash) (record h { favorite = b }) h q.0 q.0,
  favorite_keeps hash b hs q.1,
)

clear_keeps : (a : App) (b : Bool) → HasNoSecret a → HasNoSecret (history_cleared a b)
unfolding on_clear_history
clear_keeps a true q = tt
clear_keeps a false q = All-retain IsPlain (λ h. h.favorite) a.state.history q

park_pending_history :
    (a : App) (p : Parked)
    → ((park_pending a p).state.history ≡ a.state.history) × ((park_pending a p).dedup ≡ a.dedup)
unfolding park_pending
park_pending_history a p = (
  if_same (λ (x : App). x.state.history) _ a _ refl refl,
  if_same (λ (x : App). x.dedup) _ a _ refl refl,
)

abbrev SameLog : App → App → Type 0
SameLog a b = (b.state.history ≡ a.state.history) × (b.dedup ≡ a.dedup)

gate_log : (a : App) (p : Parked) (xs : List Action) (d : Decision) → SameLog a (gate a p xs d).0
unfolding gate
gate_log a p xs pass = (refl, refl)
gate_log a p xs block = (refl, refl)
gate_log a p xs defer = park_pending_history a p

judge_log : (a : App) (xs : List Action) (o : Option Parked) → SameLog a (judge a xs o).0
unfolding judge
judge_log a xs none = (refl, refl)
judge_log a xs (some p) = gate_log a p xs (decide a.config.firewall p.kind p.sensitive p.direction)

-- The gate touches neither the history nor the dedup ring.
pub gate_history :
    (a : App) (e : Event) (xs : List Action)
    → let gated = (apply_firewall a e xs).0 in
      (gated.state.history ≡ a.state.history) × (gated.dedup ≡ a.dedup)
unfolding apply_firewall
gate_history a e xs = judge_log a xs (parked_of e)

pub secrets_survive : (blake3 : Bytes → ℕ) → Survives blake3 HasNoSecret
unfolding drop_pending_for drop_pending_all wipe_history resolve_pending
secrets_survive blake3 = record {
  agree = λ a b same q. subst (All IsPlain) same.0 q;
  drop_for = λ a peer_id q. q;
  drop_all = λ a q. q;
  wipe = λ a q. tt;
  copy = copy_keeps;
  frame = frame_keeps blake3;
  favorite = λ a hash b q. favorite_keeps hash b a.state.history q;
  clear = clear_keeps;
  gate = λ a e xs q. subst (All IsPlain) (sym (gate_history a e xs).0) q;
  resolve = λ a hash allow q. q;
}
