-- ===== src/Core/App/Reach.antt =====
-- crates/fluxsync-core/src/app.rs: the runs of the app. A step is one call of a public method of
-- `App` that changes it; what holds of every app that such calls lead to is here.
use fluxsync.Base.{
  ℕ, ◌≡◌, refl, subst, Bool, false, not, List, [], ◌∷◌, ◌++◌, String, Option, arith, ◌==◌, if_holds,
  All, All-retain, ltb, min, u64_max, any, take, retain, length, ◌*◌, ◌||◌,
}
use fluxsync.Core.App.{
  App, rename, is_bidi_or_format_char, max_hello_name, new, new_with_device, set_metrics,
  set_latency, set_device_name, set_firewall, set_other_linked_peers, hex32,
}
use fluxsync.Core.App.Handle.{handle}
use fluxsync.Core.App.Handle.Keeps.{handle_keeps}
use fluxsync.Core.App.Handle.Ring.{HasRing, ring_survives, seed-IsRing}
use fluxsync.Core.App.Handle.Secrets.{IsPlain, HasNoSecret, secrets_survive, All-cap_from}
use fluxsync.Core.App.Handle.Shown.{IsShown, handle-IsShown}
use fluxsync.Core.App.History.{
  expire_history, set_history_retention, mark_delivered, is_kept, retention_choices, add_device,
  or_empty, has_row, cap_history_keeping_favorites,
}
use fluxsync.Core.App.Mesh.{
  handle_peer, set_local_seq, next_local_event_id, broadcast_local, ingest_remote, Ingest, dropped,
}
use fluxsync.Core.App.Restore.{restore_history}
use fluxsync.Core.Clock.{WallClock}
use fluxsync.Core.Dedup
use fluxsync.Core.Seen
use fluxsync.Base.BTree
use fluxsync.Base.BTree.{string_ord}
use fluxsync.Base.Text.{trim, is_empty as is_empty_text, any_char, is_control}
use Prim.Native.String.{len}
use fluxsync.Core.Error.{Result, ok, err, invalid_device_name, invalid_retention}
use fluxsync.Core.Events.{Bytes, Event}
use fluxsync.Core.Id.{DeviceId, EventId}
use fluxsync.Core.Policy.{FirewallPolicy}
use fluxsync.Core.State.{Config, ConnectionMetrics, HistoryItem, initial, status_for}
use fluxsync.Proto.Types.{Kind}

-- A result that is ok carries a value of which this holds.
abbrev OnOk {ℓ κ} : {A : Type ℓ} → (A → Type κ) → Result A → Type κ
OnOk P (ok a) = P a
OnOk P (err e) = Unit

-- A step, with the rows that it brings from outside.
pub data Step (blake3 : Bytes → ℕ) : List HistoryItem → App → App → Type 0 where
  handled : (a : App) (e : Event) (wall : WallClock) → Step blake3 [] a (handle blake3 a e wall).0
  renamed : (a b : App) (name : String) → set_device_name a name ≡ ok b → Step blake3 [] a b
  retained :
      (a b : App) (secs now : ℕ) → set_history_retention a secs now ≡ ok b → Step blake3 [] a b
  expired : (a : App) (now : ℕ) → Step blake3 [] a (expire_history a now).0
  delivered :
      (a : App) (hash : ℕ) (device : String) → Step blake3 [] a (mark_delivered a hash device).0
  firewall_set : (a : App) (policy : FirewallPolicy) → Step blake3 [] a (set_firewall a policy)
  measured : (a : App) (m : Option ConnectionMetrics) → Step blake3 [] a (set_metrics a m)
  latency_set : (a : App) (ms : ℕ) → Step blake3 [] a (set_latency a ms)
  peers_set : (a : App) (peers : List ℕ) → Step blake3 [] a (set_other_linked_peers a peers)
  peer_handled : (a : App) (peer : DeviceId) (e : Event) → Step blake3 [] a (handle_peer a peer e).0
  seq_set : (a : App) (seq : ℕ) → Step blake3 [] a (set_local_seq a seq)
  id_taken : (a : App) → Step blake3 [] a (next_local_event_id a).0
  broadcast :
      (a : App) (hash : ℕ) (k : Kind) (p : Bytes) (b : Bool)
      → Step blake3 [] a (broadcast_local a hash k p b).0
  ingested :
      (a : App) (source : DeviceId) (id : EventId) → Step blake3 [] a (ingest_remote a source id).0
  restored : (a : App) (items : List HistoryItem) → Step blake3 items a (restore_history a items)

-- The apps that a run of a fresh one leads to, with all the rows that the run restored.
pub data Reachable (blake3 : Bytes → ℕ) : List HistoryItem → App → Type 0 where
  fresh :
      (config : Config) (device : DeviceId) → Reachable blake3 [] (new_with_device config device)
  then_step :
      {given more : List HistoryItem} {a b : App}
      → Reachable blake3 given a
      → Step blake3 more a b
      → Reachable blake3 (more ++ given) b

abbrev pub IsSound : App → Type 0
IsSound app = HasNoSecret app × HasRing app × IsShown app

new-IsSound : (config : Config) (device : DeviceId) → IsSound (new_with_device config device)
unfolding new_with_device new initial Dedup.new status_for
new-IsSound config device =
    (tt, (record { bounded = omega arith; distinct = tt }, refl), (refl, refl))

rename-IsSound : (a : App) (name : String) → IsSound a → OnOk IsSound (set_device_name a name)
unfolding set_device_name rename status_for
rename-IsSound a name q =
    let trimmed = trim name in
    let bad = any_char (λ c. is_control c || is_bidi_or_format_char c) trimmed in
    if_holds (OnOk IsSound) (is_empty_text trimmed) (err (invalid_device_name "name is empty")) _ tt
      (if_holds (OnOk IsSound) (ltb max_hello_name (len trimmed))
        (err (invalid_device_name "name exceeds 256 bytes")) _ tt
        (if_holds (OnOk IsSound) bad
          (err (invalid_device_name "name contains non-printable or bidi/format characters"))
          (ok (rename a trimmed)) tt q))

expire-IsSound : (a : App) (now : ℕ) → IsSound a → IsSound (expire_history a now).0
unfolding expire_history status_for
expire-IsSound a now q =
    let s = a.state in
    let kept = retain (is_kept now (min (s.history_retention_secs * 1000) u64_max)) s.history in
    if_holds (λ (r : App × Bool). IsSound r.0) (s.history_retention_secs == 0) (a, false)
      (record a { state = record s { history = kept } }, not (length kept == length s.history)) q
      (
        All-retain IsPlain (is_kept now (min (s.history_retention_secs * 1000) u64_max)) s.history
            q.0,
        q.1,
        q.2,
      )

retention-IsSound :
    (a : App) (secs now : ℕ) → IsSound a → OnOk IsSound (set_history_retention a secs now)
unfolding set_history_retention status_for
retention-IsSound a secs now q =
    let s = a.state in
    let set = record a { state = record s { history_retention_secs = secs } } in
    if_holds (OnOk IsSound) (any (λ c. c == secs) retention_choices) (ok (expire_history set now).0)
      (err (invalid_retention secs)) (expire-IsSound set now q) tt

Step-IsSound :
    (blake3 : Bytes → ℕ) {more : List HistoryItem} {a b : App}
    → All IsPlain more
    → Step blake3 more a b
    → IsSound a
    → IsSound b
unfolding mark_delivered set_firewall set_metrics set_latency set_other_linked_peers handle_peer
    set_local_seq next_local_event_id broadcast_local ingest_remote restore_history
    cap_history_keeping_favorites status_for
Step-IsSound blake3 plain (handled a e wall) q = (
  handle_keeps (secrets_survive blake3) a e wall q.0,
  handle_keeps (ring_survives blake3) a e wall q.1,
  handle-IsShown blake3 a e wall q.2,
)
Step-IsSound blake3 plain (renamed a b name h) q = subst (OnOk IsSound) h (rename-IsSound a name q)
Step-IsSound blake3 plain (retained a b secs now h) q =
    subst (OnOk IsSound) h (retention-IsSound a secs now q)
Step-IsSound blake3 plain (expired a now) q = expire-IsSound a now q
Step-IsSound blake3 plain (delivered a hash device) q =
    let s = a.state in
    let key = hex32 hash in
    let live = retain (λ (e : String × List String). has_row s.history e.0) s.delivered in
    let (devices, added) = add_device device (or_empty (BTree.get key live)) in
    if_holds (λ (r : App × Bool). IsSound r.0) (has_row s.history key)
      (record a { state = record s { delivered = BTree.insert key devices live } }, added)
      (a, false) q q
Step-IsSound blake3 plain (ingested a source id) q =
    let (seen, new_one) = Seen.observe a.seen id in
    if_holds (λ (r : App × Ingest). IsSound r.0) (not new_one) (a, dropped)
      (record a { seen = seen }, _) q q
Step-IsSound blake3 plain (restored a items) q = (
  All-cap_from 0 items plain,
  seed-IsRing (take a.dedup.capacity (cap_history_keeping_favorites items)) a.dedup q.1,
  q.2,
)
Step-IsSound blake3 plain (firewall_set a policy) q = q
Step-IsSound blake3 plain (measured a m) q = q
Step-IsSound blake3 plain (latency_set a ms) q = q
Step-IsSound blake3 plain (peers_set a peers) q = q
Step-IsSound blake3 plain (peer_handled a peer e) q = q
Step-IsSound blake3 plain (seq_set a seq) q = q
Step-IsSound blake3 plain (id_taken a) q = q
Step-IsSound blake3 plain (broadcast a hash k p b) q = q

All-split : (xs ys : List HistoryItem) → All IsPlain (xs ++ ys) → All IsPlain xs × All IsPlain ys
All-split [] ys h = (tt, h)
All-split (x ∷ xs) ys h = let rest = All-split xs ys h.1 in ((h.0, rest.0), rest.1)

-- In every app that calls of its public methods lead to from a fresh one, where none of the rows that
-- `restore_history` was given on the way is sensitive: no row of the history is sensitive, the dedup
-- ring holds fifty contents at most and none twice, and the state shows the phase of the machine and
-- the status that follows from the switch.
pub Reachable-IsSound :
    (blake3 : Bytes → ℕ) {given : List HistoryItem} {a : App}
    → All IsPlain given
    → Reachable blake3 given a
    → IsSound a
Reachable-IsSound blake3 plain (fresh config device) = new-IsSound config device
Reachable-IsSound blake3 plain (then_step {given} {more} r s) =
    let (new_ones, old_ones) = All-split more given plain in
    Step-IsSound blake3 new_ones s (Reachable-IsSound blake3 old_ones r)
