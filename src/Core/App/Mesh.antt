-- ===== src/Core/App/Mesh.antt =====
-- crates/fluxsync-core/src/app.rs: the coordinator of several peers, each link with a phase of its
-- own, and the ids that keep an item from going round the mesh.
pub mod Laws
use fluxsync.Base.{
  ℕ, ◌+◌, ◌%◌, Bool, true, false, not, ◌&&◌, List, [], ◌∷◌, map, Option, none, some, ◌==◌,
  u64_range, if◌then◌else◌, retain,
}
use mathlib.Core.Option
use fluxsync.Base.BTree
use fluxsync.Base.BTree.{nat_ord}
use fluxsync.Proto.Types.{Kind}
use fluxsync.Core.App.{App, PeerLink, new_link}
use fluxsync.Core.Events.{Bytes, Event, Action, send_item}
use fluxsync.Core.Fsm.{Phase, idle, discovering, handshaking, linked, transition}
use fluxsync.Core.Id.{DeviceId, EventId}
use fluxsync.Core.Seen

pub data Ingest : Type 0 where
  apply : (forward_to : List DeviceId) → Ingest
  dropped : Ingest

abbrev pub is_linked : PeerLink → Bool
is_linked l = is_linked_phase l.phase
  where
    is_linked_phase : Phase → Bool
    is_linked_phase linked = true
    is_linked_phase idle = false
    is_linked_phase discovering = false
    is_linked_phase handshaking = false

unfoldable pub link_phase : App → DeviceId → Option Phase
link_phase app peer = Option.map (λ l. l.phase) (BTree.get peer app.links)

unfoldable pub linked_peers : App → List DeviceId
linked_peers app = map (λ e. e.0) (retain (λ e. is_linked e.1) app.links)

-- `entry(peer).or_default()`
unfoldable pub link_or_new : Option PeerLink → PeerLink
link_or_new none = new_link
link_or_new (some l) = l

unfoldable pub handle_peer : App → DeviceId → Event → App × List Action
unfolding link_or_new
handle_peer app peer event =
    let l = link_or_new (BTree.get peer app.links) in
    let (next, actions) = transition l.phase event in
    (record app { links = BTree.insert peer (record l { phase = next }) app.links }, actions)

unfoldable pub set_local_seq : App → ℕ → App
set_local_seq app seq = record app { local_seq = seq }

-- The counter is a `u64`.
unfoldable pub next_local_event_id : App → App × EventId
next_local_event_id app = (
  record app { local_seq = (app.local_seq + 1) % u64_range },
  record { origin = app.self_device; seq = app.local_seq },
)

unfoldable pub broadcast_local :
    App → ℕ → Kind → Bytes → Bool → App × EventId × List (DeviceId × Action)
unfolding next_local_event_id linked_peers
broadcast_local app hash kind payload sensitive =
    let (counted, id) = next_local_event_id app in
    (
      record counted { seen = (Seen.observe counted.seen id).0 },
      id,
      map (λ d. (d, send_item hash kind payload sensitive)) (linked_peers app),
    )

unfoldable pub ingest_remote : App → DeviceId → EventId → App × Ingest
ingest_remote app source event_id =
    let (seen, fresh) = Seen.observe app.seen event_id in
    let targets =
      retain (λ e. is_linked e.1 && not (e.0 == source) && not (e.0 == event_id.origin))
        app.links in
    if not fresh
    then (app, dropped)
    else (record app { seen = seen }, apply (map (λ e. e.0) targets))
