-- ===== src/Core/App/Mesh/Laws.antt =====
-- What the mesh promises: links that do not disturb each other, and items that go round once.
use fluxsync.Base.{
  ℕ, ◌+◌, ◌≡◌, refl, ap, ◌∙◌, Bool, true, false, not, ◌&&◌, List, [], ◌∷◌, map, Option, none, some,
  arith, ◌==◌, ◌%◌, u64_range, if◌then◌else◌, any, any-append, retain, Bool-cases, inl, inr,
  pop_front, length,
}
use mathlib.Core.Option
use fluxsync.Base.BTree.{nat_ord, get}
use fluxsync.Base.BTree.Laws.{get-insert}
use fluxsync.Core.App.{App, PeerLink}
use fluxsync.Core.App.Mesh.{
  Ingest, apply, dropped, is_linked, link_phase, linked_peers, link_or_new, handle_peer,
  broadcast_local, next_local_event_id, ingest_remote,
}
use fluxsync.Core.Dedup.{push_back}
use fluxsync.Core.Events.{Bytes, Event, Action, send_item}
use fluxsync.Core.Fsm.{Phase, idle, transition}
use fluxsync.Core.Id.{DeviceId, EventId, event_eq}
use fluxsync.Core.Seen
use fluxsync.Core.Seen.{SeenSet}
use fluxsync.Proto.Types.{Kind}

event_eq_refl : (x : EventId) → event_eq x x ≡ true
event_eq_refl x = ground arith

observe-contains : (s : SeenSet) (x : EventId) → Seen.contains (Seen.observe s x).0 x ≡ true
unfolding Seen.contains Seen.observe push_back
observe-contains s x = elim (Bool-cases (any (event_eq x) s.inner)) [
  | inl old ↦ rw old old
  | inr new ↦ rw new (
      ground (
        arith,
        event_eq_refl x,
        any-append (event_eq x)
            (if length s.inner == s.capacity then pop_front s.inner else s.inner) (x ∷ []),
      ))
]

-- A device is linked.
abbrev pub is_linked_device : DeviceId → List (DeviceId × PeerLink) → Bool
is_linked_device d links = any (λ e. e.0 == d && is_linked e.1) links

any-targets :
    (d source origin : DeviceId) (links : List (DeviceId × PeerLink))
    → any
        (λ t. t == d)
        (map
          (λ e. e.0)
          (retain (λ e. is_linked e.1 && not (e.0 == source) && not (e.0 == origin)) links))
      ≡ (is_linked_device d links && not (d == source) && not (d == origin))
any-targets d source origin [] = refl
any-targets d source origin ((k, l) ∷ links) = ground (arith, any-targets d source origin links)

observe_contained :
    (s : SeenSet) (x : EventId) → Seen.contains s x ≡ true → Seen.observe s x ≡ (s, false)
unfolding Seen.observe
observe_contained s x h = rw h

observe_new : (s : SeenSet) (x : EventId) → Seen.contains s x ≡ false → (Seen.observe s x).1 ≡ true
unfolding Seen.observe
observe_new s x h = rw h

ingest_contained :
    (app : App) (source : DeviceId) (id : EventId)
    → Seen.contains app.seen id ≡ true
    → ingest_remote app source id ≡ (app, dropped)
unfolding ingest_remote
ingest_contained app source id h = rw (observe_contained app.seen id h)

abbrev targets : App → DeviceId → EventId → List DeviceId
targets app source id =
    map (λ e. e.0)
      (retain (λ e. is_linked e.1 && not (e.0 == source) && not (e.0 == id.origin)) app.links)

ingest_new :
    (app : App) (source : DeviceId) (id : EventId)
    → Seen.contains app.seen id ≡ false
    → ingest_remote app source id
      ≡ (record app { seen = (Seen.observe app.seen id).0 }, apply (targets app source id))
unfolding ingest_remote
ingest_new app source id h = rw (observe_new app.seen id h)

-- The verdict on an item passes it on to this device.
abbrev pub forwards : Ingest → DeviceId → Bool
forwards dropped d = false
forwards (apply targets) d = any (λ t. t == d) targets

-- An item from the mesh goes on exactly to the linked devices but its sender and its origin, and to
-- none if its id is known; and whichever peer brings it next, it is dropped and changes nothing.
pub ingest_remote_once :
    (app : App) (source : DeviceId) (id : EventId) (d again : DeviceId)
    → let (next, verdict) = ingest_remote app source id in
      (forwards verdict d ≡ (
        not (Seen.contains app.seen id)
        && is_linked_device d app.links
        && not (d == source)
        && not (d == id.origin)))
      × (ingest_remote next again id ≡ (next, dropped))
ingest_remote_once app source id d again = elim (Bool-cases (Seen.contains app.seen id)) [
  | inl old ↦ rw (ingest_contained app source id old, old) (refl, ingest_contained app again id old)
  | inr new ↦
      let next = record app { seen = (Seen.observe app.seen id).0 } in
      rw (ingest_new app source id new, new)
        (
          any-targets d source id.origin app.links,
          ingest_contained next again id (observe-contains app.seen id),
        )
]

sends_to : (d : DeviceId) → List (DeviceId × Action) → Bool
sends_to d sends = any (λ s. s.0 == d) sends

any-linked_peers :
    (d : DeviceId) (f : DeviceId → Action) (links : List (DeviceId × PeerLink))
    → sends_to d (map (λ e. (e, f e)) (map (λ e. e.0) (retain (λ e. is_linked e.1) links)))
      ≡ is_linked_device d links
unfolding sends_to
any-linked_peers d f [] = refl
any-linked_peers d f ((k, l) ∷ links) = ground (arith, any-linked_peers d f links)

abbrev own_id : App → EventId
own_id app = record { origin = app.self_device; seq = app.local_seq }

-- A local copy is sent to exactly the linked devices, under the next id of this device, and when
-- the mesh brings that id back it is dropped.
pub broadcast_local_once :
    (app : App) (hash : ℕ) (kind : Kind) (payload : Bytes) (sensitive : Bool) (d back : DeviceId)
    → let (next, id, sends) = broadcast_local app hash kind payload sensitive in
      (id.origin ≡ app.self_device)
      × (id.seq ≡ app.local_seq)
      × (next.local_seq ≡ (app.local_seq + 1) % u64_range)
      × (any (λ s. s.0 == d) sends ≡ is_linked_device d app.links)
      × (ingest_remote next back id ≡ (next, dropped))
unfolding broadcast_local next_local_event_id linked_peers sends_to
broadcast_local_once app hash kind payload sensitive d back =
    let id = own_id app in
    let next = record app {
      local_seq = (app.local_seq + 1) % u64_range;
      seen = (Seen.observe app.seen id).0;
    } in
    (
      refl,
      refl,
      refl,
      any-linked_peers d (λ _. send_item hash kind payload sensitive) app.links,
      ingest_contained next back id (observe-contains app.seen id),
    )

-- The phase of a link that may be new.
abbrev pub phase_or_idle : Option Phase → Phase
phase_or_idle none = idle
phase_or_idle (some p) = p

phase_or_idle-map :
    (o : Option PeerLink) → phase_or_idle (Option.map (λ l. l.phase) o) ≡ (link_or_new o).phase
unfolding link_or_new
phase_or_idle-map none = refl
phase_or_idle-map (some l) = refl

map-if :
    (b : Bool) (l : PeerLink) (o : Option PeerLink)
    → Option.map (λ l. l.phase) (if b then some l else o)
      ≡ (if b then some l.phase else Option.map (λ l. l.phase) o)
map-if true l o = refl
map-if false l o = refl

-- An event for one peer moves the link of that peer as the transition table says, from `idle` if it
-- is new, and leaves the phase of every other link.
pub handle_peer_moves :
    (app : App) (peer other : DeviceId) (e : Event)
    → let (next, actions) = handle_peer app peer e in
      let moved = transition (phase_or_idle (link_phase app peer)) e in
      (link_phase next other ≡ (if other == peer then some moved.0 else link_phase app other))
      × (actions ≡ moved.1)
unfolding handle_peer link_phase
handle_peer_moves app peer other e =
    let l = link_or_new (get peer app.links) in
    let moved = transition l.phase e in
    let links = app.links in
    rw (phase_or_idle-map (get peer links)) (
      ap (Option.map (λ l. l.phase)) (get-insert other peer (record l { phase = moved.0 }) links)
          ∙ map-if (other == peer) (record l { phase = moved.0 }) (get other links),
      refl,
    )
