-- ===== src/Core/App/Pending.antt =====
-- crates/fluxsync-core/src/app.rs: the clipboard firewall's gate and its parking lot. The display
-- rows are in `state.pending`, the payloads in `pending_payloads`, both under the hex of the hash.
use mathlib.Core.Option
use package.text.Mathlib.Text.{◌==◌ as str_eq}
use fluxsync.Base.{
  ℕ, Bool, true, false, not, List, [], ◌∷◌, ◌++◌, map, String, Option, none, some, if◌then◌else◌,
  any, retain, is_some_eq,
}
use fluxsync.Base.Text.{trim}
use fluxsync.Base.BTree
use fluxsync.Base.BTree.{string_ord}
use fluxsync.Proto.Types.{Kind}
use fluxsync.Core.App.{App, PendingPayload, hex32}
use fluxsync.Core.Events.{
  Bytes, Event, local_clipboard_change, frame_received_clipboard, Action, send_item,
  write_clipboard, emit_state,
}
use fluxsync.Core.Policy.{Direction, inbound, outbound, Decision, pass, defer, block, decide}
use fluxsync.Core.State.{PendingItem}

abbrev pub not_send : Action → Bool
not_send (send_item h k p s) = false
not_send _ = true

abbrev pub not_write : Action → Bool
not_write (write_clipboard k p s) = false
not_write _ = true

unfoldable pub strip_sync_action : Direction → List Action → List Action
strip_sync_action outbound actions = retain not_send actions
strip_sync_action inbound actions = retain not_write actions

-- A parked item, before it is split in its two halves.
pub record Parked : Type 0 where
  pub direction : Direction
  pub kind : Kind
  pub sensitive : Bool
  pub hash : ℕ
  pub payload : Bytes
  pub preview : String
  pub peer_id : Option ℕ

unfoldable pub payload_half : Parked → PendingPayload
payload_half p = record {
  direction = p.direction;
  kind = p.kind;
  payload = p.payload;
  sensitive = p.sensitive;
  hash = p.hash;
  peer_id = p.peer_id;
}

unfoldable pub display_half : Parked → PendingItem
unfolding trim hex32
display_half p = record {
  hash = hex32 p.hash;
  kind = p.kind;
  preview = trim p.preview;
  sensitive = p.sensitive;
  direction = p.direction;
  peer_id = Option.map hex32 p.peer_id;
}

unfoldable pub park_pending : App → Parked → App
unfolding payload_half
park_pending app p =
    let s = app.state in
    if BTree.contains_key (hex32 p.hash) app.pending_payloads then app else record app {
      pending_payloads = BTree.insert (hex32 p.hash) (payload_half p) app.pending_payloads;
      state = record s { pending = s.pending ++ display_half p ∷ [] };
    }

-- The parts of a clipboard event that the gate judges.
unfoldable pub parked_of : Event → Option Parked
parked_of (local_clipboard_change c) = some (record {
  direction = outbound;
  kind = c.kind;
  sensitive = c.sensitive;
  hash = c.hash;
  payload = c.payload;
  preview = c.preview;
  peer_id = none;
})
parked_of (frame_received_clipboard f) = some (record {
  direction = inbound;
  kind = f.kind;
  sensitive = f.sensitive;
  hash = f.hash;
  payload = f.payload;
  preview = f.preview;
  peer_id = some f.peer_id;
})
parked_of _ = none

unfoldable pub gate : App → Parked → List Action → Decision → App × List Action
gate app p actions pass = (app, actions)
gate app p actions block = (app, strip_sync_action p.direction actions)
gate app p actions defer = (park_pending app p, strip_sync_action p.direction actions)

unfoldable pub judge : App → List Action → Option Parked → App × List Action
unfolding gate
judge app actions none = (app, actions)
judge app actions (some p) =
    gate app p actions (decide app.config.firewall p.kind p.sensitive p.direction)

unfoldable pub apply_firewall : App → Event → List Action → App × List Action
unfolding judge parked_of
apply_firewall app event actions = judge app actions (parked_of event)

-- The held action of a parked item.
unfoldable pub held_action : PendingPayload → Direction → Action
held_action p outbound = send_item p.hash p.kind p.payload p.sensitive
held_action p inbound = write_clipboard p.kind p.payload p.sensitive

unfoldable pub release : Option PendingPayload → Bool → List Action
unfolding held_action
release none allow = emit_state ∷ []
release (some p) allow =
    if not allow then emit_state ∷ [] else held_action p p.direction ∷ emit_state ∷ []

unfoldable pub resolve_pending : App → String → Bool → App × List Action
unfolding release
resolve_pending app hash allow =
    let s = app.state in
    (
      record app {
        state = record s { pending = retain (λ p. not (str_eq p.hash hash)) s.pending };
        pending_payloads = BTree.remove hash app.pending_payloads;
      },
      release (BTree.get hash app.pending_payloads) allow,
    )

unfoldable pub drop_pending_all : App → App
drop_pending_all app =
    let s = app.state in record app { state = record s { pending = [] }; pending_payloads = [] }

abbrev pub is_tied_to : ℕ → String × PendingPayload → Bool
is_tied_to peer_id e = is_some_eq e.1.peer_id peer_id

-- The app without the items of one peer, and the hashes of those, in the map's order.
unfoldable pub drop_pending_for : App → ℕ → App × List ℕ
drop_pending_for app peer_id =
    let s = app.state in
    let dropped = retain (is_tied_to peer_id) app.pending_payloads in
    (
      record app {
        pending_payloads = retain (λ e. not (is_tied_to peer_id e)) app.pending_payloads;
        state = record s {
          pending = retain (λ p. not (any (λ e. str_eq e.0 p.hash) dropped)) s.pending;
        };
      },
      map (λ e. e.1.hash) dropped,
    )
