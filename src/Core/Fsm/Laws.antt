-- ===== src/Core/Fsm/Laws.antt =====
-- Which actions the transition table emits, and along which edges the phase moves.
use fluxsync.Base.{ℕ, ◌≡◌, ◌⊎◌, ◌↔◌, Bool, true, false, arith, any, count, ◌==◌}
use fluxsync.Core.Events.{
  Event, handshake_ok, frame_received_clipboard, Action, drop_peer, open_session, close_session,
  send_item, ack_item, write_clipboard, ReceivedFrame,
}
use fluxsync.Core.Fsm.{Phase, idle, discovering, handshaking, linked, transition}

-- Tests on actions, by constructor.
abbrev pub is_ack : ℕ → Action → Bool
is_ack h (ack_item k) = k == h
is_ack h _ = false

abbrev pub is_any_ack : Action → Bool
is_any_ack (ack_item k) = true
is_any_ack _ = false

abbrev pub is_write : Action → Bool
is_write (write_clipboard k p s) = true
is_write _ = false

abbrev pub is_send : Action → Bool
is_send (send_item h k p s) = true
is_send _ = false

abbrev pub is_open : Action → Bool
is_open open_session = true
is_open _ = false

-- The session is closed, or the peer with it is dropped.
abbrev pub is_teardown : Action → Bool
is_teardown close_session = true
is_teardown drop_peer = true
is_teardown _ = false

abbrev pub is_frame : Event → Bool
is_frame (frame_received_clipboard f) = true
is_frame _ = false

-- The phase diagram, with the events left out.
infix 40 ◌⟶◌
pub data ◌⟶◌ : Phase → Phase → Type 0 where
  stay : {p : Phase} → p ⟶ p
  search_starts : idle ⟶ discovering
  peer_found : discovering ⟶ handshaking
  link_up : handshaking ⟶ linked
  given_up : handshaking ⟶ discovering
  link_lost : linked ⟶ discovering
  turned_off : {p : Phase} → p ⟶ idle

ruleset edges = (stay, search_starts, peer_found, link_up, given_up, link_lost, turned_off)

-- The phase moves along the diagram: `linked` is entered from `handshaking` alone, and
-- `handshaking` from `discovering` alone.
pub transition-⟶ : (p : Phase) (e : Event) → p ⟶ (transition p e).0
unfolding transition
transition-⟶ idle e = grind (arith, edges)
transition-⟶ discovering e = grind (arith, edges)
transition-⟶ handshaking e = grind (arith, edges)
transition-⟶ linked e = grind (arith, edges)

-- A session is opened exactly when the phase becomes `linked`, which only the end of a handshake
-- does; and whenever the phase leaves `linked`, the session is closed or its peer dropped.
pub transition_session :
    (p : Phase) (e : Event)
    → ((any is_open (transition p e).1 ≡ true) ↔ ((p ≡ handshaking) × (e ≡ handshake_ok)))
      × ((transition p e).0 ≡ linked → (p ≡ linked) ⊎ ((p ≡ handshaking) × (e ≡ handshake_ok)))
      × (p ≡ linked → ((transition p e).0 ≡ linked) ⊎ (any is_teardown (transition p e).1 ≡ true))
unfolding transition
transition_session p e = ground arith

-- A received clipboard frame is acknowledged exactly once, by its own hash, in every phase, and
-- nothing else is acknowledged.
pub transition_acks :
    (p : Phase) (e : Event)
    → ((f : ReceivedFrame)
        → e ≡ frame_received_clipboard f
        → (count (is_ack f.hash) (transition p e).1 ≡ 1)
          × (count is_any_ack (transition p e).1 ≡ 1))
      × (is_frame e ≡ false → count is_any_ack (transition p e).1 ≡ 0)
unfolding transition
transition_acks p e = ground arith
