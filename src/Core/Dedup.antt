-- ===== src/Core/Dedup.antt =====
-- crates/fluxsync-core/src/dedup.rs: the content ring `DedupRing`.
-- A `VecDeque` is a list whose first item is the front, the oldest. The BLAKE3 digest is a
-- parameter where bytes are hashed (`Core.App`); here a `ContentHash` is its 32 bytes as a number.
pub mod Echo
pub mod Shape
use fluxsync.Base.{
  ℕ, ◌+◌, ◌-◌, ◌≡◌, Bool, true, false, ◌||◌, List, [], ◌∷◌, ◌++◌, Option, none, some, ltb, ◌==◌,
  if◌then◌else◌, any, length, position, get_elem?, remove_at, pop_front,
}
use fluxsync.Core.Id.{EventId, event_eq}

abbrev pub dedup_capacity : ℕ
dedup_capacity = 50

abbrev pub echo_window_ms : ℕ
echo_window_ms = 5000

abbrev pub ContentHash : Type 0
ContentHash = ℕ

pub record Entry : Type 0 where
  pub hash : ContentHash
  pub seen_at_ms : Option ℕ

pub record DedupRing : Type 0 where
  pub capacity : ℕ
  pub inner : List Entry

unfoldable pub new : ℕ → DedupRing
new capacity = record { capacity = capacity; inner = [] }

-- Drop the front of a full ring, then append.
unfoldable pub push_back {ℓ} : {A : Type ℓ} → ℕ → List A → A → List A
push_back capacity inner x = (if length inner == capacity then pop_front inner else inner) ++ x ∷ []

push : DedupRing → Entry → DedupRing
unfolding push_back
push r e = record r { inner = push_back r.capacity r.inner e }

abbrev has_hash : ContentHash → Entry → Bool
has_hash h e = e.hash == h

unfoldable pub contains : DedupRing → ContentHash → Bool
contains r h = any (has_hash h) r.inner

unfoldable pub observe : DedupRing → ContentHash → DedupRing × Bool
unfolding push contains
observe r h =
    if contains r h then (r, false) else (push r (record { hash = h; seen_at_ms = none }), true)

-- `seen_at_ms.is_some_and(|t| now_ms.saturating_sub(t) < ECHO_WINDOW_MS)`; `-` on ℕ saturates.
abbrev is_recent : ℕ → Option ℕ → Bool
is_recent now none = false
is_recent now (some t) = ltb (now - t) echo_window_ms

abbrev is_recent_entry : ℕ → Option Entry → Bool
is_recent_entry now none = false
is_recent_entry now (some e) = is_recent now e.seen_at_ms

-- The body of `if let Some(pos)`: an echo leaves the ring, a repeat takes the old entry out.
observe_at : DedupRing → ContentHash → ℕ → Option ℕ → DedupRing × Bool
unfolding push
observe_at r h now none = (push r (record { hash = h; seen_at_ms = some now }), true)
observe_at r h now (some pos) =
    if pos + 1 == length r.inner || is_recent_entry now (get_elem? r.inner pos)
    then (r, false)
    else (
      push (record r { inner = remove_at r.inner pos })
          (record { hash = h; seen_at_ms = some now }),
      true,
    )

unfoldable pub observe_clipboard : DedupRing → ContentHash → ℕ → DedupRing × Bool
unfolding observe_at
observe_clipboard r h now = observe_at r h now (position (has_hash h) r.inner)
