-- ===== src/Core/Dedup/Echo.antt =====
-- The verdict of the content ring on clipboard content.
use fluxsync.Base.{
  ℕ, suc, ◌+◌, ◌≡◌, refl, subst, ◌⊎◌, inl, inr, Bool, true, false, not, ◌&&◌, ◌||◌, List, [], ◌∷◌,
  none, some, arith, any, length, position, get_elem?, remove_at, retain, ◌==◌, if◌then◌else◌,
  Bool-cases,
}
use fluxsync.Core.Dedup.{
  Entry, DedupRing, ContentHash, has_hash, is_recent, is_recent_entry, push_back, push, observe_at,
  observe_clipboard,
}

-- No content stands twice in the ring.
abbrev pub AreDistinct : List Entry → Type 0
AreDistinct [] = Unit {0}
AreDistinct (e ∷ es) = (any (has_hash e.hash) es ≡ false) × AreDistinct es

-- The last entry, the newest, has this hash.
abbrev pub is_newest : ContentHash → List Entry → Bool
is_newest h [] = false
is_newest h (e ∷ []) = has_hash h e
is_newest h (e ∷ f ∷ es) = is_newest h (f ∷ es)

abbrev pub is_recent_sighting : ContentHash → ℕ → Entry → Bool
is_recent_sighting h now e = has_hash h e && is_recent now e.seen_at_ms

abbrev pub is_other : ContentHash → Entry → Bool
is_other h e = not (has_hash h e)

-- What `position` finds in a ring with distinct hashes, and what stands there.
record Located (h : ContentHash) (now : ℕ) (es : List Entry) (i : ℕ) : Type 0 where
  found : position (has_hash h) es ≡ some i
  newest : (i + 1 == length es) ≡ is_newest h es
  recent : is_recent_entry now (get_elem? es i) ≡ any (is_recent_sighting h now) es
  others : remove_at es i ≡ retain (is_other h) es

record Missing (h : ContentHash) (now : ℕ) (es : List Entry) : Type 0 where
  not_found : position (has_hash h) es ≡ none
  not_newest : is_newest h es ≡ false
  not_recent : any (is_recent_sighting h now) es ≡ false
  all_others : retain (is_other h) es ≡ es

any-Missing :
    (h : ContentHash) (now : ℕ) (es : List Entry) → any (has_hash h) es ≡ false → Missing h now es
any-Missing h now [] m = record {
  not_found = refl;
  not_newest = refl;
  not_recent = refl;
  all_others = refl;
}
any-Missing h now (e ∷ []) m = ground arith
any-Missing h now (e ∷ f ∷ es) m = ground (arith, any-Missing h now (f ∷ es))

pub has_hash_eq : (h : ContentHash) (e : Entry) → has_hash h e ≡ true → e.hash ≡ h
has_hash_eq h e m = ground arith

-- The entry found stands in front: the rest has no such hash.
Located-here :
    (h : ContentHash) (now : ℕ) (e : Entry) (es : List Entry)
    → has_hash h e ≡ true
    → any (has_hash h) es ≡ false
    → Located h now (e ∷ es) 0
Located-here h now e [] here rest = ground arith
Located-here h now e (f ∷ es) here rest = ground (arith, any-Missing h now (f ∷ es))

Located-later :
    (h : ContentHash) (now : ℕ) (e f : Entry) (es : List Entry) (i : ℕ)
    → has_hash h e ≡ false
    → Located h now (f ∷ es) i
    → Located h now (e ∷ f ∷ es) (suc i)
Located-later h now e f es i miss l = record {
  found = rw (miss, l.found);
  newest = ground (arith, l.newest);
  recent = rw miss l.recent;
  others = rw (miss, l.others);
}

Missing-later :
    (h : ContentHash) (now : ℕ) (e : Entry) (es : List Entry)
    → has_hash h e ≡ false
    → Missing h now es
    → Missing h now (e ∷ es)
Missing-later h now e [] miss m = any-Missing h now (e ∷ []) (rw miss)
Missing-later h now e (f ∷ es) miss m = record {
  not_found = rw (miss, m.not_found);
  not_newest = m.not_newest;
  not_recent = rw miss m.not_recent;
  all_others = rw (miss, m.all_others);
}

locate_later :
    (h : ContentHash) (now : ℕ) (e : Entry) (es : List Entry)
    → has_hash h e ≡ false
    → (Missing h now es ⊎ ((i : ℕ) × Located h now es i))
    → (Missing h now (e ∷ es) ⊎ ((i : ℕ) × Located h now (e ∷ es) i))
locate_later h now e es miss (inl m) = inl (Missing-later h now e es miss m)
locate_later h now e [] miss (inr (i, l)) = absurd (ground (arith, l.found))
locate_later h now e (f ∷ es) miss (inr (i, l)) = inr (suc i, Located-later h now e f es i miss l)

locate :
    (h : ContentHash) (now : ℕ) (es : List Entry)
    → AreDistinct es
    → Missing h now es ⊎ ((i : ℕ) × Located h now es i)
locate h now [] d = inl (any-Missing h now [] refl)
locate h now (e ∷ es) d = elim (Bool-cases (has_hash h e)) [
  | inl here ↦ inr (
    0,
    Located-here h now e es here
        (subst (λ k. any (has_hash k) es ≡ false) (has_hash_eq h e here) d.0),
  )
  | inr miss ↦ locate_later h now e es miss (locate h now es d.1)
]

-- An echo: the newest content, or content seen within the window.
abbrev pub is_echo : DedupRing → ContentHash → ℕ → Bool
is_echo r h now = is_newest h r.inner || any (is_recent_sighting h now) r.inner

abbrev pub seen_now : ContentHash → ℕ → Entry
seen_now h now = record { hash = h; seen_at_ms = some now }

-- In a ring without repeats, `observe_clipboard` refuses exactly the echoes and then changes
-- nothing; all else moves to the newest slot with the current time, the entries of other content
-- keep their order, and where they fill the ring the oldest of them goes.
pub observe_clipboard_echo :
    (r : DedupRing) (h : ContentHash) (now : ℕ)
    → AreDistinct r.inner
    → observe_clipboard r h now ≡ (
        if is_echo r h now then (r, false) else (
          record r { inner = push_back r.capacity (retain (is_other h) r.inner) (seen_now h now) },
          true,
        ))
unfolding observe_clipboard observe_at push
observe_clipboard_echo r h now d = elim (locate h now r.inner d) [
  | inl m ↦ rw (m.not_found, m.not_newest, m.not_recent, m.all_others)
  | inr (i, l) ↦ rw (l.found, observe_at, l.newest, l.recent, l.others)
]
