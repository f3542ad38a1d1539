-- ===== src/Core/Dedup/Shape.antt =====
-- The shape of the content ring: its bound, and no content twice.
use fluxsync.Base.{
  ℕ, ◌-◌, ◌≤◌, ◌<◌, ◌≡◌, refl, inl, inr, Bool, false, List, [], ◌∷◌, ◌++◌, Option, none, some,
  arith, any, length, length-append, retain, pop_front, ◌==◌, Bool-cases, length-retain-le,
}
use fluxsync.Core.Dedup.{
  Entry, DedupRing, ContentHash, has_hash, push_back, push, observe_at, observe_clipboard, observe,
  contains,
}
use fluxsync.Core.Dedup.Echo.{AreDistinct, is_other, is_echo, observe_clipboard_echo}

any-append_other :
    (k h : ContentHash) (t : Option ℕ) (es : List Entry)
    → (h == k) ≡ false
    → any (has_hash k) es ≡ false
    → any (has_hash k) (es ++ record { hash = h; seen_at_ms = t } ∷ []) ≡ false
any-append_other k h t [] n m = ground arith
any-append_other k h t (e ∷ es) n m = ground (arith, any-append_other k h t es n)

AreDistinct-append :
    (h : ContentHash) (t : Option ℕ) (es : List Entry)
    → any (has_hash h) es ≡ false
    → AreDistinct es
    → AreDistinct (es ++ record { hash = h; seen_at_ms = t } ∷ [])
AreDistinct-append h t [] m d = (refl, tt)
AreDistinct-append h t (e ∷ es) m d = (
  any-append_other e.hash h t es (ground arith) d.0,
  AreDistinct-append h t es (ground arith) d.1,
)

any-pop_front :
    (h : ContentHash) (es : List Entry)
    → any (has_hash h) es ≡ false
    → any (has_hash h) (pop_front es) ≡ false
any-pop_front h [] m = refl
any-pop_front h (e ∷ es) m = ground arith

AreDistinct-pop_front : (es : List Entry) → AreDistinct es → AreDistinct (pop_front es)
AreDistinct-pop_front [] d = tt
AreDistinct-pop_front (e ∷ es) d = d.1

any-retain-false :
    (k : ContentHash) (q : Entry → Bool) (es : List Entry)
    → any (has_hash k) es ≡ false
    → any (has_hash k) (retain q es) ≡ false
any-retain-false k q [] m = refl
any-retain-false k q (e ∷ es) m = ground (arith, any-retain-false k q es)

AreDistinct-retain :
    (q : Entry → Bool) (es : List Entry) → AreDistinct es → AreDistinct (retain q es)
AreDistinct-retain q [] d = tt
AreDistinct-retain q (e ∷ es) d =
    ground (arith, any-retain-false e.hash q es d.0, AreDistinct-retain q es d.1)

any-retain_others :
    (h : ContentHash) (es : List Entry) → any (has_hash h) (retain (is_other h) es) ≡ false
any-retain_others h [] = refl
any-retain_others h (e ∷ es) = ground (arith, any-retain_others h es)

length-pop_front : (es : List Entry) → length (pop_front es) ≡ length es - 1
length-pop_front [] = omega arith
length-pop_front (e ∷ es) = omega arith

-- The ring holds its capacity at most, and no content twice.
pub record IsWellFormed (r : DedupRing) : Type 0 where
  pub bounded : length r.inner ≤ r.capacity
  pub distinct : AreDistinct r.inner

pushed :
    (r : DedupRing) (es : List Entry) (h : ContentHash) (t : Option ℕ)
    → 0 < r.capacity
    → length es ≤ r.capacity
    → AreDistinct es
    → any (has_hash h) es ≡ false
    → IsWellFormed
        (record r { inner = push_back r.capacity es (record { hash = h; seen_at_ms = t }) })
unfolding push_back
pushed r es h t pos b d m = elim (Bool-cases (length es == r.capacity)) [
  | inl full ↦ record {
    bounded = rw full (
        omega (
          arith,
          length-append (pop_front es) (record { hash = h; seen_at_ms = t } ∷ []),
          length-pop_front es,
        ));
    distinct =
        rw full (
          AreDistinct-append h t (pop_front es) (any-pop_front h es m)
            (AreDistinct-pop_front es d));
  }
  | inr room ↦ record {
    bounded = rw room (ground (arith, length-append es (record { hash = h; seen_at_ms = t } ∷ [])));
    distinct = rw room (AreDistinct-append h t es m d);
  }
]

pub observe-IsWellFormed :
    (r : DedupRing) (h : ContentHash)
    → 0 < r.capacity
    → IsWellFormed r
    → IsWellFormed (observe r h).0
unfolding observe contains push
observe-IsWellFormed r h pos w = elim (Bool-cases (any (has_hash h) r.inner)) [
  | inl old ↦ rw old w
  | inr fresh ↦ rw fresh (pushed r r.inner h none pos w.bounded w.distinct fresh)
]

pub observe_clipboard-IsWellFormed :
    (r : DedupRing) (h : ContentHash) (now : ℕ)
    → 0 < r.capacity
    → IsWellFormed r
    → IsWellFormed (observe_clipboard r h now).0
observe_clipboard-IsWellFormed r h now pos w =
    rw (observe_clipboard_echo r h now w.distinct) (elim (Bool-cases (is_echo r h now)) [
      | inl echo ↦ rw echo w
      | inr fresh ↦ rw fresh (
          pushed r (retain (is_other h) r.inner) h (some now) pos
            (omega (arith, length-retain-le (is_other h) r.inner, w.bounded))
            (AreDistinct-retain (is_other h) r.inner w.distinct) (any-retain_others h r.inner))
    ])

-- A ring of positive capacity stays within it and free of repeats under both ways to record
-- content.
pub observe-keeps_IsWellFormed :
    (r : DedupRing) (h : ContentHash) (now : ℕ)
    → 0 < r.capacity
    → IsWellFormed r
    → IsWellFormed (observe r h).0 × IsWellFormed (observe_clipboard r h now).0
observe-keeps_IsWellFormed r h now pos w =
    (observe-IsWellFormed r h pos w, observe_clipboard-IsWellFormed r h now pos w)

pub observe_clipboard-capacity :
    (r : DedupRing) (h now : ℕ) → (observe_clipboard r h now).0.capacity ≡ r.capacity
unfolding observe_clipboard observe_at
observe_clipboard-capacity r h now = ground arith

pub observe-capacity : (r : DedupRing) (h : ℕ) → (observe r h).0.capacity ≡ r.capacity
unfolding observe push
observe-capacity r h = ground arith
