-- ===== src/Core/Seen/Laws.antt =====
-- What `SeenSet` promises to the mesh: an id is let through once, and stays known while fewer than
-- `capacity` new ids follow.
use fluxsync.Base.{
  ℕ, suc, ◌+◌, ◌<◌, ◌≡◌, refl, inl, inr, true, false, List, [], ◌∷◌, ◌++◌, arith, any, any-append,
  length, pop_front, ◌==◌, if◌then◌else◌, Bool-cases,
}
use fluxsync.Base.Aged.{IsAged, IsAged-append, IsAged-pop}
use fluxsync.Core.Id.{EventId, event_eq}
use fluxsync.Core.Dedup.{push_back}
use fluxsync.Core.Seen.{SeenSet, contains, observe, new}

event_eq_self : (x : EventId) → event_eq x x ≡ true
event_eq_self x = ground arith

IsAged-any :
    (x : EventId) (older newer : List EventId) → any (event_eq x) (older ++ x ∷ newer) ≡ true
IsAged-any x older newer =
    ground (arith, any-append (event_eq x) older (x ∷ newer), event_eq_self x)

pub IsAged-contains :
    (s : SeenSet) (x : EventId) {age : ℕ} → IsAged x age s.inner → contains s x ≡ true
unfolding contains
IsAged-contains s x h = rw h.splits (IsAged-any x h.older h.newer)

IsAged-push_back :
    (x y : EventId) (age capacity : ℕ) (xs : List EventId)
    → age + 1 < capacity
    → IsAged x age xs
    → IsAged x (age + 1) (push_back capacity xs y)
unfolding push_back
IsAged-push_back x y age capacity xs lt h = elim (Bool-cases (length xs == capacity)) [
  | inl full ↦ rw full (
      IsAged-append x y (pop_front xs)
        (IsAged-pop x age h.older h.newer xs h.splits h.aged (ground arith)))
  | inr room ↦ rw room (IsAged-append x y xs h)
]

-- Observations in order, and how many of them were new.
abbrev pub observe_all : SeenSet → List EventId → SeenSet
observe_all s [] = s
observe_all s (y ∷ ys) = observe_all (observe s y).0 ys

abbrev pub fresh_count : SeenSet → List EventId → ℕ
fresh_count s [] = 0
fresh_count s (y ∷ ys) =
    let rest = fresh_count (observe s y).0 ys in if (observe s y).1 then suc rest else rest

observe_stays : (s : SeenSet) (y : EventId) → (observe s y).0.capacity ≡ s.capacity
unfolding observe
observe_stays s y = ground arith

IsAged-observe_step :
    (s : SeenSet) (x y : EventId) (age : ℕ)
    → (if (observe s y).1 then age + 1 else age) < s.capacity
    → IsAged x age s.inner
    → IsAged x (if (observe s y).1 then age + 1 else age) (observe s y).0.inner
unfolding observe contains
IsAged-observe_step s x y age lt h = elim (Bool-cases (any (event_eq y) s.inner)) [
  | inl old ↦ rw old h
  | inr fresh ↦ rw fresh (IsAged-push_back x y age s.capacity s.inner (rw fresh at lt) h)
]

IsAged-observe_all :
    (s : SeenSet) (x : EventId) (age : ℕ) (ys : List EventId)
    → age + fresh_count s ys < s.capacity
    → IsAged x age s.inner
    → contains (observe_all s ys) x ≡ true
IsAged-observe_all s x age [] lt h = IsAged-contains s x h
IsAged-observe_all s x age (y ∷ ys) lt h =
    IsAged-observe_all (observe s y).0 x (if (observe s y).1 then age + 1 else age) ys
      (ground (arith, observe_stays s y)) (IsAged-observe_step s x y age (ground arith) h)

IsAged-new : (s : SeenSet) (x : EventId) → (observe s x).1 ≡ true → IsAged x 0 (observe s x).0.inner
unfolding observe contains push_back
IsAged-new s x new = elim (Bool-cases (any (event_eq x) s.inner)) [
  | inl old ↦ absurd (ground arith)
  | inr fresh ↦ rw fresh (record {
    older = if length s.inner == s.capacity then pop_front s.inner else s.inner;
    newer = [];
    splits = refl;
    aged = refl;
  })
]

observe_known : (s : SeenSet) (x : EventId) → contains s x ≡ true → observe s x ≡ (s, false)
unfolding observe
observe_known s x h = rw h

-- An id that was let through is refused from then on, as long as fewer than `capacity` new ids
-- have come after it; ids that are refused themselves do not age it.
pub observe_once :
    (s : SeenSet) (x : EventId) (ys : List EventId)
    → (observe s x).1 ≡ true
    → fresh_count (observe s x).0 ys < s.capacity
    → let later = observe_all (observe s x).0 ys in observe later x ≡ (later, false)
observe_once s x ys new lt = observe_known (observe_all (observe s x).0 ys) x (
    IsAged-observe_all (observe s x).0 x 0 ys (omega (arith, observe_stays s x))
      (IsAged-new s x new))
