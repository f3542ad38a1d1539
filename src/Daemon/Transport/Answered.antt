-- ===== src/Daemon/Transport/Answered.antt =====
-- A handshake that was answered is not answered again.
use fluxsync.Base.{
  ℕ, suc, ◌+◌, ◌≤◌, ◌<◌, ◌≡◌, refl, sym, subst, ◌∙◌, true, false, List, [], ◌∷◌, ◌++◌, Option, none,
  some, arith, any-append, length, pop_front, ltb, ◌==◌, if◌then◌else◌, Bool-cases, inl, inr,
}
use native.Mathlib.Nat.{zero-add}
use fluxsync.Base.Aged.{
  IsAged, IsAged-append, IsAged-pop, has, AreDistinct, AreDistinct-append, has-retain,
}
use fluxsync.Daemon.Transport.{AnsweredInits, answered_cap, forget, first_answer}

abbrev pub empty : AnsweredInits
empty = record { seen = []; order = [] }

-- The set and the order hold the same ephemerals, each once.
pub record IsTracked (a : AnsweredInits) : Type 0 where
  pub same : (x : ℕ) → has x a.seen ≡ has x a.order
  pub distinct : AreDistinct a.order

same-forget :
    (seen order : List ℕ)
    → ((x : ℕ) → has x seen ≡ has x order)
    → AreDistinct order
    → (x : ℕ) → has x (forget order seen) ≡ has x (pop_front order)
same-forget seen [] same d x = same x
same-forget seen (old ∷ order) same d x = ground (arith, has-retain x old seen, same x)

AreDistinct-pop : (order : List ℕ) → AreDistinct order → AreDistinct (pop_front order)
AreDistinct-pop [] d = d
AreDistinct-pop (old ∷ order) d = d.1

pub first_answer-IsTracked :
    (a : AnsweredInits) (o : Option ℕ) → IsTracked a → IsTracked (first_answer a o).0
unfolding first_answer
first_answer-IsTracked a none k = k
first_answer-IsTracked a (some e) k = elim (Bool-cases (has e a.seen)) [
  | inl old ↦ rw old k
  | inr new ↦ elim (Bool-cases (ltb answered_cap (length (a.order ++ e ∷ [])))) [
    | inl full ↦
        rw (new, full)
          (record {
            same = same-forget (e ∷ a.seen) grown grown_same (grown_distinct new);
            distinct = AreDistinct-pop grown (grown_distinct new);
          })
    | inr room ↦ rw (new, room) (record { same = grown_same; distinct = grown_distinct new })
  ]
]
  where
    grown : List ℕ
    grown = a.order ++ e ∷ []

    grown_same : (x : ℕ) → has x (e ∷ a.seen) ≡ has x grown
    grown_same x = ground (arith, any-append (λ y. y == x) a.order (e ∷ []), k.same x)

    grown_distinct : has e a.seen ≡ false → AreDistinct grown
    grown_distinct new = AreDistinct-append e a.order (sym (k.same e) ∙ new) k.distinct

-- The inits that arrive, in their order; none for one that is too short.
abbrev pub answer_all : AnsweredInits → List (Option ℕ) → AnsweredInits
answer_all a [] = a
answer_all a (o ∷ os) = answer_all (first_answer a o).0 os

answer_all-IsTracked :
    (a : AnsweredInits) (os : List (Option ℕ)) → IsTracked a → IsTracked (answer_all a os)
answer_all-IsTracked a [] k = k
answer_all-IsTracked a (o ∷ os) k =
    answer_all-IsTracked (first_answer a o).0 os (first_answer-IsTracked a o k)

empty-IsTracked : IsTracked empty
empty-IsTracked = record { same = λ x. refl; distinct = tt }

-- `e` is held, with no more than `n` newer ones behind it.
abbrev IsHeld : ℕ → ℕ → AnsweredInits → Type 0
IsHeld e n a = (age : ℕ) × (age ≤ n) × IsAged e age a.order

push-IsAged :
    (e x age : ℕ) (order : List ℕ)
    → age < 4096
    → IsAged e age (order ++ x ∷ [])
    → IsAged e age (
        if ltb answered_cap (length (order ++ x ∷ []))
        then pop_front (order ++ x ∷ [])
        else order ++ x ∷ [])
push-IsAged e x age order lt h = elim (Bool-cases (ltb answered_cap (length (order ++ x ∷ [])))) [
  | inl full ↦
      rw full
        (IsAged-pop e age h.older h.newer (order ++ x ∷ []) h.splits h.aged (ground (arith, full)))
  | inr room ↦ rw room h
]

answered_order :
    (a : AnsweredInits) (x : ℕ)
    → has x a.seen ≡ false
    → (first_answer a (some x)).0.order ≡ (
        if ltb answered_cap (length (a.order ++ x ∷ []))
        then pop_front (a.order ++ x ∷ [])
        else a.order ++ x ∷ [])
unfolding first_answer
answered_order a x new = elim (Bool-cases (ltb answered_cap (length (a.order ++ x ∷ [])))) [
  | inl full ↦ rw (new, full) refl
  | inr room ↦ rw (new, room) refl
]

known_order : (a : AnsweredInits) (x : ℕ) → has x a.seen ≡ true → (first_answer a (some x)).0 ≡ a
unfolding first_answer
known_order a x old = rw old refl

first_answer-IsHeld :
    (e n : ℕ) (a : AnsweredInits) (o : Option ℕ)
    → suc n < 4096
    → IsHeld e n a
    → IsHeld e (suc n) (first_answer a o).0
unfolding first_answer
first_answer-IsHeld e n a none lt (age, le, h) = (age, omega arith, h)
first_answer-IsHeld e n a (some x) lt (age, le, h) = elim (Bool-cases (has x a.seen)) [
  | inl old ↦ rw old (age, omega arith, h)
  | inr new ↦ (
    age + 1,
    omega arith,
    subst (IsAged e (age + 1)) (sym (answered_order a x new))
        (push-IsAged e x (age + 1) a.order (omega arith) (IsAged-append e x a.order h)),
  )
]

answer_all-IsHeld :
    (e n : ℕ) (a : AnsweredInits) (os : List (Option ℕ))
    → n + length os < 4096
    → IsHeld e n a
    → IsHeld e (n + length os) (answer_all a os)
answer_all-IsHeld e n a [] lt h = (h.0, omega (arith, h.1), h.2)
answer_all-IsHeld e n a (o ∷ os) lt h =
    let next =
      answer_all-IsHeld e (suc n) (first_answer a o).0 os (omega arith)
        (first_answer-IsHeld e n a o (omega arith) h) in
    (next.0, omega (arith, next.1), next.2)

held-has : (e n : ℕ) (a : AnsweredInits) → IsHeld e n a → has e a.order ≡ true
held-has e n a (age, le, h) =
    rw h.splits (ground (arith, any-append (λ y. y == e) h.older (e ∷ h.newer)))

fresh_new : (a : AnsweredInits) (e : ℕ) → (first_answer a (some e)).1 ≡ true → has e a.seen ≡ false
unfolding first_answer
fresh_new a e fresh = ground arith

known_refused :
    (a : AnsweredInits) (e : ℕ) → has e a.seen ≡ true → (first_answer a (some e)).1 ≡ false
unfolding first_answer
known_refused a e old = rw old refl

fresh-IsHeld :
    (a : AnsweredInits) (e : ℕ)
    → (first_answer a (some e)).1 ≡ true
    → IsHeld e 0 (first_answer a (some e)).0
fresh-IsHeld a e fresh =
    let last : IsAged e 0 (a.order ++ e ∷ []) = record {
      older = a.order;
      newer = [];
      splits = refl;
      aged = refl;
    } in
    (
      0,
      omega arith,
      subst (IsAged e 0) (sym (answered_order a e (fresh_new a e fresh)))
          (push-IsAged e e 0 a.order (omega arith) last),
    )

-- A handshake init that is answered is answered once: presented again while fewer than 4096 others
-- have come since, it is refused, whatever the daemon was sent before and in between.
pub first_answer_once :
    (earlier later : List (Option ℕ)) (e : ℕ)
    → let a = answer_all empty earlier in
      (first_answer a (some e)).1 ≡ true
      → length later < 4096
      → (first_answer (answer_all (first_answer a (some e)).0 later) (some e)).1 ≡ false
first_answer_once earlier later e fresh short =
    let a = answer_all empty earlier in
    let b = (first_answer a (some e)).0 in
    let tracked = answer_all-IsTracked empty earlier empty-IsTracked in
    let end = answer_all-IsTracked b later (first_answer-IsTracked a (some e) tracked) in
    let held = answer_all-IsHeld e 0 b later (omega arith) (fresh-IsHeld a e fresh) in
    known_refused (answer_all b later) e (
      end.same e
      ∙ held-has e (length later) (answer_all b later)
          (subst (λ n. IsHeld e n (answer_all b later)) (zero-add (length later)) held))
