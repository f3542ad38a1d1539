-- ===== src/Daemon/Driver/Inflight/Ends.antt =====
-- An item that peers do not acknowledge is given up.
use fluxsync.Base.{
  ℕ, ◌+◌, ◌-◌, ◌≤◌, ◌<◌, ◌≡◌, inl, inr, refl, sym, ap, subst, ◌∙◌, Bool, true, false, not, List, [],
  ◌∷◌, Option, none, some, arith, ltb, leb, ◌==◌, ==_self, if◌then◌else◌, is_empty, OnSome, All,
  Bool-cases, if_holds, if_split,
}
use fluxsync.Base.BTree
use fluxsync.Base.BTree.{nat_ord}
use fluxsync.Base.BTree.Laws.{get-insert, get-remove}
use fluxsync.Base.BTree.Sorted.{IsSorted, insert-IsSorted, remove-IsSorted}
use fluxsync.Core.Events.{Bytes}
use fluxsync.Daemon.Driver.Inflight.{
  Inflight, InflightMap, extend, peers_of, without, acked, on_ack, answered, requested, is_pending,
  on_nak, retransmit_item, retransmit, track_inflight,
}
use fluxsync.Daemon.Driver.Inflight.Entries.{
  Turn, track, ack, nak, tick, purge, turn, turns, sent_again, resends_of, resends, all_resends,
  IsElse, staying, ticked, retransmit-IsSorted, same_key, get-retransmit, spared, purge-IsSorted,
  get-purge,
}
use fluxsync.Proto.Msg.{Nak}

-- How often the item can still be sent again.
abbrev budget : Option Inflight → ℕ
budget none = 0
budget (some item) = 6 - item.attempts

-- An item that stays is as old as it was, and what it was sent again is taken off its budget.
record Fades (start sends : ℕ) (o o' : Option Inflight) : Type 0 where
  pub dated : OnSome (λ i. i.first_sent ≡ start) o → OnSome (λ i. i.first_sent ≡ start) o'
  pub paid : sends + budget o' ≤ budget o

Fades-refl : (start : ℕ) (o : Option Inflight) → Fades start 0 o o
Fades-refl start o = record { dated = λ d. d; paid = omega arith }

Fades-none : (start : ℕ) (o : Option Inflight) → Fades start 0 o none
Fades-none start o = record { dated = λ d. tt; paid = omega arith }

Fades-ticked :
    (start now : ℕ) (o : Option Inflight) → Fades start (resends_of now o) o (ticked now o)
unfolding retransmit_item
Fades-ticked start now none = Fades-refl start none
Fades-ticked start now (some item) =
    let again : Inflight = record item { attempts = item.attempts + 1; last_sent = now } in
    let P : Option (Inflight × Bool) → Type 0 =
      λ r. Fades start (sent_again r) (some item) (staying r) in
    let gone : P none = Fades-none start (some item) in
    if_holds P (ltb 90000 (now - item.first_sent)) none _ gone (
      if_holds P (ltb (now - item.last_sent) 2000) (some (item, false)) _
        (Fades-refl start (some item))
        (if_split P (leb 6 item.attempts) none (some (again, true)) (λ spent. gone)
          (λ left. record { dated = λ d. d; paid = ground (arith, left) })))

Fades-spared : (start peer : ℕ) (o : Option Inflight) → Fades start 0 o (spared peer o)
Fades-spared start peer none = Fades-refl start none
Fades-spared start peer (some item) =
    if_holds (λ x. Fades start 0 (some item) x) (not (is_empty (without peer item).pending_peers))
      (some (without peer item)) none (record { dated = λ d. d; paid = omega arith })
      (Fades-none start (some item))

Fades-insert :
    (start h hash : ℕ) (m : InflightMap) (item left : Inflight)
    → BTree.get hash m ≡ some item
    → left.first_sent ≡ item.first_sent
    → left.attempts ≡ item.attempts
    → Fades start 0 (BTree.get h m) (BTree.get h (BTree.insert hash left m))
Fades-insert start h hash m item left held dates tries = elim (Bool-cases (h == hash)) [
  | inl same ↦
      let key : h ≡ hash = sym (same_key h hash same) in
      let stored : BTree.get h (BTree.insert hash left m) ≡ some left =
        get-insert h hash left m ∙ rw same refl in
      subst (λ o. Fades start 0 o (BTree.get h (BTree.insert hash left m)))
        (sym (ap (λ k. BTree.get k m) key ∙ held))
        (subst (λ o. Fades start 0 (some item) o) (sym stored)
          (record { dated = λ d. dates ∙ d; paid = omega (arith, tries) }))
  | inr other ↦
      let kept_on : BTree.get h (BTree.insert hash left m) ≡ BTree.get h m =
        get-insert h hash left m ∙ rw other refl in
      subst (λ o. Fades start 0 (BTree.get h m) o) (sym kept_on) (Fades-refl start (BTree.get h m))
]

Fades-remove :
    (start h hash : ℕ) (m : InflightMap)
    → Fades start 0 (BTree.get h m) (BTree.get h (BTree.remove hash m))
Fades-remove start h hash m =
    subst (λ o. Fades start 0 (BTree.get h m) o) (sym (get-remove h hash m))
      (if_holds (λ o. Fades start 0 (BTree.get h m) o) (h == hash) none (BTree.get h m)
        (Fades-none start (BTree.get h m)) (Fades-refl start (BTree.get h m)))

Fades-acked :
    (start h peer hash : ℕ) (m : InflightMap) (o : Option Inflight)
    → BTree.get hash m ≡ o
    → Fades start 0 (BTree.get h m) (BTree.get h (acked m peer hash o).0)
Fades-acked start h peer hash m none held = Fades-refl start (BTree.get h m)
Fades-acked start h peer hash m (some item) held =
    if_holds (λ x. Fades start 0 (BTree.get h m) (BTree.get h x))
      (is_empty (without peer item).pending_peers) (BTree.remove hash m)
      (BTree.insert hash (without peer item) m) (Fades-remove start h hash m)
      (Fades-insert start h hash m item (without peer item) held refl refl)

Fades-answered :
    (start h peer now : ℕ) (n : Nak) (m : InflightMap) (o : Option Inflight)
    → BTree.get n.item_id m ≡ o
    → Fades start 0 (BTree.get h m) (BTree.get h (answered m peer n now o).0)
Fades-answered start h peer now n m none held = Fades-refl start (BTree.get h m)
Fades-answered start h peer now n m (some item) held =
    let left : Inflight = record item { last_sent = now } in
    let out = requested n item in
    let P : InflightMap → Type 0 = λ x. Fades start 0 (BTree.get h m) (BTree.get h x) in
    let same : P m = Fades-refl start (BTree.get h m) in
    let stamped = BTree.insert n.item_id left m in
    if_holds (λ (x : InflightMap × List Bytes). P x.0) (is_pending peer item.pending_peers)
      ((if is_empty out then m else stamped), out) (m, [])
      (if_holds P (is_empty out) m stamped same
        (Fades-insert start h n.item_id m item left held refl refl))
      same

acked-IsSorted :
    (m : InflightMap) (peer hash : ℕ) (o : Option Inflight)
    → IsSorted m
    → IsSorted (acked m peer hash o).0
acked-IsSorted m peer hash none s = s
acked-IsSorted m peer hash (some item) s =
    if_holds IsSorted (is_empty (without peer item).pending_peers) (BTree.remove hash m)
      (BTree.insert hash (without peer item) m) (remove-IsSorted hash m s)
      (insert-IsSorted hash (without peer item) m s)

answered-IsSorted :
    (m : InflightMap) (peer now : ℕ) (n : Nak) (o : Option Inflight)
    → IsSorted m
    → IsSorted (answered m peer n now o).0
answered-IsSorted m peer now n none s = s
answered-IsSorted m peer now n (some item) s =
    let out = requested n item in
    let left : Inflight = record item { last_sent = now } in
    let stamped = BTree.insert n.item_id left m in
    if_holds (λ (x : InflightMap × List Bytes). IsSorted x.0) (is_pending peer item.pending_peers)
      ((if is_empty out then m else stamped), out) (m, [])
      (if_holds IsSorted (is_empty out) m stamped s (insert-IsSorted n.item_id left m s)) s

turn-IsSorted : (t : Turn) (m : InflightMap) → IsSorted m → IsSorted (turn t m)
unfolding track_inflight on_ack on_nak
turn-IsSorted (track hash frames peers now) m s = insert-IsSorted hash _ m s
turn-IsSorted (ack peer hash) m s =
    if_holds (λ (x : InflightMap × Bool). IsSorted x.0) (hash == 0) (m, false)
      (acked m peer hash (BTree.get hash m)) s (acked-IsSorted m peer hash (BTree.get hash m) s)
turn-IsSorted (nak peer n now) m s = answered-IsSorted m peer now n (BTree.get n.item_id m) s
turn-IsSorted (tick now) m s = retransmit-IsSorted now m s
turn-IsSorted (purge peer) m s = purge-IsSorted peer m s

turn-Fades :
    (start h : ℕ) (t : Turn) (m : InflightMap)
    → IsSorted m
    → IsElse h t
    → Fades start (resends h t m) (BTree.get h m) (BTree.get h (turn t m))
unfolding track_inflight on_ack on_nak
turn-Fades start h (track hash frames peers now) m s e =
    let same : BTree.get h (track_inflight m hash frames peers now) ≡ BTree.get h m =
      get-insert h hash _ m ∙ rw e refl in
    subst (λ o. Fades start 0 (BTree.get h m) o) (sym same) (Fades-refl start (BTree.get h m))
turn-Fades start h (ack peer hash) m s e =
    if_holds (λ (x : InflightMap × Bool). Fades start 0 (BTree.get h m) (BTree.get h x.0))
      (hash == 0) (m, false) (acked m peer hash (BTree.get hash m))
      (Fades-refl start (BTree.get h m)) (Fades-acked start h peer hash m (BTree.get hash m) refl)
turn-Fades start h (nak peer n now) m s e =
    Fades-answered start h peer now n m (BTree.get n.item_id m) refl
turn-Fades start h (tick now) m s e =
    subst (λ o. Fades start (resends_of now (BTree.get h m)) (BTree.get h m) o)
      (sym (get-retransmit now h m s)) (Fades-ticked start now (BTree.get h m))
turn-Fades start h (purge peer) m s e =
    subst (λ o. Fades start 0 (BTree.get h m) o) (sym (get-purge peer h m s))
      (Fades-spared start peer (BTree.get h m))

turns-Fades :
    (start h : ℕ) (ts : List Turn) (m : InflightMap)
    → IsSorted m
    → All (IsElse h) ts
    → Fades start (all_resends h ts m) (BTree.get h m) (BTree.get h (turns ts m))
turns-Fades start h [] m s e = Fades-refl start (BTree.get h m)
turns-Fades start h (t ∷ ts) m s e =
    let first = turn-Fades start h t m s e.0 in
    let rest = turns-Fades start h ts (turn t m) (turn-IsSorted t m s) e.1 in
    record { dated = λ d. rest.dated (first.dated d); paid = omega (arith, first.paid, rest.paid) }

turns-IsSorted : (ts : List Turn) (m : InflightMap) → IsSorted m → IsSorted (turns ts m)
turns-IsSorted [] m s = s
turns-IsSorted (t ∷ ts) m s = turns-IsSorted ts (turn t m) (turn-IsSorted t m s)

old_goes :
    (start now : ℕ) (o : Option Inflight)
    → 90000 < now - start
    → OnSome (λ i. i.first_sent ≡ start) o
    → ticked now o ≡ none
unfolding retransmit_item
old_goes start now none late d = refl
old_goes start now (some item) late d =
    let old : ltb 90000 (now - item.first_sent) ≡ true = ground (arith, d) in rw old refl

-- An item that is sent once is given up: whatever acknowledgements and requests peers send, and
-- whatever else is sent, it is sent again by the retransmit timer six times at most, and the first tick
-- of the timer that is more than 90 seconds later drops it.
pub retransmits_end :
    (m : InflightMap) (h : ℕ) (frames : List Bytes) (peers : List ℕ) (start now : ℕ)
    (ts : List Turn)
    → IsSorted m
    → All (IsElse h) ts
    → 90000 < now - start
    → let sent = track_inflight m h frames peers start in
      (all_resends h ts sent ≤ 6) × (BTree.get h (retransmit now (turns ts sent)).0 ≡ none)
unfolding track_inflight
retransmits_end m h frames peers start now ts s e late =
    let sent = track_inflight m h frames peers start in
    let sorted = turn-IsSorted (track h frames peers start) m s in
    let fades = turns-Fades start h ts sent sorted e in
    let entry : Inflight = record {
      frames = frames;
      attempts = 0;
      last_sent = start;
      first_sent = start;
      pending_peers = extend (peers_of (BTree.get h m)) peers;
    } in
    let held : BTree.get h sent ≡ some entry = get-insert h h entry m ∙ rw (==_self h) refl in
    (
      omega (arith, fades.paid, ap budget held),
      get-retransmit now h (turns ts sent) (turns-IsSorted ts sent sorted)
          ∙ old_goes start now (BTree.get h (turns ts sent)) late
              (fades.dated (subst (OnSome (λ i. i.first_sent ≡ start)) (sym held) refl)),
    )
