-- ===== src/Daemon/Driver/Inflight/Entries.antt =====
-- What the turns of the loop leave of one item.
use fluxsync.Base.{
  ℕ, ◌+◌, ◌<◌, ◌≡◌, inl, inr, refl, ap, subst, ◌∙◌, Bool, true, false, not, List, [], ◌∷◌, Option,
  none, some, arith, ◌==◌, if◌then◌else◌, is_empty, Bool-cases,
}
use fluxsync.Base.BTree
use fluxsync.Base.BTree.{nat_ord}
use fluxsync.Base.BTree.Sorted.{IsBelow, IsSorted, get_below}
use fluxsync.Core.Events.{Bytes}
use fluxsync.Daemon.Driver.Inflight.{
  Inflight, InflightMap, RetransmitBatch, without, on_ack, on_nak, retransmit_item, kept,
  retransmit, purge_peer_from_inflight, track_inflight,
}
use fluxsync.Proto.Msg.{Nak}

-- What happens to the map; `track` is a send of another item.
pub data Turn : Type 0 where
  track : (hash : ℕ) → List Bytes → List ℕ → (now : ℕ) → Turn
  ack : (peer hash : ℕ) → Turn
  nak : (peer : ℕ) → Nak → (now : ℕ) → Turn
  tick : (now : ℕ) → Turn
  purge : (peer : ℕ) → Turn

abbrev pub turn : Turn → InflightMap → InflightMap
turn (track hash frames peers now) m = track_inflight m hash frames peers now
turn (ack peer hash) m = (on_ack m peer hash).0
turn (nak peer n now) m = (on_nak m peer n now).0
turn (tick now) m = (retransmit now m).0
turn (purge peer) m = purge_peer_from_inflight peer m

abbrev pub turns : List Turn → InflightMap → InflightMap
turns [] m = m
turns (t ∷ ts) m = turns ts (turn t m)

abbrev pub sent_again : Option (Inflight × Bool) → ℕ
sent_again none = 0
sent_again (some (item, false)) = 0
sent_again (some (item, true)) = 1

abbrev pub resends_of : ℕ → Option Inflight → ℕ
resends_of now none = 0
resends_of now (some item) = sent_again (retransmit_item now item)

-- How often a turn sends the frames of an item again.
abbrev pub resends : ℕ → Turn → InflightMap → ℕ
resends hash (tick now) m = resends_of now (BTree.get hash m)
resends hash _ m = 0

abbrev pub all_resends : ℕ → List Turn → InflightMap → ℕ
all_resends hash [] m = 0
all_resends hash (t ∷ ts) m = resends hash t m + all_resends hash ts (turn t m)

-- No turn sends this item anew.
abbrev pub IsElse : ℕ → Turn → Type 0
IsElse hash (track other frames peers now) = (hash == other) ≡ false
IsElse hash _ = Unit

abbrev pub staying : Option (Inflight × Bool) → Option Inflight
staying none = none
staying (some (item, b)) = some item

abbrev pub ticked : ℕ → Option Inflight → Option Inflight
ticked now none = none
ticked now (some item) = staying (retransmit_item now item)

kept-IsBelow :
    (i hash : ℕ) (o : Option (Inflight × Bool)) (rest : InflightMap × List RetransmitBatch)
    → i < hash
    → IsBelow i rest.0
    → IsBelow i (kept hash o rest).0
kept-IsBelow i hash none rest lt h = h
kept-IsBelow i hash (some (item, false)) rest lt h = (lt, h)
kept-IsBelow i hash (some (item, true)) rest lt h = (lt, h)

retransmit-IsBelow : (now i : ℕ) (m : InflightMap) → IsBelow i m → IsBelow i (retransmit now m).0
unfolding retransmit
retransmit-IsBelow now i [] h = tt
retransmit-IsBelow now i ((j, item) ∷ m) h =
    kept-IsBelow i j (retransmit_item now item) (retransmit now m) h.0
      (retransmit-IsBelow now i m h.1)

kept-IsSorted :
    (hash : ℕ) (o : Option (Inflight × Bool)) (rest : InflightMap × List RetransmitBatch)
    → IsBelow hash rest.0
    → IsSorted rest.0
    → IsSorted (kept hash o rest).0
kept-IsSorted hash none rest below h = h
kept-IsSorted hash (some (item, false)) rest below h = (below, h)
kept-IsSorted hash (some (item, true)) rest below h = (below, h)

pub retransmit-IsSorted : (now : ℕ) (m : InflightMap) → IsSorted m → IsSorted (retransmit now m).0
unfolding retransmit
retransmit-IsSorted now [] h = tt
retransmit-IsSorted now ((j, item) ∷ m) h =
    kept-IsSorted j (retransmit_item now item) (retransmit now m) (retransmit-IsBelow now j m h.0)
      (retransmit-IsSorted now m h.1)

get-kept :
    (h j : ℕ) (o : Option (Inflight × Bool)) (rest : InflightMap × List RetransmitBatch)
    → ((h == j) ≡ true → BTree.get h rest.0 ≡ none)
    → BTree.get h (kept j o rest).0 ≡ (if h == j then staying o else BTree.get h rest.0)
get-kept h j none rest gone = ground (arith, gone)
get-kept h j (some (item, false)) rest gone = ground arith
get-kept h j (some (item, true)) rest gone = ground arith

pub same_key : (h j : ℕ) → (h == j) ≡ true → j ≡ h
same_key h j same = ground arith

pub get-retransmit :
    (now h : ℕ) (m : InflightMap)
    → IsSorted m
    → BTree.get h (retransmit now m).0 ≡ ticked now (BTree.get h m)
unfolding retransmit
get-retransmit now h [] s = refl
get-retransmit now h ((j, item) ∷ m) s =
    get-kept h j (retransmit_item now item) (retransmit now m) (λ same.
      get-retransmit now h m s.1
      ∙ ap (ticked now) (get_below h m (subst (λ x. IsBelow x m) (same_key h j same) s.0)))
    ∙ ground (arith, get-retransmit now h m s.1)

-- What a purge leaves of an item.
abbrev pub spared : ℕ → Option Inflight → Option Inflight
spared peer none = none
spared peer (some item) =
    if not (is_empty (without peer item).pending_peers) then some (without peer item) else none

purge-IsBelow :
    (peer i : ℕ) (m : InflightMap) → IsBelow i m → IsBelow i (purge_peer_from_inflight peer m)
unfolding purge_peer_from_inflight
purge-IsBelow peer i [] h = tt
purge-IsBelow peer i ((j, item) ∷ m) h = ground (arith, purge-IsBelow peer i m h.1)

pub purge-IsSorted :
    (peer : ℕ) (m : InflightMap) → IsSorted m → IsSorted (purge_peer_from_inflight peer m)
unfolding purge_peer_from_inflight
purge-IsSorted peer [] h = tt
purge-IsSorted peer ((j, item) ∷ m) h =
    ground (arith, purge-IsSorted peer m h.1, purge-IsBelow peer j m h.0)

pub get-purge :
    (peer h : ℕ) (m : InflightMap)
    → IsSorted m
    → BTree.get h (purge_peer_from_inflight peer m) ≡ spared peer (BTree.get h m)
unfolding purge_peer_from_inflight
get-purge peer h [] s = refl
get-purge peer h ((j, item) ∷ m) s = elim (Bool-cases (h == j)) [
  | inl same ↦
      let gone : BTree.get h m ≡ none =
        get_below h m (subst (λ x. IsBelow x m) (same_key h j same) s.0) in
      ground (arith, get-purge peer h m s.1, gone)
  | inr other ↦ ground (arith, get-purge peer h m s.1)
]
