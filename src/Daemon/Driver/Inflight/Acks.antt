-- ===== src/Daemon/Driver/Inflight/Acks.antt =====
-- Who an item waits for, and who can ask for it.
use fluxsync.Base.{
  ℕ, ◌≡◌, inl, inr, refl, sym, ap, subst, ◌∙◌, Bool, true, false, not, List, [], ◌∷◌, Option, none,
  some, arith, ◌==◌, ==_self, if◌then◌else◌, is_empty, retain, if_holds, Bool-cases,
}
use fluxsync.Base.BTree
use fluxsync.Base.BTree.{nat_ord}
use fluxsync.Base.BTree.Laws.{get-insert, get-remove}
use fluxsync.Daemon.Driver.Inflight.{
  Inflight, InflightMap, is_pending, without, acked, on_ack, on_nak,
}
use fluxsync.Proto.Msg.{Nak}

-- The acknowledgements of one item, by their peers.
abbrev pub acks : ℕ → List ℕ → InflightMap → InflightMap
acks hash [] m = m
acks hash (p ∷ ps) m = acks hash ps (on_ack m p hash).0

-- The peers that are still waited for.
abbrev pub owing : List ℕ → List ℕ → List ℕ
owing [] peers = peers
owing (p ∷ ps) peers = owing ps (retain (λ q. not (q == p)) peers)

abbrev pub left_over : Inflight → List ℕ → Option Inflight
left_over item peers = if is_empty peers then none else some (record item { pending_peers = peers })

owing_none : (ps : List ℕ) → owing ps [] ≡ []
owing_none [] = refl
owing_none (p ∷ ps) = owing_none ps

acks-none :
    (hash : ℕ) (ps : List ℕ) (m : InflightMap)
    → BTree.get hash m ≡ none
    → BTree.get hash (acks hash ps m) ≡ none
unfolding on_ack
acks-none hash [] m gone = gone
acks-none hash (p ∷ ps) m gone = acks-none hash ps (on_ack m p hash).0 (
    if_holds (λ (x : InflightMap × Bool). BTree.get hash x.0 ≡ none) (hash == 0) (m, false)
      (acked m p hash (BTree.get hash m)) gone
      (subst (λ o. BTree.get hash (acked m p hash o).0 ≡ none) (sym gone) gone))

empty_list : (xs : List ℕ) → is_empty xs ≡ true → xs ≡ []
empty_list [] h = refl
empty_list (x ∷ xs) h = ground arith

on_ack_held :
    (hash p : ℕ) (m : InflightMap) (item : Inflight)
    → (hash == 0) ≡ false
    → BTree.get hash m ≡ some item
    → (on_ack m p hash).0 ≡ (
        if is_empty (without p item).pending_peers
        then BTree.remove hash m
        else BTree.insert hash (without p item) m)
unfolding on_ack
on_ack_held hash p m item real held = rw real (ap (λ o. (acked m p hash o).0) held)

-- An item is dropped when every peer that it was sent to has acknowledged it, and not before: after
-- acknowledgements in any order, repeated and from other peers too, it waits for the peers that have
-- sent none, with the rest as it was.
pub acks_exact :
    (hash : ℕ) (ps : List ℕ) (m : InflightMap) (item : Inflight)
    → (hash == 0) ≡ false
    → BTree.get hash m ≡ some item
    → is_empty item.pending_peers ≡ false
    → BTree.get hash (acks hash ps m) ≡ left_over item (owing ps item.pending_peers)
unfolding on_ack
acks_exact hash [] m item real held some_peer = held ∙ rw some_peer refl
acks_exact hash (p ∷ ps) m item real held some_peer =
    let left = without p item in
    let next = on_ack_held hash p m item real held in
    elim (Bool-cases (is_empty left.pending_peers)) [
      | inl all ↦
          let m' : (on_ack m p hash).0 ≡ BTree.remove hash m = next ∙ rw all refl in
          let gone : BTree.get hash (BTree.remove hash m) ≡ none =
            get-remove hash hash m ∙ rw (==_self hash) refl in
          ap (λ x. BTree.get hash (acks hash ps x)) m'
          ∙ acks-none hash ps (BTree.remove hash m) gone
          ∙ sym (
              ap (left_over item)
                (ap (owing ps) (empty_list left.pending_peers all) ∙ owing_none ps))
      | inr more ↦
          let m' : (on_ack m p hash).0 ≡ BTree.insert hash left m = next ∙ rw more refl in
          let here : BTree.get hash (BTree.insert hash left m) ≡ some left =
            get-insert hash hash left m ∙ rw (==_self hash) refl in
          ap (λ x. BTree.get hash (acks hash ps x)) m'
          ∙ acks_exact hash ps (BTree.insert hash left m) left real here more
    ]

-- Frames go only to a peer that the item waits for; any other peer that names it gets none, and
-- changes nothing.
pub naks_refused :
    (m : InflightMap) (peer now : ℕ) (n : Nak) (item : Inflight)
    → BTree.get n.item_id m ≡ some item
    → is_pending peer item.pending_peers ≡ false
    → on_nak m peer n now ≡ (m, [])
unfolding on_nak
naks_refused m peer now n item held refused = rw held (rw refused refl)
