-- ===== src/Daemon/Transport/Links.antt =====
-- A secondary link that takes the place of the primary one.
use mathlib.Core.Bool.{true≢false}
use fluxsync.Base.{
  ℕ, ◌+◌, ◌≡◌, refl, sym, true, false, List, [], ◌∷◌, Option, none, some, arith, ◌==◌, not,
  is_empty, count, is_some, ==_self, Bool-cases, inl, inr,
}
use fluxsync.Base.Aged.{has, AreDistinct}
use fluxsync.Base.BTree
use fluxsync.Base.BTree.{nat_ord}
use fluxsync.Daemon.Transport.{
  PeerConn, Transport, is_linked, linked_in, linked_peer_ids, first_linked, promoted, promote,
  promote_secondary,
}

abbrev pub times : ℕ → List ℕ → ℕ
times id ids = count (λ x. x == id) ids

apart : (j k : ℕ) (ids : List ℕ) → has j ids ≡ false → has k ids ≡ true → (j == k) ≡ false
apart j k [] out in_ = absurd (true≢false (sym in_))
apart j k (x ∷ ids) out in_ = ground (arith, apart j k ids)

-- What occurs is in the list.
listed : (j n : ℕ) (ids : List ℕ) → times j ids ≡ times j (j ∷ []) + n → true ≡ not (is_empty ids)
listed j n [] h = absurd (ground (arith, ==_self j))
listed j n (x ∷ ids) h = refl

module _ {T : Type 0} where
  abbrev pub keys : List (ℕ × PeerConn T) → List ℕ
  keys [] = []
  keys ((j, c) ∷ m) = j ∷ keys m

  remove_absent :
      (j : ℕ) (m : List (ℕ × PeerConn T)) → has j (keys m) ≡ false → BTree.remove j m ≡ m
  remove_absent j [] h = refl
  remove_absent j ((k, c) ∷ m) h = ground (arith, remove_absent j m)

  -- The chosen one is among the keys.
  abbrev Chosen : List (ℕ × PeerConn T) → Option (ℕ × PeerConn T) → Type 0
  Chosen m none = linked_in m ≡ []
  Chosen m (some (j, c)) =
      (has j (keys m) ≡ true)
      × (BTree.get j m ≡ some c)
      × (is_linked c ≡ true)
      × ((id : ℕ)
          → times id (linked_in m) ≡ times id (j ∷ []) + times id (linked_in (BTree.remove j m)))

  -- An entry that is not linked is passed by.
  pass_by :
      (j : ℕ) (c : PeerConn T) (m : List (ℕ × PeerConn T)) (o : Option (ℕ × PeerConn T))
      → has j (keys m) ≡ false
      → is_linked c ≡ false
      → Chosen m o
      → Chosen ((j, c) ∷ m) o
  pass_by j c m none out dead h = rw dead h
  pass_by j c m (some (k, e)) out dead h =
      let other = apart j k (keys m) out h.0 in
      (
        ground (arith, h.0),
        ground (arith, other, h.1),
        h.2,
        λ id. ground (arith, other, dead, h.3 id),
      )

  chosen : (m : List (ℕ × PeerConn T)) → AreDistinct (keys m) → Chosen m (first_linked m)
  unfolding first_linked
  chosen [] d = refl
  chosen ((j, c) ∷ m) d = elim (Bool-cases (is_linked c)) [
    | inl linked ↦ rw linked (
      ground arith,
      ground (arith, ==_self j),
      linked,
      λ id. ground (arith, linked, remove_absent j m d.0),
    )
    | inr dead ↦ rw dead (pass_by j c m (first_linked m) d.0 dead (chosen m d.1))
  ]

  -- What became of the slots: where a secondary link took over, the primary slot has its session, its
  -- address and the instant at which it was heard, and the entry is gone; else all is as it was.
  abbrev pub Took : Transport T → Transport T → Option ℕ → Type 0
  Took t u none = u ≡ t
  Took t u (some id) =
      (c : PeerConn T) × (BTree.get id t.extra ≡ some c)
      × (u.conn.session ≡ c.session)
      × (u.conn.peer_addr ≡ c.peer_addr)
      × (u.conn.last_rx_ms ≡ c.last_rx_ms)
      × (u.conn.last_peer_id ≡ some id)
      × (u.extra ≡ BTree.remove id t.extra)
      × (u.answered_inits ≡ t.answered_inits)

  promote_links :
      (t : Transport T) (now : ℕ) (o : Option (ℕ × PeerConn T))
      → is_linked t.conn ≡ false
      → Chosen t.extra o
      → let (u, r) = promote t now o in
        ((id : ℕ) → times id (linked_peer_ids u) ≡ times id (linked_peer_ids t))
        × (is_linked u.conn ≡ is_some r)
        × (is_some r ≡ not (is_empty (linked_in t.extra)))
        × Took t u r
  unfolding promote promoted linked_peer_ids
  promote_links t now none down h = rw down (λ id. refl, refl, rw h refl, refl)
  promote_links t now (some (j, c)) down h = rw down (
    λ id. rw h.2 (ground (arith, h.3 id)),
    h.2,
    listed j _ (linked_in t.extra) (h.3 j),
    (c, h.1, refl, refl, refl, refl, refl, refl),
  )

  -- Where the primary is not linked, a secondary link takes its place if there is any: then every
  -- device is linked as often as before, and the primary slot names one that is, with the session
  -- and the address of its link and the instant at which it was heard. Else nothing changes.
  pub promote_secondary_links :
      (t : Transport T) (now : ℕ)
      → AreDistinct (keys t.extra)
      → is_linked t.conn ≡ false
      → let (u, r) = promote_secondary t now in
        ((id : ℕ) → times id (linked_peer_ids u) ≡ times id (linked_peer_ids t))
        × (is_linked u.conn ≡ is_some r)
        × (is_some r ≡ not (is_empty (linked_in t.extra)))
        × Took t u r
  unfolding promote_secondary linked_peer_ids
  promote_secondary_links t now d down =
      promote_links t now (first_linked t.extra) down (chosen t.extra d)
