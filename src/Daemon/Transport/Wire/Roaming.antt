-- ===== src/Daemon/Transport/Wire/Roaming.antt =====
-- How often the address of a peer moves.
use fluxsync.Base.{
  ℕ, suc, ◌+◌, ◌-◌, ◌*◌, ◌%◌, u64_range, ◌≤◌, ◌≡◌, ◌⊎◌, inl, inr, refl, Bool, true, false, List, [],
  ◌∷◌, Option, none, some, arith, ◌==◌, if◌then◌else◌, is_some_eq, length, leb, leb→le, Bool-cases,
  if_holds, ==_self,
}
use fluxsync.Crypto.Session.{Bytes, Cipher, Session, decrypt}
use fluxsync.Base.BTree
use fluxsync.Base.BTree.{nat_ord}
use fluxsync.Daemon.Transport.{
  Slot, primary, secondary, PeerConn, Transport, RecvFrame, handshake_init, handshake_resp,
  encrypted, other, at, addr_of, push_history, roam_allowed, type_handshake_init,
  type_handshake_resp, type_encrypted,
}
use mathlib.Core.Option
use fluxsync.Daemon.Transport.Wire.{
  opened, roamed, try_session, try_conn, try_extra, try_all, next_extra, next_primary, on_extra,
  recv, with_session,
}

-- Where a datagram comes from, its bytes, and when.
pub record Arrival : Type 0 where
  pub from : ℕ
  pub datagram : Bytes
  pub at_ms : ℕ

-- The times do not go back, and end by `stop`.
abbrev pub AreInOrder : ℕ → List Arrival → ℕ → Type 0
AreInOrder now [] stop = now ≤ stop
AreInOrder now (d ∷ ds) stop = (now ≤ d.at_ms) × AreInOrder d.at_ms ds stop

abbrev pub is_same : Option ℕ → Option ℕ → Bool
is_same none none = true
is_same (some a) (some b) = a == b
is_same none (some b) = false
is_same (some a) none = false

same_self : (o : Option ℕ) → is_same o o ≡ true
same_self none = refl
same_self (some a) = ==_self a

ends : (now : ℕ) (ds : List Arrival) (stop : ℕ) → AreInOrder now ds stop → now ≤ stop
ends now [] stop h = h
ends now (d ∷ ds) stop h = omega (arith, h.0, ends d.at_ms ds stop h.1)

module _ {T : Type 0} where
  -- The address stays with the time of its last move, or moves when an interval has passed.
  abbrev Moved : ℕ → PeerConn T → PeerConn T → Type 0
  Moved now c e =
      ((e.peer_addr ≡ c.peer_addr) × (e.last_roam_ms ≡ c.last_roam_ms))
      ⊎ ((c.last_roam_ms + 30000 ≤ now) × (e.last_roam_ms ≡ now))

  roam-push_history :
      (c : PeerConn T) (addr : ℕ) → (push_history c addr).last_roam_ms ≡ c.last_roam_ms
  unfolding push_history
  roam-push_history c addr = ground arith

  Moved-roamed : (c : PeerConn T) (from now : ℕ) → Moved now c (roamed c from now)
  unfolding roamed roam_allowed
  Moved-roamed c from now = elim (Bool-cases (is_some_eq c.peer_addr from)) [
    | inl at_home ↦ rw at_home (inl (refl, refl))
    | inr away ↦ elim (Bool-cases (leb 30000 (now - c.last_roam_ms))) [
      | inl due ↦
          rw (away, due)
            (inr (
              ground (arith, leb→le 30000 (now - c.last_roam_ms) due),
              roam-push_history
                  (record c {
                    peer_addr = some from;
                    last_peer_addr = some from;
                    last_roam_ms = now;
                  })
                  from,
            ))
      | inr early ↦ rw (away, early) (inl (refl, refl))
    ]
  ]

  Moved-opened :
      (c : PeerConn T) (from size now : ℕ) (pt : Option Bytes)
      → Moved now c (opened c from size now pt).0
  unfolding opened
  Moved-opened c from size now none = inl (refl, refl)
  Moved-opened c from size now (some pt) =
      Moved-roamed
        (record c { bytes_since_established = (c.bytes_since_established + size) % u64_range }) from
        now

module _ {T : Type 0} where
  abbrev roam_of : Option (PeerConn T) → ℕ
  roam_of none = 0
  roam_of (some c) = c.last_roam_ms

  -- The same of what a slot holds.
  abbrev MovedIn : ℕ → Option (PeerConn T) → Option (PeerConn T) → Type 0
  MovedIn now o p =
      ((addr_of p ≡ addr_of o) × (roam_of p ≡ roam_of o))
      ⊎ ((roam_of o + 30000 ≤ now) × (roam_of p ≡ now))

  MovedIn-next_extra :
      (id j now : ℕ) (c : PeerConn T) (m : List (ℕ × PeerConn T))
      (rest : List (ℕ × PeerConn T) × Option (ℕ × Bytes)) (r : PeerConn T × Option Bytes)
      → Moved now c r.0
      → MovedIn now (BTree.get id m) (BTree.get id rest.0)
      → MovedIn now (BTree.get id ((j, c) ∷ m)) (BTree.get id (next_extra j m rest r).0)
  MovedIn-next_extra id j now c m rest (e, none) moved others = elim (Bool-cases (j == id)) [
    | inl here ↦ rw here moved
    | inr away ↦ rw away others
  ]
  MovedIn-next_extra id j now c m rest (e, some pt) moved others = elim (Bool-cases (j == id)) [
    | inl here ↦ rw here moved
    | inr away ↦ rw away (inl (refl, refl))
  ]

  MovedIn-next_primary :
      (slot : Slot) (id now : ℕ) (t : Transport T) (r : List (ℕ × PeerConn T) × Option (ℕ × Bytes))
      (p : PeerConn T × Option Bytes)
      → Moved now t.conn p.0
      → ((j : ℕ) → MovedIn now (BTree.get j t.extra) (BTree.get j r.0))
      → MovedIn now (at t slot) (at (next_primary t id (on_extra t r) p).0 slot)
  MovedIn-next_primary primary id now t r (e, none) moved others = moved
  MovedIn-next_primary primary id now t r (e, some pt) moved others = moved
  MovedIn-next_primary (secondary j) id now t r (e, none) moved others = others j
  MovedIn-next_primary (secondary j) id now t r (e, some pt) moved others = inl (refl, refl)

module _ {T : Type 0} (cipher : Cipher T) where
  Moved-try_session :
      (c : PeerConn T) (from : ℕ) (body : Bytes) (now : ℕ) (s : Option (Session T))
      → Moved now c (try_session cipher c from body now s).0
  unfolding try_session
  Moved-try_session c from body now none = inl (refl, refl)
  Moved-try_session c from body now (some s) =
      let (s', pt) = decrypt cipher s body in
      Moved-opened (with_session c s') from (length body) now pt

  MovedIn-try_extra :
      (id : ℕ) (m : List (ℕ × PeerConn T)) (from : ℕ) (body : Bytes) (now : ℕ)
      → MovedIn now (BTree.get id m) (BTree.get id (try_extra cipher m from body now).0)
  unfolding try_extra try_conn
  MovedIn-try_extra id [] from body now = inl (refl, refl)
  MovedIn-try_extra id ((j, c) ∷ m) from body now =
      MovedIn-next_extra id j now c m (try_extra cipher m from body now)
        (try_conn cipher c from body now) (Moved-try_session c from body now c.session)
        (MovedIn-try_extra id m from body now)

  MovedIn-on_extra :
      (slot : Slot) (t : Transport T) (from : ℕ) (body : Bytes) (now : ℕ)
      → MovedIn now (at t slot) (at (on_extra t (try_extra cipher t.extra from body now)).0 slot)
  MovedIn-on_extra primary t from body now = inl (refl, refl)
  MovedIn-on_extra (secondary j) t from body now = MovedIn-try_extra j t.extra from body now

  MovedIn-try_all :
      (slot : Slot) (t : Transport T) (from : ℕ) (body : Bytes) (now : ℕ) (o : Option ℕ)
      → MovedIn now (at t slot) (at (try_all cipher t from body now o).0 slot)
  unfolding try_all try_conn
  MovedIn-try_all slot t from body now none = MovedIn-on_extra slot t from body now
  MovedIn-try_all slot t from body now (some id) =
      MovedIn-next_primary slot id now t (try_extra cipher t.extra from body now)
        (try_conn cipher t.conn from body now)
        (Moved-try_session t.conn from body now t.conn.session)
        (λ j. MovedIn-try_extra j t.extra from body now)

  MovedIn-recv :
      (slot : Slot) (t : Transport T) (from : ℕ) (datagram : Bytes) (now : ℕ)
      → MovedIn now (at t slot) (at (recv cipher t from datagram now).0 slot)
  unfolding recv
  MovedIn-recv slot t from [] now = inl (refl, refl)
  MovedIn-recv slot t from (ty ∷ body) now =
      let (u, found) = try_all cipher t from body now t.conn.last_peer_id in
      let Goal : Transport T × Option RecvFrame → Type 0 =
        λ r. MovedIn now (at t slot) (at r.0 slot) in
      let frame = Option.map (λ (f : ℕ × Bytes). encrypted from f.0 f.1) found in
      if_holds Goal (ty == type_handshake_init) (t, some (handshake_init from body)) _
        (inl (refl, refl))
        (if_holds Goal (ty == type_handshake_resp) (t, some (handshake_resp from body)) _
          (inl (refl, refl))
          (if_holds Goal (ty == type_encrypted) (u, frame) (t, some (other from ty))
            (MovedIn-try_all slot t from body now t.conn.last_peer_id) (inl (refl, refl))))

  -- How often the address of the slot moves.
  abbrev pub moves : Transport T → Slot → List Arrival → ℕ
  moves t slot [] = 0
  moves t slot (d ∷ ds) =
      let u = (recv cipher t d.from d.datagram d.at_ms).0 in
      let rest = moves u slot ds in
      if is_same (addr_of (at u slot)) (addr_of (at t slot)) then rest else suc rest

  moves_after :
      (t : Transport T) (slot : Slot) (ds : List Arrival) (now stop : ℕ)
      → roam_of (at t slot) ≤ now
      → AreInOrder now ds stop
      → 30000 * moves t slot ds ≤ stop - roam_of (at t slot)
  moves_after t slot [] now stop past order = omega arith
  moves_after t slot (d ∷ ds) now stop past order =
      let u = (recv cipher t d.from d.datagram d.at_ms).0 in
      elim (MovedIn-recv slot t d.from d.datagram d.at_ms) [
        | inl (same, kept) ↦
            let rest =
              moves_after u slot ds d.at_ms stop (omega (arith, kept, order.0, past)) order.1 in
            rw (same, same_self (addr_of (at t slot))) (omega (arith, kept, rest))
        | inr (due, moved) ↦
            let rest = moves_after u slot ds d.at_ms stop (omega (arith, moved)) order.1 in
            let last = ends d.at_ms ds stop order.1 in
            if_holds (λ n. 30000 * n ≤ stop - roam_of (at t slot))
              (is_same (addr_of (at u slot)) (addr_of (at t slot))) (moves u slot ds)
              (suc (moves u slot ds)) (omega (arith, due, moved, rest, last))
              (omega (arith, due, moved, rest, last))
      ]

  -- The address that a peer is sent to moves once, and then once in 30 seconds at most, whatever the
  -- slot has seen before and whatever datagrams `recv` is given, authentic ones from other addresses
  -- among them. A handshake that completes sets the address by another call.
  pub moves_bounded :
      (t : Transport T) (slot : Slot) (ds : List Arrival) (start stop : ℕ)
      → AreInOrder start ds stop
      → 30000 * moves t slot ds ≤ 30000 + (stop - start)
  moves_bounded t slot [] start stop order = omega arith
  moves_bounded t slot (d ∷ ds) start stop order =
      let u = (recv cipher t d.from d.datagram d.at_ms).0 in
      let last = ends d.at_ms ds stop order.1 in
      elim (MovedIn-recv slot t d.from d.datagram d.at_ms) [
        | inl (same, kept) ↦
            let rest = moves_bounded u slot ds d.at_ms stop order.1 in
            rw (same, same_self (addr_of (at t slot))) (omega (arith, rest, order.0))
        | inr (due, moved) ↦
            let rest = moves_after u slot ds d.at_ms stop (omega (arith, moved)) order.1 in
            if_holds (λ n. 30000 * n ≤ 30000 + (stop - start))
              (is_same (addr_of (at u slot)) (addr_of (at t slot))) (moves u slot ds)
              (suc (moves u slot ds)) (omega (arith, moved, rest, last, order.0))
              (omega (arith, moved, rest, last, order.0))
      ]
