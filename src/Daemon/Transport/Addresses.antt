-- ===== src/Daemon/Transport/Addresses.antt =====
-- crates/fluxsyncd/src/transport.rs: where the address of a new session goes.
use mathlib.Core.Bool.{true≢false}
use fluxsync.Base.{
  ℕ, ◌≡◌, refl, sym, ap, subst, ◌∙◌, Bool, true, false, not, ◌||◌, ◌∷◌, Option, none, some, arith,
  is_some, is_some_eq, if_same, ==_self,
}
use fluxsync.Base.BTree
use fluxsync.Base.BTree.{nat_ord}
use fluxsync.Base.BTree.Laws.{get-insert, contains_key-insert}
use mathlib.Core.Option
use fluxsync.Crypto.Session.{Bytes, Cipher, Session, encrypt}
use fluxsync.Daemon.Transport.Wire.{
  send_on, send_from, send_sealed, send_held, send_slot, send_encrypted_to, sent, with_session,
}
use fluxsync.Daemon.Transport.Installs.{conn_for-put}
use fluxsync.Daemon.Transport.{
  Slot, secondary, PeerConn, Transport, at, put, is_linked, new, is_free, join, acquire_if,
  acquire_conn, conn_for, at_slot, peer_conn, put_changed, update, addr_of, commit, stamp,
  push_history, set_peer_info, install_if_free, try_install_session, peer_addr_for, type_encrypted,
}

module _ {T : Type 0} where
  pub named-push_history :
      (c : PeerConn T) (addr : ℕ) → (push_history c addr).last_peer_id ≡ c.last_peer_id
  unfolding push_history
  named-push_history c addr = ground arith

  pub linked-push_history : (c : PeerConn T) (addr : ℕ) → (push_history c addr).session ≡ c.session
  unfolding push_history
  linked-push_history c addr = ground arith

  addressed-push_history :
      (c : PeerConn T) (addr : ℕ) → (push_history c addr).peer_addr ≡ c.peer_addr
  unfolding push_history
  addressed-push_history c addr = ground arith

  abbrev pub session_of : Option (PeerConn T) → Option (Session T)
  session_of none = none
  session_of (some c) = c.session

  -- The peer's own slot has this session and this address.
  abbrev IsReached : Transport T → ℕ → Session T → ℕ → Type 0
  IsReached t id s addr = (session_of (peer_conn t id) ≡ some s) × (peer_addr_for t id ≡ some addr)

  pub peer_conn-at :
      (t : Transport T) (id : ℕ) (slot : Slot) (c : PeerConn T)
      → conn_for t id ≡ some slot
      → at t slot ≡ some c
      → peer_conn t id ≡ some c
  peer_conn-at t id slot c known held = ap (at_slot t) known ∙ held

  IsReached-at :
      (t : Transport T) (id : ℕ) (s : Session T) (addr : ℕ) (c : PeerConn T)
      → peer_conn t id ≡ some c
      → c.session ≡ some s
      → c.peer_addr ≡ some addr
      → IsReached t id s addr
  unfolding peer_addr_for
  IsReached-at t id s addr c held linked addressed =
      (ap session_of held ∙ linked, ap addr_of held ∙ addressed)

  info_reaches :
      (t u : Transport T) (id : ℕ) (s : Session T) (addr now : ℕ) (slot : Slot) (c : PeerConn T)
      → acquire_conn t id now ≡ (u, slot)
      → conn_for u id ≡ some slot
      → at u slot ≡ some c
      → c.session ≡ some s
      → IsReached (set_peer_info t id addr now) id s addr
  unfolding set_peer_info
  info_reaches t u id s addr now slot c acquired known held linked =
      let d = push_history (stamp id addr c) addr in
      let kept = conn_for-put u id slot d known (named-push_history (stamp id addr c) addr) in
      let left : set_peer_info t id addr now ≡ put u slot d =
        ap (λ (r : Transport T × Slot). update r.0 r.1 (λ x. push_history (stamp id addr x) addr))
          acquired
        ∙ ap (put_changed u slot (λ x. push_history (stamp id addr x) addr)) held in
      subst (λ x. IsReached x id s addr) (sym left)
        (IsReached-at (put u slot d) id s addr d
          (peer_conn-at (put u slot d) id slot d kept.0 kept.1)
          (linked-push_history (stamp id addr c) addr ∙ linked)
          (addressed-push_history (stamp id addr c) addr))

  -- The slot that an install commits in is the one that the address is stored in.
  abbrev Again : Transport T → ℕ → ℕ → Session T → PeerConn T → ℕ → Transport T × Slot → Type 0
  Again t id now s c later (u, slot) =
      let v = put u slot (commit id s now c) in
      (acquire_conn v id later ≡ (v, slot))
      × (conn_for v id ≡ some slot)
      × (at v slot ≡ some (commit id s now c))

  join_known :
      (t : Transport T) (id now : ℕ) → BTree.contains_key id t.extra ≡ true → join t id now ≡ t
  unfolding join
  join_known t id now h = rw h refl

  conn-join : (t : Transport T) (id now : ℕ) → (join t id now).conn ≡ t.conn
  unfolding join
  conn-join t id now =
      if_same (λ (x : Transport T). x.conn) (BTree.contains_key id t.extra) t
        (record t { extra = BTree.insert id (new now) t.extra }) refl refl

  Again-secondary :
      (u : Transport T) (id now later : ℕ) (s : Session T) (c : PeerConn T)
      → is_free u id ≡ false
      → Again u id now s c later (u, secondary id)
  unfolding acquire_conn acquire_if conn_for
  Again-secondary u id now later s c h =
      let d = commit id s now c in
      let v = put u (secondary id) d in
      let known : BTree.contains_key id v.extra ≡ true =
        ground (arith, contains_key-insert id id d u.extra) in
      let held : BTree.get id v.extra ≡ some d = ground (arith, get-insert id id d u.extra) in
      let other : is_some_eq u.conn.last_peer_id id ≡ false = ground (arith, h) in
      (
        ap (acquire_if v id later) h
            ∙ ap (λ (x : Transport T). (x, secondary id)) (join_known v id later known),
        rw other (rw known refl),
        held,
      )

  Again-acquire_if :
      (t : Transport T) (id now later : ℕ) (s : Session T) (c : PeerConn T) (b : Bool)
      → is_free t id ≡ b
      → Again t id now s c later (acquire_if t id now b)
  unfolding acquire_conn acquire_if commit conn_for
  Again-acquire_if t id now later s c true h =
      let same = ==_self id in (rw same refl, rw same refl, refl)
  Again-acquire_if t id now later s c false h = Again-secondary (join t id now) id now later s c (
      ap
        (λ (x : PeerConn T).
          is_some_eq x.last_peer_id id || not (is_some x.last_peer_id) || not (is_linked x))
        (conn-join t id now)
      ∙ h)

  free_inv :
      (t : Transport T) (slot : Slot) (id : ℕ) (s : Session T) (now : ℕ) (o : Option (PeerConn T))
      → (install_if_free t slot id s now o).1 ≡ true
      → (c : PeerConn T) × ((install_if_free t slot id s now o).0 ≡ put t slot (commit id s now c))
  unfolding install_if_free
  free_inv t slot id s now none done = absurd (true≢false (sym done))
  free_inv t slot id s now (some c) done = (c, ground arith)

  reached :
      (t : Transport T) (id addr now later : ℕ) (s : Session T)
      → (try_install_session t id s now).1 ≡ true
      → IsReached (set_peer_info (try_install_session t id s now).0 id addr later) id s addr
  unfolding try_install_session acquire_conn
  reached t id addr now later s done =
      let (u, slot) = acquire_if t id now (is_free t id) in
      let (c, left) = free_inv u slot id s now (at u slot) done in
      let again = Again-acquire_if t id now later s c (is_free t id) refl in
      let v = put u slot (commit id s now c) in
      subst (λ (x : Transport T). IsReached (set_peer_info x id addr later) id s addr) (sym left)
        (info_reaches v v id s addr later slot (commit id s now c) again.0 again.1 again.2 refl)

  sent_datagram :
      (c : PeerConn T) (addr : ℕ) (o : Option Bytes)
      → (sent c addr o).1 ≡ Option.map (λ ct. (addr, type_encrypted ∷ ct)) o
  sent_datagram c addr none = refl
  sent_datagram c addr (some ct) = refl

  -- What is sent to a peer whose slot has a session and an address.
  sends_from :
      (cipher : Cipher T) (t : Transport T) (slot : Slot) (s : Session T) (addr : ℕ)
      (plaintext : Bytes) (c : PeerConn T)
      → c.session ≡ some s
      → c.peer_addr ≡ some addr
      → (send_held cipher t slot plaintext (some c)).1
        ≡ Option.map (λ ct. (addr, type_encrypted ∷ ct)) (encrypt cipher s plaintext).1
  unfolding send_on
  sends_from cipher t slot s addr plaintext c held addressed =
      let (s', ct) = encrypt cipher s plaintext in
      ap (λ o. (send_from cipher c plaintext o).1) addressed
      ∙ ap (λ o. (send_sealed cipher c addr plaintext o).1) held
      ∙ sent_datagram (with_session c s') addr ct

  sends_held :
      (cipher : Cipher T) (t : Transport T) (slot : Slot) (s : Session T) (addr : ℕ)
      (plaintext : Bytes) (o : Option (PeerConn T))
      → session_of o ≡ some s
      → addr_of o ≡ some addr
      → (send_held cipher t slot plaintext o).1
        ≡ Option.map (λ ct. (addr, type_encrypted ∷ ct)) (encrypt cipher s plaintext).1
  sends_held cipher t slot s addr plaintext none held addressed = ground arith
  sends_held cipher t slot s addr plaintext (some c) held addressed =
      sends_from cipher t slot s addr plaintext c held addressed

  sends_at :
      (cipher : Cipher T) (t : Transport T) (id : ℕ) (s : Session T) (addr : ℕ) (plaintext : Bytes)
      (o : Option Slot)
      → session_of (at_slot t o) ≡ some s
      → addr_of (at_slot t o) ≡ some addr
      → (send_slot cipher t plaintext o).1
        ≡ Option.map (λ ct. (addr, type_encrypted ∷ ct)) (encrypt cipher s plaintext).1
  sends_at cipher t id s addr plaintext none held addressed = ground arith
  sends_at cipher t id s addr plaintext (some slot) held addressed =
      sends_held cipher t slot s addr plaintext (at t slot) held addressed

  -- Where a first session is installed for a peer, and its address is stored then, the peer is linked
  -- at that address by this session: what is sent to it goes out to that address, sealed by it.
  pub try_install_session-set_peer_info :
      (cipher : Cipher T) (t : Transport T) (id addr now later : ℕ) (s : Session T)
      (plaintext : Bytes)
      → (try_install_session t id s now).1 ≡ true
      → let u = set_peer_info (try_install_session t id s now).0 id addr later in
        (session_of (peer_conn u id) ≡ some s)
        × (peer_addr_for u id ≡ some addr)
        × ((send_encrypted_to cipher u id plaintext).1
            ≡ Option.map (λ ct. (addr, type_encrypted ∷ ct)) (encrypt cipher s plaintext).1)
  unfolding send_encrypted_to peer_addr_for
  try_install_session-set_peer_info cipher t id addr now later s plaintext done =
      let u = set_peer_info (try_install_session t id s now).0 id addr later in
      let (held, addressed) = reached t id addr now later s done in
      (held, addressed, sends_at cipher u id s addr plaintext (conn_for u id) held addressed)
