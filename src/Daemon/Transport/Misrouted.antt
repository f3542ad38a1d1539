-- ===== src/Daemon/Transport/Misrouted.antt =====
-- crates/fluxsyncd/src/transport.rs: where the address of a session of a secondary link may go.
use fluxsync.Base.{
  ℕ, ◌≡◌, refl, sym, ap, subst, ◌∙◌, Bool, true, false, List, [], ◌∷◌, some, arith, ◌==◌, any,
  any-append, is_some, is_some_eq, ==_self,
}
use fluxsync.Base.BTree
use fluxsync.Base.BTree.{nat_ord}
use fluxsync.Base.BTree.Laws.{contains_key-is_some}
use fluxsync.Crypto.Session.{Session}
use fluxsync.Daemon.Transport.{
  Slot, primary, secondary, PeerConn, Transport, at, put, is_linked, is_free, acquire_if,
  acquire_conn, conn_for, update, linked_of, commit, stamp, push_history, set_peer_info,
  install_if_generation, install_at, install_session_if_generation_for, has_session_for,
  linked_peer_ids, linked_in, linked_primary,
}
use fluxsync.Daemon.Transport.Addresses.{named-push_history, linked-push_history, peer_conn-at}

module _ {T : Type 0} where
  linked_in-insert :
      (id : ℕ) (d : PeerConn T) (m : List (ℕ × PeerConn T))
      → is_linked d ≡ true
      → any (λ x. x == id) (linked_in (BTree.insert id d m)) ≡ true
  linked_in-insert id d [] h = ground (arith, h)
  linked_in-insert id d ((j, c) ∷ m) h = ground (arith, h, linked_in-insert id d m)

  primary_slot :
      (t : Transport T) (id : ℕ) → t.conn.last_peer_id ≡ some id → conn_for t id ≡ some primary
  unfolding conn_for
  primary_slot t id named = ground (arith, named, ==_self id)

  unlinked :
      (t : Transport T) (id : ℕ)
      → t.conn.last_peer_id ≡ some id
      → is_linked t.conn ≡ false
      → has_session_for t id ≡ false
  unfolding has_session_for
  unlinked t id named down =
      ap linked_of (peer_conn-at t id primary t.conn (primary_slot t id named) refl) ∙ down

  secondary_linked :
      (t : Transport T) (id : ℕ) (d : PeerConn T) (m : List (ℕ × PeerConn T))
      → is_linked d ≡ true
      → t.extra ≡ BTree.insert id d m
      → any (λ x. x == id) (linked_peer_ids t) ≡ true
  unfolding linked_peer_ids
  secondary_linked t id d m h e =
      let last : any (λ x. x == id) (linked_in t.extra) ≡ true =
        ap (λ k. any (λ x. x == id) (linked_in k)) e ∙ linked_in-insert id d m h in
      ground (arith, any-append (λ x. x == id) (linked_primary t.conn) (linked_in t.extra), last)

  secondary_slot :
      (t : Transport T) (id : ℕ) (c : PeerConn T)
      → is_some_eq t.conn.last_peer_id id ≡ false
      → BTree.get id t.extra ≡ some c
      → conn_for t id ≡ some (secondary id)
  unfolding conn_for
  secondary_slot t id c other known =
      let held : BTree.contains_key id t.extra ≡ true =
        contains_key-is_some id t.extra ∙ ap is_some known in
      rw other (rw held refl)

  installed :
      (t : Transport T) (id now : ℕ) (s : Session T) (slot : Slot) (c : PeerConn T)
      → conn_for t id ≡ some slot
      → at t slot ≡ some c
      → install_session_if_generation_for t id s c.session_generation now
        ≡ (put t slot (commit id s now c), true)
  unfolding install_session_if_generation_for install_at install_if_generation
  installed t id now s slot c known held =
      let g = c.session_generation in
      ap (install_at t id s g now) known
      ∙ ap (install_if_generation t slot id s g now) held
      ∙ rw (==_self g) refl

  stored_primary :
      (t : Transport T) (id addr now : ℕ)
      → is_free t id ≡ true
      → set_peer_info t id addr now ≡ (record t { conn = push_history (stamp id addr t.conn) addr })
  unfolding set_peer_info acquire_conn acquire_if
  stored_primary t id addr now free =
      ap
        (λ b.
          let r = acquire_if t id now b in
          update r.0 r.1 (λ x. push_history (stamp id addr x) addr))
        free

  -- The store of the address goes elsewhere than the install where another device was the last in
  -- the primary slot, which is not linked, while the peer still has a slot among the secondary ones:
  -- the new session is installed and counted as a link, and yet the peer is not linked for those
  -- that send to it.
  pub reconnect_misrouted :
      (t : Transport T) (id addr now later : ℕ) (s : Session T) (c : PeerConn T)
      → is_linked t.conn ≡ false
      → is_some_eq t.conn.last_peer_id id ≡ false
      → BTree.get id t.extra ≡ some c
      → let (u, done) = install_session_if_generation_for t id s c.session_generation now in
        let v = set_peer_info u id addr later in
        (done ≡ true)
        × (has_session_for v id ≡ false)
        × (any (λ x. x == id) (linked_peer_ids v) ≡ true)
  unfolding commit
  reconnect_misrouted t id addr now later s c down other known =
      let e = commit id s now c in
      let u = put t (secondary id) e in
      let w = push_history (stamp id addr t.conn) addr in
      let v = record u { conn = w } in
      let slot : conn_for t id ≡ some (secondary id) = secondary_slot t id c other known in
      let left = installed t id now s (secondary id) c slot known in
      let free : is_free u id ≡ true = ground (arith, down) in
      let stored : set_peer_info u id addr later ≡ v = stored_primary u id addr later free in
      let named : w.last_peer_id ≡ some id = named-push_history (stamp id addr t.conn) addr in
      let down_still : is_linked w ≡ false =
        ap is_some (linked-push_history (stamp id addr t.conn) addr) ∙ down in
      subst
        (λ (r : Transport T × Bool).
          (r.1 ≡ true)
          × (has_session_for (set_peer_info r.0 id addr later) id ≡ false)
          × (any (λ x. x == id) (linked_peer_ids (set_peer_info r.0 id addr later)) ≡ true))
        (sym left)
        (
          refl,
          ap (λ x. has_session_for x id) stored ∙ unlinked v id named down_still,
          ap (λ x. any (λ y. y == id) (linked_peer_ids x)) stored
              ∙ secondary_linked v id e t.extra refl refl,
        )
