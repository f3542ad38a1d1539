-- ===== src/Daemon/Transport.antt =====
-- crates/fluxsyncd/src/transport.rs: the sessions of the peers. An `Arc<PeerConn>` is a slot, the
-- primary one or that of an id in `extra`; the atomics and locks of a slot are fields of its record.
-- Socket addresses are numbers, instants are milliseconds and arguments; the cipher of a session is
-- a parameter (Crypto.Session). Sockets, metrics and the notification of pollers are not modelled.
pub mod Installs
pub mod Addresses
pub mod Misrouted
pub mod Links
pub mod Answered
pub mod Wire
use mathlib.Core.Option
use fluxsync.Base.{
  ℕ, ◌+◌, ◌-◌, ◌%◌, Bool, true, false, not, ◌&&◌, ◌||◌, List, [], ◌∷◌, ◌++◌, Option, none, some,
  ltb, leb, ◌==◌, if◌then◌else◌, any, retain, take, length, is_some, is_some_eq, u64_range,
  pop_front,
}
use fluxsync.Base.BTree
use fluxsync.Base.BTree.{nat_ord}
use fluxsync.Crypto.Session.{Bytes, Session}

abbrev pub type_handshake_init : ℕ
type_handshake_init = 1

abbrev pub type_handshake_resp : ℕ
type_handshake_resp = 2

abbrev pub type_encrypted : ℕ
type_encrypted = 3

abbrev pub roam_min_interval_ms : ℕ
roam_min_interval_ms = 30000

unfoldable pub roam_allowed : ℕ → ℕ → Bool
roam_allowed now_ms last_roam_ms = leb roam_min_interval_ms (now_ms - last_roam_ms)

abbrev pub rekey_max_age_ms : ℕ
rekey_max_age_ms = 86400000

abbrev pub rekey_max_bytes : ℕ
rekey_max_bytes = 1073741824

unfoldable pub rekey_due : ℕ → ℕ → ℕ → ℕ → Bool
rekey_due age_ms bytes max_age_ms max_bytes = leb max_age_ms age_ms || leb max_bytes bytes

unfoldable pub is_rekey_initiator : ℕ → ℕ → Bool
is_rekey_initiator self_peer_id peer_id = ltb self_peer_id peer_id

-- The ephemerals that were answered, `seen` with their order, the oldest first.
pub record AnsweredInits : Type 0 where
  pub seen : List ℕ
  pub order : List ℕ

abbrev pub answered_cap : ℕ
answered_cap = 4096

-- `pop_front` of the order, and what it takes out of `seen`.
abbrev pub forget : List ℕ → List ℕ → List ℕ
forget [] seen = seen
forget (old ∷ order) seen = retain (λ e. not (e == old)) seen

-- The first 32 bytes as a number, where there are as many.
unfoldable pub first_answer : AnsweredInits → Option ℕ → AnsweredInits × Bool
first_answer a none = (a, false)
first_answer a (some e) =
    let seen = e ∷ a.seen in
    let order = a.order ++ e ∷ [] in
    let kept =
      if ltb answered_cap (length order)
      then record { seen = forget order seen; order = pop_front order }
      else record { seen = seen; order = order } in
    if any (λ x. x == e) a.seen then (a, false) else (kept, true)

pub data Slot : Type 0 where
  primary : Slot
  secondary : ℕ → Slot

pub record PeerConn (T : Type 0) : Type 0 where
  pub peer_addr : Option ℕ
  pub last_peer_addr : Option ℕ
  pub last_peer_id : Option ℕ
  pub session : Option (Session T)
  pub session_generation : ℕ
  pub roaming_history : List ℕ
  pub last_rx_ms : ℕ
  pub last_roam_ms : ℕ
  pub session_established_at_ms : ℕ
  pub bytes_since_established : ℕ

pub record Transport (T : Type 0) : Type 0 where
  pub conn : PeerConn T
  pub extra : List (ℕ × PeerConn T)
  pub answered_inits : AnsweredInits

pub data RecvFrame : Type 0 where
  handshake_init : (from : ℕ) → (msg : Bytes) → RecvFrame
  handshake_resp : (from : ℕ) → (msg : Bytes) → RecvFrame
  encrypted : (from peer_id : ℕ) → (plaintext : Bytes) → RecvFrame
  other : (from type_byte : ℕ) → RecvFrame

abbrev pub or_else : Option ℕ → Option ℕ → Option ℕ
or_else none b = b
or_else (some a) b = some a

abbrev pub bump : ℕ → ℕ
bump generation = (generation + 1) % u64_range

module _ {T : Type 0} where
  unfoldable pub new : ℕ → PeerConn T
  new now = record {
    peer_addr = none;
    last_peer_addr = none;
    last_peer_id = none;
    session = none;
    session_generation = 0;
    roaming_history = [];
    last_rx_ms = now;
    last_roam_ms = 0;
    session_established_at_ms = 0;
    bytes_since_established = 0;
  }

  -- What a slot holds.
  abbrev pub at : Transport T → Slot → Option (PeerConn T)
  at t primary = some t.conn
  at t (secondary id) = BTree.get id t.extra

  abbrev pub put : Transport T → Slot → PeerConn T → Transport T
  put t primary c = record t { conn = c }
  put t (secondary id) c = record t { extra = BTree.insert id c t.extra }

  -- A change of what a slot holds; an unknown slot changes nothing.
  abbrev pub put_changed :
      Transport T → Slot → (PeerConn T → PeerConn T) → Option (PeerConn T) → Transport T
  put_changed t slot f none = t
  put_changed t slot f (some c) = put t slot (f c)

  abbrev pub update : Transport T → Slot → (PeerConn T → PeerConn T) → Transport T
  update t slot f = put_changed t slot f (at t slot)

  abbrev pub is_linked : PeerConn T → Bool
  is_linked c = is_some c.session

  -- The primary slot is the peer's, no one's, or not linked.
  abbrev pub is_free : Transport T → ℕ → Bool
  is_free t id =
      is_some_eq t.conn.last_peer_id id
      || not (is_some t.conn.last_peer_id)
      || not (is_linked t.conn)

  unfoldable pub join : Transport T → ℕ → ℕ → Transport T
  unfolding new
  join t id now =
      if BTree.contains_key id t.extra
      then t
      else record t { extra = BTree.insert id (new now) t.extra }

  unfoldable pub acquire_if : Transport T → ℕ → ℕ → Bool → Transport T × Slot
  unfolding join
  acquire_if t id now true = (t, primary)
  acquire_if t id now false = (join t id now, secondary id)

  unfoldable pub acquire_conn : Transport T → ℕ → ℕ → Transport T × Slot
  unfolding acquire_if
  acquire_conn t id now = acquire_if t id now (is_free t id)

  unfoldable pub conn_for : Transport T → ℕ → Option Slot
  conn_for t id =
      if is_some_eq t.conn.last_peer_id id
      then some primary
      else if BTree.contains_key id t.extra
      then some (secondary id)
      else none

  -- What the peer's slot holds, if it has one.
  abbrev pub at_slot : Transport T → Option Slot → Option (PeerConn T)
  at_slot t none = none
  at_slot t (some slot) = at t slot

  abbrev pub peer_conn : Transport T → ℕ → Option (PeerConn T)
  peer_conn t id = at_slot t (conn_for t id)

  abbrev pub update_slot : Transport T → (PeerConn T → PeerConn T) → Option Slot → Transport T
  update_slot t f none = t
  update_slot t f (some slot) = update t slot f

  abbrev pub change_for : Transport T → ℕ → (PeerConn T → PeerConn T) → Transport T
  change_for t id f = update_slot t f (conn_for t id)

  abbrev pub linked_of : Option (PeerConn T) → Bool
  linked_of none = false
  linked_of (some c) = is_linked c

  abbrev pub addr_of : Option (PeerConn T) → Option ℕ
  addr_of none = none
  addr_of (some c) = c.peer_addr

  abbrev pub hash_of : Option (PeerConn T) → Option Bytes
  hash_of none = none
  hash_of (some c) = Option.map (λ s. s.handshake_hash) c.session

  -- The stores of an install, the session first.
  unfoldable pub commit : ℕ → Session T → ℕ → PeerConn T → PeerConn T
  commit id session now c = record c {
    session = some session;
    last_peer_id = some id;
    session_generation = bump c.session_generation;
    session_established_at_ms = now;
    bytes_since_established = 0;
  }

  unfoldable pub install_session : Transport T → ℕ → Session T → ℕ → Transport T
  unfolding acquire_conn commit
  install_session t id session now =
      let (u, slot) = acquire_conn t id now in update u slot (commit id session now)

  unfoldable pub push_history : PeerConn T → ℕ → PeerConn T
  push_history c addr =
      if any (λ a. a == addr) c.roaming_history
      then c
      else record c { roaming_history = take 5 (addr ∷ c.roaming_history) }

  unfoldable pub set_peer_addr : Transport T → ℕ → Transport T
  unfolding push_history
  set_peer_addr t addr =
      let c = t.conn in
      record t {
        conn = push_history (record c { peer_addr = some addr; last_peer_addr = some addr }) addr;
      }

  abbrev pub stamp : ℕ → ℕ → PeerConn T → PeerConn T
  stamp id addr c = record c {
    peer_addr = some addr;
    last_peer_addr = some addr;
    last_peer_id = some id;
  }

  unfoldable pub set_peer_info : Transport T → ℕ → ℕ → ℕ → Transport T
  unfolding acquire_conn push_history
  set_peer_info t id addr now =
      let (u, slot) = acquire_conn t id now in
      update u slot (λ c. push_history (stamp id addr c) addr)

  -- The test of a slot that is free, and the install.
  unfoldable pub install_if_free :
      Transport T → Slot → ℕ → Session T → ℕ → Option (PeerConn T) → Transport T × Bool
  unfolding commit
  install_if_free t slot id session now none = (t, false)
  install_if_free t slot id session now (some c) =
      if is_linked c then (t, false) else (put t slot (commit id session now c), true)

  unfoldable pub try_install_session : Transport T → ℕ → Session T → ℕ → Transport T × Bool
  unfolding acquire_conn install_if_free
  try_install_session t id session now =
      let (u, slot) = acquire_conn t id now in install_if_free u slot id session now (at u slot)

  -- The compare-and-swap on the generation, at the commit point.
  unfoldable pub install_if_generation :
      Transport T → Slot → ℕ → Session T → ℕ → ℕ → Option (PeerConn T) → Transport T × Bool
  unfolding commit
  install_if_generation t slot id session expected now none = (t, false)
  install_if_generation t slot id session expected now (some c) =
      if not (c.session_generation == expected)
      then (t, false)
      else (put t slot (commit id session now c), true)

  unfoldable pub install_primary_session_if_generation :
      Transport T → ℕ → Session T → ℕ → ℕ → Transport T × Bool
  unfolding install_if_generation
  install_primary_session_if_generation t id session expected now =
      install_if_generation t primary id session expected now (some t.conn)

  unfoldable pub install_at : Transport T → ℕ → Session T → ℕ → ℕ → Option Slot → Transport T × Bool
  unfolding install_if_generation
  install_at t id session expected now none = (t, false)
  install_at t id session expected now (some slot) =
      install_if_generation t slot id session expected now (at t slot)

  unfoldable pub install_session_if_generation_for :
      Transport T → ℕ → Session T → ℕ → ℕ → Transport T × Bool
  unfolding install_at conn_for
  install_session_if_generation_for t id session expected now =
      install_at t id session expected now (conn_for t id)

  unfoldable pub session_generation_for : Transport T → ℕ → Option ℕ
  unfolding conn_for
  session_generation_for t id = Option.map (λ c. c.session_generation) (peer_conn t id)

  abbrev pub dropped : PeerConn T → PeerConn T
  dropped c = record c { session = none; session_generation = bump c.session_generation }

  unfoldable pub drop_session : Transport T → Transport T
  drop_session t = record t { conn = dropped t.conn }

  unfoldable pub drop_session_for : Transport T → ℕ → Transport T
  unfolding conn_for
  drop_session_for t id = change_for t id dropped

  unfoldable pub purge_peer : Transport T → ℕ → Transport T
  unfolding drop_session_for
  purge_peer t id = let u = drop_session_for t id in record u { extra = BTree.remove id u.extra }

  unfoldable pub set_peer_addr_for : Transport T → ℕ → ℕ → Transport T
  unfolding conn_for
  set_peer_addr_for t id addr =
      change_for t id (λ c. record c { peer_addr = some addr; last_peer_addr = some addr })

  unfoldable pub peer_addr_for : Transport T → ℕ → Option ℕ
  unfolding conn_for
  peer_addr_for t id = addr_of (peer_conn t id)

  abbrev pub cached_peer_id : Transport T → Option ℕ
  cached_peer_id t = t.conn.last_peer_id

  unfoldable pub has_session_for : Transport T → ℕ → Bool
  unfolding conn_for
  has_session_for t id = linked_of (peer_conn t id)

  unfoldable pub session_established_at_for : Transport T → ℕ → Option ℕ
  unfolding conn_for
  session_established_at_for t id = Option.map (λ c. c.session_established_at_ms) (peer_conn t id)

  unfoldable pub session_handshake_hash_for : Transport T → ℕ → Option Bytes
  unfolding conn_for
  session_handshake_hash_for t id = hash_of (peer_conn t id)

  abbrev pub linked_in : List (ℕ × PeerConn T) → List ℕ
  linked_in [] = []
  linked_in ((id, c) ∷ m) = let rest = linked_in m in if is_linked c then id ∷ rest else rest

  abbrev pub linked_primary : PeerConn T → List ℕ
  linked_primary c =
      if is_linked c then elim c.last_peer_id [ none ↦ [] | some id ↦ id ∷ [] ] else []

  unfoldable pub linked_peer_ids : Transport T → List ℕ
  linked_peer_ids t = linked_primary t.conn ++ linked_in t.extra

  unfoldable pub secondary_liveness : List (ℕ × PeerConn T) → List (ℕ × ℕ)
  secondary_liveness [] = []
  secondary_liveness ((id, c) ∷ m) =
      let rest = secondary_liveness m in if is_linked c then (id, c.last_rx_ms) ∷ rest else rest

  -- The first of `extra` that is linked.
  unfoldable pub first_linked : List (ℕ × PeerConn T) → Option (ℕ × PeerConn T)
  first_linked [] = none
  first_linked ((id, c) ∷ m) =
      let rest = first_linked m in if is_linked c then some (id, c) else rest

  -- The primary slot with what the secondary brings.
  unfoldable pub promoted : PeerConn T → ℕ → PeerConn T → ℕ → PeerConn T
  promoted c id sec now = record c {
    session = sec.session;
    last_peer_id = some id;
    peer_addr = sec.peer_addr;
    last_peer_addr = or_else sec.peer_addr c.last_peer_addr;
    last_rx_ms = sec.last_rx_ms;
    session_generation = bump c.session_generation;
    session_established_at_ms = now;
    bytes_since_established = 0;
  }

  unfoldable pub promote : Transport T → ℕ → Option (ℕ × PeerConn T) → Transport T × Option ℕ
  unfolding promoted
  promote t now none = (t, none)
  promote t now (some (id, sec)) =
      (record t { conn = promoted t.conn id sec now; extra = BTree.remove id t.extra }, some id)

  unfoldable pub promote_secondary : Transport T → ℕ → Transport T × Option ℕ
  unfolding promote first_linked
  promote_secondary t now = promote t now (first_linked t.extra)
