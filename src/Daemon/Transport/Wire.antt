-- ===== src/Daemon/Transport/Wire.antt =====
-- crates/fluxsyncd/src/transport.rs: what goes over the socket. `none` stands for an error, a
-- datagram that is sent is the address with the bytes. The calls run one after the other, so the
-- compare-and-swap on `last_roam_ms` succeeds, and no reconnect comes between the two reads of the
-- generation in `send_on`.
pub mod Roaming
use mathlib.Core.Option
use fluxsync.Base.{
  ℕ, ◌+◌, ◌%◌, Bool, true, false, List, [], ◌∷◌, Option, none, some, ◌==◌, if◌then◌else◌,
  is_some_eq, u64_range, length,
}
use fluxsync.Base.BTree
use fluxsync.Crypto.Session.{Bytes, Cipher, Session, encrypt, decrypt}
use fluxsync.Daemon.Transport.{
  Slot, PeerConn, Transport, RecvFrame, handshake_init, handshake_resp, encrypted, other, at, put,
  conn_for, push_history, roam_allowed, type_handshake_init, type_handshake_resp, type_encrypted,
}

abbrev pub Datagram : Type 0
Datagram = ℕ × Bytes

unfoldable pub send_typed : ℕ → Bytes → ℕ → Datagram
send_typed type_byte body to = (to, type_byte ∷ body)

module _ {T : Type 0} where
  abbrev pub with_session : PeerConn T → Session T → PeerConn T
  with_session c s = record c { session = some s }

  -- Behind the encryption: the bytes are counted, and the datagram goes out.
  abbrev pub sent : PeerConn T → ℕ → Option Bytes → PeerConn T × Option Datagram
  sent c addr none = (c, none)
  sent c addr (some ct) = (
    record c { bytes_since_established = (c.bytes_since_established + length ct) % u64_range },
    some (addr, type_encrypted ∷ ct),
  )

  -- Authentic bytes from elsewhere move the peer's address, once in an interval.
  unfoldable pub roamed : PeerConn T → ℕ → ℕ → PeerConn T
  unfolding push_history roam_allowed
  roamed c from now =
      if is_some_eq c.peer_addr from
      then c
      else if roam_allowed now c.last_roam_ms
      then push_history
          (record c { peer_addr = some from; last_peer_addr = some from; last_roam_ms = now }) from
      else c

  -- Behind the decryption.
  unfoldable pub opened : PeerConn T → ℕ → ℕ → ℕ → Option Bytes → PeerConn T × Option Bytes
  unfolding roamed
  opened c from size now none = (c, none)
  opened c from size now (some pt) =
      let counted = (c.bytes_since_established + size) % u64_range in
      (
        record (roamed (record c { bytes_since_established = counted }) from now) {
          last_rx_ms = now;
        },
        some pt,
      )

  abbrev pub next_extra :
      ℕ
      → List (ℕ × PeerConn T)
      → List (ℕ × PeerConn T) × Option (ℕ × Bytes)
      → PeerConn T × Option Bytes
      → List (ℕ × PeerConn T) × Option (ℕ × Bytes)
  next_extra id m rest (c, none) = ((id, c) ∷ rest.0, rest.1)
  next_extra id m rest (c, some pt) = ((id, c) ∷ m, some (id, pt))

  abbrev pub on_extra :
      Transport T → List (ℕ × PeerConn T) × Option (ℕ × Bytes) → Transport T × Option (ℕ × Bytes)
  on_extra t (extra, found) = (record t { extra = extra }, found)

  abbrev pub next_primary :
      Transport T
      → ℕ
      → Transport T × Option (ℕ × Bytes)
      → PeerConn T × Option Bytes
      → Transport T × Option (ℕ × Bytes)
  next_primary t id (u, found) (c, none) = (record u { conn = c }, found)
  next_primary t id rest (c, some pt) = (record t { conn = c }, some (id, pt))

module _ {T : Type 0} (cipher : Cipher T) where
  abbrev pub send_sealed :
      PeerConn T → ℕ → Bytes → Option (Session T) → PeerConn T × Option Datagram
  send_sealed c addr plaintext none = (c, none)
  send_sealed c addr plaintext (some s) =
      let (s', ct) = encrypt cipher s plaintext in sent (with_session c s') addr ct

  abbrev pub send_from : PeerConn T → Bytes → Option ℕ → PeerConn T × Option Datagram
  send_from c plaintext none = (c, none)
  send_from c plaintext (some addr) = send_sealed c addr plaintext c.session

  unfoldable pub send_on : PeerConn T → Bytes → PeerConn T × Option Datagram
  send_on c plaintext = send_from c plaintext c.peer_addr

  unfoldable pub send_encrypted : Transport T → Bytes → Transport T × Option Datagram
  unfolding send_on
  send_encrypted t plaintext = let (c, d) = send_on t.conn plaintext in (record t { conn = c }, d)

  abbrev pub send_held :
      Transport T → Slot → Bytes → Option (PeerConn T) → Transport T × Option Datagram
  send_held t slot plaintext none = (t, none)
  send_held t slot plaintext (some c) = let (c', d) = send_on c plaintext in (put t slot c', d)

  abbrev pub send_slot : Transport T → Bytes → Option Slot → Transport T × Option Datagram
  send_slot t plaintext none = (t, none)
  send_slot t plaintext (some slot) = send_held t slot plaintext (at t slot)

  unfoldable pub send_encrypted_to : Transport T → ℕ → Bytes → Transport T × Option Datagram
  unfolding conn_for send_on
  send_encrypted_to t peer_id plaintext = send_slot t plaintext (conn_for t peer_id)

  unfoldable pub try_session :
      PeerConn T → ℕ → Bytes → ℕ → Option (Session T) → PeerConn T × Option Bytes
  unfolding opened
  try_session c from body now none = (c, none)
  try_session c from body now (some s) =
      let (s', pt) = decrypt cipher s body in opened (with_session c s') from (length body) now pt

  unfoldable pub try_conn : PeerConn T → ℕ → Bytes → ℕ → PeerConn T × Option Bytes
  unfolding try_session
  try_conn c from body now = try_session c from body now c.session

  unfoldable pub try_extra :
      List (ℕ × PeerConn T) → ℕ → Bytes → ℕ → List (ℕ × PeerConn T) × Option (ℕ × Bytes)
  unfolding try_conn
  try_extra [] from body now = ([], none)
  try_extra ((id, c) ∷ m) from body now =
      let rest = try_extra m from body now in next_extra id m rest (try_conn c from body now)

  -- The primary slot is a candidate where it knows whose it is.
  unfoldable pub try_all : Transport T → ℕ → Bytes → ℕ → Option ℕ → Transport T × Option (ℕ × Bytes)
  unfolding try_conn try_extra
  try_all t from body now none = on_extra t (try_extra t.extra from body now)
  try_all t from body now (some id) =
      next_primary t id (on_extra t (try_extra t.extra from body now))
        (try_conn t.conn from body now)

  unfoldable pub recv : Transport T → ℕ → Bytes → ℕ → Transport T × Option RecvFrame
  unfolding try_all
  recv t from [] now = (t, some (other from 0))
  recv t from (type_byte ∷ body) now =
      let (u, found) = try_all t from body now t.conn.last_peer_id in
      if type_byte == type_handshake_init
      then (t, some (handshake_init from body))
      else if type_byte == type_handshake_resp
      then (t, some (handshake_resp from body))
      else if type_byte == type_encrypted
      then (u, Option.map (λ f. encrypted from f.0 f.1) found)
      else (t, some (other from type_byte))
