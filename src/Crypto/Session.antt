-- ===== src/Crypto/Session.antt =====
-- crates/fluxsync-crypto/src/session.rs: `Session`. The cipher below it is snow's transport state,
-- which is a parameter. Every failure of `decrypt` is the same opaque error, hence `none`.
pub mod Once
pub mod RoundTrip
use mathlib.Core.Option
use fluxsync.Base.{
  ℕ, zero, suc, ◌+◌, ◌*◌, ◌/◌, ◌%◌, Bool, not, List, [], ◌∷◌, ◌++◌, Option, none, some, ltb, leb,
  if◌then◌else◌, take, length,
}
use fluxsync.Crypto.Replay.{ReplayWindow, default, is_fresh, accept}

abbrev pub Bytes : Type 0
Bytes = List ℕ

abbrev pub nonce_prefix_len : ℕ
nonce_prefix_len = 8

-- `snow::TransportState`: what the session calls of it.
pub record Cipher (T : Type 0) : Type 0 where
  pub sending_nonce : T → ℕ
  pub write_message : T → Bytes → T × Option Bytes
  pub set_receiving_nonce : T → ℕ → T
  pub read_message : T → Bytes → T × Option Bytes

pub record Session (T : Type 0) : Type 0 where
  pub transport : T
  pub replay : ReplayWindow
  pub handshake_hash : Bytes

-- `u64::to_le_bytes` for eight bytes, and back.
unfoldable pub to_le_bytes : ℕ → ℕ → Bytes
to_le_bytes zero n = []
to_le_bytes (suc k) n = n % 256 ∷ to_le_bytes k (n / 256)

unfoldable pub from_le_bytes : Bytes → ℕ
from_le_bytes [] = 0
from_le_bytes (b ∷ bs) = b + 256 * from_le_bytes bs

abbrev pub skip : ℕ → Bytes → Bytes
skip zero bs = bs
skip (suc n) [] = []
skip (suc n) (b ∷ bs) = skip n bs

abbrev pub nonce_of : Bytes → ℕ
nonce_of framed = from_le_bytes (take nonce_prefix_len framed)

module _ {T : Type 0} where
  unfoldable pub new : T → Bytes → Session T
  new transport handshake_hash = record {
    transport = transport;
    replay = default;
    handshake_hash = handshake_hash;
  }

  unfoldable pub encrypt : Cipher T → Session T → Bytes → Session T × Option Bytes
  encrypt c s plaintext =
      let nonce = c.sending_nonce s.transport in
      let (transport, buf) = c.write_message s.transport plaintext in
      (
        record s { transport = transport },
        Option.map (λ b. to_le_bytes nonce_prefix_len nonce ++ b) buf,
      )

  -- The end of `decrypt`: only an authentic frame uses its nonce up.
  unfoldable pub settle : Session T → T → ℕ → Option Bytes → Session T × Option Bytes
  settle s transport nonce none = (record s { transport = transport }, none)
  settle s transport nonce (some buf) =
      (record s { transport = transport; replay = accept s.replay nonce }, some buf)

  unfoldable pub decrypt : Cipher T → Session T → Bytes → Session T × Option Bytes
  unfolding settle
  decrypt c s framed =
      let nonce = nonce_of framed in
      let ciphertext = skip nonce_prefix_len framed in
      let (transport, buf) = c.read_message (c.set_receiving_nonce s.transport nonce) ciphertext in
      if ltb (length framed) nonce_prefix_len
      then (s, none)
      else if not (leb 16 (length ciphertext))
      then (s, none)
      else if not (is_fresh s.replay nonce)
      then (s, none)
      else settle s transport nonce buf
