-- ===== src/Crypto/Session/RoundTrip.antt =====
-- A session opens what its peer sealed.
use mathlib.Core.Option
use fluxsync.Base.{
  ℕ, zero, suc, ◌+◌, ◌*◌, ◌/◌, ◌%◌, ◌≤◌, ◌<◌, ◌≡◌, refl, sym, subst, ◌∙◌, ap, true, false, ◌∷◌,
  ◌++◌, Option, none, some, arith, ltb, leb, Option-cases, inl, inr, take, length, length-append,
  u64_range,
}
use fluxsync.Crypto.Replay.{is_fresh}
use fluxsync.Crypto.Session.{
  Bytes, nonce_prefix_len, Cipher, Session, to_le_bytes, from_le_bytes, skip, nonce_of, encrypt,
  settle, decrypt,
}

take-to_le_bytes : (k n : ℕ) (bs : Bytes) → take k (to_le_bytes k n ++ bs) ≡ to_le_bytes k n
unfolding to_le_bytes
take-to_le_bytes zero n bs = refl
take-to_le_bytes (suc k) n bs = ap (λ xs. n % 256 ∷ xs) (take-to_le_bytes k (n / 256) bs)

skip-to_le_bytes : (k n : ℕ) (bs : Bytes) → skip k (to_le_bytes k n ++ bs) ≡ bs
unfolding to_le_bytes
skip-to_le_bytes zero n bs = refl
skip-to_le_bytes (suc k) n bs = skip-to_le_bytes k (n / 256) bs

length-to_le_bytes : (k n : ℕ) → length (to_le_bytes k n) ≡ k
unfolding to_le_bytes
length-to_le_bytes zero n = refl
length-to_le_bytes (suc k) n = omega (arith, length-to_le_bytes k (n / 256))

abbrev byte_range : ℕ → ℕ
byte_range zero = 1
byte_range (suc k) = 256 * byte_range k

from_le_bytes-to_le_bytes : (k n : ℕ) → n < byte_range k → from_le_bytes (to_le_bytes k n) ≡ n
unfolding to_le_bytes from_le_bytes
from_le_bytes-to_le_bytes zero n lt = omega arith
from_le_bytes-to_le_bytes (suc k) n lt =
    omega (arith, from_le_bytes-to_le_bytes k (n / 256) (omega arith))

-- What snow documents of two transport states of one session: a message that one side writes has a
-- tag of sixteen bytes, and the other side, at the nonce it was written with, reads it back.
pub record IsPaired {T : Type 0} (c : Cipher T) (tx rx : T) : Type 0 where
  pub tagged : (p buf : Bytes) → (c.write_message tx p).1 ≡ some buf → length buf ≡ length p + 16
  pub reads :
      (p buf : Bytes)
      → (c.write_message tx p).1 ≡ some buf
      → (c.read_message (c.set_receiving_nonce rx (c.sending_nonce tx)) buf).1 ≡ some p

module _ {T : Type 0} (c : Cipher T) where
  settle_out :
      (s : Session T) (t : T) (nonce : ℕ) (buf : Option Bytes) → (settle s t nonce buf).1 ≡ buf
  unfolding settle
  settle_out s t nonce none = refl
  settle_out s t nonce (some buf) = refl

  decrypt_passes :
      (r : Session T) (f : Bytes)
      → ltb (length f) nonce_prefix_len ≡ false
      → leb 16 (length (skip nonce_prefix_len f)) ≡ true
      → is_fresh r.replay (nonce_of f) ≡ true
      → (decrypt c r f).1
        ≡ (c.read_message
            (c.set_receiving_nonce r.transport (nonce_of f))
            (skip nonce_prefix_len f)).1
  unfolding decrypt
  decrypt_passes r f long tag fresh =
      let (t, buf) =
        c.read_message (c.set_receiving_nonce r.transport (nonce_of f)) (skip nonce_prefix_len f) in
      rw (long, tag, fresh) (settle_out r t (nonce_of f) buf)

  decrypt_sealed :
      (r : Session T) (nonce : ℕ) (buf : Bytes)
      → nonce < u64_range
      → is_fresh r.replay nonce ≡ true
      → 16 ≤ length buf
      → (decrypt c r (to_le_bytes nonce_prefix_len nonce ++ buf)).1
        ≡ (c.read_message (c.set_receiving_nonce r.transport nonce) buf).1
  decrypt_sealed r nonce buf lt fresh tag =
      decrypt_passes r framed long tagged (ap (is_fresh r.replay) is_nonce ∙ fresh)
      ∙ ap (λ n. (c.read_message (c.set_receiving_nonce r.transport n) body).1) is_nonce
      ∙ ap (λ b. (c.read_message (c.set_receiving_nonce r.transport nonce) b).1) is_buf
    where
      framed : Bytes
      framed = to_le_bytes nonce_prefix_len nonce ++ buf

      body : Bytes
      body = skip nonce_prefix_len framed

      is_nonce : nonce_of framed ≡ nonce
      is_nonce =
          ap from_le_bytes (take-to_le_bytes nonce_prefix_len nonce buf)
          ∙ from_le_bytes-to_le_bytes 8 nonce lt

      is_buf : body ≡ buf
      is_buf = skip-to_le_bytes nonce_prefix_len nonce buf

      long : ltb (length framed) nonce_prefix_len ≡ false
      long = ground (arith, length-append (to_le_bytes 8 nonce) buf, length-to_le_bytes 8 nonce)

      tagged : leb 16 (length body) ≡ true
      tagged = ground (arith, ap length is_buf)

  -- A frame that one side seals is opened by the other to the same plaintext, as long as its nonce
  -- is a 64-bit one that the window still lets through.
  pub decrypt-encrypt :
      (s r : Session T) (plaintext framed : Bytes)
      → IsPaired c s.transport r.transport
      → c.sending_nonce s.transport < u64_range
      → is_fresh r.replay (c.sending_nonce s.transport) ≡ true
      → (encrypt c s plaintext).1 ≡ some framed
      → (decrypt c r framed).1 ≡ some plaintext
  unfolding encrypt
  decrypt-encrypt s r plaintext framed paired lt fresh sealed =
      elim (Option-cases (c.write_message s.transport plaintext).1) [
        | inl failed ↦ absurd (no_frame failed sealed)
        | inr (buf, wrote) ↦
            subst (λ f. (decrypt c r f).1 ≡ some plaintext) (is_frame buf wrote sealed)
              (decrypt_sealed r (c.sending_nonce s.transport) buf lt fresh
                  (omega (arith, paired.tagged plaintext buf wrote))
                ∙ paired.reads plaintext buf wrote)
      ]
    where
      prefix : Bytes → Bytes
      prefix b = to_le_bytes nonce_prefix_len (c.sending_nonce s.transport) ++ b

      no_frame : {o : Option Bytes} → o ≡ none → Option.map prefix o ≡ some framed → ⊥
      no_frame h k = ground (arith, sym (ap (Option.map prefix) h) ∙ k)

      is_frame :
          {o : Option Bytes} (buf : Bytes)
          → o ≡ some buf
          → Option.map prefix o ≡ some framed
          → prefix buf ≡ framed
      is_frame buf h k = ground (arith, sym (ap (Option.map prefix) h) ∙ k)
