-- ===== src/Proto/Codec.antt =====
-- crates/fluxsync-proto/src/codec.rs: the checks on both ends of the wire. CBOR is ciborium's, a
-- parameter. `none` is the `Ok(())` of a check.
pub mod Laws
use Prim.Native.String.{len}
use fluxsync.Base.{
  ℕ, max, Bool, true, false, not, ◌&&◌, ◌||◌, List, [], ◌∷◌, String, Option, none, some, ltb, leb,
  ◌==◌, if◌then◌else◌, any, length,
}
use fluxsync.Base.Text.{any_char, is_control}
use fluxsync.Proto.Msg.{
  ClipboardItem, Chunk, Nak, Hello, Msg, clipboard_item, chunk, nak, battery_status, hello,
  resync_offer, resync_pull, Frame,
}

abbrev pub protocol_version : ℕ
protocol_version = 2

abbrev pub max_payload : ℕ
max_payload = 16777216

abbrev pub max_chunk_data : ℕ
max_chunk_data = 1024

abbrev pub max_chunks : ℕ
max_chunks = 16384

abbrev pub max_nak_missing : ℕ
max_nak_missing = 512

abbrev pub max_hello_name : ℕ
max_hello_name = 256

abbrev pub max_hello_platform : ℕ
max_hello_platform = 16

abbrev pub max_hello_caps : ℕ
max_hello_caps = 32

abbrev pub max_cap_len : ℕ
max_cap_len = 64

abbrev pub max_resync_hashes : ℕ
max_resync_hashes = 32

abbrev pub resync_hash_len : ℕ
resync_hash_len = 64

pub data ProtoError : Type 0 where
  version : (got expected : ℕ) → ProtoError
  payload_too_large : ℕ → ProtoError
  chunk_data_too_large : ℕ → ProtoError
  chunk_total_too_large : ℕ → ProtoError
  chunk_total_zero : ProtoError
  chunk_index_out_of_range : (idx total : ℕ) → ProtoError
  nak_missing_too_large : ℕ → ProtoError
  battery_level : ℕ → ProtoError
  hello_name_too_long : ℕ → ProtoError
  hello_platform_too_long : ℕ → ProtoError
  hello_name_not_printable : ProtoError
  hello_platform_not_ascii_printable : ProtoError
  hello_caps_too_many : ℕ → ProtoError
  hello_cap_too_long : ℕ → ProtoError
  hello_cap_not_ascii_printable : ProtoError
  resync_too_many_hashes : ℕ → ProtoError
  resync_hash_malformed : ProtoError
  cbor : String → ProtoError
  cbor_encode : String → ProtoError

-- A result, or why there is none.
pub data Result {ℓ κ} (A : Type ℓ) (E : Type κ) : Type (ℓ ⊔ κ) where
  ok : A → Result A E
  err : E → Result A E

-- ciborium, on frames.
pub record Cbor : Type 0 where
  pub into_writer : Frame → Result (List ℕ) String
  pub from_reader : List ℕ → Result Frame String

-- Every byte of the text is in the range; a character beyond it has a byte beyond it.
unfoldable pub is_ascii_printable_cap : String → Bool
is_ascii_printable_cap s = not (any_char (λ c. not (leb 0x20 c && leb c 0x7E)) s)

unfoldable pub is_bidi_or_format_char : ℕ → Bool
is_bidi_or_format_char c =
    (leb 0x200B c && leb c 0x200F)
    || (leb 0x202A c && leb c 0x202E)
    || (leb 0x2066 c && leb c 0x2069)
    || c == 0xFEFF

unfoldable pub is_valid_resync_hash : String → Bool
is_valid_resync_hash s =
    len s == resync_hash_len
    && not (any_char (λ c. not ((leb b'0' c && leb c b'9') || (leb b'a' c && leb c b'f'))) s)

unfoldable pub validate_resync_hashes : List String → Bool
validate_resync_hashes hashes =
    leb (length hashes) max_resync_hashes && not (any (λ h. not (is_valid_resync_hash h)) hashes)

unfoldable pub validate_resync_msg : List String → Option ProtoError
validate_resync_msg hashes =
    if ltb max_resync_hashes (length hashes)
    then some (resync_too_many_hashes (length hashes))
    else if any (λ h. not (is_valid_resync_hash h)) hashes
    then some resync_hash_malformed
    else none

unfoldable pub validate_nak : Nak → Option ProtoError
validate_nak n =
    if ltb max_nak_missing (length n.missing)
    then some (nak_missing_too_large (length n.missing))
    else none

unfoldable pub validate_item : ClipboardItem → Option ProtoError
validate_item item =
    if ltb max_payload (length item.payload)
    then some (payload_too_large (length item.payload))
    else none

unfoldable pub validate_chunk : Chunk → Option ProtoError
validate_chunk c =
    if ltb max_chunk_data (length c.bytes)
    then some (chunk_data_too_large (length c.bytes))
    else if c.total == 0
    then some chunk_total_zero
    else if ltb max_chunks c.total
    then some (chunk_total_too_large c.total)
    else if leb c.total c.idx
    then some (chunk_index_out_of_range c.idx c.total)
    else none

abbrev pub longest : List String → ℕ
longest [] = 0
longest (c ∷ cs) = max (len c) (longest cs)

-- The arms of `validate` for `Hello`, in their order.
unfoldable pub validate_hello : Hello → Option ProtoError
validate_hello h =
    if ltb max_hello_name (len h.name)
    then some (hello_name_too_long (len h.name))
    else if ltb max_hello_platform (len h.platform)
    then some (hello_platform_too_long (len h.platform))
    else if any_char (λ c. is_control c || is_bidi_or_format_char c) h.name
    then some hello_name_not_printable
    else if not (is_ascii_printable_cap h.platform)
    then some hello_platform_not_ascii_printable
    else if ltb max_hello_caps (length h.caps)
    then some (hello_caps_too_many (length h.caps))
    else if any (λ c. ltb max_cap_len (len c)) h.caps
    then some (hello_cap_too_long (longest h.caps))
    else if any (λ c. not (is_ascii_printable_cap c)) h.caps
    then some hello_cap_not_ascii_printable
    else none

unfoldable pub validate_msg : Msg → Option ProtoError
validate_msg (clipboard_item item) = validate_item item
validate_msg (chunk c) = validate_chunk c
validate_msg (nak n) = validate_nak n
validate_msg (battery_status b) = if ltb 100 b.level then some (battery_level b.level) else none
validate_msg (hello h) = validate_hello h
validate_msg (resync_offer r) = validate_resync_msg r.hashes
validate_msg (resync_pull r) = validate_resync_msg r.hashes
validate_msg _ = none

abbrev pub validate : Frame → Option ProtoError
validate f = validate_msg f.msg

-- `validate(…)?` before the value.
unfoldable pub checked {ℓ} :
    {A : Type ℓ} → Option ProtoError → Result A ProtoError → Result A ProtoError
checked none a = a
checked (some e) a = err e

abbrev pub written : Result (List ℕ) String → Result (List ℕ) ProtoError
written (ok out) = ok out
written (err e) = err (cbor_encode e)

unfoldable pub encode : Cbor → Frame → Result (List ℕ) ProtoError
unfolding checked
encode c frame =
    if not (frame.version == protocol_version)
    then err (version frame.version protocol_version)
    else checked (validate frame) (written (c.into_writer frame))

-- `decode` behind the reader.
unfoldable pub admit : Frame → Result Frame ProtoError
unfolding checked
admit frame =
    if not (frame.version == protocol_version)
    then err (version frame.version protocol_version)
    else checked (validate frame) (ok frame)

unfoldable pub admit_read : Result Frame String → Result Frame ProtoError
admit_read (ok frame) = admit frame
admit_read (err e) = err (cbor e)

unfoldable pub decode : Cbor → List ℕ → Result Frame ProtoError
decode c bytes = admit_read (c.from_reader bytes)
