-- ===== src/Daemon/Driver/Frames.antt =====
-- crates/fluxsyncd/src/driver/frames.rs: the frames of an item, and the check of what a peer says
-- that its digest is. BLAKE3, CBOR and the reading of a PNG are parameters.
pub mod Chunks
use fluxsync.Base.{
  ℕ, zero, suc, ◌+◌, ◌%◌, Bool, false, List, [], ◌∷◌, ◌++◌, Option, none, some, leb, ◌==◌,
  if◌then◌else◌, length, take,
}
use fluxsync.Core.App.Canon.{content_digest}
use fluxsync.Core.Events.{Bytes}
use fluxsync.Crypto.Session.{skip, to_le_bytes}
use fluxsync.Proto.Codec.{
  Cbor, Result, ok, err, ProtoError, encode, protocol_version, max_chunk_data,
}
use fluxsync.Proto.Msg.{ClipboardItem, Chunk, Msg, clipboard_item, chunk, Frame}
use fluxsync.Proto.Types.{Kind, text, url, code, image, file}

abbrev pub max_frame_plaintext : ℕ
max_frame_plaintext = 1203

-- `[T]::chunks` on fuel; as many rounds as there are bytes are enough.
unfoldable pub chunks_within : ℕ → ℕ → Bytes → List Bytes
chunks_within zero size payload = []
chunks_within (suc fuel) size [] = []
chunks_within (suc fuel) size (b ∷ bs) =
    take size (b ∷ bs) ∷ chunks_within fuel size (skip size (b ∷ bs))

abbrev pub frame_of : Msg → Frame
frame_of msg = record { version = protocol_version; msg = msg }

-- What is said of an item beside its payload.
pub record Label : Type 0 where
  pub lamport : ℕ
  pub hash : ℕ
  pub kind : Kind
  pub sensitive : Bool
  pub origin : ℕ
  pub event_seq : ℕ

abbrev pub item_with : Label → Bytes → ClipboardItem
item_with l payload = record {
  lamport = l.lamport;
  hash = l.hash;
  kind = l.kind;
  payload = payload;
  sensitive = l.sensitive;
  wall_time_ms = 0;
  origin = l.origin;
  event_seq = l.event_seq;
}

-- The chunks from `idx` on; `as u16` keeps the low 16 bits.
unfoldable pub chunk_msgs : ℕ → ℕ → ℕ → List Bytes → List Msg
chunk_msgs hash total idx [] = []
chunk_msgs hash total idx (part ∷ parts) =
    chunk (record { item_id = hash; idx = idx % 65536; total = total % 65536; bytes = part })
    ∷ chunk_msgs hash total (idx + 1) parts

-- The header, then a message for each chunk.
unfoldable pub chunked : Label → List Bytes → List Msg
unfolding chunk_msgs
chunked l parts = clipboard_item (item_with l []) ∷ chunk_msgs l.hash (length parts) 0 parts

abbrev pub pushed : Result Bytes ProtoError → List Bytes → List Bytes
pushed (ok bytes) frames = bytes ∷ frames
pushed (err e) frames = frames

-- A message that cannot be encoded is left out.
unfoldable pub encode_all : Cbor → List Msg → List Bytes
encode_all c [] = []
encode_all c (m ∷ ms) = pushed (encode c (frame_of m)) (encode_all c ms)

-- A single frame where the whole of it fits in a datagram.
abbrev pub single_or : Result Bytes ProtoError → List Bytes → List Bytes
single_or (err e) large = []
single_or (ok bytes) large = if leb (length bytes) max_frame_plaintext then bytes ∷ [] else large

unfoldable pub build_item_frames : Cbor → Label → Bytes → List Bytes
unfolding chunks_within chunked encode_all
build_item_frames c l payload =
    let parts = chunks_within (length payload) max_chunk_data payload in
    let large = encode_all c (chunked l parts) in
    let small = single_or (encode c (frame_of (clipboard_item (item_with l payload)))) large in
    if leb (length payload) max_chunk_data then small else large

-- Width, height and pixels.
abbrev pub Rgba : Type 0
Rgba = ℕ × (ℕ × Bytes)

unfoldable pub image_rgba_hash : (Bytes → ℕ) → Rgba → ℕ
unfolding to_le_bytes
image_rgba_hash blake3 (width, (height, rgba)) =
    blake3 (to_le_bytes 4 width ++ to_le_bytes 4 height ++ rgba)

abbrev pub image_matches : (Bytes → ℕ) → ℕ → Option Rgba → Bool
image_matches blake3 claimed none = false
image_matches blake3 claimed (some img) = image_rgba_hash blake3 img == claimed

-- The digest of a text is that of its canonical form, of bytes that are no text that of the bytes;
-- that of a file is that of its bytes.
unfoldable pub verify_content_hash : (Bytes → ℕ) → (Bytes → Option Rgba) → Kind → Bytes → ℕ → Bool
unfolding content_digest image_rgba_hash
verify_content_hash blake3 decode_png image payload claimed =
    image_matches blake3 claimed (decode_png payload)
verify_content_hash blake3 decode_png file payload claimed = blake3 payload == claimed
verify_content_hash blake3 decode_png text payload claimed =
    content_digest blake3 text payload == claimed
verify_content_hash blake3 decode_png url payload claimed =
    content_digest blake3 url payload == claimed
verify_content_hash blake3 decode_png code payload claimed =
    content_digest blake3 code payload == claimed
