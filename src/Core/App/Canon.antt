-- ===== src/Core/App/Canon.antt =====
-- crates/fluxsync-core/src/classify.rs (`canon_text`) and the digest that `handle` computes of a
-- received payload. A `&str` that is walked is the list of its code points. BLAKE3 is third-party
-- code, and so a parameter.
pub mod Lines
use fluxsync.Base.{
  ℕ, zero, suc, ◌+◌, ◌-◌, ◌*◌, ◌/◌, ◌%◌, Bool, ◌&&◌, List, [], ◌∷◌, ◌++◌, Option, none, some, ltb,
  leb, ◌==◌, if◌then◌else◌, length, is_empty,
}
use fluxsync.Base.Text.{is_whitespace}
use fluxsync.Proto.Types.{Kind, text, url, code, image, file}
use fluxsync.Core.Events.{Bytes}

-- `replace("\r\n", "\n")`
unfoldable pub replace_crlf : List ℕ → List ℕ
replace_crlf [] = []
replace_crlf (c ∷ []) = c ∷ []
replace_crlf (c ∷ d ∷ s) =
    let pair = 10 ∷ replace_crlf s in
    let plain = c ∷ replace_crlf (d ∷ s) in if c == 13 && d == 10 then pair else plain

-- `replace('\r', "\n")`
unfoldable pub replace_cr : List ℕ → List ℕ
replace_cr [] = []
replace_cr (c ∷ s) = (if c == 13 then 10 else c) ∷ replace_cr s

unfoldable pub trim_start : List ℕ → List ℕ
trim_start [] = []
trim_start (c ∷ s) = let rest = trim_start s in if is_whitespace c then rest else c ∷ s

unfoldable pub trim_end : List ℕ → List ℕ
trim_end [] = []
trim_end (c ∷ s) =
    let rest = trim_end s in if is_whitespace c && is_empty rest then [] else c ∷ rest

unfoldable pub canon_text : List ℕ → List ℕ
unfolding replace_crlf replace_cr trim_start trim_end
canon_text s = trim_end (trim_start (replace_cr (replace_crlf s)))

-- `as_bytes`: UTF-8.
unfoldable pub utf8_char : ℕ → Bytes
utf8_char c =
    if ltb c 0x80
    then c ∷ []
    else if ltb c 0x800
    then (0xC0 + c / 64) ∷ (0x80 + c % 64) ∷ []
    else if ltb c 0x10000
    then (0xE0 + c / 4096) ∷ (0x80 + c / 64 % 64) ∷ (0x80 + c % 64) ∷ []
    else (0xF0 + c / 262144) ∷ (0x80 + c / 4096 % 64) ∷ (0x80 + c / 64 % 64) ∷ (0x80 + c % 64) ∷ []

unfoldable pub as_bytes : List ℕ → Bytes
unfolding utf8_char
as_bytes [] = []
as_bytes (c ∷ s) = utf8_char c ++ as_bytes s

is_tail : ℕ → Bool
is_tail b = leb 0x80 b && leb b 0xBF

-- The bounds of the second byte: no overlong form, no surrogate, nothing above U+10FFFF.
second_of_three : ℕ → ℕ → Bool
second_of_three a b =
    leb (if a == 0xE0 then 0xA0 else 0x80) b && leb b (if a == 0xED then 0x9F else 0xBF)

second_of_four : ℕ → ℕ → Bool
second_of_four a b =
    leb (if a == 0xF0 then 0x90 else 0x80) b && leb b (if a == 0xF4 then 0x8F else 0xBF)

decode_two : ℕ → Bytes → Option (ℕ × Bytes)
unfolding is_tail
decode_two a [] = none
decode_two a (b ∷ s) = if is_tail b then some ((a - 0xC0) * 64 + (b - 0x80), s) else none

decode_three : ℕ → Bytes → Option (ℕ × Bytes)
unfolding is_tail second_of_three
decode_three a [] = none
decode_three a (b ∷ []) = none
decode_three a (b ∷ c ∷ s) =
    if second_of_three a b && is_tail c
    then some ((a - 0xE0) * 4096 + (b - 0x80) * 64 + (c - 0x80), s)
    else none

decode_four : ℕ → Bytes → Option (ℕ × Bytes)
unfolding is_tail second_of_four
decode_four a [] = none
decode_four a (b ∷ []) = none
decode_four a (b ∷ c ∷ []) = none
decode_four a (b ∷ c ∷ d ∷ s) =
    if second_of_four a b && is_tail c && is_tail d
    then some ((a - 0xF0) * 262144 + (b - 0x80) * 4096 + (c - 0x80) * 64 + (d - 0x80), s)
    else none

decode_char : ℕ → Bytes → Option (ℕ × Bytes)
unfolding decode_two decode_three decode_four
decode_char a s =
    if ltb a 0x80
    then some (a, s)
    else if leb 0xC2 a && leb a 0xDF
    then decode_two a s
    else if leb 0xE0 a && leb a 0xEF
    then decode_three a s
    else if leb 0xF0 a && leb a 0xF4
    then decode_four a s
    else none

-- Each round takes a byte at least, so the length of the text is fuel enough.
decode_from : ℕ → Bytes → Option (List ℕ)
unfolding decode_char
decode_from fuel [] = some []
decode_from zero (a ∷ s) = none
decode_from (suc fuel) (a ∷ s) = elim (decode_char a s) [
  | none ↦ none
  | some (c, rest) ↦ elim (decode_from fuel rest) [ none ↦ none | some cs ↦ some (c ∷ cs) ]
]

-- `std::str::from_utf8`, with the code points of the text as its value.
unfoldable pub from_utf8 : Bytes → Option (List ℕ)
unfolding decode_from
from_utf8 s = decode_from (length s) s

module _ (blake3 : Bytes → ℕ) where
  text_digest : Bytes → Option (List ℕ) → ℕ
  unfolding canon_text as_bytes
  text_digest payload (some s) = blake3 (as_bytes (canon_text s))
  text_digest payload none = blake3 payload

  -- The key of a received item in the dedup ring: the raw bytes of an image, a file or an invalid
  -- text, the canonical bytes of a valid text.
  unfoldable pub content_digest : Kind → Bytes → ℕ
  unfolding text_digest from_utf8
  content_digest image payload = blake3 payload
  content_digest file payload = blake3 payload
  content_digest text payload = text_digest payload (from_utf8 payload)
  content_digest url payload = text_digest payload (from_utf8 payload)
  content_digest code payload = text_digest payload (from_utf8 payload)
