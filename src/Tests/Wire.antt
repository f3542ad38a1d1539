-- ===== src/Tests/Wire.antt =====
-- Frames on the wire, with a codec for goodbyes alone.
use fluxsync.Base.{
  ℕ, ◌≡◌, ◌≤◌, ◌<◌, ◌↔◌, refl, sym, ap, subst, Bool, true, false, List, [], ◌∷◌, String, none,
}
use mathlib.Core.Bool.{true≢false}
use fluxsync.Proto.Codec.{
  Result, ok, err, Cbor, encode, decode, validate_msg, checked, admit, admit_read, protocol_version,
}
use fluxsync.Proto.Codec.Laws.{
  IsBounded, ReadsBack, validate_exact, decode-IsBounded, decode-encode,
}
use fluxsync.Proto.Msg.{Frame, Msg, Chunk, bye, chunk}

abbrev write_msg : ℕ → Msg → Result (List ℕ) String
write_msg v bye = ok (v ∷ [])
write_msg v m = err "no goodbye"

abbrev write_bye : Frame → Result (List ℕ) String
write_bye f = write_msg f.version f.msg

abbrev read_bye : List ℕ → Result Frame String
read_bye (v ∷ []) = ok (record { version = v; msg = bye })
read_bye _ = err "no goodbye"

abbrev pub goodbyes : Cbor
goodbyes = record { into_writer = write_bye; from_reader = read_bye }

abbrev goodbye : Frame
goodbye = record { version = 2; msg = bye }

abbrev last_chunk : Chunk
last_chunk = record { item_id = 1; idx = 2; total = 3; bytes = 104 ∷ [] }

validate_exact_example :
    (validate_msg (chunk last_chunk) ≡ none) ↔ ((1 ≤ 1024) × (2 < 3) × (3 ≤ 16384))
validate_exact_example = validate_exact (chunk last_chunk)

is_written : Result (List ℕ) String → Bool
is_written (ok out) = true
is_written (err e) = false

bytes_or_none : Result (List ℕ) String → List ℕ
bytes_or_none (ok out) = out
bytes_or_none (err e) = []

unwritten : (e : String) (out : List ℕ) → (let r : Result (List ℕ) String = err e in r ≡ ok out) → ⊥
unfolding is_written
unwritten e out h = true≢false (sym (ap is_written h))

reads_goodbye :
    (v : ℕ) (m : Msg) (out : List ℕ)
    → write_msg v m ≡ ok out
    → read_bye out ≡ ok (record { version = v; msg = m })
unfolding bytes_or_none
reads_goodbye v bye out h =
    subst (λ o. read_bye o ≡ ok (record { version = v; msg = bye })) (ap bytes_or_none h) refl
reads_goodbye v m out h = absurd (unwritten "no goodbye" out h)

goodbyes-ReadsBack : ReadsBack goodbyes
goodbyes-ReadsBack = record { reads = λ f out h. reads_goodbye f.version f.msg out h }

decode-IsBounded_example : (goodbye.version ≡ protocol_version) × IsBounded bye
decode-IsBounded_example =
    decode-IsBounded goodbyes (2 ∷ []) goodbye
      (unfold decode admit_read admit checked validate_msg in refl)

decode-encode_example : IsBounded bye × (decode goodbyes (2 ∷ []) ≡ ok goodbye)
decode-encode_example =
    decode-encode goodbyes goodbye (2 ∷ []) goodbyes-ReadsBack
      (unfold encode checked validate_msg in refl)
