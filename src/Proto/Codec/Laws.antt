-- ===== src/Proto/Codec/Laws.antt =====
-- What a frame that passes the checks looks like, and that frames make the round trip.
use Prim.Native.String.{len}
use fluxsync.Base.{
  ℕ, ◌≤◌, ◌<◌, ◌≡◌, ◌↔◌, refl, sym, ap, subst, ◌∙◌, Bool, true, false, not, ◌||◌, List, [], ◌∷◌,
  String, Option, none, some, arith, ltb, ◌==◌, if◌then◌else◌, any, length, All,
}
use mathlib.Core.Bool.{true≢false}
use fluxsync.Base.Text.{any_char, is_control}
use fluxsync.Proto.Msg.{
  Hello, Msg, clipboard_item, chunk, nak, battery_status, hello, resync_offer, resync_pull, Frame,
}
use fluxsync.Proto.Codec.{
  protocol_version, version, written, Result, ok, err, Cbor, ProtoError, is_ascii_printable_cap,
  is_bidi_or_format_char, is_valid_resync_hash, validate_resync_msg, validate_resync_hashes,
  validate_nak, validate_item, validate_chunk, validate_hello, validate_msg, validate, checked,
  encode, admit, admit_read, decode,
}

-- The bounds of a message.
abbrev pub IsCap : String → Type 0
IsCap c = (len c ≤ 64) × (is_ascii_printable_cap c ≡ true)

abbrev pub AreHashes : List String → Type 0
AreHashes hs = (length hs ≤ 32) × All (λ h. is_valid_resync_hash h ≡ true) hs

abbrev pub IsBounded : Msg → Type 0
IsBounded (clipboard_item item) = length item.payload ≤ 16777216
IsBounded (chunk c) = (length c.bytes ≤ 1024) × (c.idx < c.total) × (c.total ≤ 16384)
IsBounded (nak n) = length n.missing ≤ 512
IsBounded (battery_status b) = b.level ≤ 100
IsBounded (hello h) =
    (len h.name ≤ 256)
    × (any_char (λ c. is_control c || is_bidi_or_format_char c) h.name ≡ false)
    × (len h.platform ≤ 16)
    × (is_ascii_printable_cap h.platform ≡ true)
    × (length h.caps ≤ 32)
    × All IsCap h.caps
IsBounded (resync_offer r) = AreHashes r.hashes
IsBounded (resync_pull r) = AreHashes r.hashes
IsBounded m = Unit {0}

All-hashes :
    (hs : List String)
    → (any (λ h. not (is_valid_resync_hash h)) hs ≡ false)
      ↔ All (λ h. is_valid_resync_hash h ≡ true) hs
All-hashes [] = ground arith
All-hashes (h ∷ hs) = ground (arith, All-hashes hs)

All-caps :
    (cs : List String)
    → ((any (λ c. ltb 64 (len c)) cs ≡ false)
        × (any (λ c. not (is_ascii_printable_cap c)) cs ≡ false))
      ↔ All IsCap cs
All-caps [] = ground arith
All-caps (c ∷ cs) = ground (arith, All-caps cs)

resync-AreHashes : (hs : List String) → (validate_resync_msg hs ≡ none) ↔ AreHashes hs
unfolding validate_resync_msg
resync-AreHashes hs = ground (arith, All-hashes hs)

hello-IsBounded : (h : Hello) → (validate_hello h ≡ none) ↔ IsBounded (hello h)
unfolding validate_hello
hello-IsBounded h = ground (arith, All-caps h.caps)

-- The check of a list of hashes that is offered to callers passes exactly the lists that the codec
-- lets through.
pub resync_hashes_agree :
    (hs : List String) → (validate_resync_msg hs ≡ none) ↔ (validate_resync_hashes hs ≡ true)
unfolding validate_resync_msg validate_resync_hashes
resync_hashes_agree hs = ground arith

-- The checks let exactly the messages within the bounds of the protocol through.
pub validate_exact : (m : Msg) → (validate_msg m ≡ none) ↔ IsBounded m
unfolding validate_msg validate_item validate_chunk validate_nak
validate_exact (clipboard_item item) = ground arith
validate_exact (chunk c) = ground arith
validate_exact (nak n) = ground arith
validate_exact (battery_status b) = ground arith
validate_exact (hello h) = hello-IsBounded h
validate_exact (resync_offer r) = resync-AreHashes r.hashes
validate_exact (resync_pull r) = resync-AreHashes r.hashes
validate_exact m = (λ _. tt, λ _. refl)

-- What the protocol relies on: ciborium reads back what it wrote.
pub record ReadsBack (c : Cbor) : Type 0 where
  pub reads : (f : Frame) (out : List ℕ) → c.into_writer f ≡ ok out → c.from_reader out ≡ ok f

is_version : (n : ℕ) → n ≡ protocol_version → not (n == protocol_version) ≡ false
is_version n h = ground arith

version_ok : (n : ℕ) → not (n == protocol_version) ≡ false → n ≡ protocol_version
version_ok n h = ground arith

admit_valid :
    (f : Frame) → not (f.version == protocol_version) ≡ false → validate f ≡ none → admit f ≡ ok f
unfolding admit
admit_valid f v h = rw (v, h) refl

module _ {ℓ} {A : Type ℓ} where
  is_ok : Result A ProtoError → Bool
  is_ok (ok a) = true
  is_ok (err e) = false

  ok_not_err : {e : ProtoError} {a : A} → err e ≡ ok a → ⊥
  unfolding is_ok
  ok_not_err h = true≢false (sym (ap is_ok h))

  value_or : {E : Type 0} → A → Result A E → A
  value_or a (ok b) = b
  value_or a (err e) = a

  ok_inj : {E : Type 0} {a b : A} → (let r : Result A E = ok a in r ≡ ok b) → a ≡ b
  unfolding value_or
  ok_inj {a = a} h = ap (value_or a) h

  -- A value behind the checks, if the checks let it through.
  checked_ok :
      (o : Option ProtoError) (r : Result A ProtoError) (a : A)
      → checked o r ≡ ok a
      → (o ≡ none) × (r ≡ ok a)
  unfolding checked
  checked_ok none r a h = (refl, h)
  checked_ok (some e) r a h = absurd (ok_not_err h)

  guarded_ok :
      (b : Bool) (e : ProtoError) (r : Result A ProtoError) (a : A)
      → (if b then err e else r) ≡ ok a
      → (b ≡ false) × (r ≡ ok a)
  guarded_ok true e r a h = absurd (ok_not_err h)
  guarded_ok false e r a h = (refl, h)

-- The version is checked first, then the bounds.
passes :
    (f : Frame) {A : Type 0} (r : Result A ProtoError) (a : A)
    → (if not (f.version == protocol_version)
        then err (version f.version protocol_version)
        else checked (validate f) r)
      ≡ ok a
    → (f.version ≡ protocol_version) × (validate f ≡ none) × (r ≡ ok a)
passes f r a h =
    let unguarded =
      guarded_ok (not (f.version == protocol_version)) (version f.version protocol_version)
        (checked (validate f) r) a h in
    let through = checked_ok (validate f) r a unguarded.1 in
    (version_ok f.version unguarded.0, through.0, through.1)

admit_passes :
    (r : Result Frame String) (g : Frame)
    → admit_read r ≡ ok g
    → (g.version ≡ protocol_version) × IsBounded g.msg
unfolding admit_read admit
admit_passes (ok f) g h =
    let through = passes f (ok f) g h in
    let same : f ≡ g = ok_inj through.2 in
    (
      ap (λ x. x.version) (sym same) ∙ through.0,
      subst (λ x. IsBounded x.msg) same ((validate_exact f.msg).0 through.1),
    )
admit_passes (err e) g h = absurd (ok_not_err h)

written_ok : (r : Result (List ℕ) String) (out : List ℕ) → written r ≡ ok out → r ≡ ok out
written_ok (ok a) out h = ap ok (ok_inj h)
written_ok (err e) out h = absurd (ok_not_err h)

-- Whatever bytes arrive, a frame that is decoded from them has the version of this build and keeps
-- within the bounds of the protocol.
pub decode-IsBounded :
    (c : Cbor) (bytes : List ℕ) (f : Frame)
    → decode c bytes ≡ ok f
    → (f.version ≡ protocol_version) × IsBounded f.msg
unfolding decode
decode-IsBounded c bytes f h = admit_passes (c.from_reader bytes) f h

-- With a CBOR that reads back what it wrote, a frame that is encoded keeps within the bounds of the
-- protocol, and is decoded to itself.
pub decode-encode :
    (c : Cbor) (f : Frame) (out : List ℕ)
    → ReadsBack c
    → encode c f ≡ ok out
    → IsBounded f.msg × (decode c out ≡ ok f)
unfolding encode decode admit_read
decode-encode c f out back h =
    let through = passes f (written (c.into_writer f)) out h in
    let read = back.reads f out (written_ok (c.into_writer f) out through.2) in
    (
      (validate_exact f.msg).0 through.1,
      ap admit_read read ∙ admit_valid f (is_version f.version through.0) through.1,
    )
