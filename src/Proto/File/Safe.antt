-- ===== src/Proto/File/Safe.antt =====
-- The names that `sanitize` gives are safe to create in a folder.
use Prim.Native.Char.{Char, code, len_utf8, len_utf8_def, width}
use Prim.Native.Nat.{compare, Ordering}
use Prim.Native.String.{String, [], ◌∷◌, len}
use Prim.Native.String.len
use mathlib.Core.Bool.{true≢false}
use fluxsync.Base.{
  ℕ, ◌≡◌, ◌≤◌, ◌+◌, zero, suc, refl, sym, subst, Bool, true, false, ◌||◌, ◌&&◌, arith, ltb, ◌==◌,
  Bool-cases, inl, inr, if_holds, if_split,
}
use fluxsync.Base.Text.{is_empty, is_control, is_whitespace, any_char, trim, trim_start, trim_end}
use fluxsync.Proto.File.{
  is_separator, last_part, is_reserved, clean_char, clean_chars, trim_dots, pop, cut_from, or_file,
  cut, sanitize,
}

-- A character that no file name should have.
abbrev pub is_unsafe : ℕ → Bool
is_unsafe c = is_separator c || is_control c || is_reserved c

abbrev pub is_dotted : String → Bool
is_dotted [] = false
is_dotted (c ∷ s) = code c == b'.'

abbrev pub IsSafe : String → Type 0
IsSafe s =
    (any_char is_unsafe s ≡ false) × (is_dotted s ≡ false) × (is_empty s ≡ false) × (len s ≤ 255)

abbrev IsPure : String → Type 0
IsPure s = any_char is_unsafe s ≡ false

or_false : {a b : Bool} → (a || b) ≡ false → (a ≡ false) × (b ≡ false)
or_false {a = false} h = (refl, h)
or_false {a = true} h = absurd (true≢false h)

or_intro : {a b : Bool} → a ≡ false → b ≡ false → (a || b) ≡ false
or_intro h k = ground arith

last_part_lem : (s : String) → any_char is_separator (last_part s) ≡ false
unfolding last_part any_char
last_part_lem [] = refl
last_part_lem (c ∷ s) = ground (arith, last_part_lem s)

clean_char_lem :
    (c : Char) → is_separator (code c) ≡ false → is_unsafe (code (clean_char c)) ≡ false
unfolding is_control
clean_char_lem c h = elim (Bool-cases (is_control (code c) || is_reserved (code c))) [
  | inl bad ↦ rw bad refl
  | inr good ↦ rw good (ground arith)
]

clean_chars-IsPure : (s : String) → any_char is_separator s ≡ false → IsPure (clean_chars s)
unfolding clean_chars any_char
clean_chars-IsPure [] h = refl
clean_chars-IsPure (c ∷ s) h =
    let parts = or_false h in or_intro (clean_char_lem c parts.0) (clean_chars-IsPure s parts.1)

trim_start-IsPure : (s : String) → IsPure s → IsPure (trim_start s)
unfolding trim_start any_char
trim_start-IsPure [] h = refl
trim_start-IsPure (c ∷ s) h =
    let parts = or_false h in
    if_holds IsPure (is_whitespace (code c)) (trim_start s) (c ∷ s) (trim_start-IsPure s parts.1) h

trim_end-IsPure : (s : String) → IsPure s → IsPure (trim_end s)
unfolding trim_end any_char
trim_end-IsPure [] h = refl
trim_end-IsPure (c ∷ s) h =
    let parts = or_false h in
    if_holds IsPure (is_whitespace (code c) && is_empty (trim_end s)) [] (c ∷ trim_end s) refl
      (or_intro parts.0 (trim_end-IsPure s parts.1))

trim_dots-IsPure : (s : String) → IsPure s → IsPure (trim_dots s)
unfolding trim_dots any_char
trim_dots-IsPure [] h = refl
trim_dots-IsPure (c ∷ s) h =
    let parts = or_false h in
    if_holds IsPure (code c == b'.') (trim_dots s) (c ∷ s) (trim_dots-IsPure s parts.1) h

trim_dots_lem : (s : String) → is_dotted (trim_dots s) ≡ false
unfolding trim_dots
trim_dots_lem [] = refl
trim_dots_lem (c ∷ s) = ground (arith, trim_dots_lem s)

pop-IsPure : (s : String) → IsPure s → IsPure (pop s)
unfolding pop any_char
pop-IsPure [] h = refl
pop-IsPure (c ∷ s) h =
    let parts = or_false h in
    if_holds IsPure (is_empty s) [] (c ∷ pop s) refl (or_intro parts.0 (pop-IsPure s parts.1))

pop_dotted : (s : String) → is_dotted s ≡ false → is_dotted (pop s) ≡ false
unfolding pop
pop_dotted [] h = refl
pop_dotted (c ∷ s) h = if_holds (λ t. is_dotted t ≡ false) (is_empty s) [] (c ∷ pop s) refl h

width_bounds : (n o p : Ordering) → (1 ≤ width n o p) × (width n o p ≤ 4)
width_bounds n o p = ground arith

-- A character is one to four bytes.
char_bytes : (c : Char) → (1 ≤ len_utf8 c) × (len_utf8 c ≤ 4)
char_bytes c =
    subst (λ n. (1 ≤ n) × (n ≤ 4)) (sym (len_utf8_def c))
      (width_bounds (compare (code c) 128) (compare (code c) 2048) (compare (code c) 65536))

len-cons : (c : Char) (s : String) → len (c ∷ s) ≡ len_utf8 c + len s
len-cons c s = len.cons c s

len-nil : len [] ≡ 0
len-nil = len.nil

-- A text without its last character is one to four bytes shorter.
abbrev IsPopped : String → String → Type 0
IsPopped s t = (len t + 1 ≤ len s) × (len s ≤ len t + 4)

len-pop : (s : String) → is_empty s ≡ false → IsPopped s (pop s)
unfolding pop
len-pop [] h = absurd (true≢false h)
len-pop (c ∷ []) h = ground (arith, len-cons c [], len-nil, char_bytes c)
len-pop (c ∷ d ∷ s) h =
    let rest = len-pop (d ∷ s) refl in
    ground (arith, len-cons c (d ∷ s), len-cons c (pop (d ∷ s)), rest)

nonempty : (s : String) → 1 ≤ len s → is_empty s ≡ false
nonempty [] h = absurd (omega arith)
nonempty (c ∷ s) h = refl

long_nonempty : (s : String) → ltb 255 (len s) ≡ true → is_empty s ≡ false
long_nonempty s h = nonempty s (ground (arith, h))

cut-short : (fuel : ℕ) (s : String) → len s ≤ fuel + 255 → len (cut_from fuel s) ≤ 255
unfolding cut_from
cut-short zero s h = omega arith
cut-short (suc fuel) s h =
    if_split (λ t. len t ≤ 255) (ltb 255 (len s)) (cut_from fuel (pop s)) s
      (λ long. cut-short fuel (pop s) (ground (arith, len-pop s (long_nonempty s long), h)))
      (λ short. ground (arith, short))

cut_sound :
    (fuel : ℕ) (s : String)
    → IsPure s
    → is_dotted s ≡ false
    → is_empty s ≡ false
    → IsPure (cut_from fuel s)
      × (is_dotted (cut_from fuel s) ≡ false)
      × (is_empty (cut_from fuel s) ≡ false)
unfolding cut_from
cut_sound zero s p d e = (p, d, e)
cut_sound (suc fuel) s p d e =
    if_split (λ t. IsPure t × (is_dotted t ≡ false) × (is_empty t ≡ false)) (ltb 255 (len s))
      (cut_from fuel (pop s)) s
      (λ long.
        cut_sound fuel (pop s) (pop-IsPure s p) (pop_dotted s d)
          (nonempty (pop s) (ground (arith, len-pop s e, long))))
      (λ short. (p, d, e))

or_file_sound :
    (s : String)
    → IsPure s
    → is_dotted s ≡ false
    → IsPure (or_file s) × (is_dotted (or_file s) ≡ false) × (is_empty (or_file s) ≡ false)
unfolding any_char is_control
or_file_sound [] p d = (refl, refl, refl)
or_file_sound (c ∷ s) p d = (p, d, refl)

-- Whatever name a peer sends, what `sanitize` makes of it is not empty, has at most 255 bytes, does
-- not begin with a dot, and has no separator of folders, no control character and none of the
-- characters that file systems reserve.
pub sanitize-IsSafe : (name : String) → IsSafe (sanitize name)
unfolding sanitize cut trim
sanitize-IsSafe name =
    let cleaned = clean_chars (last_part name) in
    let trimmed = trim_end (trim_start cleaned) in
    let undotted = trim_dots trimmed in
    let pure : IsPure undotted = trim_dots-IsPure trimmed (
      trim_end-IsPure (trim_start cleaned)
        (trim_start-IsPure cleaned (clean_chars-IsPure (last_part name) (last_part_lem name)))) in
    let named = or_file_sound undotted pure (trim_dots_lem trimmed) in
    let full = or_file undotted in
    let sound = cut_sound (len full) full named.0 named.1 named.2 in
    (sound.0, sound.1, sound.2, cut-short (len full) full (omega arith))
