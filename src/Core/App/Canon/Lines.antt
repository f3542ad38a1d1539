-- ===== src/Core/App/Canon/Lines.antt =====
-- The canonical form of text: one form for all spellings of its line ends.
use fluxsync.Base.{
  ℕ, ◌≡◌, refl, sym, ap, ◌∙◌, false, List, [], ◌∷◌, arith, ◌==◌, if◌then◌else◌, All, Bool-cases,
  inl, inr,
}
use fluxsync.Base.Text.{is_whitespace}
use fluxsync.Core.App.Canon.{replace_crlf, replace_cr, trim_start, trim_end, canon_text}

-- No carriage return.
abbrev pub IsUnix : List ℕ → Type 0
IsUnix s = All (λ c. (c == 13) ≡ false) s

-- The same text with line ends of Windows, and of the old Macintosh.
abbrev pub to_crlf : List ℕ → List ℕ
to_crlf [] = []
to_crlf (c ∷ s) = if c == 10 then 13 ∷ 10 ∷ to_crlf s else c ∷ to_crlf s

abbrev pub to_cr : List ℕ → List ℕ
to_cr [] = []
to_cr (c ∷ s) = (if c == 10 then 13 else c) ∷ to_cr s

-- No whitespace at the start.
abbrev IsFlush : List ℕ → Type 0
IsFlush [] = Unit {0}
IsFlush (c ∷ s) = is_whitespace c ≡ false

replace_cr-IsUnix : (s : List ℕ) → IsUnix (replace_cr s)
unfolding replace_cr
replace_cr-IsUnix [] = tt
replace_cr-IsUnix (c ∷ s) = ground (arith, replace_cr-IsUnix s)

replace_crlf_id : (s : List ℕ) → IsUnix s → replace_crlf s ≡ s
unfolding replace_crlf
replace_crlf_id [] h = refl
replace_crlf_id (c ∷ []) h = refl
replace_crlf_id (c ∷ d ∷ s) h = ground (arith, replace_crlf_id (d ∷ s))

replace_cr_id : (s : List ℕ) → IsUnix s → replace_cr s ≡ s
unfolding replace_cr
replace_cr_id [] h = refl
replace_cr_id (c ∷ s) h = ground (arith, replace_cr_id s)

trim_start-IsUnix : (s : List ℕ) → IsUnix s → IsUnix (trim_start s)
unfolding trim_start
trim_start-IsUnix [] h = tt
trim_start-IsUnix (c ∷ s) h = ground (arith, trim_start-IsUnix s)

trim_end-IsUnix : (s : List ℕ) → IsUnix s → IsUnix (trim_end s)
unfolding trim_end
trim_end-IsUnix [] h = tt
trim_end-IsUnix (c ∷ s) h = ground (arith, trim_end-IsUnix s)

trim_start-IsFlush : (s : List ℕ) → IsFlush (trim_start s)
unfolding trim_start
trim_start-IsFlush [] = tt
trim_start-IsFlush (c ∷ s) = ground (arith, trim_start-IsFlush s)

trim_start_id : (s : List ℕ) → IsFlush s → trim_start s ≡ s
unfolding trim_start
trim_start_id [] h = refl
trim_start_id (c ∷ s) h = ground arith

trim_end-IsFlush : (s : List ℕ) → IsFlush s → IsFlush (trim_end s)
unfolding trim_end
trim_end-IsFlush [] h = tt
trim_end-IsFlush (c ∷ s) h = ground arith

trim_end-trim_end : (s : List ℕ) → trim_end (trim_end s) ≡ trim_end s
unfolding trim_end
trim_end-trim_end [] = refl
trim_end-trim_end (c ∷ s) = ground (arith, trim_end-trim_end s)

canon_text_id : (s : List ℕ) → IsUnix s → IsFlush s → trim_end s ≡ s → canon_text s ≡ s
unfolding canon_text
canon_text_id s unix flush trimmed =
    ap (λ t. trim_end (trim_start (replace_cr t))) (replace_crlf_id s unix)
    ∙ ap (λ t. trim_end (trim_start t)) (replace_cr_id s unix)
    ∙ ap trim_end (trim_start_id s flush)
    ∙ trimmed

-- The canonical form of a canonical text is that text.
pub canon_text-canon_text : (s : List ℕ) → canon_text (canon_text s) ≡ canon_text s
unfolding canon_text
canon_text-canon_text s =
    let lines = replace_cr (replace_crlf s) in
    let started = trim_start lines in
    canon_text_id (trim_end started)
      (trim_end-IsUnix started (trim_start-IsUnix lines (replace_cr-IsUnix (replace_crlf s))))
      (trim_end-IsFlush started (trim_start-IsFlush lines)) (trim_end-trim_end started)

replace_crlf-cons :
    (c : ℕ) (s : List ℕ) → (c == 13) ≡ false → replace_crlf (c ∷ s) ≡ c ∷ replace_crlf s
unfolding replace_crlf
replace_crlf-cons c [] h = refl
replace_crlf-cons c (d ∷ s) h = rw h refl

replace_crlf-to_crlf : (s : List ℕ) → IsUnix s → replace_crlf (to_crlf s) ≡ s
unfolding replace_crlf
replace_crlf-to_crlf [] h = refl
replace_crlf-to_crlf (c ∷ s) h = elim (Bool-cases (c == 10)) [
  | inl lf ↦ rw lf (ground (arith, lf, replace_crlf-to_crlf s h.1))
  | inr plain ↦
      rw plain (replace_crlf-cons c (to_crlf s) h.0 ∙ ap (λ t. c ∷ t) (replace_crlf-to_crlf s h.1))
]

to_cr-All : (s : List ℕ) → All (λ c. (c == 10) ≡ false) (to_cr s)
to_cr-All [] = tt
to_cr-All (c ∷ s) = ground (arith, to_cr-All s)

replace_crlf_lone : (s : List ℕ) → All (λ c. (c == 10) ≡ false) s → replace_crlf s ≡ s
unfolding replace_crlf
replace_crlf_lone [] h = refl
replace_crlf_lone (c ∷ []) h = refl
replace_crlf_lone (c ∷ d ∷ s) h = ground (arith, replace_crlf_lone (d ∷ s))

replace_cr-to_cr : (s : List ℕ) → IsUnix s → replace_cr (to_cr s) ≡ s
unfolding replace_cr
replace_cr-to_cr [] h = refl
replace_cr-to_cr (c ∷ s) h = ground (arith, replace_cr-to_cr s)

-- Where a text has no carriage return, the same text with the line ends of Windows, or of the old
-- Macintosh, has the same canonical form.
pub canon_text_lines :
    (s : List ℕ)
    → IsUnix s
    → (canon_text (to_crlf s) ≡ canon_text s) × (canon_text (to_cr s) ≡ canon_text s)
unfolding canon_text
canon_text_lines s h =
    let finish : List ℕ → List ℕ = λ t. trim_end (trim_start (replace_cr t)) in
    (
      ap finish (replace_crlf-to_crlf s h ∙ sym (replace_crlf_id s h)),
      ap finish (replace_crlf_lone (to_cr s) (to_cr-All s))
          ∙ ap (λ t. trim_end (trim_start t))
              (replace_cr-to_cr s h
                ∙ sym (replace_cr_id s h)
                ∙ ap replace_cr (sym (replace_crlf_id s h))),
    )
