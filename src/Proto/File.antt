-- ===== src/Proto/File.antt =====
-- crates/fluxsync-proto/src/file.rs, `sanitize`: the names under which received files are saved.
pub mod Safe
use Prim.Native.Char.{Char, code}
use Prim.Native.String.{String, [], ◌∷◌, len}
use fluxsync.Base.{ℕ, zero, suc, Bool, ◌||◌, ltb, ◌==◌, if◌then◌else◌}
use fluxsync.Base.Text.{is_empty, is_control, any_char, trim}

abbrev pub max_name : ℕ
max_name = 255

abbrev pub is_separator : ℕ → Bool
is_separator c = c == b'/' || c == b'\\'

-- `rsplit(['/', '\\']).next()`: what follows the last separator.
unfoldable pub last_part : String → String
last_part [] = []
last_part (c ∷ s) =
    let rest = last_part s in
    if is_separator (code c) || any_char is_separator s then rest else c ∷ s

abbrev pub is_reserved : ℕ → Bool
is_reserved c =
    c == b':' || c == b'*' || c == b'?' || c == b'"' || c == b'<' || c == b'>' || c == b'|'

abbrev pub clean_char : Char → Char
clean_char c = if is_control (code c) || is_reserved (code c) then "_" else c

unfoldable pub clean_chars : String → String
clean_chars [] = []
clean_chars (c ∷ s) = clean_char c ∷ clean_chars s

-- `trim_start_matches('.')`
unfoldable pub trim_dots : String → String
trim_dots [] = []
trim_dots (c ∷ s) = let rest = trim_dots s in if code c == b'.' then rest else c ∷ s

-- `String::pop`
unfoldable pub pop : String → String
pop [] = []
pop (c ∷ s) = let rest = c ∷ pop s in if is_empty s then [] else rest

-- The loop that cuts the name: a round takes a byte at least, so the length is fuel enough.
unfoldable pub cut_from : ℕ → String → String
unfolding pop
cut_from zero s = s
cut_from (suc fuel) s = let rest = cut_from fuel (pop s) in if ltb max_name (len s) then rest else s

abbrev pub or_file : String → String
or_file s = if is_empty s then "file" else s

unfoldable pub cut : String → String
unfolding cut_from
cut s = cut_from (len s) s

unfoldable pub sanitize : String → String
unfolding last_part clean_chars trim_dots
sanitize name = cut (or_file (trim_dots (trim (clean_chars (last_part name)))))
