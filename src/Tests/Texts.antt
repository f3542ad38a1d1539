-- ===== src/Tests/Texts.antt =====
-- Texts in their canonical form, and the names of files.
use fluxsync.Base.{◌≡◌, refl, List, [], ◌∷◌, ℕ}
use fluxsync.Base.Text.{trim, trim_start, trim_end, is_control, any_char}
use fluxsync.Proto.File.{sanitize, last_part, clean_chars, trim_dots, cut, cut_from}
use fluxsync.Proto.File.Safe.{IsSafe, sanitize-IsSafe}

-- "a", a line feed, "b".
abbrev two_lines : List ℕ
two_lines = 97 ∷ 10 ∷ 98 ∷ []

sanitize-IsSafe_example : IsSafe (sanitize "../../etc/pa:sswd")
sanitize-IsSafe_example = sanitize-IsSafe "../../etc/pa:sswd"

sanitize_passwd : sanitize "../../etc/passwd" ≡ "passwd"
unfolding sanitize cut cut_from last_part clean_chars trim trim_start trim_end trim_dots is_control
    any_char
sanitize_passwd = refl
