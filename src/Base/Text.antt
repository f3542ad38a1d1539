-- ===== src/Base/Text.antt =====
-- Texts: Rust's `String` is the native `String`, whose `len` counts UTF-8 bytes and whose `count`
-- counts characters. What the source takes of `str` (trim, decimal and hex digits) is here.
use Prim.Native.Nat.{ℕ, zero, suc, ◌+◌, ◌*◌, ◌/◌, ◌%◌}
use Prim.Native.Char.{code}
use Prim.Native.String.{String, ◌++◌}
use mathlib.Core.Bool.{Bool, true, false, ◌&&◌, ◌||◌}
use mathlib.Core.Option.{Option, none, some}
use fluxsync.Base.Tests.{leb, ◌==◌, if◌then◌else◌}

abbrev pub is_empty : String → Bool
is_empty String.[] = true
is_empty (String.◌∷◌ c s) = false

-- `char::is_whitespace`: the code points of Unicode's White_Space.
pub is_whitespace : ℕ → Bool
is_whitespace c =
    (leb 9 c && leb c 13)
    || c == 32
    || c == 0x85
    || c == 0xA0
    || c == 0x1680
    || (leb 0x2000 c && leb c 0x200A)
    || c == 0x2028
    || c == 0x2029
    || c == 0x202F
    || c == 0x205F
    || c == 0x3000

-- `char::is_control`: the category Cc.
unfoldable pub is_control : ℕ → Bool
is_control c = leb c 0x1F || (leb 0x7F c && leb c 0x9F)

unfoldable pub trim_start : String → String
unfolding is_whitespace
trim_start String.[] = String.[]
trim_start (String.◌∷◌ c s) =
    let rest = trim_start s in if is_whitespace (code c) then rest else String.◌∷◌ c s

unfoldable pub trim_end : String → String
unfolding is_whitespace
trim_end String.[] = String.[]
trim_end (String.◌∷◌ c s) =
    let rest = trim_end s in
    if is_whitespace (code c) && is_empty rest then String.[] else String.◌∷◌ c rest

unfoldable pub trim : String → String
unfolding trim_start trim_end
trim s = trim_end (trim_start s)

unfoldable pub any_char : (ℕ → Bool) → String → Bool
any_char p String.[] = false
any_char p (String.◌∷◌ c s) = p (code c) || any_char p s

-- A digit below 16, in lower case.
unfoldable pub hex_digit : ℕ → String
hex_digit d =
    if d == 0
    then "0"
    else if d == 1
    then "1"
    else if d == 2
    then "2"
    else if d == 3
    then "3"
    else if d == 4
    then "4"
    else if d == 5
    then "5"
    else if d == 6
    then "6"
    else if d == 7
    then "7"
    else if d == 8
    then "8"
    else if d == 9
    then "9"
    else if d == 10
    then "a"
    else if d == 11
    then "b"
    else if d == 12
    then "c"
    else if d == 13
    then "d"
    else if d == 14
    then "e"
    else "f"

-- The decimal digits of a number below 10 ^ fuel.
decimal_from : ℕ → ℕ → String
unfolding hex_digit
decimal_from zero n = ""
decimal_from (suc fuel) n =
    let high = decimal_from fuel (n / 10) in
    if leb 10 n then high ++ hex_digit (n % 10) else hex_digit n

-- `{n}` in a format string, for a `usize`: twenty digits hold every 64-bit number.
unfoldable pub decimal : ℕ → String
unfolding decimal_from
decimal n = decimal_from 20 n

-- `char::to_digit(16)`.
pub to_digit : ℕ → Option ℕ
to_digit c =
    if leb b'0' c && leb c b'9'
    then some (Prim.Native.Nat.◌-◌ c 48)
    else if leb b'a' c && leb c b'f'
    then some (Prim.Native.Nat.◌-◌ c 87)
    else if leb b'A' c && leb c b'F'
    then some (Prim.Native.Nat.◌-◌ c 55)
    else none
