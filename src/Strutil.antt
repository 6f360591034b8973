-- ===== src/Strutil.antt =====
-- strutil.h and strutil.cc: character tests, escapes, and decimal integers.
pub mod Decimal
pub mod Escape
mod Tests
use google_gtags.Prelude.{
  ℕ, zero, suc, ◌+◌, ◌-◌, ◌*◌, ◌/◌, ◌%◌, ◌<◌, Bool, true, false, ◌&&◌, ◌||◌, List, [], ◌∷◌, ◌++◌,
  Text, Option, none, some, ltb, leb, ◌==◌, if◌then◌else◌,
}
use google_gtags.Prelude.Int.{ℤ, pos, negsuc}

-- `isspace` in the C locale.
unfoldable pub ascii_isspace : ℕ → Bool
ascii_isspace c = c == b' ' || (leb 9 c && leb c 13)

unfoldable pub is_digit : ℕ → Bool
is_digit c = leb b'0' c && leb c b'9'

-- What `*str` reads: the terminator stands behind the last character.
abbrev pub peek : Text → ℕ
peek [] = 0
peek (c ∷ cs) = c

-- `s.c_str()` read as a C string: it ends at the first NUL.
unfoldable pub c_str : Text → Text
c_str [] = []
c_str (c ∷ cs) = if c == 0 then [] else c ∷ c_str cs

-- What the switch of `CEscape` appends for one character.
unfoldable pub c_escape_char : ℕ → Text
c_escape_char c =
    if c == b'\n'
    then b'\\' ∷ b'n' ∷ []
    else if c == b'\r'
    then b'\\' ∷ b'r' ∷ []
    else if c == b'\t'
    then b'\\' ∷ b't' ∷ []
    else if c == b'"'
    then b'\\' ∷ b'"' ∷ []
    else if c == b'\''
    then b'\\' ∷ b'\'' ∷ []
    else if c == b'\\'
    then b'\\' ∷ b'\\' ∷ []
    else c ∷ []

c_escape_loop : Text → Text → Text
c_escape_loop buffer [] = buffer
c_escape_loop buffer (c ∷ cs) = c_escape_loop (buffer ++ c_escape_char c) cs

unfoldable pub c_escape : Text → Text
unfolding c_escape_loop c_str c_escape_char
c_escape src_string = c_escape_loop [] (c_str src_string)

-- The do-while loop of `FastItoa`; it writes from the end of the buffer to the front.
itoa_loop : ℕ → ℕ → Text → Text
itoa_loop zero n p = p
itoa_loop (suc room) n p =
    let p' = (b'0' + n % 10) ∷ p in
    let rest = itoa_loop room (n / 10) p' in if n / 10 == 0 then p' else rest

-- The buffer has room for ten digits and a sign.
unfoldable pub fast_itoa : ℤ → Text
unfolding itoa_loop
fast_itoa (pos n) = itoa_loop 10 n []
fast_itoa (negsuc n) = b'-' ∷ itoa_loop 10 (suc n) []

-- The loop of `IsIntToken`, with the counter `i`.
is_int_loop : ℕ → Text → Bool
is_int_loop i [] = ltb 0 i
is_int_loop i (c ∷ cs) =
    if c == 0 then ltb 0 i else if ltb i 10 then is_digit c && is_int_loop (i + 1) cs else false

unfoldable pub is_int_token : Text → Bool
unfolding is_int_loop is_digit
is_int_token [] = is_int_loop 0 []
is_int_token (c ∷ cs) = if c == b'-' then is_int_loop 0 cs else is_int_loop 0 (c ∷ cs)

-- `HasPrefixString`, `var_strprefix` as a test, and `TagsTable::IsPrefix`: `str` begins with `prefix`.
unfoldable pub has_prefix_string : Text → Text → Bool
has_prefix_string str [] = true
has_prefix_string [] (p ∷ ps) = false
has_prefix_string (c ∷ cs) (p ∷ ps) = c == p && has_prefix_string cs ps

-- `sscanf(str, "%d", ...)` on a text with no leading white space: the digits up to the first other
-- character, and `none` where it reads no value.
unfoldable pub scan_digits : ℕ → Text → ℕ
unfolding is_digit
scan_digits n [] = n
scan_digits n (c ∷ cs) =
    let rest = scan_digits (n * 10 + (c - b'0')) cs in if is_digit c then rest else n

abbrev pub negate : ℕ → ℤ
negate zero = pos 0
negate (suc n) = negsuc n

unfoldable pub scan_int : Text → Option ℤ
unfolding scan_digits is_digit
scan_int [] = none
scan_int (c ∷ cs) =
    if c == b'-' || c == b'+'
    then (if is_digit (peek cs)
        then some (if c == b'-' then negate (scan_digits 0 cs) else pos (scan_digits 0 cs))
        else none)
    else if is_digit c
    then some (pos (scan_digits 0 (c ∷ cs)))
    else none
