-- ===== src/Sexp/Escapes.antt =====
-- What `FillWithDelimitedString` makes of the text between two delimiters that the printer wrote.
use google_gtags.Prelude.{
  ℕ, Bool, true, false, not, ◌||◌, [], ◌∷◌, ◌++◌, map, Text, every, append_assoc, append-nil, ◌≡◌,
  refl, ◌∙◌, some, ◌==◌, if◌then◌else◌, arith,
}
use google_gtags.Strutil.{c_escape_char}
use google_gtags.Strutil.Escape.{is_nonzero, escaped}
use google_gtags.Sexp.Parser.{fill}
use google_gtags.Sexp.Printer.{barred}

-- What comes back for a character of a string: the reader takes the letter of an escape as it is.
abbrev pub reread_char : ℕ → ℕ
reread_char c =
    if c == b'\n' then b'n' else if c == b'\r' then b'r' else if c == b'\t' then b't' else c

-- A character that a symbol's name may hold: neither NUL nor a backslash.
abbrev pub is_name_char : ℕ → Bool
is_name_char c = not (c == 0 || c == b'\\')

fill-c_escape_char :
    (c : ℕ) (out rest : Text)
    → is_nonzero c ≡ true
    → fill b'"' false out (c_escape_char c ++ rest)
      ≡ fill b'"' false (out ++ reread_char c ∷ []) rest
unfolding fill c_escape_char
fill-c_escape_char c out rest h = ground arith

pub fill-escaped :
    (s out rest : Text)
    → every is_nonzero s ≡ true
    → fill b'"' false out (escaped s ++ b'"' ∷ rest) ≡ (some (out ++ map reread_char s), rest)
unfolding escaped
fill-escaped [] out rest h = rw append-nil (unfold fill in refl)
fill-escaped (c ∷ cs) out rest h =
    let hc : is_nonzero c ≡ true = ground arith in
    let hs : every is_nonzero cs ≡ true = ground arith in
    rw append_assoc (
      fill-c_escape_char c out _ hc
      ∙ fill-escaped cs (out ++ reread_char c ∷ []) rest hs
      ∙ rw append_assoc)

fill-name_char :
    (c : ℕ) (out rest : Text)
    → is_name_char c ≡ true
    → fill b'|' false out ((if c == b'|' then b'\\' ∷ c ∷ [] else c ∷ []) ++ rest)
      ≡ fill b'|' false (out ++ c ∷ []) rest
unfolding fill
fill-name_char c out rest h = ground arith

pub fill-barred_on :
    (s out rest : Text)
    → every is_name_char s ≡ true
    → fill b'|' false out (barred s ++ rest) ≡ fill b'|' false (out ++ s) rest
unfolding barred
fill-barred_on [] out rest h = rw append-nil
fill-barred_on (c ∷ cs) out rest h =
    let hc : is_name_char c ≡ true = ground arith in
    let hs : every is_name_char cs ≡ true = ground arith in
    rw append_assoc
      (fill-name_char c out _ hc ∙ fill-barred_on cs (out ++ c ∷ []) rest hs ∙ rw append_assoc)

fill_bar : (out rest : Text) → fill b'|' false out (b'|' ∷ rest) ≡ (some out, rest)
unfolding fill
fill_bar out rest = refl

pub fill-barred :
    (s out rest : Text)
    → every is_name_char s ≡ true
    → fill b'|' false out (barred s ++ b'|' ∷ rest) ≡ (some (out ++ s), rest)
fill-barred s out rest h = fill-barred_on s out (b'|' ∷ rest) h ∙ fill_bar (out ++ s) rest
