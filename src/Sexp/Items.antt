-- ===== src/Sexp/Items.antt =====
-- How the parser reads back each kind of printed item, and the text in front of and behind it.
use google_gtags.Prelude.{
  ℕ, suc, Bool, true, false, not, ◌||◌, [], ◌∷◌, ◌++◌, map, Text, codes, text_eq_iff, ◌<◌, every,
  every_mono, ◌≡◌, refl, ◌∙◌, ap, some, ◌==◌, Bool-cases, inl, inr, length, if◌then◌else◌, arith,
  append_assoc,
}
use google_gtags.Prelude.Int.{ℤ, is_int32}
use google_gtags.Prelude.Result.{ok}
use google_gtags.Strutil.{ascii_isspace, is_digit, peek, c_str, is_int_token, fast_itoa}
use google_gtags.Strutil.Decimal.{is_int_char, fast_itoa_chars}
use google_gtags.Strutil.Escape.{is_nonzero, c_str-every, c_escape-escaped}
use google_gtags.Sexp.{
  SExpression, nil, symbol, str, int, needs_quoting, token_is_integer, token_is_all_periods,
  is_symbol_char, new_symbol,
}
use google_gtags.Sexp.Parser.{
  Source, advance, skip_whitespace, parse_sexp, parse_string, fill_with_delimited_string,
  parse_symbol_in_bars, parse_unquoted_token, make_token, list_head, item,
}
use google_gtags.Sexp.Printer.{barred, shown_symbol, shown_string}
use google_gtags.Sexp.Escapes.{is_name_char, reread_char, fill-escaped, fill-barred}
use google_gtags.Sexp.Tokens.{
  IsToken, opens_token, opens_symbol, opens_int, is_delimited, every-opens_token, read_token-plain,
  make_token-symbol, make_token-int, reread_symbol,
}

-- The text begins with what may open an item of a list.
abbrev pub opens_item : Text → Bool
opens_item t = not (ascii_isspace (peek t) || peek t == b')' || peek t == b'.' || peek t == 0)

pub skip_opens : (t : Text) → opens_item t ≡ true → skip_whitespace t ≡ t
unfolding skip_whitespace
skip_opens [] h = refl
skip_opens (c ∷ cs) h = ground arith

pub skip_space : (t : Text) → opens_item t ≡ true → skip_whitespace (b' ' ∷ t) ≡ t
unfolding skip_whitespace ascii_isspace
skip_space t h = skip_opens t h

pub list_head_opens :
    (source : Source) (t : Text) → opens_item t ≡ true → list_head source t ≡ ok (item t)
unfolding list_head
list_head_opens source t h = ground arith

-- A name that prints with no bars.
pub IsToken-name : (name : Text) → needs_quoting name ≡ false → IsToken name
unfolding needs_quoting
IsToken-name [] q = absurd (unfold token_is_all_periods in ground arith)
IsToken-name (c ∷ cs) q =
    let h : every is_symbol_char (c ∷ cs) ≡ true = ground arith in
    every-opens_token (c ∷ cs)
      (every_mono {p = is_symbol_char} {q = opens_token} opens_symbol (c ∷ cs) h) (λ e. cc)

pub IsToken-fast_itoa : (i : ℤ) → IsToken (fast_itoa i)
IsToken-fast_itoa i =
    let (chars, some_chars) = fast_itoa_chars i in
    every-opens_token (fast_itoa i)
      (every_mono {p = is_int_char} {q = opens_token} opens_int (fast_itoa i) chars)
      (λ e. absurd (omega (arith, ap length e)))

nil_unquoted : needs_quoting (codes "nil") ≡ false
unfolding needs_quoting token_is_integer token_is_all_periods is_symbol_char is_int_token
    ascii_isspace
nil_unquoted = refl

-- What can be printed and read back: a name that holds neither NUL nor a backslash, and that does
-- not begin with a period where it stands with no bars.
unfoldable pub is_printable_name : Text → Bool
is_printable_name name =
    if needs_quoting name then every is_name_char name else not (peek name == b'.')

module _ (source : Source) (f : ℕ) (rest : Text) where
  pub parse_string_shown :
      (s : Text)
      → every is_nonzero s ≡ true
      → parse_sexp source (suc f) (shown_string s ++ rest)
        ≡ ok (some (str (map reread_char s)), rest)
  unfolding parse_sexp parse_string fill_with_delimited_string advance skip_whitespace ascii_isspace
  parse_string_shown s h = rw (c_escape-escaped s h, append_assoc) (rw (fill-escaped s [] rest h))

  parse_bars_shown :
      (name : Text)
      → every is_name_char name ≡ true
      → parse_sexp source (suc f) ((b'|' ∷ (barred (c_str name) ++ b'|' ∷ [])) ++ rest)
        ≡ ok (some (symbol name), rest)
  unfolding parse_sexp parse_symbol_in_bars fill_with_delimited_string advance skip_whitespace
      ascii_isspace new_symbol
  parse_bars_shown name h =
      let n : c_str name ≡ name =
        c_str-every name
          (every_mono {p = is_name_char} {q = is_nonzero} (λ c k. ground arith) name h) in
      rw (n, append_assoc) (rw (fill-barred name [] rest h, n))

  parse_unquoted :
      (t : Text) {v : SExpression}
      → IsToken t
      → is_delimited rest ≡ true
      → make_token false t ≡ ok (some v)
      → parse_unquoted_token source (t ++ rest) ≡ ok (some v, rest)
  unfolding parse_unquoted_token
  parse_unquoted t tok d m = rw (read_token-plain source t rest [] tok.plain d, m)

  -- A token that `make_token` turns into `v` is read as `v`.
  parse_token :
      (t : Text) {v : SExpression}
      → IsToken t
      → is_delimited rest ≡ true
      → make_token false t ≡ ok (some v)
      → parse_sexp source (suc f) (t ++ rest) ≡ ok (some v, rest)
  unfolding parse_sexp skip_whitespace
  parse_token [] tok d m = absurd (unfold ascii_isspace in ground (arith, tok.starts))
  parse_token (c ∷ cs) tok d m = ground (arith, tok.starts, parse_unquoted (c ∷ cs) tok d m)

  parse_name :
      (name : Text)
      → needs_quoting name ≡ false
      → IsToken name
      → is_delimited rest ≡ true
      → parse_sexp source (suc f) (name ++ rest) ≡ ok (some (reread_symbol name), rest)
  parse_name name q t d = parse_token name t d (make_token-symbol name q t)

  pub parse_symbol_shown :
      (name : Text)
      → is_printable_name name ≡ true
      → is_delimited rest ≡ true
      → parse_sexp source (suc f) (shown_symbol name ++ rest)
        ≡ ok (some (if needs_quoting name then symbol name else reread_symbol name), rest)
  unfolding is_printable_name
  parse_symbol_shown name p d = elim (Bool-cases (needs_quoting name)) [
    | inl e ↦ rw e (parse_bars_shown name (rw e at p))
    | inr e ↦ rw e (parse_name name e (IsToken-name name e) d)
  ]

  pub parse_int_shown :
      (i : ℤ)
      → is_int32 i ≡ true
      → is_delimited rest ≡ true
      → parse_sexp source (suc f) (fast_itoa i ++ rest) ≡ ok (some (int i), rest)
  parse_int_shown i h d =
      let t = IsToken-fast_itoa i in parse_token (fast_itoa i) t d (make_token-int i h t)

  pub parse_nil_shown :
      is_delimited rest ≡ true
      → parse_sexp source (suc f) (codes "nil" ++ rest) ≡ ok (some nil, rest)
  parse_nil_shown d =
      parse_name (codes "nil") nil_unquoted (IsToken-name (codes "nil") nil_unquoted) d
      ∙ rw ((text_eq_iff (codes "nil") (codes "nil")).1 refl)

opens_int_chars :
    (t rest : Text) → every is_int_char t ≡ true → 0 < length t → opens_item (t ++ rest) ≡ true
unfolding ascii_isspace is_digit
opens_int_chars [] rest h k = absurd (omega arith)
opens_int_chars (c ∷ cs) rest h k = ground arith

pub opens_int_shown : (i : ℤ) (rest : Text) → opens_item (fast_itoa i ++ rest) ≡ true
opens_int_shown i rest =
    let (chars, some_chars) = fast_itoa_chars i in
    opens_int_chars (fast_itoa i) rest chars some_chars

opens_name : (t rest : Text) → IsToken t → (peek t == b'.') ≡ false → opens_item (t ++ rest) ≡ true
opens_name [] rest t h = absurd (unfold ascii_isspace in ground (arith, t.starts))
opens_name (c ∷ cs) rest t h = ground (arith, t.starts)

pub opens_symbol_shown :
    (name rest : Text)
    → is_printable_name name ≡ true
    → opens_item (shown_symbol name ++ rest) ≡ true
unfolding is_printable_name
opens_symbol_shown name rest p = elim (Bool-cases (needs_quoting name)) [
  | inl e ↦ rw e (unfold ascii_isspace in refl)
  | inr e ↦ rw e (opens_name name rest (IsToken-name name e) (unquoted e))
]
  where
    unquoted : needs_quoting name ≡ false → (peek name == b'.') ≡ false
    unquoted e = ground arith
