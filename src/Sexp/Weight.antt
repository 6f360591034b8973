-- ===== src/Sexp/Weight.antt =====
-- Bounds on the fuel that a printed value takes, and its bytes.
use google_gtags.Prelude.{
  ℕ, ◌+◌, ◌*◌, ◌≤◌, ◌<◌, true, [], ◌∷◌, ◌++◌, Text, every, every-append, every_mono,
  every_of_append, ◌≡◌, refl, length, length-append, Bool-cases, inl, inr, arith,
}
use google_gtags.Strutil.{ascii_isspace, c_str, c_escape_char, fast_itoa}
use google_gtags.Strutil.Escape.{is_nonzero, escaped, c_escape-escaped, c_str-every}
use google_gtags.Sexp.{SExpression, nil, pair, symbol, str, int, needs_quoting}
use google_gtags.Sexp.Printer.{barred, shown, shown_tail, shown_symbol, shown_string}
use google_gtags.Sexp.Escapes.{is_name_char}
use google_gtags.Sexp.Tokens.{IsToken, is_plain}
use google_gtags.Sexp.Items.{opens_item, is_printable_name, IsToken-name, IsToken-fast_itoa}
use google_gtags.Sexp.Readback.{IsPrintable, weight, tail_weight, opens_shown}

pub pos_of_opens : (t : Text) → opens_item (t ++ []) ≡ true → 0 < length t
unfolding ascii_isspace
pos_of_opens [] h = absurd (ground arith)
pos_of_opens (c ∷ cs) h = omega arith

shown-pos : (v : SExpression) → IsPrintable v → 0 < length (shown v)
shown-pos v p = pos_of_opens (shown v) (opens_shown v [] p)

length-shown_pair :
    (a b : SExpression) → length (shown (pair a b)) ≡ length (shown a) + length (shown_tail b) + 2
unfolding shown
length-shown_pair a b = omega (
  arith,
  length-append (shown a) (shown_tail b ++ b')' ∷ []),
  length-append (shown_tail b) (b')' ∷ []),
)

length-shown_tail_pair :
    (a b : SExpression)
    → length (shown_tail (pair a b)) ≡ length (shown a) + length (shown_tail b) + 1
unfolding shown_tail
length-shown_tail_pair a b = omega (arith, length-append (shown a) (shown_tail b))

mutual
  unfolding weight tail_weight shown_tail

  pub weight-le : (v : SExpression) → IsPrintable v → weight v + 1 ≤ 2 * length (shown v)
  weight-le nil p = omega (arith, shown-pos nil p)
  weight-le (symbol name) p = omega (arith, shown-pos (symbol name) p)
  weight-le (str value) p = omega (arith, shown-pos (str value) p)
  weight-le (int value) p = omega (arith, shown-pos (int value) p)
  weight-le (pair a b) p =
      omega (arith, weight-le a p.0, tail_weight-le b p.1, length-shown_pair a b)

  tail_weight-le : (v : SExpression) → IsPrintable v → tail_weight v ≤ 2 * length (shown_tail v) + 1
  tail_weight-le nil p = omega arith
  tail_weight-le (pair a b) p =
      omega (arith, weight-le a p.0, tail_weight-le b p.1, length-shown_tail_pair a b)
  tail_weight-le (symbol name) p = omega arith
  tail_weight-le (str value) p = omega arith
  tail_weight-le (int value) p = omega arith

pub nonzero_barred : (s : Text) → every is_name_char s ≡ true → every is_nonzero (barred s) ≡ true
unfolding barred
nonzero_barred [] h = refl
nonzero_barred (c ∷ cs) h =
    let hs : every is_name_char cs ≡ true = ground arith in
    rw every-append (ground (arith, nonzero_barred cs hs))

nonzero_escape_char : (c : ℕ) → is_nonzero c ≡ true → every is_nonzero (c_escape_char c) ≡ true
unfolding c_escape_char
nonzero_escape_char c h = ground arith

nonzero_escaped : (s : Text) → every is_nonzero s ≡ true → every is_nonzero (escaped s) ≡ true
unfolding escaped
nonzero_escaped [] h = refl
nonzero_escaped (c ∷ cs) h =
    let hc : is_nonzero c ≡ true = ground arith in
    let hs : every is_nonzero cs ≡ true = ground arith in
    rw every-append (rw (nonzero_escape_char c hc, nonzero_escaped cs hs))

nonzero_token : (t : Text) → IsToken t → every is_nonzero t ≡ true
nonzero_token t tok = every_mono {p = is_plain} {q = is_nonzero} (λ c k. ground arith) t tok.plain

-- A text between two delimiters.
pub nonzero_between :
    (first last : ℕ) (t : Text)
    → is_nonzero first ≡ true
    → is_nonzero last ≡ true
    → every is_nonzero t ≡ true
    → every is_nonzero (first ∷ (t ++ last ∷ [])) ≡ true
nonzero_between first last t o c h =
    let tail : every is_nonzero (t ++ last ∷ []) ≡ true =
      every_of_append is_nonzero t (last ∷ []) h (ground arith) in
    ground (arith, tail)

nonzero_string : (s : Text) → every is_nonzero s ≡ true → every is_nonzero (shown_string s) ≡ true
nonzero_string s h =
    rw (c_escape-escaped s h)
      (nonzero_between b'"' b'"' (escaped s) refl refl (nonzero_escaped s h))

name_nonzero : (name : Text) → every is_name_char name ≡ true → every is_nonzero name ≡ true
name_nonzero name h = every_mono {p = is_name_char} {q = is_nonzero} (λ c k. ground arith) name h

nonzero_bars :
    (name : Text)
    → every is_name_char name ≡ true
    → every is_nonzero (b'|' ∷ (barred (c_str name) ++ b'|' ∷ [])) ≡ true
nonzero_bars name h =
    rw (c_str-every name (name_nonzero name h))
      (nonzero_between b'|' b'|' (barred name) refl refl (nonzero_barred name h))

nonzero_symbol :
    (name : Text) → is_printable_name name ≡ true → every is_nonzero (shown_symbol name) ≡ true
unfolding is_printable_name
nonzero_symbol name p = elim (Bool-cases (needs_quoting name)) [
  | inl e ↦ rw e (nonzero_bars name (rw e at p))
  | inr e ↦ rw e (nonzero_token name (IsToken-name name e))
]

mutual
  unfolding shown shown_tail

  pub nonzero_shown : (v : SExpression) → IsPrintable v → every is_nonzero (shown v) ≡ true
  nonzero_shown nil p = refl
  nonzero_shown (symbol name) p = nonzero_symbol name p
  nonzero_shown (str value) p = nonzero_string value p
  nonzero_shown (int value) p = nonzero_token (fast_itoa value) (IsToken-fast_itoa value)
  nonzero_shown (pair a b) p =
      every_of_append is_nonzero (shown a) (shown_tail b ++ b')' ∷ []) (nonzero_shown a p.0)
        (every_of_append is_nonzero (shown_tail b) (b')' ∷ []) (nonzero_shown_tail b p.1) refl)

  nonzero_shown_tail : (v : SExpression) → IsPrintable v → every is_nonzero (shown_tail v) ≡ true
  nonzero_shown_tail nil p = refl
  nonzero_shown_tail (pair a b) p =
      every_of_append is_nonzero (shown a) (shown_tail b) (nonzero_shown a p.0)
        (nonzero_shown_tail b p.1)
  nonzero_shown_tail (symbol name) p = nonzero_symbol name p
  nonzero_shown_tail (str value) p = nonzero_string value p
  nonzero_shown_tail (int value) p = nonzero_token (fast_itoa value) (IsToken-fast_itoa value)
