-- ===== src/Sexp/RoundTrip.antt =====
-- sexpression.h: what `Parse` makes of the text that `Repr` prints.
use google_gtags.Prelude.{
  ◌≡◌, ◌∙◌, refl, some, [], ◌∷◌, Text, arith, append-nil, subst, every, true, false, Bool, not,
  ◌||◌, map, ap, ap₂, ◌==◌, text_eq, codes, ℕ,
}
use google_gtags.Prelude.Result.{ok}
use google_gtags.Strutil.{ascii_isspace}
use google_gtags.Strutil.Escape.{c_str-every}
use google_gtags.Sexp.{SExpression, nil, pair, symbol, str, int}
use google_gtags.Sexp.Parser.{c_string, parse_sexp, parse_from, parse, fuel_for}
use google_gtags.Sexp.Printer.{repr, shown, repr-shown}
use google_gtags.Sexp.Escapes.{reread_char}
use google_gtags.Sexp.Readback.{IsPrintable, reread, parse_shown}
use google_gtags.Sexp.Weight.{weight-le, nonzero_shown}

parse_from-shown :
    (v : SExpression) → IsPrintable v → parse_from c_string (shown v) ≡ ok (some (reread v), [])
unfolding parse_from ascii_isspace
parse_from-shown v p =
    let q = parse_shown v c_string (fuel_for (shown v)) [] p (omega (arith, weight-le v p)) refl in
    subst (λ t. parse_sexp c_string (fuel_for (shown v)) t ≡ ok (some (reread v), []))
      (append-nil (shown v)) q

-- `Parse` reads back what `Repr` prints of a value whose integers fit an int, whose strings hold no
-- NUL, and whose symbols hold no NUL, hold no backslash where they print between bars, and do not
-- begin with a period where they do not. Newlines, returns and tabs of its strings come back as the
-- letters n, r and t, and a symbol named nil comes back as nil; all else comes back as it was.
pub parse-repr : (v : SExpression) → IsPrintable v → parse (repr v) ≡ ok (some (reread v))
unfolding parse parse_from
parse-repr v p =
    rw repr-shown (rw (c_str-every (shown v) (nonzero_shown v p)) (rw (parse_from-shown v p)))

abbrev pub is_text_char : ℕ → Bool
is_text_char c = not (c == b'\n' || c == b'\r' || c == b'\t')

-- Nothing is lost where no string holds a newline, return or tab and no symbol is named nil.
abbrev pub IsPlain : SExpression → Type 0
IsPlain nil = Unit
IsPlain (pair a d) = IsPlain a × IsPlain d
IsPlain (symbol name) = text_eq name (codes "nil") ≡ false
IsPlain (str value) = every is_text_char value ≡ true
IsPlain (int value) = Unit

reread_text : (s : Text) → every is_text_char s ≡ true → map reread_char s ≡ s
reread_text [] h = refl
reread_text (c ∷ cs) h =
    let hs : every is_text_char cs ≡ true = ground arith in ground (arith, reread_text cs hs)

reread-IsPlain : (v : SExpression) → IsPlain v → reread v ≡ v
unfolding reread
reread-IsPlain nil p = refl
reread-IsPlain (pair a d) p = ap₂ pair (reread-IsPlain a p.0) (reread-IsPlain d p.1)
reread-IsPlain (symbol name) p = ground (arith, p)
reread-IsPlain (str value) p = ap str (reread_text value p)
reread-IsPlain (int value) p = refl

-- Printing and reading is the identity on the printable values in which, besides, no string holds a
-- newline, a return or a tab, and no symbol is named nil.
pub parse-repr_plain : (v : SExpression) → IsPrintable v → IsPlain v → parse (repr v) ≡ ok (some v)
parse-repr_plain v p q = parse-repr v p ∙ ap (λ w. ok (some w)) (reread-IsPlain v q)
