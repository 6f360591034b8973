-- ===== src/Sexp/Flaws.antt =====
-- sexpression.cc: where the reader and the printer do not agree, and input that ends the process.
use google_gtags.Prelude.{
  ℕ, zero, suc, ◌<◌, List, ◌+◌, ◌≤◌, Bool, true, false, [], ◌∷◌, ◌++◌, Text, codes, every,
  every_of_append, every_mono, ◌≡◌, refl, ◌∙◌, none, length-append, arith, append_assoc,
}
use google_gtags.Prelude.Result.{ok, fatal}
use google_gtags.Strutil.{ascii_isspace, c_str}
use google_gtags.Strutil.Escape.{is_nonzero, c_str-every}
use google_gtags.Sexp.{SExpression, symbol, is_symbol_char, needs_quoting}
use google_gtags.Sexp.Parser.{
  c_string, advance, skip_whitespace, fill, fill_with_delimited_string, parse_symbol_in_bars,
  read_token, make_token, parse_unquoted_token, list_head, parse_sexp, parse_items, fuel_for,
  parse_from, parse,
}
use google_gtags.Sexp.Printer.{barred, shown, repr, repr-shown}
use google_gtags.Sexp.Escapes.{is_name_char, fill-barred_on}
use google_gtags.Sexp.Items.{skip_opens}
use google_gtags.Sexp.Readback.{
  IsPrintable, reread, weight, opens_shown, parse_shown, parse_items_item, parse_open,
}
use google_gtags.Sexp.Weight.{weight-le, nonzero_shown, nonzero_barred}

barred-append : (s t : Text) → barred (s ++ t) ≡ barred s ++ barred t
unfolding barred
barred-append [] t = refl
barred-append (c ∷ cs) t = simp (barred-append cs, append_assoc)

not-every-append : (p : ℕ → Bool) (s : Text) (c : ℕ) → p c ≡ false → every p (s ++ c ∷ []) ≡ false
not-every-append p [] c h = ground arith
not-every-append p (x ∷ xs) c h = ground (arith, not-every-append p xs c h)

backslash_quoted : (name : Text) → needs_quoting (name ++ b'\\' ∷ []) ≡ true
unfolding needs_quoting
backslash_quoted name =
    ground (arith, not-every-append is_symbol_char name b'\\' (unfold is_symbol_char in refl))

fill_backslash : (out : Text) → fill b'|' false out (b'\\' ∷ b'|' ∷ []) ≡ (none, [])
unfolding fill
fill_backslash out = refl

barred_backslash :
    (name : Text) → barred (name ++ b'\\' ∷ []) ++ b'|' ∷ [] ≡ barred name ++ (b'\\' ∷ b'|' ∷ [])
barred_backslash name = rw barred-append (rw append_assoc (unfold barred in refl))

fill_unclosed :
    (name : Text)
    → every is_name_char name ≡ true
    → fill b'|' false [] (barred (name ++ b'\\' ∷ []) ++ b'|' ∷ []) ≡ (none, [])
fill_unclosed name h = rw barred_backslash (fill-barred_on name [] _ h ∙ fill_backslash name)

name_and_backslash :
    (name : Text) → every is_name_char name ≡ true → every is_nonzero (name ++ b'\\' ∷ []) ≡ true
name_and_backslash name h =
    every_of_append is_nonzero name (b'\\' ∷ [])
      (every_mono {p = is_name_char} {q = is_nonzero} (λ c k. ground arith) name h) refl

shown_backslash :
    (name : Text)
    → every is_name_char name ≡ true
    → repr (symbol (name ++ b'\\' ∷ [])) ≡ b'|' ∷ (barred (name ++ b'\\' ∷ []) ++ b'|' ∷ [])
shown_backslash name h =
    repr-shown (symbol (name ++ b'\\' ∷ []))
    ∙ unfold shown in rw (backslash_quoted name) (rw (c_str-every _ (name_and_backslash name h)))

parse_unclosed :
    (f : ℕ) (t : Text)
    → 0 < f
    → fill b'|' false [] t ≡ (none, [])
    → parse_sexp c_string f (b'|' ∷ t) ≡ ok (none, [])
unfolding parse_sexp parse_symbol_in_bars fill_with_delimited_string advance skip_whitespace
    ascii_isspace
parse_unclosed zero t h e = absurd (omega arith)
parse_unclosed (suc f) t h e = rw e

printed_nonzero :
    (name : Text)
    → every is_name_char name ≡ true
    → every is_nonzero (b'|' ∷ (barred (name ++ b'\\' ∷ []) ++ b'|' ∷ [])) ≡ true
printed_nonzero name h =
    rw barred_backslash
      (every_of_append is_nonzero (barred name) (b'\\' ∷ b'|' ∷ []) (nonzero_barred name h) refl)

-- A symbol whose name ends in a backslash, and else holds neither NUL nor a backslash, is printed
-- with its last backslash in front of the closing bar, so that `Parse` finds no s-expression in
-- what `Repr` prints.
pub parse-repr_backslash :
    (name : Text)
    → every is_name_char name ≡ true
    → parse (repr (symbol (name ++ b'\\' ∷ []))) ≡ ok none
unfolding parse parse_from
parse-repr_backslash name h =
    let t = barred (name ++ b'\\' ∷ []) ++ b'|' ∷ [] in
    rw (shown_backslash name h) (
      rw (c_str-every (b'|' ∷ t) (printed_nonzero name h))
        (rw (parse_unclosed (fuel_for (b'|' ∷ t)) t (omega arith) (fill_unclosed name h))))

-- The reader behind `(v`, at ` .)`.
parse_period :
    (f : ℕ) (items : List SExpression)
    → 2 ≤ f
    → parse_items c_string f false items (skip_whitespace (codes " .)")) ≡ fatal
unfolding parse_items list_head advance ascii_isspace skip_whitespace parse_unquoted_token
    read_token make_token c_str
parse_period zero items h = absurd (omega arith)
parse_period (suc zero) items h = absurd (omega arith)
parse_period (suc (suc f)) items h = refl

period_fatal :
    (v : SExpression) (f : ℕ)
    → IsPrintable v
    → weight v + 4 ≤ f
    → parse_sexp c_string f (b'(' ∷ (shown v ++ codes " .)")) ≡ fatal
unfolding ascii_isspace
period_fatal v zero p h = absurd (omega arith)
period_fatal v (suc zero) p h = absurd (omega arith)
period_fatal v (suc (suc f)) p h =
    let t = shown v ++ codes " .)" in
    let o = opens_shown v (codes " .)") p in
    parse_open c_string (suc f) t
    ∙ rw (skip_opens t o) (
        parse_items_item c_string f false [] t o
          (parse_shown v c_string f (codes " .)") p (omega arith) refl)
        ∙ parse_period f (reread v ∷ []) (omega arith))

-- `Parse` of a list whose last element is a period without white space behind it, `(V .)` for the
-- printed form V of any printable value, fails the CHECK of `ParseUnquotedToken`: it ends the
-- process, where the documentation promises NULL.
pub parse_lone_period :
    (v : SExpression) → IsPrintable v → parse (b'(' ∷ (repr v ++ codes " .)")) ≡ fatal
unfolding parse parse_from
parse_lone_period v p =
    let t = b'(' ∷ (shown v ++ codes " .)") in
    rw repr-shown
      (rw (c_str-every t (whole_nonzero v p)) (rw (period_fatal v (fuel_for t) p (enough v p))))
  where
    whole_nonzero :
        (w : SExpression)
        → IsPrintable w
        → every is_nonzero (b'(' ∷ (shown w ++ codes " .)")) ≡ true
    whole_nonzero w q = every_of_append is_nonzero (shown w) (codes " .)") (nonzero_shown w q) refl

    enough :
        (w : SExpression)
        → IsPrintable w
        → weight w + 4 ≤ fuel_for (b'(' ∷ (shown w ++ codes " .)"))
    enough w q = omega (arith, weight-le w q, length-append (shown w) (codes " .)"))
