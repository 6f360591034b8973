-- ===== src/Sexp/Tests.antt =====
-- sexpression_test.cc: runs on concrete inputs, and the theorems at inputs that meet their premises.
use google_gtags.Prelude.{◌≡◌, ◌++◌, refl, [], none, some, Text, codes, length, text_eq}
use google_gtags.Prelude.Int.{negsuc}
use google_gtags.Prelude.Result.{ok, fatal}
use google_gtags.Strutil.{fast_itoa, ascii_isspace, c_str, is_int_token, c_escape, scan_int}
use google_gtags.Sexp.{
  SExpression, nil, pair, symbol, str, int, needs_quoting, token_is_integer, token_is_all_periods,
  is_symbol_char, new_symbol,
}
use google_gtags.Sexp.Parser.{
  file, skip_whitespace, advance, parse_string, parse_symbol_in_bars, parse_unquoted_token,
  parse_sexp, parse_from, parse, fill_with_delimited_string, read_token, make_token, integer_value,
  list_head, build_list,
}
use google_gtags.Sexp.Printer.{repr}
use google_gtags.Sexp.Items.{is_printable_name}
use google_gtags.Sexp.Readback.{IsPrintable, reread}
use google_gtags.Sexp.RoundTrip.{parse-repr}
use google_gtags.Sexp.Ends.{Ends}
use google_gtags.Sexp.Termination.{parse_from-Ends}
use google_gtags.Sexp.Flaws.{parse-repr_backslash, parse_lone_period}

abbrev sample : SExpression
sample =
    pair (symbol (codes "foo"))
      (pair (int (negsuc 41)) (pair (str (codes "a \"b\"\n")) (symbol (codes "x y|"))))

-- `parse` with all that it calls.
ReadsAs : Text → SExpression → Type 0
unfolding parse parse_from parse_sexp parse_string parse_symbol_in_bars parse_unquoted_token
    fill_with_delimited_string skip_whitespace advance read_token make_token integer_value list_head
    build_list ascii_isspace c_str is_int_token scan_int token_is_integer token_is_all_periods
    new_symbol text_eq
ReadsAs t v = parse t ≡ ok (some v)

improper_runs :
    ReadsAs
      (codes "(a b . c)")
      (pair (symbol (codes "a")) (pair (symbol (codes "b")) (symbol (codes "c"))))
unfolding ReadsAs
improper_runs = refl

-- The period in front of a name is lost inside a list.
period_runs :
    ReadsAs
      (codes "(.foo -7 \"\" )")
      (pair (symbol (codes "foo")) (pair (int (negsuc 6)) (pair (str []) nil)))
unfolding ReadsAs
period_runs = refl

sample_shown : repr sample ≡ codes "(foo -42 \"a \\\"b\\\"\\n\" . |x y\\||)"
unfolding repr needs_quoting token_is_integer token_is_all_periods is_symbol_char is_int_token
    ascii_isspace c_str c_escape fast_itoa
sample_shown = refl

sample-IsPrintable : IsPrintable sample
unfolding is_printable_name needs_quoting token_is_integer token_is_all_periods is_symbol_char
    is_int_token ascii_isspace
sample-IsPrintable = (refl, (refl, (refl, refl)))

parse-repr_example : parse (repr sample) ≡ ok (some (reread sample))
parse-repr_example = parse-repr sample sample-IsPrintable

parse_from-Ends_example : Ends (length (codes "(a (b")) (parse_from file (codes "(a (b"))
parse_from-Ends_example = parse_from-Ends file (codes "(a (b")

parse-repr_backslash_example : parse (repr (symbol (codes "a\\"))) ≡ ok none
parse-repr_backslash_example = parse-repr_backslash (codes "a") refl

parse_lone_period_example : parse (codes "(" ++ (repr nil ++ codes " .)")) ≡ fatal
parse_lone_period_example = parse_lone_period nil tt
