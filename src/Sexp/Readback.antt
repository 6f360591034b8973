-- ===== src/Sexp/Readback.antt =====
-- sexpression.h: what `ParseSexp` makes of a printed value, whatever text follows it.
use google_gtags.Prelude.{
  ℕ, zero, suc, ◌+◌, ◌≤◌, ◌<◌, Bool, true, false, [], ◌∷◌, ◌++◌, map, Text, codes, every, ◌≡◌, refl,
  ◌∙◌, ap, some, List, if◌then◌else◌, arith, append_assoc,
}
use google_gtags.Prelude.Int.{is_int32}
use google_gtags.Prelude.Result.{ok}
use google_gtags.Strutil.{ascii_isspace, fast_itoa}
use google_gtags.Strutil.Escape.{is_nonzero}
use google_gtags.Sexp.{SExpression, nil, pair, symbol, str, int, needs_quoting}
use google_gtags.Sexp.Parser.{
  Source, advance, skip_whitespace, parse_sexp, parse_items, build_list, cons_all, list_head, dot,
}
use google_gtags.Sexp.Printer.{shown, shown_tail, shown_symbol, shown_string}
use google_gtags.Sexp.Escapes.{reread_char}
use google_gtags.Sexp.Tokens.{is_delimited, reread_symbol}
use google_gtags.Sexp.Items.{
  opens_item, skip_opens, skip_space, list_head_opens, is_printable_name, parse_string_shown,
  parse_symbol_shown, parse_int_shown, parse_nil_shown, opens_int_shown, opens_symbol_shown,
}

-- The s-expressions that survive printing but for what `reread` says.
abbrev pub IsPrintable : SExpression → Type 0
IsPrintable nil = Unit
IsPrintable (pair a d) = IsPrintable a × IsPrintable d
IsPrintable (symbol name) = is_printable_name name ≡ true
IsPrintable (str value) = every is_nonzero value ≡ true
IsPrintable (int value) = is_int32 value ≡ true

-- What comes back: control characters in strings become letters, and the symbol `nil` becomes `nil`.
unfoldable pub reread : SExpression → SExpression
reread nil = nil
reread (pair a d) = pair (reread a) (reread d)
reread (symbol name) = if needs_quoting name then symbol name else reread_symbol name
reread (str value) = str (map reread_char value)
reread (int value) = int value

-- The fuel that reading a printed value takes, and reading on behind a car.
unfoldable mutual
  pub weight : SExpression → ℕ
  weight (pair a d) = weight a + tail_weight d + 2
  weight _ = 1

  pub tail_weight : SExpression → ℕ
  tail_weight nil = 1
  tail_weight (pair a d) = weight a + tail_weight d + 1
  tail_weight _ = 4

pub opens_shown :
    (v : SExpression) (rest : Text) → IsPrintable v → opens_item (shown v ++ rest) ≡ true
unfolding shown ascii_isspace
opens_shown nil rest p = refl
opens_shown (pair a d) rest p = refl
opens_shown (symbol name) rest p = opens_symbol_shown name rest p
opens_shown (str value) rest p = refl
opens_shown (int value) rest p = opens_int_shown value rest

pub parse_items_item :
    (source : Source) (f : ℕ) (imp : Bool) (items : List SExpression) (t : Text) {x : SExpression}
    {rest : Text}
    → opens_item t ≡ true
    → parse_sexp source f t ≡ ok (some x, rest)
    → parse_items source (suc f) imp items t
      ≡ parse_items source f imp (x ∷ items) (skip_whitespace rest)
unfolding parse_items
parse_items_item source f imp items t o p = rw (list_head_opens source t o) (rw p)

pub parse_items_close :
    (source : Source) (f : ℕ) (imp : Bool) (items : List SExpression) (rest : Text)
    → parse_items source (suc f) imp items (b')' ∷ rest) ≡ ok (some (build_list imp items), rest)
unfolding parse_items list_head advance
parse_items_close source f imp items rest = refl

parse_items_end :
    (source : Source) (f : ℕ) (x : SExpression) (items : List SExpression) (rest : Text)
    → parse_items source (suc f) false (x ∷ items) (skip_whitespace (b')' ∷ rest))
      ≡ ok (some (cons_all (x ∷ items) nil), rest)
unfolding skip_whitespace ascii_isspace build_list
parse_items_end source f x items rest = parse_items_close source f false (x ∷ items) rest

pub parse_open :
    (source : Source) (f : ℕ) (t : Text)
    → parse_sexp source (suc f) (b'(' ∷ t) ≡ parse_items source f false [] (skip_whitespace t)
unfolding parse_sexp skip_whitespace advance ascii_isspace
parse_open source f t = refl

list_head_dot : (source : Source) (t : Text) → list_head source (b'.' ∷ b' ' ∷ t) ≡ ok (dot t)
unfolding list_head advance ascii_isspace
list_head_dot source t = refl

parse_items_period :
    (source : Source) (f : ℕ) (imp : Bool) (items : List SExpression) (t : Text)
    → parse_items source (suc f) imp items (skip_whitespace (codes " . " ++ t))
      ≡ parse_items source f true items (skip_whitespace t)
unfolding parse_items skip_whitespace ascii_isspace
parse_items_period source f imp items t = rw list_head_dot

-- The reader at " . " and an item behind the car `x`.
parse_items_dot :
    (source : Source) (f : ℕ) (x y : SExpression) (items : List SExpression) (t rest : Text)
    → 4 ≤ f
    → opens_item (t ++ b')' ∷ rest) ≡ true
    → ((g : ℕ) → parse_sexp source (suc g) (t ++ b')' ∷ rest) ≡ ok (some y, b')' ∷ rest))
    → parse_items source f false (x ∷ items) (skip_whitespace ((codes " . " ++ t) ++ b')' ∷ rest))
      ≡ ok (some (cons_all (x ∷ items) y), rest)
unfolding build_list skip_whitespace ascii_isspace
parse_items_dot source zero x y items t rest w o p = absurd (omega arith)
parse_items_dot source (suc zero) x y items t rest w o p = absurd (omega arith)
parse_items_dot source (suc (suc zero)) x y items t rest w o p = absurd (omega arith)
parse_items_dot source (suc (suc (suc f))) x y items t rest w o p =
    parse_items_period source (suc (suc f)) false (x ∷ items) (t ++ b')' ∷ rest)
    ∙ ap (parse_items source (suc (suc f)) true (x ∷ items)) (skip_opens (t ++ b')' ∷ rest) o)
    ∙ parse_items_item source (suc f) true (x ∷ items) (t ++ b')' ∷ rest) o (p f)
    ∙ parse_items_close source f true (y ∷ x ∷ items) rest

pub delimited_close : (rest : Text) → is_delimited (b')' ∷ rest) ≡ true
unfolding ascii_isspace
delimited_close rest = refl

delimited_tail : (v : SExpression) (rest : Text) → is_delimited (shown_tail v ++ b')' ∷ rest) ≡ true
unfolding shown_tail ascii_isspace
delimited_tail nil rest = refl
delimited_tail _ rest = refl

weight-pos : (v : SExpression) → 0 < weight v
unfolding weight
weight-pos (pair a d) = omega arith
weight-pos _ = omega arith

tail_weight-pos : (v : SExpression) → 0 < tail_weight v
unfolding tail_weight
tail_weight-pos nil = omega arith
tail_weight-pos _ = omega arith

mutual
  unfolding shown shown_tail reread weight tail_weight cons_all

  pub parse_shown :
      (v : SExpression) (source : Source) (f : ℕ) (rest : Text)
      → IsPrintable v
      → weight v ≤ f
      → is_delimited rest ≡ true
      → parse_sexp source f (shown v ++ rest) ≡ ok (some (reread v), rest)
  parse_shown v source zero rest p w d = absurd (omega (arith, weight-pos v))
  parse_shown nil source (suc f) rest p w d = parse_nil_shown source f rest d
  parse_shown (symbol name) source (suc f) rest p w d = parse_symbol_shown source f rest name p d
  parse_shown (str value) source (suc f) rest p w d = parse_string_shown source f rest value p
  parse_shown (int value) source (suc f) rest p w d = parse_int_shown source f rest value p d
  parse_shown (pair a b) source (suc zero) rest p w d = absurd (omega arith)
  parse_shown (pair a b) source (suc (suc f)) rest p w d =
      let t = shown_tail b ++ b')' ∷ rest in
      let o = opens_shown a t p.0 in
      parse_open source (suc f) (shown a ++ (shown_tail b ++ b')' ∷ []) ++ rest)
      ∙ rw (append_assoc, append_assoc)
          (rw (skip_opens (shown a ++ t) o) (
            parse_items_item source f false [] (shown a ++ t) o
              (parse_shown a source f t p.0 (omega arith) (delimited_tail b rest))
            ∙ parse_tail b source f (reread a) [] rest p.1 (omega arith)))

  parse_tail :
      (v : SExpression) (source : Source) (f : ℕ) (x : SExpression) (items : List SExpression)
      (rest : Text)
      → IsPrintable v
      → tail_weight v ≤ f
      → parse_items source f false (x ∷ items) (skip_whitespace (shown_tail v ++ b')' ∷ rest))
        ≡ ok (some (cons_all (x ∷ items) (reread v)), rest)
  parse_tail v source zero x items rest p w = absurd (omega (arith, tail_weight-pos v))
  parse_tail nil source (suc f) x items rest p w = parse_items_end source f x items rest
  parse_tail (pair a b) source (suc f) x items rest p w =
      let t = shown_tail b ++ b')' ∷ rest in
      let o = opens_shown a t p.0 in
      rw append_assoc (
        rw (skip_space (shown a ++ t) o) (
          parse_items_item source f false (x ∷ items) (shown a ++ t) o
            (parse_shown a source f t p.0 (omega arith) (delimited_tail b rest))
          ∙ parse_tail b source f (reread a) (x ∷ items) rest p.1 (omega arith)))
  parse_tail (symbol name) source f x items rest p w =
      parse_items_dot source f x (reread (symbol name)) items (shown_symbol name) rest w
        (opens_symbol_shown name (b')' ∷ rest) p)
        (λ g. parse_symbol_shown source g (b')' ∷ rest) name p (delimited_close rest))
  parse_tail (str value) source f x items rest p w =
      parse_items_dot source f x (reread (str value)) items (shown_string value) rest w
        (opens_shown (str value) (b')' ∷ rest) p)
        (λ g. parse_string_shown source g (b')' ∷ rest) value p)
  parse_tail (int value) source f x items rest p w =
      parse_items_dot source f x (int value) items (fast_itoa value) rest w
        (opens_int_shown value (b')' ∷ rest))
        (λ g. parse_int_shown source g (b')' ∷ rest) value p (delimited_close rest))
