-- ===== src/Sexp/Reads.antt =====
-- sexpression.h: texts of s-expressions that are put together, with white space where `Repr` has none.
use google_gtags.Prelude.{
  ℕ, suc, zero, ◌+◌, ◌*◌, ◌≤◌, ◌<◌, true, false, List, [], ◌∷◌, ◌++◌, Text, every, every_of_append,
  length, length-append, append-nil, append_assoc, some, ◌≡◌, ◌∙◌, refl, ap, subst, arith,
}
use google_gtags.Prelude.Result.{ok}
use google_gtags.Strutil.{ascii_isspace}
use google_gtags.Strutil.Escape.{is_nonzero, c_str-every}
use google_gtags.Sexp.{SExpression, nil, pair}
use google_gtags.Sexp.Parser.{
  Source, c_string, skip_whitespace, parse_sexp, parse_items, parse_from, parse, build_list,
  cons_all, fuel_for,
}
use google_gtags.Sexp.Printer.{shown}
use google_gtags.Sexp.Tokens.{is_delimited}
use google_gtags.Sexp.Items.{opens_item, skip_opens}
use google_gtags.Sexp.Readback.{
  IsPrintable, reread, parse_shown, opens_shown, parse_open, parse_items_item, parse_items_close,
}
use google_gtags.Sexp.Weight.{pos_of_opens, weight-le, nonzero_shown}

-- The text is read as this value, whatever delimiter follows.
pub record Reads (t : Text) (v : SExpression) : Type 0 where
  pub opens : (rest : Text) → opens_item (t ++ rest) ≡ true
  pub nonzero : every is_nonzero t ≡ true
  pub parses :
      (source : Source) (f : ℕ) (rest : Text)
      → 2 * length t ≤ f
      → is_delimited rest ≡ true
      → parse_sexp source f (t ++ rest) ≡ ok (some v, rest)

abbrev pub list_of : List SExpression → SExpression
list_of [] = nil
list_of (v ∷ vs) = pair v (list_of vs)

-- The text is read as these values and the parenthesis that closes their list.
pub record ReadsItems (t : Text) (vs : List SExpression) : Type 0 where
  pub closes : 0 < length t
  pub nonzero : every is_nonzero t ≡ true
  pub parses :
      (source : Source) (f : ℕ) (items : List SExpression) (rest : Text)
      → 2 * length t ≤ f
      → parse_items source f false items (skip_whitespace (t ++ rest))
        ≡ ok (some (cons_all items (list_of vs)), rest)

pub Reads-shown : (v : SExpression) → IsPrintable v → Reads (shown v) (reread v)
Reads-shown v p = record {
  opens = λ rest. opens_shown v rest p;
  nonzero = nonzero_shown v p;
  parses = λ source f rest w d. parse_shown v source f rest p (omega (arith, weight-le v p)) d;
}

build_list-cons_all : (items : List SExpression) → build_list false items ≡ cons_all items nil
unfolding build_list
build_list-cons_all [] = refl
build_list-cons_all (x ∷ items) = refl

pub ReadsItems-close : ReadsItems (b')' ∷ []) []
unfolding skip_whitespace ascii_isspace
ReadsItems-close = record {
  closes = omega arith;
  nonzero = refl;
  parses = λ source f items rest w. close source f items rest w;
}
  where
    close :
        (source : Source) (f : ℕ) (items : List SExpression) (rest : Text)
        → 2 ≤ f
        → parse_items source f false items (b')' ∷ rest) ≡ ok (some (cons_all items nil), rest)
    close source zero items rest w = absurd (omega arith)
    close source (suc f) items rest w =
        parse_items_close source f false items rest
        ∙ ap (λ v. ok (some v, rest)) (build_list-cons_all items)

pub ReadsItems-space :
    {t : Text} {vs : List SExpression} → ReadsItems t vs → ReadsItems (b' ' ∷ t) vs
unfolding skip_whitespace ascii_isspace
ReadsItems-space r = record {
  closes = omega arith;
  nonzero = ground (arith, r.nonzero);
  parses = λ source f items rest w. r.parses source f items rest (omega arith);
}

pub ReadsItems-item :
    {a t : Text} {v : SExpression} {vs : List SExpression}
    → Reads a v
    → ((rest : Text) → is_delimited (t ++ rest) ≡ true)
    → ReadsItems t vs
    → ReadsItems (a ++ t) (v ∷ vs)
unfolding cons_all
ReadsItems-item {a} {t} {v} {vs} r d s = record {
  closes = omega (arith, length-append a t, s.closes);
  nonzero = every_of_append is_nonzero a t r.nonzero s.nonzero;
  parses =
      λ source f items rest w. item_first source f items rest (omega (arith, length-append a t));
}
  where
    item_first :
        (source : Source) (f : ℕ) (items : List SExpression) (rest : Text)
        → 2 * length a + 2 * length t ≤ f
        → parse_items source f false items (skip_whitespace ((a ++ t) ++ rest))
          ≡ ok (some (cons_all items (pair v (list_of vs))), rest)
    item_first source zero items rest w = absurd (omega (arith, pos_of_opens a (r.opens [])))
    item_first source (suc f) items rest w =
        let o = r.opens (t ++ rest) in
        let some_chars = pos_of_opens a (r.opens []) in
        rw append_assoc (
          rw (skip_opens (a ++ (t ++ rest)) o) (
            parse_items_item source f false items (a ++ (t ++ rest)) o
              (r.parses source f (t ++ rest) (omega (arith, s.closes)) (d rest))
            ∙ s.parses source f (v ∷ items) rest (omega (arith, some_chars))))

pub Reads-list :
    {t : Text} {vs : List SExpression} → ReadsItems t vs → Reads (b'(' ∷ t) (list_of vs)
unfolding ascii_isspace cons_all
Reads-list {t} {vs} r = record {
  opens = λ rest. refl;
  nonzero = ground (arith, r.nonzero);
  parses = λ source f rest w d. list source f rest w;
}
  where
    list :
        (source : Source) (f : ℕ) (rest : Text)
        → 2 * suc (length t) ≤ f
        → parse_sexp source f (b'(' ∷ (t ++ rest)) ≡ ok (some (list_of vs), rest)
    list source zero rest w = absurd (omega arith)
    list source (suc f) rest w =
        parse_open source f (t ++ rest) ∙ r.parses source f [] rest (omega arith)

-- `Parse` of such a text, and of what stands behind it.
pub parse-Reads_rest :
    (t rest : Text) (v : SExpression)
    → Reads t v
    → is_delimited rest ≡ true
    → every is_nonzero rest ≡ true
    → parse (t ++ rest) ≡ ok (some v)
unfolding parse parse_from ascii_isspace
parse-Reads_rest t rest v r d n =
    let whole =
      r.parses c_string (fuel_for (t ++ rest)) rest (omega (arith, length-append t rest)) d in
    rw (c_str-every (t ++ rest) (every_of_append is_nonzero t rest r.nonzero n)) (rw whole refl)

pub parse-Reads : (t : Text) (v : SExpression) → Reads t v → parse t ≡ ok (some v)
unfolding ascii_isspace
parse-Reads t v r =
    subst (λ s. parse s ≡ ok (some v)) (append-nil t) (parse-Reads_rest t [] v r refl refl)
