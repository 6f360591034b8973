-- ===== src/Sexp/Parser.antt =====
-- iterators.h and sexpression.cc: reading one s-expression from a character iterator.
use google_gtags.Prelude.{
  ℕ, zero, suc, ◌+◌, ◌*◌, Bool, true, false, not, ◌&&◌, ◌||◌, List, [], ◌∷◌, ◌++◌, Text, codes,
  text_eq, length, Option, none, some, ◌==◌, if◌then◌else◌,
}
use google_gtags.Prelude.Int.{ℤ, is_int32}
use google_gtags.Prelude.Result.{Result, ok, fatal, undefined, out_of_fuel, ◌>>=◌}
use google_gtags.Strutil.{ascii_isspace, peek, c_str, scan_int}
use google_gtags.Sexp.{
  SExpression, nil, pair, str, int, token_is_integer, token_is_all_periods, new_symbol,
}

-- `StringCharacterIterator` or `FileObjectCharacterIterator`. The state of either is the text that
-- is left to read.
pub data Source : Type 0 where
  c_string file : Source

-- `operator++`: past the terminator of a C string it is undefined; a file stays at its end.
unfoldable pub advance : Source → Text → Result Text
advance source (c ∷ cs) = ok cs
advance c_string [] = undefined
advance file [] = ok []

unfoldable pub skip_whitespace : Text → Text
skip_whitespace [] = []
skip_whitespace (c ∷ cs) = let rest = skip_whitespace cs in if ascii_isspace c then rest else c ∷ cs

-- What a parsing method returns, with the text that is left: `none` is NULL.
abbrev pub Parsed : Type 0
Parsed = Result (Option SExpression × Text)

-- The loop of `FillWithDelimitedString`. The flag says that a backslash was just passed.
unfoldable pub fill : ℕ → Bool → Text → Text → Option Text × Text
fill delimiter escaped out [] = (none, [])
fill delimiter escaped out (c ∷ cs) =
    let opens = not escaped && c == b'\\' in
    let rest = fill delimiter opens (if opens then out else out ++ c ∷ []) cs in
    if not escaped && c == delimiter
    then (some out, cs)
    else if c == 0
    then (none, c ∷ cs)
    else rest

-- `FillWithDelimitedString`, at a text that begins with the delimiter.
unfoldable pub fill_with_delimited_string : Source → ℕ → Text → Result (Option Text × Text)
unfolding fill
fill_with_delimited_string source delimiter s =
    if peek s == delimiter
    then (do s' ← advance source s; ok (fill delimiter false [] s'))
    else fatal

abbrev pub parsed_as : (Text → SExpression) → Option Text × Text → Parsed
parsed_as f (none, rest) = ok (none, rest)
parsed_as f (some t, rest) = ok (some (f t), rest)

unfoldable pub parse_string : Source → Text → Parsed
parse_string source s = fill_with_delimited_string source b'"' s >>= parsed_as str

unfoldable pub parse_symbol_in_bars : Source → Text → Parsed
parse_symbol_in_bars source s = fill_with_delimited_string source b'|' s >>= parsed_as new_symbol

-- The test of the loop of `ParseUnquotedToken`, negated.
abbrev pub ends_token : ℕ → Bool
ends_token c = ascii_isspace c || c == b')' || c == 0

-- The loop of `ParseUnquotedToken`: the token, `has_escaped_char`, and what is left. The first flag
-- says that a backslash was just passed; at the end of the text the NUL behind it is taken.
unfoldable pub read_token : Source → Bool → Bool → Text → Text → Result (Text × Bool × Text)
read_token source false has_escaped token [] = ok (token, has_escaped, [])
read_token source true has_escaped token [] = do
  s ← advance source []
  ok (token ++ 0 ∷ [], has_escaped, s)
read_token source escaping has_escaped token (c ∷ cs) =
    let opens = not escaping && c == b'\\' in
    let rest =
      read_token source opens (has_escaped || opens) (if opens then token else token ++ c ∷ [])
        cs in
    if not escaping && ends_token c then ok (token, has_escaped, c ∷ cs) else rest

-- `IntegerValue`. A value that does not fit an `int` is undefined behaviour of `sscanf`.
unfoldable pub integer_value : Text → Result ℤ
integer_value s = elim (scan_int s) [
  | none ↦ fatal
  | some i ↦ if is_int32 i then ok i else undefined
]

-- The end of `ParseUnquotedToken`.
unfoldable pub make_token : Bool → Text → Result (Option SExpression)
make_token has_escaped token =
    let token_cstr = c_str token in
    if peek token_cstr == 0
    then fatal
    else if not has_escaped && token_is_integer token_cstr
    then (do i ← integer_value token_cstr; ok (some (int i)))
    else if text_eq token (codes "nil")
    then ok (some nil)
    else if token_is_all_periods token_cstr
    then ok none
    else ok (some (new_symbol token_cstr))

unfoldable pub parse_unquoted_token : Source → Text → Parsed
parse_unquoted_token source s = do
  r ← read_token source false false [] s
  v ← make_token r.1 r.0
  ok (v, r.2)

-- The last loop of `ParseList`; `items` holds the newest first.
unfoldable pub cons_all : List SExpression → SExpression → SExpression
cons_all [] answer = answer
cons_all (x ∷ xs) answer = cons_all xs (pair x answer)

unfoldable pub build_list : Bool → List SExpression → SExpression
unfolding cons_all
build_list true (last ∷ before ∷ rest) = cons_all (before ∷ rest) last
build_list _ items = cons_all items nil

-- What one round of the loop of `ParseList` finds at its start: the end of the list, a lone period
-- (and the text behind the space after it), or an item, which begins at the text given.
pub data Head : Type 0 where
  close : Head
  dot : Text → Head
  item : Text → Head

unfoldable pub list_head : Source → Text → Result Head
list_head source s =
    if peek s == b')'
    then ok close
    else if peek s == b'.'
    then (do
      s' ← advance source s
      if ascii_isspace (peek s') then (do s'' ← advance source s'; ok (dot s'')) else ok (item s'))
    else ok (item s)

-- `ParseSexp`, and the loop of `ParseList` behind the opening parenthesis. Each call costs a unit
-- of fuel.
unfoldable mutual
  pub parse_sexp : Source → ℕ → Text → Parsed
  parse_sexp source zero s = out_of_fuel
  parse_sexp source (suc f) s =
      let t = skip_whitespace s in
      let list = advance source t >>= λ t'. parse_items source f false [] (skip_whitespace t') in
      if peek t == b'('
      then list
      else if peek t == b'"'
      then parse_string source t
      else if peek t == b'|'
      then parse_symbol_in_bars source t
      else if peek t == 0
      then ok (none, t)
      else parse_unquoted_token source t

  pub parse_items : Source → ℕ → Bool → List SExpression → Text → Parsed
  parse_items source zero improper items s = out_of_fuel
  parse_items source (suc f) improper items s = list_head source s >>= elim [
    | close ↦ (do s' ← advance source s; ok (some (build_list improper items), s'))
    | dot s' ↦ parse_items source f true items (skip_whitespace s')
    | item s' ↦ parse_sexp source f s' >>= λ (v, rest). elim v [
      | none ↦ ok (none, rest)
      | some x ↦ parse_items source f improper (x ∷ items) (skip_whitespace rest)
    ]
  ]

-- Two calls for each character, and two.
abbrev pub fuel_for : Text → ℕ
fuel_for s = 2 * length s + 2

-- `ParseFromCharIterator`, as a file is read.
unfoldable pub parse_from : Source → Text → Parsed
parse_from source s = parse_sexp source (fuel_for s) s

-- `SExpression::Parse`.
unfoldable pub parse : Text → Result (Option SExpression)
parse sexp = do r ← parse_from c_string (c_str sexp); ok r.0
