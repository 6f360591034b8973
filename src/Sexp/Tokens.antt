-- ===== src/Sexp/Tokens.antt =====
-- How `ParseUnquotedToken` reads a token that the printer wrote with no quotes.
use native.Mathlib.Decide.{dec_lt}
use google_gtags.Prelude.{
  ℕ, zero, suc, ◌≤◌, ◌<◌, Bool, true, false, not, ◌&&◌, ◌||◌, [], ◌∷◌, ◌++◌, Text, length, get_or,
  every, codes, text_eq, append_assoc, append-nil, ◌≡◌, ◌≢◌, refl, ◌∙◌, some, ltb, leb, ◌↔◌, ◌==◌,
  if◌then◌else◌, arith, every_mono,
}
use google_gtags.Prelude.Int.{ℤ, is_int32}
use google_gtags.Prelude.Result.{ok}
use google_gtags.Strutil.{ascii_isspace, is_digit, peek, c_str, fast_itoa}
use google_gtags.Strutil.Decimal.{is_int_char, fast_itoa_reads_back}
use google_gtags.Strutil.Escape.{is_nonzero, c_str-every}
use google_gtags.Sexp.{
  ascii_symbol, SExpression, nil, symbol, int, is_symbol_char, needs_quoting, token_is_integer,
  new_symbol,
}
use google_gtags.Sexp.Parser.{Source, ends_token, integer_value, read_token, make_token}

-- No character of the token stops the reader or is an escape.
abbrev pub is_plain : ℕ → Bool
is_plain c = not (ends_token c || c == b'\\')

-- What follows a printed token: the end, white space or a closing parenthesis.
abbrev pub is_delimited : Text → Bool
is_delimited rest = ends_token (peek rest)

read_token_stops :
    (source : Source) (rest token : Text)
    → is_delimited rest ≡ true
    → read_token source false false token rest ≡ ok (token, false, rest)
unfolding read_token
read_token_stops source [] token d = refl
read_token_stops source (c ∷ cs) token d = rw d

read_token_next :
    (source : Source) (c : ℕ) (cs token : Text)
    → is_plain c ≡ true
    → read_token source false false token (c ∷ cs)
      ≡ read_token source false false (token ++ c ∷ []) cs
unfolding read_token
read_token_next source c cs token h = ground arith

pub read_token-plain :
    (source : Source) (t rest token : Text)
    → every is_plain t ≡ true
    → is_delimited rest ≡ true
    → read_token source false false token (t ++ rest) ≡ ok (token ++ t, false, rest)
read_token-plain source [] rest token h d = rw append-nil (read_token_stops source rest token d)
read_token-plain source (c ∷ cs) rest token h d =
    let hs : every is_plain cs ≡ true = ground arith in
    read_token_next source c (cs ++ rest) token (ground arith)
    ∙ read_token-plain source cs rest (token ++ c ∷ []) hs d
    ∙ rw append_assoc

-- A test of every number under a bound, to decide by computing what holds of all characters.
holds_under : (ℕ → Bool) → ℕ → Bool
holds_under test zero = true
holds_under test (suc room) = holds_under test room && test room

holds_under-at :
    (test : ℕ → Bool) (room : ℕ) → holds_under test room ≡ true → (c : ℕ) → c < room → test c ≡ true
unfolding holds_under
holds_under-at test (suc room) all c under =
    ground (arith, holds_under-at test room (ground arith) c)
holds_under-at test zero all c under = absurd (omega arith)

get_or_past : (xs : Text) (c : ℕ) → length xs ≤ c → get_or xs c 0 ≡ 0
get_or_past [] c h = refl
get_or_past (x ∷ xs) zero h = absurd (omega arith)
get_or_past (x ∷ xs) (suc c) h = get_or_past xs c (omega arith)

-- A character that may open an item of a list with no quotes.
abbrev pub opens_token : ℕ → Bool
opens_token c = is_plain c && not (c == b'(' || c == b'"' || c == b'|')

symbol_table : holds_under (λ c. not (is_symbol_char c) || opens_token c) 128 ≡ true
unfolding holds_under is_symbol_char ascii_isspace
symbol_table = refl

pub opens_symbol : (c : ℕ) → is_symbol_char c ≡ true → opens_token c ≡ true
opens_symbol c h = elim (dec_lt c 128) [
  | yes p ↦ ground (arith, holds_under-at _ 128 symbol_table c p)
  | no p ↦
      absurd (unfold is_symbol_char in ground (arith, get_or_past ascii_symbol c (omega arith)))
]

pub opens_int : (c : ℕ) → is_int_char c ≡ true → opens_token c ≡ true
unfolding is_digit ascii_isspace
opens_int c h = ground arith

-- A token of such characters is a C string, is plain, and does not start with white space.
pub record IsToken (t : Text) : Type 0 where
  pub c_string : c_str t ≡ t
  pub plain : every is_plain t ≡ true
  pub starts : opens_token (peek t) ≡ true

pub every-opens_token : (t : Text) → every opens_token t ≡ true → t ≢ [] → IsToken t
every-opens_token [] h n = absurd (n refl)
every-opens_token (c ∷ cs) h n = record {
  c_string =
      c_str-every (c ∷ cs)
        (every_mono {p = opens_token} {q = is_nonzero} (λ c k. ground arith) (c ∷ cs) h);
  plain = every_mono {p = opens_token} {q = is_plain} (λ c k. ground arith) (c ∷ cs) h;
  starts = ground arith;
}

abbrev pub reread_symbol : Text → SExpression
reread_symbol name = if text_eq name (codes "nil") then nil else symbol name

pub make_token-symbol :
    (name : Text)
    → needs_quoting name ≡ false
    → IsToken name
    → make_token false name ≡ ok (some (reread_symbol name))
unfolding make_token needs_quoting new_symbol
make_token-symbol name q t = ground (arith, t.c_string, t.starts)

pub make_token-int :
    (i : ℤ)
    → is_int32 i ≡ true
    → IsToken (fast_itoa i)
    → make_token false (fast_itoa i) ≡ ok (some (int i))
unfolding make_token integer_value token_is_integer
make_token-int i h t =
    let (tok, _, read) = fast_itoa_reads_back i h in
    ground (arith, t.c_string, t.starts, tok, read, h)

bool_eq : Bool → Bool → Bool
bool_eq true b = b
bool_eq false b = not b

bool_eq_iff : (a b : Bool) → (bool_eq a b ≡ true) ↔ (a ≡ b)
unfolding bool_eq
bool_eq_iff a b = ground arith

is_one_of : Text → ℕ → Bool
is_one_of [] c = false
is_one_of (d ∷ ds) c = c == d || is_one_of ds c

abbrev is_within : ℕ → ℕ → ℕ → Bool
is_within lo hi c = leb lo c && leb c hi

-- The list in the documentation: letters, digits and + - * / @ $ % ^ & _ = < > ~ . ? ! [ ] { }.
pub is_documented_char : ℕ → Bool
is_documented_char c =
    is_within b'a' b'z' c
    || is_within b'A' b'Z' c
    || is_within b'0' b'9' c
    || is_one_of (codes "+-*/@$%^&_=<>~.?![]{}") c

documented_table : holds_under (λ c. bool_eq (is_symbol_char c) (is_documented_char c)) 128 ≡ true
unfolding holds_under is_symbol_char is_documented_char is_one_of bool_eq
documented_table = refl

one_of_below :
    (s : Text) (c : ℕ) → every (λ d. ltb d 128) s ≡ true → 128 ≤ c → is_one_of s c ≡ false
unfolding is_one_of
one_of_below [] c h k = refl
one_of_below (d ∷ ds) c h k = ground (arith, one_of_below ds c)

-- The table of the characters that need no bars holds the documented ones and no other, over the
-- whole range of a character.
pub is_symbol_char-documented : (c : ℕ) → is_symbol_char c ≡ is_documented_char c
is_symbol_char-documented c = elim (dec_lt c 128) [
  | yes p ↦ (bool_eq_iff _ _).0 (holds_under-at _ 128 documented_table c p)
  | no p ↦
      unfold is_symbol_char is_documented_char in
      ground (
        arith,
        get_or_past ascii_symbol c (omega arith),
        one_of_below (codes "+-*/@$%^&_=<>~.?![]{}") c refl (omega arith),
      )
]
