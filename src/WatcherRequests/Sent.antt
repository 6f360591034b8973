-- ===== src/WatcherRequests/Sent.antt =====
-- socket_filewatcher_service.cc: the text of a client, as the parser of the service reads it.
use google_gtags.Prelude.{
  ℕ, zero, suc, Bool, true, false, not, ◌||◌, List, [], ◌∷◌, ◌++◌, Text, codes, map, every,
  every_mono, text_eq, every_of_append, append_assoc, append-nil, length, some, ◌≡◌, refl, ◌∙◌,
  arith, ◌==◌, ◌*◌, ◌≤◌,
}
use google_gtags.Prelude.Result.{ok}
use google_gtags.Strutil.{ascii_isspace, is_int_token}
use google_gtags.Strutil.Escape.{is_nonzero}
use google_gtags.Sexp.{
  SExpression, symbol, str, needs_quoting, token_is_integer, token_is_all_periods, is_symbol_char,
}
use google_gtags.Sexp.Parser.{
  Source, fill, fill_with_delimited_string, parse_string, parse_sexp, advance, skip_whitespace,
  parse,
}
use google_gtags.Sexp.Printer.{shown}
use google_gtags.Sexp.Items.{is_printable_name}
use google_gtags.Sexp.Tokens.{is_delimited}
use google_gtags.Sexp.Readback.{reread}
use google_gtags.Sexp.Reads.{
  Reads, ReadsItems, list_of, Reads-shown, ReadsItems-close, ReadsItems-space, ReadsItems-item,
  Reads-list, parse-Reads_rest,
}
use google_gtags.WatchMap.{last_char}
use google_gtags.WatcherRequests.Service.{append_quoted, convert_to_string, service_command}

-- A character that a string may hold as it is.
unfoldable pub is_dir_char : ℕ → Bool
is_dir_char c = not (c == 0 || c == b'"' || c == b'\\')

fill-dir :
    (s out rest : Text)
    → every is_dir_char s ≡ true
    → fill b'"' false out (s ++ b'"' ∷ rest) ≡ (some (out ++ s), rest)
unfolding fill is_dir_char
fill-dir [] out rest h = rw append-nil refl
fill-dir (c ∷ cs) out rest h =
    let after = fill-dir cs (out ++ c ∷ []) rest (ground arith) in
    let here : (c == b'"') ≡ false = ground arith in
    let plain : (c == b'\\') ≡ false = ground arith in
    let some_char : (c == 0) ≡ false = ground arith in
    rw (here, plain, some_char) (after ∙ rw append_assoc refl)

abbrev pub quoted : Text → Text
quoted s = b'"' ∷ (s ++ b'"' ∷ [])

parse_quoted :
    (source : Source) (f : ℕ) (s rest : Text)
    → every is_dir_char s ≡ true
    → parse_sexp source (suc f) (quoted s ++ rest) ≡ ok (some (str s), rest)
unfolding parse_sexp parse_string fill_with_delimited_string advance skip_whitespace ascii_isspace
parse_quoted source f s rest h = rw append_assoc (rw (fill-dir s [] rest h) refl)

Reads-quoted : (s : Text) → every is_dir_char s ≡ true → Reads (quoted s) (str s)
unfolding ascii_isspace
Reads-quoted s h = record {
  opens = λ rest. refl;
  nonzero =
      every_of_append is_nonzero (b'"' ∷ s) (b'"' ∷ [])
        (ground (
          arith,
          every_mono {p = is_dir_char} {q = is_nonzero} (λ c k. unfold is_dir_char in ground arith)
              s h,
        ))
        refl;
  parses = λ source f rest w d. reads_string source f rest w;
}
  where
    reads_string :
        (source : Source) (f : ℕ) (rest : Text)
        → 2 * length (quoted s) ≤ f
        → parse_sexp source f (quoted s ++ rest) ≡ ok (some (str s), rest)
    reads_string source zero rest w = absurd (omega arith)
    reads_string source (suc f) rest w = parse_quoted source f s rest h

-- The strings of an attribute, up to its end.
unfoldable pub strings_text : List Text → Text
strings_text [] = codes ")"
strings_text (s ∷ ss) = b' ' ∷ (quoted s ++ strings_text ss)

abbrev pub is_dir : Text → Bool
is_dir s = every is_dir_char s

delimited_strings : (ss : List Text) (rest : Text) → is_delimited (strings_text ss ++ rest) ≡ true
unfolding strings_text ascii_isspace
delimited_strings [] rest = refl
delimited_strings (s ∷ ss) rest = refl

ReadsItems-strings :
    (ss : List Text) → every is_dir ss ≡ true → ReadsItems (strings_text ss) (map str ss)
unfolding strings_text
ReadsItems-strings [] h = ReadsItems-close
ReadsItems-strings (s ∷ ss) h = ReadsItems-space (
    ReadsItems-item (Reads-quoted s (ground arith)) (delimited_strings ss)
      (ReadsItems-strings ss (ground arith)))

-- (name "..." ...)
abbrev pub attribute_sexp : Text → List Text → SExpression
attribute_sexp name ss = list_of (symbol name ∷ map str ss)

abbrev attribute_text : Text → List Text → Text
attribute_text name ss = b'(' ∷ (name ++ strings_text ss)

-- The names that stand with no bars for themselves.
abbrev IsWord : Text → Type 0
IsWord name = Reads name (symbol name)

Reads-attribute :
    (name : Text) (ss : List Text)
    → IsWord name
    → every is_dir ss ≡ true
    → Reads (attribute_text name ss) (attribute_sexp name ss)
Reads-attribute name ss w h =
    Reads-list (ReadsItems-item w (delimited_strings ss) (ReadsItems-strings ss h))

abbrev pub action_name : Bool → Text
action_name true = codes "add"
action_name false = codes "remove"

IsWord-names :
    (adding : Bool)
    → IsWord (action_name adding) × IsWord (codes "dirs") × IsWord (codes "excludes")
unfolding shown reread needs_quoting token_is_integer is_int_token ascii_isspace
    token_is_all_periods is_symbol_char is_printable_name text_eq
IsWord-names true = (
  Reads-shown (symbol (codes "add")) refl,
  Reads-shown (symbol (codes "dirs")) refl,
  Reads-shown (symbol (codes "excludes")) refl,
)
IsWord-names false = (
  Reads-shown (symbol (codes "remove")) refl,
  Reads-shown (symbol (codes "dirs")) refl,
  Reads-shown (symbol (codes "excludes")) refl,
)

-- (add (dirs "..." ...) (excludes "..." ...)), or with remove
abbrev pub request : Bool → List Text → List Text → SExpression
request adding dirs excludes = list_of (
    symbol (action_name adding)
    ∷ attribute_sexp (codes "dirs") dirs
    ∷ attribute_sexp (codes "excludes") excludes
    ∷ [])

abbrev request_text : Bool → List Text → List Text → Text
request_text adding dirs excludes =
    b'('
    ∷ (action_name adding
        ++ (b' '
            ∷ (attribute_text (codes "dirs") dirs
                ++ (b' ' ∷ (attribute_text (codes "excludes") excludes ++ codes ")")))))

Reads-request :
    (adding : Bool) (dirs excludes : List Text)
    → every is_dir dirs ≡ true
    → every is_dir excludes ≡ true
    → Reads (request_text adding dirs excludes) (request adding dirs excludes)
unfolding ascii_isspace
Reads-request adding dirs excludes h k =
    let (w, d, e) = IsWord-names adding in
    Reads-list (
      ReadsItems-item w (λ rest. refl)
        (ReadsItems-space (
          ReadsItems-item (Reads-attribute (codes "dirs") dirs d h) (λ rest. refl)
            (ReadsItems-space (
              ReadsItems-item (Reads-attribute (codes "excludes") excludes e k) (λ rest. refl)
                ReadsItems-close)))))

append_quoted-strings_text :
    (ss : List Text) (command : Text)
    → append_quoted ss command ++ codes ")" ≡ command ++ strings_text ss
unfolding append_quoted strings_text
append_quoted-strings_text [] command = refl
append_quoted-strings_text (s ∷ ss) command =
    append_quoted-strings_text ss (((command ++ codes " \"") ++ s) ++ codes "\"")
    ∙ simp append_assoc

service_command-request :
    (adding : Bool) (dirs excludes : List Text)
    → service_command (action_name adding) dirs excludes
      ≡ request_text adding dirs excludes ++ codes "\n"
unfolding service_command convert_to_string
service_command-request adding dirs excludes =
    rw (append_quoted-strings_text dirs, append_quoted-strings_text excludes) (simp append_assoc)

-- The service parses the text of a client as the request.
pub parse-service_command :
    (adding : Bool) (dirs excludes : List Text)
    → every is_dir dirs ≡ true
    → every is_dir excludes ≡ true
    → parse (service_command (action_name adding) dirs excludes)
      ≡ ok (some (request adding dirs excludes))
unfolding ascii_isspace
parse-service_command adding dirs excludes h k = rw (service_command-request adding dirs excludes) (
    parse-Reads_rest (request_text adding dirs excludes) (codes "\n") (request adding dirs excludes)
      (Reads-request adding dirs excludes h k) refl refl)

last_char-end : (s : Text) (c : ℕ) → last_char (s ++ c ∷ []) ≡ some c
unfolding last_char
last_char-end [] c = refl
last_char-end (d ∷ []) c = refl
last_char-end (d ∷ e ∷ s) c = last_char-end (e ∷ s) c

pub last_char-service_command :
    (adding : Bool) (dirs excludes : List Text)
    → last_char (service_command (action_name adding) dirs excludes) ≡ some b'\n'
last_char-service_command adding dirs excludes =
    rw (service_command-request adding dirs excludes)
      (last_char-end (request_text adding dirs excludes) b'\n')
