-- ===== src/RequestHandler/Requests.antt =====
-- tagsrequesthandler.cc: what `TranslateInput` makes of the command that a client prints.
use google_gtags.Prelude.{
  Bool, true, false, ◌&&◌, [], ◌∷◌, Text, codes, text_eq, every, some, ◌≡◌, refl, arith,
}
use google_gtags.Prelude.Int.{ℤ, is_int32}
use google_gtags.Prelude.Result.{ok}
use google_gtags.Strutil.{ascii_isspace, is_int_token}
use google_gtags.Strutil.Escape.{is_nonzero}
use google_gtags.Sexp.{
  SExpression, symbol, str, int, is_list, is_atom, is_pair, is_symbol, needs_quoting,
  token_is_integer, token_is_all_periods, is_symbol_char,
}
use google_gtags.Sexp.Printer.{repr}
use google_gtags.Sexp.Iterator.{elements}
use google_gtags.Sexp.Items.{is_printable_name}
use google_gtags.Sexp.Readback.{IsPrintable}
use google_gtags.Sexp.Reads.{list_of}
use google_gtags.Sexp.RoundTrip.{IsPlain, is_text_char, parse-repr_plain}
use google_gtags.RequestHandler.Answers.{field}
use google_gtags.RequestHandler.Query.{
  TagsCommand, ping, log, get_server_version, get_supported_protocol_versions, reload_tags_file,
  lookup_tag_exact, lookup_tag_prefix_regexp, lookup_tag_snippet_regexp, lookup_tags_in_file,
  load_update_file, TagsQuery, default_query, command_of, translate, translate_input,
}

-- The names of the commands; the opcode of `PING` has none, and any other name stands for it.
unfoldable pub name_of : TagsCommand → Text
name_of ping = codes "ping"
name_of log = codes "log"
name_of get_server_version = codes "get-server-version"
name_of get_supported_protocol_versions = codes "get-supported-protocol-versions"
name_of reload_tags_file = codes "reload-tags-file"
name_of lookup_tag_exact = codes "lookup-tag-exact"
name_of lookup_tag_prefix_regexp = codes "lookup-tag-prefix-regexp"
name_of lookup_tag_snippet_regexp = codes "lookup-tag-snippet-regexp"
name_of lookup_tags_in_file = codes "lookup-tags-in-file"
name_of load_update_file = codes "load-update-file"

-- What a client sends along.
pub record Request : Type 0 where
  pub command : TagsCommand
  pub client_type : Text
  pub client_version : ℤ
  pub protocol_version : ℤ
  pub tag : Text
  pub language : Text
  pub current_file : Text

-- (command (client-type "...") (client-version N) (protocol-version N) (tag "...") (language "...")
--   (callers t) (current-file "..."))
unfoldable pub request_sexp : Request → SExpression
request_sexp r = list_of (
    symbol (name_of r.command)
    ∷ field (codes "client-type") (str r.client_type)
    ∷ field (codes "client-version") (int r.client_version)
    ∷ field (codes "protocol-version") (int r.protocol_version)
    ∷ field (codes "tag") (str r.tag)
    ∷ field (codes "language") (str r.language)
    ∷ field (codes "callers") (symbol (codes "t"))
    ∷ field (codes "current-file") (str r.current_file)
    ∷ [])

-- No NUL, newline, return or tab.
unfoldable pub is_sendable : Text → Bool
is_sendable s = every is_nonzero s && every is_text_char s

command_of-name_of : (c : TagsCommand) → command_of (repr (symbol (name_of c))) ≡ c
unfolding command_of name_of repr needs_quoting token_is_integer is_int_token ascii_isspace
    token_is_all_periods is_symbol_char text_eq
command_of-name_of ping = refl
command_of-name_of log = refl
command_of-name_of get_server_version = refl
command_of-name_of get_supported_protocol_versions = refl
command_of-name_of reload_tags_file = refl
command_of-name_of lookup_tag_exact = refl
command_of-name_of lookup_tag_prefix_regexp = refl
command_of-name_of lookup_tag_snippet_regexp = refl
command_of-name_of lookup_tags_in_file = refl
command_of-name_of load_update_file = refl

plain_name :
    (c : TagsCommand)
    → (is_printable_name (name_of c) ≡ true) × (text_eq (name_of c) (codes "nil") ≡ false)
unfolding name_of needs_quoting token_is_integer is_int_token ascii_isspace is_printable_name
    token_is_all_periods is_symbol_char text_eq
plain_name ping = (refl, refl)
plain_name log = (refl, refl)
plain_name get_server_version = (refl, refl)
plain_name get_supported_protocol_versions = (refl, refl)
plain_name reload_tags_file = (refl, refl)
plain_name lookup_tag_exact = (refl, refl)
plain_name lookup_tag_prefix_regexp = (refl, refl)
plain_name lookup_tag_snippet_regexp = (refl, refl)
plain_name lookup_tags_in_file = (refl, refl)
plain_name load_update_file = (refl, refl)

unfoldable pub query_of : Request → TagsQuery
query_of r = record {
  command = r.command;
  client_type = r.client_type;
  client_version = r.client_version;
  protocol_version = r.protocol_version;
  tag = r.tag;
  language = r.language;
  callers = true;
  file = r.current_file;
  comment = codes "()";
  ranking = [];
}

translate-request_sexp :
    (r : Request) (d : Bool) → translate (some (request_sexp r)) (default_query d) ≡ ok (query_of r)
unfolding translate request_sexp default_query query_of is_list elements is_symbol is_atom is_pair
    repr needs_quoting token_is_integer is_int_token ascii_isspace token_is_all_periods
    is_symbol_char text_eq
translate-request_sexp r d = rw (command_of-name_of r.command) refl

-- Its texts can be sent, and its versions fit an int.
pub record IsSendable (r : Request) : Type 0 where
  pub client_type : is_sendable r.client_type ≡ true
  pub client_version : is_int32 r.client_version ≡ true
  pub protocol_version : is_int32 r.protocol_version ≡ true
  pub tag : is_sendable r.tag ≡ true
  pub language : is_sendable r.language ≡ true
  pub current_file : is_sendable r.current_file ≡ true

sent :
    (s : Text) → is_sendable s ≡ true → (every is_nonzero s ≡ true) × (every is_text_char s ≡ true)
unfolding is_sendable
sent s h = (ground arith, ground arith)

pub request_sexp-IsPrintable : (r : Request) → IsSendable r → IsPrintable (request_sexp r)
unfolding request_sexp is_printable_name needs_quoting token_is_integer is_int_token ascii_isspace
    token_is_all_periods is_symbol_char
request_sexp-IsPrintable r s = (
  (plain_name r.command).0,
  (
    (refl, ((sent r.client_type s.client_type).0, tt)),
    (
      (refl, (s.client_version, tt)),
      (
        (refl, (s.protocol_version, tt)),
        (
          (refl, ((sent r.tag s.tag).0, tt)),
          (
            (refl, ((sent r.language s.language).0, tt)),
            ((refl, (refl, tt)), ((refl, ((sent r.current_file s.current_file).0, tt)), tt)),
          ),
        ),
      ),
    ),
  ),
)

pub request_sexp-IsPlain : (r : Request) → IsSendable r → IsPlain (request_sexp r)
unfolding request_sexp text_eq
request_sexp-IsPlain r s = (
  (plain_name r.command).1,
  (
    (refl, ((sent r.client_type s.client_type).1, tt)),
    (
      (refl, (tt, tt)),
      (
        (refl, (tt, tt)),
        (
          (refl, ((sent r.tag s.tag).1, tt)),
          (
            (refl, ((sent r.language s.language).1, tt)),
            ((refl, (refl, tt)), ((refl, ((sent r.current_file s.current_file).1, tt)), tt)),
          ),
        ),
      ),
    ),
  ),
)

-- `TranslateInput` makes of the printed request of a client the command, the type and the versions of the
-- client, the tag, the language and the file that the client sent, and the callers that it asked for, whatever
-- the default is, where no text of the request holds a NUL, a newline, a return or a tab, and the versions
-- fit an int.
pub translate_input-repr :
    (r : Request) (default_callers_value : Bool)
    → IsSendable r
    → translate_input (repr (request_sexp r)) default_callers_value ≡ ok (query_of r)
unfolding translate_input
translate_input-repr r d s =
    rw (parse-repr_plain (request_sexp r) (request_sexp-IsPrintable r s) (request_sexp-IsPlain r s))
      (translate-request_sexp r d)
