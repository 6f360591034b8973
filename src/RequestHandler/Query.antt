-- ===== src/RequestHandler/Query.antt =====
-- tagsrequesthandler.h and tagsrequesthandler.cc: `TagsQuery`, and `TranslateInput`.
use google_gtags.Prelude.{
  Bool, true, not, ◌&&◌, ◌||◌, List, [], ◌∷◌, ◌++◌, Text, codes, text_eq, Option, none, some,
  if◌then◌else◌,
}
use google_gtags.Prelude.Int.{ℤ, pos}
use google_gtags.Prelude.Result.{Result, ok, fatal, undefined, ◌>>=◌}
use google_gtags.Sexp.{SExpression, nil, pair, symbol, str, int, is_list, is_symbol, is_atom}
use google_gtags.Sexp.Parser.{parse}
use google_gtags.Sexp.Printer.{repr}
use google_gtags.Sexp.Iterator.{elements}

-- `TagsCommand`, but for the one that only the opcodes have.
pub data TagsCommand : Type 0 where
  ping log get_server_version get_supported_protocol_versions reload_tags_file : TagsCommand
  lookup_tag_exact lookup_tag_prefix_regexp lookup_tag_snippet_regexp lookup_tags_in_file :
      TagsCommand
  load_update_file : TagsCommand

pub record TagsQuery : Type 0 where
  pub command : TagsCommand
  pub client_type : Text
  pub client_version : ℤ
  pub protocol_version : ℤ
  pub tag : Text
  pub language : Text
  pub callers : Bool
  pub file : Text
  pub comment : Text
  pub ranking : List Text

-- What `TranslateInput` begins with.
unfoldable pub default_query : Bool → TagsQuery
default_query default_callers_value = record {
  command = ping;
  client_type = codes "Unknown";
  client_version = pos 0;
  protocol_version = pos 2;
  tag = [];
  language = codes "Unknown";
  callers = default_callers_value;
  file = [];
  comment = codes "()";
  ranking = [];
}

-- `tag_command_map_`, and `PING` for what it lacks.
unfoldable pub command_of : Text → TagsCommand
command_of name =
    if text_eq name (codes "reload-tags-file")
    then reload_tags_file
    else if text_eq name (codes "log")
    then log
    else if text_eq name (codes "get-server-version")
    then get_server_version
    else if text_eq name (codes "get-supported-protocol-versions")
    then get_supported_protocol_versions
    else if text_eq name (codes "lookup-tag-exact")
    then lookup_tag_exact
    else if text_eq name (codes "lookup-tag-prefix-regexp")
    then lookup_tag_prefix_regexp
    else if text_eq name (codes "lookup-tag-snippet-regexp")
    then lookup_tag_snippet_regexp
    else if text_eq name (codes "lookup-tags-in-file")
    then lookup_tags_in_file
    else if text_eq name (codes "load-update-file")
    then load_update_file
    else ping

-- The head of a ranking method, where it is a symbol.
unfoldable pub add_method : List SExpression → TagsQuery → TagsQuery
add_method [] q = q
add_method (m ∷ ms) q = if is_symbol m then record q { ranking = q.ranking ++ repr m ∷ [] } else q

unfoldable pub assign_string : Text → Text → TagsQuery → TagsQuery
assign_string name value q =
    if text_eq name (codes "language")
    then record q { language = value }
    else if text_eq name (codes "tag")
    then record q { tag = value }
    else if text_eq name (codes "file") || text_eq name (codes "current-file")
    then record q { file = value }
    else if text_eq name (codes "client-type")
    then record q { client_type = value }
    else q

unfoldable pub assign_int : Text → ℤ → TagsQuery → TagsQuery
assign_int name value q =
    if text_eq name (codes "client-version")
    then record q { client_version = value }
    else if text_eq name (codes "protocol-version")
    then record q { protocol_version = value }
    else q

-- One turn of the loop over the values of an attribute: a list first, then by the class.
unfoldable pub assign_value : Text → SExpression → TagsQuery → TagsQuery
unfolding add_method assign_string assign_int
assign_value name nil q = q
assign_value name (pair a d) q =
    if is_list (pair a d) && text_eq name (codes "ranking-methods")
    then add_method (elements (pair a d)) q
    else if not (is_list (pair a d)) && text_eq name (codes "callers")
    then record q { callers = true }
    else q
assign_value name (str value) q = assign_string name value q
assign_value name (int value) q = assign_int name value q
assign_value name (symbol value) q =
    if text_eq name (codes "callers") then record q { callers = true } else q

unfoldable pub assign_values : Text → List SExpression → TagsQuery → TagsQuery
unfolding assign_value
assign_values name [] q = q
assign_values name (v ∷ vs) q = assign_values name vs (assign_value name v q)

abbrev pub cdr : SExpression → SExpression
cdr (pair a d) = d
cdr v = v

-- The message: the whole cdr of its attribute, where it is not empty.
unfoldable pub assign_message : SExpression → List SExpression → TagsQuery → TagsQuery
assign_message v [] q = q
assign_message v (x ∷ xs) q = record q { comment = repr (cdr v) }

-- One attribute, of which these are the elements. From the end of an empty one its name is read.
unfoldable pub assign_items : SExpression → List SExpression → TagsQuery → Result TagsQuery
unfolding assign_message assign_values
assign_items v [] q = undefined
assign_items v (h ∷ values) q = ok (
    if is_atom h
    then (if text_eq (repr h) (codes "message")
        then assign_message v values q
        else assign_values (repr h) values q)
    else q)

-- An attribute that is not a list fails the CHECK of the iterator.
unfoldable pub assign_attribute : SExpression → TagsQuery → Result TagsQuery
unfolding assign_items
assign_attribute v q = if is_list v then assign_items v (elements v) q else fatal

unfoldable pub assign_attributes : List SExpression → TagsQuery → Result TagsQuery
unfolding assign_attribute
assign_attributes [] q = ok q
assign_attributes (v ∷ vs) q = do p ← assign_attribute v q; assign_attributes vs p

unfoldable pub translate_list : List SExpression → TagsQuery → Result TagsQuery
unfolding assign_attributes command_of
translate_list [] q = ok q
translate_list (c ∷ vs) q =
    if is_symbol c then assign_attributes vs (record q { command = command_of (repr c) }) else ok q

unfoldable pub translate : Option SExpression → TagsQuery → Result TagsQuery
unfolding translate_list
translate none q = ok q
translate (some v) q = if is_list v then translate_list (elements v) q else ok q

-- `TranslateInput`
unfoldable pub translate_input : Text → Bool → Result TagsQuery
unfolding translate default_query
translate_input command_list default_callers_value = do
  v ← parse command_list
  translate v (default_query default_callers_value)
