-- ===== src/RequestHandler/Protocol.antt =====
-- tagsrequesthandler.h and tagsrequesthandler.cc: `SexpProtocolRequestHandler`, whose commands are
-- s-expressions.
use google_gtags.Prelude.{
  ℕ, ◌+◌, ◌/◌, ◌%◌, ◌^◌, Bool, true, not, ◌&&◌, List, [], ◌∷◌, ◌++◌, Text, codes, text_eq,
  if◌then◌else◌,
}
use google_gtags.Prelude.Int.{pos}
use google_gtags.Prelude.Result.{Result, ok, ◌>>=◌}
use google_gtags.Strutil.{fast_itoa, c_escape}
use google_gtags.Filename
use google_gtags.TagsTable.{
  TagsTable, TagsResult, find_tags, find_regexp_tags, find_snippet_matches, find_tags_by_file,
}
use google_gtags.RequestHandler.{
  Environment, Profile, strip_corpus_root, print_bool, reload_file, update_file,
}
use google_gtags.RequestHandler.Query.{
  TagsCommand, ping, log, get_server_version, get_supported_protocol_versions, reload_tags_file,
  lookup_tag_exact, lookup_tag_prefix_regexp, lookup_tag_snippet_regexp, lookup_tags_in_file,
  load_update_file, TagsQuery, translate_input,
}

-- `server_start_time_` and `sequence_number_`.
pub record SexpHandler : Type 0 where
  pub server_start_time : ℕ
  pub sequence_number : ℕ

-- One turn of the loop of `PrintTagsResults`.
unfoldable pub print_match : TagsResult → Text
print_match r =
    codes "((tag \""
    ++ c_escape r.tag
    ++ codes "\") (snippet \""
    ++ c_escape r.linerep
    ++ codes "\") (filename \""
    ++ c_escape (Filename.str r.filename)
    ++ codes "\") (lineno "
    ++ fast_itoa r.lineno
    ++ codes ") (offset "
    ++ fast_itoa r.charno
    ++ codes ") (directory-distance 0)) "

-- `PrintTagsResults`: the matches that pass the predicate.
unfoldable pub print_matches : (TagsResult → Bool) → List TagsResult → Text → Text
print_matches test [] output = output ++ codes ")"
print_matches test (r ∷ rs) output =
    print_matches test rs (if test r then output ++ print_match r else output)

-- The value that the switch of `Execute` prints, and the table behind it.
unfoldable pub run_query :
    Environment
    → (TagsResult → Bool)
    → TagsQuery
    → TagsCommand
    → TagsTable
    → Result (Text × TagsTable)
run_query env test q ping t = ok (print_bool (not env.test_mode), t)
run_query env test q log t = ok (codes "t", t)
run_query env test q get_server_version t = ok (codes "2", t)
run_query env test q get_supported_protocol_versions t = ok (codes "(1 2)", t)
run_query env test q reload_tags_file t = do u ← reload_file env q.file t; ok (print_bool true, u)
run_query env test q load_update_file t = do u ← update_file env q.file t; ok (print_bool true, u)
run_query env test q lookup_tags_in_file t =
    if env.enable_fileindex && not (text_eq q.file [])
    then (do
      rs ← find_tags_by_file env.config (strip_corpus_root env.corpus_root q.file) t
      ok (print_matches test rs (codes "("), t))
    else ok (codes "nil", t)
run_query env test q lookup_tag_prefix_regexp t =
    ok (print_matches test (find_regexp_tags env.regexp env.config q.tag t) (codes "("), t)
run_query env test q lookup_tag_snippet_regexp t =
    ok (print_matches test (find_snippet_matches env.regexp env.config q.tag t) (codes "("), t)
run_query env test q lookup_tag_exact t =
    ok (print_matches test (find_tags env.config q.tag t) (codes "("), t)

-- What `Execute` prints in front of the value.
unfoldable pub print_head : SexpHandler → Text
print_head h =
    codes "((server-start-time ("
    ++ fast_itoa (pos (h.server_start_time / 2 ^ 16))
    ++ codes " "
    ++ fast_itoa (pos (h.server_start_time % 2 ^ 16))
    ++ codes ")) (sequence-number "
    ++ fast_itoa (pos h.sequence_number)
    ++ codes ") (value "

-- `client_code_map_`, and the empty text for what it lacks.
unfoldable pub client_code : Text → Text
client_code client_type =
    if text_eq client_type (codes "shell")
    then codes "sh"
    else if text_eq client_type (codes "python")
    then codes "py"
    else if text_eq client_type (codes "vi")
    then codes "vi"
    else if text_eq client_type (codes "gnu-emacs")
    then codes "em"
    else if text_eq client_type (codes "xemacs")
    then codes "em"
    else []

-- The values of the enumeration.
unfoldable pub command_code : TagsCommand → ℕ
command_code ping = b'/'
command_code log = 0
command_code get_server_version = 1
command_code get_supported_protocol_versions = 2
command_code reload_tags_file = b'!'
command_code lookup_tag_exact = b';'
command_code lookup_tag_prefix_regexp = b':'
command_code lookup_tag_snippet_regexp = b'$'
command_code lookup_tags_in_file = b'@'
command_code load_update_file = b'+'

-- The message is kept of a `log` command only.
message_of : TagsCommand → Text → Text
message_of log comment = comment
message_of _ comment = []

unfoldable pub profile_of : TagsQuery → Profile
unfolding client_code command_code message_of
profile_of q = record {
  client = client_code q.client_type;
  command = command_code q.command;
  tag = q.tag;
  current_file = q.file;
  client_message = message_of q.command q.comment;
}

-- What an execution gives: the output, the profile, and the handler and the table behind it.
pub record Reply : Type 0 where
  pub output : Text
  pub profile : Profile
  pub handler : SexpHandler
  pub table : TagsTable

-- `Execute` with a predicate.
unfoldable pub execute_sexp :
    Environment → (TagsResult → Bool) → Text → SexpHandler → TagsTable → Result Reply
unfolding translate_input run_query print_head profile_of
execute_sexp env test command_list h t = do
  q ← translate_input command_list t.callers_on_by_default
  r ← run_query env test q q.command t
  ok (record {
    output = print_head h ++ r.0 ++ codes "))";
    profile = profile_of q;
    handler = record h { sequence_number = h.sequence_number + 1 };
    table = r.1;
  })
