-- ===== src/RequestHandler/Opcode.antt =====
-- tagsrequesthandler.cc: `OpcodeProtocolRequestHandler`, whose commands are one character and a text.
use google_gtags.Prelude.{ℕ, true, List, [], ◌∷◌, ◌++◌, Text, codes, ◌==◌, if◌then◌else◌, not}
use google_gtags.Prelude.Result.{Result, ok, undefined, ◌>>=◌}
use google_gtags.Strutil.{fast_itoa}
use google_gtags.Filename
use google_gtags.Filename.{Comparison, less, equal, greater, strcmp}
use google_gtags.TagsTable.{
  TagsTable, TagsResult, find_tags, find_regexp_tags, find_snippet_matches, find_tags_by_file,
  find_file,
}
use google_gtags.RequestHandler.{
  Environment, Profile, strip_corpus_root, print_bool, reload_file, update_file,
}

-- One character of `EscapeQuotes`.
unfoldable pub escape_quote : ℕ → Text
escape_quote c =
    if c == b'"' then b'\\' ∷ b'"' ∷ [] else if c == b'\\' then b'\\' ∷ b'\\' ∷ [] else c ∷ []

-- The loop of `EscapeQuotes`.
unfoldable pub escape_loop : Text → Text → Text
escape_loop retval [] = retval
escape_loop retval (c ∷ cs) = escape_loop (retval ++ escape_quote c) cs

unfoldable pub escape_quotes : Text → Text
unfolding escape_loop escape_quote
escape_quotes s = escape_loop [] s

-- One turn of the loop of `PrintTagsResults`.
unfoldable pub print_result : TagsResult → Text
print_result r =
    codes "(\""
    ++ r.tag
    ++ codes "\" . (\""
    ++ escape_quotes r.linerep
    ++ codes "\" \""
    ++ Filename.str r.filename
    ++ codes "\" 0 "
    ++ fast_itoa r.lineno
    ++ codes " "
    ++ fast_itoa r.charno
    ++ codes ")) "

unfoldable pub print_results : List TagsResult → Text → Text
print_results [] output = output ++ codes ")"
print_results (r ∷ rs) output = print_results rs (output ++ print_result r)

-- `insert` into a `set<string>`, which is kept in order.
unfoldable pub insert_name : Text → List Text → List Text
insert_name s [] = s ∷ []
insert_name s (x ∷ xs) =
    let rest = x ∷ insert_name s xs in
    elim (strcmp s x) [ less ↦ s ∷ x ∷ xs | equal ↦ x ∷ xs | greater ↦ rest ]

unfoldable pub set_of : List Text → List Text → List Text
set_of [] names = names
set_of (s ∷ ss) names = set_of ss (insert_name s names)

-- The loop of `PrintFileResults`.
unfoldable pub print_files : List Text → Text → Text
print_files [] output = output ++ codes ")"
print_files (s ∷ ss) output = print_files ss (output ++ codes "\"" ++ s ++ codes "\" ")

-- The leading comment of a command, and what follows it. A comment that does not end is read past the
-- terminator.
unfoldable pub read_comment : Text → Text → Result (Text × Text)
read_comment comment [] = undefined
read_comment comment (c ∷ cs) =
    if c == b'#' then ok (comment, cs) else read_comment (comment ++ c ∷ []) cs

unfoldable pub leading_comment : Text → Result (Text × Text)
leading_comment [] = ok ([], [])
leading_comment (c ∷ cs) = if c == b'#' then read_comment [] cs else ok ([], c ∷ cs)

-- What the switch of `Execute` appends to its output, and the table behind it.
unfoldable pub run_opcode : Environment → ℕ → Text → TagsTable → Result (Text × TagsTable)
run_opcode env c tag t =
    if c == b'/'
    then ok (print_bool (not env.test_mode), t)
    else if c == b'!'
    then (do u ← reload_file env tag t; ok (print_bool true, u))
    else if c == b'+'
    then (do u ← update_file env tag t; ok (print_bool true, u))
    else if c == b'&'
    then ok (print_files (set_of (find_file env.config tag t) []) (codes "("), t)
    else if c == b'@'
    then (if env.enable_fileindex
        then (do
          rs ← find_tags_by_file env.config (strip_corpus_root env.corpus_root tag) t
          ok (print_results rs (codes "("), t))
        else ok (codes "nil", t))
    else if c == b':'
    then ok (print_results (find_regexp_tags env.regexp env.config tag t) (codes "("), t)
    else if c == b'$'
    then ok (print_results (find_snippet_matches env.regexp env.config tag t) (codes "("), t)
    else if c == b';'
    then ok (print_results (find_tags env.config tag t) (codes "("), t)
    else ok (codes "nil", t)

-- What is behind the comment. A command with no opcode has its tag behind the terminator.
unfoldable pub run_command :
    Environment → Text → Text → TagsTable → Result (Text × Profile × TagsTable)
unfolding run_opcode
run_command env comment [] t = undefined
run_command env comment (c ∷ tag) t = do
  r ← run_opcode env c tag t
  let profile : Profile = record {
    client = comment;
    command = c;
    tag = tag;
    current_file = [];
    client_message = [];
  }
  ok (r.0, profile, r.1)

-- `Execute`: what it returns, the profile, and the table behind it.
unfoldable pub execute_opcode : Environment → Text → TagsTable → Result (Text × Profile × TagsTable)
unfolding run_command leading_comment read_comment
execute_opcode env command t = do r ← leading_comment command; run_command env r.0 r.1 t
