-- ===== src/RequestHandler/Lookups.antt =====
-- tagsrequesthandler.cc: a lookup of tags, from the command to the answer that a client reads.
use google_gtags.Prelude.{
  ◌+◌, Bool, true, List, map, Text, codes, every, keep, Option, none, some, ◌≡◌, refl, arith,
}
use google_gtags.Prelude.Result.{ok}
use google_gtags.Sexp.Parser.{parse}
use google_gtags.Sexp.Reads.{list_of, parse-Reads}
use google_gtags.TagsTable.{
  TagsTable, TagsResult, find_tags, find_regexp_tags, find_snippet_matches,
}
use google_gtags.RequestHandler.{Environment}
use google_gtags.RequestHandler.Query.{
  TagsCommand, ping, log, get_server_version, get_supported_protocol_versions, reload_tags_file,
  lookup_tag_exact, lookup_tag_prefix_regexp, lookup_tag_snippet_regexp, lookup_tags_in_file,
  load_update_file, TagsQuery, translate_input,
}
use google_gtags.RequestHandler.Protocol.{
  SexpHandler, Reply, print_matches, run_query, execute_sexp, profile_of,
}
use google_gtags.RequestHandler.Answers.{
  reread_match, is_printable_match, IsInRange, response, frame, Reads-matches, Reads-frame,
}

-- What the table has for a lookup of a tag.
unfoldable pub found : Environment → TagsQuery → TagsTable → TagsCommand → Option (List TagsResult)
found env q t lookup_tag_exact = some (find_tags env.config q.tag t)
found env q t lookup_tag_prefix_regexp = some (find_regexp_tags env.regexp env.config q.tag t)
found env q t lookup_tag_snippet_regexp = some (find_snippet_matches env.regexp env.config q.tag t)
found env q t _ = none

run_query-found :
    (env : Environment) (test : TagsResult → Bool) (q : TagsQuery) (t : TagsTable) (c : TagsCommand)
    (rs : List TagsResult)
    → found env q t c ≡ some rs
    → run_query env test q c t ≡ ok (print_matches test rs (codes "("), t)
unfolding run_query found
run_query-found env test q t lookup_tag_exact rs h = ground (arith, h)
run_query-found env test q t lookup_tag_prefix_regexp rs h = ground (arith, h)
run_query-found env test q t lookup_tag_snippet_regexp rs h = ground (arith, h)
run_query-found env test q t ping rs h = cc
run_query-found env test q t log rs h = cc
run_query-found env test q t get_server_version rs h = cc
run_query-found env test q t get_supported_protocol_versions rs h = cc
run_query-found env test q t reload_tags_file rs h = cc
run_query-found env test q t lookup_tags_in_file rs h = cc
run_query-found env test q t load_update_file rs h = cc

-- A lookup of a tag, exactly, by a regular expression or in the snippets, returns, and leaves the table as
-- it is and the number of requests one higher. A client that reads the answer gets the list of what the
-- table found and the predicate lets through, in the order of the table, behind the start time of
-- the server and the number of the request. So it is where no text of a result holds a NUL, its numbers fit an
-- int, the start time is below 2 ^ 47 and the number of the request below 2 ^ 31; newlines, returns and tabs come
-- back as the letters n, r and t.
pub answers_lookup :
    (env : Environment) (test : TagsResult → Bool) (command_list : Text) (h : SexpHandler)
    (t : TagsTable) (q : TagsQuery) (rs : List TagsResult)
    → translate_input command_list t.callers_on_by_default ≡ ok q
    → found env q t q.command ≡ some rs
    → every is_printable_match rs ≡ true
    → IsInRange h
    → (reply : Reply) × (execute_sexp env test command_list h t ≡ ok reply)
      × (parse reply.output ≡ ok (some (response h (list_of (map reread_match (keep test rs))))))
      × (reply.handler.sequence_number ≡ h.sequence_number + 1)
      × (reply.table ≡ t)
unfolding execute_sexp frame
answers_lookup env test command_list h t q rs e f p b =
    let value = print_matches test rs (codes "(") in
    let reply : Reply = record {
      output = frame h value;
      profile = profile_of q;
      handler = record h { sequence_number = h.sequence_number + 1 };
      table = t;
    } in
    (
      reply,
      rw e (rw (run_query-found env test q t q.command rs f) refl),
      parse-Reads _ _ (Reads-frame h value _ b (Reads-matches test rs p)),
      refl,
      refl,
    )
