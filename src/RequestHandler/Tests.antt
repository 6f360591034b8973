-- ===== src/RequestHandler/Tests.antt =====
-- tagsrequesthandler.cc: runs on concrete inputs.
use google_gtags.Prelude.{
  ◌+◌, ◌≤◌, true, false, [], ◌∷◌, ◌++◌, map, Text, codes, keep, length, text_eq, none, some, ◌≡◌,
  refl, arith,
}
use google_gtags.Prelude.Int.{pos}
use google_gtags.Prelude.Result.{ok, undefined}
use google_gtags.Strutil.{c_str}
use google_gtags.Sexp.Parser.{parse}
use google_gtags.Sexp.Printer.{repr}
use google_gtags.Sexp.Reads.{list_of}
use google_gtags.Filename
use google_gtags.Filename.{Filename, strcmp}
use google_gtags.TagsTable.{
  TagsTable, TagsResult, new_table, find_tags, function_defn, lower_bound, take_while, tag_lt,
}
use google_gtags.RequestHandler.{Environment, strip_corpus_root, root_pattern}
use google_gtags.RequestHandler.Opcode.{execute_opcode}
use google_gtags.RequestHandler.Query.{lookup_tag_exact, translate_input}
use google_gtags.RequestHandler.Protocol.{SexpHandler, Reply, execute_sexp}
use google_gtags.RequestHandler.Server.{any_result}
use google_gtags.RequestHandler.Answers.{reread_match, response, is_printable_match}
use google_gtags.RequestHandler.Lookups.{found, answers_lookup}
use google_gtags.RequestHandler.Requests.{
  Request, request_sexp, query_of, IsSendable, is_sendable, translate_input-repr,
}
use google_gtags.RequestHandler.Roots.{strip_corpus_root_first}

abbrev env : Environment
env = record {
  config = record {
    max_results = 10;
    findfile = true;
    max_snippet_size = 100;
    fresh_type = function_defn;
  };
  regexp = record { error = λ p. false; full_match = text_eq; partial_match = λ p s. false };
  contents = λ gunzip file. none;
  test_mode = false;
  enable_fileindex = true;
  enable_gunzip = false;
  corpus_root = codes "root";
}

abbrev main_tag : TagsResult
main_tag = record {
  addr = 0;
  type = function_defn;
  charno = pos 4;
  lineno = pos 7;
  tag = codes "main";
  linerep = codes "int main() {";
  filename = record { dirs = codes "a.c" ∷ [] };
  language = codes "c++";
}

abbrev table : TagsTable
table = record (new_table true) { tag_map = main_tag ∷ [] }

abbrev handler : SexpHandler
handler = record { server_start_time = 65537; sequence_number = 3 }

abbrev request : Request
request = record {
  command = lookup_tag_exact;
  client_type = codes "vi";
  client_version = pos 1;
  protocol_version = pos 2;
  tag = codes "main";
  language = codes "c++";
  current_file = [];
}

request-IsSendable : IsSendable request
unfolding is_sendable
request-IsSendable = record {
  client_type = refl;
  client_version = refl;
  protocol_version = refl;
  tag = refl;
  language = refl;
  current_file = refl;
}

translate_input-repr_example :
    translate_input (repr (request_sexp request)) false ≡ ok (query_of request)
translate_input-repr_example = translate_input-repr request false request-IsSendable

answers_lookup_example :
    (reply : Reply) × (execute_sexp env any_result (repr (request_sexp request)) handler table
      ≡ ok reply)
    × (parse reply.output
        ≡ ok (
            some (
              response handler (
                list_of (
                  map reread_match
                    (keep any_result (find_tags env.config (codes "main") table)))))))
    × (reply.handler.sequence_number ≡ handler.sequence_number + 1)
    × (reply.table ≡ table)
unfolding found query_of is_printable_match new_table find_tags lower_bound take_while tag_lt strcmp
    c_str Filename.str Filename.join_rest
answers_lookup_example =
    answers_lookup env any_result (repr (request_sexp request)) handler table (query_of request)
      (find_tags env.config (codes "main") table)
      (translate_input-repr request true request-IsSendable) refl refl (omega arith)

strip_corpus_root_first_example :
    (pre' : Text) × (rest' : Text) × (strip_corpus_root
        (codes "root")
        (codes "/home" ++ (root_pattern (codes "root") ++ codes "a.c"))
      ≡ rest')
    × (codes "/home" ++ (root_pattern (codes "root") ++ codes "a.c")
        ≡ pre' ++ (root_pattern (codes "root") ++ rest'))
    × (length pre' ≤ length (codes "/home"))
strip_corpus_root_first_example =
    strip_corpus_root_first (codes "root") (codes "/home") (codes "a.c") (λ e. cc)

-- A command with a comment and no opcode.
empty_command : execute_opcode env (codes "#vi#") table ≡ undefined
unfolding execute_opcode
empty_command = refl

open_comment : execute_opcode env (codes "#vi") table ≡ undefined
unfolding execute_opcode
open_comment = refl
