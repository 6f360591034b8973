-- ===== src/IndexAgent/Tests.antt =====
-- indexagent_test.cc: the theorem at an input that meets its premises.
use google_gtags.Prelude.{
  arith, true, false, List, [], ◌∷◌, Text, codes, text_eq, some_of, some, ◌≡◌, refl,
}
use google_gtags.Prelude.Result.{ok, Holds}
use google_gtags.Filename.{strcmp}
use google_gtags.TagsTable.{new_table, function_defn, is_less}
use google_gtags.TagsTable.WellFormed.{new_table-IsWellFormed}
use google_gtags.RequestHandler.{Environment}
use google_gtags.IndexAgent.{
  named, Meanwhile, Taken, try_get, try_gets, get_requests, Agent, Indexing, make_temp_file,
  is_below, insert_arg, sort_args, unique_after, unique_args, print_args, index_command, run_agent,
}
use google_gtags.IndexAgent.Requests.{all_puts, IsTaken}
use google_gtags.IndexAgent.Arguments.{is_increasing}
use google_gtags.IndexAgent.Round.{IsIndexed, command_for, run_agent-IsIndexed}

-- What the indexer writes of a file with no tags.
abbrev output : Text
output = codes "(tags-format-version 2) (file (path \"a\") (language \"c\") (contents ()))"

abbrev env : Environment
env = record {
  config = record {
    max_results = 10;
    findfile = true;
    max_snippet_size = 100;
    fresh_type = function_defn;
  };
  regexp = record { error = λ p. false; full_match = text_eq; partial_match = λ p s. false };
  contents = λ gunzip file. some output;
  test_mode = false;
  enable_fileindex = false;
  enable_gunzip = false;
  corpus_root = codes "root";
}

abbrev indexing : Indexing
indexing = record {
  gentags_local = codes "gen";
  index_callgraph = false;
  succeeds = λ command. true;
  exists = λ filename. text_eq filename (codes "/tmp/2");
}

-- Three requests for two files, and a name that another process takes first.
abbrev agent : Agent
agent = record {
  queue = codes "b" ∷ codes "a" ∷ codes "b" ∷ [];
  full = 3;
  temps = named (codes "/tmp/1") false ∷ named (codes "/tmp/2") true ∷ [];
  definitions = new_table false;
  callgraph = new_table false;
  commands = [];
  deleted = [];
}

command_runs :
    index_command
      (codes "gen")
      (codes " --output_file=")
      (codes "/tmp/2")
      (unique_args (sort_args agent.queue))
    ≡ codes "gen --output_file=/tmp/2 a b "
unfolding index_command print_args unique_args unique_after sort_args insert_arg is_below is_less
    strcmp text_eq
command_runs = refl

-- A file is put on the queue while the agent waits, and the second call of `TryGet` meets a held mutex.
abbrev meanwhile : List Meanwhile
meanwhile =
    record { puts = codes "c" ∷ []; holds_mu = false } ∷ record { puts = []; holds_mu = true } ∷ []

-- Two files are left, of which the semaphore tells one.
two_are_taken :
    get_requests meanwhile 2 agent.queue
    ≡ ok (record {
      files = codes "b" ∷ codes "a" ∷ [];
      queue = codes "b" ∷ codes "c" ∷ [];
      full = 1;
    })
unfolding get_requests try_gets try_get
two_are_taken = refl

run_agent-IsIndexed_example :
    (r : Taken) × IsTaken (some_of (λ m. m.holds_mu) meanwhile) (all_puts meanwhile) 3 agent.queue r
    × ((others : List Text) × (r.files ≡ codes "b" ∷ others))
    × (Holds
        (IsIndexed env indexing agent
          (codes "/tmp/2")
          r
          (command_for indexing (codes "/tmp/2") r.files))
        (run_agent env indexing meanwhile agent))
    × (is_increasing (unique_args (sort_args r.files)) ≡ true)
    × (some_of (text_eq (codes "a")) (unique_args (sort_args r.files))
        ≡ some_of (text_eq (codes "a")) r.files)
unfolding make_temp_file
run_agent-IsIndexed_example =
    run_agent-IsIndexed env indexing meanwhile 2 (codes "b") (codes "a")
      (codes "a" ∷ codes "b" ∷ []) agent (codes "/tmp/2") [] (unfold text_eq in refl) refl refl
      (omega arith) refl refl (new_table-IsWellFormed false)
