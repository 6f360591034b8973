-- ===== src/WatcherRequests.antt =====
-- filewatcherrequesthandler.h and filewatcherrequesthandler.cc: the commands for the file watcher, and
-- the worker that runs them.
pub mod Service
pub mod Pushed
pub mod Sent
pub mod Excluded
mod Tests
use google_gtags.Prelude.{Bool, List, [], ◌∷◌, ◌++◌, Text, Option}
use google_gtags.Prelude.Int.{ℤ}
use google_gtags.Prelude.Result.{Result, ok, ◌>>=◌}
use google_gtags.TagsTable.{TagsTable}
use google_gtags.FileWatcher.{
  Watcher, add_exclude_directory, remove_exclude_directory, remove_directory_recursive,
}
use google_gtags.FileWatcher.Directories.{Entries, add_directory_recursive}
use google_gtags.RequestHandler.Server.{unload_local}

pub data WatcherCommandCode : Type 0 where
  add remove exclude remove_exclude : WatcherCommandCode

pub record WatcherCommand : Type 0 where
  pub code : WatcherCommandCode
  pub directory : Text

-- The commands on the queue, and behind them those that a call of the handler puts.
abbrev pub Commands : Type 0
Commands = List WatcherCommand

-- `PushDirectory`
unfoldable pub push_directory : Text → WatcherCommandCode → Commands → Commands
push_directory dir code queue = queue ++ record { code = code; directory = dir } ∷ []

-- `PushDirectories`
unfoldable pub push_directories : List Text → WatcherCommandCode → Commands → Commands
unfolding push_directory
push_directories [] code queue = queue
push_directories (dir ∷ dirs) code queue =
    push_directories dirs code (push_directory dir code queue)

-- `Push`
unfoldable pub push : List Text → List Text → WatcherCommandCode → Commands → Commands
push dirs excludes code queue =
    push_directories excludes remove_exclude
      (push_directories dirs code (push_directories excludes exclude queue))

-- What the worker works on: the watcher, and the tables of its two handlers.
pub record Worker : Type 0 where
  pub watcher : Watcher
  pub definitions : TagsTable
  pub callgraph : TagsTable

-- `watch` is what `inotify_add_watch` returns for a path, and `opened` what `opendir` finds there.
module _ (watch : Text → ℤ) (opened : Text → Option Entries) where
  -- One turn of the loop of the worker.
  unfoldable pub run_code : WatcherCommandCode → Text → Worker → Result Worker
  run_code exclude dir w = ok (record w { watcher = add_exclude_directory dir w.watcher })
  run_code remove_exclude dir w = ok (record w { watcher = remove_exclude_directory dir w.watcher })
  run_code add dir w = do
    v ← add_directory_recursive watch dir (opened dir) w.watcher
    ok (record w { watcher = v })
  run_code remove dir w = do
    d ← unload_local dir w.definitions
    c ← unload_local dir w.callgraph
    ok (record {
      watcher = remove_directory_recursive dir w.watcher;
      definitions = d;
      callgraph = c;
    })

  -- The commands that are taken from the queue, in their order.
  unfoldable pub run_commands : Commands → Worker → Result Worker
  unfolding run_code
  run_commands [] w = ok w
  run_commands (c ∷ cs) w = do v ← run_code c.code c.directory w; run_commands cs v
