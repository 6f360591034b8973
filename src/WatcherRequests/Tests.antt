-- ===== src/WatcherRequests/Tests.antt =====
-- filewatcherrequesthandler_test.cc and socket_filewatcher_service_test.cc: runs on concrete inputs, and the
-- theorems at inputs that meet their premises.
use google_gtags.Prelude.{
  true, false, not, ◌&&◌, List, [], ◌∷◌, ◌++◌, some, none, codes, Text, ◌≡◌, refl, Option,
}
use google_gtags.Prelude.Int.{ℤ, pos}
use google_gtags.Prelude.Result.{ok, fatal, Holds}
use google_gtags.Sexp.{symbol, is_list}
use google_gtags.Sexp.Iterator.{begin}
use google_gtags.PollServer.Slots.{find}
use google_gtags.Socket.{Connected, Received, bytes, ended, would_block, handle_read}
use google_gtags.Socket.Sample.{serving, serving-IsIdle, is_registered-serving}
use google_gtags.Socket.Delivery.{IsRead, stops, more}
use google_gtags.TagsTable.{new_table}
use google_gtags.TagsTable.WellFormed.{new_table-IsWellFormed}
use google_gtags.FileWatcher.{new_watcher, is_excluded}
use google_gtags.FileWatcher.Directories.{Entries, end}
use google_gtags.WatcherRequests.{Commands, Worker, run_commands}
use google_gtags.WatcherRequests.Service.{
  run_request, watcher_methods, append_quoted, convert_to_string, service_command,
}
use google_gtags.WatcherRequests.Sent.{action_name, is_dir_char}
use google_gtags.WatcherRequests.Pushed.{action_code, request_commands, socket_for, request_arrives}
use google_gtags.WatcherRequests.Excluded.{IsAt, is_named, request_excludes}

abbrev some_dirs : List Text
some_dirs = codes "/usr/include" ∷ []

abbrev some_excludes : List Text
some_excludes = codes "/usr/include/sys" ∷ codes "/usr/include/net" ∷ []

-- The request in two pieces.
abbrev pieces : List Received
pieces =
    bytes b'(' (codes "add (dirs \"/usr/include\")")
    ∷ bytes b' ' (codes "(excludes \"/usr/include/sys\" \"/usr/include/net\"))\n")
    ∷ ended would_block
    ∷ []

pieces-IsRead :
    IsRead pieces (service_command (action_name true) some_dirs some_excludes) would_block
unfolding service_command convert_to_string append_quoted
pieces-IsRead = more b'(' (codes "add (dirs \"/usr/include\")") (
    more b' ' (codes "(excludes \"/usr/include/sys\" \"/usr/include/net\"))\n") (stops would_block))

request_arrives_example :
    (t : Connected Commands) × (handle_read watcher_methods pieces
        (socket_for 100 5 serving [] [] [])
      ≡ ok t)
    × (t.own ≡ [] ++ request_commands (action_code true) some_dirs some_excludes)
    × (t.live ≡ false)
    × (find (pos 5) t.ps.slots ≡ none)
unfolding is_dir_char
request_arrives_example =
    request_arrives true some_dirs some_excludes pieces 100 5 serving [] [] [] (λ e. cc) refl refl
      pieces-IsRead (serving-IsIdle 100) is_registered-serving

-- A command that is no list ends the process of the service.
atom_ends_service : run_request (some (symbol (codes "add"))) [] ≡ fatal
unfolding run_request begin is_list
atom_ends_service = refl

abbrev descriptor_of : Text → ℤ
descriptor_of path = pos 1

abbrev empty_at : Text → Option Entries
empty_at path = some end

-- A directory was excluded for good.
abbrev one_excluded : Worker
one_excluded = record {
  watcher = record new_watcher { exclude_list = codes "/usr/include/sys" ∷ [] };
  definitions = new_table false;
  callgraph = new_table false;
}

-- The exclude is gone behind a request that names it too.
request_excludes_example :
    Holds
      (IsAt
        (λ q. not (is_named q some_excludes) && is_excluded q one_excluded.watcher.exclude_list))
      (run_commands descriptor_of empty_at
        (request_commands (action_code true) some_dirs some_excludes)
        one_excluded)
request_excludes_example =
    request_excludes descriptor_of empty_at true some_dirs some_excludes one_excluded
      (new_table-IsWellFormed false) (new_table-IsWellFormed false)
