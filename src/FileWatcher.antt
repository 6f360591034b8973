-- ===== src/FileWatcher.antt =====
-- filewatcher.h and filewatcher.cc: `InotifyFileWatcher`, the handlers of its events, and their filters.
pub mod Directories
pub mod Dispatch
pub mod Walk
pub mod Excludes
pub mod Upkeep
pub mod Events
mod Tests
use google_gtags.Prelude.{
  ℕ, zero, suc, ◌+◌, ◌-◌, ◌/◌, ◌%◌, ◌^◌, Bool, true, false, not, ◌&&◌, ◌||◌, List, [], ◌∷◌, ◌++◌,
  Text, codes, length, every, keep, some_of, text_eq, take, Option, none, some, ltb, ◌==◌,
  if◌then◌else◌,
}
use google_gtags.Prelude.Int.{ℤ, pos, negsuc}
use google_gtags.Prelude.Result.{Result, ok, fatal, undefined, out_of_fuel, ◌>>=◌}
use google_gtags.EventFilter.{InotifyEvent, Filter, do_filter_on_filename}
use google_gtags.WatchMap.{
  WatchMap, no_watches, join_path, last_char, add, remove, get_pathname, get_watch_descriptor,
  get_sub_dirs_watch_descriptor,
}

-- The classes below `InotifyEventHandler`, each with its filters: `DirectoryTracker`,
-- `IndexEventHandler` with the queue that it puts to, and `InotifyEventLogger`.
pub data Handler : Type 0 where
  tracker : List Filter → Handler
  indexer : List Filter → ℕ → Handler
  logger : List Filter → Handler

-- `added` and `removed` are the calls of inotify so far, and `puts` those of `Put`, each with its queue.
pub record Watcher : Type 0 where
  pub map : WatchMap
  pub handlers : List Handler
  pub exclude_list : List Text
  pub added : List Text
  pub removed : List ℤ
  pub puts : List (ℕ × Text)

abbrev pub new_watcher : Watcher
new_watcher = record {
  map = no_watches;
  handlers = [];
  exclude_list = [];
  added = [];
  removed = [];
  puts = [];
}

unfoldable pub is_positive : ℤ → Bool
is_positive (pos n) = ltb 0 n
is_positive (negsuc n) = false

unfoldable pub put_on : ℕ → Text → Watcher → Watcher
put_on queue filename w = record w { puts = w.puts ++ (queue, filename) ∷ [] }

-- `RemoveDirectory`
unfoldable pub remove_directory : ℤ → Watcher → Watcher
remove_directory wd w = record w { map = remove wd w.map; removed = w.removed ++ wd ∷ [] }

unfoldable pub remove_directories : List ℤ → Watcher → Watcher
remove_directories [] w = w
remove_directories (wd ∷ wds) w = remove_directories wds (remove_directory wd w)

-- `RemoveDirectoryRecursive`
unfoldable pub remove_directory_recursive : Text → Watcher → Watcher
remove_directory_recursive dirname w =
    let v = remove_directory (get_watch_descriptor dirname w.map) w in
    remove_directories (get_sub_dirs_watch_descriptor dirname v.map) v

-- The last character is a '/'.
unfoldable pub is_slash : Option ℕ → Bool
is_slash none = false
is_slash (some c) = c == b'/'

-- What both functions below do to a name first: they drop one '/' from the end of a longer name.
unfoldable pub exclude_name : Text → Text
unfolding is_slash
exclude_name dir =
    if ltb 1 (length dir) && is_slash (last_char dir) then take (length dir - 1) dir else dir

unfoldable pub is_excluded : Text → List Text → Bool
is_excluded name = some_of (λ e. text_eq e name)

-- `AddExcludeDirectory`
unfoldable pub add_exclude_directory : Text → Watcher → Watcher
add_exclude_directory dir w =
    if is_excluded (exclude_name dir) w.exclude_list
    then w
    else record w { exclude_list = exclude_name dir ∷ w.exclude_list }

-- `RemoveExcludeDirectory`
unfoldable pub remove_exclude_directory : Text → Watcher → Watcher
remove_exclude_directory dir w = record w {
  exclude_list = keep (λ e. not (text_eq e (exclude_name dir))) w.exclude_list;
}

-- Any failing filter stops an import.
unfoldable pub handle_import : Text → Handler → Watcher → Watcher
handle_import filename (indexer filters queue) w =
    if every (λ f. do_filter_on_filename f filename) filters then put_on queue filename w else w
handle_import filename _ w = w

-- The loop of `AddDirectoryRecursive` over the handlers.
unfoldable pub import_to : List Handler → Text → Watcher → Watcher
import_to [] filename w = w
import_to (h ∷ hs) filename w = import_to hs filename (handle_import filename h w)
