-- ===== src/FileWatcher/Directories.antt =====
-- filewatcher.cc: `AddDirectory`, and `AddDirectoryRecursive` over what the directories hold.
use google_gtags.Prelude.{
  Bool, ◌||◌, List, [], ◌∷◌, ◌++◌, Text, codes, text_eq, Option, none, some, if◌then◌else◌,
}
use google_gtags.Prelude.Int.{ℤ, pos, negsuc}
use google_gtags.Prelude.Result.{Result, ok, fatal, ◌>>=◌}
use google_gtags.WatchMap.{join_path, add, get_watch_descriptor}
use google_gtags.FileWatcher.{Watcher, is_positive, import_to, is_excluded}

-- What `readdir` lists and `lstat` says of it, in the order of the listing. `skipped` is a symbolic link,
-- or what `lstat` fails on, and `closed` a directory that `opendir` fails on.
mutual
  pub data Node : Type 0 where
    file skipped closed : Node
    dir : Entries → Node

  pub data Entries : Type 0 where
    end : Entries
    entry : Text → Node → Entries → Entries

-- The names that the loop of `AddDirectoryRecursive` passes over.
unfoldable pub passes_over : Text → List Text → Bool
passes_over name exclude_list =
    text_eq name (codes ".") || text_eq name (codes "..") || is_excluded name exclude_list

-- The CHECK of `AddDirectory` on what `AddInotifyWatch` returned, and what follows.
unfoldable pub watch_added : Text → ℤ → Watcher → Result (ℤ × Watcher)
watch_added dir_name (negsuc n) w = fatal
watch_added dir_name (pos n) w = ok (pos n, record w { map = add dir_name (pos n) w.map })

-- `watch` is what `inotify_add_watch` returns for a path.
module _ (watch : Text → ℤ) where
  -- `AddDirectory`
  unfoldable pub add_directory : Text → Watcher → Result (ℤ × Watcher)
  add_directory dir_name w =
      if is_positive (get_watch_descriptor dir_name w.map)
      then ok (get_watch_descriptor dir_name w.map, w)
      else watch_added dir_name (watch dir_name) (record w { added = w.added ++ dir_name ∷ [] })

  -- What `AddDirectoryRecursive` does with a child, by its kind, and its loop over the entries.
  unfoldable mutual
    pub visit : Node → Text → Watcher → Result Watcher
    visit file path w = ok (import_to w.handlers path w)
    visit skipped path w = ok w
    visit closed path w = ok w
    visit (dir es) path w = do v ← scan es path w; r ← add_directory path v; ok r.1

    pub scan : Entries → Text → Watcher → Result Watcher
    scan end dir_name w = ok w
    scan (entry name node rest) dir_name w = do
      v ←
          if passes_over name w.exclude_list
          then ok w
          else join_path dir_name name >>= λ path. visit node path w
      scan rest dir_name v

  -- `AddDirectoryRecursive`; `none` is a directory that `opendir` fails on.
  unfoldable pub add_directory_recursive : Text → Option Entries → Watcher → Result Watcher
  add_directory_recursive dir_name none w = ok w
  add_directory_recursive dir_name (some es) w = visit (dir es) dir_name w
