-- ===== src/FileWatcher/Walk.antt =====
-- filewatcher.cc: `AddDirectoryRecursive` against the directories and files below a path.
pub mod Watched
use google_gtags.Prelude.{
  ℕ, ◌+◌, Bool, true, false, not, ◌&&◌, ◌||◌, List, [], ◌∷◌, ◌++◌, append_assoc, append-nil, Text,
  every, every-append, length, some_of, some_of-append, text_eq, text_eq_iff, Option, none, some,
  ◌≡◌, ◌≢◌, refl, sym, ap, arith, ltb, ◌==◌, if◌then◌else◌, Bool-cases, inl, inr, ◌∙◌, if_rule,
}
use google_gtags.Prelude.Dict.{find, put, find-put, text_key, int_key}
use google_gtags.Prelude.Int.{ℤ, pos, negsuc}
use google_gtags.Prelude.Result.{Result, ok, fatal, ◌>>=◌}
use google_gtags.WatchMap.{
  WatchMap, join_path, joined, last_char, add, get_watch_descriptor, or_zero, max_path_length,
}
use google_gtags.EventFilter.{Filter, do_filter_on_filename}
use google_gtags.FileWatcher.{
  Watcher, Handler, tracker, indexer, logger, is_positive, is_slash, import_to, handle_import,
  put_on,
}
use google_gtags.FileWatcher.Directories.{
  Node, file, skipped, closed, dir, Entries, end, entry, passes_over, watch_added, add_directory,
  visit, scan, add_directory_recursive,
}

-- A path and a name with one '/' between them.
unfoldable pub child : Text → Text → Text
unfolding is_slash
child base name = if is_slash (last_char base) then base ++ name else base ++ (b'/' ∷ name)

last_char-ne-none : (c : ℕ) (base : Text) → last_char (c ∷ base) ≢ none
unfolding last_char
last_char-ne-none c [] h = cc
last_char-ne-none c (d ∷ base) h = last_char-ne-none d base h

joined-child :
    (last : Option ℕ) (base name : Text)
    → last ≢ none
    → joined last base name ≡ ok (if is_slash last then base ++ name else base ++ (b'/' ∷ name))
unfolding joined is_slash
joined-child none base name h = absurd (h refl)
joined-child (some c) base name h = refl

pub join_path-child :
    (base name : Text)
    → base ≢ []
    → ltb (length base + 1 + length name) max_path_length ≡ true
    → join_path base name ≡ ok (child base name)
unfolding join_path child
join_path-child [] name n h = absurd (n refl)
join_path-child (c ∷ base) name n h =
    rw h (joined-child (last_char (c ∷ base)) (c ∷ base) name (last_char-ne-none c base))

pub child-ne-nil : (base name : Text) → base ≢ [] → child base name ≢ []
unfolding child
child-ne-nil [] name n = absurd (n refl)
child-ne-nil (c ∷ base) name n =
    if_rule (λ (t : Text). t ≢ []) (is_slash (last_char (c ∷ base))) (λ e. cc) (λ e. cc)

module _ (exclude_list : List Text) where
  -- The directories below a path, itself last, and the files, both without what the names exclude.
  unfoldable mutual
    pub directories : Node → Text → List Text
    directories (dir es) path = directories_in es path ++ path ∷ []
    directories file path = []
    directories skipped path = []
    directories closed path = []

    pub directories_in : Entries → Text → List Text
    directories_in end path = []
    directories_in (entry name node rest) path =
        (if passes_over name exclude_list then [] else directories node (child path name))
        ++ directories_in rest path

  unfoldable mutual
    pub files : Node → Text → List Text
    files (dir es) path = files_in es path
    files file path = path ∷ []
    files skipped path = []
    files closed path = []

    pub files_in : Entries → Text → List Text
    files_in end path = []
    files_in (entry name node rest) path =
        (if passes_over name exclude_list then [] else files node (child path name))
        ++ files_in rest path

  -- Every path that is joined on the way is short enough.
  unfoldable mutual
    pub is_short : Node → Text → Bool
    is_short (dir es) path = are_short es path
    is_short file path = true
    is_short skipped path = true
    is_short closed path = true

    pub are_short : Entries → Text → Bool
    are_short end path = true
    are_short (entry name node rest) path =
        (if passes_over name exclude_list
          then true
          else ltb (length path + 1 + length name) max_path_length
            && is_short node (child path name))
        && are_short rest path

-- What the handlers put for one file: the queue of each index handler whose filters let it through.
unfoldable pub imports_of : List Handler → Text → List (ℕ × Text)
imports_of [] filename = []
imports_of (indexer filters queue ∷ hs) filename =
    (if every (λ f. do_filter_on_filename f filename) filters then (queue, filename) ∷ [] else [])
    ++ imports_of hs filename
imports_of (h ∷ hs) filename = imports_of hs filename

unfoldable pub imports : List Handler → List Text → List (ℕ × Text)
imports hs [] = []
imports hs (f ∷ fs) = imports_of hs f ++ imports hs fs

pub imports-append :
    (hs : List Handler) (fs gs : List Text) → imports hs (fs ++ gs) ≡ imports hs fs ++ imports hs gs
unfolding imports
imports-append hs [] gs = refl
imports-append hs (f ∷ fs) gs = simp (imports-append hs fs gs, append_assoc)

pub import_to-imports_of :
    (hs : List Handler) (f : Text) (w : Watcher)
    → import_to hs f w ≡ record w { puts = w.puts ++ imports_of hs f }
unfolding import_to imports_of handle_import put_on
import_to-imports_of [] f w = simp append-nil
import_to-imports_of (tracker filters ∷ hs) f w = import_to-imports_of hs f w
import_to-imports_of (logger filters ∷ hs) f w = import_to-imports_of hs f w
import_to-imports_of (indexer filters queue ∷ hs) f w =
    elim (Bool-cases (every (λ g. do_filter_on_filename g f) filters)) [
      | inl e ↦ rw e (
          import_to-imports_of hs f (record w { puts = w.puts ++ (queue, f) ∷ [] })
          ∙ simp append_assoc)
      | inr e ↦ rw e (import_to-imports_of hs f w)
    ]

module _ (watch : Text → ℤ) where
  pub watch_one : Text → WatchMap → WatchMap
  watch_one path m =
      if is_positive (get_watch_descriptor path m) then m else add path (watch path) m

  pub watch_all : List Text → WatchMap → WatchMap
  watch_all [] m = m
  watch_all (p ∷ ps) m = watch_all ps (watch_one p m)

  pub watch_all-append :
      (ps qs : List Text) (m : WatchMap) → watch_all (ps ++ qs) m ≡ watch_all qs (watch_all ps m)
  unfolding watch_all
  watch_all-append [] qs m = refl
  watch_all-append (p ∷ ps) qs m = watch_all-append ps qs (watch_one p m)
