-- ===== src/FileWatcher/Tests.antt =====
-- filewatcher.cc: runs on concrete inputs.
use google_gtags.Prelude.{
  ℕ, zero, suc, ◌+◌, ◌<◌, true, List, [], ◌∷◌, ◌++◌, Text, codes, length, some_of, text_eq, some,
  ◌≡◌, refl, arith, ltb, if◌then◌else◌, ◌==◌,
}
use google_gtags.Prelude.Dict.{find, put, text_key, int_key}
use google_gtags.Prelude.Int.{ℤ, pos}
use google_gtags.Prelude.Result.{ok, fatal, undefined, Holds}
use google_gtags.Strutil.{has_prefix_string}
use google_gtags.WatchMap.{
  joined, join_path, WatchMap, add, get_pathname, get_watch_descriptor, max_path_length, last_char,
  no_watches,
}
use google_gtags.WatchMap.Inverse.{IsInverse, add-IsInverse}
use google_gtags.EventFilter.{
  InotifyEvent, do_filter_on_filename, directories, extensions, kind_of, create, extension_of,
}
use google_gtags.FileWatcher.{
  Watcher, new_watcher, tracker, indexer, is_positive, put_on, remove_directory_recursive, is_slash,
  is_excluded,
}
use google_gtags.FileWatcher.Directories.{
  file, dir, Entries, end, entry, passes_over, add_directory_recursive,
}
use google_gtags.FileWatcher.Dispatch.{do_indexing, process_events, bytes}
use google_gtags.FileWatcher.Walk.{
  child, directories as dirs_below, files, is_short, imports, imports_of,
}
use google_gtags.FileWatcher.Walk.Watched.{add_directory_recursive_walks}
use google_gtags.FileWatcher.Upkeep.Tracked.{
  IsTracked, add-IsTracked, no_watches-IsTracked, Call, adds, arrives, removes_recursively, perform,
  perform_all, perform_all-IsTracked,
}
use google_gtags.FileWatcher.Upkeep.Inverted.{perform-IsInverse}
use google_gtags.FileWatcher.Upkeep.Removed.{get-remove_directory_recursive}
use google_gtags.FileWatcher.Events.{handle_events, process_events_in_order, do_indexing_fits}

-- A descriptor for each path: 0 for the empty one, and for a first byte of c as many doublings of an odd
-- number.
double_and_one : ℕ → ℕ → ℕ
double_and_one zero n = n + n + 1
double_and_one (suc c) n = double_and_one c n + double_and_one c n

number_of : Text → ℕ
number_of [] = 0
number_of (c ∷ cs) = double_and_one c (number_of cs)

inotify : Text → ℤ
inotify p = pos (suc (number_of p))

double_and_one_pos : (c n : ℕ) → 0 < double_and_one c n
unfolding double_and_one
double_and_one_pos zero n = omega arith
double_and_one_pos (suc c) n = omega (arith, double_and_one_pos c n)

double_and_one_inj : (c d n m : ℕ) → double_and_one c n ≡ double_and_one d m → (c ≡ d) × (n ≡ m)
unfolding double_and_one
double_and_one_inj zero zero n m h = omega arith
double_and_one_inj zero (suc d) n m h = absurd (omega arith)
double_and_one_inj (suc c) zero n m h = absurd (omega arith)
double_and_one_inj (suc c) (suc d) n m h = omega (arith, double_and_one_inj c d n m (omega arith))

number_of_inj : (p q : Text) → number_of p ≡ number_of q → p ≡ q
unfolding number_of
number_of_inj [] [] h = refl
number_of_inj [] (d ∷ q) h = absurd (omega (arith, double_and_one_pos d (number_of q)))
number_of_inj (c ∷ p) [] h = absurd (omega (arith, double_and_one_pos c (number_of p)))
number_of_inj (c ∷ p) (d ∷ q) h =
    let (e, f) = double_and_one_inj c d (number_of p) (number_of q) h in cc (e, number_of_inj p q f)

inotify_inj : (p q : Text) → inotify p ≡ inotify q → p ≡ q
unfolding inotify
inotify_inj p q h = number_of_inj p q (ground arith)

inotify_positive : (p : Text) → is_positive (inotify p) ≡ true
unfolding inotify is_positive
inotify_positive p = ground arith

abbrev watcher : Watcher
watcher = record new_watcher {
  handlers = tracker (directories ∷ []) ∷ indexer (extensions (codes ".c" ∷ []) ∷ []) 7 ∷ [];
  exclude_list = codes "obj" ∷ [];
}

abbrev tree : Entries
tree = entry (codes "a.c") file (
    entry (codes "obj") (dir end)
      (entry (codes "src") (dir (entry (codes "b.c") file (entry (codes "b.h") file end))) end))

below_tree :
    dirs_below watcher.exclude_list (dir tree) (codes "/r") ≡ codes "/r/src" ∷ codes "/r" ∷ []
unfolding dirs_below child is_slash last_char passes_over is_excluded some_of text_eq
below_tree = refl

imports-tree :
    imports watcher.handlers (files watcher.exclude_list (dir tree) (codes "/r"))
    ≡ (7, codes "/r/a.c") ∷ (7, codes "/r/src/b.c") ∷ []
unfolding imports imports_of files child is_slash last_char passes_over is_excluded some_of text_eq
    do_filter_on_filename extension_of
imports-tree = refl

add_directory_recursive_walks_example :
    (v : Watcher) × (add_directory_recursive inotify (codes "/r") (some tree) watcher ≡ ok v)
    × ((q : Text)
        → get_watch_descriptor q v.map ≡ (
            if is_positive (get_watch_descriptor q watcher.map)
            then get_watch_descriptor q watcher.map
            else if some_of
                (λ d. text_eq d q)
                (dirs_below watcher.exclude_list (dir tree) (codes "/r"))
            then inotify q
            else get_watch_descriptor q watcher.map))
    × (v.puts
        ≡ watcher.puts
          ++ imports watcher.handlers (files watcher.exclude_list (dir tree) (codes "/r")))
    × (v.handlers ≡ watcher.handlers)
    × (v.exclude_list ≡ watcher.exclude_list)
    × (v.removed ≡ watcher.removed)
unfolding is_short child is_slash last_char passes_over is_excluded some_of text_eq
add_directory_recursive_walks_example =
    add_directory_recursive_walks inotify tree (codes "/r") watcher inotify_positive (λ e. cc) refl

abbrev deleted : InotifyEvent
deleted = record { wd = pos 1; mask = 0x40000200; len = 16; name = codes "src" }

abbrev calls : List Call
calls = adds (codes "/r") (some tree) ∷ removes_recursively (codes "/r/src") ∷ arrives deleted ∷ []

perform_all-IsTracked_example :
    Holds (λ v. IsTracked v.map) (perform_all (λ n. inotify) 0 calls new_watcher)
perform_all-IsTracked_example = perform_all-IsTracked (λ n. inotify) calls (λ n. inotify_positive)

perform-IsInverse_example :
    Holds (λ v. IsInverse v.map) (perform inotify (adds (codes "/r") (some tree)) watcher)
unfolding find
perform-IsInverse_example =
    perform-IsInverse inotify (adds (codes "/r") (some tree)) watcher inotify_positive inotify_inj
      (λ p q e. cc) no_watches-IsTracked
      (record { forward = λ p wd e. cc; backward = λ wd p e. cc })

abbrev two_watches : WatchMap
two_watches = add (codes "/ab") (pos 2) (add (codes "/a") (pos 1) no_watches)

one-IsTracked : IsTracked (add (codes "/a") (pos 1) no_watches)
unfolding get_watch_descriptor find is_positive
one-IsTracked = add-IsTracked (codes "/a") (pos 1) no_watches refl no_watches-IsTracked refl

two-IsTracked : IsTracked two_watches
unfolding get_watch_descriptor find is_positive add put text_eq
two-IsTracked = add-IsTracked (codes "/ab") (pos 2) _ refl one-IsTracked refl

two-IsInverse : IsInverse two_watches
unfolding find add put text_eq
two-IsInverse =
    add-IsInverse (codes "/ab") (pos 2) _
      (add-IsInverse (codes "/a") (pos 1) no_watches
        (record { forward = λ p wd e. cc; backward = λ wd p e. cc }) refl refl)
      refl refl

get-remove_directory_recursive_example :
    get_watch_descriptor
      (codes "/ab")
      (remove_directory_recursive (codes "/a") (record new_watcher { map = two_watches })).map
    ≡ (if has_prefix_string (codes "/ab") (codes "/a")
        then pos 0
        else get_watch_descriptor (codes "/ab") two_watches)
get-remove_directory_recursive_example =
    get-remove_directory_recursive (codes "/ab") (codes "/a")
      (record new_watcher { map = two_watches }) two-IsTracked two-IsInverse

abbrev created : InotifyEvent
created = record { wd = pos 1; mask = 0x100; len = 16; name = codes "c.c" }

abbrev buffer : ℕ → InotifyEvent
buffer offset = if offset == 0 then created else deleted

process_events_in_order_example :
    process_events inotify (bytes 64 buffer) watcher
    ≡ handle_events inotify (created ∷ deleted ∷ []) watcher
process_events_in_order_example =
    process_events_in_order inotify 64 buffer (created ∷ deleted ∷ []) watcher (refl, (refl, refl))
      (omega arith)

do_indexing_fits_example : do_indexing created 7 (record watcher { map = two_watches }) ≡ (
    if ltb (length (codes "/a") + 1 + length created.name) max_path_length
    then ok (put_on 7 (child (codes "/a") created.name) (record watcher { map = two_watches }))
    else fatal)
unfolding get_pathname find add put
do_indexing_fits_example =
    do_indexing_fits created 7 (record watcher { map = two_watches }) (codes "/a") refl (λ e. cc)
      (omega arith)

-- Bits that stand together are read in the order of the conditions.
kind_of_both : kind_of 0x40000300 ≡ create
unfolding kind_of
kind_of_both = refl

join_path_root : join_path (codes "/") (codes "a") ≡ ok (codes "/a")
unfolding join_path joined last_char
join_path_root = refl

join_path_empty : join_path [] (codes "a") ≡ undefined
unfolding join_path joined last_char
join_path_empty = refl
