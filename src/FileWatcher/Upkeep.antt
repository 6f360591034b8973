-- ===== src/FileWatcher/Upkeep.antt =====
-- filewatcher.cc: what every operation and every event keeps of the map.
pub mod Tracked
pub mod Inverted
pub mod Removed
use google_gtags.Prelude.{
  ℕ, zero, suc, ◌+◌, Bool, true, false, ◌&&◌, List, [], ◌∷◌, ◌++◌, Text, length, every, Option,
  none, some, ◌≡◌, refl, sym, ap, subst, ltb, if◌then◌else◌, Bool-cases, inl, inr, if_rule,
  if_split, if_true,
}
use google_gtags.Prelude.Int.{ℤ, pos, negsuc}
use google_gtags.Prelude.Result.{
  Result, ok, fatal, undefined, ◌>>=◌, Holds, Stops, Holds-bind, Holds-any, Holds-if,
}
use google_gtags.WatchMap.{
  WatchMap, join_path, joined, last_char, add, remove, get_pathname, get_watch_descriptor,
  max_path_length, get_sub_dirs_watch_descriptor,
}
use google_gtags.EventFilter.{
  InotifyEvent, Kind, create, delete, modify, access, kind_of, do_filter,
}
use google_gtags.FileWatcher.{
  Watcher, Handler, tracker, indexer, logger, is_positive, import_to, put_on, remove_directory,
  remove_directories, remove_directory_recursive, add_exclude_directory, remove_exclude_directory,
  is_excluded, exclude_name,
}
use google_gtags.FileWatcher.Directories.{
  Node, file, skipped, closed, dir, Entries, end, entry, passes_over, watch_added, add_directory,
  visit, scan, add_directory_recursive,
}
use google_gtags.FileWatcher.Dispatch.{
  full_path, copied, index_base, do_indexing, handle_create, handle_delete, tracker_handle,
  indexer_handle, handle_event, handle_all,
}
use google_gtags.FileWatcher.Walk.{import_to-imports_of}

pub join_path-Stops : (base name : Text) → Stops (join_path base name)
unfolding join_path joined
join_path-Stops base name =
    Holds-if (λ t. Unit) (ltb (length base + 1 + length name) max_path_length) _ fatal
      (joined-Stops (last_char base)) tt
  where
    joined-Stops : (last : Option ℕ) → Stops (joined last base name)
    joined-Stops none = tt
    joined-Stops (some c) = tt

full_path-Stops : (base : Option Text) (name : Text) → Stops (full_path base name)
unfolding full_path
full_path-Stops none name = tt
full_path-Stops (some base) name = join_path-Stops base name

import_to-map : (hs : List Handler) (f : Text) (w : Watcher) → (import_to hs f w).map ≡ w.map
import_to-map hs f w = ap (λ v. v.map) (import_to-imports_of hs f w)

-- A property of the map that `Add` of a path that is not watched keeps, and `Remove`.
module _ (watch : Text → ℤ) (P : WatchMap → Type 0)
    (keeps_add : (p : Text) (m : WatchMap)
      → P m
      → is_positive (get_watch_descriptor p m) ≡ false
      → P (add p (watch p) m))
    (keeps_remove : (wd : ℤ) (m : WatchMap) → P m → P (remove wd m)) where
  abbrev pub KeepsMap : Result Watcher → Type 0
  KeepsMap = Holds (λ v. P v.map)

  watch_added-keeps :
      (p : Text) (wd : ℤ) (w : Watcher)
      → P (add p wd w.map)
      → Holds (λ r. P r.1.map) (watch_added p wd w)
  unfolding watch_added
  watch_added-keeps p (pos n) w h = h
  watch_added-keeps p (negsuc n) w h = tt

  pub add_directory-keeps :
      (p : Text) (w : Watcher) → P w.map → Holds (λ r. P r.1.map) (add_directory watch p w)
  unfolding add_directory
  add_directory-keeps p w h =
      if_split (Holds (λ r. P r.1.map)) (is_positive (get_watch_descriptor p w.map)) (λ e. h)
        (λ e. watch_added-keeps p (watch p) _ (keeps_add p w.map h e))

  mutual
    unfolding visit scan

    pub visit-keeps :
        (node : Node) (p : Text) (w : Watcher) → P w.map → KeepsMap (visit watch node p w)
    visit-keeps file p w h = subst P (sym (import_to-map w.handlers p w)) h
    visit-keeps skipped p w h = h
    visit-keeps closed p w h = h
    visit-keeps (dir es) p w h =
        Holds-bind (λ v. P v.map) (λ v. P v.map) (scan watch es p w) _ (scan-keeps es p w h)
          (λ v k.
            Holds-bind (λ r. P r.1.map) (λ v. P v.map) (add_directory watch p v) _
              (add_directory-keeps p v k) (λ r l. l))

    scan-keeps : (es : Entries) (p : Text) (w : Watcher) → P w.map → KeepsMap (scan watch es p w)
    scan-keeps end p w h = h
    scan-keeps (entry name node rest) p w h =
        Holds-bind (λ v. P v.map) (λ v. P v.map) _ (scan watch rest p)
          (Holds-if (λ v. P v.map) (passes_over name w.exclude_list) (ok w) _ h
            (Holds-any (λ v. P v.map) (join_path p name) _ (join_path-Stops p name)
              (λ path. visit-keeps node path w h)))
          (λ v k. scan-keeps rest p v k)

  pub add_directory_recursive-keeps :
      (p : Text) (es : Option Entries) (w : Watcher)
      → P w.map
      → KeepsMap (add_directory_recursive watch p es w)
  unfolding add_directory_recursive
  add_directory_recursive-keeps p none w h = h
  add_directory_recursive-keeps p (some es) w h = visit-keeps (dir es) p w h

  pub remove_directory-keeps : (wd : ℤ) (w : Watcher) → P w.map → P (remove_directory wd w).map
  unfolding remove_directory
  remove_directory-keeps wd w h = keeps_remove wd w.map h

  pub remove_directories-keeps :
      (wds : List ℤ) (w : Watcher) → P w.map → P (remove_directories wds w).map
  unfolding remove_directories
  remove_directories-keeps [] w h = h
  remove_directories-keeps (wd ∷ wds) w h =
      remove_directories-keeps wds (remove_directory wd w) (remove_directory-keeps wd w h)

  pub remove_directory_recursive-keeps :
      (p : Text) (w : Watcher) → P w.map → P (remove_directory_recursive p w).map
  unfolding remove_directory_recursive
  remove_directory_recursive-keeps p w h =
      remove_directories-keeps _ _ (remove_directory-keeps (get_watch_descriptor p w.map) w h)

  do_indexing-keeps :
      (event : InotifyEvent) (queue : ℕ) (w : Watcher)
      → P w.map
      → KeepsMap (do_indexing event queue w)
  unfolding do_indexing put_on copied
  do_indexing-keeps event queue w h = index_base-keeps (get_pathname event.wd w.map)
    where
      index_base-keeps : (base : Option Text) → KeepsMap (index_base base event queue w)
      index_base-keeps none = h
      index_base-keeps (some base) =
          Holds-any (λ v. P v.map) (join_path base event.name) _ (join_path-Stops base event.name)
            (λ path.
              Holds-any (λ v. P v.map) (copied (length base + event.len + 2) path) _
                (if_rule Stops (ltb (length path) (length base + event.len + 2)) tt tt) (λ q. h))

  handle_create-keeps :
      (event : InotifyEvent) (w : Watcher) → P w.map → KeepsMap (handle_create watch event w)
  unfolding handle_create
  handle_create-keeps event w h =
      Holds-any (λ v. P v.map) (full_path (get_pathname event.wd w.map) event.name) _
        (full_path-Stops (get_pathname event.wd w.map) event.name)
        (λ p.
          Holds-bind (λ r. P r.1.map) (λ v. P v.map) (add_directory watch p w) _
            (add_directory-keeps p w h) (λ r l. l))

  handle_delete-keeps :
      (event : InotifyEvent) (w : Watcher) → P w.map → KeepsMap (handle_delete event w)
  unfolding handle_delete
  handle_delete-keeps event w h =
      Holds-any (λ v. P v.map) (full_path (get_pathname event.wd w.map) event.name) _
        (full_path-Stops (get_pathname event.wd w.map) event.name)
        (λ p.
          Holds-if (λ v. P v.map) (is_positive (get_watch_descriptor p w.map)) _ fatal
            (remove_directory-keeps (get_watch_descriptor p w.map) w h) tt)

  tracker_handle-keeps :
      (kind : Kind) (event : InotifyEvent) (w : Watcher)
      → P w.map
      → KeepsMap (tracker_handle watch kind event w)
  unfolding tracker_handle
  tracker_handle-keeps create event w h = handle_create-keeps event w h
  tracker_handle-keeps delete event w h = handle_delete-keeps event w h
  tracker_handle-keeps _ event w h = h

  indexer_handle-keeps :
      (kind : Kind) (event : InotifyEvent) (queue : ℕ) (w : Watcher)
      → P w.map
      → KeepsMap (indexer_handle kind event queue w)
  unfolding indexer_handle
  indexer_handle-keeps modify event queue w h = do_indexing-keeps event queue w h
  indexer_handle-keeps create event queue w h = do_indexing-keeps event queue w h
  indexer_handle-keeps delete event queue w h = do_indexing-keeps event queue w h
  indexer_handle-keeps _ event queue w h = h

  handle_event-keeps :
      (handler : Handler) (event : InotifyEvent) (w : Watcher)
      → P w.map
      → KeepsMap (handle_event watch handler event w)
  unfolding handle_event
  handle_event-keeps (tracker filters) event w h =
      Holds-if (λ v. P v.map) (every (λ f. do_filter f event) filters) _ (ok w)
        (tracker_handle-keeps (kind_of event.mask) event w h) h
  handle_event-keeps (indexer filters queue) event w h =
      Holds-if (λ v. P v.map) (every (λ f. do_filter f event) filters) _ (ok w)
        (indexer_handle-keeps (kind_of event.mask) event queue w h) h
  handle_event-keeps (logger filters) event w h = h

  pub handle_all-keeps :
      (hs : List Handler) (event : InotifyEvent) (w : Watcher)
      → P w.map
      → KeepsMap (handle_all watch hs event w)
  unfolding handle_all
  handle_all-keeps [] event w h = h
  handle_all-keeps (handler ∷ hs) event w h =
      Holds-bind (λ v. P v.map) (λ v. P v.map) (handle_event watch handler event w) _
        (handle_event-keeps handler event w h) (λ v k. handle_all-keeps hs event v k)
