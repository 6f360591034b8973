-- ===== src/FileWatcher/Upkeep/Tracked.antt =====
-- filewatcher.cc: what holds of the map after any calls and events.
use google_gtags.Prelude.{
  ℕ, suc, true, false, List, [], ◌∷◌, ◌++◌, Text, Option, none, some, ◌≡◌, arith, text_eq_iff,
  Option-cases, inl, inr, if_rule,
}
use google_gtags.Prelude.Dict.{
  find, find-put, find-erase, text_key, int_key, IsUnique, put-IsUnique, erase-IsUnique,
}
use google_gtags.Prelude.Int.{ℤ}
use google_gtags.Prelude.Result.{Result, ok, ◌>>=◌, Holds, Holds-bind}
use google_gtags.WatchMap.{
  WatchMap, no_watches, add, remove, forget, get_pathname, get_watch_descriptor,
}
use google_gtags.WatchMap.Inverse.{IsSound, add-IsSound, remove-IsSound}
use google_gtags.EventFilter.{InotifyEvent}
use google_gtags.FileWatcher.{
  Watcher, new_watcher, Handler, is_positive, remove_directory, remove_directory_recursive,
  add_exclude_directory, remove_exclude_directory, is_excluded, exclude_name,
}
use google_gtags.FileWatcher.Directories.{Entries, add_directory_recursive}
use google_gtags.FileWatcher.Dispatch.{handle_all}
use google_gtags.FileWatcher.Upkeep.{
  add_directory_recursive-keeps, remove_directory-keeps, remove_directory_recursive-keeps,
  handle_all-keeps,
}

-- Every watch descriptor with a path is found by that path, every descriptor is positive, and no path
-- stands twice.
pub record IsTracked (m : WatchMap) : Type 0 where
  pub sound : IsSound m
  pub positive : (p : Text) (wd : ℤ) → find p m.pathname_to_wd ≡ some wd → is_positive wd ≡ true
  pub unique : IsUnique m.pathname_to_wd

pub no_watches-IsTracked : IsTracked no_watches
unfolding find
no_watches-IsTracked = record { sound = λ wd p h. cc; positive = λ p wd h. cc; unique = tt }

-- A path that is not watched is not in the map.
pub not_watched :
    (p : Text) (m : WatchMap)
    → IsTracked m
    → is_positive (get_watch_descriptor p m) ≡ false
    → find p m.pathname_to_wd ≡ none
unfolding get_watch_descriptor
not_watched p m t h = elim (Option-cases (find p m.pathname_to_wd)) [
  | inl e ↦ e
  | inr (wd, e) ↦ ground (arith, t.positive p wd e)
]

pub add-IsTracked :
    (p : Text) (wd : ℤ) (m : WatchMap)
    → is_positive wd ≡ true
    → IsTracked m
    → is_positive (get_watch_descriptor p m) ≡ false
    → IsTracked (add p wd m)
unfolding add
add-IsTracked p wd m positive t h = record {
  sound = add-IsSound p wd m t.sound (not_watched p m t h);
  positive =
      λ q v e. ground (arith, find-put q p wd m.pathname_to_wd, t.positive q v, text_eq_iff p q);
  unique = put-IsUnique p wd m.pathname_to_wd t.unique;
}

pub remove-IsTracked : (wd : ℤ) (m : WatchMap) → IsTracked m → IsTracked (remove wd m)
unfolding remove forget get_pathname
remove-IsTracked wd m t = elim (Option-cases (find wd m.wd_to_pathname)) [
  | inl e ↦ rw (e, forget) t
  | inr (p, e) ↦ record {
    sound = remove-IsSound wd m t.sound;
    positive =
        rw (e, forget) (λ q v h. ground (arith, find-erase q p m.pathname_to_wd, t.positive q v));
    unique = rw (e, forget) (erase-IsUnique p m.pathname_to_wd t.unique);
  }
]

-- What a program calls, and the events that arrive.
pub data Call : Type 0 where
  adds : Text → Option Entries → Call
  removes : ℤ → Call
  removes_recursively excludes includes : Text → Call
  arrives : InotifyEvent → Call
  adds_handler : Handler → Call

pub perform : (Text → ℤ) → Call → Watcher → Result Watcher
perform watch (adds p es) w = add_directory_recursive watch p es w
perform watch (removes wd) w = ok (remove_directory wd w)
perform watch (removes_recursively p) w = ok (remove_directory_recursive p w)
perform watch (excludes p) w = ok (add_exclude_directory p w)
perform watch (includes p) w = ok (remove_exclude_directory p w)
perform watch (arrives event) w = handle_all watch w.handlers event w
perform watch (adds_handler h) w = ok (record w { handlers = w.handlers ++ h ∷ [] })

-- Calls one behind the other; during the call with this number `inotify_add_watch` is this function.
pub perform_all : (ℕ → Text → ℤ) → ℕ → List Call → Watcher → Result Watcher
perform_all watch n [] w = ok w
perform_all watch n (c ∷ cs) w = perform (watch n) c w >>= perform_all watch (suc n) cs

pub perform-keeps :
    (watch : Text → ℤ) (P : WatchMap → Type 0)
    → ((p : Text) (m : WatchMap)
        → P m
        → is_positive (get_watch_descriptor p m) ≡ false
        → P (add p (watch p) m))
    → ((wd : ℤ) (m : WatchMap) → P m → P (remove wd m))
    → (c : Call) (w : Watcher) → P w.map
    → Holds (λ v. P v.map) (perform watch c w)
unfolding perform add_exclude_directory remove_exclude_directory
perform-keeps watch P a r (adds p es) w h = add_directory_recursive-keeps watch P a r p es w h
perform-keeps watch P a r (removes wd) w h = remove_directory-keeps watch P a r wd w h
perform-keeps watch P a r (removes_recursively p) w h =
    remove_directory_recursive-keeps watch P a r p w h
perform-keeps watch P a r (excludes p) w h =
    if_rule (λ (v : Watcher). P v.map) (is_excluded (exclude_name p) w.exclude_list) h h
perform-keeps watch P a r (includes p) w h = h
perform-keeps watch P a r (arrives event) w h = handle_all-keeps watch P a r w.handlers event w h
perform-keeps watch P a r (adds_handler handler) w h = h

perform_all-IsTracked_from :
    (watch : ℕ → Text → ℤ)
    → ((n : ℕ) (p : Text) → is_positive (watch n p) ≡ true)
    → (n : ℕ) (cs : List Call) (w : Watcher) → IsTracked w.map
    → Holds (λ v. IsTracked v.map) (perform_all watch n cs w)
unfolding perform_all
perform_all-IsTracked_from watch positive n [] w t = t
perform_all-IsTracked_from watch positive n (c ∷ cs) w t =
    Holds-bind (λ v. IsTracked v.map) (λ v. IsTracked v.map) (perform (watch n) c w) _
      (perform-keeps (watch n) IsTracked
        (λ p m u h. add-IsTracked p (watch n p) m (positive n p) u h) remove-IsTracked c w t)
      (λ v u. perform_all-IsTracked_from watch positive (suc n) cs v u)

-- Whatever is called and whatever events arrive, and whatever positive descriptors `inotify_add_watch`
-- gives, the same for two paths or not: where the calls return, every descriptor with a path is found by
-- that path, every descriptor is positive, and no path stands twice.
pub perform_all-IsTracked :
    (watch : ℕ → Text → ℤ) (cs : List Call)
    → ((n : ℕ) (p : Text) → is_positive (watch n p) ≡ true)
    → Holds (λ v. IsTracked v.map) (perform_all watch 0 cs new_watcher)
perform_all-IsTracked watch cs positive =
    perform_all-IsTracked_from watch positive 0 cs new_watcher no_watches-IsTracked
