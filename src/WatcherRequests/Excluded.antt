-- ===== src/WatcherRequests/Excluded.antt =====
-- filewatcherrequesthandler.cc: what the worker leaves of the watcher's excludes behind a request.
use google_gtags.Prelude.{
  Bool, true, false, not, ◌&&◌, ◌||◌, List, [], ◌∷◌, ◌++◌, Text, some_of, text_eq, Option, none,
  some, ◌≡◌, refl, sym, ap, ◌∙◌, arith, if◌then◌else◌, if_rule,
}
use google_gtags.Prelude.Int.{ℤ, pos, negsuc}
use google_gtags.Prelude.Result.{
  Result, ok, bind_cong, bind_assoc, ◌>>=◌, Holds, Holds-bind, Holds-any, Holds-if, Holds-mono,
}
use google_gtags.WatchMap.{join_path, get_watch_descriptor}
use google_gtags.TagsTable.WellFormed.{IsWellFormed}
use google_gtags.TagsTable.WellFormed.Loading.{unload_files_in_dir-IsWellFormed}
use google_gtags.FileWatcher.{
  Watcher, exclude_name, is_excluded, remove_exclude_directory, is_positive, remove_directory,
  remove_directories, remove_directory_recursive,
}
use google_gtags.FileWatcher.Directories.{
  Node, file, skipped, closed, dir, Entries, end, entry, passes_over, watch_added, add_directory,
  visit, scan, add_directory_recursive,
}
use google_gtags.FileWatcher.Walk.{import_to-imports_of}
use google_gtags.FileWatcher.Upkeep.{join_path-Stops}
use google_gtags.FileWatcher.Excludes.{is_excluded-keep, is_excluded-add}
use google_gtags.RequestHandler.Server.{unload_local}
use google_gtags.WatcherRequests.{exclude, remove_exclude, Commands, Worker, run_code, run_commands}
use google_gtags.WatcherRequests.Pushed.{commands, action_code, request_commands}

-- The calls that only walk the directories leave the excludes.
module _ (l : List Text) where
  abbrev Keeps : Result Watcher → Type 0
  Keeps = Holds (λ v. v.exclude_list ≡ l)

  watch_added-exclude_list :
      (p : Text) (wd : ℤ) (w : Watcher)
      → w.exclude_list ≡ l
      → Holds (λ r. r.1.exclude_list ≡ l) (watch_added p wd w)
  unfolding watch_added
  watch_added-exclude_list p (pos n) w h = h
  watch_added-exclude_list p (negsuc n) w h = tt

  add_directory-exclude_list :
      (watch : Text → ℤ) (p : Text) (w : Watcher)
      → w.exclude_list ≡ l
      → Holds (λ r. r.1.exclude_list ≡ l) (add_directory watch p w)
  unfolding add_directory
  add_directory-exclude_list watch p w h =
      if_rule (Holds (λ r. r.1.exclude_list ≡ l)) (is_positive (get_watch_descriptor p w.map)) h
        (watch_added-exclude_list p (watch p) (record w { added = w.added ++ p ∷ [] }) h)

  mutual
    unfolding visit scan

    visit-exclude_list :
        (watch : Text → ℤ) (node : Node) (p : Text) (w : Watcher)
        → w.exclude_list ≡ l
        → Keeps (visit watch node p w)
    visit-exclude_list watch file p w h =
        ap (λ v. v.exclude_list) (import_to-imports_of w.handlers p w) ∙ h
    visit-exclude_list watch skipped p w h = h
    visit-exclude_list watch closed p w h = h
    visit-exclude_list watch (dir es) p w h =
        Holds-bind (λ v. v.exclude_list ≡ l) (λ v. v.exclude_list ≡ l) (scan watch es p w) _
          (scan-exclude_list watch es p w h)
          (λ v k.
            Holds-bind (λ r. r.1.exclude_list ≡ l) (λ v. v.exclude_list ≡ l)
              (add_directory watch p v) _ (add_directory-exclude_list watch p v k) (λ r m. m))

    scan-exclude_list :
        (watch : Text → ℤ) (es : Entries) (p : Text) (w : Watcher)
        → w.exclude_list ≡ l
        → Keeps (scan watch es p w)
    scan-exclude_list watch end p w h = h
    scan-exclude_list watch (entry name node rest) p w h =
        Holds-bind (λ v. v.exclude_list ≡ l) (λ v. v.exclude_list ≡ l) _ (scan watch rest p)
          (Holds-if (λ v. v.exclude_list ≡ l) (passes_over name w.exclude_list) (ok w) _ h
            (Holds-any (λ v. v.exclude_list ≡ l) (join_path p name) _ (join_path-Stops p name)
              (λ path. visit-exclude_list watch node path w h)))
          (λ v k. scan-exclude_list watch rest p v k)

add_directory_recursive-exclude_list :
    (watch : Text → ℤ) (p : Text) (es : Option Entries) (w : Watcher)
    → Holds (λ v. v.exclude_list ≡ w.exclude_list) (add_directory_recursive watch p es w)
unfolding add_directory_recursive
add_directory_recursive-exclude_list watch p none w = refl
add_directory_recursive-exclude_list watch p (some es) w =
    visit-exclude_list w.exclude_list watch (dir es) p w refl

remove_directories-exclude_list :
    (wds : List ℤ) (w : Watcher) → (remove_directories wds w).exclude_list ≡ w.exclude_list
unfolding remove_directories remove_directory
remove_directories-exclude_list [] w = refl
remove_directories-exclude_list (wd ∷ wds) w =
    remove_directories-exclude_list wds (remove_directory wd w)

remove_directory_recursive-exclude_list :
    (p : Text) (w : Watcher) → (remove_directory_recursive p w).exclude_list ≡ w.exclude_list
unfolding remove_directory_recursive remove_directory
remove_directory_recursive-exclude_list p w = remove_directories-exclude_list _ _

-- One of the names is excluded under this one.
unfoldable pub is_named : Text → List Text → Bool
is_named q = some_of (λ e. text_eq (exclude_name e) q)

-- The tables are well-formed, and these names are excluded.
pub record IsAt (f : Text → Bool) (w : Worker) : Type 0 where
  pub definitions : IsWellFormed w.definitions
  pub callgraph : IsWellFormed w.callgraph
  pub excluded : (q : Text) → is_excluded q w.watcher.exclude_list ≡ f q

IsAt-cong : {f g : Text → Bool} → ((q : Text) → f q ≡ g q) → (w : Worker) → IsAt f w → IsAt g w
IsAt-cong e w h = record {
  definitions = h.definitions;
  callgraph = h.callgraph;
  excluded = λ q. h.excluded q ∙ e q;
}

module _ (watch : Text → ℤ) (opened : Text → Option Entries) where
  abbrev run : Commands → Worker → Result Worker
  run = run_commands watch opened

  run-append : (a b : Commands) (w : Worker) → run (a ++ b) w ≡ (run a w >>= run b)
  unfolding run_commands
  run-append [] b w = refl
  run-append (c ∷ a) b w =
      bind_cong (run_code watch opened c.code c.directory w) _ _ (λ v. run-append a b v)
      ∙ sym (bind_assoc (run_code watch opened c.code c.directory w) (run a) (run b))

  run-exclude :
      (xs : List Text) (f : Text → Bool) (w : Worker)
      → IsAt f w
      → Holds (IsAt (λ q. is_named q xs || f q)) (run (commands exclude xs) w)
  unfolding run_commands run_code is_named some_of
  run-exclude [] f w h = h
  run-exclude (x ∷ xs) f w h = Holds-mono _ _ (IsAt-cong (λ q. ground arith)) _ (
      run-exclude xs (λ q. text_eq (exclude_name x) q || f q) _
        (record {
          definitions = h.definitions;
          callgraph = h.callgraph;
          excluded = λ q. is_excluded-add q x w.watcher ∙ rw (h.excluded q) refl;
        }))

  run-remove_exclude :
      (xs : List Text) (f : Text → Bool) (w : Worker)
      → IsAt f w
      → Holds (IsAt (λ q. not (is_named q xs) && f q)) (run (commands remove_exclude xs) w)
  unfolding run_commands run_code is_named some_of remove_exclude_directory
  run-remove_exclude [] f w h = h
  run-remove_exclude (x ∷ xs) f w h = Holds-mono _ _ (IsAt-cong (λ q. ground arith)) _ (
      run-remove_exclude xs (λ q. if text_eq (exclude_name x) q then false else f q) _
        (record {
          definitions = h.definitions;
          callgraph = h.callgraph;
          excluded = λ q.
              is_excluded-keep q (exclude_name x) w.watcher.exclude_list ∙ rw (h.excluded q) refl;
        }))

  run_code-directories :
      (adding : Bool) (x : Text) (f : Text → Bool) (w : Worker)
      → IsAt f w
      → Holds (IsAt f) (run_code watch opened (action_code adding) x w)
  unfolding run_code unload_local
  run_code-directories true x f w h =
      Holds-bind (λ v. v.exclude_list ≡ w.watcher.exclude_list) (IsAt f)
        (add_directory_recursive watch x (opened x) w.watcher) _
        (add_directory_recursive-exclude_list watch x (opened x) w.watcher)
        (λ v e. record {
          definitions = h.definitions;
          callgraph = h.callgraph;
          excluded = λ q. ap (is_excluded q) e ∙ h.excluded q;
        })
  run_code-directories false x f w h =
      Holds-bind IsWellFormed (IsAt f) (unload_local x w.definitions) _
        (unload_files_in_dir-IsWellFormed x w.definitions h.definitions)
        (λ d wd.
          Holds-bind IsWellFormed (IsAt f) (unload_local x w.callgraph) _
            (unload_files_in_dir-IsWellFormed x w.callgraph h.callgraph)
            (λ c wc. record {
              definitions = wd;
              callgraph = wc;
              excluded = λ q.
                  ap (is_excluded q) (remove_directory_recursive-exclude_list x w.watcher)
                  ∙ h.excluded q;
            }))

  run-directories :
      (adding : Bool) (xs : List Text) (f : Text → Bool) (w : Worker)
      → IsAt f w
      → Holds (IsAt f) (run (commands (action_code adding) xs) w)
  unfolding run_commands
  run-directories adding [] f w h = h
  run-directories adding (x ∷ xs) f w h =
      Holds-bind (IsAt f) (IsAt f) (run_code watch opened (action_code adding) x w) _
        (run_code-directories adding x f w h) (λ v k. run-directories adding xs f v k)

  -- The worker that has run the commands of a request, on well-formed tables, whatever the directories hold
  -- and the system gives, has not stopped for want of fuel, and if it goes on, the tables are well-formed,
  -- and the names of the request are excluded no more, those that were excluded before among them, while
  -- every other name is excluded if it was before.
  pub request_excludes :
      (adding : Bool) (dirs excludes : List Text) (w : Worker)
      → IsWellFormed w.definitions
      → IsWellFormed w.callgraph
      → Holds
          (IsAt (λ q. not (is_named q excludes) && is_excluded q w.watcher.exclude_list))
          (run (request_commands (action_code adding) dirs excludes) w)
  request_excludes adding dirs excludes w d c = rw (run-append (commands exclude excludes)) (
      Holds-bind _ _ (run (commands exclude excludes) w) _
        (run-exclude excludes (λ q. is_excluded q w.watcher.exclude_list) w
          (record { definitions = d; callgraph = c; excluded = λ q. refl }))
        (λ v h. rw (run-append (commands (action_code adding) dirs)) (
          Holds-bind _ _ (run (commands (action_code adding) dirs) v) _
            (run-directories adding dirs _ v h)
            (λ u k.
              Holds-mono _ _ (IsAt-cong (λ q. ground arith)) _
                (run-remove_exclude excludes _ u k)))))
