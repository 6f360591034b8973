-- ===== src/FileWatcher/Walk/Watched.antt =====
-- filewatcher.cc: what a walk leaves in the map of the watcher and on the queues.
use google_gtags.Prelude.{
  ℕ, ◌+◌, Bool, true, false, List, [], ◌∷◌, ◌++◌, append_assoc, append-nil, Text, length, some_of,
  text_eq, text_eq_iff, some, ◌≡◌, ◌≢◌, refl, sym, ap, subst, arith, ltb, if◌then◌else◌, Bool-cases,
  inl, inr, ◌∙◌, if_true, if_false,
}
use google_gtags.Prelude.Dict.{find-put, text_key, int_key}
use google_gtags.Prelude.Int.{ℤ, pos, negsuc}
use google_gtags.Prelude.Result.{Result, ok, ◌>>=◌}
use google_gtags.WatchMap.{WatchMap, add, get_watch_descriptor, max_path_length}
use google_gtags.FileWatcher.{Watcher, is_positive, import_to}
use google_gtags.FileWatcher.Directories.{
  Node, file, skipped, closed, dir, Entries, end, entry, passes_over, watch_added, add_directory,
  visit, scan, add_directory_recursive,
}
use google_gtags.FileWatcher.Walk.{
  child, join_path-child, child-ne-nil, directories, directories_in, files, files_in, is_short,
  are_short, imports, imports_of, imports-append, import_to-imports_of, watch_one, watch_all,
  watch_all-append,
}

module _ (watch : Text → ℤ) where
  -- What a walk over these directories and files changes.
  record IsWalked (ds fs : List Text) (w v : Watcher) : Type 0 where
    map_eq : v.map ≡ watch_all watch ds w.map
    puts_eq : v.puts ≡ w.puts ++ imports w.handlers fs
    handlers_eq : v.handlers ≡ w.handlers
    exclude_eq : v.exclude_list ≡ w.exclude_list
    removed_eq : v.removed ≡ w.removed

  IsWalked-nil : (w : Watcher) → IsWalked [] [] w w
  unfolding watch_all imports
  IsWalked-nil w = record {
    map_eq = refl;
    puts_eq = sym (append-nil w.puts);
    handlers_eq = refl;
    exclude_eq = refl;
    removed_eq = refl;
  }

  IsWalked-append :
      (ds es fs gs : List Text) (w v u : Watcher)
      → IsWalked ds fs w v
      → IsWalked es gs v u
      → IsWalked (ds ++ es) (fs ++ gs) w u
  IsWalked-append ds es fs gs w v u a b = record {
    map_eq = b.map_eq ∙ ap (watch_all watch es) a.map_eq ∙ sym (watch_all-append watch ds es w.map);
    puts_eq =
        b.puts_eq
        ∙ rw (a.puts_eq, a.handlers_eq, imports-append w.handlers fs gs)
            (append_assoc w.puts (imports w.handlers fs) (imports w.handlers gs));
    handlers_eq = b.handlers_eq ∙ a.handlers_eq;
    exclude_eq = b.exclude_eq ∙ a.exclude_eq;
    removed_eq = b.removed_eq ∙ a.removed_eq;
  }

  IsWalked-file :
      (path : Text) (w : Watcher) → IsWalked [] (path ∷ []) w (import_to w.handlers path w)
  unfolding watch_all imports
  IsWalked-file path w = rw (import_to-imports_of w.handlers path w) (record {
    map_eq = refl;
    puts_eq = ap (◌++◌ w.puts) (sym (append-nil (imports_of w.handlers path)));
    handlers_eq = refl;
    exclude_eq = refl;
    removed_eq = refl;
  })

  is_positive-pos : (wd : ℤ) → is_positive wd ≡ true → (n : ℕ) × (wd ≡ pos n)
  unfolding is_positive
  is_positive-pos (pos n) h = (n, refl)
  is_positive-pos (negsuc n) h = cc

  module _ (positive : (p : Text) → is_positive (watch p) ≡ true) where
    add_directory-IsWalked :
        (path : Text) (w : Watcher)
        → (v : Watcher) × (wd : ℤ) × (add_directory watch path w ≡ ok (wd, v))
          × IsWalked (path ∷ []) [] w v
    unfolding add_directory watch_added watch_all watch_one imports
    add_directory-IsWalked path w =
        elim (Bool-cases (is_positive (get_watch_descriptor path w.map))) [
          | inl e ↦ (
            w,
            get_watch_descriptor path w.map,
            if_true _ _ e,
            record {
              map_eq = sym (if_true w.map (add path (watch path) w.map) e);
              puts_eq = sym (append-nil w.puts);
              handlers_eq = refl;
              exclude_eq = refl;
              removed_eq = refl;
            },
          )
          | inr e ↦
              let (n, p) = is_positive-pos (watch path) (positive path) in
              let v = record w {
                added = w.added ++ path ∷ [];
                map = add path (watch path) w.map;
              } in
              (
                v,
                pos n,
                if_false _ _ e ∙ rw (p, watch_added) refl,
                record {
                  map_eq = sym (if_false w.map (add path (watch path) w.map) e);
                  puts_eq = sym (append-nil w.puts);
                  handlers_eq = refl;
                  exclude_eq = refl;
                  removed_eq = refl;
                },
              )
        ]

    -- A call returns, and does what the walk is to do.
    Walks : List Text → List Text → Watcher → Result Watcher → Type 0
    Walks ds fs w r = (v : Watcher) × (r ≡ ok v) × IsWalked ds fs w v

    -- What is passed over is nothing, and what is joined to a short path is visited.
    Walks-if :
        (b c : Bool) (ds fs : List Text) (w : Watcher) (r : Result Watcher)
        → c ≡ b
        → (b ≡ false → Walks ds fs w r)
        → Walks (if b then [] else ds) (if b then [] else fs) w (if c then ok w else r)
    unfolding Walks
    Walks-if true true ds fs w r e h = (w, refl, IsWalked-nil w)
    Walks-if false false ds fs w r e h = h refl
    Walks-if true false ds fs w r e h = cc
    Walks-if false true ds fs w r e h = cc

    Walks-bind :
        (ds es fs gs : List Text) (w : Watcher) (r : Result Watcher) (k : Watcher → Result Watcher)
        → Walks ds fs w r
        → ((v : Watcher) → v.exclude_list ≡ w.exclude_list → Walks es gs v (k v))
        → Walks (ds ++ es) (fs ++ gs) w (r >>= k)
    unfolding Walks
    Walks-bind ds es fs gs w r k (v, e, a) h =
        let (u, f, b) = h v a.exclude_eq in (u, rw e f, IsWalked-append ds es fs gs w v u a b)

    add_directory-Walks :
        (path : Text) (w : Watcher)
        → Walks (path ∷ []) [] w (add_directory watch path w >>= λ r. ok r.1)
    unfolding Walks
    add_directory-Walks path w = let (v, wd, e, a) = add_directory-IsWalked path w in (v, rw e, a)

    module _ (ex : List Text) where
      mutual
        unfolding visit scan directories files is_short Walks

        visit-Walks :
            (node : Node) (path : Text) (w : Watcher)
            → path ≢ []
            → w.exclude_list ≡ ex
            → is_short ex node path ≡ true
            → Walks (directories ex node path) (files ex node path) w (visit watch node path w)
        visit-Walks file path w n e h = (import_to w.handlers path w, refl, IsWalked-file path w)
        visit-Walks skipped path w n e h = (w, refl, IsWalked-nil w)
        visit-Walks closed path w n e h = (w, refl, IsWalked-nil w)
        visit-Walks (dir es) path w n e h =
            subst
              (λ fs.
                Walks (directories_in ex es path ++ path ∷ []) fs w (visit watch (dir es) path w))
              (append-nil (files_in ex es path))
              (Walks-bind (directories_in ex es path) (path ∷ []) (files_in ex es path) [] w
                (scan watch es path w) _ (scan-Walks es path w n e h)
                (λ v same. add_directory-Walks path v))

        scan-Walks :
            (es : Entries) (path : Text) (w : Watcher)
            → path ≢ []
            → w.exclude_list ≡ ex
            → are_short ex es path ≡ true
            → Walks (directories_in ex es path) (files_in ex es path) w (scan watch es path w)
        scan-Walks end path w n e h = (w, refl, IsWalked-nil w)
        scan-Walks (entry name node rest) path w n e h =
            Walks-bind _ (directories_in ex rest path) _ (files_in ex rest path) w _ _
              (Walks-if (passes_over name ex) (passes_over name w.exclude_list) _ _ w _
                (ap (passes_over name) e)
                (λ kept.
                  let short : ltb (length path + 1 + length name) max_path_length ≡ true =
                    ground arith in
                  rw (join_path-child path name n short) (
                    visit-Walks node (child path name) w (child-ne-nil path name n) e
                      (ground arith))))
              (λ v same. scan-Walks rest path v n (same ∙ e) (ground arith))

    get-watch_one :
        (q p : Text) (m : WatchMap)
        → get_watch_descriptor q (watch_one watch p m) ≡ (
            if is_positive (get_watch_descriptor q m)
            then get_watch_descriptor q m
            else if text_eq p q
            then watch q
            else get_watch_descriptor q m)
    unfolding watch_one get_watch_descriptor add
    get-watch_one q p m = ground (
      arith,
      find-put q p (watch p) m.pathname_to_wd,
      text_eq_iff p q,
      ap (λ t. get_watch_descriptor t m) ((text_eq_iff p q).0 _),
    )

    get-watch_all :
        (q : Text) (ds : List Text) (m : WatchMap)
        → get_watch_descriptor q (watch_all watch ds m) ≡ (
            if is_positive (get_watch_descriptor q m)
            then get_watch_descriptor q m
            else if some_of (λ d. text_eq d q) ds
            then watch q
            else get_watch_descriptor q m)
    unfolding watch_all some_of
    get-watch_all q [] m = ground arith
    get-watch_all q (p ∷ ps) m =
        get-watch_all q ps (watch_one watch p m) ∙ ground (arith, get-watch_one q p m, positive q)

-- Where every path to join is short enough, the name is not empty, and `inotify_add_watch` gives each path
-- a positive descriptor, `AddDirectoryRecursive` returns. Then a path has the descriptor that it had; or
-- else, if it is one of the directories below this one that the names do not exclude, or this one, that
-- of inotify. Every file below that the names do not exclude is put on the queue of each index handler whose
-- filters let it through, in the order of the listing. Nothing stops being watched, and the handlers and the
-- exclude list stay.
pub add_directory_recursive_walks :
    (watch : Text → ℤ) (es : Entries) (path : Text) (w : Watcher)
    → ((p : Text) → is_positive (watch p) ≡ true)
    → path ≢ []
    → is_short w.exclude_list (dir es) path ≡ true
    → (v : Watcher) × (add_directory_recursive watch path (some es) w ≡ ok v)
      × ((q : Text)
          → get_watch_descriptor q v.map ≡ (
              if is_positive (get_watch_descriptor q w.map)
              then get_watch_descriptor q w.map
              else if some_of (λ d. text_eq d q) (directories w.exclude_list (dir es) path)
              then watch q
              else get_watch_descriptor q w.map))
      × (v.puts ≡ w.puts ++ imports w.handlers (files w.exclude_list (dir es) path))
      × (v.handlers ≡ w.handlers)
      × (v.exclude_list ≡ w.exclude_list)
      × (v.removed ≡ w.removed)
unfolding add_directory_recursive Walks
add_directory_recursive_walks watch es path w positive n h =
    let (v, e, a) = visit-Walks watch positive w.exclude_list (dir es) path w n refl h in
    (
      v,
      e,
      λ q.
          rw a.map_eq
            (get-watch_all watch positive q (directories w.exclude_list (dir es) path) w.map),
      a.puts_eq,
      a.handlers_eq,
      a.exclude_eq,
      a.removed_eq,
    )
