-- ===== src/FileWatcher/Excludes.antt =====
-- filewatcher.cc: the names that `AddExcludeDirectory` and `RemoveExcludeDirectory` put and take.
use google_gtags.Prelude.{
  true, false, not, ◌||◌, List, [], ◌∷◌, Text, keep, some_of, text_eq, text_eq_iff, ◌≡◌, refl,
  arith, if◌then◌else◌, Bool-cases, inl, inr, subst,
}
use google_gtags.FileWatcher.{Watcher, exclude_name, is_excluded, add_exclude_directory}

pub is_excluded-keep :
    (q dir : Text) (l : List Text)
    → is_excluded q (keep (λ e. not (text_eq e dir)) l)
      ≡ (if text_eq dir q then false else is_excluded q l)
unfolding is_excluded keep some_of
is_excluded-keep q dir [] = ground arith
is_excluded-keep q dir (e ∷ l) =
    ground (arith, is_excluded-keep q dir l, text_eq_iff e dir, text_eq_iff e q, text_eq_iff dir q)

pub is_excluded-add :
    (q dir : Text) (w : Watcher)
    → is_excluded q (add_exclude_directory dir w).exclude_list
      ≡ (text_eq (exclude_name dir) q || is_excluded q w.exclude_list)
unfolding add_exclude_directory is_excluded some_of
is_excluded-add q dir w = elim (Bool-cases (is_excluded (exclude_name dir) w.exclude_list)) [
  | inl e ↦ rw e (elim (Bool-cases (text_eq (exclude_name dir) q)) [
    | inl s ↦ rw s (
        subst (λ t. is_excluded t w.exclude_list ≡ true) ((text_eq_iff (exclude_name dir) q).0 s) e)
    | inr s ↦ rw s refl
  ])
  | inr e ↦ rw e refl
]
