-- ===== src/FileWatcher/Upkeep/Removed.antt =====
-- filewatcher.cc: what `RemoveDirectoryRecursive` leaves watched.
use google_gtags.Prelude.{
  Bool, true, false, List, [], ◌∷◌, map, Text, keep, some_of, Option, none, some, ◌≡◌, ◌≢◌, refl,
  sym, arith, text_eq, text_eq_iff, Bool-cases, Option-cases, inl, inr, if◌then◌else◌, ap, ◌∙◌,
}
use google_gtags.Prelude.Dict.{find, find-erase, text_key, int_key, IsUnique}
use google_gtags.Prelude.Int.{ℤ, pos, ◌=ℤ◌, =ℤ_iff}
use google_gtags.Strutil.{has_prefix_string}
use google_gtags.WatchMap.{
  WatchMap, remove, forget, get_pathname, get_watch_descriptor, or_zero,
  get_sub_dirs_watch_descriptor,
}
use google_gtags.WatchMap.Inverse.{IsInverse, remove-IsInverse}
use google_gtags.FileWatcher.{
  Watcher, is_positive, remove_directory, remove_directories, remove_directory_recursive,
}
use google_gtags.FileWatcher.Upkeep.Tracked.{IsTracked, remove-IsTracked}

-- A descriptor is lost, if it is one of these.
lose : List ℤ → Option ℤ → Option ℤ
lose wds none = none
lose wds (some wd) = if some_of (λ v. v =ℤ wd) wds then none else some wd

lose_other : (wd : ℤ) (o : Option ℤ) → o ≢ some wd → lose (wd ∷ []) o ≡ o
unfolding lose some_of
lose_other wd none h = refl
lose_other wd (some v) h = ground (arith, =ℤ_iff wd v)

lose_self : (wd : ℤ) (o : Option ℤ) → o ≡ some wd → lose (wd ∷ []) o ≡ none
unfolding lose some_of
lose_self wd none h = refl
lose_self wd (some v) h = ground (arith, =ℤ_iff wd v)

find-remove :
    (q : Text) (wd : ℤ) (m : WatchMap)
    → IsInverse m
    → find q (remove wd m).pathname_to_wd ≡ lose (wd ∷ []) (find q m.pathname_to_wd)
unfolding remove forget get_pathname
find-remove q wd m v = elim (Option-cases (find wd m.wd_to_pathname)) [
  | inl e ↦
      rw (e, forget) (sym (lose_other wd (find q m.pathname_to_wd) (λ f. cc (v.forward q wd f))))
  | inr (p, e) ↦ elim (Bool-cases (text_eq p q)) [
    | inl s ↦
        let at : find q m.pathname_to_wd ≡ some wd =
          v.backward wd q (e ∙ ap some ((text_eq_iff p q).0 s)) in
        rw (e, forget)
          (find-erase q p m.pathname_to_wd ∙ rw s (sym (lose_self wd (find q m.pathname_to_wd) at)))
    | inr d ↦
        rw (e, forget)
          (find-erase q p m.pathname_to_wd
            ∙ rw d (
                sym (
                  lose_other wd (find q m.pathname_to_wd)
                    (λ f. ground (arith, v.forward q wd f, text_eq_iff p q)))))
  ]
]

lose-cons : (wd : ℤ) (wds : List ℤ) (o : Option ℤ) → lose wds (lose (wd ∷ []) o) ≡ lose (wd ∷ wds) o
unfolding lose some_of
lose-cons wd wds none = refl
lose-cons wd wds (some v) = elim (Bool-cases (wd =ℤ v)) [
  | inl e ↦ rw (e, lose) refl
  | inr e ↦ rw (e, lose) refl
]

remove_directories-IsInverse :
    (wds : List ℤ) (w : Watcher) → IsInverse w.map → IsInverse (remove_directories wds w).map
unfolding remove_directories remove_directory
remove_directories-IsInverse [] w v = v
remove_directories-IsInverse (wd ∷ wds) w v =
    remove_directories-IsInverse wds (remove_directory wd w) (remove-IsInverse wd w.map v)

lose-nil : (o : Option ℤ) → lose [] o ≡ o
unfolding lose some_of
lose-nil none = refl
lose-nil (some wd) = refl

find-remove_directories :
    (q : Text) (wds : List ℤ) (w : Watcher)
    → IsInverse w.map
    → find q (remove_directories wds w).map.pathname_to_wd ≡ lose wds (find q w.map.pathname_to_wd)
unfolding remove_directories remove_directory
find-remove_directories q [] w v = sym (lose-nil (find q w.map.pathname_to_wd))
find-remove_directories q (wd ∷ wds) w v =
    find-remove_directories q wds (remove_directory wd w) (remove-IsInverse wd w.map v)
    ∙ rw (find-remove q wd w.map v) (lose-cons wd wds (find q w.map.pathname_to_wd))

-- The descriptors of the entries whose path passes a test.
descriptors : (Text → Bool) → List (Text × ℤ) → List ℤ
descriptors p m = map (λ e. e.1) (keep (λ e. p e.0) m)

descriptors_found :
    (p : Text → Bool) (q : Text) (wd : ℤ) (m : List (Text × ℤ))
    → p q ≡ true
    → find q m ≡ some wd
    → some_of (λ v. v =ℤ wd) (descriptors p m) ≡ true
unfolding descriptors keep find some_of
descriptors_found p q wd [] h f = cc
descriptors_found p q wd ((j, x) ∷ m) h f = elim (Bool-cases (text_eq j q)) [
  | inl e ↦
      let same : x ≡ wd = cc (rw e at f) in
      let passes : p j ≡ true = ap p ((text_eq_iff j q).0 e) ∙ h in
      rw passes (ground (arith, =ℤ_iff x wd))
  | inr d ↦ elim (Bool-cases (p j)) [
    | inl e ↦ rw e (ground (arith, descriptors_found p q wd m h (rw d at f)))
    | inr e ↦ rw e (descriptors_found p q wd m h (rw d at f))
  ]
]

descriptors_absent :
    (p : Text → Bool) (wd : ℤ) (m : List (Text × ℤ))
    → IsUnique m
    → ((q : Text) → p q ≡ true → find q m ≢ some wd)
    → some_of (λ v. v =ℤ wd) (descriptors p m) ≡ false
unfolding descriptors keep find some_of
descriptors_absent p wd [] u h = refl
descriptors_absent p wd ((j, x) ∷ m) u h =
    let rest = descriptors_absent p wd m u.1 (λ q e f. h q e (elim (Bool-cases (text_eq j q)) [
      | inl same ↦ cc (sym u.0 ∙ ap (λ t. find t m) ((text_eq_iff j q).0 same) ∙ f)
      | inr other ↦ rw other f
    ])) in
    elim (Bool-cases (p j)) [
      | inl e ↦ rw e (ground (arith, h j e, =ℤ_iff x wd, text_eq_iff j j, rest))
      | inr e ↦ rw e rest
    ]

has_prefix_string_self : (p : Text) → has_prefix_string p p ≡ true
unfolding has_prefix_string
has_prefix_string_self [] = refl
has_prefix_string_self (c ∷ cs) = ground (arith, has_prefix_string_self cs)

one_path :
    (q r : Text) (wd : ℤ) (m : WatchMap)
    → IsInverse m
    → find q m.pathname_to_wd ≡ some wd
    → find r m.pathname_to_wd ≡ some wd
    → q ≡ r
one_path q r wd m v f g = cc (v.forward q wd f, v.forward r wd g)

lose_sub_dirs :
    (q p : Text) (m : WatchMap)
    → IsInverse m
    → IsUnique m.pathname_to_wd
    → (o : Option ℤ) → find q m.pathname_to_wd ≡ o
    → lose (get_sub_dirs_watch_descriptor p m) o ≡ (if has_prefix_string q p then none else o)
unfolding lose get_sub_dirs_watch_descriptor descriptors
lose_sub_dirs q p m v u none f = elim (Bool-cases (has_prefix_string q p)) [
  | inl e ↦ rw e
  | inr e ↦ rw e
]
lose_sub_dirs q p m v u (some wd) f = elim (Bool-cases (has_prefix_string q p)) [
  | inl e ↦ rw (e, descriptors_found (λ t. has_prefix_string t p) q wd m.pathname_to_wd e f) refl
  | inr e ↦
      let other =
        descriptors_absent (λ t. has_prefix_string t p) wd m.pathname_to_wd u
          (λ r k g. cc (one_path q r wd m v f g, e, k)) in
      rw (e, other) refl
]

not_below :
    (q p : Text) (m : WatchMap)
    → IsTracked m
    → IsInverse m
    → has_prefix_string q p ≡ false
    → find q m.pathname_to_wd ≢ some (get_watch_descriptor p m)
unfolding get_watch_descriptor is_positive
not_below q p m t v h f = elim (Option-cases (find p m.pathname_to_wd)) [
  | inl e ↦ cc (t.positive q (pos 0) (f ∙ ap (λ o. some (or_zero o)) e))
  | inr (wd, e) ↦
      let same : q ≡ p = one_path q p wd m v (f ∙ ap (λ o. some (or_zero o)) e) e in
      cc (same, h, has_prefix_string_self p)
]

find-remove_directory_recursive :
    (q p : Text) (w : Watcher)
    → IsTracked w.map
    → IsInverse w.map
    → find q (remove_directory_recursive p w).map.pathname_to_wd
      ≡ (if has_prefix_string q p then none else find q w.map.pathname_to_wd)
unfolding remove_directory_recursive remove_directory
find-remove_directory_recursive q p w t v =
    let wd = get_watch_descriptor p w.map in
    let m = remove wd w.map in
    let inverse : IsInverse m = remove-IsInverse wd w.map v in
    let tracked : IsTracked m = remove-IsTracked wd w.map t in
    find-remove_directories q (get_sub_dirs_watch_descriptor p m) (remove_directory wd w) inverse
    ∙ lose_sub_dirs q p m inverse tracked.unique (find q m.pathname_to_wd) refl
    ∙ elim (Bool-cases (has_prefix_string q p)) [
      | inl e ↦ rw e
      | inr e ↦ rw e (
          find-remove q wd w.map v
          ∙ lose_other wd (find q w.map.pathname_to_wd) (not_below q p w.map t v e))
    ]

or_zero-if :
    (b : Bool) (o : Option ℤ) → or_zero (if b then none else o) ≡ (if b then pos 0 else or_zero o)
or_zero-if true o = refl
or_zero-if false o = refl

-- Where the map is its own inverse, every descriptor is positive and no path stands twice,
-- `RemoveDirectoryRecursive` removes every path that begins with the name, whether it lies below that
-- directory or not, and every other path keeps its descriptor.
pub get-remove_directory_recursive :
    (q p : Text) (w : Watcher)
    → IsTracked w.map
    → IsInverse w.map
    → get_watch_descriptor q (remove_directory_recursive p w).map
      ≡ (if has_prefix_string q p then pos 0 else get_watch_descriptor q w.map)
unfolding get_watch_descriptor
get-remove_directory_recursive q p w t v =
    ap or_zero (find-remove_directory_recursive q p w t v)
    ∙ or_zero-if (has_prefix_string q p) (find q w.map.pathname_to_wd)
