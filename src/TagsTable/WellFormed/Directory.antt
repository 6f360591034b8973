-- ===== src/TagsTable/WellFormed/Directory.antt =====
-- tagstable.cc: unloading the files of a directory leaves what is of all other files.
use google_gtags.Prelude.{
  Bool, true, false, not, ◌&&◌, ◌||◌, List, [], ◌∷◌, Text, ◌≡◌, refl, sym, ◌∙◌, ap, arith, every,
  every_mono, every_all, every-keep, keep, keep_cong, keep-every, keep-keep, some_of, same,
  Bool-cases, Option-cases, inl, inr, none, some, if_false,
}
use google_gtags.Prelude.Result.{ok}
use google_gtags.Filename.{Filename, str, eq_filename, basename}
use google_gtags.Filename.Order.{eq_filename_iff}
use google_gtags.Strutil.{has_prefix_string}
use google_gtags.TagsTable.{
  TagsTable, has_file, without_file, unload_file, unload_files, unload_files_in_dir,
}
use google_gtags.TagsTable.WellFormed.{IsWellFormed, has_file-every}
use google_gtags.TagsTable.WellFormed.Unloads.{
  unloaded, unload_file-unloaded, unloaded-IsWellFormed,
}

-- A path has a component behind which there is no slash.
unfoldable pub has_base : Filename → Bool
has_base f = elim (basename f) [ none ↦ false | some base ↦ true ]

-- A path is written with this in front.
unfoldable pub is_in_dir : Text → Filename → Bool
is_in_dir dirname f = has_prefix_string (str f) dirname

-- It is that of one of these files besides.
unfoldable is_of : Text → List Filename → Filename → Bool
is_of dirname fs f = is_in_dir dirname f && has_file f fs

-- The table is well-formed, and its loaded files have a last component.
record IsLoaded (t : TagsTable) : Type 0 where
  well_formed : IsWellFormed t
  based : every has_base t.loaded_files ≡ true

-- The tags and the loaded files are those of `t` that are not `gone`.
record IsWithout (gone : Filename → Bool) (t u : TagsTable) : Type 0 where
  keeps : IsLoaded u
  tags : u.tag_map ≡ keep (λ r. not (gone r.filename)) t.tag_map
  files : u.loaded_files ≡ keep (λ f. not (gone f)) t.loaded_files

nothing-IsWithout :
    (gone : Filename → Bool) (t : TagsTable)
    → IsLoaded t
    → every (λ f. not (gone f)) t.loaded_files ≡ true
    → IsWithout gone t t
nothing-IsWithout gone t w none_gone = record {
  keeps = w;
  tags = sym (
      keep-every (λ r. not (gone r.filename)) t.tag_map
        (every_mono {p = λ r. has_file r.filename t.loaded_files} {q = λ r. not (gone r.filename)}
          (λ r h. has_file-every (λ f. not (gone f)) r.filename t.loaded_files h none_gone)
          t.tag_map w.well_formed.loaded));
  files = sym (keep-every (λ f. not (gone f)) t.loaded_files none_gone);
}

-- The one and then the other.
then-IsWithout :
    (g h : Filename → Bool) (t u v : TagsTable)
    → IsWithout g t u
    → IsWithout h u v
    → IsWithout (λ f. g f || h f) t v
then-IsWithout g h t u v a b = record {
  keeps = b.keeps;
  tags =
      b.tags
      ∙ ap (keep (λ r. not (h r.filename))) a.tags
      ∙ keep-keep (λ r. not (h r.filename)) (λ r. not (g r.filename)) t.tag_map
      ∙ keep_cong (λ r. not (h r.filename) && not (g r.filename))
          (λ r. not (g r.filename || h r.filename)) t.tag_map
          (every_all (λ r. ground arith) t.tag_map);
  files =
      b.files
      ∙ ap (keep (λ f. not (h f))) a.files
      ∙ keep-keep (λ f. not (h f)) (λ f. not (g f)) t.loaded_files
      ∙ keep_cong (λ f. not (h f) && not (g f)) (λ f. not (g f || h f)) t.loaded_files
          (every_all (λ f. ground arith) t.loaded_files);
}

-- It is known of the loaded files which are gone.
IsWithout-cong :
    (g h : Filename → Bool) (t u : TagsTable)
    → every (λ f. same (g f) (h f)) t.loaded_files ≡ true
    → IsLoaded t
    → IsWithout g t u
    → IsWithout h t u
IsWithout-cong g h t u e w a = record {
  keeps = a.keeps;
  tags = a.tags ∙ keep_cong (λ r. not (g r.filename)) (λ r. not (h r.filename)) t.tag_map tags;
  files = a.files ∙ keep_cong (λ f. not (g f)) (λ f. not (h f)) t.loaded_files files;
}
  where
    files : every (λ f. same (not (g f)) (not (h f))) t.loaded_files ≡ true
    files =
        every_mono {p = λ f. same (g f) (h f)} {q = λ f. same (not (g f)) (not (h f))}
          (λ f k. ground arith) t.loaded_files e

    tags : every (λ r. same (not (g r.filename)) (not (h r.filename))) t.tag_map ≡ true
    tags =
        every_mono {p = λ r. has_file r.filename t.loaded_files}
          {q = λ r. same (not (g r.filename)) (not (h r.filename))}
          (λ r k.
            has_file-every (λ f. same (not (g f)) (not (h f))) r.filename t.loaded_files k files)
          t.tag_map w.well_formed.loaded

eq_filename_sym : (f g : Filename) → eq_filename f g ≡ eq_filename g f
eq_filename_sym f g = elim (Bool-cases (eq_filename f g)) [
  | inl e ↦ e ∙ sym ((eq_filename_iff g f).1 (sym ((eq_filename_iff f g).0 e)))
  | inr e ↦ elim (Bool-cases (eq_filename g f)) [
    | inr k ↦ e ∙ sym k
    | inl k ↦ (eq_filename_iff f g).1 (sym ((eq_filename_iff g f).0 k)) ∙ sym k
  ]
]

-- A file is as much below a directory as any equal one.
is_in_dir-cong :
    (dirname : Text) (f g : Filename)
    → eq_filename f g ≡ true
    → is_in_dir dirname g ≡ is_in_dir dirname f
is_in_dir-cong dirname f g h = ap (is_in_dir dirname) (sym ((eq_filename_iff f g).0 h))

prefixed :
    (dirname : Text) (f : Filename) {b : Bool}
    → is_in_dir dirname f ≡ b
    → has_prefix_string (str f) dirname ≡ b
unfolding is_in_dir
prefixed dirname f e = e

none_of :
    (f : Filename) (fs : List Filename)
    → has_file f fs ≡ false
    → every (λ g. not (eq_filename f g)) fs ≡ true
unfolding has_file some_of
none_of f [] h = refl
none_of f (g ∷ gs) h = ground (arith, none_of f gs, eq_filename_sym f g)

based-basename :
    (f : Filename) (t : TagsTable)
    → IsLoaded t
    → has_file f t.loaded_files ≡ true
    → (base : Text) × (basename f ≡ some base)
unfolding has_base
based-basename f t w h = elim (Option-cases (basename f)) [
  | inr e ↦ e
  | inl e ↦ absurd (ground (arith, has_file-every has_base f t.loaded_files h w.based))
]

-- One file.
unload_one :
    (f : Filename) (t : TagsTable)
    → IsLoaded t
    → (u : TagsTable) × (unload_file f t ≡ ok u) × IsWithout (eq_filename f) t u
unfolding unload_file
unload_one f t w = elim (Bool-cases (has_file f t.loaded_files)) [
  | inr e ↦ (t, if_false _ _ e, nothing-IsWithout (eq_filename f) t w (none_of f t.loaded_files e))
  | inl e ↦
      let (base, b) = based-basename f t w e in
      (
        unloaded f base t,
        unload_file-unloaded f base t w.well_formed e b,
        record {
          keeps = record {
            well_formed = unloaded-IsWellFormed f base t w.well_formed;
            based =
                every-keep {p = has_base} {q = λ g. not (eq_filename g f)} {r = has_base}
                  (λ g a k. a) t.loaded_files w.based;
          };
          tags =
              unfold without_file in
              keep_cong (λ r. not (eq_filename r.filename f)) (λ r. not (eq_filename f r.filename))
                t.tag_map (every_all (λ r. ground (arith, eq_filename_sym f r.filename)) t.tag_map);
          files =
              keep_cong (λ g. not (eq_filename g f)) (λ g. not (eq_filename f g)) t.loaded_files
                (every_all (λ g. ground (arith, eq_filename_sym f g)) t.loaded_files);
        },
      )
]

-- The loop, with these files left.
unload_all :
    (dirname : Text) (fs : List Filename) (t : TagsTable)
    → IsLoaded t
    → (u : TagsTable) × (unload_files dirname fs t ≡ ok u) × IsWithout (is_of dirname fs) t u
unfolding unload_files is_of has_file some_of
unload_all dirname [] t w = (
  t,
  refl,
  nothing-IsWithout (λ g. is_in_dir dirname g && false) t w
      (every_all {p = λ g. not (is_in_dir dirname g && false)} (λ g. ground arith) t.loaded_files),
)
unload_all dirname (f ∷ fs) t w = elim (Bool-cases (is_in_dir dirname f)) [
  | inl e ↦
      let (u, d, a) = unload_one f t w in
      let (v, c, b) = unload_all dirname fs u a.keeps in
      (
        v,
        rw (prefixed dirname f e) (rw d c),
        IsWithout-cong _ _ t v
            (every_all
              {p = λ g. same (eq_filename f g || is_of dirname fs g) (is_of dirname (f ∷ fs) g)}
              (λ g. ground (arith, e, is_in_dir-cong dirname f g)) t.loaded_files)
            w (then-IsWithout (eq_filename f) (is_of dirname fs) t u v a b),
      )
  | inr e ↦
      let (v, c, b) = unload_all dirname fs t w in
      (
        v,
        rw (prefixed dirname f e) c,
        IsWithout-cong _ _ t v
            (every_all {p = λ g. same (is_of dirname fs g) (is_of dirname (f ∷ fs) g)}
              (λ g. ground (arith, e, is_in_dir-cong dirname f g)) t.loaded_files)
            w b,
      )
]

-- In a well-formed table whose loaded files are all on record and have a last component, unloading the files
-- of a directory ends well, and leaves the tags of the files whose path does not begin with it, in
-- their order, and no others, and so the loaded files, and the table is well-formed.
pub unload_files_in_dir-keeps :
    (dirname : Text) (t : TagsTable)
    → IsWellFormed t
    → every has_base t.loaded_files ≡ true
    → every (λ f. has_file f t.fileset) t.loaded_files ≡ true
    → (u : TagsTable) × (unload_files_in_dir dirname t ≡ ok u)
      × (u.tag_map ≡ keep (λ r. not (is_in_dir dirname r.filename)) t.tag_map)
      × (u.loaded_files ≡ keep (λ f. not (is_in_dir dirname f)) t.loaded_files)
      × IsWellFormed u
unfolding unload_files_in_dir is_of
unload_files_in_dir-keeps dirname t w b r =
    let l : IsLoaded t = record { well_formed = w; based = b } in
    let (u, d, a) = unload_all dirname t.fileset t l in
    let k =
      IsWithout-cong (is_of dirname t.fileset) (is_in_dir dirname) t u
        (every_mono {p = λ f. has_file f t.fileset}
          {q = λ f. same (is_of dirname t.fileset f) (is_in_dir dirname f)} (λ f h. ground arith)
          t.loaded_files r)
        l a in
    (u, d, k.tags, k.files, k.keeps.well_formed)
