-- ===== src/TagsTable/WellFormed/Loads.antt =====
-- tagstable.cc: `ParseFileDeclaration` keeps the invariant of the table, tag by tag.
use google_gtags.Prelude.{
  Bool, true, false, not, ◌&&◌, ◌||◌, List, [], ◌∷◌, ◌++◌, ◌≡◌, refl, arith, every, every_mono,
  every_and, some_of, some_of-append, same, text_eq_iff, ltb, ◌∙◌,
}
use google_gtags.Filename.{Filename, eq_filename}
use google_gtags.TagsTable.{TagsResult, TagsTable, is_object, has_file, insert_file, insert_tag}
use google_gtags.TagsTable.Sorted.{is_sorted, every-insert_tag}
use google_gtags.TagsTable.Unload.{is_distinct, is_entry}
use google_gtags.TagsTable.WellFormed.{is_index, IsWellFormed, eq_filename_self}
use google_gtags.TagsTable.WellFormed.Inserts.{other_file}

-- While the tags of `f` are loaded: `before` are the other files that are loaded, and `tags` the
-- objects of `f` so far, which the index does not have yet.
pub record IsLoading (f : Filename) (before : List Filename) (tags : List TagsResult)
    (t : TagsTable) : Type 0 where
  pub order : is_sorted t.tag_map ≡ true
  pub distinct : is_distinct t.tag_map ≡ true
  pub fresh : every (λ x. ltb x.addr t.next_addr) t.tag_map ≡ true
  pub loaded : every (λ x. has_file x.filename t.loaded_files) t.tag_map ≡ true
  pub files : t.loaded_files ≡ f ∷ before
  pub absent : has_file f before ≡ false
  pub indexed : (not t.enable_fileindex || is_index t.next_addr t.tag_map before t.filemap) ≡ true
  pub entry : is_entry t.tag_map f tags ≡ true
  pub named : every (λ r. ltb r.addr t.next_addr) tags ≡ true

pub has_file-cons :
    (x f : Filename) (fs : List Filename) → has_file x fs ≡ true → has_file x (f ∷ fs) ≡ true
unfolding has_file some_of
has_file-cons x f fs h = ground arith

insert_file-absent :
    (f : Filename) (fs : List Filename) → has_file f fs ≡ false → insert_file f fs ≡ f ∷ fs
unfolding insert_file
insert_file-absent f fs h = rw h

-- Nothing is named before the first tag, and no entry is of a file that is not loaded.
entry-nil :
    (f : Filename) (fs : List Filename) (m : List TagsResult)
    → has_file f fs ≡ false
    → every (λ x. has_file x.filename fs) m ≡ true
    → is_entry m f [] ≡ true
unfolding is_entry some_of
entry-nil f fs m h =
    every_mono {p = λ x. has_file x.filename fs} {q = λ x. same false (eq_filename x.filename f)}
      (λ x k. ground (arith, other_file x.filename f fs k h)) m

pub IsLoading-start :
    (f : Filename) (t : TagsTable)
    → IsWellFormed t
    → has_file f t.loaded_files ≡ false
    → IsLoading f t.loaded_files [] (record t { loaded_files = insert_file f t.loaded_files })
IsLoading-start f t w h = record {
  order = w.order;
  distinct = w.distinct;
  fresh = w.fresh;
  loaded = rw (insert_file-absent f t.loaded_files h) (
      every_mono {p = λ x. has_file x.filename t.loaded_files}
        {q = λ x. has_file x.filename (f ∷ t.loaded_files)}
        (λ x k. has_file-cons x.filename f t.loaded_files k) t.tag_map w.loaded);
  files = insert_file-absent f t.loaded_files h;
  absent = h;
  indexed = w.indexed;
  entry = entry-nil f t.loaded_files t.tag_map h w.loaded;
  named = refl;
}

is_object_self : (r : TagsResult) → is_object r r ≡ true
unfolding is_object
is_object_self r = ground (arith, text_eq_iff r.tag r.tag)

is_object_other : (r x : TagsResult) → ltb x.addr r.addr ≡ true → is_object r x ≡ false
unfolding is_object
is_object_other r x h = ground arith

-- One more object joins the names of its file.
pub entry-insert_tag :
    (r : TagsResult) (m tags : List TagsResult)
    → every (λ x. ltb x.addr r.addr) m ≡ true
    → is_entry m r.filename tags ≡ true
    → is_entry (insert_tag r m) r.filename (tags ++ r ∷ []) ≡ true
unfolding is_entry
entry-insert_tag r m tags h k =
    let p : TagsResult → Bool = λ x.
      same (some_of (λ s. is_object s x) (tags ++ r ∷ [])) (eq_filename x.filename r.filename) in
    let old : TagsResult → Bool =
      λ x. same (some_of (λ s. is_object s x) tags) (eq_filename x.filename r.filename) in
    every-insert_tag p r m
    ∙ ground (
      arith,
      new,
      every_mono {p = λ x. ltb x.addr r.addr && old x} {q = p}
          (λ x e. kept x (ground arith) (ground arith)) m
          (every_and (λ x. ltb x.addr r.addr) old m h k),
    )
  where
    new :
        same (some_of (λ s. is_object s r) (tags ++ r ∷ [])) (eq_filename r.filename r.filename)
        ≡ true
    new =
        rw (some_of-append (λ s. is_object s r) tags (r ∷ []))
          (unfold some_of in ground (arith, is_object_self r, eq_filename_self r.filename))

    kept :
        (x : TagsResult)
        → ltb x.addr r.addr ≡ true
        → same (some_of (λ s. is_object s x) tags) (eq_filename x.filename r.filename) ≡ true
        → same (some_of (λ s. is_object s x) (tags ++ r ∷ [])) (eq_filename x.filename r.filename)
          ≡ true
    kept x a b =
        rw (some_of-append (λ s. is_object s x) tags (r ∷ []))
          (unfold some_of in ground (arith, is_object_other r x a))
