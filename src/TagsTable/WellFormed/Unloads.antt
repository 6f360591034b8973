-- ===== src/TagsTable/WellFormed/Unloads.antt =====
-- tagstable.cc: unloading a file does what its description says, and keeps the invariant.
use google_gtags.Prelude.{
  ℕ, Bool, true, false, not, List, same, Text, ◌≡◌, refl, sym, arith, every, every-keep, some_of,
  ltb, Bool-cases, Option-cases, inl, inr, if◌then◌else◌, if_true, if_false, ◌∙◌, ap, some,
}
use google_gtags.Prelude.Result.{ok}
use google_gtags.Filename.{Filename, eq_filename, basename}
use google_gtags.TagsTable.{
  TagsResult, TagsTable, is_object, has_file, find_file_entry, without_file, without_entry,
  without_found, unload_tags, unload_file,
}
use google_gtags.TagsTable.Sorted.{keep-is_sorted}
use google_gtags.TagsTable.Unload.{
  is_distinct, keep-is_distinct, is_entry, erase_results-without_file,
}
use google_gtags.TagsTable.WellFormed.{
  has_entry, is_live, is_index, IsWellFormed, has_file-every, without_loaded, has_file-without,
  find_file_entry-without,
}

-- The table without what belongs to the file: the description of `UnloadFile`.
abbrev pub unloaded : Filename → Text → TagsTable → TagsTable
unloaded f base t = record t {
  tag_map = without_file f t.tag_map;
  filemap = if t.enable_fileindex then without_entry f t.filemap else t.filemap;
  findfilemap = without_found base f t.findfilemap;
  loaded_files = without_loaded f t.loaded_files;
}

entry_of :
    (f : Filename) (t : TagsTable)
    → IsWellFormed t
    → t.enable_fileindex ≡ true
    → has_file f t.loaded_files ≡ true
    → has_entry t.tag_map t.filemap f ≡ true
entry_of f t w i l =
    let all : is_index t.next_addr t.tag_map t.loaded_files t.filemap ≡ true =
      ground (arith, w.indexed) in
    has_file-every (has_entry t.tag_map t.filemap) f t.loaded_files l
      (unfold is_index in ground arith)

-- With the index and without it, the multimap loses the entries of the file.
unload_tags-without :
    (f : Filename) (t : TagsTable)
    → is_distinct t.tag_map ≡ true
    → (t.enable_fileindex ≡ true → has_entry t.tag_map t.filemap f ≡ true)
    → unload_tags f t
      ≡ ok (record t {
        tag_map = without_file f t.tag_map;
        filemap = if t.enable_fileindex then without_entry f t.filemap else t.filemap;
      })
unfolding unload_tags
unload_tags-without f t d h = elim (Bool-cases t.enable_fileindex) [
  | inr i ↦
      if_false _ _ i
      ∙ ap (λ fm. ok (record t { tag_map = without_file f t.tag_map; filemap = fm }))
          (sym (if_false (without_entry f t.filemap) t.filemap i))
  | inl i ↦ elim (Option-cases (find_file_entry f t.filemap)) [
    | inl e ↦ absurd (unfold has_entry in ground (arith, h i))
    | inr (rs, e) ↦
        let erased =
          erase_results-without_file t.tag_map rs f d (unfold has_entry in ground (arith, h i)) in
        if_true _ _ i
        ∙ rw (e, erased) refl
        ∙ ap (λ fm. ok (record t { tag_map = without_file f t.tag_map; filemap = fm }))
            (sym (if_true (without_entry f t.filemap) t.filemap i))
  ]
]

-- In a well-formed table, unloading a file that is loaded, and whose path has a component, ends well
-- and leaves the table without the tags, the index entry and the names of that file, and with all
-- others in their order, whether the index of files is there or the multimap is scanned.
pub unload_file-unloaded :
    (f : Filename) (base : Text) (t : TagsTable)
    → IsWellFormed t
    → has_file f t.loaded_files ≡ true
    → basename f ≡ some base
    → unload_file f t ≡ ok (unloaded f base t)
unfolding unload_file
unload_file-unloaded f base t w l b = rw (
  l,
  b,
  unload_tags-without f (record t { findfilemap = without_found base f t.findfilemap }) w.distinct
      (λ i. entry_of f t w i l),
)

loaded_without :
    (f : Filename) (t : TagsTable)
    → IsWellFormed t
    → every (λ x. has_file x.filename (without_loaded f t.loaded_files)) (without_file f t.tag_map)
      ≡ true
unfolding without_file
loaded_without f t w =
    every-keep {p = λ x. has_file x.filename t.loaded_files}
      {q = λ x. not (eq_filename x.filename f)}
      {r = λ x. has_file x.filename (without_loaded f t.loaded_files)}
      (λ x h k. ground (arith, has_file-without x.filename f t.loaded_files)) t.tag_map w.loaded

-- The entry of another file is left, and still names its objects.
has_entry-without :
    (f g : Filename) (m : List TagsResult) (fm : List (Filename × List TagsResult))
    → has_entry m fm g ≡ true
    → eq_filename g f ≡ false
    → has_entry (without_file f m) (without_entry f fm) g ≡ true
unfolding has_entry is_entry without_file
has_entry-without f g m fm h k = elim (Option-cases (find_file_entry g fm)) [
  | inl e ↦ absurd (ground arith)
  | inr (rs, e) ↦
      let named : TagsResult → Bool =
        λ x. same (some_of (λ r. is_object r x) rs) (eq_filename x.filename g) in
      let all : every named m ≡ true = ground arith in
      rw (find_file_entry-without g f fm k, e, has_entry)
        (every-keep {p = named} {q = λ x. not (eq_filename x.filename f)} {r = named} (λ x a b. a) m
          all)
]

is_index-without :
    (f : Filename) (next : ℕ) (m : List TagsResult) (fs : List Filename)
    (fm : List (Filename × List TagsResult))
    → is_index next m fs fm ≡ true
    → is_index next (without_file f m) (without_loaded f fs) (without_entry f fm) ≡ true
unfolding is_index without_entry is_live
is_index-without f next m fs fm h = ground (arith, entries, live)
  where
    entries : every (has_entry (without_file f m) (without_entry f fm)) (without_loaded f fs) ≡ true
    entries =
        every-keep {p = has_entry m fm} {q = λ g. not (eq_filename g f)}
          {r = has_entry (without_file f m) (without_entry f fm)}
          (λ g a b. has_entry-without f g m fm a (ground arith)) fs (ground arith)

    live : every (is_live next (without_loaded f fs)) (without_entry f fm) ≡ true
    live =
        every-keep {p = is_live next fs} {q = λ e. not (eq_filename e.0 f)}
          {r = is_live next (without_loaded f fs)}
          (λ e a b. ground (arith, has_file-without e.0 f fs)) fm (ground arith)

pub unloaded-IsWellFormed :
    (f : Filename) (base : Text) (t : TagsTable) → IsWellFormed t → IsWellFormed (unloaded f base t)
unloaded-IsWellFormed f base t w = record {
  order =
      unfold without_file in keep-is_sorted (λ r. not (eq_filename r.filename f)) t.tag_map w.order;
  distinct =
      unfold without_file in
      keep-is_distinct (λ r. not (eq_filename r.filename f)) t.tag_map w.distinct;
  fresh =
      unfold without_file in
      every-keep {p = λ x. ltb x.addr t.next_addr} {q = λ r. not (eq_filename r.filename f)}
        {r = λ x. ltb x.addr t.next_addr} (λ x a b. a) t.tag_map w.fresh;
  loaded = loaded_without f t w;
  indexed = elim (Bool-cases t.enable_fileindex) [
    | inl i ↦ rw i (
        is_index-without f t.next_addr t.tag_map t.loaded_files t.filemap
          (ground (arith, w.indexed)))
    | inr i ↦ rw i
  ];
}
