-- ===== src/TagsTable/WellFormed.antt =====
-- tagstable.cc: the invariant that ties the multimap, the index of files and the loaded files.
pub mod Unloads
mod Inserts
mod Loads
mod AddTags
mod Steps
pub mod Directory
pub mod Loading
use google_gtags.Prelude.{
  ℕ, Bool, true, false, not, ◌&&◌, ◌||◌, List, [], ◌∷◌, Text, ◌≡◌, ◌≢◌, refl, sym, arith, every,
  every_mono, every_all, every-keep, keep, some_of, ◌==◌, ltb, Bool-cases, Option-cases, inl, inr,
  if◌then◌else◌, ◌∙◌, ap, subst, Option, none, some,
}
use google_gtags.Prelude.Result.{Result, ok, fatal, undefined, ◌>>=◌}
use google_gtags.Filename.{Filename, eq_filename, basename}
use google_gtags.Filename.Order.{eq_filename_iff}
use google_gtags.TagsTable.{
  TagsResult, TagsTable, has_file, find_file_entry, without_file, without_entry, without_found,
  unload_tags, unload_file, new_table,
}
use google_gtags.TagsTable.Sorted.{is_sorted, keep-is_sorted}
use google_gtags.TagsTable.Unload.{
  is_distinct, keep-is_distinct, is_entry, erase_results-without_file,
}

-- A file has an entry of the index that names its objects.
unfoldable pub has_entry : List TagsResult → List (Filename × List TagsResult) → Filename → Bool
has_entry m fm f = elim (find_file_entry f fm) [ none ↦ false | some rs ↦ is_entry m f rs ]

-- An entry is that of a loaded file, and its objects were made before `next`.
unfoldable pub is_live : ℕ → List Filename → Filename × List TagsResult → Bool
is_live next loaded e = has_file e.0 loaded && every (λ r. ltb r.addr next) e.1

-- Every loaded file is indexed, and nothing else is.
unfoldable pub is_index :
    ℕ → List TagsResult → List Filename → List (Filename × List TagsResult) → Bool
is_index next m loaded fm = every (has_entry m fm) loaded && every (is_live next loaded) fm

pub record IsConsistent (indexing : Bool) (next : ℕ) (m : List TagsResult) (files : List Filename)
    (fm : List (Filename × List TagsResult)) : Type 0 where
  pub order : is_sorted m ≡ true
  pub distinct : is_distinct m ≡ true
  pub fresh : every (λ x. ltb x.addr next) m ≡ true
  pub loaded : every (λ x. has_file x.filename files) m ≡ true
  pub indexed : (not indexing || is_index next m files fm) ≡ true

-- The multimap is in order and holds each object once, all made by this table and all of loaded
-- files; with the index of files, every loaded file has its entry, which names just its objects.
abbrev pub IsWellFormed : TagsTable → Type 0
IsWellFormed t = IsConsistent t.enable_fileindex t.next_addr t.tag_map t.loaded_files t.filemap

pub eq_filename_self : (f : Filename) → eq_filename f f ≡ true
eq_filename_self f = (eq_filename_iff f f).1 refl

-- What holds of all files of a set holds of each that is found in it.
pub has_file-every :
    (p : Filename → Bool) (f : Filename) (fs : List Filename)
    → has_file f fs ≡ true
    → every p fs ≡ true
    → p f ≡ true
unfolding has_file some_of
has_file-every p f [] h k = absurd (ground arith)
has_file-every p f (g ∷ gs) h k = elim (Bool-cases (eq_filename g f)) [
  | inl e ↦ subst (λ x. p x ≡ true) ((eq_filename_iff g f).0 e) (ground arith)
  | inr e ↦ has_file-every p f gs (ground arith) (ground arith)
]

-- What is left of a set without `f`.
abbrev pub without_loaded : Filename → List Filename → List Filename
without_loaded f = keep (λ g. not (eq_filename g f))

pub has_file-without :
    (x f : Filename) (fs : List Filename)
    → has_file x (without_loaded f fs) ≡ (has_file x fs && not (eq_filename x f))
unfolding has_file some_of keep
has_file-without x f [] = refl
has_file-without x f (g ∷ gs) =
    let same_f : eq_filename g x ≡ true → eq_filename g f ≡ eq_filename x f =
      λ e. ap (λ y. eq_filename y f) ((eq_filename_iff g x).0 e) in
    elim (Bool-cases (eq_filename g f)) [
      | inl k ↦ rw k (ground (arith, has_file-without x f gs, same_f))
      | inr k ↦ rw k (ground (arith, has_file-without x f gs, same_f))
    ]

pub find_file_entry-without :
    (g f : Filename) (fm : List (Filename × List TagsResult))
    → eq_filename g f ≡ false
    → find_file_entry g (without_entry f fm) ≡ find_file_entry g fm
unfolding find_file_entry without_entry keep
find_file_entry-without g f [] h = refl
find_file_entry-without g f ((k, rs) ∷ fm) h = elim (Bool-cases (eq_filename k g)) [
  | inl e ↦ ground (arith, ap (λ y. eq_filename y f) ((eq_filename_iff k g).0 e))
  | inr e ↦ ground (arith, find_file_entry-without g f fm h)
]

-- The table that holds nothing.
pub new_table-IsWellFormed : (indexing : Bool) → IsWellFormed (new_table indexing)
unfolding new_table is_sorted is_distinct is_index
new_table-IsWellFormed true = record {
  order = refl;
  distinct = refl;
  fresh = refl;
  loaded = refl;
  indexed = refl;
}
new_table-IsWellFormed false = record {
  order = refl;
  distinct = refl;
  fresh = refl;
  loaded = refl;
  indexed = refl;
}
