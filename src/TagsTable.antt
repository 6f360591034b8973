-- ===== src/TagsTable.antt =====
-- tagstable.h and tagstable.cc: the state of the table of tags, its queries, and unloading.
pub mod Declarations
pub mod Load
mod Tests
mod Stops
pub mod Snippets
pub mod Sorted
pub mod Query
pub mod Unload
pub mod WellFormed
use google_gtags.Prelude.{
  ℕ, zero, suc, ◌+◌, Bool, true, false, not, ◌&&◌, ◌||◌, List, [], ◌∷◌, ◌++◌, map, Text, codes,
  text_eq, keep, some_of, take, Option, none, some, ◌==◌, if◌then◌else◌, leb, length,
}
use google_gtags.Prelude.Int.{ℤ, pos}
use google_gtags.Prelude.Result.{Result, ok, fatal, undefined, ◌>>=◌}
use google_gtags.Strutil.{c_str, has_prefix_string}
use google_gtags.Filename
use google_gtags.Filename.{
  Filename, initialize, eq_filename, basename, Comparison, less, equal, greater, strcmp,
}

pub data TagType : Type 0 where
  call generic_defn type_defn variable_defn function_defn : TagType

-- `addr` stands for the address of the object, by which `UnloadFile` finds it again.
pub record TagsResult : Type 0 where
  pub addr : ℕ
  pub type : TagType
  pub charno : ℤ
  pub lineno : ℤ
  pub tag : Text
  pub linerep : Text
  pub filename : Filename
  pub language : Text

-- The command line flags that the table reads, and what `new TagsResult` leaves in `type`.
pub record Config : Type 0 where
  pub max_results : ℕ
  pub findfile : Bool
  pub max_snippet_size : ℕ
  pub fresh_type : TagType

-- `map_` is kept in the order of the multimap. The strings of `strings_` are values here, and the
-- objects that pointers to `Filename` share are too.
pub record TagsTable : Type 0 where
  pub fileset : List Filename
  pub loaded_files : List Filename
  pub tag_map : List TagsResult
  pub filemap : List (Filename × List TagsResult)
  pub findfilemap : List (Text × Filename)
  pub enable_fileindex : Bool
  pub tags_comment : Text
  pub tagfile_creation_time : ℤ
  pub corpus_name : Text
  pub features : List (Text × Bool)
  pub callers_on_by_default : Bool
  pub next_addr : ℕ

-- The constructor and `Initialize`. `callers_on_by_default_` is set by the first load.
unfoldable pub new_table : Bool → TagsTable
new_table enable_fileindex = record {
  fileset = [];
  loaded_files = [];
  tag_map = [];
  filemap = [];
  findfilemap = [];
  enable_fileindex = enable_fileindex;
  tags_comment = [];
  tagfile_creation_time = pos 0;
  corpus_name = [];
  features = (codes "callers", false) ∷ [];
  callers_on_by_default = true;
  next_addr = 0;
}

-- `FreeData`: what was loaded goes, the metadata stays.
unfoldable pub free_data : TagsTable → TagsTable
free_data t = record t {
  tag_map = [];
  filemap = [];
  findfilemap = [];
  loaded_files = [];
  fileset = [];
}

-- `find` of a `FileSet`.
unfoldable pub has_file : Filename → List Filename → Bool
has_file f = some_of (λ g. eq_filename g f)

-- `insert` into a `FileSet`.
unfoldable pub insert_file : Filename → List Filename → List Filename
insert_file f fs = if has_file f fs then fs else f ∷ fs

-- `FileGet`: the path, and the table with it in `fileset_`.
unfoldable pub file_get : Text → TagsTable → Result (Filename × TagsTable)
file_get file_str t = do
  f ← initialize (c_str file_str)
  ok (f, record t { fileset = insert_file f t.fileset })

unfoldable pub is_less : Comparison → Bool
is_less less = true
is_less _ = false

-- The order of the multimap.
unfoldable pub tag_lt : Text → Text → Bool
unfolding is_less
tag_lt a b = is_less (strcmp a b)

-- `map_->insert`: behind the entries with the same tag.
unfoldable pub insert_tag : TagsResult → List TagsResult → List TagsResult
insert_tag r [] = r ∷ []
insert_tag r (x ∷ xs) =
    let rest = x ∷ insert_tag r xs in if tag_lt r.tag x.tag then r ∷ x ∷ xs else rest

-- `map_->lower_bound(tag)`: the first entry that is not below the tag, and what follows.
unfoldable pub lower_bound : Text → List TagsResult → List TagsResult
lower_bound tag [] = []
lower_bound tag (x ∷ xs) =
    let rest = lower_bound tag xs in if tag_lt x.tag tag then rest else x ∷ xs

-- A loop that stops at the first entry that fails its test, or when enough are found.
unfoldable pub take_while : ℕ → (TagsResult → Bool) → List TagsResult → List TagsResult
take_while zero p xs = []
take_while (suc n) p [] = []
take_while (suc n) p (x ∷ xs) = let rest = x ∷ take_while n p xs in if p x then rest else []

-- A loop over all entries that takes those that pass its test, until enough are found.
unfoldable pub take_matching : ℕ → (TagsResult → Bool) → List TagsResult → List TagsResult
take_matching zero p xs = []
take_matching (suc n) p [] = []
take_matching (suc n) p (x ∷ xs) =
    let hit = x ∷ take_matching n p xs in
    let miss = take_matching (suc n) p xs in if p x then hit else miss

-- `FindTags`: the loop over `equal_range`.
unfoldable pub find_tags : Config → Text → TagsTable → List TagsResult
find_tags c tag t =
    take_while c.max_results (λ r. not (tag_lt (c_str tag) r.tag))
      (lower_bound (c_str tag) t.tag_map)

-- regexp.h calls the C library's regular expressions: `error`, `FullMatch` and `PartialMatch`.
pub record RegExp : Type 0 where
  pub error : Text → Bool
  pub full_match : Text → Text → Bool
  pub partial_match : Text → Text → Bool

-- `ContainsRegexpChar`
unfoldable pub contains_regexp_char : RegExp → Text → Bool
contains_regexp_char re tag = re.partial_match (codes "[^a-zA-Z0-9\\-_]") tag

-- `IsPrefix`
unfoldable pub is_prefix : Text → Text → Bool
is_prefix a b = leb (length a) (length b) && text_eq (take (length a) b) a

unfoldable pub find_regexp_tags : RegExp → Config → Text → TagsTable → List TagsResult
find_regexp_tags re c tag t =
    if contains_regexp_char re tag
    then (if re.error tag
        then []
        else take_matching c.max_results (λ r. re.full_match tag r.tag) t.tag_map)
    else take_while c.max_results (λ r. is_prefix tag r.tag) (lower_bound (c_str tag) t.tag_map)

unfoldable pub find_snippet_matches : RegExp → Config → Text → TagsTable → List TagsResult
find_snippet_matches re c m t =
    take_matching c.max_results (λ r. re.partial_match m r.linerep) t.tag_map

-- `filemap_->find`.
unfoldable pub find_file_entry :
    Filename → List (Filename × List TagsResult) → Option (List TagsResult)
find_file_entry f [] = none
find_file_entry f ((g, rs) ∷ m) = if eq_filename g f then some rs else find_file_entry f m

or_empty : Option (List TagsResult) → List TagsResult
or_empty none = []
or_empty (some rs) = rs

-- `FindTagsByFile`
unfoldable pub find_tags_by_file : Config → Text → TagsTable → Result (List TagsResult)
unfolding or_empty
find_tags_by_file c filename t = do
  f ← initialize (c_str filename)
  ok (take c.max_results (or_empty (find_file_entry f t.filemap)))

-- `FindFile`: the first entries with this basename, printed. What `set<string>` makes of them, a set,
-- is the caller's to read off: this is the list that is inserted.
unfoldable pub find_file : Config → Text → TagsTable → List Text
find_file c filename t =
    map (λ e. Filename.str e.1)
      (take c.max_results (keep (λ e. text_eq e.0 (c_str filename)) t.findfilemap))

-- `map_->erase` of the entry that holds this object, in the range of its tag.
unfoldable pub is_object : TagsResult → TagsResult → Bool
is_object r x = x.addr == r.addr && text_eq x.tag r.tag

unfoldable pub erase_result : TagsResult → List TagsResult → List TagsResult
erase_result r [] = []
erase_result r (x ∷ xs) = let rest = x ∷ erase_result r xs in if is_object r x then xs else rest

unfoldable pub erase_results : List TagsResult → List TagsResult → List TagsResult
erase_results [] m = m
erase_results (r ∷ rs) m = erase_results rs (erase_result r m)

-- The scan of `map_` where there is no file index.
unfoldable pub without_file : Filename → List TagsResult → List TagsResult
without_file f = keep (λ r. not (eq_filename r.filename f))

unfoldable pub without_entry :
    Filename → List (Filename × List TagsResult) → List (Filename × List TagsResult)
without_entry f = keep (λ e. not (eq_filename e.0 f))

unfoldable pub without_found : Text → Filename → List (Text × Filename) → List (Text × Filename)
without_found base f = keep (λ e. not (text_eq e.0 base && eq_filename e.1 f))

-- What `UnloadFile` does with `map_` and `filemap_`.
unfoldable pub unload_tags : Filename → TagsTable → Result TagsTable
unload_tags f t =
    if t.enable_fileindex
    then elim (find_file_entry f t.filemap) [
      | none ↦ fatal
      | some rs ↦
          ok
            (record t { tag_map = erase_results rs t.tag_map; filemap = without_entry f t.filemap })
    ]
    else ok (record t { tag_map = without_file f t.tag_map })

-- `UnloadFile`. A path with no component has no `Basename`, and its NULL is hashed.
unfoldable pub unload_file : Filename → TagsTable → Result TagsTable
unload_file f t =
    if has_file f t.loaded_files
    then elim (basename f) [
      | none ↦ undefined
      | some base ↦ (do
        u ← unload_tags f (record t { findfilemap = without_found base f t.findfilemap })
        ok (record u { loaded_files = keep (λ g. not (eq_filename g f)) u.loaded_files }))
    ]
    else ok t

-- The loop of `UnloadFilesInDir` over the files that are left of `fileset_`.
unload_files : Text → List Filename → TagsTable → Result TagsTable
unload_files dirname [] t = ok t
unload_files dirname (f ∷ fs) t = do
  u ← if has_prefix_string (Filename.str f) dirname then unload_file f t else ok t
  unload_files dirname fs u

unfoldable pub unload_files_in_dir : Text → TagsTable → Result TagsTable
unfolding unload_files
unload_files_in_dir dirname t = unload_files dirname t.fileset t
