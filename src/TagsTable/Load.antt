-- ===== src/TagsTable/Load.antt =====
-- tagstable.cc: the declarations of a tags file, and the loop that loads one.
use google_gtags.Prelude.{
  ℕ, zero, suc, Bool, true, false, not, ◌&&◌, List, [], ◌∷◌, ◌++◌, map, Text, codes, text_eq,
  length, Option, none, some, if◌then◌else◌, ◌==◌,
}
use google_gtags.Prelude.Int.{ℤ, pos}
use google_gtags.Prelude.Result.{Result, ok, fatal, undefined, out_of_fuel, ◌>>=◌, ◌>>◌}
use google_gtags.Strutil.{c_str}
use google_gtags.Filename.{Filename, basename}
use google_gtags.Sexp.{SExpression, is_list, is_symbol}
use google_gtags.Sexp.Printer.{repr}
use google_gtags.Sexp.Parser.{file, skip_whitespace, parse_from}
use google_gtags.TagsTable.{
  TagType, call, TagsResult, Config, TagsTable, free_data, file_get, insert_file, insert_tag,
  find_file_entry, unload_file,
}
use google_gtags.TagsTable.Declarations.{
  check, items_of, is_declaration_with_alist, get_attributes, each_attribute, string_value,
  integer_value_of, parse_item,
}

is_call : TagType → Bool
is_call call = true
is_call _ = false

-- `findfilemap_->insert`, where the flag asks for it; a path without a `Basename` hashes NULL.
unfoldable pub index_basename : Config → Filename → TagsTable → Result TagsTable
index_basename c f t =
    if c.findfile
    then elim (basename f) [
      | none ↦ undefined
      | some base ↦ ok (record t { findfilemap = t.findfilemap ++ (base, f) ∷ [] })
    ]
    else ok t

-- What the loop of `ParseFileDeclaration` does with one tag.
unfoldable pub add_tag : Config → TagsResult → TagsTable → Result TagsTable
unfolding is_call index_basename
add_tag c r t = index_basename c r.filename (record t {
  tag_map = insert_tag r t.tag_map;
  callers_on_by_default = t.callers_on_by_default && is_call r.type;
  next_addr = suc t.next_addr;
})

-- The loop over the contents, and the `tags_vector` it fills.
unfoldable pub add_items :
    Config
    → Filename
    → Text
    → List SExpression
    → List TagsResult
    → TagsTable
    → Result (TagsTable × List TagsResult)
add_items c f language [] tags t = ok (t, tags)
add_items c f language (v ∷ vs) tags t = parse_item c t.next_addr f language v >>= λ o. elim o [
  | none ↦ add_items c f language vs tags t
  | some r ↦ (do u ← add_tag c r t; add_items c f language vs (tags ++ r ∷ []) u)
]

-- `filemap_->insert`, which keeps an entry that is there.
unfoldable pub insert_entry :
    Filename
    → List TagsResult
    → List (Filename × List TagsResult)
    → List (Filename × List TagsResult)
insert_entry f tags m = elim (find_file_entry f m) [ none ↦ (f, tags) ∷ m | some rs ↦ m ]

unfoldable pub index_file : Filename → List TagsResult → TagsTable → TagsTable
index_file f tags t =
    if t.enable_fileindex then record t { filemap = insert_entry f tags t.filemap } else t

-- `ParseFileDeclaration` from the call of `UnloadFile` on.
unfoldable pub load_file : Config → Filename → Text → SExpression → TagsTable → Result TagsTable
unfolding index_file
load_file c f language contents t = do
  u ← unload_file f t
  vs ← items_of contents
  r ← add_items c f language vs [] (record u { loaded_files = insert_file f u.loaded_files })
  ok (index_file f r.1 r.0)

-- The locals of `ParseFileDeclaration`, with the table that `FileGet` changes.
pub record FileAttributes : Type 0 where
  pub filename : Option Filename
  pub language : Text
  pub contents_list : Option SExpression
  pub table : TagsTable

unfoldable pub file_step : Text → SExpression → FileAttributes → Result FileAttributes
file_step name value a =
    if text_eq name (codes "path")
    then (do
      s ← string_value value
      r ← file_get s a.table
      ok (record a { filename = some r.0; table = r.1 }))
    else if text_eq name (codes "language")
    then (do s ← string_value value; ok (record a { language = c_str s }))
    else if text_eq name (codes "contents")
    then (do check (is_list value); ok (record a { contents_list = some value }))
    else ok a

-- The three CHECKs that all fields were assigned, and what follows.
unfoldable pub finish_file : Config → FileAttributes → Result TagsTable
finish_file c a = elim a.filename [
  | none ↦ fatal
  | some f ↦ (do
    check (not (text_eq a.language []))
    elim a.contents_list [
      | none ↦ fatal
      | some contents ↦ load_file c f a.language contents a.table
    ])
]

unfoldable pub parse_file_declaration : Config → SExpression → TagsTable → Result TagsTable
unfolding file_step finish_file
parse_file_declaration c v t = do
  good ← is_declaration_with_alist v (codes "file")
  check good
  a ←
      each_attribute file_step (get_attributes v)
        (record { filename = none; language = []; contents_list = none; table = t })
  finish_file c a

unfoldable pub delete_file : List SExpression → TagsTable → Result TagsTable
delete_file [] t = undefined
delete_file (h ∷ []) t = fatal
delete_file (h ∷ value ∷ vs) t = do
  check (text_eq (repr h) (codes "deleted"))
  s ← string_value value
  r ← file_get s t
  unload_file r.0 r.1

unfoldable pub parse_deleted_declaration : SExpression → TagsTable → Result TagsTable
unfolding delete_file
parse_deleted_declaration v t = items_of v >>= λ vs. delete_file vs t

-- `features_.find` and the assignment through the iterator.
set_feature : Text → List (Text × Bool) → List (Text × Bool)
set_feature name = map (λ e. (e.0, if text_eq e.0 name then true else e.1))

unfoldable pub set_features : List SExpression → List (Text × Bool) → Result (List (Text × Bool))
unfolding set_feature
set_features [] fs = ok fs
set_features (v ∷ vs) fs = do check (is_symbol v); set_features vs (set_feature (repr v) fs)

unfoldable pub header_value : Text → SExpression → TagsTable → Result TagsTable
unfolding set_features
header_value type value t =
    if text_eq type (codes "tags-comment")
    then (do s ← string_value value; ok (record t { tags_comment = s }))
    else if text_eq type (codes "tags-corpus-name")
    then (do s ← string_value value; ok (record t { corpus_name = s }))
    else if text_eq type (codes "timestamp")
    then ok t
    else if text_eq type (codes "features")
    then (do vs ← items_of value; fs ← set_features vs t.features; ok (record t { features = fs }))
    else ok t

unfoldable pub header_items : List SExpression → TagsTable → Result TagsTable
unfolding header_value
header_items [] t = undefined
header_items (h ∷ []) t = fatal
header_items (h ∷ value ∷ vs) t = header_value (repr h) value t

unfoldable pub parse_header_declaration : SExpression → TagsTable → Result TagsTable
unfolding header_items
parse_header_declaration v t = items_of v >>= λ vs. header_items vs t

unfoldable pub version_of : List SExpression → Result ℤ
version_of [] = fatal
version_of (h ∷ []) = fatal
version_of (h ∷ v ∷ vs) =
    if is_symbol h && text_eq (repr h) (codes "tags-format-version")
    then integer_value_of v
    else fatal

-- `GetTagsFormatVersion`; `none` is NULL.
unfoldable pub get_tags_format_version : Option SExpression → Result ℤ
unfolding version_of
get_tags_format_version none = fatal
get_tags_format_version (some v) = items_of v >>= version_of

unfoldable pub is_version_2 : ℤ → Bool
is_version_2 (pos n) = n == 2
is_version_2 _ = false

-- One turn of the loop of `LoadTagFile`, with `files_loaded`.
unfoldable pub dispatch :
    Config → SExpression → List SExpression → Bool → TagsTable → Result (Bool × TagsTable)
dispatch c v [] files_loaded t = fatal
dispatch c v (h ∷ vs) files_loaded t = do
  check (is_symbol h)
  if text_eq (repr h) (codes "file")
      then (do u ← parse_file_declaration c v t; ok (true, u))
      else if text_eq (repr h) (codes "deleted")
      then (do u ← parse_deleted_declaration v t; ok (true, u))
      else (do check (not files_loaded); u ← parse_header_declaration v t; ok (files_loaded, u))

unfoldable pub load_declaration :
    Config → Option SExpression → Bool → TagsTable → Result (Bool × TagsTable)
unfolding dispatch
load_declaration c none files_loaded t = fatal
load_declaration c (some v) files_loaded t = items_of v >>= λ vs. dispatch c v vs files_loaded t

-- The loop of `LoadTagFile`: `IsDone` skips white space first.
unfoldable pub load_loop : ℕ → Config → Bool → Text → TagsTable → Result TagsTable
load_loop zero c files_loaded s t = out_of_fuel
load_loop (suc n) c files_loaded s t = elim (skip_whitespace s) [
  | [] ↦ ok t
  | ch ∷ cs ↦ (do
    r ← parse_from file (ch ∷ cs)
    u ← load_declaration c r.0 files_loaded t
    load_loop n c u.0 r.1 u.1)
]

-- What `LoadTagFile` resets.
unfoldable pub reset_metadata : TagsTable → TagsTable
reset_metadata t = record t {
  tags_comment = [];
  tagfile_creation_time = pos 0;
  corpus_name = [];
  features = map (λ e. (e.0, false)) t.features;
  callers_on_by_default = true;
}

-- `LoadTagFile` of a file with this content, unzipped already.
unfoldable pub load_tag_file : Config → Text → TagsTable → Result TagsTable
unfolding is_version_2
load_tag_file c s t = do
  r ← parse_from file s
  version ← get_tags_format_version r.0
  check (is_version_2 version)
  load_loop (suc (length r.1)) c false r.1 (reset_metadata t)

unfoldable pub reload_tag_file : Config → Text → TagsTable → Result TagsTable
reload_tag_file c s t = load_tag_file c s (free_data t)

unfoldable pub update_tag_file : Config → Text → TagsTable → Result TagsTable
update_tag_file = load_tag_file
