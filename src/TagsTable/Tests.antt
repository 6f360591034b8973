-- ===== src/TagsTable/Tests.antt =====
-- tagstable_test.cc: runs on concrete inputs, and the theorems at inputs that meet their premises.
use Prim.Native.String.{String}
use google_gtags.Prelude.{
  ℕ, ◌≡◌, refl, Bool, true, false, not, [], ◌∷◌, ◌++◌, Text, codes, text_eq, keep, take, some_of,
}
use google_gtags.Prelude.Int.{pos}
use google_gtags.Prelude.Result.{ok, Holds}
use google_gtags.Strutil.{c_str}
use google_gtags.Filename.{Filename, eq_filename, basename, last_nonempty, strcmp, same_dirs}
use google_gtags.TagsTable.{
  generic_defn, call, TagsResult, Config, TagsTable, RegExp, new_table, has_file, find_tags,
  find_regexp_tags, is_prefix, contains_regexp_char, unload_file, unload_files_in_dir,
}
use google_gtags.TagsTable.{tag_lt, is_less, find_file_entry, is_object}
use google_gtags.TagsTable.Sorted.{is_sorted}
use google_gtags.TagsTable.Unload.{is_distinct, is_entry}
use google_gtags.TagsTable.Query.{find_tags-scan, find_regexp_tags-scan}
use google_gtags.TagsTable.WellFormed.{IsWellFormed, is_index, has_entry, is_live}
use google_gtags.TagsTable.WellFormed.Unloads.{unloaded, unload_file-unloaded}
use google_gtags.TagsTable.WellFormed.Directory.{has_base, is_in_dir, unload_files_in_dir-keeps}
use google_gtags.TagsTable.WellFormed.Loading.{
  update_tag_file-IsWellFormed, reload_tag_file-IsWellFormed,
}
use google_gtags.Sexp.{SExpression, nil, pair, symbol, str}
use google_gtags.TagsTable.Declarations.{parse_item}
use google_gtags.TagsTable.Snippets.{IsResult, parse_item-IsResult}
use google_gtags.TagsTable.Load.{update_tag_file, reload_tag_file}

abbrev flags : Config
flags = record { max_results = 2000; findfile = false; max_snippet_size = 200; fresh_type = call }

abbrev small_file : Text
small_file =
    codes "(tags-format-version 2) (tags-comment \"x\") (features (callers))"
    ++ codes "(file (path \"./a/b.c\") (language \"c\") (contents ("
    ++ codes
        "(item (line 3) (offset 7) (descriptor (generic-tag (tag \"foo\"))) (snippet \"int foo\"))"
    ++ codes "(item (line 4) (descriptor (call (to (ref (name \"bar\")))))))))"

abbrev a_c : Filename
a_c = record { dirs = codes "src" ∷ codes "a.c" ∷ [] }

abbrev b_c : Filename
b_c = record { dirs = codes "src" ∷ codes "b.c" ∷ [] }

abbrev definition : ℕ → String → Filename → TagsResult
definition addr name f = record {
  addr = addr;
  type = generic_defn;
  charno = pos 0;
  lineno = pos 1;
  tag = codes name;
  linerep = codes name;
  filename = f;
  language = codes "c";
}

-- Two files with a tag of the same name, and one more tag.
abbrev two_files : Bool → TagsTable
two_files indexing = record (new_table indexing) {
  fileset = a_c ∷ b_c ∷ [];
  loaded_files = a_c ∷ b_c ∷ [];
  tag_map = definition 1 "bar" b_c ∷ definition 0 "foo" a_c ∷ definition 2 "foo" b_c ∷ [];
  filemap =
      (a_c, definition 0 "foo" a_c ∷ [])
      ∷ (b_c, definition 1 "bar" b_c ∷ definition 2 "foo" b_c ∷ [])
      ∷ [];
  findfilemap = (codes "a.c", a_c) ∷ (codes "b.c", b_c) ∷ [];
  next_addr = 3;
}

two_files-IsWellFormed : IsWellFormed (two_files true)
unfolding is_sorted is_distinct is_index has_entry is_entry is_live has_file some_of eq_filename
    same_dirs text_eq tag_lt is_less strcmp find_file_entry is_object new_table
two_files-IsWellFormed = record {
  order = refl;
  distinct = refl;
  fresh = refl;
  loaded = refl;
  indexed = refl;
}

-- An expression that matches nothing: the queries of these tests hold no special character.
abbrev no_match : RegExp
no_match = record {
  error = λ pattern. false;
  full_match = λ pattern s. false;
  partial_match = λ pattern s. false;
}

find_tags-scan_example :
    find_tags flags (codes "foo") (two_files true)
    ≡ take 2000 (keep (λ r. text_eq r.tag (c_str (codes "foo"))) (two_files true).tag_map)
find_tags-scan_example =
    find_tags-scan flags (codes "foo") (two_files true) two_files-IsWellFormed.order

find_regexp_tags-scan_example :
    find_regexp_tags no_match flags (codes "f") (two_files true)
    ≡ take 2000 (keep (λ r. is_prefix (codes "f") r.tag) (two_files true).tag_map)
find_regexp_tags-scan_example =
    find_regexp_tags-scan no_match flags (codes "f") (two_files true) two_files-IsWellFormed.order
      (unfold c_str in refl) (unfold contains_regexp_char in refl)

unload_file-unloaded_example :
    unload_file b_c (two_files true) ≡ ok (unloaded b_c (codes "b.c") (two_files true))
unload_file-unloaded_example =
    unload_file-unloaded b_c (codes "b.c") (two_files true) two_files-IsWellFormed
      (unfold has_file some_of eq_filename same_dirs text_eq in refl)
      (unfold basename last_nonempty in refl)

update_tag_file-IsWellFormed_example :
    Holds IsWellFormed (update_tag_file flags small_file (two_files true))
update_tag_file-IsWellFormed_example =
    update_tag_file-IsWellFormed flags small_file (two_files true) two_files-IsWellFormed

reload_tag_file-IsWellFormed_example :
    Holds IsWellFormed (reload_tag_file flags small_file (two_files true))
reload_tag_file-IsWellFormed_example =
    reload_tag_file-IsWellFormed flags small_file (two_files true)

unload_files_in_dir-keeps_example :
    (u : TagsTable) × (unload_files_in_dir (codes "src/b") (two_files true) ≡ ok u)
    × (u.tag_map ≡ keep (λ r. not (is_in_dir (codes "src/b") r.filename)) (two_files true).tag_map)
    × (u.loaded_files ≡ keep (λ f. not (is_in_dir (codes "src/b") f)) (a_c ∷ b_c ∷ []))
    × IsWellFormed u
unload_files_in_dir-keeps_example =
    unload_files_in_dir-keeps (codes "src/b") (two_files true) two_files-IsWellFormed
      (unfold has_base basename last_nonempty in refl)
      (unfold has_file some_of eq_filename same_dirs text_eq in refl)

-- An item whose snippet is cut to three characters.
abbrev short_flags : Config
short_flags = record flags { max_snippet_size = 3 }

abbrev item_with_snippet : SExpression
item_with_snippet = pair (symbol (codes "item")) (
    pair
      (pair (symbol (codes "descriptor")) (
        pair
          (pair (symbol (codes "type"))
            (pair (pair (symbol (codes "tag")) (pair (str (codes "T")) nil)) nil))
          nil))
      (pair (pair (symbol (codes "snippet")) (pair (str (codes "struct T")) nil)) nil))

parse_item-IsResult_example :
    Holds
      (IsResult short_flags 5 a_c (codes "c"))
      (parse_item short_flags 5 a_c (codes "c") item_with_snippet)
parse_item-IsResult_example = parse_item-IsResult short_flags 5 a_c (codes "c") item_with_snippet
