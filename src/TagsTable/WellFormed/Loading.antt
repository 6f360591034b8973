-- ===== src/TagsTable/WellFormed/Loading.antt =====
-- tagstable.cc: loading a tags file ends, and leaves a well-formed table; so does unloading.
use google_gtags.Prelude.{
  ℕ, suc, zero, ◌≤◌, ◌<◌, Bool, false, not, List, [], ◌∷◌, Text, codes, text_eq, length, refl,
  arith, if◌then◌else◌, Option, none, some,
}
use google_gtags.Prelude.Result.{
  Result, ok, fatal, undefined, out_of_fuel, ◌>>=◌, Holds, Stops, Holds-bind, Holds-any, Holds-if,
}
use google_gtags.Filename.{Filename, str}
use google_gtags.Strutil.{has_prefix_string}
use google_gtags.Sexp.{SExpression, is_symbol}
use google_gtags.Sexp.Ends.{Ends, length-skip}
use google_gtags.Sexp.Termination.{parse_from-Ends}
use google_gtags.Sexp.Parser.{file, skip_whitespace, Parsed, parse_from}
use google_gtags.Sexp.Printer.{repr}
use google_gtags.TagsTable.{
  TagsTable, Config, free_data, unload_file, unload_files, unload_files_in_dir,
}
use google_gtags.TagsTable.Declarations.{check, items_of}
use google_gtags.TagsTable.Load.{
  parse_file_declaration, delete_file, parse_deleted_declaration, header_items,
  parse_header_declaration, get_tags_format_version, dispatch, load_declaration, load_loop,
  reset_metadata, load_tag_file, reload_tag_file, is_version_2, update_tag_file,
}
use google_gtags.TagsTable.Sorted.{is_sorted}
use google_gtags.TagsTable.Unload.{is_distinct}
use google_gtags.TagsTable.Stops.{check-Stops, items_of-Stops, get_tags_format_version-Stops}
use google_gtags.TagsTable.WellFormed.{is_index, IsWellFormed}
use google_gtags.TagsTable.WellFormed.Steps.{
  unload_file-IsWellFormed, parse_file_declaration-IsWellFormed, delete_file-IsWellFormed,
  header_items-IsWellFormed,
}

abbrev IsTurn : Bool × TagsTable → Type 0
IsTurn r = IsWellFormed r.1

dispatch-IsTurn :
    (c : Config) (v : SExpression) (vs : List SExpression) (files_loaded : Bool) (t : TagsTable)
    → IsWellFormed t
    → Holds IsTurn (dispatch c v vs files_loaded t)
unfolding dispatch parse_deleted_declaration parse_header_declaration
dispatch-IsTurn c v [] files_loaded t w = tt
dispatch-IsTurn c v (h ∷ vs) files_loaded t w =
    Holds-any IsTurn (check (is_symbol h)) _ (check-Stops (is_symbol h)) (λ a.
      Holds-if IsTurn (text_eq (repr h) (codes "file")) _ _
        (Holds-bind IsWellFormed IsTurn (parse_file_declaration c v t) _
          (parse_file_declaration-IsWellFormed c v t w) (λ u wu. wu))
        (Holds-if IsTurn (text_eq (repr h) (codes "deleted")) _ _
          (Holds-bind IsWellFormed IsTurn (items_of v >>= λ xs. delete_file xs t) _
            (Holds-any IsWellFormed (items_of v) _ (items_of-Stops v)
              (λ xs. delete_file-IsWellFormed xs t w))
            (λ u wu. wu))
          (Holds-any IsTurn (check (not files_loaded)) _ (check-Stops (not files_loaded)) (λ b.
            Holds-bind IsWellFormed IsTurn (items_of v >>= λ xs. header_items xs t) _
              (Holds-any IsWellFormed (items_of v) _ (items_of-Stops v)
                (λ xs. header_items-IsWellFormed xs t w))
              (λ u wu. wu)))))

load_declaration-IsTurn :
    (c : Config) (o : Option SExpression) (files_loaded : Bool) (t : TagsTable)
    → IsWellFormed t
    → Holds IsTurn (load_declaration c o files_loaded t)
unfolding load_declaration
load_declaration-IsTurn c none files_loaded t w = tt
load_declaration-IsTurn c (some v) files_loaded t w =
    Holds-any IsTurn (items_of v) _ (items_of-Stops v)
      (λ vs. dispatch-IsTurn c v vs files_loaded t w)

-- What follows the reading of an s-expression, in a file that had `n` characters left.
turn-IsWellFormed :
    (c : Config) (files_loaded : Bool) (t : TagsTable) (n : ℕ)
    (rest : (b : Bool) (s : Text) (u : TagsTable) → Result TagsTable)
    → ((b : Bool) (s : Text) (u : TagsTable)
        → length s < n
        → IsWellFormed u
        → Holds IsWellFormed (rest b s u))
    → IsWellFormed t
    → (r : Parsed) → Ends n r
    → Holds IsWellFormed
        (r >>= λ p. load_declaration c p.0 files_loaded t >>= λ u. rest u.0 p.1 u.1)
turn-IsWellFormed c files_loaded t n rest h w (ok (none, s)) e = unfold load_declaration in tt
turn-IsWellFormed c files_loaded t n rest h w (ok (some v, s)) e =
    Holds-bind IsTurn IsWellFormed (load_declaration c (some v) files_loaded t) _
      (load_declaration-IsTurn c (some v) files_loaded t w) (λ u wu. h u.0 s u.1 e wu)
turn-IsWellFormed c files_loaded t n rest h w fatal e = tt
turn-IsWellFormed c files_loaded t n rest h w undefined e = tt
turn-IsWellFormed c files_loaded t n rest h w out_of_fuel e = e

-- One turn of the loop, given the turns after it.
load_turn-IsWellFormed :
    (n : ℕ) (c : Config) (files_loaded : Bool) (s : Text) (t : TagsTable)
    → ((b : Bool) (r : Text) (u : TagsTable)
        → length r < length s
        → IsWellFormed u
        → Holds IsWellFormed (load_loop n c b r u))
    → IsWellFormed t
    → Holds IsWellFormed (load_loop (suc n) c files_loaded s t)
unfolding load_loop
load_turn-IsWellFormed n c files_loaded s t rest w = more (skip_whitespace s) (length-skip s)
  where
    more :
        (r : Text)
        → length r ≤ length s
        → Holds IsWellFormed (elim r [
          | [] ↦ ok t
          | ch ∷ cs ↦ parse_from file (ch ∷ cs) >>= λ p.
              load_declaration c p.0 files_loaded t >>= λ u. load_loop n c u.0 p.1 u.1
        ])
    more [] k = w
    more (ch ∷ cs) k =
        turn-IsWellFormed c files_loaded t (length (ch ∷ cs)) (λ b r u. load_loop n c b r u)
          (λ b r u l wu. rest b r u (omega arith) wu) w (parse_from file (ch ∷ cs))
          (parse_from-Ends file (ch ∷ cs))

load_loop-IsWellFormed :
    (n : ℕ) (c : Config) (files_loaded : Bool) (s : Text) (t : TagsTable)
    → length s < n
    → IsWellFormed t
    → Holds IsWellFormed (load_loop n c files_loaded s t)
load_loop-IsWellFormed zero c files_loaded s t h w = absurd (omega arith)
load_loop-IsWellFormed (suc n) c files_loaded s t h w =
    load_turn-IsWellFormed n c files_loaded s t
      (λ b r u l wu. load_loop-IsWellFormed n c b r u (omega arith) wu) w

Stops-Ends : (n : ℕ) (r : Parsed) → Ends n r → Stops r
Stops-Ends n (ok (some v, s)) e = tt
Stops-Ends n (ok (none, s)) e = tt
Stops-Ends n fatal e = tt
Stops-Ends n undefined e = tt
Stops-Ends n out_of_fuel e = e

load_tag_file-Holds :
    (c : Config) (s : Text) (t : TagsTable)
    → IsWellFormed t
    → Holds IsWellFormed (load_tag_file c s t)
unfolding load_tag_file reset_metadata
load_tag_file-Holds c s t w =
    Holds-any IsWellFormed (parse_from file s) _ (Stops-Ends (length s) _ (parse_from-Ends file s))
      (λ r.
        Holds-any IsWellFormed (get_tags_format_version r.0) _ (get_tags_format_version-Stops r.0)
          (λ version.
            Holds-any IsWellFormed (check (is_version_2 version)) _
              (check-Stops (is_version_2 version))
              (λ u. load_loop-IsWellFormed (suc (length r.1)) c false r.1 _ (omega arith) w)))

-- Loading an update into a well-formed table ends, since a turn of the loop for each character is
-- enough for every file, and if it succeeds, the table that it leaves is well-formed.
pub update_tag_file-IsWellFormed :
    (c : Config) (s : Text) (t : TagsTable)
    → IsWellFormed t
    → Holds IsWellFormed (update_tag_file c s t)
unfolding update_tag_file
update_tag_file-IsWellFormed = load_tag_file-Holds

-- Loading a file into any table ends, and if it succeeds, the table that it leaves is well-formed,
-- whatever was in it before.
pub reload_tag_file-IsWellFormed :
    (c : Config) (s : Text) (t : TagsTable) → Holds IsWellFormed (reload_tag_file c s t)
unfolding reload_tag_file free_data is_sorted is_distinct is_index
reload_tag_file-IsWellFormed c s t =
    load_tag_file-Holds c s _ (record {
      order = refl;
      distinct = refl;
      fresh = refl;
      loaded = refl;
      indexed = ground arith;
    })

unload_files-IsWellFormed :
    (dirname : Text) (fs : List Filename) (t : TagsTable)
    → IsWellFormed t
    → Holds IsWellFormed (unload_files dirname fs t)
unfolding unload_files
unload_files-IsWellFormed dirname [] t w = w
unload_files-IsWellFormed dirname (f ∷ fs) t w =
    Holds-bind IsWellFormed IsWellFormed
      (if has_prefix_string (str f) dirname then unload_file f t else ok t) _
      (Holds-if IsWellFormed (has_prefix_string (str f) dirname) _ _
        (unload_file-IsWellFormed f t w) w)
      (λ u wu. unload_files-IsWellFormed dirname fs u wu)

-- Unloading the files of a directory from a well-formed table ends, and if it succeeds, the table that
-- it leaves is well-formed.
pub unload_files_in_dir-IsWellFormed :
    (dirname : Text) (t : TagsTable)
    → IsWellFormed t
    → Holds IsWellFormed (unload_files_in_dir dirname t)
unfolding unload_files_in_dir
unload_files_in_dir-IsWellFormed dirname t = unload_files-IsWellFormed dirname t.fileset t
