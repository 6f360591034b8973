-- ===== src/TagsTable/WellFormed/Steps.antt =====
-- tagstable.cc: every operation that changes the table keeps its invariant.
use google_gtags.Prelude.{
  false, not, List, [], ◌∷◌, Text, codes, text_eq, ◌≡◌, sym, arith, Bool-cases, Option-cases, inl,
  inr, ◌∙◌, subst,
}
use google_gtags.Prelude.Result.{
  Result, ok, fatal, undefined, out_of_fuel, Holds, Holds-bind, Holds-any, Holds-if,
}
use google_gtags.Filename.{Filename, basename, initialize}
use google_gtags.Strutil.{c_str}
use google_gtags.Sexp.{SExpression, is_list}
use google_gtags.Sexp.Printer.{repr}
use google_gtags.TagsTable.{TagsTable, Config, has_file, file_get, unload_file}
use google_gtags.TagsTable.Declarations.{
  check, items_of, is_declaration_with_alist, each_attribute, get_attributes, string_value,
}
use google_gtags.TagsTable.Load.{
  add_items, load_file, FileAttributes, file_step, finish_file, parse_file_declaration, delete_file,
  header_value, header_items, set_features,
}
use google_gtags.TagsTable.Stops.{
  check-Stops, items_of-Stops, string_value-Stops, initialize-Stops,
  is_declaration_with_alist-Stops, set_features-Stops, each_attribute-Holds,
}
use google_gtags.TagsTable.WellFormed.{IsWellFormed, eq_filename_self, has_file-without}
use google_gtags.TagsTable.WellFormed.Unloads.{unload_file-unloaded, unloaded-IsWellFormed}
use google_gtags.TagsTable.WellFormed.Loads.{IsLoading, IsLoading-start}
use google_gtags.TagsTable.WellFormed.AddTags.{add_items-IsLoading, index_file-IsWellFormed}

-- `UnloadFile`, whether the file is loaded or not, leaves a table where it is not.
abbrev IsWithout : Filename → TagsTable → Type 0
IsWithout f t = IsWellFormed t × (has_file f t.loaded_files ≡ false)

unload_file-IsWithout :
    (f : Filename) (t : TagsTable) → IsWellFormed t → Holds (IsWithout f) (unload_file f t)
unload_file-IsWithout f t w = elim (Bool-cases (has_file f t.loaded_files)) [
  | inr n ↦ unfold unload_file in rw n (w, n)
  | inl l ↦ elim (Option-cases (basename f)) [
    | inl n ↦ unfold unload_file in rw (l, n) tt
    | inr (base, b) ↦ subst (Holds (IsWithout f)) (sym (unload_file-unloaded f base t w l b)) (
      unloaded-IsWellFormed f base t w,
      has_file-without f f t.loaded_files ∙ ground (arith, eq_filename_self f),
    )
  ]
]

load_file-IsWellFormed :
    (c : Config) (f : Filename) (language : Text) (contents : SExpression) (t : TagsTable)
    → IsWellFormed t
    → Holds IsWellFormed (load_file c f language contents t)
unfolding load_file
load_file-IsWellFormed c f language contents t w =
    Holds-bind (IsWithout f) IsWellFormed (unload_file f t) _ (unload_file-IsWithout f t w)
      (λ u (wu, n). Holds-any IsWellFormed (items_of contents) _ (items_of-Stops contents) (λ vs.
        Holds-bind (λ r. IsLoading f u.loaded_files r.1 r.0) IsWellFormed
          (add_items c f language vs [] _) _
          (add_items-IsLoading c f language u.loaded_files vs [] _ (IsLoading-start f u wu n))
          (λ r wr. index_file-IsWellFormed f u.loaded_files r.1 r.0 wr)))

file_get-IsWellFormed :
    (s : Text) (t : TagsTable) → IsWellFormed t → Holds (λ r. IsWellFormed r.1) (file_get s t)
unfolding file_get
file_get-IsWellFormed s t w =
    Holds-any (λ r. IsWellFormed r.1) (initialize (c_str s)) _ (initialize-Stops (c_str s)) (λ f. w)

abbrev IsReading : FileAttributes → Type 0
IsReading a = IsWellFormed a.table

file_step-IsReading :
    (name : Text) (value : SExpression) (a : FileAttributes)
    → IsReading a
    → Holds IsReading (file_step name value a)
unfolding file_step
file_step-IsReading name value a w =
    Holds-if IsReading (text_eq name (codes "path")) _ _
      (Holds-any IsReading (string_value value) _ (string_value-Stops value) (λ s.
        Holds-bind (λ r. IsWellFormed r.1) IsReading (file_get s a.table) _
          (file_get-IsWellFormed s a.table w) (λ r wr. wr)))
      (Holds-if IsReading (text_eq name (codes "language")) _ _
        (Holds-any IsReading (string_value value) _ (string_value-Stops value) (λ s. w))
        (Holds-if IsReading (text_eq name (codes "contents")) _ _
          (Holds-any IsReading (check (is_list value)) _ (check-Stops (is_list value)) (λ u. w)) w))

finish_file-IsWellFormed :
    (c : Config) (a : FileAttributes) → IsReading a → Holds IsWellFormed (finish_file c a)
finish_file-IsWellFormed c a w = elim (Option-cases a.filename) [
  | inl n ↦ unfold finish_file in rw n tt
  | inr (f, n) ↦
      unfold finish_file in
      rw n (
        Holds-any IsWellFormed (check (not (text_eq a.language []))) _
          (check-Stops (not (text_eq a.language [])))
          (λ u. elim (Option-cases a.contents_list) [
            | inl k ↦ rw k tt
            | inr (contents, k) ↦ rw k (load_file-IsWellFormed c f a.language contents a.table w)
          ]))
]

pub parse_file_declaration-IsWellFormed :
    (c : Config) (v : SExpression) (t : TagsTable)
    → IsWellFormed t
    → Holds IsWellFormed (parse_file_declaration c v t)
unfolding parse_file_declaration
parse_file_declaration-IsWellFormed c v t w =
    Holds-any IsWellFormed (is_declaration_with_alist v (codes "file")) _
      (is_declaration_with_alist-Stops v (codes "file"))
      (λ good. Holds-any IsWellFormed (check good) _ (check-Stops good) (λ u.
        Holds-bind IsReading IsWellFormed (each_attribute file_step (get_attributes v) _) _
          (each_attribute-Holds IsReading file_step file_step-IsReading (get_attributes v) _ w)
          (λ a wa. finish_file-IsWellFormed c a wa)))

pub unload_file-IsWellFormed :
    (f : Filename) (t : TagsTable) → IsWellFormed t → Holds IsWellFormed (unload_file f t)
unload_file-IsWellFormed f t w = weaken (unload_file f t) (unload_file-IsWithout f t w)
  where
    weaken : (r : Result TagsTable) → Holds (IsWithout f) r → Holds IsWellFormed r
    weaken (ok u) h = h.0
    weaken fatal h = tt
    weaken undefined h = tt
    weaken out_of_fuel h = h

pub delete_file-IsWellFormed :
    (vs : List SExpression) (t : TagsTable) → IsWellFormed t → Holds IsWellFormed (delete_file vs t)
unfolding delete_file
delete_file-IsWellFormed [] t w = tt
delete_file-IsWellFormed (h ∷ []) t w = tt
delete_file-IsWellFormed (h ∷ value ∷ vs) t w =
    Holds-any IsWellFormed (check (text_eq (repr h) (codes "deleted"))) _
      (check-Stops (text_eq (repr h) (codes "deleted")))
      (λ u. Holds-any IsWellFormed (string_value value) _ (string_value-Stops value) (λ s.
        Holds-bind (λ r. IsWellFormed r.1) IsWellFormed (file_get s t) _
          (file_get-IsWellFormed s t w) (λ r wr. unload_file-IsWellFormed r.0 r.1 wr)))

header_value-IsWellFormed :
    (type : Text) (value : SExpression) (t : TagsTable)
    → IsWellFormed t
    → Holds IsWellFormed (header_value type value t)
unfolding header_value
header_value-IsWellFormed type value t w =
    Holds-if IsWellFormed (text_eq type (codes "tags-comment")) _ _
      (Holds-any IsWellFormed (string_value value) _ (string_value-Stops value) (λ s. w))
      (Holds-if IsWellFormed (text_eq type (codes "tags-corpus-name")) _ _
        (Holds-any IsWellFormed (string_value value) _ (string_value-Stops value) (λ s. w))
        (Holds-if IsWellFormed (text_eq type (codes "timestamp")) _ _ w (
          Holds-if IsWellFormed (text_eq type (codes "features")) _ _
            (Holds-any IsWellFormed (items_of value) _ (items_of-Stops value) (λ vs.
              Holds-any IsWellFormed (set_features vs t.features) _
                (set_features-Stops vs t.features) (λ fs. w)))
            w)))

pub header_items-IsWellFormed :
    (vs : List SExpression) (t : TagsTable)
    → IsWellFormed t
    → Holds IsWellFormed (header_items vs t)
unfolding header_items
header_items-IsWellFormed [] t w = tt
header_items-IsWellFormed (h ∷ []) t w = tt
header_items-IsWellFormed (h ∷ value ∷ vs) t w = header_value-IsWellFormed (repr h) value t w
