-- ===== src/TagsTable/Snippets.antt =====
-- tagstable.cc: what `ParseItemDeclaration` puts into a result.
use google_gtags.Prelude.{
  ℕ, zero, suc, ◌≤◌, [], ◌∷◌, Text, codes, text_eq, take, length, ltb, Option, none, some, ◌≡◌,
  refl, arith, Option-cases, Bool-cases, inl, inr,
}
use google_gtags.Prelude.Result.{Holds, Holds-any, Holds-bind, Holds-if}
use google_gtags.Strutil.{c_str}
use google_gtags.Filename.{Filename}
use google_gtags.Sexp.{SExpression}
use google_gtags.TagsTable.{TagsResult, Config}
use google_gtags.TagsTable.Declarations.{
  check, is_declaration_with_alist, get_attributes, each_attribute, string_value, integer_value_of,
  parse_descriptor, Item, snippet_of, item_step, or_empty_text, finish_item, parse_item,
}
use google_gtags.TagsTable.Stops.{
  check-Stops, is_declaration_with_alist-Stops, string_value-Stops, integer_value_of-Stops,
  parse_descriptor-Stops, each_attribute-Holds,
}

length-c_str : (s : Text) → length (c_str s) ≤ length s
unfolding c_str
length-c_str [] = omega arith
length-c_str (c ∷ cs) = ground (arith, length-c_str cs)

length-take : (n : ℕ) (s : Text) → length (take n s) ≤ n
length-take zero s = omega arith
length-take (suc n) [] = omega arith
length-take (suc n) (c ∷ cs) = omega (arith, length-take n cs)

length-snippet_of : (c : Config) (s : Text) → length (snippet_of c s) ≤ c.max_snippet_size
unfolding snippet_of
length-snippet_of c s = elim (Bool-cases (ltb c.max_snippet_size (length s))) [
  | inl e ↦
      rw e
        (omega (arith, length-c_str (take c.max_snippet_size s), length-take c.max_snippet_size s))
  | inr e ↦ rw e (ground (arith, length-c_str s))
]

-- The snippet that was read is not longer than the flag allows.
abbrev IsShort : Config → Item → Type 0
IsShort c item = length (or_empty_text item.snippet) ≤ c.max_snippet_size

item_step-IsShort :
    (c : Config) (name : Text) (value : SExpression) (item : Item)
    → IsShort c item
    → Holds (IsShort c) (item_step c name value item)
unfolding item_step or_empty_text
item_step-IsShort c name value item h =
    Holds-if (IsShort c) (text_eq name (codes "line")) _ _
      (Holds-any (IsShort c) (integer_value_of value) _ (integer_value_of-Stops value) (λ i. h))
      (Holds-if (IsShort c) (text_eq name (codes "offset")) _ _
        (Holds-any (IsShort c) (integer_value_of value) _ (integer_value_of-Stops value) (λ i. h))
        (Holds-if (IsShort c) (text_eq name (codes "descriptor")) _ _
          (Holds-any (IsShort c) (parse_descriptor c value) _ (parse_descriptor-Stops c value)
            (λ d. h))
          (Holds-if (IsShort c) (text_eq name (codes "snippet")) _ _
            (Holds-any (IsShort c) (string_value value) _ (string_value-Stops value)
              (λ s. length-snippet_of c s))
            h)))

-- A result is at this address and of this file and language, and its snippet is short enough.
abbrev pub IsResult : Config → ℕ → Filename → Text → Option TagsResult → Type 0
IsResult c addr filename language none = Unit
IsResult c addr filename language (some r) =
    (r.addr ≡ addr)
    × (r.filename ≡ filename)
    × (r.language ≡ language)
    × (length r.linerep ≤ c.max_snippet_size)

finish_item-IsResult :
    (c : Config) (addr : ℕ) (filename : Filename) (language : Text) (item : Item)
    → IsShort c item
    → IsResult c addr filename language (finish_item addr filename language item)
finish_item-IsResult c addr filename language item h = elim (Option-cases item.descriptor) [
  | inl e ↦ unfold finish_item in rw e tt
  | inr (d, e) ↦ unfold finish_item in rw e (refl, refl, refl, h)
]

-- Parsing an item ends, and a result that it gives is one of the file and the language that it was
-- parsed for, with a snippet no longer than `max_snippet_size`, whatever the attributes are, in which
-- order they come, and how often.
pub parse_item-IsResult :
    (c : Config) (addr : ℕ) (filename : Filename) (language : Text) (v : SExpression)
    → Holds (IsResult c addr filename language) (parse_item c addr filename language v)
unfolding parse_item
parse_item-IsResult c addr filename language v =
    Holds-any (IsResult c addr filename language) (is_declaration_with_alist v (codes "item")) _
      (is_declaration_with_alist-Stops v (codes "item"))
      (λ good. Holds-any (IsResult c addr filename language) (check good) _ (check-Stops good) (λ u.
        Holds-bind (IsShort c) (IsResult c addr filename language)
          (each_attribute (item_step c) (get_attributes v) _) _
          (each_attribute-Holds (IsShort c) (item_step c) (item_step-IsShort c) (get_attributes v) _
            (unfold or_empty_text in omega arith))
          (λ item h. finish_item-IsResult c addr filename language item h)))
