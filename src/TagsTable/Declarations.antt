-- ===== src/TagsTable/Declarations.antt =====
-- tagstable.cc: reading the declarations of a tags file, and what each does to the table.
use google_gtags.Prelude.{
  ℕ, Bool, false, ◌&&◌, List, [], ◌∷◌, Text, codes, text_eq, take, length, every, Option, none,
  some, if◌then◌else◌, ltb,
}
use google_gtags.Prelude.Int.{ℤ, pos}
use google_gtags.Prelude.Result.{Result, ok, fatal, undefined, ◌>>=◌, ◌>>◌}
use google_gtags.Strutil.{c_str}
use google_gtags.Filename.{Filename}
use google_gtags.Sexp.{SExpression, symbol, str, int, is_list, is_symbol}
use google_gtags.Sexp.Printer.{repr}
use google_gtags.Sexp.Iterator.{begin, deref, increment, elements}
use google_gtags.TagsTable.{
  TagType, generic_defn, type_defn, variable_defn, function_defn, TagsResult, Config,
}

unfoldable pub check : Bool → Result (Unit {0})
check b = if b then ok tt else fatal

-- A `for` loop from `Begin()` to `End()` visits these.
unfoldable pub items_of : SExpression → Result (List SExpression)
items_of v = if is_list v then ok (elements v) else fatal

has_two : List SExpression → Bool
has_two (name ∷ value ∷ []) = is_symbol name
has_two _ = false

-- `down_cast<const SExpressionSymbol*>`: nil calls itself a symbol, and is not one.
unfoldable pub symbol_name : SExpression → Result Text
symbol_name (symbol name) = ok name
symbol_name _ = fatal

-- The attribute-value sets, each a list of a symbol and one more element.
is_attribute : SExpression → Bool
unfolding has_two
is_attribute v = is_list v && has_two (elements v)

unfoldable pub is_alist : Text → List SExpression → Result Bool
unfolding symbol_name is_attribute
is_alist decltype [] = ok false
is_alist decltype (h ∷ attrs) =
    if is_symbol h
    then (do name ← symbol_name h; ok (text_eq name decltype && every is_attribute attrs))
    else ok false

-- `IsDeclarationWithAlist`
unfoldable pub is_declaration_with_alist : SExpression → Text → Result Bool
unfolding is_alist
is_declaration_with_alist v decltype =
    if is_list v then is_alist decltype (elements v) else ok false

-- `GetAttributes`: from the second element on.
behind_head : List SExpression → List SExpression
behind_head [] = []
behind_head (h ∷ attrs) = attrs

unfoldable pub get_attributes : SExpression → List SExpression
unfolding behind_head
get_attributes v = behind_head (elements v)

-- `attr_name` and `attr_value`
unfoldable pub attribute : SExpression → Result (SExpression × SExpression)
attribute v = do
  attr_iter ← begin v
  attr_name ← deref attr_iter
  attr_value ← deref (increment attr_iter)
  ok (attr_name, attr_value)

-- The loops over attributes: `step` has the printed name, the value and what was read so far.
unfoldable pub each_attribute {ℓ} :
    {S : Type ℓ} → (Text → SExpression → S → Result S) → List SExpression → S → Result S
each_attribute step [] s = ok s
each_attribute step (v ∷ vs) s = do
  a ← attribute v
  u ← step (repr a.0) a.1 s
  each_attribute step vs u

-- `CHECK(IsString())` and the value.
unfoldable pub string_value : SExpression → Result Text
string_value (str s) = ok s
string_value _ = fatal

unfoldable pub integer_value_of : SExpression → Result ℤ
integer_value_of (int i) = ok i
integer_value_of _ = fatal

unfoldable pub ref_step : Text → SExpression → Option Text → Result (Option Text)
ref_step name value p_return =
    if text_eq name (codes "name") then (do s ← string_value value; ok (some s)) else ok p_return

unfoldable pub not_empty : Option Text → Result Text
not_empty none = fatal
not_empty (some []) = fatal
not_empty (some (c ∷ cs)) = ok (c ∷ cs)

-- `GetTagNameFromRef`
unfoldable pub get_tag_name_from_ref : SExpression → Result Text
unfolding ref_step not_empty
get_tag_name_from_ref v = do
  good ← is_declaration_with_alist v (codes "ref")
  check good
  p_return ← each_attribute ref_step (get_attributes v) none
  not_empty p_return

unfoldable pub call_step : Text → SExpression → Option Text → Result (Option Text)
call_step name value tag =
    if text_eq name (codes "to")
    then (do s ← get_tag_name_from_ref value; ok (some (c_str s)))
    else ok tag

unfoldable pub definition_step : Text → SExpression → Option Text → Result (Option Text)
definition_step name value tag =
    if text_eq name (codes "tag") then (do s ← string_value value; ok (some (c_str s))) else ok tag

unfoldable pub definition_type : Text → Result TagType
definition_type head =
    if text_eq head (codes "type")
    then ok type_defn
    else if text_eq head (codes "function")
    then ok function_defn
    else if text_eq head (codes "variable")
    then ok variable_defn
    else if text_eq head (codes "generic-tag")
    then ok generic_defn
    else fatal

-- `CHECK_NE("", retval->tag)` compares two addresses, which differ; where no attribute gave the
-- tag, it reads a pointer that was never set.
unfoldable pub known_tag : TagType × Option Text → Result (TagType × Text)
known_tag (type, none) = undefined
known_tag (type, some tag) = ok (type, tag)

unfoldable pub parse_call : Config → SExpression → Result (TagType × Option Text)
unfolding call_step
parse_call c v = do
  good ← is_declaration_with_alist v (codes "call")
  check good
  tag ← each_attribute call_step (get_attributes v) none
  ok (c.fresh_type, tag)

unfoldable pub parse_definition : Text → SExpression → Result (TagType × Option Text)
unfolding definition_step definition_type
parse_definition head v = do
  type ← definition_type head
  good ← is_declaration_with_alist v head
  check good
  tag ← each_attribute definition_step (get_attributes v) none
  ok (type, tag)

-- `ParseDescriptorDeclaration`: the type and the tag. A call leaves the type as `new` found it.
unfoldable pub parse_descriptor : Config → SExpression → Result (TagType × Text)
unfolding known_tag parse_call parse_definition
parse_descriptor c v = do
  it ← begin v
  h ← deref it
  d ← if text_eq (repr h) (codes "call") then parse_call c v else parse_definition (repr h) v
  known_tag d

-- The locals of `ParseItemDeclaration`.
pub record Item : Type 0 where
  pub lineno : ℤ
  pub charno : ℤ
  pub descriptor : Option (TagType × Text)
  pub snippet : Option Text

-- `max_snippet_size` is not negative here; a negative flag truncates nothing.
unfoldable pub snippet_of : Config → Text → Text
snippet_of c s = c_str (if ltb c.max_snippet_size (length s) then take c.max_snippet_size s else s)

unfoldable pub item_step : Config → Text → SExpression → Item → Result Item
item_step c name value item =
    if text_eq name (codes "line")
    then (do i ← integer_value_of value; ok (record item { lineno = i }))
    else if text_eq name (codes "offset")
    then (do i ← integer_value_of value; ok (record item { charno = i }))
    else if text_eq name (codes "descriptor")
    then (do d ← parse_descriptor c value; ok (record item { descriptor = some d }))
    else if text_eq name (codes "snippet")
    then (do s ← string_value value; ok (record item { snippet = some (snippet_of c s) }))
    else ok item

unfoldable pub or_empty_text : Option Text → Text
or_empty_text none = []
or_empty_text (some s) = s

unfoldable pub finish_item : ℕ → Filename → Text → Item → Option TagsResult
unfolding or_empty_text
finish_item addr filename language item = elim item.descriptor [
  | none ↦ none
  | some d ↦ some (record {
    addr = addr;
    type = d.0;
    charno = item.charno;
    lineno = item.lineno;
    tag = d.1;
    linerep = or_empty_text item.snippet;
    filename = filename;
    language = language;
  })
]

-- `ParseItemDeclaration`, and the two fields that its caller sets: `none` is NULL.
unfoldable pub parse_item : Config → ℕ → Filename → Text → SExpression → Result (Option TagsResult)
unfolding item_step finish_item
parse_item c addr filename language v = do
  good ← is_declaration_with_alist v (codes "item")
  check good
  item ←
      each_attribute (item_step c) (get_attributes v)
        (record { lineno = pos 0; charno = pos 0; descriptor = none; snippet = none })
  ok (finish_item addr filename language item)
