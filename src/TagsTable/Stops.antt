-- ===== src/TagsTable/Stops.antt =====
-- tagstable.cc: reading a declaration always ends.
use google_gtags.Prelude.{
  Bool, true, false, ◌&&◌, List, [], ◌∷◌, Text, codes, text_eq, Option, none, some, if◌then◌else◌,
}
use google_gtags.Prelude.Result.{
  Holds, Holds-bind, Result, fatal, ◌>>=◌, Stops, Holds-any, Holds-if,
}
use google_gtags.Filename.{initialize}
use google_gtags.Sexp.{SExpression, nil, pair, symbol, str, int, is_list, is_symbol}
use google_gtags.Sexp.Iterator.{ConstIterator, done, next, start, begin, deref, increment, elements}
use google_gtags.Sexp.Printer.{repr}
use google_gtags.TagsTable.{Config, TagType}
use google_gtags.TagsTable.Declarations.{
  check, items_of, symbol_name, is_alist, is_declaration_with_alist, attribute, each_attribute,
  get_attributes, string_value, integer_value_of, ref_step, not_empty, get_tag_name_from_ref,
  call_step, definition_step, definition_type, known_tag, parse_call, parse_definition,
  parse_descriptor, Item, item_step,
}
use google_gtags.TagsTable.Load.{set_features, version_of, get_tags_format_version}

abbrev Any {ℓ} : {A : Type ℓ} → A → Type 0
Any a = Unit

pub check-Stops : (b : Bool) → Stops (check b)
unfolding check
check-Stops true = tt
check-Stops false = tt

pub items_of-Stops : (v : SExpression) → Stops (items_of v)
unfolding items_of
items_of-Stops v = Holds-if Any (is_list v) _ _ tt tt

start-Stops : (v : SExpression) → Stops (start v)
start-Stops nil = tt
start-Stops (pair a d) = tt
start-Stops (symbol s) = tt
start-Stops (str s) = tt
start-Stops (int i) = tt

begin-Stops : (v : SExpression) → Stops (begin v)
unfolding begin
begin-Stops v = Holds-if Any (is_list v) _ _ (start-Stops v) tt

deref-Stops : (it : ConstIterator) → Stops (deref it)
unfolding deref
deref-Stops done = tt
deref-Stops (next a d) = tt

pub attribute-Stops : (v : SExpression) → Stops (attribute v)
unfolding attribute
attribute-Stops v = Holds-any Any (begin v) _ (begin-Stops v) (λ it.
    Holds-any Any (deref it) _ (deref-Stops it)
      (λ name. Holds-any Any (deref (increment it)) _ (deref-Stops (increment it)) (λ value. tt)))

symbol_name-Stops : (v : SExpression) → Stops (symbol_name v)
unfolding symbol_name
symbol_name-Stops (symbol s) = tt
symbol_name-Stops nil = tt
symbol_name-Stops (pair a d) = tt
symbol_name-Stops (str s) = tt
symbol_name-Stops (int i) = tt

is_alist-Stops : (decltype : Text) (vs : List SExpression) → Stops (is_alist decltype vs)
unfolding is_alist
is_alist-Stops decltype [] = tt
is_alist-Stops decltype (h ∷ attrs) =
    Holds-if Any (is_symbol h) _ _
      (Holds-any Any (symbol_name h) _ (symbol_name-Stops h) (λ name. tt)) tt

pub is_declaration_with_alist-Stops :
    (v : SExpression) (decltype : Text) → Stops (is_declaration_with_alist v decltype)
unfolding is_declaration_with_alist
is_declaration_with_alist-Stops v decltype =
    Holds-if Any (is_list v) _ _ (is_alist-Stops decltype (elements v)) tt

pub string_value-Stops : (v : SExpression) → Stops (string_value v)
unfolding string_value
string_value-Stops (str s) = tt
string_value-Stops nil = tt
string_value-Stops (pair a d) = tt
string_value-Stops (symbol s) = tt
string_value-Stops (int i) = tt

pub integer_value_of-Stops : (v : SExpression) → Stops (integer_value_of v)
unfolding integer_value_of
integer_value_of-Stops (int i) = tt
integer_value_of-Stops nil = tt
integer_value_of-Stops (pair a d) = tt
integer_value_of-Stops (symbol s) = tt
integer_value_of-Stops (str s) = tt

pub initialize-Stops : (s : Text) → Stops (initialize s)
unfolding initialize
initialize-Stops [] = tt
initialize-Stops (c ∷ cs) = tt

-- A loop over attributes keeps what its body keeps.
pub each_attribute-Holds :
    {S : Type 0} (P : S → Type 0) (step : Text → SExpression → S → Result S)
    → ((name : Text) (value : SExpression) (s : S) → P s → Holds P (step name value s))
    → (vs : List SExpression) (s : S) → P s
    → Holds P (each_attribute step vs s)
unfolding each_attribute
each_attribute-Holds P step keeps [] s h = h
each_attribute-Holds P step keeps (v ∷ vs) s h =
    Holds-any P (attribute v) _ (attribute-Stops v) (λ a.
      Holds-bind P P (step (repr a.0) a.1 s) _ (keeps (repr a.0) a.1 s h)
        (λ u hu. each_attribute-Holds P step keeps vs u hu))

-- A loop over attributes ends if its body does.
each_attribute-Stops {ℓ} :
    {S : Type ℓ} (step : Text → SExpression → S → Result S)
    → ((name : Text) (value : SExpression) (s : S) → Stops (step name value s))
    → (vs : List SExpression) (s : S) → Stops (each_attribute step vs s)
unfolding each_attribute
each_attribute-Stops step stops [] s = tt
each_attribute-Stops step stops (v ∷ vs) s = Holds-any Any (attribute v) _ (attribute-Stops v) (λ a.
    Holds-any Any (step (repr a.0) a.1 s) _ (stops (repr a.0) a.1 s)
      (λ u. each_attribute-Stops step stops vs u))

-- A declaration that is checked first, and then read by a loop.
alist-Stops {ℓ} :
    {A : Type ℓ} (v : SExpression) (decltype : Text) (f : Unit {0} → Result A)
    → ((u : Unit {0}) → Stops (f u))
    → Stops (is_declaration_with_alist v decltype >>= λ good. check good >>= f)
alist-Stops v decltype f h =
    Holds-any Any (is_declaration_with_alist v decltype) _
      (is_declaration_with_alist-Stops v decltype)
      (λ good. Holds-any Any (check good) _ (check-Stops good) h)

not_empty-Stops : (p : Option Text) → Stops (not_empty p)
unfolding not_empty
not_empty-Stops none = tt
not_empty-Stops (some []) = tt
not_empty-Stops (some (c ∷ cs)) = tt

ref_step-Stops :
    (name : Text) (value : SExpression) (p : Option Text) → Stops (ref_step name value p)
unfolding ref_step
ref_step-Stops name value p =
    Holds-if Any (text_eq name (codes "name")) _ _
      (Holds-any Any (string_value value) _ (string_value-Stops value) (λ s. tt)) tt

get_tag_name_from_ref-Stops : (v : SExpression) → Stops (get_tag_name_from_ref v)
unfolding get_tag_name_from_ref
get_tag_name_from_ref-Stops v = alist-Stops v (codes "ref") _ (λ u.
    Holds-any Any (each_attribute ref_step (get_attributes v) none) _
      (each_attribute-Stops ref_step ref_step-Stops (get_attributes v) none) not_empty-Stops)

call_step-Stops :
    (name : Text) (value : SExpression) (p : Option Text) → Stops (call_step name value p)
unfolding call_step
call_step-Stops name value p =
    Holds-if Any (text_eq name (codes "to")) _ _
      (Holds-any Any (get_tag_name_from_ref value) _ (get_tag_name_from_ref-Stops value) (λ s. tt))
      tt

definition_step-Stops :
    (name : Text) (value : SExpression) (p : Option Text) → Stops (definition_step name value p)
unfolding definition_step
definition_step-Stops name value p =
    Holds-if Any (text_eq name (codes "tag")) _ _
      (Holds-any Any (string_value value) _ (string_value-Stops value) (λ s. tt)) tt

definition_type-Stops : (head : Text) → Stops (definition_type head)
unfolding definition_type
definition_type-Stops head = Holds-if Any (text_eq head (codes "type")) _ _ tt (
    Holds-if Any (text_eq head (codes "function")) _ _ tt (
      Holds-if Any (text_eq head (codes "variable")) _ _ tt
        (Holds-if Any (text_eq head (codes "generic-tag")) _ _ tt tt)))

known_tag-Stops : (d : TagType × Option Text) → Stops (known_tag d)
unfolding known_tag
known_tag-Stops (type, none) = tt
known_tag-Stops (type, some tag) = tt

parse_call-Stops : (c : Config) (v : SExpression) → Stops (parse_call c v)
unfolding parse_call
parse_call-Stops c v = alist-Stops v (codes "call") _ (λ u.
    Holds-any Any (each_attribute call_step (get_attributes v) none) _
      (each_attribute-Stops call_step call_step-Stops (get_attributes v) none) (λ tag. tt))

parse_definition-Stops : (head : Text) (v : SExpression) → Stops (parse_definition head v)
unfolding parse_definition
parse_definition-Stops head v =
    Holds-any Any (definition_type head) _ (definition_type-Stops head) (λ type.
      alist-Stops v head _ (λ u.
        Holds-any Any (each_attribute definition_step (get_attributes v) none) _
          (each_attribute-Stops definition_step definition_step-Stops (get_attributes v) none)
          (λ tag. tt)))

pub parse_descriptor-Stops : (c : Config) (v : SExpression) → Stops (parse_descriptor c v)
unfolding parse_descriptor
parse_descriptor-Stops c v = Holds-any Any (begin v) _ (begin-Stops v) (λ it.
    Holds-any Any (deref it) _ (deref-Stops it) (λ h.
      Holds-any Any
        (if text_eq (repr h) (codes "call") then parse_call c v else parse_definition (repr h) v) _
        (Holds-if Any (text_eq (repr h) (codes "call")) _ _ (parse_call-Stops c v)
          (parse_definition-Stops (repr h) v))
        known_tag-Stops))

item_step-Stops :
    (c : Config) (name : Text) (value : SExpression) (item : Item)
    → Stops (item_step c name value item)
unfolding item_step
item_step-Stops c name value item =
    Holds-if Any (text_eq name (codes "line")) _ _
      (Holds-any Any (integer_value_of value) _ (integer_value_of-Stops value) (λ i. tt))
      (Holds-if Any (text_eq name (codes "offset")) _ _
        (Holds-any Any (integer_value_of value) _ (integer_value_of-Stops value) (λ i. tt))
        (Holds-if Any (text_eq name (codes "descriptor")) _ _
          (Holds-any Any (parse_descriptor c value) _ (parse_descriptor-Stops c value) (λ d. tt))
          (Holds-if Any (text_eq name (codes "snippet")) _ _
            (Holds-any Any (string_value value) _ (string_value-Stops value) (λ s. tt)) tt)))

pub item-Stops :
    (c : Config) (vs : List SExpression) (item : Item)
    → Stops (each_attribute (item_step c) vs item)
item-Stops c = each_attribute-Stops (item_step c) (item_step-Stops c)

pub set_features-Stops :
    (vs : List SExpression) (fs : List (Text × Bool)) → Stops (set_features vs fs)
unfolding set_features
set_features-Stops [] fs = tt
set_features-Stops (v ∷ vs) fs =
    Holds-any Any (check (is_symbol v)) _ (check-Stops (is_symbol v)) (λ u. set_features-Stops vs _)

version_of-Stops : (vs : List SExpression) → Stops (version_of vs)
unfolding version_of
version_of-Stops [] = tt
version_of-Stops (h ∷ []) = tt
version_of-Stops (h ∷ v ∷ vs) =
    Holds-if Any (is_symbol h && text_eq (repr h) (codes "tags-format-version"))
      (integer_value_of v) fatal (integer_value_of-Stops v) tt

pub get_tags_format_version-Stops : (o : Option SExpression) → Stops (get_tags_format_version o)
unfolding get_tags_format_version
get_tags_format_version-Stops none = tt
get_tags_format_version-Stops (some v) =
    Holds-any Any (items_of v) _ (items_of-Stops v) version_of-Stops
