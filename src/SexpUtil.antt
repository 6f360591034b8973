-- ===== src/SexpUtil.antt =====
-- sexpression_util.h, sexpression_util.cc and sexpression_util-inl.h: association lists and typed lists.
mod Tests
pub mod Lookup
use google_gtags.Prelude.{
  Bool, true, false, not, ◌&&◌, ◌||◌, List, [], ◌∷◌, ◌++◌, Text, codes, text_eq, Option, none, some,
  if◌then◌else◌,
}
use google_gtags.Prelude.Int.{ℤ}
use google_gtags.Prelude.Result.{Result, ok, fatal, undefined, ◌>>=◌}
use google_gtags.Sexp.{SExpression, nil, pair, symbol, str, int, is_list, is_nil, is_symbol}
use google_gtags.Sexp.Iterator.{ConstIterator, begin, deref, increment, elements}
use google_gtags.Sexp.Printer.{repr}

-- Whether `*i` is the entry of the key: a list that begins with the symbol. A list that begins with nil
-- fails the `down_cast`, since nil calls itself a symbol.
unfoldable pub head_matches : List SExpression → Text → Result Bool
head_matches [] key = ok false
head_matches (nil ∷ vs) key = fatal
head_matches (symbol name ∷ vs) key = ok (text_eq name key)
head_matches (v ∷ vs) key = ok false

unfoldable pub is_entry_of : SExpression → Text → Result Bool
is_entry_of i key = if is_list i then head_matches (elements i) key else ok false

-- What stands behind the key; where nothing does, the iterator at the end is dereferenced.
unfoldable pub second : SExpression → Result SExpression
second i = do j ← begin i; deref (increment j)

unfoldable pub assoc_loop : List SExpression → Text → Result (Option SExpression)
assoc_loop [] key = ok none
assoc_loop (i ∷ is) key =
    is_entry_of i key >>= elim [ true ↦ (do v ← second i; ok (some v)) | false ↦ assoc_loop is key ]

-- `SExpressionAssocGet`; `none` is NULL.
unfoldable pub assoc_get : SExpression → Text → Result (Option SExpression)
assoc_get sexpr key =
    if not (is_list sexpr) || is_nil sexpr then ok none else assoc_loop (elements sexpr) key

-- The loop of `SExpressionAssocReplace`.
unfoldable pub replace_loop : List SExpression → Text → Text → Text → Result Text
replace_loop [] key value output = ok (output ++ codes ")")
replace_loop (i ∷ is) key value output = is_entry_of i key >>= λ found. replace_loop is key value (
    output
    ++ (if found
        then codes "(" ++ key ++ codes " " ++ value ++ codes ") "
        else repr i ++ codes " "))

unfoldable pub assoc_replace : SExpression → Text → Text → Result Text
assoc_replace sexpr key value =
    if not (is_list sexpr) || is_nil sexpr
    then ok (repr sexpr)
    else replace_loop (elements sexpr) key value (codes "(")

-- `Type<T>`: what reads a value of this type, where the s-expression has it.
unfoldable pub to_string : SExpression → Option Text
to_string (str s) = some s
to_string _ = none

unfoldable pub to_int : SExpression → Option ℤ
to_int (int i) = some i
to_int _ = none

unfoldable pub to_bool : SExpression → Option Bool
to_bool v = some (not (is_nil v))

-- `ReadList` from the begin to the end of these elements, behind what is on the list.
unfoldable pub read_list {ℓ} :
    {T : Type ℓ} → (SExpression → Option T) → List SExpression → List T → List T
read_list to_type [] l = l
read_list to_type (v ∷ vs) l = elim (to_type v) [
  | none ↦ read_list to_type vs l
  | some x ↦ read_list to_type vs (l ++ x ∷ [])
]

-- `(*m)[key] = value` of a `hash_map`, whose elements are listed in any order.
unfoldable pub put_pair {ℓ κ} :
    {K : Type ℓ} {V : Type κ} → (K → K → Bool) → K → V → List (K × V) → List (K × V)
put_pair same_key key value [] = (key, value) ∷ []
put_pair same_key key value ((k, v) ∷ m) =
    let rest = (k, v) ∷ put_pair same_key key value m in
    if same_key k key then (k, value) ∷ m else rest

-- What one pair assigns, where both halves have their types.
unfoldable pub put_typed {ℓ κ} :
    {K : Type ℓ} {V : Type κ} → (K → K → Bool) → Option K → Option V → List (K × V) → List (K × V)
put_typed same_key (some key) (some value) m = put_pair same_key key value m
put_typed same_key _ _ m = m

-- `ReadPairList`
unfoldable pub read_pair_list {ℓ κ} :
    {K : Type ℓ} {V : Type κ}
    → (K → K → Bool)
    → (SExpression → Option K)
    → (SExpression → Option V)
    → List SExpression
    → List (K × V)
    → List (K × V)
read_pair_list same_key to_key to_value [] m = m
read_pair_list same_key to_key to_value (pair car cdr ∷ vs) m =
    read_pair_list same_key to_key to_value vs (put_typed same_key (to_key car) (to_value cdr) m)
read_pair_list same_key to_key to_value (v ∷ vs) m = read_pair_list same_key to_key to_value vs m
