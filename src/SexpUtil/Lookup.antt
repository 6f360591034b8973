-- ===== src/SexpUtil/Lookup.antt =====
-- sexpression_util.cc: an association list gives back what it was made from.
use google_gtags.Prelude.{
  true, List, [], ◌∷◌, Text, text_eq, Option, none, some, ◌≡◌, refl, Bool-cases, inl, inr,
  if◌then◌else◌,
}
use google_gtags.Prelude.Result.{ok}
use google_gtags.Sexp.{SExpression, nil, pair, symbol, is_list, is_nil}
use google_gtags.Sexp.Iterator.{begin, deref, increment, elements}
use google_gtags.SexpUtil.{head_matches, is_entry_of, second, assoc_loop, assoc_get}

-- The s-expression ((key1 value1) (key2 value2) ...).
abbrev pub alist : List (Text × SExpression) → SExpression
alist [] = nil
alist ((key, value) ∷ es) = pair (pair (symbol key) (pair value nil)) (alist es)

-- The first value of a key.
abbrev pub lookup : Text → List (Text × SExpression) → Option SExpression
lookup key [] = none
lookup key ((k, value) ∷ es) =
    let rest = lookup key es in if text_eq k key then some value else rest

alist-is_list : (es : List (Text × SExpression)) → is_list (alist es) ≡ true
unfolding is_list
alist-is_list [] = refl
alist-is_list (e ∷ es) = alist-is_list es

assoc_loop-alist :
    (key : Text) (es : List (Text × SExpression))
    → assoc_loop (elements (alist es)) key ≡ ok (lookup key es)
unfolding assoc_loop elements is_entry_of head_matches is_list second begin deref increment
assoc_loop-alist key [] = refl
assoc_loop-alist key ((k, value) ∷ es) = elim (Bool-cases (text_eq k key)) [
  | inl e ↦ rw e
  | inr e ↦ rw e (assoc_loop-alist key es)
]

-- Of a list of keys and values, each a list of two elements, `SExpressionAssocGet` returns the first
-- value of a key, and NULL for a key that is not there.
pub assoc_get-alist :
    (key : Text) (es : List (Text × SExpression)) → assoc_get (alist es) key ≡ ok (lookup key es)
unfolding assoc_get is_nil is_list
assoc_get-alist key [] = refl
assoc_get-alist key (e ∷ es) = rw (alist-is_list (e ∷ es)) (assoc_loop-alist key (e ∷ es))
