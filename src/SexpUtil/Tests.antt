-- ===== src/SexpUtil/Tests.antt =====
-- sexpression_util_test.cc: runs on concrete inputs.
use google_gtags.Prelude.{List, Text, [], ◌∷◌, codes, text_eq, ◌≡◌, refl}
use google_gtags.Prelude.Int.{pos}
use google_gtags.Prelude.Result.{ok, undefined}
use google_gtags.Sexp.{SExpression, nil, pair, symbol, str, int, is_list, is_nil}
use google_gtags.Sexp.Iterator.{begin, deref, increment, elements}
use google_gtags.SexpUtil.{
  head_matches, is_entry_of, second, assoc_loop, assoc_get, to_string, to_int, put_pair, put_typed,
  read_pair_list, read_list,
}
use google_gtags.SexpUtil.Lookup.{alist, lookup, assoc_get-alist}

abbrev entries : List (Text × SExpression)
entries = (codes "id", int (pos 1)) ∷ (codes "value", str (codes "x")) ∷ []

assoc_get-alist_example :
    assoc_get (alist entries) (codes "value") ≡ ok (lookup (codes "value") entries)
assoc_get-alist_example = assoc_get-alist (codes "value") entries

-- A key with nothing behind it.
assoc_get_bare :
    assoc_get (pair (pair (symbol (codes "value")) nil) nil) (codes "value") ≡ undefined
unfolding assoc_get assoc_loop is_entry_of head_matches second begin deref increment elements
    is_list is_nil text_eq
assoc_get_bare = refl

read_list_runs :
    read_list to_string (str (codes "a") ∷ nil ∷ str (codes "b") ∷ []) []
    ≡ codes "a" ∷ codes "b" ∷ []
unfolding read_list to_string
read_list_runs = refl

-- The later of two pairs with one key counts, and a value of another type does not.
read_pair_list_runs :
    read_pair_list text_eq to_string to_int
      (pair (str (codes "a")) (int (pos 1))
        ∷ pair (str (codes "b")) nil
        ∷ pair (str (codes "a")) (int (pos 2))
        ∷ [])
      []
    ≡ (codes "a", pos 2) ∷ []
unfolding read_pair_list put_typed put_pair to_string to_int text_eq
read_pair_list_runs = refl
