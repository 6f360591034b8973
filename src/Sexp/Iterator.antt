-- ===== src/Sexp/Iterator.antt =====
-- sexpression.cc: `SExpressionConstIterator`, and the list of what it visits.
use google_gtags.Prelude.{
  ℕ, zero, suc, List, [], ◌∷◌, Option, none, some, ◌≡◌, refl, get_elem?, if◌then◌else◌, Bool-cases,
  inl, inr,
}
use google_gtags.Prelude.Result.{Result, ok, fatal, undefined, ◌>>=◌}
use google_gtags.Sexp.{SExpression, nil, pair, symbol, str, int, is_list}

-- `next_` and `done_`: the pair whose car comes next, or the end.
pub data ConstIterator : Type 0 where
  done : ConstIterator
  next : SExpression → SExpression → ConstIterator

-- The `down_cast` of the constructor: a list that is not nil is a pair.
abbrev pub start : SExpression → Result ConstIterator
start nil = ok done
start (pair a d) = ok (next a d)
start _ = fatal

-- `Begin()`: the constructor of the iterator.
unfoldable pub begin : SExpression → Result ConstIterator
begin v = if is_list v then start v else fatal

-- `operator*`: at the end it is a read through NULL.
unfoldable pub deref : ConstIterator → Result SExpression
deref done = undefined
deref (next a d) = ok a

abbrev pub at_cdr : SExpression → ConstIterator
at_cdr (pair a d) = next a d
at_cdr _ = done

-- `operator++`.
unfoldable pub increment : ConstIterator → ConstIterator
increment done = done
increment (next a d) = at_cdr d

-- What a loop from `Begin()` to `End()` visits.
unfoldable pub elements : SExpression → List SExpression
elements (pair a d) = a ∷ elements d
elements _ = []

-- `++` some times over.
pub advance_by : ℕ → ConstIterator → ConstIterator
advance_by zero it = it
advance_by (suc n) it = advance_by n (increment it)

abbrev pub value_at : Option SExpression → Result SExpression
value_at none = undefined
value_at (some v) = ok v

advance_done : (n : ℕ) → deref (advance_by n done) ≡ undefined
unfolding advance_by increment deref
advance_done zero = refl
advance_done (suc n) = advance_done n

deref-at_cdr :
    (v : SExpression) (n : ℕ)
    → deref (advance_by n (at_cdr v)) ≡ value_at (get_elem? (elements v) n)
unfolding elements advance_by deref increment
deref-at_cdr (pair a d) zero = refl
deref-at_cdr (pair a d) (suc n) = deref-at_cdr d n
deref-at_cdr nil n = advance_done n
deref-at_cdr (symbol s) n = advance_done n
deref-at_cdr (str s) n = advance_done n
deref-at_cdr (int i) n = advance_done n

-- An iterator over a list gives, after n increments, the element of the list at n, and a read through
-- NULL from the end on. Over what is not a list, the CHECK of the constructor fails.
pub begin_visits :
    (v : SExpression) (n : ℕ)
    → (begin v >>= λ it. deref (advance_by n it))
      ≡ (if is_list v then value_at (get_elem? (elements v) n) else fatal)
unfolding begin is_list
begin_visits nil n = deref-at_cdr nil n
begin_visits (symbol s) n = refl
begin_visits (str s) n = refl
begin_visits (int i) n = refl
begin_visits (pair a d) n = elim (Bool-cases (is_list d)) [
  | inl e ↦ rw e (deref-at_cdr (pair a d) n)
  | inr e ↦ rw e
]
