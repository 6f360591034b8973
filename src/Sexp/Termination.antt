-- ===== src/Sexp/Termination.antt =====
-- sexpression.cc: the parser always ends, and an s-expression takes at least one character.
use google_gtags.Prelude.{
  ℕ, zero, suc, ◌+◌, ◌*◌, ◌≤◌, ◌<◌, Bool, true, false, [], ◌∷◌, Text, ◌≡◌, refl, ◌==◌, length,
  Bool-cases, inl, inr, List, none, some, if◌then◌else◌, arith,
}
use google_gtags.Prelude.Result.{Result, ok, fatal, undefined, out_of_fuel, ◌>>=◌}
use google_gtags.Strutil.{ascii_isspace, peek}
use google_gtags.Sexp.{SExpression, str, new_symbol}
use google_gtags.Sexp.Parser.{
  Source, c_string, file, advance, skip_whitespace, Parsed, parse_string, parse_symbol_in_bars,
  Head, close, dot, item, list_head, build_list, parse_sexp, parse_items, fuel_for, parse_from,
}
use google_gtags.Sexp.Ends.{Ends, Ends-mono, length-skip, Ends-delimited, Ends-unquoted}

-- A round of the loop of `ParseList` at an item.
Ends-item :
    (m n : ℕ) (k : SExpression → Text → Parsed) (r : Parsed)
    → m ≤ n
    → Ends m r
    → ((x : SExpression) (rest : Text) → length rest < m → Ends n (k x rest))
    → Ends n (r >>= λ (v, rest). elim v [ none ↦ ok (none, rest) | some x ↦ k x rest ])
Ends-item m n k (ok (some x, rest)) h e next = next x rest e
Ends-item m n k (ok (none, rest)) h e next = omega arith
Ends-item m n k fatal h e next = tt
Ends-item m n k undefined h e next = tt
Ends-item m n k out_of_fuel h e next = e

-- What `list_head` leaves of the text.
abbrev Follows : Text → Result Head → Type 0
Follows s (ok close) = (c : ℕ) × (cs : Text) × (s ≡ c ∷ cs)
Follows s (ok (dot t)) = length t < length s
Follows s (ok (item t)) = length t ≤ length s
Follows s fatal = Unit
Follows s undefined = Unit
Follows s out_of_fuel = ⊥

Follows-period :
    (source : Source) (c : ℕ) (cs : Text)
    → Follows
        (c ∷ cs)
        (if ascii_isspace (peek cs) then (advance source cs >>= λ t. ok (dot t)) else ok (item cs))
unfolding advance
Follows-period c_string c [] = elim (Bool-cases (ascii_isspace 0)) [
  | inl e ↦ rw e tt
  | inr e ↦ rw e (omega arith)
]
Follows-period file c [] = elim (Bool-cases (ascii_isspace 0)) [
  | inl e ↦ rw e (omega arith)
  | inr e ↦ rw e (omega arith)
]
Follows-period source c (d ∷ ds) = elim (Bool-cases (ascii_isspace d)) [
  | inl e ↦ rw e (omega arith)
  | inr e ↦ rw e (omega arith)
]

Follows-list_head : (source : Source) (s : Text) → Follows s (list_head source s)
unfolding list_head advance
Follows-list_head source [] = omega arith
Follows-list_head source (c ∷ cs) = elim (Bool-cases (c == b')')) [
  | inl e ↦ rw e (c, cs, refl)
  | inr e ↦ rw e (elim (Bool-cases (c == b'.')) [
    | inl p ↦ rw p (Follows-period source c cs)
    | inr p ↦ rw p (omega arith)
  ])
]

module _ (source : Source) (f : ℕ) (s : Text)
    (sexp_ends : (t : Text) → length t ≤ length s → Ends (length t) (parse_sexp source f t))
    (items_end : (improper : Bool) (items : List SExpression) (t : Text)
      → length t < length s
      → Ends (length t) (parse_items source f improper items t)) where
  -- The loop goes on with white space skipped.
  skipped :
      (improper : Bool) (items : List SExpression) (t : Text)
      → length t < length s
      → Ends (length s) (parse_items source f improper items (skip_whitespace t))
  skipped improper items t h =
      let u = skip_whitespace t in
      Ends-mono (length u) (length s) _ (omega (arith, length-skip t))
        (items_end improper items u (omega (arith, length-skip t)))

  items_step :
      (improper : Bool) (items : List SExpression) (r : Result Head)
      → Follows s r
      → Ends (length s) (
          r >>= elim [
            | close ↦ advance source s >>= λ s'. ok (some (build_list improper items), s')
            | dot s' ↦ parse_items source f true items (skip_whitespace s')
            | item s' ↦ parse_sexp source f s' >>= λ (v, rest). elim v [
              | none ↦ ok (none, rest)
              | some x ↦ parse_items source f improper (x ∷ items) (skip_whitespace rest)
            ]
          ])
  unfolding advance
  items_step improper items (ok close) (c, cs, e) = rw e (omega arith)
  items_step improper items (ok (dot t)) h = skipped true items t h
  items_step improper items (ok (item t)) h =
      Ends-item (length t) (length s)
        (λ x rest. parse_items source f improper (x ∷ items) (skip_whitespace rest)) _ h
        (sexp_ends t h) (λ x rest k. skipped improper (x ∷ items) rest (omega arith))
  items_step improper items fatal h = tt
  items_step improper items undefined h = tt
  items_step improper items out_of_fuel h = h

sexp_step :
    (source : Source) (f : ℕ) (s t : Text)
    → skip_whitespace s ≡ t
    → ((u : Text) → length u < length t → Ends (length u) (parse_items source f false [] u))
    → Ends (length t) (parse_sexp source (suc f) s)
unfolding parse_sexp advance parse_string parse_symbol_in_bars
sexp_step source f s [] e items_end = rw e (omega arith)
sexp_step source f s (c ∷ cs) e items_end = rw e (elim (Bool-cases (c == b'(')) [
  | inl p ↦ rw p (
      Ends-mono (length u) (suc (length cs)) _ (omega (arith, length-skip cs))
        (items_end u (omega (arith, length-skip cs))))
  | inr p ↦ rw p (elim (Bool-cases (c == b'"')) [
    | inl q ↦ rw q (Ends-delimited str source b'"' (c ∷ cs) (omega arith))
    | inr q ↦ rw q (elim (Bool-cases (c == b'|')) [
      | inl r ↦ rw r (Ends-delimited new_symbol source b'|' (c ∷ cs) (omega arith))
      | inr r ↦ rw r (elim (Bool-cases (c == 0)) [
        | inl z ↦ rw z (omega arith)
        | inr z ↦ rw z (Ends-unquoted source (c ∷ cs))
      ])
    ])
  ])
])
  where
    u : Text
    u = skip_whitespace cs

mutual
  unfolding parse_items

  Ends-sexp :
      (f : ℕ) (source : Source) (s : Text)
      → 2 * length s + 1 ≤ f
      → Ends (length s) (parse_sexp source f s)
  Ends-sexp zero source s h = absurd (omega arith)
  Ends-sexp (suc f) source s h =
      Ends-mono (length (skip_whitespace s)) (length s) _ (length-skip s) (
        sexp_step source f s (skip_whitespace s) refl
          (λ u k. Ends-items f source false [] u (omega (arith, length-skip s))))

  Ends-items :
      (f : ℕ) (source : Source) (improper : Bool) (items : List SExpression) (s : Text)
      → 2 * length s + 2 ≤ f
      → Ends (length s) (parse_items source f improper items s)
  Ends-items zero source improper items s h = absurd (omega arith)
  Ends-items (suc f) source improper items s h =
      items_step source f s (λ t k. Ends-sexp f source t (omega arith))
        (λ imp its t k. Ends-items f source imp its t (omega arith)) improper items
        (list_head source s) (Follows-list_head source s)

-- Reading one s-expression from a C string or from a file ends, with the fuel of twice the length
-- of the text and two; where it finds one, it leaves less text than there was.
pub parse_from-Ends : (source : Source) (s : Text) → Ends (length s) (parse_from source s)
unfolding parse_from
parse_from-Ends source s = Ends-sexp (fuel_for s) source s (omega arith)
