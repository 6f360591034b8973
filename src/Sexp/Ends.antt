-- ===== src/Sexp/Ends.antt =====
-- Strings and tokens end, and take at least one character.
use google_gtags.Prelude.{
  ℕ, zero, suc, ◌≤◌, ◌<◌, Bool, true, false, not, ◌&&◌, ◌||◌, [], ◌∷◌, ◌++◌, Text, ◌≡◌, ◌≢◌, refl,
  ◌==◌, length, Bool-cases, inl, inr, Option, none, some, if◌then◌else◌, arith,
}
use google_gtags.Prelude.Result.{Result, ok, fatal, undefined, out_of_fuel, ◌>>=◌}
use google_gtags.Strutil.{c_str}
use google_gtags.Sexp.{SExpression}
use google_gtags.Sexp.Parser.{
  Source, c_string, file, advance, skip_whitespace, Parsed, fill, fill_with_delimited_string,
  parsed_as, ends_token, read_token, make_token, integer_value, parse_unquoted_token,
}

-- A call that was given `n` characters ends, and leaves fewer of them if it found an s-expression.
abbrev pub Ends : ℕ → Parsed → Type 0
Ends n (ok (some v, rest)) = length rest < n
Ends n (ok (none, rest)) = length rest ≤ n
Ends n fatal = Unit
Ends n undefined = Unit
Ends n out_of_fuel = ⊥

pub Ends-mono : (m n : ℕ) (r : Parsed) → m ≤ n → Ends m r → Ends n r
Ends-mono m n (ok (some v, rest)) h e = omega arith
Ends-mono m n (ok (none, rest)) h e = omega arith
Ends-mono m n fatal h e = tt
Ends-mono m n undefined h e = tt
Ends-mono m n out_of_fuel h e = e

pub length-skip : (s : Text) → length (skip_whitespace s) ≤ length s
unfolding skip_whitespace
length-skip [] = omega arith
length-skip (c ∷ cs) = ground (arith, length-skip cs)

length-fill :
    (s : Text) (d : ℕ) (escaped : Bool) (out : Text) → length (fill d escaped out s).1 ≤ length s
unfolding fill
length-fill [] d escaped out = omega arith
length-fill (c ∷ cs) d escaped out =
    let opens = not escaped && c == b'\\' in
    ground (arith, length-fill cs d opens (if opens then out else out ++ c ∷ []))

Ends-parsed_as :
    (f : Text → SExpression) (n : ℕ) (p : Option Text × Text)
    → length p.1 < n
    → Ends n (parsed_as f p)
Ends-parsed_as f n (none, rest) h = omega arith
Ends-parsed_as f n (some t, rest) h = h

zero_ne : (d : ℕ) → (0 == suc d) ≡ false
zero_ne d = ground arith

pub Ends-delimited :
    (f : Text → SExpression) (source : Source) (d : ℕ) (s : Text)
    → 0 < d
    → Ends (length s) (fill_with_delimited_string source d s >>= parsed_as f)
unfolding fill_with_delimited_string advance
Ends-delimited f source zero [] h = absurd (omega arith)
Ends-delimited f source (suc d) [] h = rw (zero_ne d) tt
Ends-delimited f source d (c ∷ cs) h = elim (Bool-cases (c == d)) [
  | inl e ↦ rw e (
      Ends-parsed_as f (suc (length cs)) (fill d false [] cs)
        (omega (arith, length-fill cs d false [])))
  | inr e ↦ rw e tt
]

-- A token ends, and leaves at most the text that there was.
abbrev Reads : ℕ → Result (Text × Bool × Text) → Type 0
Reads n (ok (token, h, rest)) = length rest ≤ n
Reads n fatal = Unit
Reads n undefined = Unit
Reads n out_of_fuel = ⊥

Reads-suc : (n : ℕ) (r : Result (Text × Bool × Text)) → Reads n r → Reads (suc n) r
Reads-suc n (ok (token, h, rest)) e = omega arith
Reads-suc n fatal e = tt
Reads-suc n undefined e = tt
Reads-suc n out_of_fuel e = e

Reads-read_token :
    (s : Text) (source : Source) (escaping h : Bool) (token : Text)
    → Reads (length s) (read_token source escaping h token s)
unfolding read_token advance
Reads-read_token [] source false h token = omega arith
Reads-read_token [] c_string true h token = tt
Reads-read_token [] file true h token = omega arith
Reads-read_token (c ∷ cs) source escaping h token =
    let opens = not escaping && c == b'\\' in
    let rest =
      Reads-read_token cs source opens (h || opens) (if opens then token else token ++ c ∷ []) in
    elim (Bool-cases (not escaping && ends_token c)) [
      | inl e ↦ rw e (omega arith)
      | inr e ↦ rw e (Reads-suc (length cs) _ rest)
    ]

integer_value-ne-out_of_fuel : (t : Text) → integer_value t ≢ out_of_fuel
unfolding integer_value
integer_value-ne-out_of_fuel t = ground arith

make_token-ne-out_of_fuel : (h : Bool) (t : Text) → make_token h t ≢ out_of_fuel
unfolding make_token
make_token-ne-out_of_fuel h t = ground (arith, integer_value-ne-out_of_fuel (c_str t))

Ends-made :
    (n : ℕ) (rest : Text) (r : Result (Option SExpression))
    → r ≢ out_of_fuel
    → length rest ≤ n
    → Ends (suc n) (r >>= λ v. ok (v, rest))
Ends-made n rest (ok (some v)) h e = omega arith
Ends-made n rest (ok none) h e = omega arith
Ends-made n rest fatal h e = tt
Ends-made n rest undefined h e = tt
Ends-made n rest out_of_fuel h e = absurd (h refl)

Ends-token :
    (n : ℕ) (r : Result (Text × Bool × Text))
    → Reads n r
    → Ends (suc n) (r >>= λ t. make_token t.1 t.0 >>= λ v. ok (v, t.2))
Ends-token n (ok (token, h, rest)) e =
    Ends-made n rest (make_token h token) (make_token-ne-out_of_fuel h token) e
Ends-token n fatal e = tt
Ends-token n undefined e = tt
Ends-token n out_of_fuel e = e

no_token : (rest : Text) → make_token false [] ≡ fatal
unfolding make_token c_str
no_token rest = refl

-- The first character is taken, or the token is empty and its CHECK fails.
pub Ends-unquoted : (source : Source) (s : Text) → Ends (length s) (parse_unquoted_token source s)
unfolding parse_unquoted_token read_token make_token c_str
Ends-unquoted source [] = tt
Ends-unquoted source (c ∷ cs) =
    let opens = c == b'\\' in
    let next = Reads-read_token cs source opens opens (if opens then [] else c ∷ []) in
    elim (Bool-cases (ends_token c)) [
      | inl e ↦ rw e tt
      | inr e ↦ rw e (Ends-token (length cs) _ next)
    ]
