-- ===== src/Sexp/Printer.antt =====
-- sexpression.cc: `WriteRepr` of each class, and `Repr`.
use google_gtags.Prelude.{
  [], ◌∷◌, ◌++◌, Text, codes, ◌==◌, ◌≡◌, refl, ◌∙◌, if◌then◌else◌, append_assoc, append-nil, sym,
  Bool-cases, inl, inr,
}
use google_gtags.Strutil.{c_str, c_escape, fast_itoa}
use google_gtags.Sexp.{SExpression, nil, pair, symbol, str, int, needs_quoting}

-- The loop of `SExpressionSymbol::WriteRepr`: only a bar gets a backslash.
write_barred : Text → Text → Text
write_barred out [] = out
write_barred out (c ∷ cs) =
    write_barred ((if c == b'|' then out ++ b'\\' ∷ [] else out) ++ c ∷ []) cs

abbrev write_symbol : Text → Text → Text
write_symbol out name =
    if needs_quoting name
    then write_barred (out ++ b'|' ∷ []) (c_str name) ++ b'|' ∷ []
    else out ++ name

-- `WriteRepr(str)` appends to `str`. `write_without_parens` is `WriteReprWithoutParens` behind
-- the car; its argument is the cdr.
mutual
  pub write_repr : SExpression → Text → Text
  write_repr nil out = out ++ codes "nil"
  write_repr (pair a d) out = write_without_parens d (write_repr a (out ++ b'(' ∷ [])) ++ b')' ∷ []
  write_repr (symbol name) out = write_symbol out name
  write_repr (str value) out = ((out ++ b'"' ∷ []) ++ c_escape value) ++ b'"' ∷ []
  write_repr (int value) out = out ++ fast_itoa value

  pub write_without_parens : SExpression → Text → Text
  write_without_parens nil out = out
  write_without_parens (pair a d) out = write_without_parens d (write_repr a (out ++ codes " "))
  write_without_parens (symbol name) out = write_symbol (out ++ codes " . ") name
  write_without_parens (str value) out =
      (((out ++ codes " . ") ++ b'"' ∷ []) ++ c_escape value) ++ b'"' ∷ []
  write_without_parens (int value) out = (out ++ codes " . ") ++ fast_itoa value

unfoldable pub repr : SExpression → Text
unfolding write_repr write_without_parens write_barred
repr v = write_repr v []

-- The same with no accumulator.
unfoldable pub barred : Text → Text
barred [] = []
barred (c ∷ cs) = (if c == b'|' then b'\\' ∷ c ∷ [] else c ∷ []) ++ barred cs

abbrev pub shown_symbol : Text → Text
shown_symbol name = if needs_quoting name then b'|' ∷ (barred (c_str name) ++ b'|' ∷ []) else name

abbrev pub shown_string : Text → Text
shown_string value = b'"' ∷ (c_escape value ++ b'"' ∷ [])

unfoldable mutual
  pub shown : SExpression → Text
  shown nil = codes "nil"
  shown (pair a d) = b'(' ∷ (shown a ++ (shown_tail d ++ b')' ∷ []))
  shown (symbol name) = shown_symbol name
  shown (str value) = shown_string value
  shown (int value) = fast_itoa value

  pub shown_tail : SExpression → Text
  shown_tail nil = []
  shown_tail (pair a d) = b' ' ∷ (shown a ++ shown_tail d)
  shown_tail (symbol name) = codes " . " ++ shown_symbol name
  shown_tail (str value) = codes " . " ++ shown_string value
  shown_tail (int value) = codes " . " ++ fast_itoa value

write_barred-barred : (cs out : Text) → write_barred out cs ≡ out ++ barred cs
unfolding write_barred barred
write_barred-barred [] out = sym (append-nil out)
write_barred-barred (c ∷ cs) out = elim (Bool-cases (c == b'|')) [
  | inl e ↦ rw e (simp (write_barred-barred cs, append_assoc))
  | inr e ↦ rw e (simp (write_barred-barred cs, append_assoc))
]

write_symbol-shown : (name out : Text) → write_symbol out name ≡ out ++ shown_symbol name
write_symbol-shown name out = elim (Bool-cases (needs_quoting name)) [
  | inl e ↦ rw e (simp (write_barred-barred, append_assoc))
  | inr e ↦ rw e
]

mutual
  unfolding write_repr write_without_parens shown shown_tail

  write_repr-shown : (v : SExpression) (out : Text) → write_repr v out ≡ out ++ shown v
  write_repr-shown nil out = refl
  write_repr-shown (pair a d) out =
      simp (write_without_parens-shown d, write_repr-shown a, append_assoc)
  write_repr-shown (symbol name) out = write_symbol-shown name out
  write_repr-shown (str value) out = simp append_assoc
  write_repr-shown (int value) out = refl

  write_without_parens-shown :
      (d : SExpression) (out : Text) → write_without_parens d out ≡ out ++ shown_tail d
  write_without_parens-shown nil out = sym (append-nil out)
  write_without_parens-shown (pair a d) out =
      simp (write_without_parens-shown d, write_repr-shown a, append_assoc)
  write_without_parens-shown (symbol name) out =
      write_symbol-shown name (out ++ codes " . ")
      ∙ append_assoc out (codes " . ") (shown_symbol name)
  write_without_parens-shown (str value) out = simp append_assoc
  write_without_parens-shown (int value) out = simp append_assoc

pub repr-shown : (v : SExpression) → repr v ≡ shown v
unfolding repr
repr-shown v = write_repr-shown v []
