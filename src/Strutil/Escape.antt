-- ===== src/Strutil/Escape.antt =====
-- strutil.cc: `CEscape` with no buffer.
use google_gtags.Prelude.{
  ℕ, Bool, true, not, [], ◌∷◌, ◌++◌, Text, every, append_assoc, append-nil, ◌≡◌, refl, sym, ap, ◌∙◌,
  ◌==◌, arith,
}
use google_gtags.Strutil.{c_str, c_escape_char, c_escape_loop, c_escape}

abbrev pub is_nonzero : ℕ → Bool
is_nonzero c = not (c == 0)

pub c_str-every : (s : Text) → every is_nonzero s ≡ true → c_str s ≡ s
unfolding c_str
c_str-every [] h = refl
c_str-every (c ∷ cs) h = ground (arith, c_str-every cs)

unfoldable pub escaped : Text → Text
escaped [] = []
escaped (c ∷ cs) = c_escape_char c ++ escaped cs

c_escape_loop-escaped : (s out : Text) → c_escape_loop out s ≡ out ++ escaped s
unfolding c_escape_loop escaped
c_escape_loop-escaped [] out = sym (append-nil out)
c_escape_loop-escaped (c ∷ cs) out = simp (c_escape_loop-escaped cs, append_assoc)

pub c_escape-escaped : (s : Text) → every is_nonzero s ≡ true → c_escape s ≡ escaped s
unfolding c_escape
c_escape-escaped s h = c_escape_loop-escaped (c_str s) [] ∙ ap escaped (c_str-every s h)
