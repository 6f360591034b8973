-- ===== src/TagsTable/Query/Prefix.antt =====
-- tagstable.cc: the strings with one prefix are a range of the order of `strcmp`.
use google_gtags.Prelude.{true, false, ◌&&◌, [], ◌∷◌, Text, ◌≡◌, refl, arith, text_eq, ◌==◌}
use google_gtags.Filename.{strcmp}
use google_gtags.TagsTable.{is_less, tag_lt, is_prefix}

is_prefix_step : (x y : _) (a b : Text) → is_prefix (x ∷ a) (y ∷ b) ≡ (y == x && is_prefix a b)
unfolding is_prefix text_eq
is_prefix_step x y a b = ground arith

-- A string with a prefix is not below it.
pub is_prefix-not-below : (a b : Text) → is_prefix a b ≡ true → tag_lt b a ≡ false
unfolding tag_lt is_less strcmp
is_prefix-not-below [] [] h = refl
is_prefix-not-below [] (y ∷ b) h = refl
is_prefix-not-below (x ∷ a) [] h = absurd (unfold is_prefix in ground arith)
is_prefix-not-below (x ∷ a) (y ∷ b) h =
    ground (arith, is_prefix_step x y a b, is_prefix-not-below a b)

-- What lies between a prefix and a string that has it, has it.
pub is_prefix_between :
    (a x y : Text)
    → tag_lt x a ≡ false
    → tag_lt y x ≡ false
    → is_prefix a y ≡ true
    → is_prefix a x ≡ true
unfolding tag_lt is_less strcmp
is_prefix_between [] x y h k l = unfold is_prefix text_eq in ground arith
is_prefix_between (c ∷ a) [] y h k l = absurd (ground arith)
is_prefix_between (c ∷ a) (d ∷ x) [] h k l = absurd (unfold is_prefix in ground arith)
is_prefix_between (c ∷ a) (d ∷ x) (e ∷ y) h k l =
    ground (arith, is_prefix_step c d a x, is_prefix_step c e a y, is_prefix_between a x y)
