-- ===== src/IndexAgent/Arguments.antt =====
-- indexagent.cc: the files of a command are in order, each once.
use google_gtags.Prelude.{
  Bool, true, false, not, ◌&&◌, ◌||◌, List, [], ◌∷◌, Text, some_of, text_eq, text_eq_iff, ◌≡◌, ◌≢◌,
  refl, sym, ap, ◌∙◌, arith, Bool-cases, inl, inr, subst,
}
use google_gtags.Filename.{Comparison, less, equal, greater, strcmp}
use google_gtags.Filename.Order.{flip, strcmp-flip, strcmp_equal}
use google_gtags.TagsTable.{is_less}
use google_gtags.IndexAgent.{is_below, insert_arg, sort_args, unique_after, unique_args}

less-flip : (r : Comparison) → is_less r ≡ true → is_less (flip r) ≡ false
unfolding is_less
less-flip less h = refl
less-flip equal h = refl
less-flip greater h = absurd (ground arith)

below_flip : (a b : Text) → is_below a b ≡ true → is_below b a ≡ false
unfolding is_below
below_flip a b h = ap is_less (strcmp-flip a b) ∙ less-flip (strcmp a b) h

less-total : (r : Comparison) → is_less (flip r) ≡ false → r ≢ equal → is_less r ≡ true
unfolding is_less
less-total less h n = refl
less-total equal h n = absurd (n refl)
less-total greater h n = absurd (ground arith)

below_total : (a b : Text) → is_below b a ≡ false → text_eq a b ≡ false → is_below a b ≡ true
unfolding is_below
below_total a b h n =
    less-total (strcmp a b) (sym (ap is_less (strcmp-flip a b)) ∙ h)
      (λ e. absurd (ground (arith, (text_eq_iff a b).1 (strcmp_equal a b e))))

-- In order behind an element, with or without equal neighbours.
is_ordered : Text → List Text → Bool
is_ordered a [] = true
is_ordered a (b ∷ bs) = not (is_below b a) && is_ordered b bs

unfoldable pub is_increasing_from : Text → List Text → Bool
is_increasing_from a [] = true
is_increasing_from a (b ∷ bs) = is_below a b && is_increasing_from b bs

unfoldable pub is_increasing : List Text → Bool
unfolding is_increasing_from
is_increasing [] = true
is_increasing (a ∷ bs) = is_increasing_from a bs

insert_arg-is_ordered :
    (x a : Text) (bs : List Text)
    → is_ordered x bs ≡ true
    → is_below a x ≡ false
    → is_ordered x (insert_arg a bs) ≡ true
unfolding is_ordered insert_arg
insert_arg-is_ordered x a [] h k = ground arith
insert_arg-is_ordered x a (b ∷ bs) h k = elim (Bool-cases (is_below b a)) [
  | inl e ↦ rw e (ground (arith, insert_arg-is_ordered b a bs (ground arith) (below_flip b a e)))
  | inr e ↦ rw e (ground arith)
]

is_sorted_list : List Text → Bool
is_sorted_list [] = true
is_sorted_list (a ∷ bs) = is_ordered a bs

insert_arg-is_sorted_list :
    (a : Text) (bs : List Text) → is_sorted_list bs ≡ true → is_sorted_list (insert_arg a bs) ≡ true
unfolding is_sorted_list insert_arg is_ordered
insert_arg-is_sorted_list a [] h = refl
insert_arg-is_sorted_list a (b ∷ bs) h = elim (Bool-cases (is_below b a)) [
  | inl e ↦ rw e (insert_arg-is_ordered b a bs h (below_flip b a e))
  | inr e ↦ rw e (ground arith)
]

sort_args-is_sorted_list : (bs : List Text) → is_sorted_list (sort_args bs) ≡ true
unfolding sort_args is_sorted_list
sort_args-is_sorted_list [] = refl
sort_args-is_sorted_list (b ∷ bs) =
    insert_arg-is_sorted_list b (sort_args bs) (sort_args-is_sorted_list bs)

unique_after-is_increasing :
    (a : Text) (bs : List Text)
    → is_ordered a bs ≡ true
    → is_increasing_from a (unique_after a bs) ≡ true
unfolding is_ordered is_increasing_from unique_after
unique_after-is_increasing a [] h = refl
unique_after-is_increasing a (b ∷ bs) h =
    let rest = unique_after-is_increasing b bs (ground arith) in
    elim (Bool-cases (text_eq a b)) [
      | inl e ↦ rw e (
          subst (λ c. is_increasing_from c (unique_after b bs) ≡ true) (sym ((text_eq_iff a b).0 e))
            rest)
      | inr e ↦ rw e (ground (arith, rest, below_total a b (ground arith) e))
    ]

some_of-insert_arg :
    (p : Text → Bool) (a : Text) (bs : List Text)
    → some_of p (insert_arg a bs) ≡ (p a || some_of p bs)
unfolding some_of insert_arg
some_of-insert_arg p a [] = refl
some_of-insert_arg p a (b ∷ bs) = ground (arith, some_of-insert_arg p a bs)

some_of-sort_args : (p : Text → Bool) (bs : List Text) → some_of p (sort_args bs) ≡ some_of p bs
unfolding some_of sort_args
some_of-sort_args p [] = refl
some_of-sort_args p (b ∷ bs) =
    some_of-insert_arg p b (sort_args bs) ∙ ap (λ c. p b || c) (some_of-sort_args p bs)

some_of-unique_after :
    (p : Text → Bool) (a : Text) (bs : List Text)
    → (p a || some_of p (unique_after a bs)) ≡ (p a || some_of p bs)
unfolding some_of unique_after
some_of-unique_after p a [] = refl
some_of-unique_after p a (b ∷ bs) =
    let rest = some_of-unique_after p b bs in
    elim (Bool-cases (text_eq a b)) [
      | inl e ↦ rw e (ground (arith, rest, ap p ((text_eq_iff a b).0 e)))
      | inr e ↦ rw e (ground (arith, rest))
    ]

unique_args-is_increasing :
    (bs : List Text) → is_sorted_list bs ≡ true → is_increasing (unique_args bs) ≡ true
unfolding is_sorted_list is_increasing unique_args
unique_args-is_increasing [] h = refl
unique_args-is_increasing (b ∷ bs) h = unique_after-is_increasing b bs h

some_of-unique_args : (p : Text → Bool) (bs : List Text) → some_of p (unique_args bs) ≡ some_of p bs
unfolding some_of unique_args
some_of-unique_args p [] = refl
some_of-unique_args p (b ∷ bs) = some_of-unique_after p b bs

-- The arguments of the indexer are in increasing order, so that none stands twice, and they are the files
-- that were asked for, each of them and no others.
pub unique_args-sort_args :
    (files : List Text) (f : Text)
    → (is_increasing (unique_args (sort_args files)) ≡ true)
      × (some_of (text_eq f) (unique_args (sort_args files)) ≡ some_of (text_eq f) files)
unique_args-sort_args files f = (
  unique_args-is_increasing (sort_args files) (sort_args-is_sorted_list files),
  some_of-unique_args (text_eq f) (sort_args files) ∙ some_of-sort_args (text_eq f) files,
)
