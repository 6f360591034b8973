-- ===== src/TagsTable/Sorted.antt =====
-- tagstable.cc: the order of the multimap from tags, which inserting and erasing keep.
use google_gtags.Prelude.{
  Bool, true, false, not, ◌&&◌, List, [], ◌∷◌, Text, ◌≡◌, refl, arith, every, every_mono,
  every-keep, keep, Bool-cases, inl, inr,
}
use google_gtags.Filename.{Comparison, less, equal, greater, strcmp}
use google_gtags.Filename.Order.{strcmp-flip, strcmp_equal, strcmp_self, strcmp_trans}
use google_gtags.TagsTable.{TagsResult, is_less, tag_lt, insert_tag}

pub tag_lt_irrefl : (a : Text) → tag_lt a a ≡ false
unfolding tag_lt is_less
tag_lt_irrefl a = ground (arith, strcmp_self a)

less_of : (o : Comparison) → is_less o ≡ true → o ≡ less
unfolding is_less
less_of less h = refl
less_of equal h = absurd (ground arith)
less_of greater h = absurd (ground arith)

pub tag_lt_trans : (a b c : Text) → tag_lt a b ≡ true → tag_lt b c ≡ true → tag_lt a c ≡ true
unfolding tag_lt
tag_lt_trans a b c h k =
    rw (strcmp_trans a b c (less_of (strcmp a b) h) (less_of (strcmp b c) k))
      (unfold is_less in refl)

-- Neither is below the other: they are the same.
pub tag_lt_total : (a b : Text) → tag_lt a b ≡ false → tag_lt b a ≡ false → a ≡ b
unfolding tag_lt is_less
tag_lt_total a b h k = ground (arith, strcmp-flip a b, strcmp_equal a b)

pub tag_le_trans : (a b c : Text) → tag_lt b a ≡ false → tag_lt c b ≡ false → tag_lt c a ≡ false
tag_le_trans a b c h k = elim (Bool-cases (tag_lt c a)) [
  | inr e ↦ e
  | inl e ↦ elim (Bool-cases (tag_lt a b)) [
    | inl l ↦ absurd (cc (tag_lt_trans c a b e l, k))
    | inr l ↦ absurd (cc (tag_lt_total a b l h, e, k))
  ]
]

pub tag_lt_asym : (a b : Text) → tag_lt a b ≡ true → tag_lt b a ≡ false
tag_lt_asym a b h = elim (Bool-cases (tag_lt b a)) [
  | inr e ↦ e
  | inl e ↦ absurd (cc (tag_lt_trans a b a h e, tag_lt_irrefl a))
]

-- Every entry is followed only by entries that are not below it.
unfoldable pub is_sorted : List TagsResult → Bool
is_sorted [] = true
is_sorted (x ∷ xs) = every (λ y. not (tag_lt y.tag x.tag)) xs && is_sorted xs

pub every-insert_tag :
    (p : TagsResult → Bool) (r : TagsResult) (xs : List TagsResult)
    → every p (insert_tag r xs) ≡ (p r && every p xs)
unfolding insert_tag
every-insert_tag p r [] = refl
every-insert_tag p r (x ∷ xs) = ground (arith, every-insert_tag p r xs)

insert_front :
    (r x : TagsResult) (xs : List TagsResult)
    → tag_lt r.tag x.tag ≡ true
    → every (λ y. not (tag_lt y.tag x.tag)) xs ≡ true
    → every (λ y. not (tag_lt y.tag r.tag)) xs ≡ true
insert_front r x xs h =
    every_mono {p = λ y. not (tag_lt y.tag x.tag)} {q = λ y. not (tag_lt y.tag r.tag)}
      (λ y k. ground (arith, tag_le_trans r.tag x.tag y.tag (tag_lt_asym r.tag x.tag h))) xs

pub insert_tag-is_sorted :
    (r : TagsResult) (xs : List TagsResult)
    → is_sorted xs ≡ true
    → is_sorted (insert_tag r xs) ≡ true
unfolding is_sorted insert_tag
insert_tag-is_sorted r [] h = refl
insert_tag-is_sorted r (x ∷ xs) h = elim (Bool-cases (tag_lt r.tag x.tag)) [
  | inl e ↦ rw e (ground (arith, tag_lt_asym r.tag x.tag e, insert_front r x xs e))
  | inr e ↦ rw e (
      ground
        (arith, insert_tag-is_sorted r xs, every-insert_tag (λ y. not (tag_lt y.tag x.tag)) r xs))
]

pub keep-is_sorted :
    (p : TagsResult → Bool) (xs : List TagsResult)
    → is_sorted xs ≡ true
    → is_sorted (keep p xs) ≡ true
unfolding is_sorted keep
keep-is_sorted p [] h = refl
keep-is_sorted p (x ∷ xs) h =
    let above : TagsResult → Bool = λ y. not (tag_lt y.tag x.tag) in
    let kept = every-keep {p = above} {q = p} {r = above} (λ y k l. k) xs (ground arith) in
    ground (arith, keep-is_sorted p xs, kept)
