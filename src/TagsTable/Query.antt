-- ===== src/TagsTable/Query.antt =====
-- tagstable.cc: the queries that walk a range of the multimap, against a scan of all of it.
mod Prefix
use google_gtags.Prelude.{
  ℕ, zero, suc, Bool, true, false, not, ◌&&◌, List, [], ◌∷◌, Text, keep_cong, same, ◌≡◌, ◌↔◌, refl,
  sym, arith, every, every_mono, keep, take, length, leb, text_eq, text_eq_iff, Bool-cases, inl,
  inr, if◌then◌else◌, ◌∙◌, ap, ==_iff, ◌==◌,
}
use google_gtags.Strutil.{c_str}
use google_gtags.Filename.{strcmp}
use google_gtags.TagsTable.{
  TagsResult, Config, TagsTable, RegExp, is_less, tag_lt, lower_bound, take_while, take_matching,
  is_prefix, find_tags, find_regexp_tags, contains_regexp_char,
}
use google_gtags.TagsTable.Query.Prefix.{is_prefix-not-below, is_prefix_between}
use google_gtags.TagsTable.Sorted.{tag_lt_irrefl, tag_lt_total, tag_le_trans, is_sorted}

-- The loop that takes every hit is the list of hits, cut off.
pub take_matching-keep :
    (n : ℕ) (p : TagsResult → Bool) (xs : List TagsResult)
    → take_matching n p xs ≡ take n (keep p xs)
unfolding take_matching keep
take_matching-keep zero p xs = refl
take_matching-keep (suc n) p [] = refl
take_matching-keep (suc n) p (x ∷ xs) =
    ground (arith, take_matching-keep n p xs, take_matching-keep (suc n) p xs)

-- Behind an entry that fails the test, every entry does.
closed : (TagsResult → Bool) → List TagsResult → Bool
closed p [] = true
closed p (x ∷ xs) = let rest = closed p xs in if p x then rest else every (λ y. not (p y)) xs

keep_none :
    (p : TagsResult → Bool) (xs : List TagsResult)
    → every (λ y. not (p y)) xs ≡ true
    → keep p xs ≡ []
unfolding keep
keep_none p [] h = refl
keep_none p (x ∷ xs) h = ground (arith, keep_none p xs (ground arith))

take_while-keep :
    (n : ℕ) (p : TagsResult → Bool) (xs : List TagsResult)
    → closed p xs ≡ true
    → take_while n p xs ≡ take n (keep p xs)
unfolding take_while keep closed
take_while-keep zero p xs h = refl
take_while-keep (suc n) p [] h = refl
take_while-keep (suc n) p (x ∷ xs) h = elim (Bool-cases (p x)) [
  | inl e ↦ rw e (ground (arith, take_while-keep n p xs))
  | inr e ↦ rw e (ground (arith, keep_none p xs))
]

-- In sorted entries from `tag` on, a test that goes from each entry back to those between it and
-- `tag` is closed.
sorted-closed :
    (p : TagsResult → Bool) (tag : Text)
    → ((x y : TagsResult)
        → tag_lt x.tag tag ≡ false
        → tag_lt y.tag x.tag ≡ false
        → p x ≡ false
        → p y ≡ false)
    → (xs : List TagsResult) → is_sorted xs ≡ true
    → every (λ x. not (tag_lt x.tag tag)) xs ≡ true
    → closed p xs ≡ true
unfolding closed is_sorted
sorted-closed p tag back [] h k = refl
sorted-closed p tag back (x ∷ xs) h k = elim (Bool-cases (p x)) [
  | inl e ↦ rw e (sorted-closed p tag back xs (ground arith) (ground arith))
  | inr e ↦ rw e (
      every_mono {p = λ y. not (tag_lt y.tag x.tag)} {q = λ y. not (p y)}
        (λ y l. ground (arith, back x y)) xs (ground arith))
]

lower_bound-is_sorted :
    (tag : Text) (xs : List TagsResult)
    → is_sorted xs ≡ true
    → is_sorted (lower_bound tag xs) ≡ true
unfolding is_sorted lower_bound
lower_bound-is_sorted tag [] h = refl
lower_bound-is_sorted tag (x ∷ xs) h = ground (arith, lower_bound-is_sorted tag xs)

above_trans :
    (tag : Text) (x : TagsResult) (xs : List TagsResult)
    → tag_lt x.tag tag ≡ false
    → every (λ y. not (tag_lt y.tag x.tag)) xs ≡ true
    → every (λ y. not (tag_lt y.tag tag)) xs ≡ true
above_trans tag x xs h =
    every_mono {p = λ y. not (tag_lt y.tag x.tag)} {q = λ y. not (tag_lt y.tag tag)}
      (λ y k. ground (arith, tag_le_trans tag x.tag y.tag h)) xs

lower_bound_above :
    (tag : Text) (xs : List TagsResult)
    → is_sorted xs ≡ true
    → every (λ x. not (tag_lt x.tag tag)) (lower_bound tag xs) ≡ true
unfolding is_sorted lower_bound
lower_bound_above tag [] h = refl
lower_bound_above tag (x ∷ xs) h = elim (Bool-cases (tag_lt x.tag tag)) [
  | inl e ↦ rw e (lower_bound_above tag xs (ground arith))
  | inr e ↦ rw e (ground (arith, above_trans tag x xs e))
]

-- What `lower_bound` leaves out fails every test that holds of no tag below `tag`.
keep-lower_bound :
    (p : TagsResult → Bool) (tag : Text)
    → ((x : TagsResult) → tag_lt x.tag tag ≡ true → p x ≡ false)
    → (xs : List TagsResult) → keep p (lower_bound tag xs) ≡ keep p xs
unfolding keep lower_bound
keep-lower_bound p tag below [] = refl
keep-lower_bound p tag below (x ∷ xs) = elim (Bool-cases (tag_lt x.tag tag)) [
  | inl e ↦ rw (e, below x e) (keep-lower_bound p tag below xs)
  | inr e ↦ rw e
]

-- A walk from the lower bound while a test holds finds what a scan of all entries finds.
walk-scan :
    (n : ℕ) (p q : TagsResult → Bool) (tag : Text)
    → ((x y : TagsResult)
        → tag_lt x.tag tag ≡ false
        → tag_lt y.tag x.tag ≡ false
        → p x ≡ false
        → p y ≡ false)
    → ((x : TagsResult) → tag_lt x.tag tag ≡ false → p x ≡ q x)
    → ((x : TagsResult) → tag_lt x.tag tag ≡ true → q x ≡ false)
    → (xs : List TagsResult) → is_sorted xs ≡ true
    → take_while n p (lower_bound tag xs) ≡ take n (keep q xs)
walk-scan n p q tag back agree below xs h =
    let above = lower_bound_above tag xs h in
    take_while-keep n p (lower_bound tag xs)
      (sorted-closed p tag back (lower_bound tag xs) (lower_bound-is_sorted tag xs h) above)
    ∙ ap (take n) (
        keep_cong p q (lower_bound tag xs) (
          every_mono {p = λ x. not (tag_lt x.tag tag)} {q = λ x. same (p x) (q x)}
            (λ x k. ground (arith, agree x)) (lower_bound tag xs) above))
    ∙ ap (take n) (keep-lower_bound q tag below xs)

-- On a table whose entries are in the order of their tags, `FindTags` finds the first entries, at
-- most `max_results`, of those that have the tag, as a scan of all entries would.
pub find_tags-scan :
    (c : Config) (tag : Text) (t : TagsTable)
    → is_sorted t.tag_map ≡ true
    → find_tags c tag t ≡ take c.max_results (keep (λ r. text_eq r.tag (c_str tag)) t.tag_map)
unfolding find_tags
find_tags-scan c tag t =
    walk-scan c.max_results (λ r. not (tag_lt q r.tag)) (λ r. text_eq r.tag q) q back agree below
      t.tag_map
  where
    q : Text
    q = c_str tag

    back :
        (x y : TagsResult)
        → tag_lt x.tag q ≡ false
        → tag_lt y.tag x.tag ≡ false
        → not (tag_lt q x.tag) ≡ false
        → not (tag_lt q y.tag) ≡ false
    back x y h k l = elim (Bool-cases (tag_lt q y.tag)) [
      | inl e ↦ rw e
      | inr e ↦ absurd (ground (arith, tag_le_trans x.tag y.tag q k e))
    ]

    agree : (x : TagsResult) → tag_lt x.tag q ≡ false → not (tag_lt q x.tag) ≡ text_eq x.tag q
    agree x h = ground (arith, tag_lt_total x.tag q h, text_eq_iff x.tag q, tag_lt_irrefl q)

    below : (x : TagsResult) → tag_lt x.tag q ≡ true → text_eq x.tag q ≡ false
    below x h = ground (arith, text_eq_iff x.tag q, tag_lt_irrefl q)

-- On a table whose entries are in the order of their tags, for a query without NUL and without the
-- characters of a regular expression, `FindRegexpTags` finds the first entries, at most
-- `max_results`, of those whose tag has the query as a prefix, as a scan of all entries would.
pub find_regexp_tags-scan :
    (re : RegExp) (c : Config) (tag : Text) (t : TagsTable)
    → is_sorted t.tag_map ≡ true
    → c_str tag ≡ tag
    → contains_regexp_char re tag ≡ false
    → find_regexp_tags re c tag t ≡ take c.max_results (keep (λ r. is_prefix tag r.tag) t.tag_map)
unfolding find_regexp_tags
find_regexp_tags-scan re c tag t h z n =
    rw (n, z)
      (walk-scan c.max_results (λ r. is_prefix tag r.tag) (λ r. is_prefix tag r.tag) tag back
        (λ x k. refl) below t.tag_map h)
  where
    back :
        (x y : TagsResult)
        → tag_lt x.tag tag ≡ false
        → tag_lt y.tag x.tag ≡ false
        → is_prefix tag x.tag ≡ false
        → is_prefix tag y.tag ≡ false
    back x y h k l = elim (Bool-cases (is_prefix tag y.tag)) [
      | inr e ↦ e
      | inl e ↦ absurd (cc (is_prefix_between tag x.tag y.tag h k e, l))
    ]

    below : (x : TagsResult) → tag_lt x.tag tag ≡ true → is_prefix tag x.tag ≡ false
    below x h = elim (Bool-cases (is_prefix tag x.tag)) [
      | inr e ↦ e
      | inl e ↦ absurd (cc (is_prefix-not-below tag x.tag e, h))
    ]
