-- ===== src/TagsTable/Unload.antt =====
-- tagstable.cc: unloading a file, through the index of files or by a scan.
use google_gtags.Prelude.{
  Bool, true, not, ◌&&◌, ◌||◌, List, [], ◌∷◌, ◌≡◌, refl, sym, arith, every, every_mono, every_all,
  every-keep, keep, keep_cong, keep-every, keep-keep, same, same_eq, some_of, text_eq, ◌==◌,
  Bool-cases, inl, inr, ◌∙◌, ap,
}
use google_gtags.Filename.{Filename, eq_filename}
use google_gtags.TagsTable.{TagsResult, is_object, erase_result, erase_results, without_file}

-- No two entries are the same object.
unfoldable pub is_distinct : List TagsResult → Bool
is_distinct [] = true
is_distinct (x ∷ xs) = every (λ y. not (y.addr == x.addr)) xs && is_distinct xs

pub keep-is_distinct :
    (p : TagsResult → Bool) (xs : List TagsResult)
    → is_distinct xs ≡ true
    → is_distinct (keep p xs) ≡ true
unfolding is_distinct keep
keep-is_distinct p [] h = refl
keep-is_distinct p (x ∷ xs) h =
    let other : TagsResult → Bool = λ y. not (y.addr == x.addr) in
    let kept = every-keep {p = other} {q = p} {r = other} (λ y k l. k) xs (ground arith) in
    ground (arith, keep-is_distinct p xs, kept)

-- Among distinct objects, erasing the first that is this one erases all that are.
erase_result-keep :
    (r : TagsResult) (xs : List TagsResult)
    → is_distinct xs ≡ true
    → erase_result r xs ≡ keep (λ x. not (is_object r x)) xs
unfolding erase_result is_object keep is_distinct
erase_result-keep r [] h = refl
erase_result-keep r (x ∷ xs) h =
    let other : TagsResult → Bool = λ y. not (y.addr == x.addr) in
    let miss : TagsResult → Bool = λ y. not (y.addr == r.addr && text_eq y.tag r.tag) in
    let all : x.addr ≡ r.addr → every miss xs ≡ true =
      λ e. every_mono {p = other} {q = miss} (λ y k. ground arith) xs (ground arith) in
    elim (Bool-cases (x.addr == r.addr && text_eq x.tag r.tag)) [
      | inl e ↦ rw e (sym (keep-every miss xs (all (ground arith))))
      | inr e ↦ rw e (ap (λ l. x ∷ l) (erase_result-keep r xs (ground arith)))
    ]

erase_results-keep :
    (rs : List TagsResult) (xs : List TagsResult)
    → is_distinct xs ≡ true
    → erase_results rs xs ≡ keep (λ x. not (some_of (λ r. is_object r x) rs)) xs
unfolding erase_results some_of
erase_results-keep [] xs h = sym (keep-every (λ x. true) xs (every_all (λ x. refl) xs))
erase_results-keep (r ∷ rs) xs h =
    let miss : TagsResult → Bool = λ x. not (is_object r x) in
    let rest : TagsResult → Bool = λ x. not (some_of (λ s. is_object s x) rs) in
    let both : TagsResult → Bool = λ x. not (is_object r x || some_of (λ s. is_object s x) rs) in
    ap (erase_results rs) (erase_result-keep r xs h)
    ∙ erase_results-keep rs (keep miss xs) (keep-is_distinct miss xs h)
    ∙ keep-keep rest miss xs
    ∙ keep_cong (λ x. rest x && miss x) both xs (every_all (λ x. ground arith) xs)

-- The entry of the index names the objects of the file, and no others.
unfoldable pub is_entry : List TagsResult → Filename → List TagsResult → Bool
is_entry m f rs = every (λ x. same (some_of (λ r. is_object r x) rs) (eq_filename x.filename f)) m

-- Then erasing what it names is the scan for the file.
pub erase_results-without_file :
    (m rs : List TagsResult) (f : Filename)
    → is_distinct m ≡ true
    → is_entry m f rs ≡ true
    → erase_results rs m ≡ without_file f m
unfolding is_entry without_file
erase_results-without_file m rs f h k =
    let named : TagsResult → Bool = λ x. some_of (λ r. is_object r x) rs in
    erase_results-keep rs m h
    ∙ keep_cong (λ x. not (named x)) (λ x. not (eq_filename x.filename f)) m
        (every_mono {p = λ x. same (named x) (eq_filename x.filename f)}
          {q = λ x. same (not (named x)) (not (eq_filename x.filename f))}
          (λ x e. ground (arith, same_eq (named x) (eq_filename x.filename f) e)) m k)
