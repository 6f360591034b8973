-- ===== src/TagsTable/WellFormed/Inserts.antt =====
-- tagstable.cc: what one more object does to the index of files.
use google_gtags.Prelude.{
  ℕ, suc, true, false, not, ◌&&◌, List, [], ◌∷◌, ◌≡◌, refl, sym, arith, every, every_mono,
  every_and, every_of_none, none_of_every, some_of, same, ◌==◌, ltb, Bool-cases, Option-cases, inl,
  inr, ap, none, some,
}
use google_gtags.Filename.{Filename, eq_filename}
use google_gtags.Filename.Order.{eq_filename_iff}
use google_gtags.TagsTable.{TagsResult, is_object, has_file, find_file_entry, insert_tag}
use google_gtags.TagsTable.Sorted.{every-insert_tag}
use google_gtags.TagsTable.Unload.{is_distinct, is_entry}
use google_gtags.TagsTable.WellFormed.{has_entry, is_live, is_index}

-- Of a file in a set and one that is not there, neither is the other.
pub other_file :
    (x f : Filename) (fs : List Filename)
    → has_file x fs ≡ true
    → has_file f fs ≡ false
    → eq_filename x f ≡ false
other_file x f fs h k = elim (Bool-cases (eq_filename x f)) [
  | inr e ↦ e
  | inl e ↦ absurd (ground (arith, ap (λ y. has_file y fs) ((eq_filename_iff x f).0 e)))
]

pub eq_filename_comm : (a b : Filename) → eq_filename a b ≡ false → eq_filename b a ≡ false
eq_filename_comm a b h = elim (Bool-cases (eq_filename b a)) [
  | inr e ↦ e
  | inl e ↦ absurd (ground (arith, (eq_filename_iff a b).1 (sym ((eq_filename_iff b a).0 e))))
]

-- An object that was made after those of an entry is none of them.
pub newer-none :
    (x : TagsResult) (rs : List TagsResult)
    → every (λ r. ltb r.addr x.addr) rs ≡ true
    → some_of (λ r. is_object r x) rs ≡ false
unfolding is_object
newer-none x rs h =
    none_of_every (λ r. is_object r x) rs
      (every_mono {p = λ r. ltb r.addr x.addr} {q = λ r. not (is_object r x)} (λ r k. ground arith)
        rs h)

pub find_live :
    (next : ℕ) (fs : List Filename) (g : Filename) (fm : List (Filename × List TagsResult))
    (rs : List TagsResult)
    → every (is_live next fs) fm ≡ true
    → find_file_entry g fm ≡ some rs
    → every (λ r. ltb r.addr next) rs ≡ true
unfolding find_file_entry is_live
find_live next fs g [] rs h k = absurd (ground arith)
find_live next fs g ((f, qs) ∷ fm) rs h k = elim (Bool-cases (eq_filename f g)) [
  | inl e ↦ ground arith
  | inr e ↦ find_live next fs g fm rs (ground arith) (ground arith)
]

pub find_absent :
    (next : ℕ) (fs : List Filename) (f : Filename) (fm : List (Filename × List TagsResult))
    → every (is_live next fs) fm ≡ true
    → has_file f fs ≡ false
    → find_file_entry f fm ≡ none
unfolding find_file_entry is_live
find_absent next fs f [] h k = refl
find_absent next fs f ((g, rs) ∷ fm) h k =
    ground (arith, other_file g f fs (ground arith) k, find_absent next fs f fm (ground arith) k)

-- A new object of one file leaves the entries of the others as they are.
pub has_entry-insert_tag :
    (r : TagsResult) (g : Filename) (fs : List Filename) (m : List TagsResult)
    (fm : List (Filename × List TagsResult))
    → every (is_live r.addr fs) fm ≡ true
    → eq_filename r.filename g ≡ false
    → has_entry m fm g ≡ true
    → has_entry (insert_tag r m) fm g ≡ true
unfolding has_entry is_entry
has_entry-insert_tag r g fs m fm h k e = elim (Option-cases (find_file_entry g fm)) [
  | inl n ↦ absurd (ground arith)
  | inr (rs, n) ↦
      let none_new = newer-none r rs (find_live r.addr fs g fm rs h n) in
      rw
        (
          n,
          has_entry,
          every-insert_tag (λ x. same (some_of (λ r. is_object r x) rs) (eq_filename x.filename g))
              r m,
          none_new,
          k,
        )
        (ground arith)
]

pub is_live-suc :
    (next : ℕ) (fs : List Filename) (fm : List (Filename × List TagsResult))
    → every (is_live next fs) fm ≡ true
    → every (is_live (suc next) fs) fm ≡ true
unfolding is_live
is_live-suc next fs = every_mono {p = is_live next fs} {q = is_live (suc next) fs} (λ e h. ground (
  arith,
  every_mono {p = λ r. ltb r.addr next} {q = λ r. ltb r.addr (suc next)} (λ r k. ground arith) e.1
      (ground arith),
))

pub is_index-insert_tag :
    (r : TagsResult) (fs : List Filename) (m : List TagsResult)
    (fm : List (Filename × List TagsResult))
    → has_file r.filename fs ≡ false
    → is_index r.addr m fs fm ≡ true
    → is_index (suc r.addr) (insert_tag r m) fs fm ≡ true
unfolding is_index has_file
is_index-insert_tag r fs m fm absent h = ground (
  arith,
  is_live-suc r.addr fs fm (ground arith),
  every_mono {p = λ g. has_entry m fm g && not (eq_filename g r.filename)}
      {q = has_entry (insert_tag r m) fm}
      (λ g k.
        has_entry-insert_tag r g fs m fm (ground arith)
          (eq_filename_comm g r.filename (ground arith)) (ground arith))
      fs
      (every_and (has_entry m fm) (λ g. not (eq_filename g r.filename)) fs (ground arith)
        (every_of_none (λ g. eq_filename g r.filename) fs absent)),
)

pub insert_tag-is_distinct :
    (r : TagsResult) (xs : List TagsResult)
    → every (λ x. ltb x.addr r.addr) xs ≡ true
    → is_distinct xs ≡ true
    → is_distinct (insert_tag r xs) ≡ true
unfolding is_distinct insert_tag
insert_tag-is_distinct r [] h k = refl
insert_tag-is_distinct r (x ∷ xs) h k =
    let front =
      every_mono {p = λ y. ltb y.addr r.addr} {q = λ y. not (y.addr == r.addr)}
        (λ y l. ground arith) (x ∷ xs) h in
    let behind = every-insert_tag (λ y. not (y.addr == x.addr)) r xs in
    ground (arith, front, behind, insert_tag-is_distinct r xs (ground arith) (ground arith))
