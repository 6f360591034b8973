-- ===== src/TagsTable/WellFormed/AddTags.antt =====
-- tagstable.cc: the loop over the contents of a file, and the index entry it makes.
use google_gtags.Prelude.{
  ℕ, suc, Bool, true, false, not, ◌&&◌, List, [], ◌∷◌, ◌++◌, Text, codes, ◌≡◌, refl, sym, arith,
  every, every_mono, every_and, every_of_none, every_of_append, some_of, ltb, Bool-cases,
  Option-cases, inl, inr, if_true, if_false, ◌∙◌, ap, subst, Option, none, some,
}
use google_gtags.Prelude.Result.{◌>>=◌, Holds, Holds-bind, Holds-any}
use google_gtags.Filename.{Filename, eq_filename, basename}
use google_gtags.Sexp.{SExpression}
use google_gtags.TagsTable.{TagsResult, TagsTable, Config, has_file, find_file_entry, insert_tag}
use google_gtags.TagsTable.Declarations.{
  parse_item, check, is_declaration_with_alist, each_attribute, item_step, get_attributes, Item,
  finish_item,
}
use google_gtags.TagsTable.Load.{index_basename, add_tag, add_items, insert_entry, index_file}
use google_gtags.TagsTable.Sorted.{every-insert_tag, insert_tag-is_sorted}
use google_gtags.TagsTable.Unload.{is_entry}
use google_gtags.TagsTable.Stops.{check-Stops, is_declaration_with_alist-Stops, item-Stops}
use google_gtags.TagsTable.WellFormed.{has_entry, is_live, is_index, IsWellFormed, eq_filename_self}
use google_gtags.TagsTable.WellFormed.Inserts.{
  eq_filename_comm, find_absent, is_index-insert_tag, insert_tag-is_distinct,
}
use google_gtags.TagsTable.WellFormed.Loads.{IsLoading, entry-insert_tag, has_file-cons}

-- Every address below the next one is below the one after it.
older :
    (n : ℕ) (xs : List TagsResult)
    → every (λ x. ltb x.addr n) xs ≡ true
    → every (λ x. ltb x.addr (suc n)) xs ≡ true
older n = every_mono {p = λ x. ltb x.addr n} {q = λ x. ltb x.addr (suc n)} (λ x k. ground arith)

-- The multimap and the counter with one more object.
with_tag : TagsResult → Bool → TagsTable → TagsTable
with_tag r callers t = record t {
  tag_map = insert_tag r t.tag_map;
  callers_on_by_default = callers;
  next_addr = suc t.next_addr;
}

has_file-first : (f : Filename) (fs : List Filename) → has_file f (f ∷ fs) ≡ true
unfolding has_file some_of
has_file-first f fs = ground (arith, eq_filename_self f)

with_tag-IsLoading :
    (r : TagsResult) (callers : Bool) (before : List Filename) (tags : List TagsResult)
    (t : TagsTable)
    → r.addr ≡ t.next_addr
    → IsLoading r.filename before tags t
    → IsLoading r.filename before (tags ++ r ∷ []) (with_tag r callers t)
unfolding with_tag
with_tag-IsLoading r callers before tags t e w = record {
  order = insert_tag-is_sorted r t.tag_map w.order;
  distinct = insert_tag-is_distinct r t.tag_map below w.distinct;
  fresh =
      every-insert_tag (λ x. ltb x.addr (suc t.next_addr)) r t.tag_map
      ∙ ground (arith, older t.next_addr t.tag_map w.fresh);
  loaded =
      every-insert_tag (λ x. has_file x.filename t.loaded_files) r t.tag_map
      ∙ ground (arith, w.loaded, first);
  files = w.files;
  absent = w.absent;
  indexed = elim (Bool-cases t.enable_fileindex) [
    | inr i ↦ rw i
    | inl i ↦ rw i (
        subst (λ n. is_index (suc n) (insert_tag r t.tag_map) before t.filemap ≡ true) e
          (is_index-insert_tag r before t.tag_map t.filemap w.absent (index i)))
  ];
  entry = entry-insert_tag r t.tag_map tags below w.entry;
  named =
      every_of_append (λ x. ltb x.addr (suc t.next_addr)) tags (r ∷ [])
        (older t.next_addr tags w.named) (ground arith);
}
  where
    below : every (λ x. ltb x.addr r.addr) t.tag_map ≡ true
    below = subst (λ n. every (λ x. ltb x.addr n) t.tag_map ≡ true) (sym e) w.fresh

    first : has_file r.filename t.loaded_files ≡ true
    first = ap (has_file r.filename) w.files ∙ has_file-first r.filename before

    index : t.enable_fileindex ≡ true → is_index r.addr t.tag_map before t.filemap ≡ true
    index i =
        subst (λ n. is_index n t.tag_map before t.filemap ≡ true) (sym e)
          (ground (arith, w.indexed))

-- The names of files do not touch what the invariant reads.
index_basename-IsLoading :
    (c : Config) (g f : Filename) (before : List Filename) (tags : List TagsResult) (t : TagsTable)
    → IsLoading f before tags t
    → Holds (IsLoading f before tags) (index_basename c g t)
unfolding index_basename
index_basename-IsLoading c g f before tags t w = elim (Bool-cases c.findfile) [
  | inr e ↦ rw e w
  | inl e ↦ elim (Option-cases (basename g)) [
    | inl n ↦ rw (e, n) tt
    | inr (base, n) ↦
        rw (e, n)
          (record {
            order = w.order;
            distinct = w.distinct;
            fresh = w.fresh;
            loaded = w.loaded;
            files = w.files;
            absent = w.absent;
            indexed = w.indexed;
            entry = w.entry;
            named = w.named;
          })
  ]
]

add_tag-IsLoading :
    (c : Config) (r : TagsResult) (before : List Filename) (tags : List TagsResult) (t : TagsTable)
    → r.addr ≡ t.next_addr
    → IsLoading r.filename before tags t
    → Holds (IsLoading r.filename before (tags ++ r ∷ [])) (add_tag c r t)
unfolding add_tag with_tag
add_tag-IsLoading c r before tags t e w =
    index_basename-IsLoading c r.filename r.filename before (tags ++ r ∷ []) (with_tag r _ t)
      (with_tag-IsLoading r _ before tags t e w)

-- `ParseItemDeclaration` makes an object at this address, for this file.
abbrev IsMade : ℕ → Filename → Option TagsResult → Type 0
IsMade addr f none = Unit
IsMade addr f (some r) = (r.addr ≡ addr) × (r.filename ≡ f)

parse_item-IsMade :
    (c : Config) (addr : ℕ) (f : Filename) (language : Text) (v : SExpression)
    → Holds (IsMade addr f) (parse_item c addr f language v)
unfolding parse_item
parse_item-IsMade c addr f language v =
    Holds-any (IsMade addr f) (is_declaration_with_alist v (codes "item")) _
      (is_declaration_with_alist-Stops v (codes "item"))
      (λ good. Holds-any (IsMade addr f) (check good) _ (check-Stops good) (λ u.
        Holds-any (IsMade addr f) (each_attribute (item_step c) (get_attributes v) _) _
          (item-Stops c (get_attributes v) _) (λ item. finished item)))
  where
    finished : (item : Item) → IsMade addr f (finish_item addr f language item)
    finished item = elim (Option-cases item.descriptor) [
      | inl e ↦ unfold finish_item in rw e tt
      | inr (d, e) ↦ unfold finish_item in rw e (refl, refl)
    ]

-- One turn of the loop, with what the turns after it keep.
add_item-IsLoading :
    (c : Config) (f : Filename) (language : Text) (before : List Filename) (vs : List SExpression)
    (tags : List TagsResult) (t : TagsTable)
    → ((ts : List TagsResult) (u : TagsTable)
        → IsLoading f before ts u
        → Holds (λ r. IsLoading f before r.1 r.0) (add_items c f language vs ts u))
    → IsLoading f before tags t
    → (o : Option TagsResult) → IsMade t.next_addr f o
    → Holds
        (λ r. IsLoading f before r.1 r.0)
        (elim o [
          | none ↦ add_items c f language vs tags t
          | some r ↦ add_tag c r t >>= λ u. add_items c f language vs (tags ++ r ∷ []) u
        ])
add_item-IsLoading c f language before vs tags t rest w none m = rest tags t w
add_item-IsLoading c f language before vs tags t rest w (some r) (a, e) =
    Holds-bind (IsLoading f before (tags ++ r ∷ [])) (λ q. IsLoading f before q.1 q.0)
      (add_tag c r t) _
      (subst (λ g. Holds (IsLoading g before (tags ++ r ∷ [])) (add_tag c r t)) e
        (add_tag-IsLoading c r before tags t a (subst (λ g. IsLoading g before tags t) (sym e) w)))
      (λ u wu. rest (tags ++ r ∷ []) u wu)

pub add_items-IsLoading :
    (c : Config) (f : Filename) (language : Text) (before : List Filename) (vs : List SExpression)
    (tags : List TagsResult) (t : TagsTable)
    → IsLoading f before tags t
    → Holds (λ r. IsLoading f before r.1 r.0) (add_items c f language vs tags t)
unfolding add_items
add_items-IsLoading c f language before [] tags t w = w
add_items-IsLoading c f language before (v ∷ vs) tags t w =
    Holds-bind (IsMade t.next_addr f) (λ r. IsLoading f before r.1 r.0)
      (parse_item c t.next_addr f language v) _ (parse_item-IsMade c t.next_addr f language v)
      (add_item-IsLoading c f language before vs tags t
        (λ ts u wu. add_items-IsLoading c f language before vs ts u wu) w)

-- The entry of the file completes the index.
is_index-entry :
    (f : Filename) (tags m : List TagsResult) (next : ℕ) (fs : List Filename)
    (fm : List (Filename × List TagsResult))
    → is_index next m fs fm ≡ true
    → has_file f fs ≡ false
    → is_entry m f tags ≡ true
    → every (λ r. ltb r.addr next) tags ≡ true
    → is_index next m (f ∷ fs) (insert_entry f tags fm) ≡ true
unfolding is_index insert_entry
is_index-entry f tags m next fs fm h absent k n =
    subst (λ e. is_index next m (f ∷ fs) e ≡ true) (sym inserted)
      (ground (arith, first, others, live, front))
  where
    inserted : insert_entry f tags fm ≡ (f, tags) ∷ fm
    inserted = rw (find_absent next fs f fm (ground arith) absent, insert_entry)

    first : has_entry m ((f, tags) ∷ fm) f ≡ true
    first = unfold has_entry find_file_entry in ground (arith, eq_filename_self f)

    others : every (has_entry m ((f, tags) ∷ fm)) fs ≡ true
    others =
        every_mono {p = λ g. has_entry m fm g && not (eq_filename g f)}
          {q = has_entry m ((f, tags) ∷ fm)}
          (λ g e. unfold has_entry find_file_entry in ground (arith, eq_filename_comm g f)) fs
          (every_and (has_entry m fm) (λ g. not (eq_filename g f)) fs (ground arith)
            (every_of_none (λ g. eq_filename g f) fs (unfold has_file in absent)))

    live : every (is_live next (f ∷ fs)) fm ≡ true
    live =
        every_mono {p = is_live next fs} {q = is_live next (f ∷ fs)}
          (λ e l. unfold is_live in ground (arith, has_file-cons e.0 f fs)) fm (ground arith)

    front : is_live next (f ∷ fs) (f, tags) ≡ true
    front = unfold is_live in ground (arith, has_file-first f fs)

pub index_file-IsWellFormed :
    (f : Filename) (before : List Filename) (tags : List TagsResult) (t : TagsTable)
    → IsLoading f before tags t
    → IsWellFormed (index_file f tags t)
unfolding index_file
index_file-IsWellFormed f before tags t w = elim (Bool-cases t.enable_fileindex) [
  | inr i ↦ subst IsWellFormed (sym (if_false _ t i)) (record {
    order = w.order;
    distinct = w.distinct;
    fresh = w.fresh;
    loaded = w.loaded;
    indexed = ground arith;
  })
  | inl i ↦ subst IsWellFormed (sym (if_true _ t i)) (record {
    order = w.order;
    distinct = w.distinct;
    fresh = w.fresh;
    loaded = w.loaded;
    indexed =
        rw (i, w.files)
          (is_index-entry f tags t.tag_map t.next_addr before t.filemap (ground (arith, w.indexed))
            w.absent w.entry w.named);
  })
]
