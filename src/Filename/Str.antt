-- ===== src/Filename/Str.antt =====
-- filename.cc: `Str` and the path that `Initialize` makes of it.
use google_gtags.Prelude.{
  ℕ, every_of_append, ==_iff, subst, Bool, true, false, not, ◌&&◌, List, [], ◌∷◌, ◌++◌, Text, codes,
  text_eq, every, ◌==◌, ◌≡◌, ◌≢◌, refl, ap, ◌∙◌, arith, Bool-cases, inl, inr, append_assoc,
  append-nil,
}
use google_gtags.Prelude.Result.{ok}
use google_gtags.Filename.{
  Filename, push_dir, split, or_root, initialize, join_rest, join, or_dot, str,
}

-- A component as `Initialize` stores it: with no slash in it, and not ".".
abbrev pub is_component : Text → Bool
is_component d = every (λ c. not (c == b'/')) d && not (text_eq d (codes "."))

split_char :
    (c : ℕ) (cs : Text) (dirs : List Text) (dir : Text)
    → (c == b'/') ≡ false
    → split dirs dir (c ∷ cs) ≡ split dirs (dir ++ c ∷ []) cs
unfolding split
split_char c cs dirs dir h = rw h

split_slash :
    (cs : Text) (dirs : List Text) (dir : Text)
    → split dirs dir (b'/' ∷ cs) ≡ split (push_dir dirs dir) [] cs
unfolding split
split_slash cs dirs dir = refl

split_end : (dirs : List Text) (dir : Text) → split dirs dir [] ≡ push_dir dirs dir
unfolding split
split_end dirs dir = refl

split_component :
    (d : Text) (dirs : List Text) (dir rest : Text)
    → every (λ c. not (c == b'/')) d ≡ true
    → split dirs dir (d ++ rest) ≡ split dirs (dir ++ d) rest
unfolding split
split_component [] dirs dir rest h = rw append-nil
split_component (c ∷ cs) dirs dir rest h =
    split_char c (cs ++ rest) dirs dir (ground arith)
    ∙ split_component cs dirs (dir ++ c ∷ []) rest (ground arith)
    ∙ rw append_assoc

push_component :
    (dirs : List Text) (d : Text) → is_component d ≡ true → push_dir dirs d ≡ dirs ++ d ∷ []
unfolding push_dir
push_component dirs d h = ground arith

split_join :
    (ds dirs : List Text) (d : Text)
    → is_component d ≡ true
    → every is_component ds ≡ true
    → split dirs [] (d ++ join_rest ds) ≡ dirs ++ d ∷ ds
unfolding join_rest
split_join [] dirs d h k =
    split_component d dirs [] [] (ground arith) ∙ split_end dirs d ∙ push_component dirs d h
split_join (e ∷ es) dirs d h k =
    split_component d dirs [] (join_rest (e ∷ es)) (ground arith)
    ∙ split_slash (e ++ join_rest es) dirs d
    ∙ rw (push_component dirs d h)
        (split_join es (dirs ++ d ∷ []) e (ground arith) (ground arith) ∙ rw append_assoc)

initialize_text :
    (t : Text) → t ≢ [] → initialize t ≡ ok (record { dirs = or_root (split [] [] t) })
unfolding initialize
initialize_text [] h = absurd (h refl)
initialize_text (c ∷ cs) h = refl

-- A path whose text is empty prints as ".", which reads back as the one empty component.
initialize-or_dot :
    (t : Text) (d : Text) (ds : List Text)
    → t ≡ join (d ∷ ds)
    → is_component d ≡ true
    → every is_component ds ≡ true
    → initialize (or_dot t) ≡ ok (record { dirs = d ∷ ds })
unfolding or_dot join or_root
initialize-or_dot (c ∷ cs) d ds e h k =
    initialize_text (c ∷ cs) (λ n. cc)
    ∙ ap (λ l. ok (record { dirs = or_root l })) (ap (split [] []) e ∙ split_join ds [] d h k)
initialize-or_dot [] [] [] e h k = unfold initialize split push_dir text_eq in refl
initialize-or_dot [] [] (y ∷ ys) e h k = absurd (unfold join_rest in ground arith)
initialize-or_dot [] (x ∷ xs) ds e h k = absurd (ground arith)

push-IsComponents :
    (dirs : List Text) (d : Text)
    → every is_component dirs ≡ true
    → every (λ c. not (c == b'/')) d ≡ true
    → every is_component (push_dir dirs d) ≡ true
unfolding push_dir
push-IsComponents dirs d h k = elim (Bool-cases (text_eq d (codes "."))) [
  | inl e ↦ rw e h
  | inr e ↦ rw e (every_of_append is_component dirs (d ∷ []) h (ground arith))
]

split-IsComponents :
    (s : Text) (dirs : List Text) (dir : Text)
    → every is_component dirs ≡ true
    → every (λ c. not (c == b'/')) dir ≡ true
    → every is_component (split dirs dir s) ≡ true
split-IsComponents [] dirs dir h k = rw split_end (push-IsComponents dirs dir h k)
split-IsComponents (c ∷ cs) dirs dir h k =
    let slash =
      split-IsComponents cs (push_dir dirs dir) [] (push-IsComponents dirs dir h k) refl in
    let other = λ (n : (c == b'/') ≡ false).
      split-IsComponents cs dirs (dir ++ c ∷ []) h
        (every_of_append (λ x. not (x == b'/')) dir (c ∷ []) k (ground arith)) in
    elim (Bool-cases (c == b'/')) [
      | inl e ↦ rw ((==_iff c b'/').0 e) (rw split_slash slash)
      | inr e ↦ rw (split_char c cs dirs dir e) (other e)
    ]

or_root-IsComponents :
    (ds : List Text) → every is_component ds ≡ true → every is_component (or_root ds) ≡ true
unfolding or_root text_eq
or_root-IsComponents [] h = refl
or_root-IsComponents (d ∷ ds) h = h

initialize-str_dirs :
    (ds : List Text)
    → every is_component ds ≡ true
    → ds ≢ []
    → initialize (str (record { dirs = ds })) ≡ ok (record { dirs = ds })
unfolding str
initialize-str_dirs [] h n = absurd (n refl)
initialize-str_dirs (d ∷ ds) h n =
    initialize-or_dot (join (d ∷ ds)) d ds refl (ground arith) (ground arith)

or_root-ne-nil : (ds : List Text) → or_root ds ≢ []
unfolding or_root
or_root-ne-nil [] e = cc
or_root-ne-nil (d ∷ ds) e = cc

-- The normal form that `Str` prints stands for the same path: whatever text a path was made from,
-- the path that its printed form makes has the same components.
pub initialize-str : (s : Text) {f : Filename} → initialize s ≡ ok f → initialize (str f) ≡ ok f
initialize-str [] h = absurd (unfold initialize in cc)
initialize-str (c ∷ cs) {f} h =
    let ds = or_root (split [] [] (c ∷ cs)) in
    let g : Filename = record { dirs = ds } in
    let e : g ≡ f = unfold initialize in cc in
    subst (λ x. initialize (str x) ≡ ok x) e
      (initialize-str_dirs ds (or_root-IsComponents _ (split-IsComponents (c ∷ cs) [] [] refl refl))
        (or_root-ne-nil _))
