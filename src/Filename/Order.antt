-- ===== src/Filename/Order.antt =====
-- filename.cc: the order of paths.
use google_gtags.Prelude.{
  true, false, List, [], ◌∷◌, Text, text_eq_iff, length, ◌≡◌, ◌↔◌, ◌⊎◌, inl, inr, refl, sym, ap,
  arith, Bool-cases,
}
use google_gtags.Filename.{
  Filename, Comparison, less, equal, greater, strcmp, lt_dirs, lt_filename, same_dirs, eq_filename,
}

abbrev pub flip : Comparison → Comparison
flip less = greater
flip equal = equal
flip greater = less

pub strcmp-flip : (s t : Text) → strcmp t s ≡ flip (strcmp s t)
unfolding strcmp
strcmp-flip [] [] = refl
strcmp-flip [] (y ∷ ys) = refl
strcmp-flip (x ∷ xs) [] = refl
strcmp-flip (x ∷ xs) (y ∷ ys) = ground (arith, strcmp-flip xs ys)

pub strcmp_equal : (s t : Text) → strcmp s t ≡ equal → s ≡ t
unfolding strcmp
strcmp_equal [] [] h = refl
strcmp_equal [] (y ∷ ys) h = absurd (ground arith)
strcmp_equal (x ∷ xs) [] h = absurd (ground arith)
strcmp_equal (x ∷ xs) (y ∷ ys) h = ground (arith, strcmp_equal xs ys)

pub strcmp_self : (s : Text) → strcmp s s ≡ equal
unfolding strcmp
strcmp_self [] = refl
strcmp_self (x ∷ xs) = ground (arith, strcmp_self xs)

pub strcmp_trans : (s t u : Text) → strcmp s t ≡ less → strcmp t u ≡ less → strcmp s u ≡ less
unfolding strcmp
strcmp_trans [] [] u h k = absurd (ground arith)
strcmp_trans [] (y ∷ ys) [] h k = absurd (ground arith)
strcmp_trans [] (y ∷ ys) (z ∷ zs) h k = refl
strcmp_trans (x ∷ xs) [] u h k = absurd (ground arith)
strcmp_trans (x ∷ xs) (y ∷ ys) [] h k = absurd (ground arith)
strcmp_trans (x ∷ xs) (y ∷ ys) (z ∷ zs) h k = ground (arith, strcmp_trans xs ys zs)

lt_dirs_irrefl : (xs : List Text) → lt_dirs xs xs ≡ false
unfolding lt_dirs
lt_dirs_irrefl [] = refl
lt_dirs_irrefl (x ∷ xs) = ground (arith, strcmp_self x, lt_dirs_irrefl xs)

lt_dirs_trans :
    (xs ys zs : List Text) → lt_dirs xs ys ≡ true → lt_dirs ys zs ≡ true → lt_dirs xs zs ≡ true
unfolding lt_dirs
lt_dirs_trans [] [] zs h k = absurd (ground arith)
lt_dirs_trans [] (y ∷ ys) [] h k = absurd (ground arith)
lt_dirs_trans [] (y ∷ ys) (z ∷ zs) h k = refl
lt_dirs_trans (x ∷ xs) [] zs h k = absurd (ground arith)
lt_dirs_trans (x ∷ xs) (y ∷ ys) [] h k = absurd (ground arith)
lt_dirs_trans (x ∷ xs) (y ∷ ys) (z ∷ zs) h k = ground (
  arith,
  lt_dirs_trans xs ys zs,
  strcmp_trans x y z,
  strcmp_equal x y,
  strcmp_equal y z,
  strcmp_self x,
)

lt_dirs_total : (xs ys : List Text) → lt_dirs xs ys ≡ false → lt_dirs ys xs ≡ false → xs ≡ ys
unfolding lt_dirs
lt_dirs_total [] [] h k = refl
lt_dirs_total [] (y ∷ ys) h k = absurd (ground arith)
lt_dirs_total (x ∷ xs) [] h k = absurd (ground arith)
lt_dirs_total (x ∷ xs) (y ∷ ys) h k =
    ground (arith, lt_dirs_total xs ys, strcmp_equal x y, strcmp-flip x y)

same_dirs_iff : (xs ys : List Text) → (same_dirs xs ys ≡ true) ↔ (xs ≡ ys)
unfolding same_dirs
same_dirs_iff [] [] = ground arith
same_dirs_iff [] (y ∷ ys) = ground arith
same_dirs_iff (x ∷ xs) [] = ground arith
same_dirs_iff (x ∷ xs) (y ∷ ys) = ground (arith, text_eq_iff y x, same_dirs_iff xs ys)

same_length : (xs ys : List Text) → same_dirs xs ys ≡ true → length ys ≡ length xs
same_length xs ys h = ap length (sym ((same_dirs_iff xs ys).0 h))

-- `==` holds of two paths exactly when they have the same components.
pub eq_filename_iff : (a b : Filename) → (eq_filename a b ≡ true) ↔ (a ≡ b)
unfolding eq_filename
eq_filename_iff a b =
    let same = same_dirs_iff a.dirs b.dirs in
    (
      λ h. ap (λ ds. record { dirs = ds }) (same.0 (ground arith)),
      λ e. ground (arith, same.1 (ap (λ f. f.dirs) e), same_length a.dirs b.dirs),
    )

-- `<` is transitive, and its result is not reversed.
pub lt_filename_trans :
    (a b c : Filename)
    → lt_filename a b ≡ true
    → lt_filename b c ≡ true
    → (lt_filename a c ≡ true) × (lt_filename c a ≡ false)
unfolding lt_filename
lt_filename_trans a b c h k = (
  forward,
  elim (Bool-cases (lt_dirs c.dirs a.dirs)) [
    | inl back ↦ absurd (
        let loop = lt_dirs_trans a.dirs c.dirs a.dirs forward back in
        cc (loop, lt_dirs_irrefl a.dirs))
    | inr no_back ↦ no_back
  ],
)
  where
    forward : lt_dirs a.dirs c.dirs ≡ true
    forward = lt_dirs_trans a.dirs b.dirs c.dirs h k

lt_filename_irrefl : (a : Filename) → lt_filename a a ≡ false
unfolding lt_filename
lt_filename_irrefl a = lt_dirs_irrefl a.dirs

lt_filename_total : (a b : Filename) → lt_filename a b ≡ false → lt_filename b a ≡ false → a ≡ b
unfolding lt_filename
lt_filename_total a b h k = ap (λ ds. record { dirs = ds }) (lt_dirs_total a.dirs b.dirs h k)

lt_filename_asym : (a b : Filename) → lt_filename a b ≡ true → lt_filename b a ≡ false
unfolding lt_filename
lt_filename_asym a b h = elim (Bool-cases (lt_dirs b.dirs a.dirs)) [
  | inl back ↦
      absurd
        (let loop = lt_dirs_trans a.dirs b.dirs a.dirs h back in cc (loop, lt_dirs_irrefl a.dirs))
  | inr no_back ↦ no_back
]

-- Of two paths exactly one holds: `==`, `<`, or `<` the other way round.
pub lt_filename_cases :
    (a b : Filename)
    → ((eq_filename a b ≡ true) × (lt_filename a b ≡ false) × (lt_filename b a ≡ false))
      ⊎ ((eq_filename a b ≡ false) × (lt_filename a b ≡ true) × (lt_filename b a ≡ false))
      ⊎ ((eq_filename a b ≡ false) × (lt_filename a b ≡ false) × (lt_filename b a ≡ true))
lt_filename_cases a b = ground (
  arith,
  eq_filename_iff a b,
  lt_filename_irrefl a,
  lt_filename_total a b,
  lt_filename_asym a b,
  lt_filename_asym b a,
)
