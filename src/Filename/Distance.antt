-- ===== src/Filename/Distance.antt =====
-- filename.h: the directory distance is a metric on containing directories.
use google_gtags.Prelude.{
  ℕ, zero, suc, ◌+◌, ◌-◌, ◌*◌, ◌≤◌, min, List, [], ◌∷◌, Text, text_eq, text_eq_iff, length, ◌≡◌,
  refl, sym, arith, if◌then◌else◌, ◌↔◌, ◌≢◌, ap,
}
use google_gtags.Filename.{Filename, IsFilename, common_subdirs, distance_to}

-- The containing directory: all components but the last.
abbrev pub directory : List Text → List Text
directory [] = []
directory (x ∷ []) = []
directory (x ∷ y ∷ ys) = x ∷ directory (y ∷ ys)

-- The length of the longest common prefix.
pub common : List Text → List Text → ℕ
common (x ∷ xs) (y ∷ ys) = let rest = suc (common xs ys) in if text_eq x y then rest else 0
common _ _ = 0

length-directory : (x : Text) (xs : List Text) → length (directory (x ∷ xs)) ≡ length xs
length-directory x [] = refl
length-directory x (y ∷ ys) = omega (arith, length-directory y ys)

common_le : (xs ys : List Text) → (common xs ys ≤ length xs) × (common xs ys ≤ length ys)
unfolding common
common_le (x ∷ xs) (y ∷ ys) = ground (arith, common_le xs ys)
common_le [] ys = omega arith
common_le (x ∷ xs) [] = omega arith

common_comm : (xs ys : List Text) → common xs ys ≡ common ys xs
unfolding common
common_comm (x ∷ xs) (y ∷ ys) = ground (arith, common_comm xs ys, text_eq_iff x y, text_eq_iff y x)
common_comm [] [] = refl
common_comm [] (y ∷ ys) = refl
common_comm (x ∷ xs) [] = refl

-- Of three common prefixes the smallest occurs twice.
common_ultra : (xs ys zs : List Text) → min (common xs ys) (common ys zs) ≤ common xs zs
unfolding common
common_ultra (x ∷ xs) (y ∷ ys) (z ∷ zs) =
    ground (arith, common_ultra xs ys zs, text_eq_iff x y, text_eq_iff y z, text_eq_iff x z)
common_ultra [] ys zs = omega arith
common_ultra (x ∷ xs) [] zs = omega arith
common_ultra (x ∷ xs) (y ∷ ys) [] = omega arith

common_all : (xs ys : List Text) → common xs ys ≡ length xs → common xs ys ≡ length ys → xs ≡ ys
unfolding common
common_all [] [] h k = refl
common_all [] (y ∷ ys) h k = absurd (omega arith)
common_all (x ∷ xs) [] h k = absurd (omega arith)
common_all (x ∷ xs) (y ∷ ys) h k = ground (arith, common_all xs ys, text_eq_iff x y)

common_self : (xs : List Text) → common xs xs ≡ length xs
unfolding common
common_self [] = refl
common_self (x ∷ xs) = ground (arith, common_self xs, text_eq_iff x x)

-- The loop stops in front of the last component of the shorter path.
common_subdirs-common :
    (xs ys : List Text) (x y : Text) (room : ℕ)
    → room ≡ min (length xs) (length ys)
    → common_subdirs room (x ∷ xs) (y ∷ ys) ≡ common (directory (x ∷ xs)) (directory (y ∷ ys))
unfolding common_subdirs common
common_subdirs-common [] ys x y zero h = refl
common_subdirs-common (x' ∷ xs) [] x y zero h = refl
common_subdirs-common (x' ∷ xs) (y' ∷ ys) x y zero h = absurd (omega arith)
common_subdirs-common [] ys x y (suc room) h = absurd (omega arith)
common_subdirs-common (x' ∷ xs) [] x y (suc room) h = absurd (omega arith)
common_subdirs-common (x' ∷ xs) (y' ∷ ys) x y (suc room) h =
    ground (arith, common_subdirs-common xs ys x' y' room)

distance_dirs :
    (xs ys : List Text) (x y : Text)
    → distance_to (record { dirs = x ∷ xs }) (record { dirs = y ∷ ys })
        + 2 * common (directory (y ∷ ys)) (directory (x ∷ xs))
      ≡ length (directory (x ∷ xs)) + length (directory (y ∷ ys))
unfolding distance_to
distance_dirs xs ys x y = omega (
  arith,
  common_subdirs-common ys xs y x (min (length (y ∷ ys)) (length (x ∷ xs)) - 1) (omega arith),
  length-directory x xs,
  length-directory y ys,
  common_le (directory (y ∷ ys)) (directory (x ∷ xs)),
)

distance_lists :
    (xs ys : List Text)
    → xs ≢ []
    → ys ≢ []
    → distance_to (record { dirs = xs }) (record { dirs = ys })
        + 2 * common (directory ys) (directory xs)
      ≡ length (directory xs) + length (directory ys)
distance_lists [] ys h k = absurd (h refl)
distance_lists (x ∷ xs) [] h k = absurd (k refl)
distance_lists (x ∷ xs) (y ∷ ys) h k = distance_dirs xs ys x y

-- The steps up from one directory to the longest common prefix, and down to the other.
distance_to-common :
    (a b : Filename)
    → IsFilename a
    → IsFilename b
    → distance_to a b + 2 * common (directory b.dirs) (directory a.dirs)
      ≡ length (directory a.dirs) + length (directory b.dirs)
distance_to-common a b ha hb = distance_lists a.dirs b.dirs ha hb

module _ (a b : Filename) (ha : IsFilename a) (hb : IsFilename b) where
  distance_comm : distance_to a b ≡ distance_to b a
  distance_comm = omega (
    arith,
    distance_to-common a b ha hb,
    distance_to-common b a hb ha,
    common_comm (directory a.dirs) (directory b.dirs),
  )

  distance_zero : distance_to a b ≡ 0 → directory a.dirs ≡ directory b.dirs
  distance_zero z =
      let bounds = common_le (directory b.dirs) (directory a.dirs) in
      let total = distance_to-common a b ha hb in
      sym (common_all (directory b.dirs) (directory a.dirs) (omega arith) (omega arith))

  zero_distance : directory a.dirs ≡ directory b.dirs → distance_to a b ≡ 0
  zero_distance e =
      let same : common (directory b.dirs) (directory a.dirs) ≡ length (directory b.dirs) =
        rw e (common_self (directory b.dirs)) in
      omega (arith, distance_to-common a b ha hb, same, ap length e)

-- On paths of at least one component, which are all that the constructors give, the distance is a
-- metric on directories: it is symmetric, it satisfies the triangle inequality, and it is 0 exactly
-- when the two paths have the same containing directory.
pub distance_to_metric :
    (a b c : Filename)
    → IsFilename a
    → IsFilename b
    → IsFilename c
    → (distance_to a b ≡ distance_to b a)
      × (distance_to a c ≤ distance_to a b + distance_to b c)
      × ((distance_to a b ≡ 0) ↔ (directory a.dirs ≡ directory b.dirs))
distance_to_metric a b c ha hb hc =
    (distance_comm a b ha hb, triangle, (distance_zero a b ha hb, zero_distance a b ha hb))
  where
    triangle : distance_to a c ≤ distance_to a b + distance_to b c
    triangle = omega (
      arith,
      distance_to-common a b ha hb,
      distance_to-common b c hb hc,
      distance_to-common a c ha hc,
      common_ultra (directory c.dirs) (directory b.dirs) (directory a.dirs),
      common_le (directory c.dirs) (directory b.dirs),
      common_le (directory b.dirs) (directory a.dirs),
    )
