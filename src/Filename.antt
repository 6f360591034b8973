-- ===== src/Filename.antt =====
-- filename.h and filename.cc: paths as arrays of components.
pub mod Distance
pub mod Order
pub mod Str
mod Tests
use google_gtags.Prelude.{
  ℕ, zero, suc, ◌+◌, ◌-◌, ◌*◌, min, Bool, true, false, not, ◌&&◌, ◌≢◌, List, [], ◌∷◌, ◌++◌, Text,
  codes, text_eq, length, Option, none, some, ltb, ◌==◌, if◌then◌else◌,
}
use google_gtags.Prelude.Result.{Result, ok, fatal}
use google_gtags.Strutil.{peek}

-- `filename_` with `subdirs_`, its length. Whether the strings are shared in a `SymbolTable` is not
-- seen by any operation: all of them compare by `strcmp`.
pub record Filename : Type 0 where
  pub dirs : List Text

-- `dirs.push_back(dir)`, unless the directory is named ".".
unfoldable pub push_dir : List Text → Text → List Text
push_dir dirs dir = if text_eq dir (codes ".") then dirs else dirs ++ dir ∷ []

-- The loop of `Initialize` and the component behind it; `dir` is the component that is being read.
unfoldable pub split : List Text → Text → Text → List Text
split dirs dir [] = push_dir dirs dir
split dirs dir (c ∷ cs) =
    split (if c == b'/' then push_dir dirs dir else dirs) (if c == b'/' then [] else dir ++ c ∷ [])
      cs

or_root : List Text → List Text
or_root [] = [] ∷ []
or_root (d ∷ ds) = d ∷ ds

-- `Initialize`: the empty path fails its CHECK.
unfoldable pub initialize : Text → Result Filename
unfolding or_root
initialize [] = fatal
initialize (c ∷ cs) = ok (record { dirs = or_root (split [] [] (c ∷ cs)) })

-- `strcmp` of two C strings, as the order of its result with 0.
pub data Comparison : Type 0 where
  less equal greater : Comparison

unfoldable pub strcmp : Text → Text → Comparison
strcmp [] [] = equal
strcmp [] (y ∷ ys) = less
strcmp (x ∷ xs) [] = greater
strcmp (x ∷ xs) (y ∷ ys) =
    let rest = strcmp xs ys in if ltb x y then less else if ltb y x then greater else rest

-- What every constructor gives: at least one component.
abbrev pub IsFilename : Filename → Type 0
IsFilename f = f.dirs ≢ []

-- `operator<`: the loop over the common indices, then the lengths.
unfoldable pub lt_dirs : List Text → List Text → Bool
lt_dirs [] [] = false
lt_dirs [] (y ∷ ys) = true
lt_dirs (x ∷ xs) [] = false
lt_dirs (x ∷ xs) (y ∷ ys) =
    let rest = lt_dirs xs ys in elim (strcmp x y) [ less ↦ true | greater ↦ false | equal ↦ rest ]

unfoldable pub lt_filename : Filename → Filename → Bool
lt_filename a b = lt_dirs a.dirs b.dirs

unfoldable pub same_dirs : List Text → List Text → Bool
same_dirs [] [] = true
same_dirs (x ∷ xs) (y ∷ ys) = text_eq y x && same_dirs xs ys
same_dirs _ _ = false

-- `operator==`: the lengths first, then every component.
unfoldable pub eq_filename : Filename → Filename → Bool
unfolding same_dirs
eq_filename a b = if length b.dirs == length a.dirs then same_dirs a.dirs b.dirs else false

unfoldable pub ne_filename : Filename → Filename → Bool
ne_filename a b = not (eq_filename a b)

-- The loop of `DistanceTo`; the first argument is what `min_length` still allows.
unfoldable pub common_subdirs : ℕ → List Text → List Text → ℕ
common_subdirs (suc room) (x ∷ xs) (y ∷ ys) =
    let rest = suc (common_subdirs room xs ys) in if text_eq x y then rest else 0
common_subdirs _ _ _ = 0

-- `DistanceTo`. No array is empty, so that the subtractions are those of an `int`.
unfoldable pub distance_to : Filename → Filename → ℕ
distance_to a f =
    let min_length = min (length f.dirs) (length a.dirs) - 1 in
    length f.dirs + length a.dirs - 2 * common_subdirs min_length f.dirs a.dirs - 2

-- The loop of `Str`, behind the first component.
unfoldable pub join_rest : List Text → Text
join_rest [] = []
join_rest (d ∷ ds) = b'/' ∷ (d ++ join_rest ds)

join : List Text → Text
join [] = []
join (d ∷ ds) = d ++ join_rest ds

or_dot : Text → Text
or_dot [] = codes "."
or_dot (c ∷ cs) = c ∷ cs

unfoldable pub str : Filename → Text
unfolding join or_dot
str f = or_dot (join f.dirs)

-- `Basename`: the last component that is not empty, or NULL.
unfoldable pub last_nonempty : List Text → Option Text
last_nonempty [] = none
last_nonempty (d ∷ ds) = elim (last_nonempty ds) [
  | some b ↦ some b
  | none ↦ if length d == 0 then none else some d
]

unfoldable pub basename : Filename → Option Text
basename f = last_nonempty f.dirs
