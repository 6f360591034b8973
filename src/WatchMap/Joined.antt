-- ===== src/WatchMap/Joined.antt =====
-- filewatcher.cc: the length of a joined path, against the buffers that it is written to.
use google_gtags.Prelude.{
  if_rule, ℕ, ◌+◌, ◌≤◌, ◌++◌, Text, length, length-append, Option, ◌∷◌, none, some, ◌≡◌, inl, inr,
  arith, ltb, ◌==◌, Bool-cases,
}
use google_gtags.Prelude.Result.{ok, Holds-ok}
use google_gtags.WatchMap.{last_char, joined, join_path, max_path_length}

-- A length between that of both texts and one more, for the '/'.
abbrev pub IsJoin : Text → Text → Text → Type 0
IsJoin base child path =
    (length base + length child ≤ length path) × (length path ≤ length base + 1 + length child)

joined-IsJoin :
    (last : Option ℕ) (base child path : Text)
    → joined last base child ≡ ok path
    → IsJoin base child path
unfolding joined
joined-IsJoin none base child path h = cc
joined-IsJoin (some c) base child path h =
    Holds-ok (IsJoin base child) (joined (some c) base child)
      (if_rule (IsJoin base child) (c == b'/') {x = base ++ child} {y = base ++ (b'/' ∷ child)}
        (omega (arith, length-append base child))
        (omega (arith, length-append base (b'/' ∷ child))))
      h

-- A path that `JoinPath` returns fits its buffer of 512 characters with the terminator, and is at most
-- one character longer than the two texts.
pub join_path_bounds :
    (base child path : Text)
    → join_path base child ≡ ok path
    → (length path + 1 ≤ max_path_length) × IsJoin base child path
unfolding join_path
join_path_bounds base child path h =
    elim (Bool-cases (ltb (length base + 1 + length child) max_path_length)) [
      | inl e ↦
          let j = joined-IsJoin (last_char base) base child path (rw e at h) in
          (ground (arith, j), j)
      | inr e ↦ (cc (rw e at h), cc (rw e at h))
    ]
