-- ===== src/WatchMap.antt =====
-- filewatcher.h and filewatcher.cc: `JoinPath`, and `PathnameWatchDescriptorMap`, the two-way map between
-- the watched directories and their watch descriptors.
pub mod Joined
pub mod Inverse
use google_gtags.Prelude.{
  ℕ, ◌+◌, ◌-◌, Bool, List, [], ◌∷◌, ◌++◌, map, Text, codes, length, keep, Option, none, some, ltb,
  ◌==◌, if◌then◌else◌,
}
use google_gtags.Prelude.Dict.{put, find, erase, text_key, int_key}
use google_gtags.Prelude.Int.{ℤ, pos}
use google_gtags.Prelude.Result.{Result, ok, fatal, undefined}
use google_gtags.Strutil.{has_prefix_string}

-- `kMaxPathLength`
abbrev pub max_path_length : ℕ
max_path_length = 512

-- The last character; a text with none has none.
unfoldable pub last_char : Text → Option ℕ
last_char [] = none
last_char (c ∷ []) = some c
last_char (c ∷ d ∷ cs) = last_char (d ∷ cs)

-- What is written behind the CHECK. With an empty base the character in front of the buffer is read.
unfoldable pub joined : Option ℕ → Text → Text → Result Text
joined none base_path child_path = undefined
joined (some c) base_path child_path =
    ok (if c == b'/' then base_path ++ child_path else base_path ++ (b'/' ∷ child_path))

-- `JoinPath`: the text that it leaves in the buffer, in front of the terminator.
unfoldable pub join_path : Text → Text → Result Text
join_path base_path child_path =
    if ltb (length base_path + 1 + length child_path) max_path_length
    then joined (last_char base_path) base_path child_path
    else fatal

pub record WatchMap : Type 0 where
  pub pathname_to_wd : List (Text × ℤ)
  pub wd_to_pathname : List (ℤ × Text)

abbrev pub no_watches : WatchMap
no_watches = record { pathname_to_wd = []; wd_to_pathname = [] }

-- `Add`
unfoldable pub add : Text → ℤ → WatchMap → WatchMap
add pathname wd m = record {
  pathname_to_wd = put pathname wd m.pathname_to_wd;
  wd_to_pathname = put wd pathname m.wd_to_pathname;
}

-- `GetPathname` and `GetPathnameNoLock`; `none` is NULL.
unfoldable pub get_pathname : ℤ → WatchMap → Option Text
get_pathname wd m = find wd m.wd_to_pathname

-- What `Remove` does behind the lookup.
unfoldable pub forget : Option Text → ℤ → WatchMap → WatchMap
forget none wd m = m
forget (some pathname) wd m = record {
  pathname_to_wd = erase pathname m.pathname_to_wd;
  wd_to_pathname = erase wd m.wd_to_pathname;
}

-- `Remove`
unfoldable pub remove : ℤ → WatchMap → WatchMap
remove wd m = forget (get_pathname wd m) wd m

abbrev pub or_zero : Option ℤ → ℤ
or_zero none = pos 0
or_zero (some wd) = wd

-- `GetWatchDescriptor`
unfoldable pub get_watch_descriptor : Text → WatchMap → ℤ
get_watch_descriptor pathname m = or_zero (find pathname m.pathname_to_wd)

-- `GetSubDirs`: what it appends to its output.
unfoldable pub get_sub_dirs : Text → WatchMap → List Text
get_sub_dirs pathname m =
    map (λ e. e.0) (keep (λ e. has_prefix_string e.0 pathname) m.pathname_to_wd)

-- `GetSubDirsWatchDescriptor`
unfoldable pub get_sub_dirs_watch_descriptor : Text → WatchMap → List ℤ
get_sub_dirs_watch_descriptor pathname m =
    map (λ e. e.1) (keep (λ e. has_prefix_string e.0 pathname) m.pathname_to_wd)
