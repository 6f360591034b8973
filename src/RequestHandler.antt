-- ===== src/RequestHandler.antt =====
-- tagsrequesthandler.h and tagsrequesthandler.cc: what the two protocols share, and the choice between them.
pub mod Opcode
pub mod Query
pub mod Protocol
pub mod Server
pub mod Answers
pub mod Lookups
pub mod Requests
pub mod Roots
mod Tests
use google_gtags.Prelude.{
  ℕ, ◌+◌, Bool, List, [], ◌∷◌, ◌++◌, Text, codes, text_eq, length, drop, Option, none, some,
  if◌then◌else◌,
}
use google_gtags.Prelude.Result.{Result, ok, fatal, ◌>>=◌}
use google_gtags.Strutil.{has_prefix_string}
use google_gtags.TagsTable.{TagsTable, Config, RegExp}
use google_gtags.TagsTable.Load.{reload_tag_file, update_tag_file}

-- The flags, the members of a handler, and what the handlers call: `contents` is what a `FileReader`
-- reads from a file, gunzipped or not, and `none` where it cannot be opened.
pub record Environment : Type 0 where
  pub config : Config
  pub regexp : RegExp
  pub contents : Bool → Text → Option Text
  pub test_mode : Bool
  pub enable_fileindex : Bool
  pub enable_gunzip : Bool
  pub corpus_root : Text

-- What a handler writes to its `query_profile`.
pub record Profile : Type 0 where
  pub client : Text
  pub command : ℕ
  pub tag : Text
  pub current_file : Text
  pub client_message : Text

-- `path.find(pattern)`, and `substr` from behind it, for a pattern that is not empty.
unfoldable pub behind_first : Text → Text → Option Text
behind_first pattern [] = none
behind_first pattern (c ∷ cs) =
    if has_prefix_string (c ∷ cs) pattern
    then some (drop (length pattern) (c ∷ cs))
    else behind_first pattern cs

or_path : Text → Option Text → Text
or_path path none = path
or_path path (some rest) = rest

abbrev pub root_pattern : Text → Text
root_pattern corpus_root = b'/' ∷ (corpus_root ++ b'/' ∷ [])

-- `StripCorpusRoot`
unfoldable pub strip_corpus_root : Text → Text → Text
unfolding or_path
strip_corpus_root corpus_root path =
    if text_eq corpus_root []
    then path
    else or_path path (behind_first (root_pattern corpus_root) path)

-- A file that cannot be opened fails a CHECK of its iterator.
unfoldable pub with_contents : Option Text → (Text → Result TagsTable) → Result TagsTable
with_contents none load = fatal
with_contents (some s) load = load s

-- `t` or `nil`.
abbrev pub print_bool : Bool → Text
print_bool b = if b then codes "t" else codes "nil"

-- `ReloadTagFile` and `UpdateTagFile` of a named file, whose result is always true.
unfoldable pub reload_file : Environment → Text → TagsTable → Result TagsTable
unfolding with_contents
reload_file env file t =
    with_contents (env.contents env.enable_gunzip file) (λ s. reload_tag_file env.config s t)

unfoldable pub update_file : Environment → Text → TagsTable → Result TagsTable
unfolding with_contents
update_file env file t =
    with_contents (env.contents env.enable_gunzip file) (λ s. update_tag_file env.config s t)
