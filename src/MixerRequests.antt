-- ===== src/MixerRequests.antt =====
-- mixerrequesthandler.h, mixerrequesthandler.cc, datasource.h and datasource.cc: what the mixer makes of a
-- command, and the sources that it asks.
pub mod Settings
pub mod Answered
mod Tests
use google_gtags.Prelude.{
  ℕ, Bool, true, false, not, ◌&&◌, List, [], ◌∷◌, ◌++◌, Text, codes, text_eq, length, Option, none,
  some, map, if◌then◌else◌,
}
use google_gtags.Prelude.Dict.{find, text_key}
use google_gtags.Prelude.Int.{ℤ}
use google_gtags.Prelude.Result.{Result, ok, undefined, ◌>>=◌}
use google_gtags.Sexp.{SExpression, str, is_list, is_nil, is_symbol}
use google_gtags.Sexp.Parser.{parse}
use google_gtags.Sexp.Printer.{repr}
use google_gtags.Sexp.Iterator.{begin, deref}
use google_gtags.SexpUtil.{to_string, assoc_get}
use google_gtags.Mixer.{SourceId, local, remote, ResultMixer, new_mixer, Report, result, new_holder}
use google_gtags.Mixer.Holder.{call_all}
use google_gtags.Mixer.Order.{report_all}

-- `RemoteDataSource`, by the addresses and the ports of its services, and `LocalDataSource`.
pub data DataSource : Type 0 where
  services : List (Text × ℤ) → DataSource
  local_handler : DataSource

unfoldable pub size : DataSource → ℕ
size (services ss) = length ss
size local_handler = 1

-- The sources of a language for definitions and for callers; `none` is NULL.
pub record Sources : Type 0 where
  pub definitions : Option DataSource
  pub callers : Option DataSource

abbrev pub LanguageMap : Type 0
LanguageMap = List (Text × Sources)

abbrev pub DataSourceMap : Type 0
DataSourceMap = List (Text × LanguageMap)

-- The defaults of `Settings`.
pub record Defaults : Type 0 where
  pub corpus : Text
  pub language : Text
  pub callers : Bool

pub record DataSourceRequest : Type 0 where
  pub request : Text
  pub language : Text
  pub callers : Bool
  pub client_path : Text
  pub corpus : Text

-- The value, where it is there and is a string.
unfoldable pub string_or : Text → Option SExpression → Text
string_or d (some (str s)) = s
string_or d _ = d

unfoldable pub bool_or : Bool → Option SExpression → Bool
bool_or d none = d
bool_or d (some v) = not (is_nil v)

-- `CreateDataSourceRequest`. It reads through the pointer where that is NULL.
unfoldable pub create_request : Defaults → Option SExpression → Result DataSourceRequest
create_request d none = undefined
create_request d (some v) = do
  corpus ← assoc_get v (codes "corpus")
  language ← assoc_get v (codes "language")
  callers ← assoc_get v (codes "callers")
  file ← assoc_get v (codes "current-file")
  ok (record {
    request = repr v;
    language = string_or d.language language;
    callers = bool_or d.callers callers;
    client_path = string_or [] file;
    corpus = string_or d.corpus corpus;
  })

-- `IsCommandPing`. Of the empty list it reads what the iterator at its end points to.
unfoldable pub is_command_ping : Option SExpression → Result Bool
is_command_ping none = ok false
is_command_ping (some v) =
    if is_list v
    then (do i ← begin v; c ← deref i; ok (is_symbol c && text_eq (repr c) (codes "ping")))
    else ok false

-- What `Execute` does: it runs the response callback, or it asks a source and the local one, if there is one,
-- each with a holder for so many answers.
pub data Execution : Type 0 where
  responds : Text → Execution
  asks : DataSourceRequest → ℕ → Option ℕ → Execution

unfoldable pub print_callers : Bool → Text
print_callers callers = if callers then codes "t" else codes "nil"

unfoldable pub source_for : Bool → Sources → Option DataSource
source_for callers s = if callers then s.callers else s.definitions

-- The local source of a corpus. Where it is NULL, its size is read through NULL.
unfoldable pub ask_local : Bool → Option Sources → Result (Option ℕ)
unfolding source_for
ask_local callers none = ok none
ask_local callers (some s) = elim (source_for callers s) [
  | none ↦ undefined
  | some source ↦ ok (some (size source))
]

unfoldable pub ask_source : DataSourceRequest → LanguageMap → Option DataSource → Result Execution
ask_source q languages none = ok (
    responds (
      ((codes "((error ((message \"" ++ q.language) ++ codes " does not support caller type ")
      ++ print_callers q.callers
      ++ codes "\"))))"))
ask_source q languages (some source) = do
  l ← ask_local q.callers (find (codes "local") languages)
  ok (asks q (size source) l)

unfoldable pub ask_language : DataSourceRequest → LanguageMap → Result Execution
unfolding ask_source
ask_language q languages = elim (find q.language languages) [
  | none ↦ ok (
      responds (
        codes "((error ((message \"Failed to map language "
        ++ q.language
        ++ codes ", callers: "
        ++ print_callers q.callers
        ++ codes ", corpus: "
        ++ q.corpus
        ++ codes " into RPC stubs.\"))))"))
  | some s ↦ ask_source q languages (source_for q.callers s)
]

unfoldable pub ask_corpus : DataSourceMap → DataSourceRequest → Result Execution
unfolding ask_language
ask_corpus sources q = elim (find q.corpus sources) [
  | none ↦
      ok (
        responds (codes "((error ((message \"Failed to find corpus " ++ q.corpus ++ codes "\"))))"))
  | some languages ↦ ask_language q languages
]

-- `Execute`
unfoldable pub execute_mixed : Defaults → DataSourceMap → Text → Result Execution
unfolding ask_corpus
execute_mixed d sources command = do
  v ← parse command
  pings ← is_command_ping v
  if pings
      then ok (responds (codes "((value t))"))
      else (do q ← create_request d v; ask_corpus sources q)

-- What the local source reports, where its connections make these calls, and where there is none, what `Execute`
-- does. The handler of a `LocalDataSource` makes one call.
unfoldable pub local_reports : Option ℕ → List Report → Result (List Report)
local_reports none calls = ok (result [] ∷ [])
local_reports (some n) calls = do r ← call_all calls (some (new_holder n)); ok r.1

unfoldable pub from_source : SourceId → List Report → List (SourceId × Report)
from_source id [] = []
from_source id (r ∷ rs) = (id, r) ∷ from_source id rs

-- What the response callback is run with, where the connections of the source and of the local one make these
-- calls, and the local one reports before or behind the other.
unfoldable pub responses : Execution → Bool → List Report → List Report → Result (List Text)
unfolding local_reports from_source
responses (responds t) first calls local_calls = ok (t ∷ [])
responses (asks q n l) first calls local_calls = do
  r ← call_all calls (some (new_holder n))
  s ← local_reports l local_calls
  p ←
      report_all
        (if first
          then from_source local s ++ from_source remote r.1
          else from_source remote r.1 ++ from_source local s)
        (some new_mixer)
  ok p.1
