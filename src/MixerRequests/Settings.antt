-- ===== src/MixerRequests/Settings.antt =====
-- settings.h and settings.cc: the sources that a file of settings names.
use google_gtags.Prelude.{
  Bool, false, List, [], ◌∷◌, Text, codes, text_eq, Option, none, some, if◌then◌else◌,
}
use google_gtags.Prelude.Dict.{find, put, text_key}
use google_gtags.Prelude.Int.{ℤ}
use google_gtags.Prelude.Result.{Result, ok, fatal, undefined, ◌>>=◌}
use google_gtags.Sexp.{SExpression, nil, symbol, is_list}
use google_gtags.Sexp.Iterator.{elements}
use google_gtags.SexpUtil.{to_string, to_int, to_bool, read_list, read_pair_list}
use google_gtags.MixerRequests.{services, Sources, LanguageMap, DataSourceMap}

-- The lists and maps that the loop over the settings fills.
pub record Read : Type 0 where
  pub corpuses : List Text
  pub languages : List Text
  pub has_callgraph : List (Text × Bool)
  pub language_hostnames : List (Text × Text)
  pub callgraph_hostnames : List (Text × Text)
  pub language_ports : List (Text × ℤ)
  pub callgraph_ports : List (Text × ℤ)

abbrev pub nothing_read : Read
nothing_read = record {
  corpuses = [];
  languages = [];
  has_callgraph = [];
  language_hostnames = [];
  callgraph_hostnames = [];
  language_ports = [];
  callgraph_ports = [];
}

unfoldable pub read_setting : Text → List SExpression → Read → Read
read_setting setting vs r =
    if text_eq setting (codes "gtags-corpuses")
    then record r { corpuses = read_list to_string vs r.corpuses }
    else if text_eq setting (codes "gtags-languages")
    then record r { languages = read_list to_string vs r.languages }
    else if text_eq setting (codes "gtags-language-has-callgraph")
    then record r { has_callgraph = read_pair_list text_eq to_string to_bool vs r.has_callgraph }
    else if text_eq setting (codes "gtags-language-hostnames")
    then record r {
      language_hostnames = read_pair_list text_eq to_string to_string vs r.language_hostnames;
    }
    else if text_eq setting (codes "gtags-callgraph-hostnames")
    then record r {
      callgraph_hostnames = read_pair_list text_eq to_string to_string vs r.callgraph_hostnames;
    }
    else if text_eq setting (codes "gtags-language-ports")
    then record r { language_ports = read_pair_list text_eq to_string to_int vs r.language_ports }
    else if text_eq setting (codes "gtags-callgraph-ports")
    then record r { callgraph_ports = read_pair_list text_eq to_string to_int vs r.callgraph_ports }
    else r

-- A setting, of which these are the elements. For an empty one, the log reads what the iterator at its end
-- points to; nil calls itself a symbol and fails the cast.
unfoldable pub read_entry : List SExpression → Read → Result Read
unfolding read_setting
read_entry [] r = undefined
read_entry (nil ∷ vs) r = fatal
read_entry (symbol name ∷ vs) r = ok (read_setting name vs r)
read_entry (v ∷ vs) r = ok r

-- The loop over the s-expressions of the file.
unfoldable pub read_settings : List SExpression → Read → Result Read
unfolding read_entry
read_settings [] r = ok r
read_settings (v ∷ vs) r = do
  s ← if is_list v then read_entry (elements v) r else ok r
  read_settings vs s

-- The services of a source: one, where the host and the port are there.
unfoldable pub service_at : Option Text → Option ℤ → List (Text × ℤ)
service_at (some host) (some port) = (host, port) ∷ []
service_at _ _ = []

unfoldable pub has_callgraph_for : Option Bool → Bool
has_callgraph_for none = false
has_callgraph_for (some b) = b

unfoldable pub sources_of : Read → Text → Sources
unfolding service_at has_callgraph_for
sources_of r lang = record {
  definitions =
      some (services (service_at (find lang r.language_hostnames) (find lang r.language_ports)));
  callers =
      if has_callgraph_for (find lang r.has_callgraph)
      then some
          (services (service_at (find lang r.callgraph_hostnames) (find lang r.callgraph_ports)))
      else none;
}

-- `sources_[corpus]`, which is made where it is not there.
unfoldable pub languages_at : Option LanguageMap → LanguageMap
languages_at none = []
languages_at (some m) = m

unfoldable pub add_source : Text → Text → Sources → DataSourceMap → DataSourceMap
unfolding languages_at
add_source corpus language s m = put corpus (put language s (languages_at (find corpus m))) m

-- The loops that add the sources.
unfoldable pub add_languages : Read → Text → List Text → DataSourceMap → DataSourceMap
unfolding sources_of add_source
add_languages r corpus [] m = m
add_languages r corpus (lang ∷ langs) m =
    add_languages r corpus langs (add_source corpus lang (sources_of r lang) m)

unfoldable pub add_corpuses : Read → List Text → DataSourceMap → DataSourceMap
unfolding add_languages
add_corpuses r [] m = m
add_corpuses r (corpus ∷ corpuses) m =
    add_corpuses r corpuses (add_languages r corpus r.languages m)

-- The constructor, on what the file holds.
unfoldable pub load_settings : List SExpression → Result DataSourceMap
load_settings vs = do r ← read_settings vs nothing_read; ok (add_corpuses r r.corpuses [])
