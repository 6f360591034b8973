-- ===== src/MixerRequests/Tests.antt =====
-- mixerrequesthandler_test.cc and settings_test.cc: runs on concrete inputs, and the theorem at inputs that
-- meet its premises.
use google_gtags.Prelude.{false, List, [], ◌∷◌, none, some, codes, Text, text_eq, ◌≡◌, ◌≢◌, refl}
use google_gtags.Prelude.Dict.{find, put, text_key}
use google_gtags.Prelude.Int.{pos}
use google_gtags.Prelude.Result.{ok, undefined, ◌>>=◌}
use google_gtags.Sexp.{SExpression, nil, pair, symbol, str, int, is_list, is_nil}
use google_gtags.Sexp.Printer.{repr}
use google_gtags.Sexp.Iterator.{elements, begin, deref}
use google_gtags.Sexp.Reads.{list_of}
use google_gtags.SexpUtil.{
  read_list, read_pair_list, to_string, to_int, to_bool, put_pair, put_typed,
}
use google_gtags.RequestHandler.Query.{lookup_tag_exact, ping}
use google_gtags.RequestHandler.Requests.{Request, request_sexp, IsSendable, is_sendable}
use google_gtags.Mixer.{failure, Report, mix_result, new_mixer, set_report, check_if_done, result}
use google_gtags.Mixer.Holder.{call_all, first_answer}
use google_gtags.Mixer.Order.{report_all, answered}
use google_gtags.MixerRequests.{
  services, local_handler, LanguageMap, size, DataSourceMap, Defaults, execute_mixed, responses,
  asks, create_request, is_command_ping, DataSourceRequest, ask_local,
}
use google_gtags.MixerRequests.Settings.{load_settings, read_settings, add_corpuses}
use google_gtags.MixerRequests.Answered.{IsFor, local_answer, client_request_answered}

abbrev defaults : Defaults
defaults = record { corpus = codes "corpus1"; language = codes "c++"; callers = false }

-- (name ("c++" . value))
abbrev for_language : Text → SExpression → SExpression
for_language name value = list_of (symbol name ∷ pair (str (codes "c++")) value ∷ [])

abbrev settings : List SExpression
settings =
    list_of (symbol (codes "gtags-corpuses") ∷ str (codes "corpus1") ∷ [])
    ∷ list_of (symbol (codes "gtags-languages") ∷ str (codes "c++") ∷ [])
    ∷ for_language (codes "gtags-language-has-callgraph") (symbol (codes "t"))
    ∷ for_language (codes "gtags-callgraph-hostnames") (str (codes "host"))
    ∷ for_language (codes "gtags-callgraph-ports") (int (pos 2223))
    ∷ []

-- Definitions have no service, since no host or port is given for them.
abbrev loaded : DataSourceMap
loaded =
    (
      codes "corpus1",
      (
        codes "c++",
        record {
          definitions = some (services []);
          callers = some (services ((codes "host", pos 2223) ∷ []));
        },
      )
          ∷ [],
    )
    ∷ []

settings_load : load_settings settings ≡ ok loaded
unfolding load_settings read_settings is_list elements add_corpuses text_eq read_list to_string put
    find read_pair_list put_typed to_bool put_pair is_nil to_int
settings_load = refl

-- An empty list among the settings.
empty_setting : load_settings (nil ∷ []) ≡ undefined
unfolding load_settings read_settings is_list elements
empty_setting = refl

-- A command that cannot be parsed, and the empty list.
no_request : create_request defaults none ≡ undefined
unfolding create_request
no_request = refl

empty_request : is_command_ping (some nil) ≡ undefined
unfolding is_command_ping is_list begin deref
empty_request = refl

-- A source with no services makes no call, and there is no response, ever.
abbrev any_request : DataSourceRequest
any_request = record {
  request = codes "(log)";
  language = codes "c++";
  callers = false;
  client_path = [];
  corpus = codes "corpus1";
}

no_response : responses (asks any_request 0 none) false [] [] ≡ ok []
unfolding responses call_all report_all new_mixer set_report check_if_done
no_response = refl

abbrev lookup : Request
lookup = record {
  command = lookup_tag_exact;
  client_type = codes "vim";
  client_version = pos 2;
  protocol_version = pos 2;
  tag = codes "main";
  language = codes "c++";
  current_file = codes "/a/b.c";
}

lookup-IsSendable : IsSendable lookup
unfolding is_sendable
lookup-IsSendable = record {
  client_type = refl;
  client_version = refl;
  protocol_version = refl;
  tag = refl;
  language = refl;
  current_file = refl;
}

-- The sources that a mixer with a local table has besides.
abbrev both_sources : LanguageMap
both_sources =
    (
      codes "c++",
      record {
        definitions = some (services []);
        callers = some (services ((codes "host", pos 2223) ∷ []));
      },
    )
    ∷ (codes "local", record { definitions = some local_handler; callers = some local_handler })
    ∷ []

lookup-IsFor :
    IsFor lookup defaults
      ((codes "corpus1", both_sources) ∷ [])
      ((codes "host", pos 2223) ∷ [])
      (some 1)
unfolding find text_eq ask_local size
lookup-IsFor = record {
  languages = both_sources;
  pair = record {
    definitions = some (services []);
    callers = some (services ((codes "host", pos 2223) ∷ []));
  };
  corpus = refl;
  language = refl;
  callers = refl;
  local_source = refl;
}

lookup_is_no_ping : lookup_tag_exact ≢ ping
lookup_is_no_ping e = cc

abbrev answers : List Report
answers = result (codes "((value ()))") ∷ []

client_request_answered_example :
    (execute_mixed defaults ((codes "corpus1", both_sources) ∷ []) (repr (request_sexp lookup))
      >>= λ e. responses e false (failure (codes "refused") ∷ []) answers)
    ≡ (mix_result
          (answered (local_answer (some 1) answers) (first_answer (failure (codes "refused") ∷ [])))
        >>= λ output. ok (output ∷ []))
client_request_answered_example =
    client_request_answered lookup defaults ((codes "corpus1", both_sources) ∷ [])
      ((codes "host", pos 2223) ∷ []) (some 1) false (failure (codes "refused") ∷ []) answers
      lookup-IsSendable lookup_is_no_ping lookup-IsFor (λ e. cc) refl (λ e. cc, refl)
