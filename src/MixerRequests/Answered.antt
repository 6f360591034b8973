-- ===== src/MixerRequests/Answered.antt =====
-- mixerrequesthandler.cc with gtagsmixer.cc: a client's request, from its text to the response.
use google_gtags.Prelude.{
  none, ℕ, Bool, true, false, List, [], ◌∷◌, Text, codes, text_eq, length, Option, some, ◌≡◌, ◌≢◌,
  refl, sym, ap, ◌∙◌, if◌then◌else◌,
}
use google_gtags.Prelude.Dict.{find, text_key}
use google_gtags.Prelude.Int.{ℤ}
use google_gtags.Prelude.Result.{Result, ok, fatal, undefined, out_of_fuel, ◌>>=◌}
use google_gtags.Strutil.{ascii_isspace, is_int_token}
use google_gtags.Sexp.{
  is_list, is_nil, is_symbol, symbol, needs_quoting, token_is_integer, token_is_all_periods,
  is_symbol_char,
}
use google_gtags.Sexp.Printer.{repr}
use google_gtags.Sexp.Iterator.{begin, deref, elements, increment}
use google_gtags.Sexp.RoundTrip.{parse-repr_plain}
use google_gtags.SexpUtil.{assoc_get, assoc_loop, is_entry_of, head_matches, second}
use google_gtags.RequestHandler.Query.{
  TagsCommand, ping, log, get_server_version, get_supported_protocol_versions, reload_tags_file,
  lookup_tag_exact, lookup_tag_prefix_regexp, lookup_tag_snippet_regexp, lookup_tags_in_file,
  load_update_file,
}
use google_gtags.RequestHandler.Requests.{
  name_of, Request, request_sexp, IsSendable, request_sexp-IsPrintable, request_sexp-IsPlain,
}
use google_gtags.Mixer.{local, remote, new_mixer, mix_result, Report, result}
use google_gtags.Mixer.Holder.{first_answer, call_all-new_holder}
use google_gtags.Mixer.Order.{report_all, answered, once, report_all-once}
use google_gtags.MixerRequests.{
  DataSource, services, size, Sources, LanguageMap, DataSourceMap, Defaults, DataSourceRequest,
  create_request, is_command_ping, asks, ask_local, ask_source, ask_language, ask_corpus,
  execute_mixed, local_reports, from_source, responses, string_or, bool_or, source_for,
}

is_ping : TagsCommand → Bool
is_ping ping = true
is_ping _ = false

command_pings : (c : TagsCommand) → text_eq (repr (symbol (name_of c))) (codes "ping") ≡ is_ping c
unfolding name_of repr needs_quoting token_is_integer is_int_token ascii_isspace
    token_is_all_periods is_symbol_char text_eq is_ping
command_pings ping = refl
command_pings log = refl
command_pings get_server_version = refl
command_pings get_supported_protocol_versions = refl
command_pings reload_tags_file = refl
command_pings lookup_tag_exact = refl
command_pings lookup_tag_prefix_regexp = refl
command_pings lookup_tag_snippet_regexp = refl
command_pings lookup_tags_in_file = refl
command_pings load_update_file = refl

pings_not : (c : TagsCommand) → c ≢ ping → is_ping c ≡ false
unfolding is_ping
pings_not ping n = absurd (n refl)
pings_not log n = refl
pings_not get_server_version n = refl
pings_not get_supported_protocol_versions n = refl
pings_not reload_tags_file n = refl
pings_not lookup_tag_exact n = refl
pings_not lookup_tag_prefix_regexp n = refl
pings_not lookup_tag_snippet_regexp n = refl
pings_not lookup_tags_in_file n = refl
pings_not load_update_file n = refl

is_command_ping-request_sexp :
    (r : Request) → r.command ≢ ping → is_command_ping (some (request_sexp r)) ≡ ok false
unfolding is_command_ping request_sexp is_list begin deref is_symbol
is_command_ping-request_sexp r n = ap ok (command_pings r.command ∙ pings_not r.command n)

-- What the mixer keeps of a client's request.
pub request_of : Request → Defaults → DataSourceRequest
request_of r d = record {
  request = repr (request_sexp r);
  language = r.language;
  callers = true;
  client_path = r.current_file;
  corpus = d.corpus;
}

create_request-request_sexp :
    (r : Request) (d : Defaults) → create_request d (some (request_sexp r)) ≡ ok (request_of r d)
unfolding create_request request_of request_sexp assoc_get assoc_loop is_entry_of head_matches
    second is_list is_nil elements begin deref increment text_eq string_or bool_or
create_request-request_sexp r d = refl

-- One response, where the answers can be mixed.
one_response : (o : Result Text) → (once o >>= λ p. ok p.1) ≡ (o >>= λ output. ok (output ∷ []))
one_response (ok output) = refl
one_response fatal = refl
one_response undefined = refl
one_response out_of_fuel = refl

-- The connections of the local source have all answered, if there is one.
abbrev pub AllAnswer : Option ℕ → List Report → Type 0
AllAnswer none calls = Unit
AllAnswer (some n) calls = (calls ≢ []) × (length calls ≡ n)

-- What the local source has answered, or nothing where there is none.
abbrev pub local_answer : Option ℕ → List Report → Report
local_answer none calls = result []
local_answer (some n) calls = first_answer calls

local_reports-local_answer :
    (l : Option ℕ) (calls : List Report)
    → AllAnswer l calls
    → local_reports l calls ≡ ok (local_answer l calls ∷ [])
unfolding local_reports
local_reports-local_answer none calls h = refl
local_reports-local_answer (some n) calls (some_calls, e) =
    rw (sym e) (rw (call_all-new_holder calls some_calls) refl)

in_any_order :
    (a b : Report) (first : Bool)
    → (report_all
          (if first then (local, a) ∷ (remote, b) ∷ [] else (remote, b) ∷ (local, a) ∷ [])
          (some new_mixer)
        >>= λ p. ok p.1)
      ≡ (mix_result (answered a b) >>= λ output. ok (output ∷ []))
in_any_order a b true = rw ((report_all-once a b).0) (one_response (mix_result (answered a b)))
in_any_order a b false = rw ((report_all-once a b).1) (one_response (mix_result (answered a b)))

responses-asks :
    (q : DataSourceRequest) (n : ℕ) (l : Option ℕ) (first : Bool) (calls local_calls : List Report)
    → calls ≢ []
    → length calls ≡ n
    → AllAnswer l local_calls
    → responses (asks q n l) first calls local_calls ≡ (
        mix_result (answered (local_answer l local_calls) (first_answer calls)) >>= λ output.
        ok (output ∷ []))
unfolding responses from_source
responses-asks q n l first calls local_calls some_calls e h = rw (sym e) (
    rw (call_all-new_holder calls some_calls) (
      rw (local_reports-local_answer l local_calls h)
        (in_any_order (local_answer l local_calls) (first_answer calls) first)))

-- The sources that a client's request goes to, and the size of the local one.
pub record IsFor (r : Request) (d : Defaults) (sources : DataSourceMap) (ss : List (Text × ℤ))
    (l : Option ℕ) : Type 0 where
  pub languages : LanguageMap
  pub pair : Sources
  pub corpus : find d.corpus sources ≡ some languages
  pub language : find r.language languages ≡ some pair
  pub callers : pair.callers ≡ some (services ss)
  pub local_source : ask_local true (find (codes "local") languages) ≡ ok l

ask_source-asks :
    (q : DataSourceRequest) (languages : LanguageMap) (ss : List (Text × ℤ)) (l : Option ℕ)
    → ask_local q.callers (find (codes "local") languages) ≡ ok l
    → ask_source q languages (some (services ss)) ≡ ok (asks q (length ss) l)
unfolding ask_source size
ask_source-asks q languages ss l e = rw e refl

ask_language-asks :
    (q : DataSourceRequest) (languages : LanguageMap) (pair : Sources) (o : Option DataSource)
    → find q.language languages ≡ some pair
    → source_for q.callers pair ≡ o
    → ask_language q languages ≡ ask_source q languages o
unfolding ask_language
ask_language-asks q languages pair o e d = rw (e, ask_language) (rw d refl)

ask_corpus-asks :
    (q : DataSourceRequest) (sources : DataSourceMap) (languages : LanguageMap)
    → find q.corpus sources ≡ some languages
    → ask_corpus sources q ≡ ask_language q languages
unfolding ask_corpus
ask_corpus-asks q sources languages e = rw (e, ask_corpus) refl

execute_mixed-asks :
    (r : Request) (d : Defaults) (sources : DataSourceMap) (ss : List (Text × ℤ)) (l : Option ℕ)
    → IsSendable r
    → r.command ≢ ping
    → IsFor r d sources ss l
    → execute_mixed d sources (repr (request_sexp r)) ≡ ok (asks (request_of r d) (length ss) l)
unfolding execute_mixed source_for request_of
execute_mixed-asks r d sources ss l s n f =
    rw (parse-repr_plain (request_sexp r) (request_sexp-IsPrintable r s) (request_sexp-IsPlain r s))
      (rw (is_command_ping-request_sexp r n) (
        rw (create_request-request_sexp r d) (
          let q = request_of r d in
          ask_corpus-asks q sources f.languages f.corpus
          ∙ ask_language-asks q f.languages f.pair (some (services ss)) f.language f.callers
          ∙ ask_source-asks q f.languages ss l f.local_source)))

-- A request that a client prints, of any command but a ping, for a language of the default corpus whose source
-- for callers has services: once each of its services and each connection of the local source, if there is one,
-- has given a result or failed, the client has one response, whichever of the sources reports first, if the
-- answers can be mixed. It is mixed of the first result of each source, of a failure where all of its
-- connections have failed, and of nothing where there is no local source.
pub client_request_answered :
    (r : Request) (d : Defaults) (sources : DataSourceMap) (ss : List (Text × ℤ)) (l : Option ℕ)
    (first : Bool) (calls local_calls : List Report)
    → IsSendable r
    → r.command ≢ ping
    → IsFor r d sources ss l
    → calls ≢ []
    → length calls ≡ length ss
    → AllAnswer l local_calls
    → (execute_mixed d sources (repr (request_sexp r)) >>= λ e. responses e first calls local_calls)
      ≡ (mix_result (answered (local_answer l local_calls) (first_answer calls)) >>= λ output.
          ok (output ∷ []))
client_request_answered r d sources ss l first calls local_calls s n f some_calls e h =
    rw (execute_mixed-asks r d sources ss l s n f)
      (responses-asks (request_of r d) (length ss) l first calls local_calls some_calls e h)
