-- ===== src/Mixer.antt =====
-- gtagsmixer.h and gtagsmixer.cc: the first answer of each source, and the answers of all sources mixed.
mod Tests
pub mod Holder
pub mod Order
use google_gtags.Prelude.{
  ℕ, zero, suc, Bool, true, false, not, List, [], ◌∷◌, ◌++◌, Text, codes, Option, none, some,
  if◌then◌else◌,
}
use google_gtags.Prelude.Result.{Result, ok, fatal, undefined, ◌>>=◌}
use google_gtags.Sexp.{SExpression, is_list}
use google_gtags.Sexp.Parser.{parse}
use google_gtags.Sexp.Printer.{repr}
use google_gtags.Sexp.Iterator.{elements}
use google_gtags.SexpUtil.{assoc_get}

pub data SourceId : Type 0 where
  local remote : SourceId

-- An array of `NUM_SOURCES_PER_REQUEST` strings.
pub record Slots : Type 0 where
  pub at_local : Text
  pub at_remote : Text

unfoldable pub slot : Slots → SourceId → Text
slot a local = a.at_local
slot a remote = a.at_remote

unfoldable pub assign : Slots → SourceId → Text → Slots
assign a local s = record a { at_local = s }
assign a remote s = record a { at_remote = s }

-- `ResultMixer`, as the request handler makes it, for both sources.
pub record ResultMixer : Type 0 where
  pub waiting_for : ℕ
  pub results : Slots
  pub failures : Slots

unfoldable pub new_mixer : ResultMixer
new_mixer = record {
  waiting_for = 2;
  results = record { at_local = []; at_remote = [] };
  failures = record { at_local = []; at_remote = [] };
}

-- What one source adds to `to_join`.
unfoldable pub listed : Option SExpression → List SExpression
listed none = []
listed (some value) = if is_list value then value ∷ [] else []

unfoldable pub value_of : Text → Result (List SExpression)
value_of result = parse result >>= elim [
  | none ↦ ok []
  | some response ↦ (do value ← assoc_get response (codes "value"); ok (listed value))
]

-- The inner loop of `JoinResults`: the printed elements, with nothing between them.
unfoldable pub print_all : List SExpression → Text
print_all [] = []
print_all (v ∷ vs) = repr v ++ print_all vs

-- The outer loop.
unfoldable pub print_lists : List SExpression → Text
print_lists [] = []
print_lists (l ∷ ls) = print_all (elements l) ++ print_lists ls

unfoldable pub join_results : List SExpression → Text
join_results ls = codes "(" ++ print_lists ls ++ codes ")"

-- The answer where no source sent a list of values.
unfoldable pub no_value : Text → Text → Text
no_value [] result = result
no_value (c ∷ cs) result = codes "((error ((message \"" ++ (c ∷ cs) ++ codes "\"))))"

unfoldable pub mixed : ResultMixer → List SExpression → Text
mixed m [] = no_value (slot m.failures remote) (slot m.results remote)
mixed m (l ∷ ls) = codes "((value " ++ join_results (l ∷ ls) ++ codes "))"

-- `MixResult`
unfoldable pub mix_result : ResultMixer → Result Text
mix_result m = do
  a ← value_of (slot m.results local)
  b ← value_of (slot m.results remote)
  ok (mixed m (a ++ b))

-- `CheckIfDone`, and the `delete this` behind it: the mixer, or none where it is deleted, and the
-- text for which the callback ran. A mixer that waits for nothing was deleted.
unfoldable pub check_if_done : ResultMixer → Result (Option ResultMixer × List Text)
check_if_done m = elim m.waiting_for [
  | zero ↦ undefined
  | suc zero ↦ (do output ← mix_result m; ok (none, output ∷ []))
  | suc (suc n) ↦ ok (some (record m { waiting_for = suc n }), [])
]

-- `set_result` and `set_failure`.
pub data Report : Type 0 where
  result failure : Text → Report

unfoldable pub set_report :
    Report → SourceId → ResultMixer → Result (Option ResultMixer × List Text)
set_report (result s) id m =
    check_if_done (record m { results = assign m.results id s; failures = assign m.failures id [] })
set_report (failure reason) id m = check_if_done (record m {
  results = assign m.results id (codes "()");
  failures = assign m.failures id reason;
})

-- `ResultHolder`, without the source and the mixer that it reports to.
pub record ResultHolder : Type 0 where
  pub num_waiting : ℕ
  pub used : Bool

unfoldable pub new_holder : ℕ → ResultHolder
new_holder num_conn = record { num_waiting = num_conn; used = false }

-- `num_waiting_--`, and `delete this` where it is no longer positive.
unfoldable pub one_less : ResultHolder → Option ResultHolder
one_less h = elim h.num_waiting [
  | zero ↦ none
  | suc zero ↦ none
  | suc (suc n) ↦ some (record h { num_waiting = suc n })
]

unfoldable pub holder_set_result : Text → ResultHolder → Option ResultHolder × List Report
holder_set_result s h =
    (one_less (record h { used = true }), if not h.used then result s ∷ [] else [])

-- What `set_failure` reports when it is the last call.
unfoldable pub last_failure : Option ResultHolder → Bool → List Report
last_failure (some h) used = []
last_failure none used =
    if not used then failure (codes "Failed to connect to remote services.") ∷ [] else []

unfoldable pub holder_set_failure : ResultHolder → Option ResultHolder × List Report
holder_set_failure h = (one_less h, last_failure (one_less h) h.used)
