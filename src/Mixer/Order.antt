-- ===== src/Mixer/Order.antt =====
-- gtagsmixer.cc: the order in which the sources answer does not matter.
use google_gtags.Prelude.{List, [], ◌∷◌, ◌++◌, Text, codes, Option, none, some, ◌≡◌, refl}
use google_gtags.Prelude.Result.{Result, ok, fatal, undefined, out_of_fuel, ◌>>=◌}
use google_gtags.Mixer.{
  SourceId, local, remote, assign, ResultMixer, new_mixer, mix_result, check_if_done, Report,
  result, failure, set_report,
}

-- The reports of sources to a mixer, in the order in which they come, and what its callback gets.
abbrev pub report_to :
    Option ResultMixer → SourceId → Report → Result (Option ResultMixer × List Text)
report_to none id r = undefined
report_to (some m) id r = set_report r id m

unfoldable pub report_all :
    List (SourceId × Report) → Option ResultMixer → Result (Option ResultMixer × List Text)
report_all [] m = ok (m, [])
report_all ((id, r) ∷ rs) m = do p ← report_to m id r; q ← report_all rs p.0; ok (q.0, p.1 ++ q.1)

-- What a source leaves in `results_`, and in `failures_`.
abbrev pub result_of : Report → Text
result_of (result s) = s
result_of (failure reason) = codes "()"

abbrev pub failure_of : Report → Text
failure_of (result s) = []
failure_of (failure reason) = reason

-- A mixer that has heard from both.
abbrev pub answered : Report → Report → ResultMixer
answered a b = record {
  waiting_for = 1;
  results = record { at_local = result_of a; at_remote = result_of b };
  failures = record { at_local = failure_of a; at_remote = failure_of b };
}

-- The callback runs once, if the answers can be mixed.
abbrev pub once : Result Text → Result (Option ResultMixer × List Text)
once r = r >>= λ output. ok (none, output ∷ [])

-- What the callback got later, behind what it got first.
abbrev pub behind :
    List Text → Result (Option ResultMixer × List Text) → Result (Option ResultMixer × List Text)
behind outputs r = r >>= λ q. ok (q.0, outputs ++ q.1)

-- The last report, behind the first.
last_report :
    (r : Result Text) → behind [] (once r >>= λ p. behind p.1 (report_all [] p.0)) ≡ once r
unfolding report_all
last_report (ok output) = refl
last_report fatal = refl
last_report undefined = refl
last_report out_of_fuel = refl

-- A mixer that hears once from each of its two sources runs its callback once and is deleted, unless
-- the answers cannot be mixed, and what the callback gets depends on what the sources report and not
-- on which of them is first.
pub report_all-once :
    (a b : Report)
    → (report_all ((local, a) ∷ (remote, b) ∷ []) (some new_mixer)
        ≡ once (mix_result (answered a b)))
      × (report_all ((remote, b) ∷ (local, a) ∷ []) (some new_mixer)
          ≡ once (mix_result (answered a b)))
unfolding report_all set_report new_mixer check_if_done assign
report_all-once (result s) (result t) = (last_report (mix_result _), last_report (mix_result _))
report_all-once (result s) (failure t) = (last_report (mix_result _), last_report (mix_result _))
report_all-once (failure s) (result t) = (last_report (mix_result _), last_report (mix_result _))
report_all-once (failure s) (failure t) = (last_report (mix_result _), last_report (mix_result _))
