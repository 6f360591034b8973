-- ===== src/Mixer/Tests.antt =====
-- gtagsmixer_test.cc: runs on concrete inputs, and the theorems at inputs that meet their premises.
use google_gtags.Prelude.{[], ◌∷◌, codes, some, none, ◌≡◌, refl, List, length}
use google_gtags.Prelude.Int.{pos}
use google_gtags.Prelude.Result.{ok}
use google_gtags.Sexp.{nil, pair, int}
use google_gtags.Sexp.Printer.{repr}
use google_gtags.Sexp.Iterator.{elements}
use google_gtags.Strutil.{fast_itoa}
use google_gtags.Mixer.{
  local, remote, new_mixer, new_holder, mix_result, print_all, print_lists, join_results, Report,
  result, failure,
}
use google_gtags.Mixer.Holder.{call_all, first_answer, call_all-new_holder}
use google_gtags.Mixer.Order.{report_all, once, answered, report_all-once}

-- Two connections of a source fail, and one answers between them.
abbrev three_calls : List Report
three_calls = failure (codes "down") ∷ result (codes "((value ()))") ∷ failure (codes "slow") ∷ []

call_all-new_holder_example :
    call_all three_calls (some (new_holder (length three_calls)))
    ≡ ok (none, first_answer three_calls ∷ [])
call_all-new_holder_example = call_all-new_holder three_calls (λ e. cc)

abbrev from_local : Report
from_local = result (codes "((value ((a))))")

abbrev from_remote : Report
from_remote = failure (codes "down")

report_all-once_example :
    (report_all ((local, from_local) ∷ (remote, from_remote) ∷ []) (some new_mixer)
      ≡ once (mix_result (answered from_local from_remote)))
    × (report_all ((remote, from_remote) ∷ (local, from_local) ∷ []) (some new_mixer)
        ≡ once (mix_result (answered from_local from_remote)))
report_all-once_example = report_all-once from_local from_remote

-- Atoms of two lists are printed with nothing between them.
join_runs : join_results (pair (int (pos 1)) nil ∷ pair (int (pos 2)) nil ∷ []) ≡ codes "(12)"
unfolding join_results print_lists print_all elements repr fast_itoa
join_runs = refl
