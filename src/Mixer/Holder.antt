-- ===== src/Mixer/Holder.antt =====
-- gtagsmixer.cc: a holder reports once, whatever its connections do.
use google_gtags.Prelude.{
  Bool, true, false, List, [], ◌∷◌, ◌++◌, codes, length, Option, none, some, ◌≡◌, ◌≢◌, refl,
}
use google_gtags.Prelude.Result.{Result, ok, undefined, ◌>>=◌}
use google_gtags.Mixer.{
  Report, result, failure, ResultHolder, new_holder, one_less, holder_set_result, last_failure,
  holder_set_failure,
}

-- One call of `set_result` or `set_failure`, on a holder that is deleted undefined.
abbrev pub call_holder : Report → Option ResultHolder → Result (Option ResultHolder × List Report)
call_holder c none = undefined
call_holder (result s) (some h) = ok (holder_set_result s h)
call_holder (failure reason) (some h) = ok (holder_set_failure h)

-- The calls of all connections, in the order in which they come, and what the holder reports.
unfoldable pub call_all :
    List Report → Option ResultHolder → Result (Option ResultHolder × List Report)
call_all [] h = ok (h, [])
call_all (c ∷ cs) h = do r ← call_holder c h; q ← call_all cs r.0; ok (q.0, r.1 ++ q.1)

-- What a source answers: the first result, or that all connections failed.
abbrev pub first_answer : List Report → Report
first_answer [] = failure (codes "Failed to connect to remote services.")
first_answer (result s ∷ cs) = result s
first_answer (failure reason ∷ cs) = first_answer cs

abbrev reports_of : Bool → List Report → List Report
reports_of true cs = []
reports_of false cs = first_answer cs ∷ []

call_all-reports :
    (cs : List Report) (c : Report) (used : Bool)
    → call_all (c ∷ cs) (some (record { num_waiting = length (c ∷ cs); used = used }))
      ≡ ok (none, reports_of used (c ∷ cs))
unfolding call_all holder_set_result holder_set_failure one_less last_failure
call_all-reports [] (result s) true = refl
call_all-reports [] (result s) false = refl
call_all-reports [] (failure reason) true = refl
call_all-reports [] (failure reason) false = refl
call_all-reports (d ∷ cs) (result s) true = rw (call_all-reports cs d true)
call_all-reports (d ∷ cs) (result s) false = rw (call_all-reports cs d true)
call_all-reports (d ∷ cs) (failure reason) true = rw (call_all-reports cs d true)
call_all-reports (d ∷ cs) (failure reason) false = rw (call_all-reports cs d false)

-- A holder that is called once by each of its connections, of which there is at least one, reports to
-- the mixer exactly once, the first result that came, or a failure if there was none, and it is deleted
-- by the last call, and not before.
pub call_all-new_holder :
    (cs : List Report)
    → cs ≢ []
    → call_all cs (some (new_holder (length cs))) ≡ ok (none, first_answer cs ∷ [])
unfolding new_holder
call_all-new_holder [] h = absurd (h refl)
call_all-new_holder (c ∷ cs) h = call_all-reports cs c false
