-- ===== src/IndexAgent/Requests.antt =====
-- indexagent.cc: `GetRequests` takes the first requests, and loses none.
use google_gtags.Prelude.{
  ℕ, zero, suc, ◌+◌, ◌≤◌, Bool, true, false, not, ◌||◌, List, [], ◌∷◌, ◌++◌, Text, length, leb, ◌≡◌,
  refl, sym, ap, ◌∙◌, arith, some_of, append_assoc, append-nil, length-append, if◌then◌else◌,
}
use google_gtags.Prelude.Result.{Result, ok}
use google_gtags.IndexAgent.{Meanwhile, Taken, try_get, try_gets_alone, try_gets, get_requests}

-- All that the other threads put on the queue in front of these calls.
unfoldable pub all_puts : List Meanwhile → List Text
all_puts [] = []
all_puts (m ∷ ms) = m.puts ++ all_puts ms

-- The files that are taken, and then what is left, are the queue with what has come in front of the last call.
-- The loop ends where `full_` is 0, with as many files left as `full_` was short of, or it gives up on a
-- mutex that is held, with one more left than `full_` tells.
pub record IsTaken (held : Bool) (puts : List Text) (full : ℕ) (queue : List Text) (r : Taken)
    : Type 0 where
  pub arrived : List Text
  pub missed : List Text
  pub gives_up : Bool
  pub loses_none : r.files ++ r.queue ≡ queue ++ arrived
  pub arrives : arrived ++ missed ≡ puts
  pub meets_holder : (not gives_up || held) ≡ true
  pub finishes : (gives_up || leb r.full 0) ≡ true
  pub counts : length r.queue + full ≡ length queue + r.full + (if gives_up then 1 else 0)

-- The loop ends with such files.
abbrev Takes : Bool → List Text → ℕ → List Text → Result Taken → Type 0
Takes held puts full queue m = (r : Taken) × (m ≡ ok r) × IsTaken held puts full queue r

stays :
    (held : Bool) (puts queue : List Text)
    → IsTaken held puts 0 queue (record { files = []; queue = queue; full = 0 })
stays held puts queue = record {
  arrived = [];
  missed = puts;
  gives_up = false;
  loses_none = sym (append-nil queue);
  arrives = refl;
  meets_holder = refl;
  finishes = refl;
  counts = omega arith;
}

-- One file more in front.
takes_one :
    (held : Bool) (puts : List Text) (n : ℕ) (f : Text) (queue : List Text) (r : Taken)
    → IsTaken held puts n queue r
    → IsTaken held puts (suc n) (f ∷ queue) (record r { files = f ∷ r.files })
takes_one held puts n f queue r t = record {
  arrived = t.arrived;
  missed = t.missed;
  gives_up = t.gives_up;
  loses_none = ap (λ fs. f ∷ fs) t.loses_none;
  arrives = t.arrives;
  meets_holder = t.meets_holder;
  finishes = t.finishes;
  counts = ground (arith, t.counts);
}

alone-Takes :
    (full : ℕ) (queue : List Text)
    → full ≤ length queue
    → Takes false [] full queue (try_gets_alone full queue)
unfolding try_gets_alone
alone-Takes zero queue h = (_, refl, stays false [] queue)
alone-Takes (suc n) [] h = absurd (omega arith)
alone-Takes (suc n) (f ∷ queue) h =
    let (r, e, t) = alone-Takes n queue (omega arith) in
    (record r { files = f ∷ r.files }, rw e refl, takes_one false [] n f queue r t)

try_get-Takes :
    (holds_mu held : Bool) (puts : List Text) (rest : ℕ → List Text → Result Taken) (full : ℕ)
    (queue : List Text)
    → ((n : ℕ) (q : List Text) → n ≤ length q → Takes held puts n q (rest n q))
    → full ≤ length queue
    → Takes (holds_mu || held) puts full queue (try_get holds_mu rest full queue)
unfolding try_get
try_get-Takes holds_mu held puts rest zero queue k h =
    (_, refl, stays (holds_mu || held) puts queue)
try_get-Takes true held puts rest (suc n) queue k h = (
  record { files = []; queue = queue; full = n },
  refl,
  record {
    arrived = [];
    missed = puts;
    gives_up = true;
    loses_none = sym (append-nil queue);
    arrives = refl;
    meets_holder = refl;
    finishes = refl;
    counts = omega arith;
  },
)
try_get-Takes false held puts rest (suc n) [] k h = absurd (omega arith)
try_get-Takes false held puts rest (suc n) (f ∷ queue) k h =
    let (r, e, t) = k n queue (omega arith) in
    (record r { files = f ∷ r.files }, rw e refl, takes_one held puts n f queue r t)

-- What has come in front of the first call is on the queue.
put_in_front :
    (held : Bool) (first puts : List Text) (full : ℕ) (queue : List Text) (r : Taken)
    → IsTaken held puts (full + length first) (queue ++ first) r
    → IsTaken held (first ++ puts) full queue r
put_in_front held first puts full queue r t = record {
  arrived = first ++ t.arrived;
  missed = t.missed;
  gives_up = t.gives_up;
  loses_none = t.loses_none ∙ append_assoc queue first t.arrived;
  arrives = append_assoc first t.arrived t.missed ∙ ap (λ p. first ++ p) t.arrives;
  meets_holder = t.meets_holder;
  finishes = t.finishes;
  counts = ground (arith, t.counts, length-append queue first);
}

try_gets-Takes :
    (ms : List Meanwhile) (full : ℕ) (queue : List Text)
    → full ≤ length queue
    → Takes (some_of (λ m. m.holds_mu) ms) (all_puts ms) full queue (try_gets ms full queue)
unfolding try_gets all_puts some_of
try_gets-Takes [] full queue h = alone-Takes full queue h
try_gets-Takes (m ∷ ms) full queue h =
    let (r, e, t) =
      try_get-Takes m.holds_mu (some_of (λ m. m.holds_mu) ms) (all_puts ms) (try_gets ms)
        (full + length m.puts) (queue ++ m.puts) (λ n q l. try_gets-Takes ms n q l)
        (ground (arith, length-append queue m.puts)) in
    (r, e, put_in_front _ m.puts (all_puts ms) full queue r t)

-- The first file is always taken.
pub get_requests_takes :
    (ms : List Meanwhile) (full : ℕ) (f : Text) (queue : List Text)
    → full ≤ length queue
    → (r : Taken) × (get_requests ms full (f ∷ queue) ≡ ok r)
      × IsTaken (some_of (λ m. m.holds_mu) ms) (all_puts ms) (suc full) (f ∷ queue) r
      × ((others : List Text) × (r.files ≡ f ∷ others))
unfolding get_requests
get_requests_takes ms full f queue h =
    let (r, e, t) = try_gets-Takes ms full queue h in
    (record r { files = f ∷ r.files }, rw e refl, takes_one _ _ full f queue r t, (r.files, refl))
