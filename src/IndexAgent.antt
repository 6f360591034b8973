-- ===== src/IndexAgent.antt =====
-- indexagent.h and indexagent.cc: the agent that indexes files and updates the local tables.
pub mod Arguments
pub mod Requests
pub mod Round
mod Tests
use google_gtags.Prelude.{
  ℕ, zero, suc, ◌+◌, length, Bool, true, false, List, [], ◌∷◌, ◌++◌, Text, codes, text_eq, Option,
  if◌then◌else◌,
}
use google_gtags.Prelude.Result.{Result, ok, fatal, undefined, out_of_fuel, ◌>>=◌}
use google_gtags.Filename.{Comparison, less, equal, greater, strcmp}
use google_gtags.TagsTable.{TagsTable, is_less}
use google_gtags.RequestHandler.{Environment}
use google_gtags.RequestHandler.Server.{update_local}

-- What one turn of the loop of `MakeTempFile` gets: no name, or a name and whether `open` creates the file.
pub data TempFile : Type 0 where
  unnamed : TempFile
  named : Text → Bool → TempFile

-- What the other threads do in front of a call of `TryGet`: what they put on the queue, and whether one of
-- them holds its mutex at the call.
pub record Meanwhile : Type 0 where
  pub puts : List Text
  pub holds_mu : Bool

-- What is on the queue, the value of its semaphore `full_`, what the calls for temporary files will give,
-- the tables of the two handlers, and the calls of `system` and of `File::Delete` so far.
pub record Agent : Type 0 where
  pub queue : List Text
  pub full : ℕ
  pub temps : List TempFile
  pub definitions : TagsTable
  pub callgraph : TagsTable
  pub commands : List Text
  pub deleted : List Text

-- The flags, whether a command of the shell succeeds, and whether a file exists.
pub record Indexing : Type 0 where
  pub gentags_local : Text
  pub index_callgraph : Bool
  pub succeeds : Text → Bool
  pub exists : Text → Bool

-- `MakeTempFile`
unfoldable pub make_temp_file : List TempFile → Result (Text × List TempFile)
make_temp_file [] = out_of_fuel
make_temp_file (unnamed ∷ ts) = fatal
make_temp_file (named name created ∷ ts) =
    let rest = make_temp_file ts in if created then ok (name, ts) else rest

-- `operator<` of two strings with no NUL.
unfoldable pub is_below : Text → Text → Bool
is_below a b = is_less (strcmp a b)

-- `sort`, by insertion.
unfoldable pub insert_arg : Text → List Text → List Text
insert_arg a [] = a ∷ []
insert_arg a (b ∷ bs) = let rest = insert_arg a bs in if is_below b a then b ∷ rest else a ∷ b ∷ bs

unfoldable pub sort_args : List Text → List Text
unfolding insert_arg
sort_args [] = []
sort_args (a ∷ bs) = insert_arg a (sort_args bs)

-- `unique`, behind an element.
unfoldable pub unique_after : Text → List Text → List Text
unique_after a [] = []
unique_after a (b ∷ bs) = let rest = unique_after b bs in if text_eq a b then rest else b ∷ rest

unfoldable pub unique_args : List Text → List Text
unique_args [] = []
unique_args (a ∷ bs) = a ∷ unique_after a bs

-- The files, each with a space behind it.
unfoldable pub print_args : List Text → Text
print_args [] = []
print_args (a ∷ bs) = (a ++ codes " ") ++ print_args bs

unfoldable pub index_command : Text → Text → Text → List Text → Text
index_command gentags option output_file args =
    (gentags ++ option) ++ output_file ++ (codes " " ++ print_args args)

-- One call of the indexer: the file with its output, or no name where it fails.
unfoldable pub run_indexer : Indexing → Text → List Text → Agent → Result (Text × Agent)
run_indexer i option args a = do
  t ← make_temp_file a.temps
  let command = index_command i.gentags_local option t.0 args
  let b : Agent = record a { temps = t.1; commands = a.commands ++ command ∷ [] }
  (if i.succeeds command
      then ok (t.0, b)
      else ok ([], record b { deleted = b.deleted ++ t.0 ∷ [] }))

-- `Index`
unfoldable pub index : Indexing → List Text → Agent → Result ((Text × Text) × Agent)
index i files a = do
  let args = unique_args (sort_args files)
  d ← run_indexer i (codes " --output_file=") args a
  (if i.index_callgraph
      then (do
        c ← run_indexer i (codes " --callgraph --output_file=") args d.1
        ok ((d.0, c.0), c.1))
      else ok ((d.0, []), d.1))

-- `UpdateLocalServer`
unfoldable pub update_server : Environment → Indexing → Text → TagsTable → Result TagsTable
update_server env i filename t = if i.exists filename then update_local env filename t else ok t

-- `DoneRequests`
unfoldable pub done_requests : Text → Text → Agent → Agent
done_requests def_file callgraph_file a = record a {
  deleted = a.deleted ++ def_file ∷ callgraph_file ∷ [];
}

-- The files that `GetRequests` takes, and the queue and the value of `full_` behind it.
pub record Taken : Type 0 where
  pub files : List Text
  pub queue : List Text
  pub full : ℕ

-- One call of `TryGet` in the loop of `GetRequests`, and the turns behind it. It fails where `full_` is 0, and
-- where the mutex is held, for which it does not wait; it has decremented `full_` by then.
unfoldable pub try_get : Bool → (ℕ → List Text → Result Taken) → ℕ → List Text → Result Taken
try_get holds_mu rest zero queue = ok (record { files = []; queue = queue; full = 0 })
try_get true rest (suc n) queue = ok (record { files = []; queue = queue; full = n })
try_get false rest (suc n) [] = undefined
try_get false rest (suc n) (f ∷ queue) = do r ← rest n queue; ok (record r { files = f ∷ r.files })

-- The loop where no other thread is at the queue any more.
unfoldable pub try_gets_alone : ℕ → List Text → Result Taken
try_gets_alone zero queue = ok (record { files = []; queue = queue; full = 0 })
try_gets_alone (suc n) [] = undefined
try_gets_alone (suc n) (f ∷ queue) = do
  r ← try_gets_alone n queue
  ok (record r { files = f ∷ r.files })

-- The loop, with what the others do in front of each call.
unfoldable pub try_gets : List Meanwhile → ℕ → List Text → Result Taken
unfolding try_get try_gets_alone
try_gets [] full queue = try_gets_alone full queue
try_gets (m ∷ ms) full queue =
    try_get m.holds_mu (try_gets ms) (full + length m.puts) (queue ++ m.puts)

-- `GetRequests`, behind the wait of `Get` for `full_`.
unfoldable pub get_requests : List Meanwhile → ℕ → List Text → Result Taken
unfolding try_gets
get_requests ms full [] = undefined
get_requests ms full (f ∷ queue) = do
  r ← try_gets ms full queue
  ok (record r { files = f ∷ r.files })

-- One turn of the loop of `Run`, behind `GetRequests`.
unfoldable pub run_turn : Environment → Indexing → List Text → Agent → Result Agent
run_turn env i files a = do
  r ← index i files a
  d ← update_server env i r.0.0 r.1.definitions
  c ← update_server env i r.0.1 r.1.callgraph
  ok (done_requests r.0.0 r.0.1 (record r.1 { definitions = d; callgraph = c }))

-- One turn of the loop. Where `full_` is 0, `Get` waits.
unfoldable pub run_agent : Environment → Indexing → List Meanwhile → Agent → Result Agent
unfolding run_turn get_requests
run_agent env i ms a = elim a.full [
  | zero ↦ ok a
  | suc n ↦ (do
    r ← get_requests ms n a.queue
    run_turn env i r.files (record a { queue = r.queue; full = r.full }))
]
