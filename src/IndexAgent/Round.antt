-- ===== src/IndexAgent/Round.antt =====
-- indexagent.cc: one turn of the loop of `Run`.
use google_gtags.Prelude.{
  ℕ, suc, ◌≤◌, length, Bool, true, false, ◌&&◌, List, [], ◌∷◌, ◌++◌, Text, codes, some_of,
  some_of-append, text_eq, text_eq_iff, Option, none, some, ◌≡◌, refl, sym, ap, ◌∙◌, if◌then◌else◌,
  arith, Bool-cases, inl, inr,
}
use google_gtags.Prelude.Result.{Result, ok, ◌>>=◌, Holds, Holds-bind_eq, Holds-if}
use google_gtags.TagsTable.{TagsTable}
use google_gtags.TagsTable.Load.{update_tag_file}
use google_gtags.TagsTable.WellFormed.{IsWellFormed}
use google_gtags.TagsTable.WellFormed.Loading.{update_tag_file-IsWellFormed}
use google_gtags.RequestHandler.{Environment, with_contents}
use google_gtags.RequestHandler.Server.{update_local}
use google_gtags.IndexAgent.{
  TempFile, Meanwhile, Taken, Agent, Indexing, make_temp_file, sort_args, unique_args,
  index_command, run_indexer, index, update_server, done_requests, get_requests, run_turn,
  run_agent,
}
use google_gtags.IndexAgent.Requests.{all_puts, IsTaken, get_requests_takes}
use google_gtags.IndexAgent.Arguments.{is_increasing, unique_args-sort_args}

contents-IsWellFormed :
    (env : Environment) (c : Option Text) (t : TagsTable)
    → IsWellFormed t
    → Holds IsWellFormed (with_contents c (λ s. update_tag_file env.config s t))
unfolding with_contents
contents-IsWellFormed env none t w = tt
contents-IsWellFormed env (some s) t w = update_tag_file-IsWellFormed env.config s t w

update_server-IsWellFormed :
    (env : Environment) (i : Indexing) (filename : Text) (t : TagsTable)
    → IsWellFormed t
    → Holds IsWellFormed (update_server env i filename t)
unfolding update_server update_local
update_server-IsWellFormed env i filename t w =
    Holds-if IsWellFormed (i.exists filename) _ (ok t)
      (contents-IsWellFormed env (env.contents false filename) t w) w

-- What loading the output of the indexer does to the table of definitions, if there is any.
unfoldable pub with_output : Environment → Indexing → Bool → Text → TagsTable → Result TagsTable
with_output env i succeeds output_file t =
    if succeeds && i.exists output_file
    then with_contents (env.contents false output_file) (λ s. update_tag_file env.config s t)
    else ok t

-- The agent behind a turn for these files, with this file for the output of the indexer.
pub record IsIndexed (env : Environment) (i : Indexing) (a : Agent) (output_file : Text) (r : Taken)
    (command : Text) (b : Agent) : Type 0 where
  pub leaves : b.queue ≡ r.queue
  pub counts : b.full ≡ r.full
  pub runs_indexer : b.commands ≡ a.commands ++ command ∷ []
  pub cleans : some_of (text_eq output_file) b.deleted ≡ true
  pub loads : with_output env i (i.succeeds command) output_file a.definitions ≡ ok b.definitions
  pub keeps_callgraph : b.callgraph ≡ a.callgraph
  pub definitions : IsWellFormed b.definitions

-- The command of the indexer for these files.
abbrev pub command_for : Indexing → Text → List Text → Text
command_for i output_file files =
    index_command i.gentags_local (codes " --output_file=") output_file
      (unique_args (sort_args files))

-- The file with the output is deleted: by `run_indexer` where the indexer fails, or else behind the turn.
is_deleted :
    (output_file : Text) (deleted others : List Text)
    → some_of (text_eq output_file) ((deleted ++ output_file ∷ []) ++ others) ≡ true
unfolding some_of
is_deleted output_file deleted others = ground (
  arith,
  some_of-append (text_eq output_file) (deleted ++ output_file ∷ []) others,
  some_of-append (text_eq output_file) deleted (output_file ∷ []),
  (text_eq_iff output_file output_file).1 refl,
)

is_deleted_first :
    (output_file other : Text) (deleted : List Text)
    → some_of (text_eq output_file) (deleted ++ output_file ∷ other ∷ []) ≡ true
unfolding some_of
is_deleted_first output_file other deleted = ground (
  arith,
  some_of-append (text_eq output_file) deleted (output_file ∷ other ∷ []),
  (text_eq_iff output_file output_file).1 refl,
)

-- Both tables are updated from these files, and then the files are deleted.
module _ (env : Environment) (i : Indexing) (no_name : i.exists [] ≡ false) where
  finish : Text → Agent → Result Agent
  finish def_file a = do
    d ← update_server env i def_file a.definitions
    c ← update_server env i [] a.callgraph
    ok (done_requests def_file [] (record a { definitions = d; callgraph = c }))

  no_output : (t : TagsTable) → update_server env i [] t ≡ ok t
  unfolding update_server
  no_output t = rw no_name refl

  finish-IsIndexed :
      (def_file command : Text) (a b : Agent) (output_file : Text) (r : Taken)
      → b.queue ≡ r.queue
      → b.full ≡ r.full
      → b.commands ≡ a.commands ++ command ∷ []
      → some_of (text_eq output_file) (b.deleted ++ def_file ∷ [] ∷ []) ≡ true
      → b.callgraph ≡ a.callgraph
      → update_server env i def_file b.definitions
        ≡ with_output env i (i.succeeds command) output_file a.definitions
      → IsWellFormed b.definitions
      → Holds (IsIndexed env i a output_file r command) (finish def_file b)
  unfolding finish done_requests
  finish-IsIndexed def_file command a b output_file r q full c d g l w =
      Holds-bind_eq IsWellFormed (IsIndexed env i a output_file r command)
        (update_server env i def_file b.definitions) _
        (update_server-IsWellFormed env i def_file b.definitions w)
        (λ x e wx. rw (no_output b.callgraph) (record {
          leaves = q;
          counts = full;
          runs_indexer = c;
          cleans = d;
          loads = sym l ∙ e;
          keeps_callgraph = g;
          definitions = wx;
        }))

  run_turn-IsIndexed :
      (r : Taken) (a : Agent) (output_file : Text) (temps : List TempFile)
      → i.index_callgraph ≡ false
      → make_temp_file a.temps ≡ ok (output_file, temps)
      → IsWellFormed a.definitions
      → Holds
          (IsIndexed env i a output_file r (command_for i output_file r.files))
          (run_turn env i r.files (record a { queue = r.queue; full = r.full }))
  unfolding run_turn index run_indexer finish with_output update_server update_local
  run_turn-IsIndexed r a output_file temps n t w =
      let command = command_for i output_file r.files in
      let b : Agent = record a {
        queue = r.queue;
        full = r.full;
        temps = temps;
        commands = a.commands ++ command ∷ [];
      } in
      elim (Bool-cases (i.succeeds command)) [
        | inl e ↦ rw t (
            rw e (
              simp n (
                finish-IsIndexed output_file command a b output_file r refl refl refl
                  (is_deleted_first output_file [] a.deleted) refl (rw e refl) w)))
        | inr e ↦ rw t (
            rw e (
              simp n (
                finish-IsIndexed [] command a (record b { deleted = a.deleted ++ output_file ∷ [] })
                  output_file r refl refl refl (is_deleted output_file a.deleted ([] ∷ [] ∷ []))
                  refl (rw e (rw no_name refl)) w)))
      ]

run_agent-takes :
    (env : Environment) (i : Indexing) (ms : List Meanwhile) (a : Agent) (n : ℕ)
    → a.full ≡ suc n
    → run_agent env i ms a ≡ (
        get_requests ms n a.queue >>= λ r.
        run_turn env i r.files (record a { queue = r.queue; full = r.full }))
unfolding run_agent
run_agent-takes env i ms a n full = rw full refl

-- Where there are files on the queue, and `full_` tells of one or more and of no more than there are, the
-- agent takes the first file, and then those behind it in their order, with what others put there in front of
-- its calls of `TryGet`, and loses none: what it does not take is left on the queue. It stops where `full_`
-- is 0, with as many files left as `full_` was short of, or at a call where another thread holds the mutex,
-- with one more left. Where the callgraph is not indexed, and a name for a new file is found, it runs the
-- indexer once, on that file for its output and on each of the files that it took once, in increasing order.
-- The table of definitions is updated from the output where the indexer succeeds and the file is there, and
-- is unchanged where not, and it is well-formed if it was before; the callgraph is unchanged, if no file has
-- the empty name; and the file for the output is deleted. All this is so behind the turn unless a failed
-- CHECK ends the process or the loading leaves the defined behaviour of C++, and the turn ends.
pub run_agent-IsIndexed :
    (env : Environment) (i : Indexing) (ms : List Meanwhile) (n : ℕ) (f g : Text) (fs : List Text)
    (a : Agent) (output_file : Text) (temps : List TempFile)
    → i.exists [] ≡ false
    → a.queue ≡ f ∷ fs
    → a.full ≡ suc n
    → n ≤ length fs
    → i.index_callgraph ≡ false
    → make_temp_file a.temps ≡ ok (output_file, temps)
    → IsWellFormed a.definitions
    → (r : Taken) × IsTaken (some_of (λ m. m.holds_mu) ms) (all_puts ms) (suc n) (f ∷ fs) r
      × ((others : List Text) × (r.files ≡ f ∷ others))
      × (Holds
          (IsIndexed env i a output_file r (command_for i output_file r.files))
          (run_agent env i ms a))
      × (is_increasing (unique_args (sort_args r.files)) ≡ true)
      × (some_of (text_eq g) (unique_args (sort_args r.files)) ≡ some_of (text_eq g) r.files)
run_agent-IsIndexed env i ms n f g fs a output_file temps no_name q full short no_calls t w =
    let (r, e, taken, first) = get_requests_takes ms n f fs short in
    (
      r,
      taken,
      first,
      rw (run_agent-takes env i ms a n full) (
          rw (ap (get_requests ms n) q ∙ e)
            (run_turn-IsIndexed env i no_name r a output_file temps no_calls t w)),
      (unique_args-sort_args r.files g).0,
      (unique_args-sort_args r.files g).1,
    )
