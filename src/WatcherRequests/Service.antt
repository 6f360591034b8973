-- ===== src/WatcherRequests/Service.antt =====
-- socket_filewatcher_service.cc: the socket that takes a command, and the text that a client sends.
use google_gtags.Prelude.{
  ℕ, Bool, false, not, List, [], ◌∷◌, ◌++◌, Text, codes, text_eq, length, ltb, Option, none, some,
  ◌==◌, if◌then◌else◌,
}
use google_gtags.Prelude.Result.{Result, ok, ◌>>=◌}
use google_gtags.Sexp.{SExpression, is_list, is_atom}
use google_gtags.Sexp.Parser.{parse}
use google_gtags.Sexp.Printer.{repr}
use google_gtags.Sexp.Iterator.{begin, elements}
use google_gtags.SexpUtil.{to_string, read_list}
use google_gtags.WatchMap.{last_char}
use google_gtags.Socket.{Connected, Methods, close, delete_this}
use google_gtags.WatcherRequests.{add, remove, Commands, push}

-- The lists that the loop over the attributes fills.
pub record Attributes : Type 0 where
  pub dirs : List Text
  pub excludes : List Text

unfoldable pub read_named : Text → List SExpression → Attributes → Attributes
read_named attribute values a =
    if text_eq attribute (codes "dirs")
    then record a { dirs = read_list to_string values a.dirs }
    else if text_eq attribute (codes "excludes")
    then record a { excludes = read_list to_string values a.excludes }
    else a

-- An attribute, of which these are the elements.
unfoldable pub read_items : List SExpression → Attributes → Attributes
unfolding read_named
read_items [] a = a
read_items (h ∷ values) a = if is_atom h then read_named (repr h) values a else a

unfoldable pub read_attributes : List SExpression → Attributes → Attributes
unfolding read_items
read_attributes [] a = a
read_attributes (v ∷ vs) a = read_attributes vs (if is_list v then read_items (elements v) a else a)

-- The action, with no directories none.
unfoldable pub run_action : Text → Attributes → Commands → Commands
run_action action a queue =
    if ltb 0 (length a.dirs)
    then (if text_eq action (codes "add")
        then push a.dirs a.excludes add queue
        else if text_eq action (codes "remove")
        then push a.dirs a.excludes remove queue
        else queue)
    else queue

unfoldable pub run_items : List SExpression → Commands → Commands
unfolding read_attributes run_action
run_items [] queue = queue
run_items (h ∷ vs) queue =
    if is_atom h
    then run_action (repr h) (read_attributes vs (record { dirs = []; excludes = [] })) queue
    else queue

-- The command, once it is parsed; on what is not a list `Begin` ends the process.
unfoldable pub run_request : Option SExpression → Commands → Result Commands
unfolding run_items
run_request none queue = ok queue
run_request (some v) queue = do i ← begin v; ok (run_items (elements v) queue)

unfoldable pub is_newline : Option ℕ → Bool
is_newline none = false
is_newline (some c) = c == b'\n'

-- `HandleReceived` of a `FileWatcherSocket`, whose own state is the queue of the handler.
unfoldable pub receive_command : Connected Commands → Result (Bool × Connected Commands)
unfolding is_newline run_request
receive_command s = if not (is_newline (last_char s.inbuf)) then ok (false, s) else (do
  v ← parse s.inbuf
  queue ← run_request v s.own
  r ← close s.pollable s.ps
  t ← delete_this (record s { pollable = r.0; ps = r.1; own = queue })
  ok (false, t))

abbrev pub watcher_methods : Methods Commands
watcher_methods = record {
  handle_received = receive_command;
  handle_sent = λ s. ok s;
  handle_disconnected = λ s. ok s;
}

-- The loops of `ConvertToString`.
unfoldable pub append_quoted : List Text → Text → Text
append_quoted [] command = command
append_quoted (dir ∷ dirs) command =
    append_quoted dirs (((command ++ codes " \"") ++ dir) ++ codes "\"")

-- `ConvertToString`
unfoldable pub convert_to_string : List Text → List Text → Text → Text
convert_to_string dirs excludes command =
    append_quoted excludes
      ((append_quoted dirs (command ++ codes " (dirs") ++ codes ")") ++ codes " (excludes")
    ++ codes ")"

-- What `Add` and `Remove` of the client send, with the name of the action.
unfoldable pub service_command : Text → List Text → List Text → Text
service_command action dirs excludes =
    convert_to_string dirs excludes (codes "(" ++ action) ++ codes ")\n"
