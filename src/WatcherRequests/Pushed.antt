-- ===== src/WatcherRequests/Pushed.antt =====
-- filewatcherrequesthandler.cc and socket_filewatcher_service.cc: the commands that a client's request
-- puts on the queue.
use google_gtags.Prelude.{
  Bool, true, false, ℕ, List, [], ◌∷◌, ◌++◌, Text, codes, map, every, append_assoc, append-nil,
  length, ltb, text_eq, none, some, ◌≡◌, ◌≢◌, refl, ap, ◌∙◌, arith, if_true,
}
use google_gtags.Prelude.Int.{pos, negsuc}
use google_gtags.Prelude.Result.{ok}
use google_gtags.Sexp.{
  SExpression, symbol, str, is_list, is_atom, is_pair, needs_quoting, token_is_integer,
  token_is_all_periods, is_symbol_char,
}
use google_gtags.Strutil.{ascii_isspace, is_int_token}
use google_gtags.Sexp.Printer.{repr}
use google_gtags.Sexp.Iterator.{begin, elements}
use google_gtags.Sexp.Reads.{list_of}
use google_gtags.SexpUtil.{to_string, read_list}
use google_gtags.PollServer.{PollServer, is_registered}
use google_gtags.PollServer.Slots.{find}
use google_gtags.Socket.{Connected, Received, would_block, handle_read, read_done, delete_this}
use google_gtags.Socket.Closing.{IsIdle, close_idle}
use google_gtags.Socket.Delivery.{IsRead, read_loop-IsRead}
use google_gtags.WatcherRequests.{
  WatcherCommandCode, add, remove, exclude, remove_exclude, Commands, push_directory,
  push_directories, push,
}
use google_gtags.WatcherRequests.Service.{
  read_named, read_items, read_attributes, run_action, run_items, run_request, is_newline,
  receive_command, watcher_methods, service_command,
}
use google_gtags.WatcherRequests.Sent.{
  is_dir, attribute_sexp, action_name, request, parse-service_command, last_char-service_command,
}

-- One command for each directory.
abbrev pub commands : WatcherCommandCode → List Text → Commands
commands code dirs = map (λ dir. record { code = code; directory = dir }) dirs

push_directories-commands :
    (dirs : List Text) (code : WatcherCommandCode) (queue : Commands)
    → push_directories dirs code queue ≡ queue ++ commands code dirs
unfolding push_directories push_directory
push_directories-commands [] code queue = rw append-nil refl
push_directories-commands (dir ∷ dirs) code queue =
    push_directories-commands dirs code (push_directory dir code queue) ∙ append_assoc queue _ _

-- The excludes of a request stand around its directories.
abbrev pub request_commands : WatcherCommandCode → List Text → List Text → Commands
request_commands code dirs excludes =
    commands exclude excludes ++ (commands code dirs ++ commands remove_exclude excludes)

pub push-request_commands :
    (dirs excludes : List Text) (code : WatcherCommandCode) (queue : Commands)
    → push dirs excludes code queue ≡ queue ++ request_commands code dirs excludes
unfolding push
push-request_commands dirs excludes code queue =
    rw
      (
        push_directories-commands excludes exclude,
        push_directories-commands dirs code,
        push_directories-commands excludes remove_exclude,
      )
      (simp append_assoc)

read_list-str : (ss l : List Text) → read_list to_string (map str ss) l ≡ l ++ ss
unfolding read_list to_string
read_list-str [] l = rw append-nil refl
read_list-str (s ∷ ss) l = read_list-str ss (l ++ s ∷ []) ∙ append_assoc l (s ∷ []) ss

is_list-list_of : (vs : List SExpression) → is_list (list_of vs) ≡ true
unfolding is_list
is_list-list_of [] = refl
is_list-list_of (v ∷ vs) = is_list-list_of vs

elements-list_of : (vs : List SExpression) → elements (list_of vs) ≡ vs
unfolding elements
elements-list_of [] = refl
elements-list_of (v ∷ vs) = ap (◌∷◌ v) (elements-list_of vs)

repr_names :
    (adding : Bool)
    → (repr (symbol (action_name adding)) ≡ action_name adding)
      × (repr (symbol (codes "dirs")) ≡ codes "dirs")
      × (repr (symbol (codes "excludes")) ≡ codes "excludes")
unfolding repr needs_quoting token_is_integer is_int_token ascii_isspace token_is_all_periods
    is_symbol_char
repr_names true = (refl, refl, refl)
repr_names false = (refl, refl, refl)

abbrev pub action_code : Bool → WatcherCommandCode
action_code true = add
action_code false = remove

read_attributes-request :
    (dirs excludes : List Text)
    → read_attributes
        (attribute_sexp (codes "dirs") dirs ∷ attribute_sexp (codes "excludes") excludes ∷ [])
        (record { dirs = []; excludes = [] })
      ≡ record { dirs = dirs; excludes = excludes }
unfolding read_attributes read_items read_named is_list elements is_atom is_pair text_eq repr
    needs_quoting token_is_integer is_int_token ascii_isspace token_is_all_periods is_symbol_char
read_attributes-request dirs excludes =
    rw
      (
        is_list-list_of (map str dirs),
        is_list-list_of (map str excludes),
        elements-list_of (map str dirs),
        elements-list_of (map str excludes),
        read_list-str dirs,
        read_list-str excludes,
      )
      refl

run_action-action_name :
    (adding : Bool) (dirs excludes : List Text) (queue : Commands)
    → dirs ≢ []
    → run_action (action_name adding) (record { dirs = dirs; excludes = excludes }) queue
      ≡ queue ++ request_commands (action_code adding) dirs excludes
unfolding run_action text_eq
run_action-action_name adding [] excludes queue n = absurd (n refl)
run_action-action_name true (dir ∷ dirs) excludes queue n =
    if_true {b = ltb 0 (length (dir ∷ dirs))} _ _ (ground arith)
    ∙ push-request_commands (dir ∷ dirs) excludes add queue
run_action-action_name false (dir ∷ dirs) excludes queue n =
    if_true {b = ltb 0 (length (dir ∷ dirs))} _ _ (ground arith)
    ∙ push-request_commands (dir ∷ dirs) excludes remove queue

run_request-request :
    (adding : Bool) (dirs excludes : List Text) (queue : Commands)
    → dirs ≢ []
    → run_request (some (request adding dirs excludes)) queue
      ≡ ok (queue ++ request_commands (action_code adding) dirs excludes)
unfolding run_request run_items begin is_list elements is_atom is_pair
run_request-request adding dirs excludes queue n =
    rw ((repr_names adding).0, read_attributes-request dirs excludes)
      (ap ok (run_action-action_name adding dirs excludes queue n))

-- A `FileWatcherSocket` with an empty buffer.
abbrev pub socket_for : ℕ → ℕ → PollServer → Text → Commands → Text → Connected Commands
socket_for addr fd ps outbuf queue sent = record {
  pollable = record { addr = addr; fd = pos fd };
  ps = ps;
  inbuf = [];
  outbuf = outbuf;
  own = queue;
  live = true;
  sent = sent;
}

-- Where the service reads what a client sends for `Add` or `Remove`, in whatever pieces it comes in one call,
-- it puts on the queue the excludes, a command for each directory, and the same excludes to be removed, in this
-- order, and then it closes and deletes its socket. The client names at least one directory, and no name
-- holds a NUL, a quote or a backslash.
pub request_arrives :
    (adding : Bool) (dirs excludes : List Text) (rs : List Received) (addr fd : ℕ) (ps : PollServer)
    (outbuf sent : Text) (queue : Commands)
    → dirs ≢ []
    → every is_dir dirs ≡ true
    → every is_dir excludes ≡ true
    → IsRead rs (service_command (action_name adding) dirs excludes) would_block
    → IsIdle (record { addr = addr; fd = pos fd }) ps
    → is_registered (record { addr = addr; fd = pos fd }) ps ≡ true
    → (t : Connected Commands) × (handle_read watcher_methods rs
          (socket_for addr fd ps outbuf queue sent)
        ≡ ok t)
      × (t.own ≡ queue ++ request_commands (action_code adding) dirs excludes)
      × (t.live ≡ false)
      × (find (pos fd) t.ps.slots ≡ none)
unfolding handle_read read_done receive_command delete_this is_newline
request_arrives adding dirs excludes rs addr fd ps outbuf sent queue n h k r idle registered =
    let command = service_command (action_name adding) dirs excludes in
    let (closed, deleted, c, d, table, gone) = close_idle addr fd ps idle in
    let queued = queue ++ request_commands (action_code adding) dirs excludes in
    (
      record {
        pollable = record { addr = addr; fd = negsuc 0 };
        ps = deleted;
        inbuf = command;
        outbuf = outbuf;
        own = queued;
        live = false;
        sent = sent;
      },
      rw (read_loop-IsRead [] r) (
          rw (last_char-service_command adding dirs excludes) (
            rw (parse-service_command adding dirs excludes h k)
              (rw (run_request-request adding dirs excludes queue n) (rw c (rw d refl))))),
      refl,
      refl,
      gone ∙ rw registered refl,
    )
