-- ===== src/Socket/Listener.antt =====
-- socket.cc: `ListenerSocket`.
use google_gtags.Prelude.{ℕ, Bool, Option, none, some, if◌then◌else◌}
use google_gtags.Prelude.Int.{ℤ, pos, negsuc}
use google_gtags.Prelude.Result.{Result, ok, fatal, ◌>>=◌}
use google_gtags.PollServer.{Pollable, PollServer, register}

-- What `accept` gives: a descriptor, or -1 with EWOULDBLOCK or with another error.
pub data Accepted : Type 0 where
  accepted : ℕ → Accepted
  nothing_to_accept accept_failed : Accepted

-- What `Create` asks the system: whether `socket` gives a descriptor, and whether `bind` and `listen`
-- succeed.
pub record Listening : Type 0 where
  pub socket : Option ℕ
  pub bind : Bool
  pub listen : Bool

unfoldable pub listen_on :
    Bool → Bool → Pollable → PollServer → Result (Option Pollable × PollServer)
listen_on bind listen p ps =
    if bind
    then (if listen then (do t ← register p ps; ok (some p, t)) else fatal)
    else ok (none, ps)

-- `Create`, with the address of the new object; `none` is NULL.
unfoldable pub create_listener :
    Bool → Listening → ℕ → PollServer → Result (Option Pollable × PollServer)
create_listener repeatable l addr ps =
    if repeatable
    then elim l.socket [
      | none ↦ fatal
      | some fd ↦ listen_on l.bind l.listen (record { addr = addr; fd = pos fd }) ps
    ]
    else ok (none, ps)

-- `HandleRead`, with the `ConnectedCallback`.
unfoldable pub accept_connection :
    (ℤ → PollServer → Result PollServer) → Accepted → PollServer → Result PollServer
accept_connection connected_callback (accepted fd) ps = connected_callback (pos fd) ps
accept_connection connected_callback nothing_to_accept ps = connected_callback (negsuc 0) ps
accept_connection connected_callback accept_failed ps = ok ps
