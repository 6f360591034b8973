-- ===== src/Socket/Client.antt =====
-- socket.cc: `ClientSocket`.
use google_gtags.Prelude.{ℕ, Bool, true, false, ◌||◌, Option, none, some, if◌then◌else◌}
use google_gtags.Prelude.Int.{ℤ, pos}
use google_gtags.Prelude.Result.{Result, ok, fatal, ◌>>=◌}
use google_gtags.PollServer.{Pollable, PollServer, register, unregister}
use google_gtags.Socket.{destroy}

-- An `ErrorCallback`, which may be NULL, and whether it is repeatable.
pub data ErrorCallback : Type 0 where
  no_callback : ErrorCallback
  callback : Bool → ErrorCallback

unfoldable pub is_repeatable : ErrorCallback → Bool
is_repeatable no_callback = false
is_repeatable (callback repeatable) = repeatable

-- How often it is run where it is run if it is set.
unfoldable pub runs : ErrorCallback → ℕ
runs no_callback = 0
runs (callback repeatable) = 1

pub record ClientSocket : Type 0 where
  pub pollable : Pollable
  pub error_callback : ErrorCallback

-- What `Create` leaves: the socket or NULL, how often the error callback was run, and the server.
pub record Created : Type 0 where
  pub client : Option ClientSocket
  pub errors : ℕ
  pub ps : PollServer

unfoldable pub start_client : Option ℕ → ErrorCallback → ℕ → PollServer → Result Created
start_client none error addr ps = fatal
start_client (some fd) error addr ps = do
  t ← register (record { addr = addr; fd = pos fd }) ps
  ok (record {
    client =
        some (record { pollable = record { addr = addr; fd = pos fd }; error_callback = error });
    errors = 0;
    ps = t;
  })

-- `Create`, with whether the connected callback is repeatable, whether the address is resolved, what
-- `socket` gives, and the address of the new object.
unfoldable pub create_client :
    Bool → ErrorCallback → Bool → Option ℕ → ℕ → PollServer → Result Created
create_client repeatable error resolved fd addr ps =
    if repeatable || is_repeatable error
    then ok (record { client = none; errors = 0; ps = ps })
    else if resolved
    then start_client fd error addr ps
    else ok (record { client = none; errors = runs error; ps = ps })

-- What `connect` gives: 0, or -1 with EINPROGRESS or EALREADY, or with another error.
pub data Connecting : Type 0 where
  established in_progress connect_failed : Connecting

-- What `HandleWrite` leaves: whether the socket is not deleted, how often the error callback was run, and
-- the server.
pub record Attempt : Type 0 where
  pub live : Bool
  pub errors : ℕ
  pub ps : PollServer

-- `HandleWrite` with the destructor. The connected callback comes before the destructor of `Pollable`.
unfoldable pub connect_client :
    (ℤ → PollServer → Result PollServer) → Connecting → ClientSocket → PollServer → Result Attempt
connect_client connected_callback established c ps = do
  t ← connected_callback c.pollable.fd ps
  u ← unregister c.pollable t
  ok (record { live = false; errors = 0; ps = u.1 })
connect_client connected_callback in_progress c ps =
    ok (record { live = true; errors = 0; ps = ps })
connect_client connected_callback connect_failed c ps = do
  t ← destroy c.pollable ps
  ok (record { live = false; errors = runs c.error_callback; ps = t })
