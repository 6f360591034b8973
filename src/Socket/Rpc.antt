-- ===== src/Socket/Rpc.antt =====
-- socket.h and socket.cc: `RPCSocket`.
use google_gtags.Prelude.{ℕ, Bool, false, List, [], ◌∷◌, ◌++◌, Text, Option, none, if◌then◌else◌}
use google_gtags.Prelude.Result.{Result, ok, ◌>>=◌}
use google_gtags.PollServer.{Pollable, PollServer}
use google_gtags.Socket.{
  Received, Written, Connected, Methods, delete_this, handle_read, handle_write, new_connected,
}
use google_gtags.Socket.Client.{callback, Created, create_client}

-- What the subclass keeps: the responses that its `DoneCallback` was run with.
abbrev pub Responses : Type 0
Responses = List Text

-- `HandleDisconnected`
unfoldable pub rpc_disconnected : Connected Responses → Result (Connected Responses)
rpc_disconnected s = delete_this (record s { own = s.own ++ s.inbuf ∷ [] })

-- The methods of `RPCSocket`, of which two are those of `ConnectedSocket`.
abbrev pub rpc_methods : Methods Responses
rpc_methods = record {
  handle_received = λ s. ok (false, s);
  handle_sent = λ s. ok s;
  handle_disconnected = rpc_disconnected;
}

-- `Create`
unfoldable pub create_rpc : Text → Pollable → PollServer → Result (Connected Responses)
create_rpc command p ps = new_connected [] p command ps

-- `PerformRPC`. The callbacks that it makes are not repeatable, and the one for errors is always set.
unfoldable pub perform_rpc : Bool → Bool → Option ℕ → ℕ → PollServer → Result Created
perform_rpc repeatable resolved fd addr ps =
    if repeatable
    then ok (record { client = none; errors = 0; ps = ps })
    else create_client false (callback false) resolved fd addr ps

-- What the poll server tells a socket.
pub data SocketEvent : Type 0 where
  readable : List Received → SocketEvent
  writable : List Written → SocketEvent

unfoldable pub serve_event :
    {A : Type 0} → Methods A → SocketEvent → Connected A → Result (Connected A)
serve_event m (readable rs) s = handle_read m rs s
serve_event m (writable ws) s = handle_write m ws s

-- The events in their order.
unfoldable pub serve_events :
    {A : Type 0} → Methods A → List SocketEvent → Connected A → Result (Connected A)
unfolding serve_event
serve_events m [] s = ok s
serve_events m (e ∷ es) s = serve_event m e s >>= serve_events m es
