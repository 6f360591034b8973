-- ===== src/Socket/Tests.antt =====
-- socket_test.cc: runs on concrete inputs, and the theorems at inputs that meet their premises.
use google_gtags.Prelude.{true, false, List, [], ◌∷◌, some, none, codes, ◌≡◌, refl, arith, ◌++◌}
use google_gtags.Prelude.Int.{pos, negsuc}
use google_gtags.Prelude.Result.{ok, ◌>>=◌}
use google_gtags.PollServer.{new_server, slot_of, last_index_of, register, capacity_for}
use google_gtags.PollServer.Slots.{find}
use google_gtags.Socket.{Connected, ended, bytes, closed, would_block, took, write_failed}
use google_gtags.Socket.Listener.{nothing_to_accept, accept_connection}
use google_gtags.Socket.Client.{callback, established, connect_client, Attempt}
use google_gtags.Socket.Rpc.{
  Responses, rpc_methods, perform_rpc, create_rpc, SocketEvent, readable, writable, serve_events,
}
use google_gtags.Socket.Sample.{serving, serving-IsIdle}
use google_gtags.Socket.Delivery.{is_answered, left_after, stops, more}
use google_gtags.Socket.Completes.{IsServed, ends, reads, writes, IsComplete, rpc_completes}
use google_gtags.Socket.HandOver.{registers, client_at, IsHandedOver, connect_client_hands_over}
use google_gtags.PollServer.Refines.{IsTable}

abbrev events : List SocketEvent
events =
    writable (took 1 ∷ write_failed ∷ [])
    ∷ readable (bytes b'o' [] ∷ ended would_block ∷ [])
    ∷ writable (took 2 ∷ [])
    ∷ readable (bytes b'k' [] ∷ ended closed ∷ [])
    ∷ []

events-IsServed : IsServed events 5 (codes "ok")
unfolding is_answered left_after
events-IsServed =
    writes refl
      (reads (more b'o' [] (stops would_block)) (writes refl (ends (more b'k' [] (stops closed)))))

rpc_completes_example :
    (s : Connected Responses) × ((create_rpc
          (codes "ping\n")
          (record { addr = 200; fd = pos 5 })
          serving
        >>= serve_events rpc_methods events)
      ≡ ok s)
    × IsComplete 200 5 (codes "ping\n") (codes "ok") s
rpc_completes_example =
    rpc_completes 200 5 (codes "ping\n") (codes "ok") events serving (serving-IsIdle 200)
      events-IsServed

serving_finds : find (pos 5) serving.slots ≡ some 100
unfolding find
serving_finds = refl

connect_client_hands_over_example :
    (a : Attempt) × (connect_client
        (registers 200)
        established
        (client_at 100 5 (callback false))
        serving
      ≡ ok a)
    × IsTable a.ps
    × IsHandedOver established 100 200 5 (callback false) a
connect_client_hands_over_example =
    connect_client_hands_over established 100 200 5 (callback false) serving
      (λ e. absurd (omega arith)) (serving-IsIdle 100) serving_finds

-- Where there is nothing to accept, the callback is run with the descriptor -1.
accepts_nothing :
    accept_connection (registers 200) nothing_to_accept serving
    ≡ ok (record serving {
      slots = serving.slots ++ slot_of (record { addr = 200; fd = negsuc 0 }) ∷ [];
      max_fds = 2;
    })
unfolding accept_connection registers register last_index_of capacity_for
accepts_nothing = refl

-- A done callback that is repeatable gives NULL, and the error callback is not run.
performs_nothing :
    perform_rpc true true (some 5) 100 (new_server 1)
    ≡ ok (record { client = none; errors = 0; ps = new_server 1 })
unfolding perform_rpc
performs_nothing = refl
