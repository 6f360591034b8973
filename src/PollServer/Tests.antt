-- ===== src/PollServer/Tests.antt =====
-- pollserver_test.cc: runs on concrete inputs, and the theorems at inputs that meet their premises.
use google_gtags.Prelude.{true, false, ◌&&◌, [], ◌∷◌, some, none, ◌≡◌, refl, arith, if◌then◌else◌}
use google_gtags.Prelude.Int.{pos, negsuc, ◌=ℤ◌}
use google_gtags.Prelude.Result.{ok, undefined}
use google_gtags.PollServer.{
  Pollable, PollServer, new_server, last_index_of, slot_of, capacity_for, register, set_slot,
  cleared_last, drop_last, vacate, pollable_at, is_at, may_unregister, unregister, is_registered,
}
use google_gtags.PollServer.Slots.{find, is_free, is_table}
use google_gtags.PollServer.Refines.{IsTable, register-find, unregister-find}

abbrev listener : Pollable
listener = record { addr = 100; fd = pos 3 }

abbrev client : Pollable
client = record { addr = 200; fd = pos 5 }

-- Two pollables, in a server with no room for another.
abbrev two_registered : PollServer
two_registered = record {
  slots = slot_of listener ∷ slot_of client ∷ [];
  max_fds = 2;
  current_fd = negsuc 0;
  loop = false;
}

two_registered-IsTable : IsTable two_registered
unfolding is_table is_free
two_registered-IsTable = (refl, omega arith, omega arith)

-- The last place moves into that of the listener.
unregister_runs :
    unregister listener two_registered
    ≡ ok (true, record two_registered { slots = slot_of client ∷ [] })
unfolding unregister may_unregister last_index_of is_at pollable_at vacate cleared_last set_slot
    drop_last
unregister_runs = refl

-- A capacity of 0 stays 0 when it is doubled.
register_empty : register listener (new_server 0) ≡ undefined
unfolding register new_server last_index_of capacity_for
register_empty = refl

abbrev other : Pollable
other = record { addr = 300; fd = pos 7 }

register-find_example :
    (t : PollServer) × (register other two_registered ≡ ok t)
    × IsTable t
    × (find (pos 5) t.slots
        ≡ (if other.fd =ℤ pos 5 then some other.addr else find (pos 5) two_registered.slots))
register-find_example = register-find other two_registered (pos 5) two_registered-IsTable

unregister-find_example :
    (t : PollServer) × (unregister listener two_registered
      ≡ ok (is_registered listener two_registered, t))
    × IsTable t
    × (find (pos 3) t.slots ≡ (
        if is_registered listener two_registered && listener.fd =ℤ pos 3
        then none
        else find (pos 3) two_registered.slots))
unregister-find_example =
    unregister-find listener two_registered (pos 3) two_registered-IsTable
      (unfold may_unregister in refl)
