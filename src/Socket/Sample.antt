-- ===== src/Socket/Sample.antt =====
-- pollserver.cc: a server with one connection, for the tests.
use google_gtags.Prelude.{ℕ, true, [], ◌∷◌, ◌≡◌, refl, arith}
use google_gtags.Prelude.Int.{pos}
use google_gtags.PollServer.{
  PollServer, slot_of, may_unregister, is_registered, last_index_of, is_at, pollable_at,
}
use google_gtags.PollServer.Slots.{is_free, is_table}
use google_gtags.Socket.Closing.{IsIdle}

abbrev pub serving : PollServer
serving = record {
  slots = slot_of (record { addr = 100; fd = pos 5 }) ∷ [];
  max_fds = 1;
  current_fd = pos 5;
  loop = true;
}

pub serving-IsIdle : (addr : ℕ) → IsIdle (record { addr = addr; fd = pos 5 }) serving
unfolding may_unregister is_table is_free
serving-IsIdle addr = record { table = (refl, omega arith, omega arith); may = refl }

pub is_registered-serving : is_registered (record { addr = 100; fd = pos 5 }) serving ≡ true
unfolding is_registered last_index_of is_at pollable_at
is_registered-serving = refl
