-- ===== src/Socket/HandOver.antt =====
-- socket.cc: the descriptor of a `ClientSocket` goes over to the socket that its callback makes.
use google_gtags.Prelude.{ℕ, true, false, none, some, ◌≡◌, ◌≢◌, refl, ap, ◌∙◌, arith, ◌==◌}
use google_gtags.Prelude.Int.{ℤ, pos}
use google_gtags.Prelude.Result.{Result, ok}
use google_gtags.PollServer.{PollServer, is_at, is_registered, register}
use google_gtags.PollServer.Slots.{find}
use google_gtags.PollServer.Refines.{IsTable}
use google_gtags.Socket.Client.{
  ErrorCallback, runs, ClientSocket, Connecting, established, in_progress, connect_failed, Attempt,
  connect_client,
}
use google_gtags.Socket.Closing.{
  IsIdle, register_other, is_registered-find, unregister-IsIdle, destroy_idle,
}

-- The callback makes an object at this address, which registers itself.
unfoldable pub registers : ℕ → ℤ → PollServer → Result PollServer
registers addr fd ps = register (record { addr = addr; fd = fd }) ps

abbrev pub client_at : ℕ → ℕ → ErrorCallback → ClientSocket
client_at addr fd error = record {
  pollable = record { addr = addr; fd = pos fd };
  error_callback = error;
}

registers_as :
    (addr other fd : ℕ) (ps : PollServer)
    → IsTable ps
    → find (pos fd) ps.slots ≡ some other
    → is_registered (record { addr = addr; fd = pos fd }) ps ≡ (other == addr)
unfolding is_at
registers_as addr other fd ps t h =
    is_registered-find (record { addr = addr; fd = pos fd }) ps t ∙ ap (is_at addr) h

-- What the descriptor of the client stands for behind an attempt: the new socket, the client still, or
-- nothing; whether the client is not deleted; and how often the error callback was run.
abbrev pub IsHandedOver : Connecting → ℕ → ℕ → ℕ → ErrorCallback → Attempt → Type 0
IsHandedOver established addr other fd error a =
    (a.live ≡ false) × (a.errors ≡ 0) × (find (pos fd) a.ps.slots ≡ some other)
IsHandedOver in_progress addr other fd error a =
    (a.live ≡ true) × (a.errors ≡ 0) × (find (pos fd) a.ps.slots ≡ some addr)
IsHandedOver connect_failed addr other fd error a =
    (a.live ≡ false) × (a.errors ≡ runs error) × (find (pos fd) a.ps.slots ≡ none)

-- A `ClientSocket` that is registered is deleted when `connect` has succeeded or failed. If it succeeded, its
-- descriptor stands for the new socket, which its own destructor leaves there; if it failed, for nothing, and
-- the error callback was run once if it is set; and while it goes on, nothing changes.
pub connect_client_hands_over :
    (c : Connecting) (addr other fd : ℕ) (error : ErrorCallback) (ps : PollServer)
    → other ≢ addr
    → IsIdle (record { addr = addr; fd = pos fd }) ps
    → find (pos fd) ps.slots ≡ some addr
    → (a : Attempt) × (connect_client (registers other) c (client_at addr fd error) ps ≡ ok a)
      × IsTable a.ps
      × IsHandedOver c addr other fd error a
unfolding connect_client registers
connect_client_hands_over in_progress addr other fd error ps n i h =
    (record { live = true; errors = 0; ps = ps }, refl, i.table, (refl, refl, h))
connect_client_hands_over connect_failed addr other fd error ps n i h =
    let (t, e, table, f) = destroy_idle addr fd ps i in
    (
      record { live = false; errors = runs error; ps = t },
      rw e refl,
      table,
      (refl, refl, f ∙ rw (registers_as addr addr fd ps i.table h) (ground arith)),
    )
connect_client_hands_over established addr other fd error ps n i h =
    let (t, e, j, k) = register_other addr other fd ps i in
    let (u, d, l, f) = unregister-IsIdle (record { addr = addr; fd = pos fd }) t j in
    (
      record { live = false; errors = 0; ps = u },
      rw e (rw d refl),
      l.table,
      (refl, refl, f (pos fd) ∙ rw (registers_as addr other fd t j.table k) (ground arith)),
    )
