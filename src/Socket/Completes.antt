-- ===== src/Socket/Completes.antt =====
-- socket.cc: an `RPCSocket` from its constructor to the end of its connection.
use google_gtags.Prelude.{
  ℕ, Bool, true, false, not, ◌&&◌, List, [], ◌∷◌, ◌++◌, Text, length, Option, none, ◌≡◌, refl, sym,
  ap, ◌∙◌, leb, append_assoc, subst, if◌then◌else◌,
}
use google_gtags.Prelude.Int.{pos, ◌=ℤ◌}
use google_gtags.Prelude.Result.{ok, ◌>>=◌}
use google_gtags.PollServer.{Pollable, PollServer, is_registered}
use google_gtags.PollServer.Slots.{find}
use google_gtags.PollServer.Refines.{IsTable}
use google_gtags.Socket.{
  closed, would_block, Received, Written, Connected, delete_this, handle_read, handle_write,
  read_done, new_connected,
}
use google_gtags.Socket.Rpc.{
  Responses, rpc_disconnected, rpc_methods, create_rpc, SocketEvent, readable, writable,
  serve_event, serve_events,
}
use google_gtags.Socket.Closing.{IsIdle, =ℤ-self, register-IsIdle, unregister-IsIdle, destroy_idle}
use google_gtags.Socket.Delivery.{
  is_answered, left_after, handle_write_delivers, IsRead, read_loop-IsRead,
}

-- The events of a connection with so many bytes to send, up to its end, and all that it receives: the
-- server tells at any time that the socket can be read or written, and at last `recv` gives 0.
pub data IsServed : List SocketEvent → ℕ → Text → Type 0 where
  ends :
      {rs : List Received} {n : ℕ} {t : Text} → IsRead rs t closed → IsServed (readable rs ∷ []) n t
  reads :
      {rs : List Received} {n : ℕ} {t u : Text} {es : List SocketEvent}
      → IsRead rs t would_block
      → IsServed es n u
      → IsServed (readable rs ∷ es) n (t ++ u)
  writes :
      {ws : List Written} {n : ℕ} {u : Text} {es : List SocketEvent}
      → is_answered ws n ≡ true
      → IsServed es (left_after ws n) u
      → IsServed (writable ws ∷ es) n u

-- An `RPCSocket` that has given the response, and is deleted.
pub record IsComplete (addr fd : ℕ) (command response : Text) (s : Connected Responses)
    : Type 0 where
  pub responds : s.own ≡ response ∷ []
  pub deleted : s.live ≡ false
  pub sends : s.sent ++ s.outbuf ≡ command
  pub table : IsTable s.ps
  pub leaves : find (pos fd) s.ps.slots ≡ none

-- While it is not, and its descriptor stands for it.
record IsOpen (addr fd : ℕ) (command : Text) (s : Connected Responses) : Type 0 where
  pollable : s.pollable ≡ record { addr = addr; fd = pos fd }
  idle : IsIdle (record { addr = addr; fd = pos fd }) s.ps
  registered : is_registered (record { addr = addr; fd = pos fd }) s.ps ≡ true
  silent : s.own ≡ []
  sends : s.sent ++ s.outbuf ≡ command

if_same : {A : Type 0} (b : Bool) (x : A) → (if b then x else x) ≡ x
if_same true x = refl
if_same false x = refl

write_rpc :
    {addr fd : ℕ} {command : Text} (ws : List Written) (s : Connected Responses)
    → IsOpen addr fd command s
    → is_answered ws (length s.outbuf) ≡ true
    → (t : Connected Responses) × (handle_write rpc_methods ws s ≡ ok t)
      × IsOpen addr fd command t
      × (length t.outbuf ≡ left_after ws (length s.outbuf))
      × (t.inbuf ≡ s.inbuf)
write_rpc ws s o h =
    let (taken, rest, whole, left, e) = handle_write_delivers rpc_methods ws s h in
    (
      record s { outbuf = rest; sent = s.sent ++ taken },
      e ∙ if_same (leb (length rest) 0 && not (leb (length s.outbuf) 0)) _,
      record {
        pollable = o.pollable;
        idle = o.idle;
        registered = o.registered;
        silent = o.silent;
        sends = append_assoc s.sent taken rest ∙ ap (λ t. s.sent ++ t) whole ∙ o.sends;
      },
      left,
      refl,
    )

read_rpc :
    (s : Connected Responses) {rs : List Received} {t : Text}
    → IsRead rs t would_block
    → handle_read rpc_methods rs s ≡ ok (record s { inbuf = s.inbuf ++ t })
unfolding handle_read read_done
read_rpc s r = rw (read_loop-IsRead s.inbuf r) refl

-- Unregistered twice, the first time where it was registered.
gone_twice :
    (a b : Bool) (n : ℕ) (x : Option ℕ) {y z : Option ℕ}
    → a ≡ true
    → y ≡ (if a && pos n =ℤ pos n then none else x)
    → z ≡ (if b then none else y)
    → z ≡ none
gone_twice a b n x h e d =
    let e' : _ ≡ none = e ∙ rw (h, =ℤ-self n) refl in d ∙ rw e' (if_same b none)

close_rpc :
    {addr fd : ℕ} {command : Text} (s : Connected Responses) {rs : List Received} {t : Text}
    → IsOpen addr fd command s
    → IsRead rs t closed
    → (u : Connected Responses) × (handle_read rpc_methods rs s ≡ ok u)
      × IsComplete addr fd command (s.inbuf ++ t) u
unfolding handle_read read_done rpc_disconnected delete_this
close_rpc {addr} {fd} s {t} o r =
    let p : Pollable = record { addr = addr; fd = pos fd } in
    let (ps, e, idle, found) = unregister-IsIdle p s.ps o.idle in
    let (end, d, table, gone) = destroy_idle addr fd ps idle in
    (
      record s { ps = end; inbuf = s.inbuf ++ t; own = s.own ++ (s.inbuf ++ t) ∷ []; live = false },
      rw (read_loop-IsRead s.inbuf r) (rw o.pollable (rw e (rw d refl))),
      record {
        responds = ap (λ l. l ++ (s.inbuf ++ t) ∷ []) o.silent;
        deleted = refl;
        sends = o.sends;
        table = table;
        leaves =
            gone_twice (is_registered p s.ps) (is_registered p ps) fd _ o.registered
              (found (pos fd)) gone;
      },
    )

serve_events-IsComplete :
    {addr fd : ℕ} {command : Text} {es : List SocketEvent} {n : ℕ} {u : Text}
    (s : Connected Responses)
    → IsServed es n u
    → IsOpen addr fd command s
    → n ≡ length s.outbuf
    → (t : Connected Responses) × (serve_events rpc_methods es s ≡ ok t)
      × IsComplete addr fd command (s.inbuf ++ u) t
unfolding serve_events serve_event
serve_events-IsComplete s (ends r) o e = let (t, d, c) = close_rpc s o r in (t, rw d refl, c)
serve_events-IsComplete {addr} {fd} {command} s (reads {t} {u} {es} r served) o e =
    let next : Connected Responses = record s { inbuf = s.inbuf ++ t } in
    let still : IsOpen addr fd command next = record {
      pollable = o.pollable;
      idle = o.idle;
      registered = o.registered;
      silent = o.silent;
      sends = o.sends;
    } in
    let (v, d, c) = serve_events-IsComplete next served still e in
    (
      v,
      rw (read_rpc s r) d,
      subst (λ l. IsComplete addr fd command l v) (append_assoc s.inbuf t u) c,
    )
serve_events-IsComplete {addr} {fd} {command} s (writes {ws} {u} {es} h served) o e =
    let (next, w, still, left, same) = write_rpc ws s o (ap (is_answered ws) (sym e) ∙ h) in
    let (v, d, c) = serve_events-IsComplete next served still (ap (left_after ws) e ∙ sym left) in
    (v, rw w d, subst (λ l. IsComplete addr fd command (l ++ u) v) same c)

-- An `RPCSocket` on a new descriptor runs its callback once, at the end of the connection, with all that it
-- received, in whatever pieces that came; what it sent until then is the command from its front on, the rest
-- is in its buffer, and nothing is sent twice or lost; and then it is deleted, and has left the server.
pub rpc_completes :
    (addr fd : ℕ) (command response : Text) (es : List SocketEvent) (ps : PollServer)
    → IsIdle (record { addr = addr; fd = pos fd }) ps
    → IsServed es (length command) response
    → (s : Connected Responses) × ((create_rpc command (record { addr = addr; fd = pos fd }) ps
          >>= serve_events rpc_methods es)
        ≡ ok s)
      × IsComplete addr fd command response s
unfolding create_rpc new_connected
rpc_completes addr fd command response es ps idle served =
    let p : Pollable = record { addr = addr; fd = pos fd } in
    let (t, e, still, registered) = register-IsIdle addr fd ps idle in
    let s : Connected Responses = record {
      pollable = p;
      ps = t;
      inbuf = [];
      outbuf = command;
      own = [];
      live = true;
      sent = [];
    } in
    let opened : IsOpen addr fd command s = record {
      pollable = refl;
      idle = still;
      registered = registered;
      silent = refl;
      sends = refl;
    } in
    let (u, d, c) = serve_events-IsComplete s served opened refl in (u, rw e d, c)
