-- ===== src/Socket.antt =====
-- socket.h and socket.cc: `Socket`, and `ConnectedSocket` with the methods that a subclass overrides.
pub mod Listener
pub mod Client
pub mod Rpc
pub mod Closing
pub mod Delivery
pub mod Completes
pub mod HandOver
pub mod Sample
mod Tests
use google_gtags.Prelude.{
  ℕ, zero, suc, ◌+◌, ◌-◌, Bool, true, false, List, [], ◌∷◌, ◌++◌, Text, length, take, drop, leb,
  if◌then◌else◌,
}
use google_gtags.Prelude.Int.{ℤ, negsuc, ◌=ℤ◌}
use google_gtags.Prelude.Result.{Result, ok, undefined, out_of_fuel, ◌>>=◌}
use google_gtags.PollServer.{Pollable, PollServer, register, unregister}

-- `Socket::Close`. Whether `close` succeeds is only logged.
unfoldable pub close : Pollable → PollServer → Result (Pollable × PollServer)
close p ps =
    if p.fd =ℤ negsuc 0
    then ok (p, ps)
    else (do r ← unregister p ps; ok (record p { fd = negsuc 0 }, r.1))

-- The destructors of a socket: `Close`, and then that of `Pollable`.
unfoldable pub destroy : Pollable → PollServer → Result PollServer
destroy p ps = do r ← close p ps; u ← unregister r.0 r.1; ok u.1

-- How the loop of `HandleRead` ends: `recv` gives 0, or -1 with EWOULDBLOCK or with another error.
pub data ReadEnd : Type 0 where
  closed would_block read_failed : ReadEnd

-- What one `recv` gives: the end, or at least one byte.
pub data Received : Type 0 where
  bytes : ℕ → Text → Received
  ended : ReadEnd → Received

-- What one `write` gives: how many bytes it took, less one, or 0 or -1.
pub data Written : Type 0 where
  took : ℕ → Written
  write_failed : Written

-- The loop of `HandleRead`, over what the calls of `recv` give in turn.
unfoldable pub read_loop : List Received → Text → Result (ReadEnd × Text)
read_loop [] inbuf = out_of_fuel
read_loop (bytes c s ∷ rs) inbuf = read_loop rs (inbuf ++ (c ∷ s))
read_loop (ended e ∷ rs) inbuf = ok (e, inbuf)

-- Where the loop of `HandleWrite` stands: what `outbuf` points to, of which `towrite` is the length,
-- `totalwrote`, and all that the other side was sent.
pub record Writing : Type 0 where
  pub outbuf : Text
  pub totalwrote : ℕ
  pub sent : Text

-- The loop of `HandleWrite`, over what the calls of `write` give in turn. None takes more than it is given.
unfoldable pub write_loop : List Written → Text → ℕ → Text → Result Writing
write_loop ws [] totalwrote sent = ok (record { outbuf = []; totalwrote = totalwrote; sent = sent })
write_loop [] (c ∷ cs) totalwrote sent = out_of_fuel
write_loop (write_failed ∷ ws) (c ∷ cs) totalwrote sent =
    ok (record { outbuf = c ∷ cs; totalwrote = totalwrote; sent = sent })
write_loop (took n ∷ ws) (c ∷ cs) totalwrote sent =
    let next = write_loop ws (drop n cs) (totalwrote + suc n) (sent ++ (c ∷ take n cs)) in
    if leb n (length cs) then next else undefined

module _ (A : Type 0) where
  -- A `ConnectedSocket`, what its subclass keeps, whether it is not deleted, and what the other side was
  -- sent.
  pub record Connected : Type 0 where
    pub pollable : Pollable
    pub ps : PollServer
    pub inbuf : Text
    pub outbuf : Text
    pub own : A
    pub live : Bool
    pub sent : Text

  -- The virtual methods.
  pub record Methods : Type 0 where
    pub handle_received : Connected → Result (Bool × Connected)
    pub handle_sent : Connected → Result Connected
    pub handle_disconnected : Connected → Result Connected

module _ {A : Type 0} where
  -- `inbuf_.clear()`, of a socket that is not deleted.
  unfoldable pub clear_input : Connected A → Result (Connected A)
  clear_input s = if s.live then ok (record s { inbuf = [] }) else undefined

  -- `delete this`
  unfoldable pub delete_this : Connected A → Result (Connected A)
  delete_this s = do ps ← destroy s.pollable s.ps; ok (record s { ps = ps; live = false })

  -- What `HandleRead` does behind its loop.
  unfoldable pub read_done : Methods A → ReadEnd → Connected A → Result (Connected A)
  read_done m closed s = do
    r ← unregister s.pollable s.ps
    m.handle_disconnected (record s { ps = r.1 })
  read_done m read_failed s = ok s
  read_done m would_block s = do r ← m.handle_received s; if r.0 then clear_input r.1 else ok r.1

  -- `HandleRead`
  unfoldable pub handle_read : Methods A → List Received → Connected A → Result (Connected A)
  handle_read m rs s = do r ← read_loop rs s.inbuf; read_done m r.0 (record s { inbuf = r.1 })

  -- What `HandleWrite` does behind its loop.
  unfoldable pub write_done : Methods A → Writing → Connected A → Result (Connected A)
  write_done m w s =
      let t : Connected A = record s { outbuf = drop w.totalwrote s.outbuf; sent = w.sent } in
      if leb (length w.outbuf) 0 then m.handle_sent t else ok t

  -- `HandleWrite`
  unfoldable pub handle_write : Methods A → List Written → Connected A → Result (Connected A)
  handle_write m ws s =
      if leb (length s.outbuf) 0
      then ok s
      else (do w ← write_loop ws s.outbuf 0 s.sent; write_done m w s)

  -- The constructor, which registers the socket.
  unfoldable pub new_connected : A → Pollable → Text → PollServer → Result (Connected A)
  new_connected own p outbuf ps = do
    t ← register p ps
    ok (record {
      pollable = p;
      ps = t;
      inbuf = [];
      outbuf = outbuf;
      own = own;
      live = true;
      sent = [];
    })
