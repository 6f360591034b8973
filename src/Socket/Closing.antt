-- ===== src/Socket/Closing.antt =====
-- socket.cc and pollable.cc: a socket that is closed or deleted leaves its server.
use google_gtags.Prelude.{
  ℕ, some, length, ltb, arith, if_and_false, true, Bool, ◌&&◌, none, ◌≡◌, refl, sym, ap, ◌∙◌,
  Bool-cases, Option-cases, inl, inr, if◌then◌else◌,
}
use google_gtags.Prelude.Int.{ℤ, pos, negsuc, ◌=ℤ◌, =ℤ_iff}
use google_gtags.Prelude.Result.{Result, ok, Holds, Holds-ok, Holds-if}
use google_gtags.PollServer.{
  Pollable, PollServer, new_server, last_index_of, pollable_at, is_at, may_unregister, unregister,
  is_registered, register, capacity_for,
}
use google_gtags.PollServer.Slots.{find, none-is_free, find-none, find-IsLast, last_index_of-IsLast}
use google_gtags.PollServer.Refines.{IsTable, register-find, unregister-find}
use google_gtags.Socket.{close, destroy}

-- In a table, a pollable is registered if its descriptor stands for it.
pub is_registered-find :
    (p : Pollable) (s : PollServer)
    → IsTable s
    → is_registered p s ≡ is_at p.addr (find p.fd s.slots)
unfolding is_registered is_at
is_registered-find p s t = elim (Option-cases (last_index_of p.fd s.slots)) [
  | inl e ↦ rw (find-none p.fd s.slots (none-is_free p.fd s.slots e)) (rw (e, is_registered) refl)
  | inr (i, e) ↦
      rw (find-IsLast t.0 (last_index_of-IsLast p.fd s.slots i e)) (rw (e, is_registered) refl)
]

keeps_current :
    (p : Pollable) (s : PollServer) → Holds (λ r. r.1.current_fd ≡ s.current_fd) (unregister p s)
unfolding unregister
keeps_current p s = elim (Bool-cases (may_unregister s.current_fd p)) [
  | inr m ↦ rw m tt
  | inl m ↦ elim (Option-cases (last_index_of p.fd s.slots)) [
    | inl e ↦ rw (m, e) refl
    | inr (i, e) ↦ elim (Bool-cases (is_at p.addr (pollable_at s.slots i))) [
      | inl k ↦ rw (m, e, k) refl
      | inr k ↦ rw (m, e, k) refl
    ]
  ]
]

server_of : Result (Bool × PollServer) → PollServer
server_of (ok r) = r.1
server_of _ = new_server 0

-- A table in which a pollable may be unregistered.
pub record IsIdle (p : Pollable) (s : PollServer) : Type 0 where
  pub table : IsTable s
  pub may : may_unregister s.current_fd p ≡ true

-- It is unregistered, and then its descriptor stands for nothing, if it stood for it or for nothing.
pub unregister-IsIdle :
    (p : Pollable) (s : PollServer)
    → IsIdle p s
    → (t : PollServer) × (unregister p s ≡ ok (is_registered p s, t))
      × IsIdle p t
      × ((g : ℤ)
          → find g t.slots ≡ (if is_registered p s && p.fd =ℤ g then none else find g s.slots))
unfolding server_of
unregister-IsIdle p s i =
    let (t, e, table, f) = unregister-find p s p.fd i.table i.may in
    let current : t.current_fd ≡ s.current_fd = Holds-ok _ (unregister p s) (keeps_current p s) e in
    (
      t,
      e,
      record { table = table; may = rw current i.may },
      λ g.
          let (u, d, _, k) = unregister-find p s g i.table i.may in
          let same : u ≡ t = ap server_of (sym d ∙ e) in rw (sym same) k,
    )

register_keeps :
    (p : Pollable) (s : PollServer) → Holds (λ t. t.current_fd ≡ s.current_fd) (register p s)
unfolding register
register_keeps p s = elim (Option-cases (last_index_of p.fd s.slots)) [
  | inl e ↦
      rw (e, register)
        (Holds-if _ (ltb (length s.slots) (capacity_for s.slots s.max_fds)) _ _ refl tt)
  | inr (i, e) ↦ rw (e, register) refl
]

pub =ℤ-self : (n : ℕ) → (pos n =ℤ pos n) ≡ true
=ℤ-self n = (=ℤ_iff (pos n) (pos n)).1 refl

-- A new socket is registered, at the descriptor of another or its own.
pub register_other :
    (addr other fd : ℕ) (s : PollServer)
    → IsIdle (record { addr = addr; fd = pos fd }) s
    → (t : PollServer) × (register (record { addr = other; fd = pos fd }) s ≡ ok t)
      × IsIdle (record { addr = addr; fd = pos fd }) t
      × (find (pos fd) t.slots ≡ some other)
register_other addr other fd s i =
    let p : Pollable = record { addr = other; fd = pos fd } in
    let (t, e, table, f) = register-find p s (pos fd) i.table in
    let current : t.current_fd ≡ s.current_fd = Holds-ok _ (register p s) (register_keeps p s) e in
    (t, e, record { table = table; may = rw current i.may }, f ∙ rw (=ℤ-self fd) refl)

pub register-IsIdle :
    (addr fd : ℕ) (s : PollServer)
    → IsIdle (record { addr = addr; fd = pos fd }) s
    → (t : PollServer) × (register (record { addr = addr; fd = pos fd }) s ≡ ok t)
      × IsIdle (record { addr = addr; fd = pos fd }) t
      × (is_registered (record { addr = addr; fd = pos fd }) t ≡ true)
unfolding is_at
register-IsIdle addr fd s i =
    let p : Pollable = record { addr = addr; fd = pos fd } in
    let (t, e, still, f) = register_other addr addr fd s i in
    (t, e, still, is_registered-find p t still.table ∙ ap (is_at addr) f ∙ ground arith)

closed_may :
    (addr : ℕ) (current : ℤ) → may_unregister current (record { addr = addr; fd = negsuc 0 }) ≡ true
unfolding may_unregister
closed_may addr current = ground arith

-- A socket that is closed, and then deleted, leaves its place to nothing, if the place was its own, and as it
-- was if not.
pub close_idle :
    (addr fd : ℕ) (s : PollServer)
    → IsIdle (record { addr = addr; fd = pos fd }) s
    → (t u : PollServer) × (close (record { addr = addr; fd = pos fd }) s
        ≡ ok (record { addr = addr; fd = negsuc 0 }, t))
      × (destroy (record { addr = addr; fd = negsuc 0 }) t ≡ ok u)
      × IsTable u
      × (find (pos fd) u.slots ≡ (
          if is_registered (record { addr = addr; fd = pos fd }) s
          then none
          else find (pos fd) s.slots))
unfolding destroy close
close_idle addr fd s i =
    let p : Pollable = record { addr = addr; fd = pos fd } in
    let q : Pollable = record { addr = addr; fd = negsuc 0 } in
    let (t, e, k, f) = unregister-IsIdle p s i in
    let (u, d, l, g) =
      unregister-IsIdle q t (record { table = k.table; may = closed_may addr t.current_fd }) in
    (
      t,
      u,
      rw e refl,
      rw d refl,
      l.table,
      g (pos fd)
          ∙ if_and_false (is_registered q t) _ _
          ∙ f (pos fd)
          ∙ rw (=ℤ-self fd) (ground arith),
    )

-- The destructor closes it first.
pub destroy_idle :
    (addr fd : ℕ) (s : PollServer)
    → IsIdle (record { addr = addr; fd = pos fd }) s
    → (t : PollServer) × (destroy (record { addr = addr; fd = pos fd }) s ≡ ok t)
      × IsTable t
      × (find (pos fd) t.slots ≡ (
          if is_registered (record { addr = addr; fd = pos fd }) s
          then none
          else find (pos fd) s.slots))
unfolding destroy
destroy_idle addr fd s i =
    let (t, u, e, d, table, f) = close_idle addr fd s i in (u, rw e (unfold close in d), table, f)
