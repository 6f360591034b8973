-- ===== src/PollServer.antt =====
-- pollserver.h and pollserver.cc: the table of pollables, and one turn of its loop.
pub mod Slots
mod Vacate
pub mod Refines
mod Tests
use google_gtags.Prelude.{
  ℕ, zero, suc, ◌+◌, ◌*◌, ◌-◌, Bool, true, false, not, ◌&&◌, ◌||◌, List, [], ◌∷◌, ◌++◌, length,
  get_elem?, Option, none, some, ◌==◌, ltb, if◌then◌else◌,
}
use google_gtags.Prelude.Int.{ℤ, pos, negsuc, ◌=ℤ◌}
use google_gtags.Prelude.Result.{Result, ok, fatal, undefined, ◌>>=◌, ◌>>◌}

-- A pollable is known by its address, and has a file descriptor.
pub record Pollable : Type 0 where
  pub addr : ℕ
  pub fd : ℤ

-- One place of `fds_` and `pollables_`: the descriptor, whether `revents` has POLLIN, whether it has
-- POLLOUT or POLLHUP, and the address of the pollable.
pub record Slot : Type 0 where
  pub fd : ℤ
  pub can_read : Bool
  pub can_write : Bool
  pub pollable : ℕ

-- `slots` are the first `num_fds_` places.
pub record PollServer : Type 0 where
  pub slots : List Slot
  pub max_fds : ℕ
  pub current_fd : ℤ
  pub loop : Bool

-- The constructor, for a capacity that is not negative.
unfoldable pub new_server : ℕ → PollServer
new_server max_fds = record { slots = []; max_fds = max_fds; current_fd = negsuc 0; loop = false }

-- `LastIndexOf`; `none` is -1.
unfoldable pub last_index_of : ℤ → List Slot → Option ℕ
last_index_of fd [] = none
last_index_of fd (x ∷ xs) = elim (last_index_of fd xs) [
  | some i ↦ some (suc i)
  | none ↦ if x.fd =ℤ fd then some 0 else none
]

-- A write to a place of the arrays.
unfoldable pub set_slot : List Slot → ℕ → Slot → List Slot
set_slot [] i y = []
set_slot (x ∷ xs) zero y = y ∷ xs
set_slot (x ∷ xs) (suc i) y = x ∷ set_slot xs i y

-- What `Register` writes at an index in use: the events that came are left.
unfoldable pub overwrite : List Slot → ℕ → Pollable → List Slot
overwrite [] i p = []
overwrite (x ∷ xs) zero p = record x { fd = p.fd; pollable = p.addr } ∷ xs
overwrite (x ∷ xs) (suc i) p = x ∷ overwrite xs i p

-- A new place. `poll` writes `revents` before they are read.
abbrev pub slot_of : Pollable → Slot
slot_of p = record { fd = p.fd; can_read = false; can_write = false; pollable = p.addr }

-- `max_fds_` behind `DoubleCapacity`, where that is called.
unfoldable pub capacity_for : List Slot → ℕ → ℕ
capacity_for slots max_fds = if length slots == max_fds then max_fds * 2 else max_fds

-- `Register`. An index beyond the capacity, which is what doubling 0 leaves, is a write out of bounds.
unfoldable pub register : Pollable → PollServer → Result PollServer
register p s = elim (last_index_of p.fd s.slots) [
  | some i ↦ ok (record s { slots = overwrite s.slots i p })
  | none ↦
      if ltb (length s.slots) (capacity_for s.slots s.max_fds)
      then ok
          (record s { slots = s.slots ++ slot_of p ∷ []; max_fds = capacity_for s.slots s.max_fds })
      else undefined
]

-- The last place, with no pending events.
unfoldable pub cleared_last : List Slot → Option Slot
cleared_last [] = none
cleared_last (x ∷ []) = some (record x { can_read = false; can_write = false })
cleared_last (x ∷ y ∷ ys) = cleared_last (y ∷ ys)

-- `--num_fds_`
unfoldable pub drop_last : List Slot → List Slot
drop_last [] = []
drop_last (x ∷ []) = []
drop_last (x ∷ y ∷ ys) = x ∷ drop_last (y ∷ ys)

-- The last place is moved into place `i`.
unfoldable pub vacate : List Slot → ℕ → List Slot
vacate slots i = elim (cleared_last slots) [ none ↦ [] | some l ↦ drop_last (set_slot slots i l) ]

unfoldable pub pollable_at : List Slot → ℕ → Option ℕ
pollable_at [] i = none
pollable_at (x ∷ xs) zero = some x.pollable
pollable_at (x ∷ xs) (suc i) = pollable_at xs i

-- `pollables_[i] == pollable`
unfoldable pub is_at : ℕ → Option ℕ → Bool
is_at addr none = false
is_at addr (some a) = a == addr

-- The CHECK of `Unregister`.
unfoldable pub may_unregister : ℤ → Pollable → Bool
may_unregister current_fd p = current_fd =ℤ negsuc 0 || p.fd =ℤ negsuc 0 || current_fd =ℤ p.fd

-- `Unregister`
unfoldable pub unregister : Pollable → PollServer → Result (Bool × PollServer)
unregister p s =
    if may_unregister s.current_fd p
    then elim (last_index_of p.fd s.slots) [
      | none ↦ ok (false, s)
      | some i ↦
          if is_at p.addr (pollable_at s.slots i)
          then ok (true, record s { slots = vacate s.slots i })
          else ok (false, s)
    ]
    else fatal

-- Both overloads of `IsRegistered`.
unfoldable pub is_registered_fd : ℤ → PollServer → Bool
is_registered_fd fd s = elim (last_index_of fd s.slots) [ none ↦ false | some i ↦ true ]

unfoldable pub is_registered : Pollable → PollServer → Bool
is_registered p s = elim (last_index_of p.fd s.slots) [
  | none ↦ false
  | some i ↦ is_at p.addr (pollable_at s.slots i)
]

-- The virtual methods of the pollables, which may call back into the server.
pub record Handlers : Type 0 where
  pub handle_read : ℕ → PollServer → Result PollServer
  pub handle_write : ℕ → PollServer → Result PollServer

unfoldable pub read_at : Handlers → Slot → PollServer → Result PollServer
read_at h x s = if x.can_read then h.handle_read x.pollable s else ok s

-- Place `i` again, behind `HandleRead`, and whether there was an event.
unfoldable pub write_at : Handlers → Bool → Option Slot → PollServer → Result (Bool × PollServer)
write_at h had_event none s = ok (had_event, s)
write_at h had_event (some y) s =
    if y.can_write then (do t ← h.handle_write y.pollable s; ok (true, t)) else ok (had_event, s)

-- `HandlePollEvents`: the places below `i` are left, and `num_events` events.
unfoldable pub handle_below : Handlers → ℕ → ℕ → PollServer → Result PollServer
handle_below h zero num_events s = ok (record s { current_fd = negsuc 0 })
handle_below h (suc i) zero s = ok (record s { current_fd = negsuc 0 })
handle_below h (suc i) (suc n) s = elim (get_elem? s.slots i) [
  | none ↦ undefined
  | some x ↦ (do
    t ← read_at h x (record s { current_fd = x.fd })
    r ← write_at h x.can_read (get_elem? t.slots i) t
    handle_below h i (if r.0 then n else suc n) r.1)
]

unfoldable pub handle_poll_events : Handlers → ℕ → PollServer → Result PollServer
handle_poll_events h num_events s = handle_below h (length s.slots) num_events s
