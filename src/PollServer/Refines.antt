-- ===== src/PollServer/Refines.antt =====
-- pollserver.cc: registering and unregistering are those of a map from descriptors to pollables.
use google_gtags.Prelude.{
  ℕ, zero, suc, ◌≤◌, ◌<◌, true, false, ◌&&◌, List, [], ◌∷◌, ◌++◌, length, length-append, none, some,
  ◌≡◌, refl, ap, ◌∙◌, arith, ltb, Bool-cases, Option-cases, inl, inr, if◌then◌else◌,
}
use google_gtags.Prelude.Int.{ℤ, ◌=ℤ◌}
use google_gtags.Prelude.Result.{ok}
use google_gtags.PollServer.{
  Pollable, Slot, PollServer, last_index_of, set_slot, overwrite, slot_of, capacity_for, register,
  cleared_last, drop_last, vacate, pollable_at, is_at, may_unregister, unregister, is_registered,
}
use google_gtags.PollServer.Slots.{
  find, is_table, none-is_free, IsLast, last_index_of-IsLast, is_table-overwrite, find-overwrite,
  find-append, is_table-append,
}
use google_gtags.PollServer.Vacate.{cleared_last-IsSplit, is_table-vacated, find-vacated}

-- No descriptor has two places, and the arrays have room for all of them and for one at least.
abbrev pub IsTable : PollServer → Type 0
IsTable s = (is_table s.slots ≡ true) × (length s.slots ≤ s.max_fds) × (0 < s.max_fds)

length-overwrite : (xs : List Slot) (i : ℕ) (p : Pollable) → length (overwrite xs i p) ≡ length xs
unfolding overwrite
length-overwrite [] i p = refl
length-overwrite (x ∷ xs) zero p = refl
length-overwrite (x ∷ xs) (suc i) p = omega (arith, length-overwrite xs i p)

length-set_slot : (xs : List Slot) (i : ℕ) (l : Slot) → length (set_slot xs i l) ≡ length xs
unfolding set_slot
length-set_slot [] i l = refl
length-set_slot (x ∷ xs) zero l = refl
length-set_slot (x ∷ xs) (suc i) l = omega (arith, length-set_slot xs i l)

length-drop_last : (xs : List Slot) → length (drop_last xs) ≤ length xs
unfolding drop_last
length-drop_last [] = omega arith
length-drop_last (x ∷ []) = omega arith
length-drop_last (x ∷ y ∷ ys) = omega (arith, length-drop_last (y ∷ ys))

capacity_for_le :
    (xs : List Slot) (m : ℕ)
    → length xs ≤ m
    → 0 < m
    → (length xs < capacity_for xs m) × (m ≤ capacity_for xs m)
unfolding capacity_for
capacity_for_le xs m h k = ground arith

-- In a table, registering a pollable succeeds, and leaves a table in which its descriptor stands for it
-- and every other descriptor for what it did before.
pub register-find :
    (p : Pollable) (s : PollServer) (g : ℤ)
    → IsTable s
    → (t : PollServer) × (register p s ≡ ok t)
      × IsTable t
      × (find g t.slots ≡ (if p.fd =ℤ g then some p.addr else find g s.slots))
unfolding register
register-find p s g (table, fits, room) = elim (Option-cases (last_index_of p.fd s.slots)) [
  | inl e ↦
      let free = none-is_free p.fd s.slots e in
      let c = capacity_for_le s.slots s.max_fds fits room in
      let below : ltb (length s.slots) (capacity_for s.slots s.max_fds) ≡ true =
        ground (arith, c) in
      (
        record s { slots = s.slots ++ slot_of p ∷ []; max_fds = capacity_for s.slots s.max_fds },
        rw (e, below, register),
        (
          is_table-append p s.slots free table,
          omega (arith, c, length-append s.slots (slot_of p ∷ [])),
          omega (arith, c),
        ),
        find-append g p s.slots free,
      )
  | inr (i, e) ↦
      let last = last_index_of-IsLast p.fd s.slots i e in
      (
        record s { slots = overwrite s.slots i p },
        rw (e, register),
        (
          is_table-overwrite p last ∙ table,
          omega (arith, length-overwrite s.slots i p, fits),
          room,
        ),
        find-overwrite g p table last,
      )
]

-- What `IsRegistered` answers where `LastIndexOf` finds nothing, and where it finds a place.
unlisted :
    (p : Pollable) (s : PollServer) → last_index_of p.fd s.slots ≡ none → is_registered p s ≡ false
unfolding is_registered
unlisted p s e = rw (e, is_registered)

listed :
    (p : Pollable) (s : PollServer) (i : ℕ)
    → last_index_of p.fd s.slots ≡ some i
    → is_registered p s ≡ is_at p.addr (pollable_at s.slots i)
unfolding is_registered
listed p s i e = rw (e, is_registered)

vacate-split :
    (xs : List Slot) (i : ℕ) (l : Slot)
    → cleared_last xs ≡ some l
    → vacate xs i ≡ drop_last (set_slot xs i l)
unfolding vacate
vacate-split xs i l c = rw (c, vacate)

-- The table without the place.
vacate-table :
    (fd g : ℤ) (xs : List Slot) (i : ℕ)
    → is_table xs ≡ true
    → IsLast fd xs i
    → (is_table (vacate xs i) ≡ true)
      × (find g (vacate xs i) ≡ (if fd =ℤ g then none else find g xs))
      × (length (vacate xs i) ≤ length xs)
vacate-table fd g [] i t r = elim r [ ]
vacate-table fd g (x ∷ xs) i t r =
    let (l, c, sp) = cleared_last-IsSplit x xs in
    let v : vacate (x ∷ xs) i ≡ drop_last (set_slot (x ∷ xs) i l) = vacate-split (x ∷ xs) i l c in
    (
      ap is_table v ∙ is_table-vacated r sp t,
      ap (find g) v ∙ find-vacated g r sp t,
      omega (
        arith,
        ap length v,
        length-drop_last (set_slot (x ∷ xs) i l),
        length-set_slot (x ∷ xs) i l,
      ),
    )

-- In a table, unregistering a pollable that the CHECK allows succeeds, tells whether it was registered,
-- and leaves a table in which its descriptor stands for nothing if it was, and every other descriptor
-- for what it did before.
pub unregister-find :
    (p : Pollable) (s : PollServer) (g : ℤ)
    → IsTable s
    → may_unregister s.current_fd p ≡ true
    → (t : PollServer) × (unregister p s ≡ ok (is_registered p s, t))
      × IsTable t
      × (find g t.slots ≡ (if is_registered p s && p.fd =ℤ g then none else find g s.slots))
unfolding unregister
unregister-find p s g (table, fits, room) may = elim (Option-cases (last_index_of p.fd s.slots)) [
  | inl e ↦ (s, rw (may, e, unlisted p s e), (table, fits, room), rw (unlisted p s e))
  | inr (i, e) ↦ elim (Bool-cases (is_at p.addr (pollable_at s.slots i))) [
    | inr k ↦ (s, rw (may, e, k, listed p s i e, k), (table, fits, room), rw (listed p s i e, k))
    | inl k ↦
        let v = vacate-table p.fd g s.slots i table (last_index_of-IsLast p.fd s.slots i e) in
        (
          record s { slots = vacate s.slots i },
          rw (may, e, k, listed p s i e, k),
          (v.0, omega (arith, v, fits), room),
          rw (listed p s i e, k) v.1,
        )
  ]
]
