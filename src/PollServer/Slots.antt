-- ===== src/PollServer/Slots.antt =====
-- pollserver.cc: the arrays as a map from descriptors to pollables.
use google_gtags.Prelude.{
  ℕ, suc, Bool, true, false, not, ◌&&◌, List, [], ◌∷◌, ◌++◌, Option, none, some, ◌≡◌, refl, sym, ap,
  ◌∙◌, arith, every, every-append, subst, Bool-cases, Option-cases, inl, inr, if◌then◌else◌,
}
use google_gtags.Prelude.Int.{ℤ, ◌=ℤ◌, =ℤ_iff}
use google_gtags.PollServer.{Pollable, Slot, last_index_of, overwrite, slot_of, pollable_at}

-- The pollable that is registered for a descriptor.
unfoldable pub find : ℤ → List Slot → Option ℕ
find g [] = none
find g (x ∷ xs) = let rest = find g xs in if x.fd =ℤ g then some x.pollable else rest

-- No place has this descriptor.
unfoldable pub is_free : ℤ → List Slot → Bool
is_free fd = every (λ y. not (y.fd =ℤ fd))

-- No descriptor has two places.
unfoldable pub is_table : List Slot → Bool
is_table [] = true
is_table (x ∷ xs) = is_free x.fd xs && is_table xs

pub none-is_free : (fd : ℤ) (xs : List Slot) → last_index_of fd xs ≡ none → is_free fd xs ≡ true
unfolding last_index_of is_free
none-is_free fd [] h = refl
none-is_free fd (x ∷ xs) h = elim (Option-cases (last_index_of fd xs)) [
  | inl e ↦ ground (arith, none-is_free fd xs e)
  | inr (i, e) ↦ absurd (ground arith)
]

pub last_index_of-none :
    (fd : ℤ) (xs : List Slot) → is_free fd xs ≡ true → last_index_of fd xs ≡ none
unfolding last_index_of is_free
last_index_of-none fd [] h = refl
last_index_of-none fd (x ∷ xs) h = rw (last_index_of-none fd xs (ground arith)) (ground arith)

pub find-none : (fd : ℤ) (xs : List Slot) → is_free fd xs ≡ true → find fd xs ≡ none
unfolding find is_free
find-none fd [] h = refl
find-none fd (x ∷ xs) h = ground (arith, find-none fd xs)

-- The last place of a descriptor.
pub data IsLast (fd : ℤ) : List Slot → ℕ → Type 0 where
  here :
      {x : Slot} {xs : List Slot}
      → (x.fd =ℤ fd) ≡ true
      → is_free fd xs ≡ true
      → IsLast fd (x ∷ xs) 0
  there : {x : Slot} {xs : List Slot} {i : ℕ} → IsLast fd xs i → IsLast fd (x ∷ xs) (suc i)

some_eq : {a b : ℕ} → some a ≡ some b → a ≡ b
some_eq e = ground arith

pub last_index_of-IsLast :
    (fd : ℤ) (xs : List Slot) (i : ℕ) → last_index_of fd xs ≡ some i → IsLast fd xs i
unfolding last_index_of
last_index_of-IsLast fd [] i h = absurd (ground arith)
last_index_of-IsLast fd (x ∷ xs) i h = elim (Option-cases (last_index_of fd xs)) [
  | inl e ↦ elim (Bool-cases (x.fd =ℤ fd)) [
    | inl k ↦ subst (IsLast fd (x ∷ xs)) (ground arith) (here k (none-is_free fd xs e))
    | inr k ↦ absurd (ground arith)
  ]
  | inr (j, e) ↦ subst (IsLast fd (x ∷ xs)) (ground arith) (there (last_index_of-IsLast fd xs j e))
]

not-free : {fd : ℤ} {xs : List Slot} {i : ℕ} → IsLast fd xs i → is_free fd xs ≡ false
unfolding is_free
not-free (here h k) = ground arith
not-free (there l) = ground (arith, not-free l)

pub table-tail : (x : Slot) (xs : List Slot) → is_table (x ∷ xs) ≡ true → is_table xs ≡ true
unfolding is_table
table-tail x xs t = ground arith

-- In a table, a descriptor that has a place further on is not the one of this place.
pub head-other :
    (x : Slot) (xs : List Slot) {fd : ℤ} {i : ℕ}
    → is_table (x ∷ xs) ≡ true
    → IsLast fd xs i
    → (x.fd =ℤ fd) ≡ false
unfolding is_table
head-other x xs {fd} t l = elim (Bool-cases (x.fd =ℤ fd)) [
  | inr e ↦ e
  | inl e ↦ absurd (ground (arith, not-free l, ap (λ y. is_free y xs) ((=ℤ_iff x.fd fd).0 e)))
]

pub find-IsLast :
    {fd : ℤ} {xs : List Slot} {i : ℕ}
    → is_table xs ≡ true
    → IsLast fd xs i
    → find fd xs ≡ pollable_at xs i
unfolding find pollable_at
find-IsLast t (here h k) = rw h
find-IsLast t (there {x} {xs} l) = rw (head-other x xs t l) (find-IsLast (table-tail x xs t) l)

pub is_free-overwrite :
    (g : ℤ) (p : Pollable) {xs : List Slot} {i : ℕ}
    → IsLast p.fd xs i
    → is_free g (overwrite xs i p) ≡ is_free g xs
unfolding is_free overwrite
is_free-overwrite g p (here {x} h k) = ground (arith, ap (λ y. y =ℤ g) ((=ℤ_iff x.fd p.fd).0 h))
is_free-overwrite g p (there l) = ground (arith, is_free-overwrite g p l)

pub is_table-overwrite :
    (p : Pollable) {xs : List Slot} {i : ℕ}
    → IsLast p.fd xs i
    → is_table (overwrite xs i p) ≡ is_table xs
unfolding is_table overwrite
is_table-overwrite p (here {x} {xs} h k) =
    ground (arith, ap (λ y. is_free y xs) ((=ℤ_iff x.fd p.fd).0 h))
is_table-overwrite p (there {x} l) =
    ground (arith, is_table-overwrite p l, is_free-overwrite x.fd p l)

-- Overwriting the place of a descriptor registers the new pollable for it.
pub find-overwrite :
    (g : ℤ) (p : Pollable) {xs : List Slot} {i : ℕ}
    → is_table xs ≡ true
    → IsLast p.fd xs i
    → find g (overwrite xs i p) ≡ (if p.fd =ℤ g then some p.addr else find g xs)
unfolding find overwrite
find-overwrite g p t (here {x} {xs} h k) = ground (arith, ap (λ y. y =ℤ g) ((=ℤ_iff x.fd p.fd).0 h))
find-overwrite g p t (there {x} {xs} l) =
    let other = head-other x xs t l in
    let both : (p.fd =ℤ g) ≡ true → (x.fd =ℤ g) ≡ false =
      λ e. ap (λ y. x.fd =ℤ y) (sym ((=ℤ_iff p.fd g).0 e)) ∙ other in
    ground (arith, find-overwrite g p (table-tail x xs t) l, both)

-- A new place at the end.
pub find-append :
    (g : ℤ) (p : Pollable) (xs : List Slot)
    → is_free p.fd xs ≡ true
    → find g (xs ++ slot_of p ∷ []) ≡ (if p.fd =ℤ g then some p.addr else find g xs)
unfolding find is_free
find-append g p [] h = refl
find-append g p (x ∷ xs) h =
    let both : (p.fd =ℤ g) ≡ true → (x.fd =ℤ g) ≡ false =
      λ e. ap (λ y. x.fd =ℤ y) (sym ((=ℤ_iff p.fd g).0 e)) ∙ ground arith in
    ground (arith, find-append g p xs, both)

pub is_table-append :
    (p : Pollable) (xs : List Slot)
    → is_free p.fd xs ≡ true
    → is_table xs ≡ true
    → is_table (xs ++ slot_of p ∷ []) ≡ true
unfolding is_table is_free
is_table-append p [] h t = refl
is_table-append p (x ∷ xs) h t =
    let new : (p.fd =ℤ x.fd) ≡ false = elim (Bool-cases (p.fd =ℤ x.fd)) [
      | inr e ↦ e
      | inl e ↦ absurd (ground (arith, (=ℤ_iff x.fd p.fd).1 (sym ((=ℤ_iff p.fd x.fd).0 e))))
    ] in
    ground (
      arith,
      is_table-append p xs (ground arith) (ground arith),
      every-append (λ y. not (y.fd =ℤ x.fd)) xs (slot_of p ∷ []),
      new,
    )
