-- ===== src/PollServer/Vacate.antt =====
-- pollserver.cc: moving the last place into a vacated one removes just the descriptor that was there.
use google_gtags.Prelude.{
  ℕ, suc, true, false, List, [], ◌∷◌, none, some, ◌≡◌, refl, sym, ap, ◌∙◌, arith, Bool-cases, inl,
  inr, if◌then◌else◌,
}
use google_gtags.Prelude.Int.{ℤ, ◌=ℤ◌, =ℤ_iff}
use google_gtags.PollServer.{Slot, set_slot, cleared_last, drop_last}
use google_gtags.PollServer.Slots.{
  find, is_free, is_table, IsLast, here, there, find-none, table-tail, head-other,
}

abbrev cleared : Slot → Slot
cleared x = record x { can_read = false; can_write = false }

-- All places but the last, and the last with no events.
pub data IsSplit : List Slot → List Slot → Slot → Type 0 where
  one : {x : Slot} → IsSplit (x ∷ []) [] (cleared x)
  more : {x : Slot} {xs zs : List Slot} {l : Slot} → IsSplit xs zs l → IsSplit (x ∷ xs) (x ∷ zs) l

pub cleared_last-IsSplit :
    (x : Slot) (xs : List Slot)
    → (l : Slot) × (cleared_last (x ∷ xs) ≡ some l) × IsSplit (x ∷ xs) (drop_last (x ∷ xs)) l
unfolding cleared_last drop_last
cleared_last-IsSplit x [] = (cleared x, refl, one)
cleared_last-IsSplit x (y ∷ ys) = let r = cleared_last-IsSplit y ys in (r.0, r.1, more r.2)

last-not-free :
    (g : ℤ) {xs zs : List Slot} {l : Slot}
    → IsSplit xs zs l
    → is_free g xs ≡ true
    → (l.fd =ℤ g) ≡ false
unfolding is_free
last-not-free g one h = ground arith
last-not-free g (more sp) h = last-not-free g sp (ground arith)

init-is_free :
    (g : ℤ) {xs zs : List Slot} {l : Slot}
    → IsSplit xs zs l
    → is_free g xs ≡ true
    → is_free g zs ≡ true
unfolding is_free
init-is_free g one h = refl
init-is_free g (more sp) h = ground (arith, init-is_free g sp (ground arith))

init-is_table :
    {xs zs : List Slot} {l : Slot} → IsSplit xs zs l → is_table xs ≡ true → is_table zs ≡ true
unfolding is_table
init-is_table one h = refl
init-is_table (more {x} sp) h =
    ground (arith, init-is_free x.fd sp (ground arith), init-is_table sp (ground arith))

flip-false : (a b : ℤ) → (a =ℤ b) ≡ false → (b =ℤ a) ≡ false
flip-false a b h = elim (Bool-cases (b =ℤ a)) [
  | inr e ↦ e
  | inl e ↦ absurd (ground (arith, (=ℤ_iff a b).1 (sym ((=ℤ_iff b a).0 e))))
]

init-without-last :
    {xs zs : List Slot} {l : Slot} → IsSplit xs zs l → is_table xs ≡ true → is_free l.fd zs ≡ true
unfolding is_table is_free
init-without-last one h = refl
init-without-last (more {x} {xs} {zs} {l} sp) h = ground (
  arith,
  init-without-last sp (ground arith),
  flip-false l.fd x.fd (last-not-free x.fd sp (unfold is_free in ground arith)),
)

-- The last place may as well be the first.
find-rotated :
    (g : ℤ) {xs zs : List Slot} {l : Slot}
    → is_table xs ≡ true
    → IsSplit xs zs l
    → find g (l ∷ zs) ≡ find g xs
unfolding find
find-rotated g t one = refl
find-rotated g t (more {x} {xs} {zs} {l} sp) =
    let apart : (x.fd =ℤ g) ≡ true → (l.fd =ℤ g) ≡ false = λ e.
      ap (λ y. l.fd =ℤ y) (sym ((=ℤ_iff x.fd g).0 e))
      ∙ last-not-free x.fd sp (unfold is_table in ground arith) in
    ground (arith, find-rotated g (table-tail x xs t) sp, apart)

drop_last-set_slot :
    (x l : Slot) {fd : ℤ} {xs : List Slot} {i : ℕ}
    → IsLast fd xs i
    → drop_last (set_slot (x ∷ xs) (suc i) l) ≡ x ∷ drop_last (set_slot xs i l)
unfolding drop_last set_slot
drop_last-set_slot x l (here h k) = refl
drop_last-set_slot x l (there r) = refl

split-drop_last : {xs zs : List Slot} {l : Slot} → IsSplit xs zs l → drop_last xs ≡ zs
unfolding drop_last
split-drop_last one = refl
split-drop_last (more one) = refl
split-drop_last (more {x} (more sp)) = ap (λ l. x ∷ l) (split-drop_last (more sp))

-- The first place is vacated.
first-vacated :
    (x : Slot) {xs zs : List Slot} {l : Slot}
    → IsSplit xs zs l
    → drop_last (set_slot (x ∷ xs) 0 l) ≡ l ∷ zs
unfolding set_slot
first-vacated x {l} sp = split-drop_last (more {x = l} sp)

only-vacated : (x l : Slot) → drop_last (set_slot (x ∷ []) 0 l) ≡ []
unfolding set_slot drop_last
only-vacated x l = refl

pub is_free-vacated :
    (g : ℤ) {fd : ℤ} {xs zs : List Slot} {i : ℕ} {l : Slot}
    → IsLast fd xs i
    → IsSplit xs zs l
    → is_free g xs ≡ true
    → is_free g (drop_last (set_slot xs i l)) ≡ true
unfolding is_free
is_free-vacated g (here {x} h k) one f = ap (is_free g) (only-vacated x _)
is_free-vacated g (here {x} {xs} h k) (more {zs} {l} sp) f =
    ap (is_free g) (first-vacated x sp)
    ∙ ground (arith, last-not-free g sp (ground arith), init-is_free g sp (ground arith))
is_free-vacated g (there {x} r) one f = elim r [ ]
is_free-vacated g (there {x} {xs} {i} r) (more {l} sp) f =
    ap (is_free g) (drop_last-set_slot x l r)
    ∙ ground (arith, is_free-vacated g r sp (ground arith))

pub is_table-vacated :
    {fd : ℤ} {xs zs : List Slot} {i : ℕ} {l : Slot}
    → IsLast fd xs i
    → IsSplit xs zs l
    → is_table xs ≡ true
    → is_table (drop_last (set_slot xs i l)) ≡ true
unfolding is_table
is_table-vacated (here {x} h k) one t = ap is_table (only-vacated x _)
is_table-vacated (here {x} {xs} h k) (more {zs} {l} sp) t =
    ap is_table (first-vacated x sp)
    ∙ ground (arith, init-without-last sp (table-tail x xs t), init-is_table sp (table-tail x xs t))
is_table-vacated (there {x} r) one t = elim r [ ]
is_table-vacated (there {x} {xs} {i} r) (more {l} sp) t =
    ap is_table (drop_last-set_slot x l r)
    ∙ ground
        (arith, is_table-vacated r sp (table-tail x xs t), is_free-vacated x.fd r sp (ground arith))

-- The descriptor of the place is gone, and all others are where they were found.
pub find-vacated :
    (g : ℤ) {fd : ℤ} {xs zs : List Slot} {i : ℕ} {l : Slot}
    → IsLast fd xs i
    → IsSplit xs zs l
    → is_table xs ≡ true
    → find g (drop_last (set_slot xs i l)) ≡ (if fd =ℤ g then none else find g xs)
unfolding find
find-vacated g {fd} (here {x} h k) one t =
    ap (find g) (only-vacated x _) ∙ ground (arith, ap (λ y. y =ℤ g) ((=ℤ_iff x.fd fd).0 h))
find-vacated g {fd} (here {x} {xs} h k) (more {zs} {l} sp) t =
    let gone : (fd =ℤ g) ≡ true → find g xs ≡ none =
      λ e. find-none g xs (ap (λ y. is_free y xs) (sym ((=ℤ_iff fd g).0 e)) ∙ k) in
    ap (find g) (first-vacated x sp)
    ∙ find-rotated g (table-tail x xs t) sp
    ∙ ground (arith, gone, ap (λ y. y =ℤ g) ((=ℤ_iff x.fd fd).0 h))
find-vacated g (there {x} r) one t = elim r [ ]
find-vacated g {fd} (there {x} {xs} {i} r) (more {l} sp) t =
    let other : (fd =ℤ g) ≡ true → (x.fd =ℤ g) ≡ false =
      λ e. ap (λ y. x.fd =ℤ y) (sym ((=ℤ_iff fd g).0 e)) ∙ head-other x xs t r in
    ap (find g) (drop_last-set_slot x l r)
    ∙ ground (arith, find-vacated g r sp (table-tail x xs t), other)
