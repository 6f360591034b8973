-- ===== src/Prelude/Lists.antt =====
-- Lists measured and indexed by native numbers, and texts as lists of bytes.
use Prim.Native.Nat.{ℕ, zero, suc, ◌+◌}
use Prim.Native.Char.{code}
use Prim.Native.String.{String}
use mathlib.Core.Path.{◌≡◌, refl, sym}
use mathlib.Core.Logic.{◌↔◌}
use mathlib.Core.Bool.{Bool, true, false, not, ◌&&◌, ◌||◌}
use mathlib.Core.List.{List, [], ◌∷◌, ◌++◌}
use mathlib.Core.Option.{Option, none, some}
use native.Mathlib.Omega.{arith}
use google_gtags.Prelude.Tests.{◌==◌, if◌then◌else◌}

module _ {ℓ} {A : Type ℓ} where
  abbrev pub length : List A → ℕ
  length [] = 0
  length (x ∷ xs) = suc (length xs)

  abbrev pub get_elem? : List A → ℕ → Option A
  get_elem? [] i = none
  get_elem? (x ∷ xs) zero = some x
  get_elem? (x ∷ xs) (suc i) = get_elem? xs i

  abbrev pub get_or : List A → ℕ → A → A
  get_or [] i d = d
  get_or (x ∷ xs) zero d = x
  get_or (x ∷ xs) (suc i) d = get_or xs i d

  pub length-append : (xs ys : List A) → length (xs ++ ys) ≡ length xs + length ys
  length-append [] ys = omega arith
  length-append (x ∷ xs) ys = omega (arith, length-append xs ys)

-- A C++ `string`, or what follows a `const char*` up to its terminator.
abbrev pub Text : Type 0
Text = List ℕ

-- The code points of a literal: its bytes, since every literal here is ASCII.
abbrev pub codes : String → Text
codes String.[] = []
codes (String.◌∷◌ c s) = code c ∷ codes s

-- `==` of two strings, and `strcmp(...) == 0`.
unfoldable pub text_eq : Text → Text → Bool
text_eq [] [] = true
text_eq (x ∷ xs) (y ∷ ys) = x == y && text_eq xs ys
text_eq _ _ = false

pub text_eq_iff : (a b : Text) → (text_eq a b ≡ true) ↔ (a ≡ b)
unfolding text_eq
text_eq_iff (x ∷ a) (y ∷ b) = ground (arith, text_eq_iff a b)
text_eq_iff _ _ = ground arith

-- Every element passes a test.
abbrev pub every {ℓ} : {A : Type ℓ} → (A → Bool) → List A → Bool
every p [] = true
every p (x ∷ xs) = p x && every p xs

pub every-append {ℓ} :
    {A : Type ℓ} (p : A → Bool) (xs ys : List A) → every p (xs ++ ys) ≡ (every p xs && every p ys)
every-append p [] ys = refl
every-append p (x ∷ xs) ys = ground (arith, every-append p xs ys)

pub every_mono {ℓ} :
    {A : Type ℓ} {p q : A → Bool}
    → ((x : A) → p x ≡ true → q x ≡ true)
    → (xs : List A) → every p xs ≡ true
    → every q xs ≡ true
every_mono imp [] h = refl
every_mono {p} {q} imp (x ∷ xs) h =
    let hx : p x ≡ true = ground arith in
    let hs : every p xs ≡ true = ground arith in
    ground (arith, imp x hx, every_mono {p = p} {q = q} imp xs hs)

pub every_of_append {ℓ} :
    {A : Type ℓ} (p : A → Bool) (xs ys : List A)
    → every p xs ≡ true
    → every p ys ≡ true
    → every p (xs ++ ys) ≡ true
every_of_append p xs ys h k = ground (arith, every-append p xs ys)

-- The elements that pass a test.
unfoldable pub keep {ℓ} : {A : Type ℓ} → (A → Bool) → List A → List A
keep p [] = []
keep p (x ∷ xs) = let rest = keep p xs in if p x then x ∷ rest else rest

-- Some element passes a test.
unfoldable pub some_of {ℓ} : {A : Type ℓ} → (A → Bool) → List A → Bool
some_of p [] = false
some_of p (x ∷ xs) = p x || some_of p xs

module _ {ℓ} {A : Type ℓ} where
  abbrev pub take : ℕ → List A → List A
  take zero xs = []
  take (suc n) [] = []
  take (suc n) (x ∷ xs) = x ∷ take n xs

  abbrev pub drop : ℕ → List A → List A
  drop zero xs = xs
  drop (suc n) [] = []
  drop (suc n) (x ∷ xs) = drop n xs

-- What holds of every element holds of every element that is kept, and the test too.
pub every-keep {ℓ} :
    {A : Type ℓ} {p q r : A → Bool}
    → ((x : A) → p x ≡ true → q x ≡ true → r x ≡ true)
    → (xs : List A) → every p xs ≡ true
    → every r (keep q xs) ≡ true
unfolding keep
every-keep imp [] h = refl
every-keep {p} {q} {r} imp (x ∷ xs) h =
    let hx : p x ≡ true = ground arith in
    let hs : every p xs ≡ true = ground arith in
    ground (arith, imp x hx, every-keep {p = p} {q = q} {r = r} imp xs hs)

pub every_all {ℓ} :
    {A : Type ℓ} {p : A → Bool} → ((x : A) → p x ≡ true) → (xs : List A) → every p xs ≡ true
every_all h [] = refl
every_all {p} h (x ∷ xs) = ground (arith, h x, every_all {p = p} h xs)

-- Both tests give the same.
abbrev pub same : Bool → Bool → Bool
same true b = b
same false true = false
same false false = true

pub same_eq : (a b : Bool) → same a b ≡ true → a ≡ b
same_eq true true h = refl
same_eq true false h = sym h
same_eq false true h = h
same_eq false false h = refl

pub keep_cong {ℓ} :
    {A : Type ℓ} (p q : A → Bool) (xs : List A)
    → every (λ x. same (p x) (q x)) xs ≡ true
    → keep p xs ≡ keep q xs
unfolding keep
keep_cong p q [] h = refl
keep_cong p q (x ∷ xs) h =
    ground (arith, same_eq (p x) (q x) (ground arith), keep_cong p q xs (ground arith))

pub keep-every {ℓ} : {A : Type ℓ} (p : A → Bool) (xs : List A) → every p xs ≡ true → keep p xs ≡ xs
unfolding keep
keep-every p [] h = refl
keep-every p (x ∷ xs) h = ground (arith, keep-every p xs (ground arith))

pub keep-keep {ℓ} :
    {A : Type ℓ} (p q : A → Bool) (xs : List A) → keep p (keep q xs) ≡ keep (λ x. p x && q x) xs
unfolding keep
keep-keep p q [] = refl
keep-keep p q (x ∷ xs) = ground (arith, keep-keep p q xs)

pub some_of-append {ℓ} :
    {A : Type ℓ} (p : A → Bool) (xs ys : List A)
    → some_of p (xs ++ ys) ≡ (some_of p xs || some_of p ys)
unfolding some_of
some_of-append p [] ys = refl
some_of-append p (x ∷ xs) ys = ground (arith, some_of-append p xs ys)

-- No element passes a test that every element fails.
pub none_of_every {ℓ} :
    {A : Type ℓ} (p : A → Bool) (xs : List A)
    → every (λ x. not (p x)) xs ≡ true
    → some_of p xs ≡ false
unfolding some_of
none_of_every p [] h = refl
none_of_every p (x ∷ xs) h = ground (arith, none_of_every p xs (ground arith))

pub every_and {ℓ} :
    {A : Type ℓ} (p q : A → Bool) (xs : List A)
    → every p xs ≡ true
    → every q xs ≡ true
    → every (λ x. p x && q x) xs ≡ true
every_and p q [] h k = refl
every_and p q (x ∷ xs) h k = ground (arith, every_and p q xs (ground arith) (ground arith))

pub every_of_none {ℓ} :
    {A : Type ℓ} (p : A → Bool) (xs : List A)
    → some_of p xs ≡ false
    → every (λ x. not (p x)) xs ≡ true
unfolding some_of
every_of_none p [] h = refl
every_of_none p (x ∷ xs) h = ground (arith, every_of_none p xs (ground arith))
