-- ===== src/Prelude/Result.antt =====
-- What a call does that may fail a CHECK (the process exits) or leave the defined behaviour of C++.
use mathlib.Core.Path.{◌≡◌, refl, subst}
use mathlib.Core.Logic.{◌≢◌}
use mathlib.Core.Bool.{Bool, true, false}
use google_gtags.Prelude.Tests.{if◌then◌else◌}

pub data Result {ℓ} (A : Type ℓ) : Type ℓ where
  ok : A → Result A
  -- A CHECK that fails, or LOG(FATAL): the process ends.
  fatal : Result A
  -- Undefined behaviour, such as a read past the end of a buffer.
  undefined : Result A
  -- The model's own answer where its fuel does not suffice.
  out_of_fuel : Result A

infixl 5 ◌>>=◌ ◌>>◌
abbrev pub ◌>>=◌ {ℓ κ} : {A : Type ℓ} {B : Type κ} → Result A → (A → Result B) → Result B
ok a >>= f = f a
fatal >>= f = fatal
undefined >>= f = undefined
out_of_fuel >>= f = out_of_fuel

abbrev pub ◌>>◌ {ℓ} : {B : Type ℓ} → Result (Unit {0}) → Result B → Result B
m >> k = m >>= λ _. k

-- A call does not run out of fuel, and what it gives back, if it gives anything back, has a property.
abbrev pub Holds {ℓ} : {A : Type ℓ} → (A → Type 0) → Result A → Type 0
Holds P (ok a) = P a
Holds P fatal = Unit
Holds P undefined = Unit
Holds P out_of_fuel = ⊥

-- A call does not run out of fuel.
abbrev pub Stops {ℓ} : {A : Type ℓ} → Result A → Type 0
Stops r = Holds (λ a. Unit) r

pub Holds-bind {ℓ κ} :
    {A : Type ℓ} {B : Type κ} (P : A → Type 0) (Q : B → Type 0) (r : Result A) (f : A → Result B)
    → Holds P r
    → ((a : A) → P a → Holds Q (f a))
    → Holds Q (r >>= f)
Holds-bind P Q (ok a) f h k = k a h
Holds-bind P Q fatal f h k = tt
Holds-bind P Q undefined f h k = tt
Holds-bind P Q out_of_fuel f h k = absurd h

-- The same, with what the first call gave.
pub Holds-bind_eq {ℓ κ} :
    {A : Type ℓ} {B : Type κ} (P : A → Type 0) (Q : B → Type 0) (r : Result A) (f : A → Result B)
    → Holds P r
    → ((a : A) → r ≡ ok a → P a → Holds Q (f a))
    → Holds Q (r >>= f)
Holds-bind_eq P Q (ok a) f h k = k a refl h
Holds-bind_eq P Q fatal f h k = tt
Holds-bind_eq P Q undefined f h k = tt
Holds-bind_eq P Q out_of_fuel f h k = absurd h

-- The same where nothing more is known of the first result.
pub Holds-any {ℓ κ} :
    {A : Type ℓ} {B : Type κ} (Q : B → Type 0) (r : Result A) (f : A → Result B)
    → Stops r
    → ((a : A) → Holds Q (f a))
    → Holds Q (r >>= f)
Holds-any Q r f h k = Holds-bind (λ a. Unit) Q r f h (λ a u. k a)

-- Both branches of a conditional keep a property.
pub Holds-if {ℓ} :
    {A : Type ℓ} (P : A → Type 0) (b : Bool) (x y : Result A)
    → Holds P x
    → Holds P y
    → Holds P (if b then x else y)
Holds-if P true x y h k = h
Holds-if P false x y h k = k

pub Stops-of {ℓ} : {A : Type ℓ} (P : A → Type 0) (r : Result A) → Holds P r → Stops r
Stops-of P (ok a) h = tt
Stops-of P fatal h = tt
Stops-of P undefined h = tt
Stops-of P out_of_fuel h = h

pub Stops-ends {ℓ} : {A : Type ℓ} (r : Result A) → Stops r → r ≢ out_of_fuel
Stops-ends (ok a) h e = cc
Stops-ends fatal h e = cc
Stops-ends undefined h e = cc
Stops-ends out_of_fuel h e = h

pub Holds-ok {ℓ} : {A : Type ℓ} (P : A → Type 0) (r : Result A) {a : A} → Holds P r → r ≡ ok a → P a
Holds-ok P r h e = subst (Holds P) e h

pub Holds-mono {ℓ} :
    {A : Type ℓ} (P Q : A → Type 0) → ((a : A) → P a → Q a) → (r : Result A) → Holds P r → Holds Q r
Holds-mono P Q f (ok a) h = f a h
Holds-mono P Q f fatal h = tt
Holds-mono P Q f undefined h = tt
Holds-mono P Q f out_of_fuel h = h

-- Two continuations that agree give the same.
pub bind_cong {ℓ κ} :
    {A : Type ℓ} {B : Type κ} (r : Result A) (f g : A → Result B)
    → ((a : A) → f a ≡ g a)
    → (r >>= f) ≡ (r >>= g)
bind_cong (ok a) f g h = h a
bind_cong fatal f g h = refl
bind_cong undefined f g h = refl
bind_cong out_of_fuel f g h = refl

pub bind_assoc {ℓ κ ι} :
    {A : Type ℓ} {B : Type κ} {C : Type ι} (r : Result A) (f : A → Result B) (g : B → Result C)
    → ((r >>= f) >>= g) ≡ (r >>= λ a. f a >>= g)
bind_assoc (ok a) f g = refl
bind_assoc fatal f g = refl
bind_assoc undefined f g = refl
bind_assoc out_of_fuel f g = refl
