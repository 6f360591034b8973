-- ===== src/Prelude/Dict.antt =====
-- `hash_map` and `hash_set` as lists of their elements, in the order of iteration, which is any.
use google_gtags.Prelude.Tests.{if◌then◌else◌, Bool-cases}
use google_gtags.Prelude.Lists.{Text, text_eq, text_eq_iff}
use google_gtags.Prelude.Int.{ℤ, ◌=ℤ◌, =ℤ_iff}
use mathlib.Core.Path.{◌≡◌, refl}
use mathlib.Core.Logic.{◌↔◌, ◌≢◌, inl, inr}
use mathlib.Core.Bool.{Bool, true, false}
use mathlib.Core.List.{List, [], ◌∷◌}
use mathlib.Core.Option.{Option, none, some}
use native.Mathlib.Omega.{arith}

-- The equality that a hash table is given for its keys.
pub record Key {ℓ} (K : Type ℓ) : Type ℓ where
  pub same_key : K → K → Bool
  pub same_key_iff : (a b : K) → (same_key a b ≡ true) ↔ (a ≡ b)

instance abbrev pub text_key : Key Text
text_key = record { same_key = text_eq; same_key_iff = text_eq_iff }

instance abbrev pub int_key : Key ℤ
int_key = record { same_key = ◌=ℤ◌; same_key_iff = =ℤ_iff }

module _ {ℓ} {K : Type ℓ} ⦃key : Key K⦄ where
  pub same_key_refl : (k : K) → key.same_key k k ≡ true
  same_key_refl k = (key.same_key_iff k k).1 refl

  pub different_key : (j k : K) → j ≢ k → key.same_key j k ≡ false
  different_key j k h = ground (arith, key.same_key_iff j k)

module _ {ℓ} {K V : Type ℓ} ⦃key : Key K⦄ where
  -- `m[k] = v`
  unfoldable pub put : K → V → List (K × V) → List (K × V)
  put k v [] = (k, v) ∷ []
  put k v ((j, w) ∷ m) = if key.same_key j k then (j, v) ∷ m else (j, w) ∷ put k v m

  -- `m.find(k)`
  unfoldable pub find : K → List (K × V) → Option V
  find k [] = none
  find k ((j, w) ∷ m) = if key.same_key j k then some w else find k m

  -- `m.erase(k)`
  unfoldable pub erase : K → List (K × V) → List (K × V)
  erase k [] = []
  erase k ((j, w) ∷ m) = if key.same_key j k then erase k m else (j, w) ∷ erase k m

  pub find-put :
      (q k : K) (v : V) (m : List (K × V))
      → find q (put k v m) ≡ (if key.same_key k q then some v else find q m)
  unfolding find put
  find-put q k v [] = refl
  find-put q k v ((j, w) ∷ m) =
      ground
        (arith, key.same_key_iff j k, key.same_key_iff j q, key.same_key_iff k q, find-put q k v m)

  pub find-erase :
      (q k : K) (m : List (K × V))
      → find q (erase k m) ≡ (if key.same_key k q then none else find q m)
  unfolding find erase
  find-erase q k [] = ground arith
  find-erase q k ((j, w) ∷ m) =
      ground
        (arith, key.same_key_iff j k, key.same_key_iff j q, key.same_key_iff k q, find-erase q k m)

  pub find-put_self : (k : K) (v : V) (m : List (K × V)) → find k (put k v m) ≡ some v
  find-put_self k v m = rw (find-put k k v m, same_key_refl k)

  -- No key stands twice.
  abbrev pub IsUnique : List (K × V) → Type ℓ
  IsUnique [] = Unit
  IsUnique ((k, v) ∷ m) = (find k m ≡ none) × IsUnique m

  pub put-IsUnique : (k : K) (v : V) (m : List (K × V)) → IsUnique m → IsUnique (put k v m)
  unfolding put find
  put-IsUnique k v [] u = (refl, tt)
  put-IsUnique k v ((j, w) ∷ m) u = elim (Bool-cases (key.same_key j k)) [
    | inl e ↦ rw e u
    | inr e ↦ rw e (
      ground (arith, find-put j k v m, key.same_key_iff j k, key.same_key_iff k j),
      put-IsUnique k v m u.1,
    )
  ]

  pub erase-IsUnique : (k : K) (m : List (K × V)) → IsUnique m → IsUnique (erase k m)
  unfolding erase find
  erase-IsUnique k [] u = tt
  erase-IsUnique k ((j, w) ∷ m) u = elim (Bool-cases (key.same_key j k)) [
    | inl e ↦ rw e (erase-IsUnique k m u.1)
    | inr e ↦ rw e (ground (arith, find-erase j k m), erase-IsUnique k m u.1)
  ]
