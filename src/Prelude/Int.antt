-- ===== src/Prelude/Int.antt =====
-- Signed integers over the native numbers, and the range of a 32-bit `int`.
use google_gtags.Prelude.Tests.{ltb, ◌==◌}
use mathlib.Core.Path.{◌≡◌}
use mathlib.Core.Logic.{◌↔◌}
use native.Mathlib.Omega.{arith}
use Prim.Native.Nat.{ℕ, ◌^◌}
use mathlib.Core.Bool.{Bool, true, false}

-- `negsuc n` is -(n + 1).
pub data ℤ : Type 0 where
  pos : ℕ → ℤ
  negsuc : ℕ → ℤ

-- The value fits an `int`.
abbrev pub is_int32 : ℤ → Bool
is_int32 (pos n) = ltb n (2 ^ 31)
is_int32 (negsuc n) = ltb n (2 ^ 31)

infix 50 ◌=ℤ◌
abbrev pub ◌=ℤ◌ : ℤ → ℤ → Bool
pos a =ℤ pos b = a == b
negsuc a =ℤ negsuc b = a == b
_ =ℤ _ = false

pub =ℤ_iff : (a b : ℤ) → ((a =ℤ b) ≡ true) ↔ (a ≡ b)
=ℤ_iff (pos a) (pos b) = ground arith
=ℤ_iff (negsuc a) (negsuc b) = ground arith
=ℤ_iff (pos a) (negsuc b) = ground arith
=ℤ_iff (negsuc a) (pos b) = ground arith
