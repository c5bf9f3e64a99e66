-- ===== src/Base/Integers.antt =====
-- Integers over the native numbers.
use Prim.Native.Nat.{ℕ, zero, suc, ◌+◌, ◌-◌}
use mathlib.Core.Path.{◌≡◌, refl}
use native.Mathlib.Omega.{arith}
use evo_platform.Base.Equality.{if◌then◌else◌}
use evo_platform.Base.Tests.{ltb}

-- `pos n` is `n`, `negsuc n` is `- (n + 1)`.
pub data ℤ : Type 0 where
  pos : ℕ → ℤ
  negsuc : ℕ → ℤ

-- The difference of two natural numbers.
abbrev pub diff : ℕ → ℕ → ℤ
diff a b = if ltb a b then ℤ.negsuc (b - suc a) else ℤ.pos (a - b)

abbrev pub neg : ℤ → ℤ
neg (ℤ.pos zero) = ℤ.pos zero
neg (ℤ.pos (suc n)) = ℤ.negsuc n
neg (ℤ.negsuc n) = ℤ.pos (suc n)

infixl 6 ◌+ℤ◌ ◌-ℤ◌
abbrev pub ◌+ℤ◌ : ℤ → ℤ → ℤ
ℤ.pos a +ℤ ℤ.pos b = ℤ.pos (a + b)
ℤ.pos a +ℤ ℤ.negsuc b = diff a (suc b)
ℤ.negsuc a +ℤ ℤ.pos b = diff b (suc a)
ℤ.negsuc a +ℤ ℤ.negsuc b = ℤ.negsuc (suc (a + b))

abbrev pub ◌-ℤ◌ : ℤ → ℤ → ℤ
a -ℤ b = a +ℤ neg b

pub sub_from_zero : (b : ℤ) → ℤ.pos 0 -ℤ b ≡ neg b
sub_from_zero (ℤ.pos zero) = refl
sub_from_zero (ℤ.pos (suc n)) = ground arith
sub_from_zero (ℤ.negsuc n) = ground arith
