-- ===== src/Prelude/Words32.antt =====
-- The arithmetic of `i32` in a release build, which wraps; a division by zero, and the one of the least
-- number by -1, panics.
use Prim.Native.Nat.{ℕ, zero, suc, ◌+◌, ◌*◌, ◌/◌, ◌^◌, ◌-◌, ◌<◌}
use mathlib.Core.Path.{◌≡◌}
use mathlib.Core.Bool.{Bool, false}
use native.Mathlib.Omega.{arith}
use polymorph_os.Prelude.Tests.{◌==◌, if◌then◌else◌}
use polymorph_os.Prelude.Outcomes.{Run, done, panic}
use polymorph_os.Prelude.Integers.{ℤ, pos, negsuc, ◌+ℤ◌, as_i32}

-- Minus a number.
abbrev pub minus : ℕ → ℤ
minus zero = pos 0
minus (suc n) = negsuc n

abbrev pub negate : ℤ → ℤ
negate (pos n) = minus n
negate (negsuc n) = pos (suc n)

infixl 70 ◌*ℤ◌
abbrev pub ◌*ℤ◌ : ℤ → ℤ → ℤ
pos a *ℤ pos b = pos (a * b)
pos a *ℤ negsuc b = minus (a * suc b)
negsuc a *ℤ pos b = minus (suc a * b)
negsuc a *ℤ negsuc b = pos (suc a * suc b)

abbrev pub eqℤ : ℤ → ℤ → Bool
eqℤ (pos a) (pos b) = a == b
eqℤ (pos a) (negsuc b) = false
eqℤ (negsuc a) (pos b) = false
eqℤ (negsuc a) (negsuc b) = a == b

unfoldable pub add_i32 : ℤ → ℤ → ℤ
add_i32 a b = as_i32 (a +ℤ b)

unfoldable pub sub_i32 : ℤ → ℤ → ℤ
sub_i32 a b = as_i32 (a +ℤ negate b)

unfoldable pub mul_i32 : ℤ → ℤ → ℤ
mul_i32 a b = as_i32 (a *ℤ b)

-- `a.abs()`
unfoldable pub abs_i32 : ℤ → ℤ
abs_i32 (pos n) = pos n
abs_i32 (negsuc n) = as_i32 (pos (suc n))

-- The quotient by a positive number, rounded towards zero.
unfoldable pub quotient : ℤ → ℕ → ℤ
quotient (pos a) d = pos (a / d)
quotient (negsuc a) d = minus (suc a / d)

-- `a / b`
unfoldable pub div_i32 {ℓ} : {E : Type ℓ} → ℤ → ℤ → Run E ℤ
div_i32 a (pos zero) = panic
div_i32 a (pos (suc d)) = done (quotient a (suc d))
div_i32 a (negsuc zero) = if eqℤ a (negsuc (2 ^ 31 - 1)) then panic else done (negate a)
div_i32 a (negsuc (suc d)) = done (negate (quotient a (suc (suc d))))

-- `a / d` for a positive constant `d`.
abbrev pub half : ℤ → ℤ
half a = quotient a 2

pub add_i32-small : (a b : ℕ) → a + b < 2 ^ 31 → add_i32 (pos a) (pos b) ≡ pos (a + b)
unfolding add_i32
add_i32-small a b h = ground arith
