-- ===== src/Prelude/Integers.antt =====
-- The integers over native numbers, for the signed coordinates of the code, and `i32`.
use Prim.Native.Nat.{ℕ, suc, ◌+◌, ◌-◌, ◌%◌, ◌^◌}
use mathlib.Core.Bool.{Bool, true, false, not}
use polymorph_os.Prelude.Tests.{ltb, if◌then◌else◌}

pub data ℤ : Type 0 where
  pos : ℕ → ℤ
  negsuc : ℕ → ℤ

-- `a - b` of two numbers.
abbrev pub difference : ℕ → ℕ → ℤ
difference a b = if ltb a b then negsuc (b - a - 1) else pos (a - b)

infixl 60 ◌+ℤ◌
abbrev pub ◌+ℤ◌ : ℤ → ℤ → ℤ
pos a +ℤ pos b = pos (a + b)
pos a +ℤ negsuc b = difference a (suc b)
negsuc a +ℤ pos b = difference b (suc a)
negsuc a +ℤ negsuc b = negsuc (a + b + 1)

abbrev pub ltℤ : ℤ → ℤ → Bool
ltℤ (pos a) (pos b) = ltb a b
ltℤ (pos a) (negsuc b) = false
ltℤ (negsuc a) (pos b) = true
ltℤ (negsuc a) (negsuc b) = ltb b a

abbrev pub leℤ : ℤ → ℤ → Bool
leℤ a b = not (ltℤ b a)

abbrev pub minℤ : ℤ → ℤ → ℤ
minℤ a b = if ltℤ b a then b else a

abbrev pub maxℤ : ℤ → ℤ → ℤ
maxℤ a b = if ltℤ b a then a else b

-- The low `w` bits of an integer, as an unsigned number and read as a signed one.
abbrev pub bits_of : ℕ → ℤ → ℕ
bits_of w (pos n) = n % 2 ^ w
bits_of w (negsuc n) = 2 ^ w - 1 - n % 2 ^ w

abbrev pub signed : ℕ → ℕ → ℤ
signed w u = if ltb u (2 ^ (w - 1)) then pos u else negsuc (2 ^ w - 1 - u)

abbrev pub as_i32 : ℤ → ℤ
as_i32 z = signed 32 (bits_of 32 z)

abbrev pub as_usize : ℤ → ℕ
as_usize z = bits_of 64 z
