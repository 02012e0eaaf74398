-- ===== src/Prelude/ByteStrings.antt =====
-- Byte strings as lists of numbers: slices with the source language's bounds check, equality, and
-- little-endian words.
use Prim.Native.Nat.{ℕ, suc, ◌+◌, ◌-◌, ◌*◌, ◌/◌, ◌%◌, ◌^◌, ◌<◌}
use mathlib.Core.Path.{◌≡◌, refl, ap}
use mathlib.Core.Logic.{◌↔◌}
use mathlib.Core.Bool.{Bool, true, false, ◌&&◌}
use mathlib.Core.List.{List, [], ◌∷◌, ◌++◌}
use native.Mathlib.Omega.{arith}
use polymorph_os.Prelude.Tests.{◌==◌, leb, if◌then◌else◌}
use polymorph_os.Prelude.Lists.{length, take, drop, get_elem?}
use polymorph_os.Prelude.Outcomes.{Run, done, panic}

abbrev pub Bytes : Type 0
Bytes = List ℕ

-- `&xs[lo..hi]`
abbrev pub slice {ℓ} : {E : Type 0} {A : Type ℓ} → List A → ℕ → ℕ → Run E (List A)
slice xs lo hi =
    if leb lo hi && leb hi (length xs) then done (take (hi - lo) (drop lo xs)) else panic

unfoldable pub bytes_eq : Bytes → Bytes → Bool
bytes_eq [] [] = true
bytes_eq [] (y ∷ ys) = false
bytes_eq (x ∷ xs) [] = false
bytes_eq (x ∷ xs) (y ∷ ys) = x == y && bytes_eq xs ys

pub bytes_eq_iff : (xs ys : Bytes) → (bytes_eq xs ys ≡ true) ↔ (xs ≡ ys)
unfolding bytes_eq
bytes_eq_iff [] [] = (λ _. refl, λ _. refl)
bytes_eq_iff [] (y ∷ ys) = (λ e. cc, λ e. cc)
bytes_eq_iff (x ∷ xs) [] = (λ e. cc, λ e. cc)
bytes_eq_iff (x ∷ xs) (y ∷ ys) =
    (λ e. ground (arith, (bytes_eq_iff xs ys).0), λ e. ground (arith, (bytes_eq_iff xs ys).1))

pub bytes_eq_refl : (xs : Bytes) → bytes_eq xs xs ≡ true
bytes_eq_refl xs = (bytes_eq_iff xs xs).1 refl

-- `u32::to_le_bytes`
unfoldable pub to_le_bytes : ℕ → Bytes
to_le_bytes w = w % 256 ∷ w / 256 % 256 ∷ w / 65536 % 256 ∷ w / 16777216 % 256 ∷ []

-- `u32::from_le_bytes`, of four bytes
unfoldable pub from_le_bytes : Bytes → ℕ
from_le_bytes [] = 0
from_le_bytes (b ∷ bs) = b + 256 * from_le_bytes bs

pub from_le_bytes-to_le_bytes : (w : ℕ) → w < 2 ^ 32 → from_le_bytes (to_le_bytes w) ≡ w
unfolding from_le_bytes to_le_bytes
from_le_bytes-to_le_bytes w h = omega arith

-- Reading past a prefix.
module _ {ℓ} {A : Type ℓ} where
  pub get_elem?-append :
      (pre xs : List A) (i : ℕ) → get_elem? (pre ++ xs) (length pre + i) ≡ get_elem? xs i
  get_elem?-append [] xs i = ap (get_elem? xs) (omega arith)
  get_elem?-append (p ∷ pre) xs i =
      let e : suc (length pre) + i ≡ suc (length pre + i) = omega arith in
      rw e (get_elem?-append pre xs i)

  pub drop-append : (pre xs : List A) (i : ℕ) → drop (length pre + i) (pre ++ xs) ≡ drop i xs
  drop-append [] xs i = ap (λ k. drop k xs) (omega arith)
  drop-append (p ∷ pre) xs i =
      let e : suc (length pre) + i ≡ suc (length pre + i) = omega arith in
      rw e (drop-append pre xs i)

  pub take-append : (xs ys : List A) → take (length xs) (xs ++ ys) ≡ xs
  take-append [] ys = refl
  take-append (x ∷ xs) ys = ap (λ l. x ∷ l) (take-append xs ys)
