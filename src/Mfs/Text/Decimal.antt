-- ===== src/Mfs/Text/Decimal.antt =====
-- The decimal print of a u64 is digits, and `parse::<u64>` reads it back.
use polymorph_os.Prelude.{
  ℕ, zero, suc, ◌+◌, ◌*◌, ◌/◌, ◌%◌, ◌≤◌, ◌<◌, ◌≡◌, ◌≢◌, true, inl, inr, ◌⊎◌, refl, ap, length, some,
  [], ◌∷◌, ◌∙◌,
}
use polymorph_os.Prelude.{arith, ltb, Bytes, Bool-cases}
use polymorph_os.Mfs.Text.{max_u64, digits_onto, parse_u64}
use polymorph_os.Mfs.Text.{print_onto, print_u64}
use polymorph_os.Mfs.Text.Split.{Lacks}

abbrev ten_to : ℕ → ℕ
ten_to zero = 1
ten_to (suc n) = 10 * ten_to n

abbrev pub AreDigits : Bytes → Type 0
AreDigits [] = Unit
AreDigits (c ∷ s) = ((b'0' ≤ c) × (c ≤ b'9')) × AreDigits s

digit_read :
    (n : ℕ) (out : Bytes)
    → n ≤ max_u64
    → digits_onto ((b'0' + n % 10) ∷ out) (n / 10) ≡ digits_onto out n
unfolding digits_onto
digit_read n out h = ground arith

digits_onto-print_onto :
    (fuel n : ℕ) (out : Bytes)
    → n < ten_to fuel
    → n ≤ max_u64
    → digits_onto (print_onto fuel n out) 0 ≡ digits_onto out n
unfolding print_onto
digits_onto-print_onto zero n out short fits = let e : n ≡ 0 = omega arith in rw e
digits_onto-print_onto (suc fuel) n out short fits = elim (Bool-cases (ltb n 10)) [
  | inl y ↦ rw y (last y)
  | inr m ↦ rw m (
      digits_onto-print_onto fuel (n / 10) ((b'0' + n % 10) ∷ out) (omega arith) (omega arith)
      ∙ digit_read n out fits)
]
  where
    last : ltb n 10 ≡ true → digits_onto ((b'0' + n) ∷ out) 0 ≡ digits_onto out n
    last y =
        let a : n % 10 ≡ n = ground arith in
        let b : n / 10 ≡ 0 = ground arith in rw (a, b) at (digit_read n out fits)

print_onto-AreDigits :
    (fuel n : ℕ) (out : Bytes) → AreDigits out → AreDigits (print_onto fuel n out)
unfolding print_onto
print_onto-AreDigits zero n out h = h
print_onto-AreDigits (suc fuel) n out h = elim (Bool-cases (ltb n 10)) [
  | inl y ↦ rw y ((omega arith, ground arith), h)
  | inr m ↦ rw m (print_onto-AreDigits fuel (n / 10) ((b'0' + n % 10) ∷ out) (omega arith, h))
]

digits_read : (n : ℕ) → n ≤ max_u64 → digits_onto (print_u64 n) 0 ≡ some n
unfolding print_u64 digits_onto
digits_read n fits = digits_onto-print_onto 20 n [] (omega arith) fits

pub print_u64-AreDigits : (n : ℕ) → AreDigits (print_u64 n)
unfolding print_u64
print_u64-AreDigits n = print_onto-AreDigits 20 n [] tt

pub AreDigits-Lacks : (c : ℕ) (s : Bytes) → AreDigits s → (c < b'0') ⊎ (b'9' < c) → Lacks c s
AreDigits-Lacks c [] h apart = tt
AreDigits-Lacks c (x ∷ s) (h, hs) apart = (ground arith, AreDigits-Lacks c s hs apart)

print_onto-longer : (fuel n : ℕ) (out : Bytes) → length out ≤ length (print_onto fuel n out)
unfolding print_onto
print_onto-longer zero n out = omega arith
print_onto-longer (suc fuel) n out = elim (Bool-cases (ltb n 10)) [
  | inl y ↦ rw y (omega arith)
  | inr m ↦
      rw m (let l = print_onto-longer fuel (n / 10) ((b'0' + n % 10) ∷ out) in omega (arith, l))
]

pub print_u64-ne-nil : (n : ℕ) → print_u64 n ≢ []
unfolding print_u64 print_onto
print_u64-ne-nil n e = elim (Bool-cases (ltb n 10)) [
  | inl y ↦ let e' = rw y at e in absurd cc
  | inr m ↦
      let l = print_onto-longer 19 (n / 10) ((b'0' + n % 10) ∷ []) in
      let none_left = ap length (rw m at e) in absurd (omega arith)
]

parse_u64-digits : (s : Bytes) → AreDigits s → s ≢ [] → parse_u64 s ≡ digits_onto s 0
unfolding parse_u64
parse_u64-digits [] h ne = absurd (ne refl)
parse_u64-digits (c ∷ s) h ne = ground arith

-- Every u64 is read back from its decimal print.
pub parse_u64-print_u64 : (n : ℕ) → n ≤ max_u64 → parse_u64 (print_u64 n) ≡ some n
parse_u64-print_u64 n fits =
    parse_u64-digits (print_u64 n) (print_u64-AreDigits n) (print_u64-ne-nil n) ∙ digits_read n fits
