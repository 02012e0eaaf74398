-- ===== src/Net/Verifies.antt =====
-- The receiver's test of a checksum: data whose checksum field holds `calculate_checksum` of the data
-- with an empty field has the checksum 0.
use polymorph_os.Prelude.{
  ℕ, zero, suc, ◌+◌, ◌-◌, ◌*◌, ◌/◌, ◌%◌, ◌^◌, ◌≤◌, ◌<◌, ◌≡◌, ap, [], ◌∷◌, ◌++◌, arith,
}
use polymorph_os.Prelude.{length, done, Bytes, All, ◌∙◌, ◌≢◌, Bool-cases, inl, inr, ◌==◌, ==_iff}
use polymorph_os.Net.{calculate_checksum}
use polymorph_os.Net.Checksum.{word_sum, word_sum-le, IsByte, IsFolded, calculate_checksum_lem}

pub All-append : (xs ys : Bytes) → All IsByte xs → All IsByte ys → All IsByte (xs ++ ys)
All-append [] ys hx hy = hy
All-append (x ∷ xs) ys hx hy = (hx.0, All-append xs ys hx.1 hy)

-- The words of data behind a whole number of words.
pub word_sum-append :
    (k : ℕ) (pre bytes : Bytes)
    → length pre ≡ 2 * k
    → word_sum (pre ++ bytes) ≡ word_sum pre + word_sum bytes
word_sum-append zero [] bytes h = omega arith
word_sum-append zero (a ∷ pre) bytes h = absurd (omega arith)
word_sum-append (suc k) [] bytes h = absurd (omega arith)
word_sum-append (suc k) (a ∷ []) bytes h = absurd (omega arith)
word_sum-append (suc k) (a ∷ b ∷ pre) bytes h =
    omega (arith, word_sum-append k pre bytes (omega arith))

-- A folded sum that is a positive multiple of 65535 is 65535.
whole_fold : (sum folded : ℕ) → IsFolded sum folded → 0 < sum → sum % 65535 ≡ 0 → folded ≡ 65535
whole_fold sum folded f pos h =
    let a : folded ≢ 0 = λ z. omega (arith, f.zero_only z) in ground (arith, f.small, f.same)

-- The ones' complement of the folded sum, added to the sum.
completed : (sum folded : ℕ) → IsFolded sum folded → 0 < sum + (0xFFFF - folded)
completed sum folded f = elim (Bool-cases (sum == 0)) [
  | inl z ↦ omega (arith, f.zero_stays ((==_iff sum 0).0 z))
  | inr n ↦ ground arith
]

abbrev pub Fits : Bytes → Bytes → Type 0
Fits pre post = length pre + length post ≤ 65000

-- Into data of bytes, at most 65000 of them before and behind an empty field that stands behind a whole
-- number of words, the checksum can be filled: it exists, is a u16, and the data with it in the field
-- has the checksum 0.
pub checksum_verifies :
    (k : ℕ) (pre post : Bytes)
    → length pre ≡ 2 * k
    → All IsByte pre
    → All IsByte post
    → Fits pre post
    → (sum : ℕ) × (calculate_checksum (pre ++ 0 ∷ 0 ∷ post) ≡ done sum)
      × (sum < 2 ^ 16)
      × (calculate_checksum (pre ++ sum / 256 % 256 ∷ sum % 256 ∷ post) ≡ done 0)
checksum_verifies k pre post even bytes1 bytes2 fits =
    let total : word_sum (pre ++ 0 ∷ 0 ∷ post) ≡ word_sum pre + word_sum post =
      word_sum-append k pre (0 ∷ 0 ∷ post) even ∙ omega arith in
    let le1 = word_sum-le pre bytes1 in
    let le2 = word_sum-le post bytes2 in
    let (folded, run, f) = calculate_checksum_lem (pre ++ 0 ∷ 0 ∷ post) (omega arith) in
    let sum : ℕ = 0xFFFF - folded in
    let filled : word_sum (pre ++ sum / 256 % 256 ∷ sum % 256 ∷ post)
        ≡ word_sum pre + word_sum post + sum =
      word_sum-append k pre (sum / 256 % 256 ∷ sum % 256 ∷ post) even ∙ omega (arith, f.small) in
    let (folded', run', f') =
      calculate_checksum_lem (pre ++ sum / 256 % 256 ∷ sum % 256 ∷ post) (omega arith) in
    (
      sum,
      run,
      omega arith,
      run'
          ∙ ap (λ n. done (0xFFFF - n))
              (whole_fold _ folded' f'
                (omega (arith, filled, completed (word_sum (pre ++ 0 ∷ 0 ∷ post)) folded f, total))
                (omega (arith, filled, total, f.same, f.small))),
    )
