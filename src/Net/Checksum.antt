-- ===== src/Net/Checksum.antt =====
-- `calculate_checksum` against the sum of the 16-bit words of the data.
use polymorph_os.Prelude.{
  ℕ, zero, suc, ◌+◌, ◌-◌, ◌*◌, ◌/◌, ◌%◌, ◌^◌, ◌≤◌, ◌<◌, ◌≡◌, refl, ap, [], ◌∷◌, arith,
}
use polymorph_os.Prelude.{◌==◌, Bool-cases, inl, inr, length, done, Bytes, All, ==_iff, ◌∙◌, true}
use polymorph_os.Net.{sum_words, fold_sum, calculate_checksum}

-- The exact sum of the big-endian words.
abbrev pub word_sum : Bytes → ℕ
word_sum [] = 0
word_sum (a ∷ []) = 256 * a
word_sum (a ∷ b ∷ rest) = 256 * a + b + word_sum rest

abbrev pub IsByte : ℕ → Type 0
IsByte b = b < 256

pub word_sum-le : (bytes : Bytes) → All IsByte bytes → word_sum bytes ≤ 65535 * length bytes
word_sum-le [] h = omega arith
word_sum-le (a ∷ []) h = omega arith
word_sum-le (a ∷ b ∷ rest) h = omega (arith, word_sum-le rest (h.1).1)

pub sum_words_lem :
    (sum : ℕ) (bytes : Bytes)
    → sum + word_sum bytes < 2 ^ 32
    → sum_words sum bytes ≡ sum + word_sum bytes
unfolding sum_words
sum_words_lem sum [] h = omega arith
sum_words_lem sum (a ∷ []) h = omega arith
sum_words_lem sum (a ∷ b ∷ rest) h =
    let e : (sum + (256 * a + b)) % 2 ^ 32 ≡ sum + (256 * a + b) = omega arith in
    ap (λ s. sum_words s rest) e
    ∙ sum_words_lem (sum + (256 * a + b)) rest (omega arith)
    ∙ omega arith

-- A folded sum has 16 bits, is the sum modulo 65535, and is 0 only for 0.
pub record IsFolded (sum folded : ℕ) : Type 0 where
  pub small : folded < 2 ^ 16
  pub same : folded % 65535 ≡ sum % 65535
  pub zero_only : folded ≡ 0 → sum ≡ 0
  pub zero_stays : sum ≡ 0 → folded ≡ 0

-- A round of the loop keeps the sum modulo 65535.
round : (sum folded : ℕ) → IsFolded (sum % 2 ^ 16 + sum / 2 ^ 16) folded → IsFolded sum folded
round sum folded f = record {
  small = f.small;
  same = omega (arith, f.same);
  zero_only = λ z. omega (arith, f.zero_only z);
  zero_stays = λ z. f.zero_stays (omega arith);
}

-- The bound on the sum with the rounds that remain.
abbrev bound : ℕ → ℕ
bound zero = 2 ^ 16
bound (suc zero) = 2 ^ 17 - 1
bound (suc (suc n)) = 2 ^ 32

fold_rounds :
    (n sum : ℕ)
    → n ≤ 2
    → sum < bound n
    → (folded : ℕ) × (fold_sum (suc n) sum ≡ done folded) × IsFolded sum folded
unfolding fold_sum
fold_rounds zero sum le h =
    let y : (sum / 2 ^ 16 == 0) ≡ true = (==_iff (sum / 2 ^ 16) 0).1 (omega arith) in
    (
      sum,
      rw (fold_sum, y),
      record { small = h; same = refl; zero_only = λ z. z; zero_stays = λ z. z },
    )
fold_rounds (suc n) sum le h = elim (Bool-cases (sum / 2 ^ 16 == 0)) [
  | inl y ↦ (
    sum,
    rw (fold_sum, y),
    record {
      small = omega (arith, (==_iff (sum / 2 ^ 16) 0).0 y);
      same = refl;
      zero_only = λ z. z;
      zero_stays = λ z. z;
    },
  )
  | inr more ↦
      let (folded, run, f) =
        fold_rounds n (sum % 2 ^ 16 + sum / 2 ^ 16) (omega arith) (falls n sum (omega arith) h) in
      (folded, rw (fold_sum, more) run, round sum folded f)
]
  where
    falls : (n sum : ℕ) → n ≤ 1 → sum < bound (suc n) → sum % 2 ^ 16 + sum / 2 ^ 16 < bound n
    falls zero sum le h = omega arith
    falls (suc zero) sum le h = omega arith
    falls (suc (suc n)) sum le h = absurd (omega arith)

-- For fewer than 2^32 as the sum of its words, the checksum of data is the ones' complement of the
-- folded sum.
pub calculate_checksum_lem :
    (bytes : Bytes)
    → word_sum bytes < 2 ^ 32
    → (folded : ℕ) × (calculate_checksum bytes ≡ done (0xFFFF - folded))
      × IsFolded (word_sum bytes) folded
unfolding calculate_checksum
calculate_checksum_lem bytes h =
    let (folded, run, f) = fold_rounds 2 (word_sum bytes) (omega arith) (omega arith) in
    let e : folded % 2 ^ 16 ≡ folded = omega (arith, f.small) in
    let exact : sum_words 0 bytes ≡ word_sum bytes =
      sum_words_lem 0 bytes (omega arith) ∙ omega arith in
    (folded, rw (exact, run, e), f)
