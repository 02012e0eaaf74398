-- ===== src/VgaBuffer/Segments.antt =====
-- The front and the back of a list of which one element was changed, for the rows of
-- kernel/src/vga_buffer.rs.
use polymorph_os.Prelude.{ℕ, zero, suc, ◌≤◌, ◌<◌, ◌≡◌, refl, ap, arith, List, [], ◌∷◌, ◌++◌}
use polymorph_os.Prelude.{length, get_elem?, set, take, drop}
use polymorph_os.Prelude.{some}

module _ {ℓ} {A : Type ℓ} where
  pub take-set :
      (xs : List A) (i : ℕ) (x : A)
      → i < length xs
      → take (suc i) (set xs i x) ≡ take i xs ++ x ∷ []
  take-set [] i x h = absurd (omega arith)
  take-set (y ∷ ys) zero x h = refl
  take-set (y ∷ ys) (suc i) x h = ap (λ l. y ∷ l) (take-set ys i x (omega arith))

  pub drop-some :
      (xs : List A) (i : ℕ) (x : A) → get_elem? xs i ≡ some x → drop i xs ≡ x ∷ drop (suc i) xs
  drop-some [] i x h = absurd cc
  drop-some (y ∷ ys) zero x h = ap (λ z. z ∷ ys) cc
  drop-some (y ∷ ys) (suc i) x h = drop-some ys i x h

  pub drop-set : (xs : List A) (i j : ℕ) (x : A) → i < j → drop j (set xs i x) ≡ drop j xs
  drop-set [] i j x h = refl
  drop-set (y ∷ ys) i zero x h = absurd (omega arith)
  drop-set (y ∷ ys) zero (suc j) x h = refl
  drop-set (y ∷ ys) (suc i) (suc j) x h = drop-set ys i j x (omega arith)

  pub take-all : (xs : List A) → take (length xs) xs ≡ xs
  take-all [] = refl
  take-all (x ∷ xs) = ap (λ l. x ∷ l) (take-all xs)

  pub drop-all : (xs : List A) (n : ℕ) → length xs ≤ n → drop n xs ≡ []
  drop-all [] zero h = refl
  drop-all [] (suc n) h = refl
  drop-all (x ∷ xs) zero h = absurd (omega arith)
  drop-all (x ∷ xs) (suc n) h = drop-all xs n (omega arith)

  pub set-set : (xs : List A) (i : ℕ) (x y : A) → set (set xs i x) i y ≡ set xs i y
  set-set [] i x y = refl
  set-set (z ∷ zs) zero x y = refl
  set-set (z ∷ zs) (suc i) x y = ap (λ l. z ∷ l) (set-set zs i x y)

  pub set-same : (xs : List A) (i : ℕ) (x : A) → get_elem? xs i ≡ some x → set xs i x ≡ xs
  set-same [] i x h = refl
  set-same (z ∷ zs) zero x h = ap (λ y. y ∷ zs) cc
  set-same (z ∷ zs) (suc i) x h = ap (λ l. z ∷ l) (set-same zs i x h)

  pub inside : (xs : List A) (i : ℕ) (x : A) → get_elem? xs i ≡ some x → i < length xs
  inside [] i x h = absurd cc
  inside (y ∷ ys) zero x h = omega arith
  inside (y ∷ ys) (suc i) x h = omega (arith, inside ys i x h)
