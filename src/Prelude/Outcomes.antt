-- ===== src/Prelude/Outcomes.antt =====
-- What a call of the kernel can come to: a value, an error value, a panic (an index out of
-- range, a failed `expect`), or a loop whose fuel is used up.
use Prim.Native.Nat.{ℕ}
use mathlib.Core.Path.{◌≡◌, refl}
use mathlib.Core.Option.{Option, none, some}
use mathlib.Core.List.{List}
use polymorph_os.Prelude.Tests.{ltb, if◌then◌else◌}
use polymorph_os.Prelude.Lists.{length, get_elem?, set}

pub data Run {ℓ κ} (E : Type ℓ) (A : Type κ) : Type (ℓ ⊔ κ) where
  done : A → Run E A
  fail : E → Run E A
  panic : Run E A
  spin : Run E A

infixl 5 ◌>>=◌
abbrev pub ◌>>=◌ {ℓ κ μ} :
    {E : Type ℓ} {A : Type κ} {B : Type μ} → Run E A → (A → Run E B) → Run E B
done a >>= f = f a
fail e >>= f = fail e
panic >>= f = panic
spin >>= f = spin

-- `xs[i]` and `xs[i] = v` with the bounds check of the source language.
module _ {ℓ κ} {E : Type ℓ} {A : Type κ} where
  abbrev pub or_panic : Option A → Run E A
  or_panic none = panic
  or_panic (some a) = done a

  abbrev pub read_at : List A → ℕ → Run E A
  read_at xs i = or_panic (get_elem? xs i)

  abbrev pub write_at : List A → ℕ → A → Run E (List A)
  write_at xs i v = if ltb i (length xs) then done (set xs i v) else panic

  -- `map_err(|_| e)`, with its own error type.
  abbrev pub map_err {μ} : {F : Type μ} → F → Run E A → Run F A
  map_err e (done a) = done a
  map_err e (fail _) = fail e
  map_err e panic = panic
  map_err e spin = spin

  -- The call comes back, with a value or an error: it neither panics nor spins.
  abbrev pub Returns : Run E A → Type 0
  Returns (done a) = Unit
  Returns (fail e) = Unit
  Returns panic = ⊥
  Returns spin = ⊥

  -- The call comes back, and a value it comes back with satisfies `P`.
  abbrev pub Ensures : (A → Type 0) → Run E A → Type 0
  Ensures P (done a) = P a
  Ensures P (fail e) = Unit
  Ensures P panic = ⊥
  Ensures P spin = ⊥

-- A chain of calls gives a value if both of its parts do.
pub bind-done {ℓ κ μ} :
    {E : Type ℓ} {A : Type κ} {B : Type μ} (r : Run E A) (f : A → Run E B) (b : B)
    → (r >>= f) ≡ done b
    → (a : A) × (r ≡ done a) × (f a ≡ done b)
bind-done (done a) f b h = (a, refl, h)
bind-done (fail e) f b h = absurd cc
bind-done panic f b h = absurd cc
bind-done spin f b h = absurd cc

pub map_err-done {ℓ κ μ} :
    {E : Type ℓ} {A : Type κ} {F : Type μ} (e : F) (r : Run E A) (a : A)
    → map_err e r ≡ done a
    → r ≡ done a
map_err-done e (done b) a h = cc
map_err-done e (fail _) a h = absurd cc
map_err-done e panic a h = absurd cc
map_err-done e spin a h = absurd cc

pub Returns-bind {ℓ κ μ} :
    {E : Type ℓ} {A : Type κ} {B : Type μ} (r : Run E A) (f : A → Run E B)
    → Returns r
    → ((a : A) → r ≡ done a → Returns (f a))
    → Returns (r >>= f)
Returns-bind (done a) f h k = k a refl
Returns-bind (fail e) f h k = tt
Returns-bind panic f h k = absurd h
Returns-bind spin f h k = absurd h

pub Returns-map_err {ℓ κ μ} :
    {E : Type ℓ} {A : Type κ} {F : Type μ} (e : F) (r : Run E A) → Returns r → Returns (map_err e r)
Returns-map_err e (done b) h = tt
Returns-map_err e (fail _) h = tt
Returns-map_err e panic h = absurd h
Returns-map_err e spin h = absurd h

-- Equal rests after the same run, and the rests of a run of two.
module _ {ℓ κ μ} {E : Type ℓ} {A : Type κ} {B : Type μ} where
  pub bind_same : (r : Run E A) {f g : A → Run E B} → ((a : A) → f a ≡ g a) → (r >>= f) ≡ (r >>= g)
  bind_same (done a) h = h a
  bind_same (fail e) h = refl
  bind_same panic h = refl
  bind_same spin h = refl

  pub bind_assoc {ν} :
      {C : Type ν} (r : Run E A) (f : A → Run E B) (g : B → Run E C)
      → (r >>= f >>= g) ≡ (r >>= λ a. f a >>= g)
  bind_assoc (done a) f g = refl
  bind_assoc (fail e) f g = refl
  bind_assoc panic f g = refl
  bind_assoc spin f g = refl
