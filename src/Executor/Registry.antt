-- ===== src/Executor/Registry.antt =====
-- The process registry and the waker cache of kernel/src/task/executor.rs as maps.
use polymorph_os.Prelude.{ℕ, ◌+◌, ◌≤◌, ◌≡◌, refl, true, false, List, [], arith}
use polymorph_os.Prelude.{◌∷◌, none, some, ◌==◌, if◌then◌else◌, Bool-cases, inl, inr}
use polymorph_os.Executor.{Tasks, find, put, remove, has, forget}

module _ {F : Type 0} where
  pub find-cons :
      (id j : ℕ) (f : F) (ts : Tasks F)
      → find j ((id, f) ∷ ts) ≡ (if id == j then some f else find j ts)
  unfolding find
  find-cons id j f ts = refl

  pub find-put :
      (id j : ℕ) (f g : F) (ts : Tasks F)
      → find id ts ≡ some f
      → find j (put id g ts) ≡ (if id == j then some g else find j ts)
  unfolding find put
  find-put id j f g [] h = ground arith
  find-put id j f g ((k, t) ∷ ts) h = ground (arith, find-put id j f g ts)

  pub find-remove :
      (id j : ℕ) (ts : Tasks F) → find j (remove id ts) ≡ (if id == j then none else find j ts)
  unfolding find remove
  find-remove id j [] = ground arith
  find-remove id j ((k, t) ∷ ts) = ground (arith, find-remove id j ts)

  -- The sum of a measure over the tasks.
  abbrev pub load : (F → ℕ) → Tasks F → ℕ
  load b [] = 0
  load b ((k, f) ∷ ts) = b f + load b ts

  pub load-put :
      (b : F → ℕ) (id : ℕ) (f g : F) (ts : Tasks F)
      → find id ts ≡ some f
      → load b (put id g ts) + b f ≡ load b ts + b g
  unfolding find put
  load-put b id f g [] h = ground arith
  load-put b id f g ((k, t) ∷ ts) h = ground (arith, load-put b id f g ts)

  load-remove-le : (b : F → ℕ) (id : ℕ) (ts : Tasks F) → load b (remove id ts) ≤ load b ts
  unfolding remove
  load-remove-le b id [] = omega arith
  load-remove-le b id ((k, t) ∷ ts) = ground (arith, load-remove-le b id ts)

  pub load-remove :
      (b : F → ℕ) (id : ℕ) (f : F) (ts : Tasks F)
      → find id ts ≡ some f
      → load b (remove id ts) + b f ≤ load b ts
  unfolding find remove
  load-remove b id f [] h = ground arith
  load-remove b id f ((k, t) ∷ ts) h = ground (arith, load-remove b id f ts, load-remove-le b id ts)

pub has-forget :
    (id j : ℕ) (ks : List ℕ) → has j (forget id ks) ≡ (if id == j then false else has j ks)
unfolding has forget
has-forget id j [] = ground arith
has-forget id j (k ∷ ks) = ground (arith, has-forget id j ks)

-- The cache after `entry(id).or_insert_with(…)`.
abbrev pub cached : ℕ → List ℕ → List ℕ
cached id ks = if has id ks then ks else id ∷ ks

pub has-cached :
    (id j : ℕ) (ks : List ℕ) → has j (cached id ks) ≡ (if id == j then true else has j ks)
unfolding has
has-cached id j ks = elim (Bool-cases (has id ks)) [
  | inl y ↦ rw y (ground arith)
  | inr n ↦ rw n (ground arith)
]
