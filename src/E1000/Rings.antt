-- ===== src/E1000/Rings.antt =====
-- The rings of kernel/src/e1000.rs: both have 32 descriptors, and the indices stay inside.
use polymorph_os.Prelude.{ℕ, zero, suc, ◌<◌, ◌≡◌, refl, List, [], ◌∷◌, arith, length}
use polymorph_os.Prelude.{some, get_elem?, set, done, read_at, write_at, lt→ltb}
use polymorph_os.E1000.{E1000Driver}

pub record IsValid (d : E1000Driver) : Type 0 where
  pub tx_size : length d.tx_ring ≡ 32
  pub rx_size : length d.rx_ring ≡ 32
  pub buffers : length d.rx_buffers ≡ 32
  pub tx_inside : d.tx_index < 32
  pub rx_inside : d.rx_index < 32

-- Reads and writes inside an array.
module _ {ℓ} {A : Type ℓ} where
  pub read_at-some :
      (xs : List A) (i : ℕ) (x : A) → get_elem? xs i ≡ some x → read_at {E = ⊥} xs i ≡ done x
  read_at-some xs i x h = rw h

  pub write_at-set :
      (xs : List A) (i : ℕ) (x : A) → i < length xs → write_at {E = ⊥} xs i x ≡ done (set xs i x)
  write_at-set xs i x h = rw (lt→ltb i (length xs) h)

  pub get_elem?-inside : (xs : List A) (i : ℕ) → i < length xs → (x : A) × (get_elem? xs i ≡ some x)
  get_elem?-inside [] i h = absurd (omega arith)
  get_elem?-inside (x ∷ xs) zero h = (x, refl)
  get_elem?-inside (x ∷ xs) (suc i) h = get_elem?-inside xs i (omega arith)
