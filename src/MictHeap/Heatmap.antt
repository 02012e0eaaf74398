-- ===== src/MictHeap/Heatmap.antt =====
-- The bits of the heatmap of kernel/src/allocator/mict_global_allocator.rs.
use polymorph_os.Prelude.{
  ℕ, zero, suc, ◌+◌, ◌-◌, ◌*◌, ◌/◌, ◌%◌, ◌^◌, ◌≤◌, ◌<◌, bit_and, bit_or, Bool,
}
use polymorph_os.Prelude.{not, ◌&&◌, ltb, leb, ◌==◌, if◌then◌else◌, done}
use polymorph_os.Prelude.{replicate, length, get_or, set, length-set, get_or-set_self, ◌≡◌, refl}
use polymorph_os.Prelude.{get_or-set_ne, get_elem?-eq-get_or, arith, true, false, sym, ◌∙◌}
use polymorph_os.Prelude.{ltb→lt, lt→ltb}
use native.Mathlib.Decide.{ℕ_discrete}
use polymorph_os.Prelude.Bits.{passes_under, passes_under-at}
use polymorph_os.MictHeap.{Heap, new, init, max_heap_blocks, set_bit, is_hot, set_bits}

abbrev pub bit : ℕ → ℕ → Bool
bit byte k = not (bit_and byte (2 ^ k) == 0)

abbrev written : ℕ → ℕ → Bool → ℕ
written byte k hot = if hot then bit_or byte (2 ^ k) else bit_and byte (255 - 2 ^ k)

same : Bool → Bool → Bool
same true b = b
same false b = not b

same_sound : (a b : Bool) → same a b ≡ true → a ≡ b
unfolding same
same_sound true b h = sym h
same_sound false b h = ground arith

-- For every byte, bit and bit read: the written bit shows, the others stay, the result is a byte.
good : Bool → ℕ → ℕ → ℕ → Bool
unfolding same
good hot byte k l =
    ltb (written byte k hot) 256
    && same (bit (written byte k hot) l) (if k == l then hot else bit byte l)

abbrev good_at : Bool → ℕ → Bool
good_at hot byte = passes_under (λ k. passes_under (good hot byte k) 8) 8

table : (hot : Bool) → passes_under (good_at hot) 256 ≡ true
unfolding passes_under good
table true = refl
table false = refl

written_good : (hot : Bool) (byte k l : ℕ) → byte < 256 → k < 8 → l < 8 → good hot byte k l ≡ true
written_good hot byte k l hb hk hl =
    let at_byte = passes_under-at (good_at hot) 256 (table hot) byte hb in
    let at_bit = passes_under-at (λ k. passes_under (good hot byte k) 8) 8 at_byte k hk in
    passes_under-at (good hot byte k) 8 at_bit l hl

and_split : (a b : Bool) → (a && b) ≡ true → (a ≡ true) × (b ≡ true)
and_split a b h = ground arith

written_lem :
    (hot : Bool) (byte k l : ℕ)
    → byte < 256
    → k < 8
    → l < 8
    → (written byte k hot < 256)
      × (bit (written byte k hot) l ≡ (if k == l then hot else bit byte l))
unfolding good
written_lem hot byte k l hb hk hl =
    let both = and_split _ _ (written_good hot byte k l hb hk hl) in
    (ltb→lt _ _ both.0, same_sound _ _ both.1)

-- Whether block `i` is in use.
unfoldable pub hot_at : Heap → ℕ → Bool
hot_at h i = bit (get_or h.heatmap (i / 8) 0) (i % 8)

abbrev pub capacity : Heap → ℕ
capacity h = 8 * length h.heatmap

-- The heatmap holds bytes.
pub record IsValid (h : Heap) : Type 0 where
  pub bytes : (i : ℕ) → get_or h.heatmap i 0 < 256

get_or-replicate : (n i : ℕ) → ◌≡◌ {A = ℕ} (get_or (replicate n 0) i 0) 0
get_or-replicate zero i = refl
get_or-replicate (suc n) zero = refl
get_or-replicate (suc n) (suc i) = get_or-replicate n i

-- A new heap is valid, whatever memory it is then given.
pub init-IsValid : (heap_start heap_size : ℕ) → IsValid (init new heap_start heap_size)
unfolding init new
init-IsValid heap_start heap_size = record {
  bytes = λ i. omega (arith, get_or-replicate (max_heap_blocks / 8) i);
}

pub is_hot_lem : (h : Heap) (i : ℕ) → i < capacity h → is_hot h i ≡ done (hot_at h i)
unfolding is_hot hot_at
is_hot_lem h i lt = rw (get_elem?-eq-get_or h.heatmap (i / 8) 0 (omega arith))

abbrev wrote : Heap → ℕ → Bool → Heap
wrote h i hot = record h {
  heatmap = set h.heatmap (i / 8) (written (get_or h.heatmap (i / 8) 0) (i % 8) hot);
}

set_bit_lem :
    (h : Heap) (i : ℕ) (hot : Bool) → i < capacity h → set_bit h i hot ≡ done (wrote h i hot)
unfolding set_bit
set_bit_lem h i hot lt =
    let t : ltb (i / 8) (length h.heatmap) ≡ true = lt→ltb _ _ (omega arith) in
    rw (get_elem?-eq-get_or h.heatmap (i / 8) 0 (omega arith), t)

-- What is true of a heap whose blocks from `lo` on, `n` of them, were set to `hot`.
pub record Wrote (h : Heap) (lo n : ℕ) (hot : Bool) (h' : Heap) : Type 0 where
  pub start : h'.heap_start ≡ h.heap_start
  pub size : h'.heap_size ≡ h.heap_size
  pub room : length h'.heatmap ≡ length h.heatmap
  pub bytes : (i : ℕ) → get_or h'.heatmap i 0 < 256
  pub bits : (x : ℕ) → hot_at h' x ≡ (if leb lo x && ltb x (lo + n) then hot else hot_at h x)

module _ (h : Heap) (i : ℕ) (hot : Bool) (lt : i < capacity h)
    (bytes : (j : ℕ) → get_or h.heatmap j 0 < 256) where
  abbrev byte : ℕ
  byte = get_or h.heatmap (i / 8) 0

  self : get_or (wrote h i hot).heatmap (i / 8) 0 ≡ written byte (i % 8) hot
  self = get_or-set_self h.heatmap (i / 8) _ 0 (omega arith)

  wrote-bytes : (j : ℕ) → get_or (wrote h i hot).heatmap j 0 < 256
  wrote-bytes j = elim (ℕ_discrete (i / 8) j) [
    | yes e ↦
        rw (← e, self)
          (written_lem hot byte (i % 8) 0 (bytes (i / 8)) (omega arith) (omega arith)).0
    | no ne ↦ rw (get_or-set_ne h.heatmap _ 0 ne) (bytes j)
  ]

  wrote-bits :
      (x : ℕ) → hot_at (wrote h i hot) x ≡ (if leb i x && ltb x (i + 1) then hot else hot_at h x)
  unfolding hot_at
  wrote-bits x = elim (ℕ_discrete (i / 8) (x / 8)) [
    | yes e ↦
        let same_bit : (i % 8 == x % 8) ≡ (leb i x && ltb x (i + 1)) = ground arith in
        rw (← e, self, ← same_bit)
          (written_lem hot byte (i % 8) (x % 8) (bytes (i / 8)) (omega arith) (omega arith)).1
    | no ne ↦
        let off : (leb i x && ltb x (i + 1)) ≡ false = ground arith in
        rw (get_or-set_ne h.heatmap _ 0 ne, off)
  ]

  wrote-Wrote : Wrote h i 1 hot (wrote h i hot)
  wrote-Wrote = record {
    start = refl;
    size = refl;
    room = length-set h.heatmap (i / 8) _;
    bytes = wrote-bytes;
    bits = wrote-bits;
  }

-- Nothing written yet.
Wrote-none :
    (h : Heap) (lo : ℕ) (hot : Bool) → ((j : ℕ) → get_or h.heatmap j 0 < 256) → Wrote h lo 0 hot h
Wrote-none h lo hot bytes = record {
  start = refl;
  size = refl;
  room = refl;
  bytes = bytes;
  bits = λ x. ground arith;
}

Wrote-trans :
    (h h1 h2 : Heap) (lo n : ℕ) (hot : Bool)
    → Wrote h lo 1 hot h1
    → Wrote h1 (lo + 1) n hot h2
    → Wrote h lo (suc n) hot h2
Wrote-trans h h1 h2 lo n hot a b = record {
  start = b.start ∙ a.start;
  size = b.size ∙ a.size;
  room = b.room ∙ a.room;
  bytes = b.bytes;
  bits = λ x. ground (arith, a.bits x, b.bits x);
}

-- The loop of `set_bit` calls sets the blocks of its range to `hot` and no other, if the range has
-- bits in the heatmap.
pub set_bits_lem :
    (n start j : ℕ) (hot : Bool) (h : Heap)
    → ((i : ℕ) → get_or h.heatmap i 0 < 256)
    → start + j + n ≤ capacity h
    → (h' : Heap) × (set_bits n start j hot h ≡ done h') × Wrote h (start + j) n hot h'
unfolding set_bits
set_bits_lem zero start j hot h bytes le = (h, refl, Wrote-none h (start + j) hot bytes)
set_bits_lem (suc n) start j hot h bytes le =
    let i = start + j in
    let w = wrote-Wrote h i hot (omega arith) bytes in
    let h1 = wrote h i hot in
    let (h', run, after) = set_bits_lem n start (j + 1) hot h1 w.bytes (omega (arith, w.room)) in
    let z : start + (j + 1) ≡ start + j + 1 = omega arith in
    (h', rw (set_bit_lem h i hot (omega arith)) run, Wrote-trans h h1 h' i n hot w (rw z at after))
