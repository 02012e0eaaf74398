-- ===== src/MictHeap/Contract.antt =====
-- What the kernel may rely on of `alloc` and `dealloc` in
-- kernel/src/allocator/mict_global_allocator.rs, and where it may not.
use polymorph_os.Prelude.{ℕ, zero, suc, ◌+◌, ◌-◌, ◌/◌, ◌%◌, ◌≤◌, ◌<◌, Bool, ◌≢◌, ◌⊎◌}
use polymorph_os.Prelude.{not, ◌&&◌, ◌||◌, ltb, leb, ◌==◌, if◌then◌else◌, done, panic}
use polymorph_os.Prelude.{◌≡◌, arith, true, false, sym, ◌∙◌, subst₂, max}
use polymorph_os.Prelude.{inl, inr, get_elem?-none}
use mathlib.Core.Bool.{false≢true}
use native.Mathlib.Decide.{dec_le, dec_lt}
use polymorph_os.MictHeap.{Heap, is_hot, scan, block_size, alloc, dealloc, blocks_for}
use polymorph_os.MictHeap.{align_blocks}
use polymorph_os.MictHeap.Heatmap.{hot_at, capacity, IsValid, Wrote, is_hot_lem, set_bits_lem}
use polymorph_os.MictHeap.Scan.{NoRoom, Untracked, Found, scan_lem}

abbrev pub total_blocks : Heap → ℕ
total_blocks h = h.heap_size / block_size

module _ (h : Heap) (size align : ℕ) where
  abbrev pub Refuses : ℕ → Heap → Type 0
  Refuses = NoRoom h (blocks_for size) (align_blocks align) (total_blocks h)

  abbrev pub Grants : ℕ → Heap → Type 0
  Grants = Found h (blocks_for size) (align_blocks align) (total_blocks h)

  abbrev pub Exhausts : Type 0
  Exhausts = Untracked h (blocks_for size) (align_blocks align) (total_blocks h)

-- On a heap whose heatmap holds bytes, for a positive size, `alloc` does one of three things. It answers
-- null, changes nothing, and every aligned place for the blocks inside the heap holds a block in use. Or
-- it answers the first aligned place inside the heap whose blocks are free, and marks those blocks and
-- no other. Or it panics, and then the heap has more blocks than the heatmap has bits, and every aligned
-- place that the heatmap covers holds a block in use.
pub alloc_first_fit :
    (h : Heap) (size align : ℕ)
    → IsValid h
    → 0 < size
    → ((p : ℕ) × (h' : Heap) × (alloc h size align ≡ done (p, h'))
        × (Refuses h size align p h' ⊎ Grants h size align p h'))
      ⊎ ((alloc h size align ≡ panic) × Exhausts h size align)
unfolding alloc
alloc_first_fit h size align v pos =
    scan_lem h (blocks_for size) (align_blocks align) (total_blocks h) (total_blocks h) 0 0 0 v
      (omega arith)
      (record {
        short = omega arith;
        run = λ z. absurd (omega arith);
        blocked = λ s a lt. absurd (omega arith);
      })

-- A call that answered a pointer granted it.
granted :
    (h : Heap) (size align p : ℕ) (h' : Heap)
    → IsValid h
    → 0 < size
    → p ≢ 0
    → alloc h size align ≡ done (p, h')
    → Grants h size align p h'
granted h size align p h' v pos ne run = elim (alloc_first_fit h size align v pos) [
  | inl (q, k, run', post) ↦
      let e : q ≡ p = cc in
      let e2 : k ≡ h' = cc in
      elim post [
        | inl refused ↦ absurd (ne (sym e ∙ refused.null))
        | inr grants ↦ subst₂ (Grants h size align) e e2 grants
      ]
  | inr (stuck, _) ↦ absurd cc
]

Wrote-IsValid :
    (h : Heap) (lo n : ℕ) (b : Bool) (h' : Heap) → IsValid h → Wrote h lo n b h' → IsValid h'
Wrote-IsValid h lo n b h' v w = record { bytes = w.bytes }

-- On a heap whose heatmap holds bytes, a pointer that `alloc` answers for a positive size leaves room for that size inside
-- the heap, and the heap stays valid.
pub alloc_in_bounds :
    (h : Heap) (size align p : ℕ) (h' : Heap)
    → IsValid h
    → 0 < size
    → p ≢ 0
    → alloc h size align ≡ done (p, h')
    → (h.heap_start ≤ p) × (p + size ≤ h.heap_start + h.heap_size) × IsValid h'
alloc_in_bounds h size align p h' v pos ne run =
    let g = granted h size align p h' v pos ne run in
    (
      omega (arith, g.address),
      omega (arith, g.address, g.fits),
      Wrote-IsValid h g.block (blocks_for size) true h' v g.marked,
    )

-- On a heap whose heatmap holds bytes, two pointers, not null, that `alloc` answers one after the other
-- for positive sizes are for ranges that do not overlap.
pub alloc_disjoint :
    (h : Heap) (size1 align1 size2 align2 p1 p2 : ℕ) (h1 h2 : Heap)
    → IsValid h
    → 0 < size1
    → 0 < size2
    → p1 ≢ 0
    → p2 ≢ 0
    → alloc h size1 align1 ≡ done (p1, h1)
    → alloc h1 size2 align2 ≡ done (p2, h2)
    → (p1 + size1 ≤ p2) ⊎ (p2 + size2 ≤ p1)
alloc_disjoint h size1 align1 size2 align2 p1 p2 h1 h2 v pos1 pos2 ne1 ne2 run1 run2 =
    let g1 = granted h size1 align1 p1 h1 v pos1 ne1 run1 in
    let v1 = Wrote-IsValid h g1.block (blocks_for size1) true h1 v g1.marked in
    let g2 = granted h1 size2 align2 p2 h2 v1 pos2 ne2 run2 in
    let n1 = blocks_for size1 in
    let n2 = blocks_for size2 in
    elim (dec_le (g1.block + n1) g2.block) [
      | yes below ↦ inl (omega (arith, g1.address, g2.address, g1.marked.start))
      | no cut ↦ elim (dec_le (g2.block + n2) g1.block) [
        | yes above ↦ inr (omega (arith, g1.address, g2.address, g1.marked.start))
        | no cut2 ↦
            let j : ℕ = max g1.block g2.block in
            let free = g2.free j (omega arith) (omega arith) in
            let inside : (leb g1.block j && ltb j (g1.block + n1)) ≡ true = ground arith in
            absurd (false≢true (sym free ∙ g1.marked.bits j ∙ rw inside))
      ]
    ]

-- On a heap whose heatmap holds bytes, freeing the pointer, not null, that `alloc` answered for a
-- positive size, with that size, returns, and leaves every block as free or in use as it was before the
-- allocation.
pub dealloc-alloc :
    (h : Heap) (size align p : ℕ) (h' : Heap)
    → IsValid h
    → 0 < size
    → p ≢ 0
    → alloc h size align ≡ done (p, h')
    → (h'' : Heap) × (dealloc h' p size ≡ done h'')
      × IsValid h''
      × ((x : ℕ) → hot_at h'' x ≡ hot_at h x)
unfolding dealloc
dealloc-alloc h size align p h' v pos ne run =
    let g = granted h size align p h' v pos ne run in
    let n = blocks_for size in
    let m = g.marked in
    let v' = Wrote-IsValid h g.block n true h' v m in
    let (h'', freed, w) =
      set_bits_lem n g.block 0 false h' m.bytes (omega (arith, m.room, g.tracked)) in
    let z : g.block + 0 ≡ g.block = omega arith in
    let inside : (ltb p h'.heap_start || leb (h'.heap_start + h'.heap_size) p) ≡ false =
      ground (arith, g.address, m.start, m.size, g.fits) in
    let block : (p - h'.heap_start) / block_size ≡ g.block = omega (arith, g.address, m.start) in
    (
      h'',
      rw (inside, block) freed,
      Wrote-IsValid h' (g.block + 0) n false h'' v' w,
      λ x. restored x (g.block) n (m.bits x) (rw z at (w.bits x)) (g.free x),
    )
  where
    restored :
        (x b n : ℕ) {new mid old : Bool}
        → mid ≡ (if leb b x && ltb x (b + n) then true else old)
        → new ≡ (if leb b x && ltb x (b + n) then false else mid)
        → (b ≤ x → x < b + n → old ≡ false)
        → new ≡ old
    restored x b n e1 e2 free = ground arith

-- A heap that has more blocks than its heatmap has bits, with every bit set: `alloc`, for a positive
-- size and an alignment of at most a block, panics where it should answer null.
pub alloc_panics_when_full :
    (h : Heap) (size align : ℕ)
    → 0 < size
    → align ≤ block_size
    → capacity h < total_blocks h
    → ((i : ℕ) → i < capacity h → hot_at h i ≡ true)
    → alloc h size align ≡ panic
unfolding alloc scan is_hot
alloc_panics_when_full h size align pos small over full =
    let one : align_blocks align ≡ 1 = ground arith in
    rw one (go (total_blocks h) 0 0 (omega arith) (omega arith))
  where
    go :
        (n i start : ℕ)
        → i ≤ capacity h
        → capacity h < i + n
        → scan h (blocks_for size) 1 n i 0 start ≡ panic
    go zero i start le lt = absurd (omega arith)
    go (suc n) i start le lt =
        let on : not (i % 1 == 0) ≡ false = ground arith in
        elim (dec_lt i (capacity h)) [
          | yes inside ↦
              rw (on, is_hot_lem h i inside, full i inside)
                (go n (i + 1) start (omega arith) (omega arith))
          | no outside ↦ rw (on, get_elem?-none h.heatmap (i / 8) (omega arith))
        ]
