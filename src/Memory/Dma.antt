-- ===== src/Memory/Dma.antt =====
-- `allocate_dma_frames` of kernel/src/memory.rs over the boot loader's memory map.
use polymorph_os.Prelude.{
  ℕ, zero, suc, ◌+◌, ◌-◌, ◌*◌, ◌≤◌, ◌<◌, ◌≡◌, refl, ap, List, [], ◌∷◌, arith, length,
}
use polymorph_os.Prelude.{none, some, get_elem?, get_elem?-none, ◌∙◌, true, false}
use native.Mathlib.Decide.{dec_lt}
use polymorph_os.Memory.{
  BootInfoFrameAllocator, usable_frames, allocate_frame, boot_info, reserve, allocate_dma_frames,
}

pub get_elem?-some :
    {A : Type 0} (xs : List A) (i : ℕ) → i < length xs → (x : A) × (get_elem? xs i ≡ some x)
get_elem?-some [] i h = absurd (omega arith)
get_elem?-some (x ∷ xs) zero h = (x, refl)
get_elem?-some (x ∷ xs) (suc i) h = get_elem?-some xs i (omega arith)

module _ (containing_address : ℕ → ℕ) (a : BootInfoFrameAllocator containing_address) where
  abbrev pub frames : List ℕ
  frames = usable_frames containing_address a.memory_regions

  abbrev at : ℕ → BootInfoFrameAllocator containing_address
  at k = record a { next = k }

  reserve_enough :
      (n k : ℕ)
      → k + n ≤ length frames
      → reserve (boot_info containing_address) n (at k) ≡ (true, at (k + n))
  unfolding reserve allocate_frame
  reserve_enough zero k h = ap (λ m. (true, at m)) (omega arith)
  reserve_enough (suc n) k h =
      let (f, e) = get_elem?-some frames k (omega arith) in
      rw (e, reserve)
        (reserve_enough n (k + 1) (omega arith) ∙ ap (λ m. (true, at m)) (omega arith))

  reserve_short :
      (n k : ℕ)
      → k ≤ length frames
      → length frames < k + n
      → (reserve (boot_info containing_address) n (at k)).0 ≡ false
  unfolding reserve allocate_frame
  reserve_short zero k le h = absurd (omega arith)
  reserve_short (suc n) k le h = elim (dec_lt k (length frames)) [
    | yes lt ↦
        let (f, e) = get_elem?-some frames k lt in
        rw (e, reserve) (reserve_short n (k + 1) (omega arith) (omega arith))
    | no past ↦ rw (get_elem?-none frames k (omega arith), reserve)
  ]

  -- `allocate_dma_frames` from the boot loader's map, with enough frames of it left, takes the next
  -- frames in the order of the map, at least one. It answers the address of the first alone, and has
  -- zeroed `pages * 4096` bytes from there on, wherever the other frames lie.
  pub allocate_dma_frames_lem :
      (offset pages : ℕ)
      → a.next + 1 + (pages - 1) ≤ length frames
      → (phys : ℕ) × (get_elem? frames a.next ≡ some phys)
        × (allocate_dma_frames (boot_info containing_address) a offset pages ≡ (
          some (record { phys = phys; virt = offset + phys; zeroed = pages * 4096 }),
          record a { next = a.next + 1 + (pages - 1) },
        ))
  unfolding allocate_dma_frames allocate_frame
  allocate_dma_frames_lem offset pages enough =
      let (phys, e) = get_elem?-some frames a.next (omega arith) in
      (phys, e, rw (allocate_dma_frames, e, reserve_enough (pages - 1) (a.next + 1) (omega arith)))

  -- With too few frames left it answers nothing.
  allocate_dma_frames_short :
      (offset pages : ℕ)
      → a.next ≤ length frames
      → length frames < a.next + 1 + (pages - 1)
      → (allocate_dma_frames (boot_info containing_address) a offset pages).0 ≡ none
  unfolding allocate_dma_frames allocate_frame
  allocate_dma_frames_short offset pages le short = elim (dec_lt a.next (length frames)) [
    | yes lt ↦
        let (phys, e) = get_elem?-some frames a.next lt in
        rw (
          allocate_dma_frames,
          e,
          reserve_short (pages - 1) (a.next + 1) (omega arith) (omega arith),
        )
    | no past ↦ rw (allocate_dma_frames, get_elem?-none frames a.next (omega arith))
  ]
