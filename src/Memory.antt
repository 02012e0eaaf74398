-- ===== src/Memory.antt =====
-- kernel/src/memory.rs: the frame allocator over the boot loader's memory map, and the allocation of
-- DMA memory. A frame is its start address. `PhysFrame::containing_address` of the x86_64 crate is a
-- parameter, and `FrameAllocator` is that crate's interface, which `BootInfoFrameAllocator` and
-- `EmptyFrameAllocator` fill. Page tables (`init`, `active_level_4_table`, `map_mmio`,
-- `virt_to_phys`) are calls of the crate and not modelled. Addresses are added as the crate adds them
-- where the sum is an address.
pub mod Frames
pub mod Dma
mod Tests
use polymorph_os.Prelude.{
  ℕ, zero, suc, ◌+◌, ◌-◌, ◌*◌, ◌/◌, ◌%◌, ◌^◌, Bool, true, false, List, [], ◌∷◌, ◌++◌, map,
}
use polymorph_os.Prelude.{◌==◌, if◌then◌else◌, Option, none, some, get_elem?}

pub record MemoryRegion : Type 0 where
  pub start : ℕ
  pub end : ℕ
  pub is_usable : Bool

pub record FrameAllocator : Type 1 where
  pub State : Type 0
  pub allocate_frame : State → Option ℕ × State

abbrev pub empty_frame_allocator : FrameAllocator
empty_frame_allocator = record { State = Unit {0}; allocate_frame = λ s. (none, s) }

-- `(start..end).step_by(4096)`, of which `n` addresses are left.
pub step_by : ℕ → ℕ → List ℕ
step_by addr zero = []
step_by addr (suc n) = addr ∷ step_by (addr + 4096) n

abbrev pub region_addresses : MemoryRegion → List ℕ
region_addresses r = step_by r.start ((r.end - r.start + 4095) / 4096)

module _ (containing_address : ℕ → ℕ) where
  pub usable_frames : List MemoryRegion → List ℕ
  unfolding step_by
  usable_frames [] = []
  usable_frames (r ∷ rs) =
      if r.is_usable
      then map containing_address (region_addresses r) ++ usable_frames rs
      else usable_frames rs

  pub record BootInfoFrameAllocator : Type 0 where
    pub memory_regions : List MemoryRegion
    pub next : ℕ

  pub init : List MemoryRegion → BootInfoFrameAllocator
  init memory_regions = record { memory_regions = memory_regions; next = 0 }

  pub allocate_frame : BootInfoFrameAllocator → Option ℕ × BootInfoFrameAllocator
  allocate_frame a =
      (get_elem? (usable_frames a.memory_regions) a.next, record a { next = a.next + 1 })

  abbrev pub boot_info : FrameAllocator
  boot_info = record { State = BootInfoFrameAllocator; allocate_frame = allocate_frame }

-- A block of DMA memory: its physical and its virtual address, and the bytes zeroed from there on.
pub record DmaBlock : Type 0 where
  pub phys : ℕ
  pub virt : ℕ
  pub zeroed : ℕ

module _ (allocator : FrameAllocator) where
  open allocator use {State, allocate_frame as next_frame}

  -- The loop that reserves the remaining frames.
  pub reserve : ℕ → State → Bool × State
  reserve zero s = (true, s)
  reserve (suc n) s =
      let (frame, s') = next_frame s in elim frame [ none ↦ (false, s') | some f ↦ reserve n s' ]

  unfoldable pub allocate_dma_frames : State → ℕ → ℕ → Option DmaBlock × State
  unfolding reserve
  allocate_dma_frames s phys_mem_offset pages =
      let (first, s') = next_frame s in
      elim first [
        | none ↦ (none, s')
        | some phys ↦
            let (reserved, s'') = reserve (pages - 1) s' in
            if reserved
            then (
              some (record { phys = phys; virt = phys_mem_offset + phys; zeroed = pages * 4096 }),
              s'',
            )
            else (none, s'')
      ]
