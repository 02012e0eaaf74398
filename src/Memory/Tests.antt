-- ===== src/Memory/Tests.antt =====
-- Runs of the frame allocator of kernel/src/memory.rs on a small memory map.
use polymorph_os.Prelude.{ℕ, ◌+◌, ◌*◌, ◌/◌, ◌≤◌, ◌≡◌, refl, true, false, List, [], ◌∷◌, arith, some}
use polymorph_os.Prelude.{get_elem?, length}
use polymorph_os.Memory.{
  MemoryRegion, BootInfoFrameAllocator, usable_frames, allocate_frame, boot_info,
  allocate_dma_frames,
}
use polymorph_os.Memory.Frames.{KeepsStarts, allocate_frame_apart}
use polymorph_os.Memory.Dma.{frames, allocate_dma_frames_lem}

abbrev page_of : ℕ → ℕ
page_of x = x / 4096 * 4096

page_of-KeepsStarts : KeepsStarts page_of
page_of-KeepsStarts k = omega arith

-- Two usable regions with a reserved one between them.
abbrev memory_map : List MemoryRegion
memory_map =
    record { start = 0x1000; end = 0x2FFF; is_usable = true }
    ∷ record { start = 0x3000; end = 0x8000; is_usable = false }
    ∷ record { start = 0x8000; end = 0xA000; is_usable = true }
    ∷ []

map_frames : usable_frames page_of memory_map ≡ 0x1000 ∷ 0x2000 ∷ 0x8000 ∷ 0x9000 ∷ []
unfolding usable_frames
map_frames = refl

abbrev after : ℕ → BootInfoFrameAllocator page_of
after n = record { memory_regions = memory_map; next = n }

second : (allocate_frame page_of (after 1)).0 ≡ some 0x2000
unfolding allocate_frame usable_frames
second = refl

third : (allocate_frame page_of (allocate_frame page_of (after 1)).1).0 ≡ some 0x8000
unfolding allocate_frame usable_frames
third = refl

allocate_frame_apart_example : ◌≤◌ 0x3000 0x8000
allocate_frame_apart_example =
    allocate_frame_apart page_of (after 1) 0 0 0x2000 0x8000 page_of-KeepsStarts (omega arith)
      second third

-- A block of two pages from the end of the first region: the second of its frames is not behind the
-- first, and the bytes zeroed run into the reserved region.
block_over_a_gap :
    allocate_dma_frames (boot_info page_of) (after 1) 0 2
    ≡ (some (record { phys = 0x2000; virt = 0x2000; zeroed = 0x2000 }), after 3)
unfolding allocate_dma_frames allocate_frame usable_frames
block_over_a_gap = refl

enough_frames : 3 ≤ length (frames page_of (after 1))
unfolding usable_frames
enough_frames = omega arith

allocate_dma_frames_lem_example :
    (phys : ℕ) × (get_elem? (frames page_of (after 1)) 1 ≡ some phys)
    × (allocate_dma_frames (boot_info page_of) (after 1) 0x7000 2
        ≡ (some (record { phys = phys; virt = 0x7000 + phys; zeroed = 0x2000 }), after 3))
allocate_dma_frames_lem_example = allocate_dma_frames_lem page_of (after 1) 0x7000 2 enough_frames
