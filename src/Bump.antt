-- ===== src/Bump.antt =====
-- kernel/src/allocator/bump.rs: the allocator that only moves forward, and starts over when nothing is
-- live. The build at hand leaves it out, and its `align_up` is not in the repository: it is a parameter.
-- An answer of 0 is the null pointer; the counter wraps, as in a release build.
pub mod Reach
mod Tests
use polymorph_os.Prelude.{ℕ, ◌+◌, ◌-◌, ◌%◌, ◌^◌, if◌then◌else◌, ltb, leb, min, ◌==◌}
use polymorph_os.LinkedList.{Layout}

pub record BumpAllocator : Type 0 where
  pub heap_start : ℕ
  pub heap_end : ℕ
  pub next : ℕ
  pub allocations : ℕ

unfoldable pub new : BumpAllocator
new = record { heap_start = 0; heap_end = 0; next = 0; allocations = 0 }

-- `heap_start.saturating_add(heap_size)`
unfoldable pub init : ℕ → ℕ → BumpAllocator → BumpAllocator
init heap_start heap_size bump = record bump {
  heap_start = heap_start;
  heap_end = min (heap_start + heap_size) (2 ^ 64 - 1);
  next = heap_start;
}

module _ (align_up : ℕ → ℕ → ℕ) where
  unfoldable pub alloc : Layout → BumpAllocator → ℕ × BumpAllocator
  alloc layout bump =
      let alloc_start = align_up bump.next layout.align in
      let alloc_end = alloc_start + layout.size in
      if leb (2 ^ 64) alloc_end
      then (0, bump)
      else if ltb bump.heap_end alloc_end
      then (0, bump)
      else (
        alloc_start,
        record bump { next = alloc_end; allocations = (bump.allocations + 1) % 2 ^ 64 },
      )

unfoldable pub dealloc : BumpAllocator → BumpAllocator
dealloc bump =
    let allocations = (bump.allocations + 2 ^ 64 - 1) % 2 ^ 64 in
    record bump {
      allocations = allocations;
      next = if allocations == 0 then bump.heap_start else bump.next;
    }
