-- ===== src/LinkedList.antt =====
-- kernel/src/allocator/linked_list.rs: the allocator that keeps its free regions in a list, each in a node
-- that stands in the region. The build at hand leaves it out, and its `align_up` is not in the repository:
-- it is a parameter. A node has 16 bytes and is aligned to 8, as on a 64-bit machine. The list of nodes
-- is a list of regions; a failed assertion is a panic; an answer of 0 is the null pointer.
pub mod Regions
pub mod Sound
pub mod Reach
mod Tests
use polymorph_os.Prelude.{
  ℕ, ◌+◌, ◌-◌, ◌*◌, ◌/◌, ◌%◌, ◌^◌, ◌≤◌, Bool, true, false, ◌&&◌, List, [], ◌∷◌, Option, none, some,
  Run, done, panic, ◌>>=◌, if◌then◌else◌, ltb, leb, ◌==◌, max,
}

pub record ListNode : Type 0 where
  pub start_addr : ℕ
  pub size : ℕ

abbrev pub end_addr : ListNode → ℕ
end_addr node = (node.start_addr + node.size) % 2 ^ 64

pub record Layout : Type 0 where
  pub size : ℕ
  pub align : ℕ

abbrev pub node_size : ℕ
node_size = 16

abbrev pub node_align : ℕ
node_align = 8

-- `layout.align_to(8).expect(..).pad_to_align()`, and at least the size of a node: the size and the
-- alignment. The padded size of a layout is at most `isize::MAX`, and `align_to` is an error past it.
unfoldable pub size_align : Layout → Run ⊥ (ℕ × ℕ)
size_align layout =
    let align = max layout.align node_align in
    let size = (layout.size + align - 1) / align * align in
    if leb size (2 ^ 63 - 1) then done (max size node_size, align) else panic

module _ (align_up : ℕ → ℕ → ℕ) where
  unfoldable pub add_free_region : ℕ → ℕ → List ListNode → Run ⊥ (List ListNode)
  add_free_region addr size regions =
      if (align_up addr node_align == addr) && leb node_size size
      then done (record { start_addr = addr; size = size } ∷ regions)
      else panic

  unfoldable pub alloc_from_region : ListNode → ℕ → ℕ → Option ℕ
  alloc_from_region region size align =
      let alloc_start = align_up region.start_addr align in
      let alloc_end = alloc_start + size in
      if leb (2 ^ 64) alloc_end
      then none
      else if ltb (end_addr region) alloc_end
      then none
      else (let excess_size = end_addr region - alloc_end in
          if ltb 0 excess_size && ltb excess_size node_size then none else some alloc_start)

  -- The first suitable region, the start of the allocation in it, and the list without it.
  abbrev pub Found : Type 0
  Found = ListNode × ℕ × List ListNode

  abbrev pub found_later : ListNode → Option Found → Option Found
  found_later region none = none
  found_later region (some (f, start, rest)) = some (f, start, region ∷ rest)

  abbrev pub found_or_later : Option ℕ → ListNode → List ListNode → Option Found → Option Found
  found_or_later (some start) region regions later = some (region, start, regions)
  found_or_later none region regions later = found_later region later

  unfoldable pub find_region : List ListNode → ℕ → ℕ → Option Found
  find_region [] size align = none
  find_region (region ∷ regions) size align =
      found_or_later (alloc_from_region region size align) region regions
        (find_region regions size align)

  -- The rest of a region behind the allocation goes back to the list.
  abbrev pub split_off : Option Found → ℕ → List ListNode → Run ⊥ (ℕ × List ListNode)
  split_off none size regions = done (0, regions)
  split_off (some (region, alloc_start, rest)) size regions =
      let alloc_end = alloc_start + size in
      let excess_size = end_addr region - alloc_end in
      if leb (2 ^ 64) alloc_end
      then panic
      else if ltb 0 excess_size
      then (add_free_region alloc_end excess_size rest >>= λ rest'. done (alloc_start, rest'))
      else done (alloc_start, rest)

  unfoldable pub alloc : Layout → List ListNode → Run ⊥ (ℕ × List ListNode)
  alloc layout regions =
      size_align layout >>= λ (size, align). split_off (find_region regions size align) size regions

  unfoldable pub dealloc : ℕ → Layout → List ListNode → Run ⊥ (List ListNode)
  dealloc ptr layout regions =
      size_align layout >>= λ (size, align). add_free_region ptr size regions

  unfoldable pub init : ℕ → ℕ → List ListNode → Run ⊥ (List ListNode)
  init heap_start heap_size regions = add_free_region heap_start heap_size regions
