-- ===== src/MictHeap.antt =====
-- kernel/src/allocator/mict_global_allocator.rs: the kernel's global allocator, a heatmap of one bit
-- for each 64-byte block. The heatmap is the list of its bytes; `set_bit` and `is_hot` index it with
-- the source's bounds check, so an index past its end is `panic`. `alloc` and `dealloc` are the bodies
-- that run under the lock with interrupts off; null is 0. A `Layout` enters as its size and alignment;
-- its size is at most `isize::MAX`, so rounding it up to blocks cannot wrap.
pub mod Heatmap
pub mod Scan
pub mod Contract
mod Tests
use polymorph_os.Prelude.{
  ℕ, zero, suc, ◌+◌, ◌-◌, ◌*◌, ◌/◌, ◌%◌, ◌^◌, bit_and, bit_or, Bool, not, ◌&&◌,
}
use polymorph_os.Prelude.{
  List, ltb, leb, ◌==◌, if◌then◌else◌, Run, done, panic, ◌>>=◌, read_at, write_at,
}
use polymorph_os.Prelude.{replicate, true, false, ◌||◌}

abbrev pub block_size : ℕ
block_size = 64

abbrev pub max_heap_blocks : ℕ
max_heap_blocks = 500_000

pub record Heap : Type 0 where
  pub heap_start : ℕ
  pub heap_size : ℕ
  pub heatmap : List ℕ

-- The source's code has no error values: it returns or panics.
abbrev pub Call : Type 0 → Type 0
Call A = Run ⊥ A

pub new : Heap
new = record { heap_start = 0; heap_size = 0; heatmap = replicate (max_heap_blocks / 8) 0 }

pub init : Heap → ℕ → ℕ → Heap
init h heap_start heap_size = record h { heap_start = heap_start; heap_size = heap_size }

-- `!bit_mask` on a u8 is 255 - bit_mask.
pub set_bit : Heap → ℕ → Bool → Call Heap
set_bit h bit_idx hot =
    let byte_idx = bit_idx / 8 in
    let bit_mask = 2 ^ (bit_idx % 8) in
    read_at h.heatmap byte_idx >>= λ byte.
    write_at h.heatmap byte_idx
      (if hot then bit_or byte bit_mask else bit_and byte (255 - bit_mask))
    >>= λ heatmap. done (record h { heatmap = heatmap })

pub is_hot : Heap → ℕ → Call Bool
is_hot h bit_idx =
    read_at h.heatmap (bit_idx / 8) >>= λ byte. done (not (bit_and byte (2 ^ (bit_idx % 8)) == 0))

-- `for j in 0..n { set_bit(start + j, hot) }`, from the round `j` on.
pub set_bits : ℕ → ℕ → ℕ → Bool → Heap → Call Heap
set_bits zero start j hot h = done h
set_bits (suc n) start j hot h = set_bit h (start + j) hot >>= λ h'. set_bits n start (j + 1) hot h'

abbrev pub blocks_for : ℕ → ℕ
blocks_for size = (size + block_size - 1) / block_size

abbrev pub align_blocks : ℕ → ℕ
align_blocks align = if ltb block_size align then align / block_size else 1

-- The loop over the blocks, with `n` rounds left, at block `i`.
module _ (h : Heap) (needed align : ℕ) where
  pub scan : ℕ → ℕ → ℕ → ℕ → Call (ℕ × Heap)
  scan zero i consecutive start = done (0, h)
  scan (suc n) i consecutive start =
      let skip = scan n (i + 1) consecutive start in
      if consecutive == 0 && not (i % align == 0)
      then skip
      else (is_hot h i >>= λ hot.
          let broken = scan n (i + 1) 0 start in
          if hot
          then broken
          else (let start' = if consecutive == 0 then i else start in
              let longer = scan n (i + 1) (consecutive + 1) start' in
              if consecutive + 1 == needed
              then (set_bits needed start' 0 true h >>= λ h'.
                  done (h'.heap_start + start' * block_size, h'))
              else longer))

pub alloc : Heap → ℕ → ℕ → Call (ℕ × Heap)
unfolding scan set_bits is_hot set_bit
alloc h size align = scan h (blocks_for size) (align_blocks align) (h.heap_size / block_size) 0 0 0

pub dealloc : Heap → ℕ → ℕ → Call Heap
unfolding set_bits set_bit
dealloc h addr size =
    if ltb addr h.heap_start || leb (h.heap_start + h.heap_size) addr
    then panic
    else (let start_bit_idx = (addr - h.heap_start) / block_size in
        set_bits (blocks_for size) start_bit_idx 0 false h)
