-- ===== src/MictHeap/Tests.antt =====
-- Runs of the heatmap allocator of kernel/src/allocator/mict_global_allocator.rs on small heaps.
use polymorph_os.Prelude.{
  ℕ, zero, suc, ◌+◌, ◌≤◌, ◌<◌, ◌≡◌, refl, [], ◌∷◌, arith, done, ◌⊎◌, panic, true,
}
use polymorph_os.Prelude.{get_or}
use polymorph_os.MictHeap.{Heap, new, init, alloc, dealloc}
use polymorph_os.MictHeap.Heatmap.{IsValid, init-IsValid, hot_at}
use polymorph_os.MictHeap.Contract.{Refuses, Grants, Exhausts, alloc_first_fit, alloc_disjoint}
use polymorph_os.MictHeap.Contract.{dealloc-alloc, alloc_panics_when_full}

-- Ten blocks from address 4096 on; blocks 0, 1 and 3 are in use.
abbrev small : Heap
small = record { heap_start = 4096; heap_size = 640; heatmap = 0b1011 ∷ 0 ∷ [] }

-- After 100 bytes at alignment 128 (blocks 4 and 5), and after 64 bytes more (block 2).
abbrev small1 : Heap
small1 = record small { heatmap = 0b111011 ∷ 0 ∷ [] }

abbrev small2 : Heap
small2 = record small { heatmap = 0b111111 ∷ 0 ∷ [] }

-- A heap of ten blocks with bits for eight, all of them set.
abbrev too_large : Heap
too_large = record { heap_start = 4096; heap_size = 640; heatmap = 255 ∷ [] }

small-IsValid : IsValid small
small-IsValid = record { bytes = bytes }
  where
    bytes : (i : ℕ) → get_or small.heatmap i 0 < 256
    bytes zero = omega arith
    bytes (suc zero) = omega arith
    bytes (suc (suc i)) = omega arith

first_alloc : alloc small 100 128 ≡ done (4096 + 256, small1)
unfolding alloc
first_alloc = refl

second_alloc : alloc small1 64 8 ≡ done (4096 + 128, small2)
unfolding alloc
second_alloc = refl

no_room : alloc small 1000 8 ≡ done (0, small)
unfolding alloc
no_room = refl

free_first : dealloc small1 (4096 + 256) 100 ≡ done small
unfolding dealloc
free_first = refl

free_outside : dealloc small1 100 100 ≡ panic
unfolding dealloc
free_outside = refl

-- The kernel's heap, as `init_heap` sets it up: 64 MiB from HEAP_START on.
abbrev kernel_heap : Heap
kernel_heap = init new 0x4444_4444_0000 0x400_0000

alloc_first_fit_example :
    ((p : ℕ) × (h' : Heap) × (alloc kernel_heap 100 128 ≡ done (p, h'))
      × (Refuses kernel_heap 100 128 p h' ⊎ Grants kernel_heap 100 128 p h'))
    ⊎ ((alloc kernel_heap 100 128 ≡ panic) × Exhausts kernel_heap 100 128)
alloc_first_fit_example =
    alloc_first_fit kernel_heap 100 128 (init-IsValid 0x4444_4444_0000 0x400_0000) (omega arith)

alloc_disjoint_example : (4352 + 100 ≤ 4224) ⊎ (4224 + 64 ≤ 4352)
alloc_disjoint_example =
    alloc_disjoint small 100 128 64 8 4352 4224 small1 small2 small-IsValid (omega arith)
      (omega arith) (omega arith) (omega arith) first_alloc second_alloc

dealloc-alloc_example :
    (h'' : Heap) × (dealloc small1 4352 100 ≡ done h'')
    × IsValid h''
    × ((x : ℕ) → hot_at h'' x ≡ hot_at small x)
dealloc-alloc_example =
    dealloc-alloc small 100 128 4352 small1 small-IsValid (omega arith) (omega arith) first_alloc

all_hot : (i : ℕ) → i < 8 → hot_at too_large i ≡ true
unfolding hot_at
all_hot zero h = refl
all_hot (suc zero) h = refl
all_hot (suc (suc zero)) h = refl
all_hot (suc (suc (suc zero))) h = refl
all_hot (suc (suc (suc (suc zero)))) h = refl
all_hot (suc (suc (suc (suc (suc zero))))) h = refl
all_hot (suc (suc (suc (suc (suc (suc zero)))))) h = refl
all_hot (suc (suc (suc (suc (suc (suc (suc zero))))))) h = refl
all_hot (suc (suc (suc (suc (suc (suc (suc (suc i)))))))) h = absurd (omega arith)

alloc_panics_when_full_example : alloc too_large 100 8 ≡ panic
alloc_panics_when_full_example =
    alloc_panics_when_full too_large 100 8 (omega arith) (omega arith) (omega arith) all_hot
