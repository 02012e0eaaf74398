-- ===== src/Bump/Tests.antt =====
-- A heap of 1024 bytes of kernel/src/allocator/bump.rs.
use polymorph_os.Prelude.{ℕ, ◌+◌, ◌-◌, ◌%◌, ◌≤◌, ◌≡◌, refl, [], ◌∷◌, arith}
use polymorph_os.LinkedList.{Layout}
use polymorph_os.LinkedList.Sound.{block}
use polymorph_os.Bump.{BumpAllocator, new, init, alloc, dealloc}
use polymorph_os.Bump.Reach.{IsSound, allocates, releases, Reaches, begin, step, Reaches-within}

-- The next multiple of the alignment.
abbrev align_up : ℕ → ℕ → ℕ
align_up addr align = addr + (align - addr % align) % align

le-align_up : (addr align : ℕ) → addr ≤ align_up addr align
le-align_up addr align = omega arith

abbrev fresh_heap : BumpAllocator
fresh_heap = record { heap_start = 4096; heap_end = 5120; next = 4096; allocations = 0 }

set_up : init 4096 1024 new ≡ fresh_heap
unfolding init new
set_up = refl

abbrev hundred : Layout
hundred = record { size = 100; align = 8 }

abbrev in_use : BumpAllocator
in_use = record fresh_heap { next = 4196; allocations = 1 }

allocated : alloc align_up hundred fresh_heap ≡ (4096, in_use)
unfolding alloc
allocated = refl

released : dealloc in_use ≡ fresh_heap
unfolding dealloc
released = refl

there_and_back : Reaches align_up fresh_heap [] fresh_heap []
there_and_back =
    step {live = block 4096 100 ∷ []}
      (step (begin refl refl)
        (allocates hundred 4096 (omega arith) allocated (λ e. omega arith) refl))
      (releases (block 4096 100) [] [] refl released refl (omega arith))

fresh_heap-IsSound : IsSound fresh_heap []
fresh_heap-IsSound = record {
  counted = refl;
  forward = omega arith;
  in_heap = omega arith;
  within = tt;
  apart = tt;
}

Reaches-within_example : IsSound fresh_heap []
Reaches-within_example =
    Reaches-within align_up le-align_up fresh_heap [] fresh_heap [] fresh_heap-IsSound
      there_and_back
