-- ===== src/LinkedList/Tests.antt =====
-- A heap of one free region of kernel/src/allocator/linked_list.rs.
use polymorph_os.Prelude.{ℕ, ◌+◌, ◌-◌, ◌%◌, ◌≤◌, ◌≡◌, refl, [], ◌∷◌, done, arith}
use polymorph_os.LinkedList.{
  Layout, size_align, alloc, dealloc, find_region, alloc_from_region, add_free_region,
}
use polymorph_os.LinkedList.Reach.{allocates, releases, Reaches, begin, step, Reaches-IsSound}
use polymorph_os.LinkedList.Sound.{LiveHeap, IsSound, block}

-- The next multiple of the alignment.
abbrev align_up : ℕ → ℕ → ℕ
align_up addr align = addr + (align - addr % align) % align

le-align_up : (addr align : ℕ) → addr ≤ align_up addr align
le-align_up addr align = omega arith

abbrev fresh_heap : LiveHeap
fresh_heap = record { live = []; regions = block 4096 1024 ∷ [] }

abbrev in_use : LiveHeap
in_use = record { live = block 4096 104 ∷ []; regions = block 4200 920 ∷ [] }

abbrev hundred : Layout
hundred = record { size = 100; align = 8 }

sized : size_align hundred ≡ done (104, 8)
unfolding size_align
sized = refl

allocated : alloc align_up hundred (block 4096 1024 ∷ []) ≡ done (4096, block 4200 920 ∷ [])
unfolding alloc size_align find_region alloc_from_region add_free_region
allocated = refl

released :
    dealloc align_up 4096 hundred (block 4200 920 ∷ [])
    ≡ done (block 4096 104 ∷ block 4200 920 ∷ [])
unfolding dealloc size_align add_free_region
released = refl

abbrev given_back : LiveHeap
given_back = record { live = []; regions = block 4096 104 ∷ block 4200 920 ∷ [] }

there_and_back : Reaches align_up fresh_heap given_back
there_and_back =
    step
      (step begin
        (allocates hundred 104 8 4096 (block 4200 920 ∷ []) sized allocated (λ e. omega arith)))
      (releases {heap = in_use} hundred 104 8 4096 [] [] (block 4096 104 ∷ block 4200 920 ∷ []) refl
        sized released)

fresh_heap-IsSound : IsSound fresh_heap
fresh_heap-IsSound = record {
  live_apart = tt;
  regions_apart = (tt, tt);
  between = tt;
  live_fit = tt;
  regions_fit = (omega arith, tt);
}

Reaches-IsSound_example : IsSound given_back
Reaches-IsSound_example =
    Reaches-IsSound align_up le-align_up fresh_heap given_back fresh_heap-IsSound there_and_back
