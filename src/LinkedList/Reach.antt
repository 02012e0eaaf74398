-- ===== src/LinkedList/Reach.antt =====
-- The allocator of kernel/src/allocator/linked_list.rs with the allocations that are live, over any
-- sequence of its operations.
use polymorph_os.Prelude.{
  ℕ, ◌+◌, ◌-◌, ◌^◌, ◌≤◌, ◌≡◌, sym, ◌∙◌, inl, inr, ◌&&◌, List, ◌∷◌, ◌++◌, arith,
}
use polymorph_os.Prelude.{done, bind-done, ◌==◌}
use polymorph_os.Prelude.{Option-cases, Bool-cases, ltb, leb, subst}
use polymorph_os.LinkedList.{
  ListNode, Layout, end_addr, node_size, node_align, size_align, add_free_region, find_region,
  split_off, alloc, dealloc,
}
use polymorph_os.LinkedList.Regions.{Inside, Taken, find_region-Taken}
use polymorph_os.LinkedList.Sound.{
  LiveHeap, IsSound, block, AllFrom-Taken, ApartFrom-Inside, IsSound-cons, release-IsSound,
}

module _ (align_up : ℕ → ℕ → ℕ) where
  -- What the caller of the allocator may do: an allocation that is not answered by the null pointer,
  -- and the release of a live allocation with its own layout.
  pub data Step : LiveHeap → LiveHeap → Type 0 where
    allocates :
        {heap : LiveHeap} (layout : Layout) (size align ptr : ℕ) (regions : List ListNode)
        → size_align layout ≡ done (size, align)
        → alloc align_up layout heap.regions ≡ done (ptr, regions)
        → (ptr ≡ 0 → ⊥)
        → Step heap (record { live = block ptr size ∷ heap.live; regions = regions })
    releases :
        {heap : LiveHeap} (layout : Layout) (size align ptr : ℕ)
        (before after regions : List ListNode)
        → heap.live ≡ before ++ (block ptr size ∷ after)
        → size_align layout ≡ done (size, align)
        → dealloc align_up ptr layout heap.regions ≡ done regions
        → Step heap (record { live = before ++ after; regions = regions })

  pub data Reaches (start : LiveHeap) : LiveHeap → Type 0 where
    begin : Reaches start start
    step : {heap heap' : LiveHeap} → Reaches start heap → Step heap heap' → Reaches start heap'

  add_free_region-done :
      (addr size : ℕ) (regions regions' : List ListNode)
      → add_free_region align_up addr size regions ≡ done regions'
      → regions' ≡ block addr size ∷ regions
  unfolding add_free_region
  add_free_region-done addr size regions regions' h =
      elim (Bool-cases ((align_up addr node_align == addr) && leb node_size size)) [
        | inl y ↦ let e = rw y at h in cc
        | inr n ↦ let e = rw n at h in absurd cc
      ]

module _ (align_up : ℕ → ℕ → ℕ) (le-align_up : (addr align : ℕ) → addr ≤ align_up addr align) where
  take-IsSound :
      (heap : LiveHeap) (size align : ℕ) (region : ListNode) (start : ℕ) (rest : List ListNode)
      → IsSound heap
      → Taken align_up heap.regions size align region start rest
      → IsSound (record { live = block start size ∷ heap.live; regions = rest })
  take-IsSound heap size align region start rest ok t =
      let behind = le-align_up region.start_addr align in
      let inside : Inside (block start size) region = omega (arith, t.at_start, t.fits, behind) in
      let (from_region, apart) = t.apart ok.regions_apart in
      let (region_live, live_rest) =
        AllFrom-Taken align_up heap.regions size align region start rest heap.live t ok.between in
      record {
        live_apart = (
          ApartFrom-Inside (block start size) region heap.live inside region_live,
          ok.live_apart,
        );
        regions_apart = apart;
        between = (ApartFrom-Inside (block start size) region rest inside from_region, live_rest);
        live_fit = (omega (arith, t.fits, t.no_wrap), ok.live_fit);
        regions_fit = t.fit;
      }

  split-IsSound :
      (heap : LiveHeap) (size align : ℕ) (region : ListNode) (start : ℕ) (rest : List ListNode)
      → IsSound heap
      → Taken align_up heap.regions size align region start rest
      → IsSound (record {
        live = block start size ∷ heap.live;
        regions = block (start + size) (end_addr region - (start + size)) ∷ rest;
      })
  split-IsSound heap size align region start rest ok t =
      let behind = le-align_up region.start_addr align in
      let excess = block (start + size) (end_addr region - (start + size)) in
      let ends : end_addr region ≡ region.start_addr + region.size = omega (arith, t.no_wrap) in
      let inside : Inside excess region = omega (arith, t.at_start, t.fits, behind, ends) in
      let (from_region, _) = t.apart ok.regions_apart in
      let (region_live, _) =
        AllFrom-Taken align_up heap.regions size align region start rest heap.live t ok.between in
      IsSound-cons excess (block start size ∷ heap.live) rest
        (inr (omega arith), ApartFrom-Inside excess region heap.live inside region_live)
        (ApartFrom-Inside excess region rest inside from_region)
        (omega (arith, t.fits, t.no_wrap, ends))
        (take-IsSound heap size align region start rest ok t)

  alloc-IsSound :
      (heap : LiveHeap) (size align ptr : ℕ) (regions : List ListNode)
      → IsSound heap
      → split_off align_up (find_region align_up heap.regions size align) size heap.regions
        ≡ done (ptr, regions)
      → (ptr ≡ 0 → ⊥)
      → IsSound (record { live = block ptr size ∷ heap.live; regions = regions })
  alloc-IsSound heap size align ptr regions ok h real =
      elim (Option-cases (find_region align_up heap.regions size align)) [
        | inl full ↦ let e = rw full at h in let zero : 0 ≡ ptr = cc in absurd (real (sym zero))
        | inr ((region, start, rest), found) ↦
            let t =
              find_region-Taken align_up heap.regions size align region start rest ok.regions_fit
                found in
            let e = rw found at h in
            elim (Bool-cases (leb (2 ^ 64) (start + size))) [
              | inl over ↦ let e' = rw over at e in absurd cc
              | inr below ↦
                  let e1 = rw below at e in
                  elim (Bool-cases (ltb 0 (end_addr region - (start + size)))) [
                    | inl more ↦
                        let (rest', freed, e2) =
                          bind-done
                            (add_free_region align_up (start + size)
                              (end_addr region - (start + size)) rest)
                            _ (ptr, regions) (rw more at e1) in
                        let at : start ≡ ptr = cc in
                        let is_rest : regions ≡ rest' = cc in
                        subst
                          (λ (p : ℕ).
                            IsSound (record { live = block p size ∷ heap.live; regions = regions }))
                          at
                          (subst
                            (λ (l : List ListNode).
                              IsSound (record { live = block start size ∷ heap.live; regions = l }))
                            (sym (is_rest ∙ add_free_region-done align_up _ _ rest rest' freed))
                            (split-IsSound heap size align region start rest ok t))
                    | inr exact ↦
                        let e2 = rw exact at e1 in
                        let at : start ≡ ptr = cc in
                        let is_rest : rest ≡ regions = cc in
                        subst
                          (λ (p : ℕ).
                            IsSound (record { live = block p size ∷ heap.live; regions = regions }))
                          at
                          (subst
                            (λ (l : List ListNode).
                              IsSound (record { live = block start size ∷ heap.live; regions = l }))
                            is_rest (take-IsSound heap size align region start rest ok t))
                  ]
            ]
      ]

  Step-IsSound : (heap heap' : LiveHeap) → Step align_up heap heap' → IsSound heap → IsSound heap'
  unfolding alloc dealloc
  Step-IsSound heap heap' (allocates layout size align ptr regions sized ran real) ok =
      alloc-IsSound heap size align ptr regions ok (rw sized at ran) real
  Step-IsSound heap heap' (releases layout size align ptr before after regions was sized ran) ok =
      subst (λ (l : List ListNode). IsSound (record { live = before ++ after; regions = l }))
        (sym (add_free_region-done align_up ptr size heap.regions regions (rw sized at ran)))
        (release-IsSound (block ptr size) before after heap.regions (
          subst (λ (l : List ListNode). IsSound (record { live = l; regions = heap.regions })) was
            ok))

  -- Where `align_up` does not go down, no sequence of allocations and of releases with their own layouts
  -- makes two live allocations overlap, nor one with a free region, nor two free regions, and none of
  -- them wraps round the address space, if it was so at the start.
  pub Reaches-IsSound :
      (heap heap' : LiveHeap) → IsSound heap → Reaches align_up heap heap' → IsSound heap'
  Reaches-IsSound heap heap' ok begin = ok
  Reaches-IsSound heap heap' ok (step {heap = heap1} before last) =
      Step-IsSound heap1 heap' last (Reaches-IsSound heap heap1 ok before)
