-- ===== src/Bump/Reach.antt =====
-- The allocator of kernel/src/allocator/bump.rs with its live allocations, over any sequence of its
-- operations.
use polymorph_os.Prelude.{
  ℕ, ◌+◌, ◌-◌, ◌%◌, ◌^◌, ◌≤◌, ◌<◌, ◌≡◌, sym, ◌∙◌, inl, inr, List, [], ◌∷◌, ◌++◌, arith,
}
use polymorph_os.Prelude.{length, ==_iff, Bool-cases, ltb, leb, ◌==◌, subst, length-append}
use polymorph_os.LinkedList.{ListNode, Layout}
use polymorph_os.LinkedList.Regions.{ApartFrom, AreApart}
use polymorph_os.LinkedList.Sound.{block, AreApart-split}
use polymorph_os.Bump.{BumpAllocator, alloc, dealloc}

-- Every live allocation lies between the start of the heap and the next place.
abbrev pub AllWithin : ℕ → ℕ → List ListNode → Type 0
AllWithin lo hi [] = Unit
AllWithin lo hi (b ∷ live) =
    (lo ≤ b.start_addr) × (b.start_addr + b.size ≤ hi) × AllWithin lo hi live

pub record IsSound (bump : BumpAllocator) (live : List ListNode) : Type 0 where
  pub counted : bump.allocations ≡ length live
  pub forward : bump.heap_start ≤ bump.next
  pub in_heap : bump.next ≤ bump.heap_end
  pub within : AllWithin bump.heap_start bump.next live
  pub apart : AreApart live

module _ (align_up : ℕ → ℕ → ℕ) where
  -- An allocation that is not answered by the null pointer, with the counter below its limit, and the
  -- release of a live allocation.
  pub data Step : BumpAllocator → List ListNode → BumpAllocator → List ListNode → Type 0 where
    allocates :
        {bump bump' : BumpAllocator} {live live' : List ListNode} (layout : Layout) (ptr : ℕ)
        → bump.allocations + 1 < 2 ^ 64
        → alloc align_up layout bump ≡ (ptr, bump')
        → (ptr ≡ 0 → ⊥)
        → live' ≡ block ptr layout.size ∷ live
        → Step bump live bump' live'
    releases :
        {bump bump' : BumpAllocator} {live live' : List ListNode} (b : ListNode)
        (before after : List ListNode)
        → live ≡ before ++ (b ∷ after)
        → dealloc bump ≡ bump'
        → live' ≡ before ++ after
        → bump.allocations < 2 ^ 64
        → Step bump live bump' live'

  pub data Reaches (start : BumpAllocator) (held : List ListNode)
      : BumpAllocator → List ListNode → Type 0 where
    begin :
        {bump : BumpAllocator} {live : List ListNode}
        → bump ≡ start
        → live ≡ held
        → Reaches start held bump live
    step :
        {bump bump' : BumpAllocator} {live live' : List ListNode}
        → Reaches start held bump live
        → Step bump live bump' live'
        → Reaches start held bump' live'

AllWithin-raise :
    (lo hi hi' : ℕ) (live : List ListNode) → hi ≤ hi' → AllWithin lo hi live → AllWithin lo hi' live
AllWithin-raise lo hi hi' [] h k = tt
AllWithin-raise lo hi hi' (b ∷ live) h (k, k', ks) =
    (k, omega arith, AllWithin-raise lo hi hi' live h ks)

AllWithin-split :
    (lo hi : ℕ) (b : ListNode) (before after : List ListNode)
    → AllWithin lo hi (before ++ (b ∷ after))
    → AllWithin lo hi (before ++ after)
AllWithin-split lo hi b [] after (h, h', hs) = hs
AllWithin-split lo hi b (c ∷ before) after (h, h', hs) =
    (h, h', AllWithin-split lo hi b before after hs)

-- What lies behind the next place is apart from all live allocations.
ApartFrom-behind :
    (lo hi ptr size : ℕ) (live : List ListNode)
    → AllWithin lo hi live
    → hi ≤ ptr
    → ApartFrom (block ptr size) live
ApartFrom-behind lo hi ptr size [] h k = tt
ApartFrom-behind lo hi ptr size (b ∷ live) (h, h', hs) k =
    (inr (omega arith), ApartFrom-behind lo hi ptr size live hs k)

none_live : (live : List ListNode) (lo hi : ℕ) → length live ≡ 0 → AllWithin lo hi live
none_live [] lo hi h = tt
none_live (b ∷ live) lo hi h = absurd (omega arith)

release-IsSound :
    (bump : BumpAllocator) (b : ListNode) (before after : List ListNode)
    → bump.allocations < 2 ^ 64
    → IsSound bump (before ++ (b ∷ after))
    → IsSound (dealloc bump) (before ++ after)
unfolding dealloc
release-IsSound bump b before after small ok =
    let left : bump.allocations ≡ length (before ++ after) + 1 =
      omega (arith, ok.counted, length-append before (b ∷ after), length-append before after) in
    let counts : (bump.allocations + 2 ^ 64 - 1) % 2 ^ 64 ≡ length (before ++ after) =
      omega (arith, left) in
    let apart = (AreApart-split b before after ok.apart).1 in
    elim (Bool-cases ((bump.allocations + 2 ^ 64 - 1) % 2 ^ 64 == 0)) [
      | inl y ↦ rw y (record {
        counted = counts;
        forward = omega arith;
        in_heap = omega (arith, ok.forward, ok.in_heap);
        within =
            none_live (before ++ after) bump.heap_start bump.heap_start
              (sym counts ∙ (==_iff ((bump.allocations + 2 ^ 64 - 1) % 2 ^ 64) 0).0 y);
        apart = apart;
      })
      | inr n ↦ rw n (record {
        counted = counts;
        forward = ok.forward;
        in_heap = ok.in_heap;
        within = AllWithin-split bump.heap_start bump.next b before after ok.within;
        apart = apart;
      })
    ]

module _ (align_up : ℕ → ℕ → ℕ) (le-align_up : (addr align : ℕ) → addr ≤ align_up addr align) where
  alloc-IsSound :
      (bump bump' : BumpAllocator) (live : List ListNode) (layout : Layout) (ptr : ℕ)
      → bump.allocations + 1 < 2 ^ 64
      → alloc align_up layout bump ≡ (ptr, bump')
      → (ptr ≡ 0 → ⊥)
      → IsSound bump live
      → IsSound bump' (block ptr layout.size ∷ live)
  unfolding alloc
  alloc-IsSound bump bump' live layout ptr small h real ok =
      let start = align_up bump.next layout.align in
      let end = start + layout.size in
      let ahead = le-align_up bump.next layout.align in
      elim (Bool-cases (leb (2 ^ 64) end)) [
        | inl over ↦ let e = rw over at h in let zero : 0 ≡ ptr = cc in absurd (real (sym zero))
        | inr below ↦
            let e = rw below at h in
            elim (Bool-cases (ltb bump.heap_end end)) [
              | inl full ↦
                  let e' = rw full at e in let zero : 0 ≡ ptr = cc in absurd (real (sym zero))
              | inr room ↦
                  let e' = rw room at e in
                  let at : start ≡ ptr = cc in
                  let moved : BumpAllocator = record bump {
                    next = end;
                    allocations = (bump.allocations + 1) % 2 ^ 64;
                  } in
                  let is_moved : moved ≡ bump' = cc in
                  subst (λ (p : ℕ). IsSound bump' (block p layout.size ∷ live)) at
                    (subst (λ (q : BumpAllocator). IsSound q (block start layout.size ∷ live))
                      is_moved
                      (record {
                        counted = omega (arith, ok.counted);
                        forward = omega (arith, ok.forward, ahead);
                        in_heap = ground arith;
                        within = (
                          omega (arith, ok.forward, ahead),
                          omega arith,
                          AllWithin-raise bump.heap_start bump.next end live (omega arith)
                              ok.within,
                        );
                        apart = (
                          ApartFrom-behind bump.heap_start bump.next start layout.size live
                              ok.within ahead,
                          ok.apart,
                        );
                      }))
            ]
      ]

  Step-IsSound :
      (bump bump' : BumpAllocator) (live live' : List ListNode)
      → Step align_up bump live bump' live'
      → IsSound bump live
      → IsSound bump' live'
  Step-IsSound bump bump' live live' (allocates layout ptr small ran real now) ok =
      subst (IsSound bump') (sym now) (alloc-IsSound bump bump' live layout ptr small ran real ok)
  Step-IsSound bump bump' live live' (releases b before after was ran now small) ok =
      subst (IsSound bump') (sym now) (
        subst (λ (q : BumpAllocator). IsSound q (before ++ after)) ran
          (release-IsSound bump b before after small (subst (IsSound bump) was ok)))

  -- Where `align_up` does not go down, and with its counter below 2^64, no sequence of allocations and
  -- releases makes two live allocations overlap or one leave the heap, although the allocator starts
  -- over when the last of them is released: its counter is always the number of live allocations.
  pub Reaches-within :
      (start : BumpAllocator) (held : List ListNode) (bump : BumpAllocator) (live : List ListNode)
      → IsSound start held
      → Reaches align_up start held bump live
      → IsSound bump live
  Reaches-within start held bump live ok (begin same same') =
      subst (λ (q : BumpAllocator). IsSound q live) (sym same)
        (subst (IsSound start) (sym same') ok)
  Reaches-within start held bump live ok (step {bump = b} {live = l} before last) =
      Step-IsSound b bump l live last (Reaches-within start held b l ok before)
