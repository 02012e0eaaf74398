-- ===== src/LinkedList/Regions.antt =====
-- The regions of kernel/src/allocator/linked_list.rs: apart from one another before and after a search.
use polymorph_os.Prelude.{
  ℕ, ◌+◌, ◌^◌, ◌≤◌, ◌<◌, ◌≡◌, ◌⊎◌, inl, inr, List, [], ◌∷◌, ◌++◌, some, arith,
}
use polymorph_os.Prelude.{Option-cases, subst}
use polymorph_os.LinkedList.{ListNode, alloc_from_region, find_region}

-- Two regions that share no byte.
abbrev pub Apart : ListNode → ListNode → Type 0
Apart r s = (r.start_addr + r.size ≤ s.start_addr) ⊎ (s.start_addr + s.size ≤ r.start_addr)

abbrev pub ApartFrom : ListNode → List ListNode → Type 0
ApartFrom r [] = Unit
ApartFrom r (s ∷ regions) = Apart r s × ApartFrom r regions

abbrev pub AreApart : List ListNode → Type 0
AreApart [] = Unit
AreApart (r ∷ regions) = ApartFrom r regions × AreApart regions

-- No region wraps round the address space.
abbrev pub Fit : List ListNode → Type 0
Fit [] = Unit
Fit (r ∷ regions) = (r.start_addr + r.size < 2 ^ 64) × Fit regions

-- One region inside another.
abbrev pub Inside : ListNode → ListNode → Type 0
Inside r s = (s.start_addr ≤ r.start_addr) × (r.start_addr + r.size ≤ s.start_addr + s.size)

pub Apart-sym : (r s : ListNode) → Apart r s → Apart s r
Apart-sym r s (inl h) = inr h
Apart-sym r s (inr h) = inl h

pub Apart-Inside : (x r s : ListNode) → Inside r s → Apart x s → Apart x r
Apart-Inside x r s i (inl h) = inl (omega arith)
Apart-Inside x r s i (inr h) = inr (omega arith)

pub ApartFrom-append :
    (r : ListNode) (a b : List ListNode) → ApartFrom r a → ApartFrom r b → ApartFrom r (a ++ b)
ApartFrom-append r [] b h k = k
ApartFrom-append r (s ∷ a) b (h, hs) k = (h, ApartFrom-append r a b hs k)

-- `find_region` takes one region from the list, in which an allocation of the size fits.
pub record Taken (align_up : ℕ → ℕ → ℕ) (regions : List ListNode) (size align : ℕ)
    (region : ListNode) (start : ℕ) (rest : List ListNode) : Type 0 where
  pub at_start : start ≡ align_up region.start_addr align
  pub fits : start + size ≤ region.start_addr + region.size
  pub no_wrap : region.start_addr + region.size < 2 ^ 64
  pub fit : Fit rest
  pub apart : AreApart regions → ApartFrom region rest × AreApart rest
  pub others : (x : ListNode) → ApartFrom x regions → Apart x region × ApartFrom x rest

module _ (align_up : ℕ → ℕ → ℕ) where
  alloc_from_region_lem :
      (region : ListNode) (size align start : ℕ)
      → region.start_addr + region.size < 2 ^ 64
      → alloc_from_region align_up region size align ≡ some start
      → (start ≡ align_up region.start_addr align)
        × (start + size ≤ region.start_addr + region.size)
  unfolding alloc_from_region
  alloc_from_region_lem region size align start fits h = ground arith

  Taken-later :
      (r : ListNode) (regions : List ListNode) (size align : ℕ) (region : ListNode) (start : ℕ)
      (rest : List ListNode)
      → r.start_addr + r.size < 2 ^ 64
      → Taken align_up regions size align region start rest
      → Taken align_up (r ∷ regions) size align region start (r ∷ rest)
  Taken-later r regions size align region start rest f t = record {
    at_start = t.at_start;
    fits = t.fits;
    no_wrap = t.no_wrap;
    fit = (f, t.fit);
    apart = λ (hr, hs).
        let (from_r, rest_from_r) = t.others r hr in
        let (from_region, rest_apart) = t.apart hs in
        ((Apart-sym r region from_r, from_region), (rest_from_r, rest_apart));
    others = λ x (hx, hxs).
        let (from_region, from_rest) = t.others x hxs in (from_region, (hx, from_rest));
  }

  pub find_region-Taken :
      (regions : List ListNode) (size align : ℕ) (region : ListNode) (start : ℕ)
      (rest : List ListNode)
      → Fit regions
      → find_region align_up regions size align ≡ some (region, start, rest)
      → Taken align_up regions size align region start rest
  unfolding find_region
  find_region-Taken [] size align region start rest fit h = absurd cc
  find_region-Taken (r ∷ regions) size align region start rest (f, fit) h =
      elim (Option-cases (alloc_from_region align_up r size align)) [
        | inr (a, here) ↦
            let e = rw here at h in
            let is_r : r ≡ region = cc in
            let is_a : a ≡ start = cc in
            let is_rest : regions ≡ rest = cc in
            let (at, inside) = alloc_from_region_lem r size align a f here in
            subst (λ (l : List ListNode). Taken align_up (r ∷ regions) size align region start l)
              is_rest
              (subst (λ (s : ℕ). Taken align_up (r ∷ regions) size align region s regions) is_a
                (subst (λ (q : ListNode). Taken align_up (r ∷ regions) size align q a regions) is_r
                  (record {
                    at_start = at;
                    fits = inside;
                    no_wrap = f;
                    fit = fit;
                    apart = λ h. h;
                    others = λ x h. h;
                  })))
        | inl no_room ↦
            let e = rw no_room at h in
            elim (Option-cases (find_region align_up regions size align)) [
              | inl none_left ↦ let e' = rw none_left at e in absurd cc
              | inr ((r', start', rest'), later) ↦
                  let e' = rw later at e in
                  let is_r : r' ≡ region = cc in
                  let is_s : start' ≡ start = cc in
                  let is_l : r ∷ rest' ≡ rest = cc in
                  subst
                    (λ (l : List ListNode). Taken align_up (r ∷ regions) size align region start l)
                    is_l
                    (subst (λ (s : ℕ). Taken align_up (r ∷ regions) size align region s (r ∷ rest'))
                      is_s
                      (subst
                        (λ (q : ListNode).
                          Taken align_up (r ∷ regions) size align q start' (r ∷ rest'))
                        is_r
                        (Taken-later r regions size align r' start' rest' f
                          (find_region-Taken regions size align r' start' rest' fit later))))
            ]
      ]
