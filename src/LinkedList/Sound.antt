-- ===== src/LinkedList/Sound.antt =====
-- Live allocations and free regions of kernel/src/allocator/linked_list.rs that share no byte.
use polymorph_os.Prelude.{ℕ, ◌+◌, ◌^◌, ◌<◌, List, [], ◌∷◌, ◌++◌}
use polymorph_os.LinkedList.{ListNode}
use polymorph_os.LinkedList.Regions.{
  Apart, ApartFrom, AreApart, Fit, Inside, Apart-sym, Apart-Inside, Taken,
}

-- The live allocations, each with the size that `size_align` gave it, and the free regions.
pub record LiveHeap : Type 0 where
  pub live : List ListNode
  pub regions : List ListNode

-- Live allocations and free regions share no byte with one another.
abbrev pub AllFrom : List ListNode → List ListNode → Type 0
AllFrom [] regions = Unit
AllFrom (b ∷ live) regions = ApartFrom b regions × AllFrom live regions

pub record IsSound (heap : LiveHeap) : Type 0 where
  pub live_apart : AreApart heap.live
  pub regions_apart : AreApart heap.regions
  pub between : AllFrom heap.live heap.regions
  pub live_fit : Fit heap.live
  pub regions_fit : Fit heap.regions

abbrev pub block : ℕ → ℕ → ListNode
block ptr size = record { start_addr = ptr; size = size }

pub AllFrom-Taken :
    (align_up : ℕ → ℕ → ℕ) (regions : List ListNode) (size align : ℕ) (region : ListNode)
    (start : ℕ) (rest live : List ListNode)
    → Taken align_up regions size align region start rest
    → AllFrom live regions
    → ApartFrom region live × AllFrom live rest
AllFrom-Taken align_up regions size align region start rest [] t h = (tt, tt)
AllFrom-Taken align_up regions size align region start rest (b ∷ live) t (h, hs) =
    let (from_region, from_rest) = t.others b h in
    let (later, later') = AllFrom-Taken align_up regions size align region start rest live t hs in
    ((Apart-sym b region from_region, later), (from_rest, later'))

pub ApartFrom-Inside :
    (r s : ListNode) (regions : List ListNode)
    → Inside r s
    → ApartFrom s regions
    → ApartFrom r regions
ApartFrom-Inside r s [] i h = tt
ApartFrom-Inside r s (x ∷ regions) i (h, hs) =
    (Apart-sym x r (Apart-Inside x r s i (Apart-sym s x h)), ApartFrom-Inside r s regions i hs)

AllFrom-cons :
    (r : ListNode) (live regions : List ListNode)
    → ApartFrom r live
    → AllFrom live regions
    → AllFrom live (r ∷ regions)
AllFrom-cons r [] regions h k = tt
AllFrom-cons r (b ∷ live) regions (h, hs) (k, ks) =
    ((Apart-sym r b h, k), AllFrom-cons r live regions hs ks)

-- One live allocation and the others.
ApartFrom-split :
    (x b : ListNode) (before after : List ListNode)
    → ApartFrom x (before ++ (b ∷ after))
    → Apart x b × ApartFrom x (before ++ after)
ApartFrom-split x b [] after (h, hs) = (h, hs)
ApartFrom-split x b (c ∷ before) after (h, hs) =
    let (from_b, later) = ApartFrom-split x b before after hs in (from_b, (h, later))

pub AreApart-split :
    (b : ListNode) (before after : List ListNode)
    → AreApart (before ++ (b ∷ after))
    → ApartFrom b (before ++ after) × AreApart (before ++ after)
AreApart-split b [] after (h, hs) = (h, hs)
AreApart-split b (c ∷ before) after (h, hs) =
    let (from_b, from_later) = ApartFrom-split c b before after h in
    let (later, apart) = AreApart-split b before after hs in
    ((Apart-sym c b from_b, later), (from_later, apart))

AllFrom-split :
    (b : ListNode) (before after regions : List ListNode)
    → AllFrom (before ++ (b ∷ after)) regions
    → ApartFrom b regions × AllFrom (before ++ after) regions
AllFrom-split b [] after regions (h, hs) = (h, hs)
AllFrom-split b (c ∷ before) after regions (h, hs) =
    let (from_b, later) = AllFrom-split b before after regions hs in (from_b, (h, later))

Fit-split :
    (b : ListNode) (before after : List ListNode)
    → Fit (before ++ (b ∷ after))
    → (b.start_addr + b.size < 2 ^ 64) × Fit (before ++ after)
Fit-split b [] after (h, hs) = (h, hs)
Fit-split b (c ∷ before) after (h, hs) =
    let (fits, later) = Fit-split b before after hs in (fits, (h, later))

-- A region that is apart from everything can be put into the list.
pub IsSound-cons :
    (r : ListNode) (live regions : List ListNode)
    → ApartFrom r live
    → ApartFrom r regions
    → r.start_addr + r.size < 2 ^ 64
    → IsSound (record { live = live; regions = regions })
    → IsSound (record { live = live; regions = r ∷ regions })
IsSound-cons r live regions h k fits ok = record {
  live_apart = ok.live_apart;
  regions_apart = (k, ok.regions_apart);
  between = AllFrom-cons r live regions h ok.between;
  live_fit = ok.live_fit;
  regions_fit = (fits, ok.regions_fit);
}

pub release-IsSound :
    (b : ListNode) (before after regions : List ListNode)
    → IsSound (record { live = before ++ (b ∷ after); regions = regions })
    → IsSound (record { live = before ++ after; regions = b ∷ regions })
release-IsSound b before after regions ok =
    let (from_live, live_apart) = AreApart-split b before after ok.live_apart in
    let (from_regions, between) = AllFrom-split b before after regions ok.between in
    let (fits, live_fit) = Fit-split b before after ok.live_fit in
    IsSound-cons b (before ++ after) regions from_live from_regions fits (record {
      live_apart = live_apart;
      regions_apart = ok.regions_apart;
      between = between;
      live_fit = live_fit;
      regions_fit = ok.regions_fit;
    })
