-- ===== src/Memory/Frames.antt =====
-- The frames that `BootInfoFrameAllocator` of kernel/src/memory.rs hands out.
use polymorph_os.Prelude.{
  ℕ, zero, suc, ◌+◌, ◌-◌, ◌*◌, ◌/◌, ◌%◌, ◌≤◌, ◌<◌, ◌≡◌, refl, List, [], ◌∷◌, ◌++◌, map, arith,
}
use polymorph_os.Prelude.{some, get_elem?, Bool-cases, inl, inr}
use polymorph_os.Memory.{
  MemoryRegion, step_by, usable_frames, BootInfoFrameAllocator, allocate_frame,
}

-- The frames from `low` on, with no overlap, in ascending order.
abbrev Spaced : ℕ → List ℕ → Type 0
Spaced low [] = Unit
Spaced low (f ∷ fs) = (low ≤ f) × Spaced (f + 4096) fs

Spaced-le : (low low' : ℕ) (fs : List ℕ) → low' ≤ low → Spaced low fs → Spaced low' fs
Spaced-le low low' [] le s = tt
Spaced-le low low' (f ∷ fs) le s = (omega arith, s.1)

step_by-Spaced :
    (low addr n : ℕ) (rest : List ℕ)
    → low ≤ addr
    → Spaced (addr + 4096 * n) rest
    → Spaced low (step_by addr n ++ rest)
unfolding step_by
step_by-Spaced low addr zero rest le s = Spaced-le (addr + 4096 * 0) low rest (omega arith) s
step_by-Spaced low addr (suc n) rest le s = (
  le,
  step_by-Spaced (addr + 4096) (addr + 4096) n rest (omega arith)
      (Spaced-le _ _ rest (omega arith) s),
)

Spaced-apart :
    (low i j a b : ℕ) (fs : List ℕ)
    → Spaced low fs
    → i < j
    → get_elem? fs i ≡ some a
    → get_elem? fs j ≡ some b
    → a + 4096 ≤ b
Spaced-apart low i j a b [] s lt hi hj = absurd cc
Spaced-apart low i zero a b (f ∷ fs) s lt hi hj = absurd (omega arith)
Spaced-apart low zero (suc j) a b (f ∷ fs) s lt hi hj =
    let e : f ≡ a = cc in omega (arith, e, Spaced-from (f + 4096) j b fs s.1 hj)
  where
    Spaced-from : (low j b : ℕ) (fs : List ℕ) → Spaced low fs → get_elem? fs j ≡ some b → low ≤ b
    Spaced-from low j b [] s h = absurd cc
    Spaced-from low zero b (f ∷ fs) s h = let e : f ≡ b = cc in omega (arith, e, s.0)
    Spaced-from low (suc j) b (f ∷ fs) s h = omega (arith, s.0, Spaced-from (f + 4096) j b fs s.1 h)
Spaced-apart low (suc i) (suc j) a b (f ∷ fs) s lt hi hj =
    Spaced-apart (f + 4096) i j a b fs s.1 (omega arith) hi hj

-- A memory map as a boot loader hands it over: regions that start at a page, in ascending order, with
-- no page in two of them.
abbrev pub InOrder : ℕ → List MemoryRegion → Type 0
InOrder low [] = Unit
InOrder low (r ∷ rs) =
    (low ≤ r.start)
    × (r.start % 4096 ≡ 0)
    × (r.start ≤ r.end)
    × InOrder ((r.end + 4095) / 4096 * 4096) rs

module _ (containing_address : ℕ → ℕ) where
  -- An address at which a frame starts is in that frame.
  abbrev pub KeepsStarts : Type 0
  KeepsStarts = (k : ℕ) → containing_address (4096 * k) ≡ 4096 * k

  map-step_by :
      (n addr : ℕ)
      → KeepsStarts
      → addr % 4096 ≡ 0
      → map containing_address (step_by addr n) ≡ step_by addr n
  unfolding step_by
  map-step_by zero addr keeps h = refl
  map-step_by (suc n) addr keeps h =
      let e : 4096 * (addr / 4096) ≡ addr = omega arith in
      let f : containing_address addr ≡ addr = rw e at (keeps (addr / 4096)) in
      rw (f, map-step_by n (addr + 4096) keeps (omega arith))

  usable_frames-Spaced :
      (low : ℕ) (rs : List MemoryRegion)
      → KeepsStarts
      → InOrder low rs
      → Spaced low (usable_frames containing_address rs)
  unfolding usable_frames
  usable_frames-Spaced low [] keeps o = tt
  usable_frames-Spaced low (r ∷ rs) keeps (le, aligned, ends, later) =
      let rest = usable_frames-Spaced ((r.end + 4095) / 4096 * 4096) rs keeps later in
      elim (Bool-cases r.is_usable) [
        | inl y ↦
            rw (y, map-step_by ((r.end - r.start + 4095) / 4096) r.start keeps aligned)
              (step_by-Spaced low r.start ((r.end - r.start + 4095) / 4096) _ le
                (Spaced-le _ _ _ (omega arith) rest))
        | inr n ↦ rw n (Spaced-le _ _ _ (omega arith) rest)
      ]

  -- The allocator after `n` calls of `allocate_frame`.
  abbrev pub after_calls :
      ℕ → BootInfoFrameAllocator containing_address → BootInfoFrameAllocator containing_address
  after_calls zero a = a
  after_calls (suc n) a = after_calls n (allocate_frame containing_address a).1

  after_calls_lem :
      (n : ℕ) (a : BootInfoFrameAllocator containing_address)
      → ((after_calls n a).next ≡ a.next + n)
        × ((after_calls n a).memory_regions ≡ a.memory_regions)
  unfolding allocate_frame
  after_calls_lem zero a = (omega arith, refl)
  after_calls_lem (suc n) a =
      let later = after_calls_lem n (record a { next = a.next + 1 }) in
      (omega (arith, later.0), later.1)

  -- Over a memory map of regions in order that start at a page, a frame that `allocate_frame` hands out,
  -- after any number of calls since it handed out another, starts at least a frame's size above the
  -- other: no frame is handed out twice.
  pub allocate_frame_apart :
      (a : BootInfoFrameAllocator containing_address) (n low f g : ℕ)
      → KeepsStarts
      → InOrder low a.memory_regions
      → (allocate_frame containing_address a).0 ≡ some f
      → (allocate_frame containing_address (after_calls (suc n) a)).0 ≡ some g
      → f + 4096 ≤ g
  unfolding allocate_frame
  allocate_frame_apart a n low f g keeps o hf hg =
      let (moved, same) = after_calls_lem (suc n) a in
      Spaced-apart low a.next (after_calls (suc n) a).next f g
        (usable_frames containing_address a.memory_regions)
        (usable_frames-Spaced low a.memory_regions keeps o) (omega (arith, moved)) hf
        (rw same at hg)
