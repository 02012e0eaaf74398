-- ===== src/MictHeap/Scan.antt =====
-- The block search of `alloc` in kernel/src/allocator/mict_global_allocator.rs: its invariant, and
-- what it finds.
use polymorph_os.Prelude.{ℕ, zero, suc, ◌+◌, ◌*◌, ◌/◌, ◌%◌, ◌≤◌, ◌<◌, ◌≢◌, ◌⊎◌}
use polymorph_os.Prelude.{not, ◌&&◌, ◌==◌, if◌then◌else◌, done, panic, ◌>>=◌}
use polymorph_os.Prelude.{◌≡◌, refl, arith, true, false, ap, subst}
use polymorph_os.Prelude.{Bool-cases, inl, inr, ==_iff, get_elem?-none}
use native.Mathlib.Decide.{ℕ_discrete, dec_lt}
use polymorph_os.MictHeap.{Heap, Call, is_hot, set_bits, scan, block_size}
use polymorph_os.MictHeap.Heatmap.{hot_at, capacity, IsValid, Wrote, is_hot_lem, set_bits_lem}

-- `n` blocks from `s` on are free; some block of them is in use.
abbrev pub IsFree : Heap → ℕ → ℕ → Type 0
IsFree h s n = (j : ℕ) → s ≤ j → j < s + n → hot_at h j ≡ false

abbrev pub IsBlocked : Heap → ℕ → ℕ → Type 0
IsBlocked h s n = (j : ℕ) × (s ≤ j) × (j < s + n) × (hot_at h j ≡ true)

module _ (h : Heap) (needed align total : ℕ) where
  -- `alloc` answers null, changes nothing, and every aligned place is blocked.
  pub record NoRoom (p : ℕ) (h' : Heap) : Type 0 where
    pub null : p ≡ 0
    pub same : h' ≡ h
    pub full : (s : ℕ) → s % align ≡ 0 → s + needed ≤ total → IsBlocked h s needed

  -- `alloc` panics: the heap has blocks that the heatmap has no bit for, and every aligned place that
  -- the heatmap covers is blocked.
  pub record Untracked : Type 0 where
    pub beyond : capacity h < total
    pub full : (s : ℕ) → s % align ≡ 0 → s + needed ≤ capacity h → IsBlocked h s needed

  -- `alloc` answers the first aligned place that is free, and marks its blocks and no other.
  pub record Found (p : ℕ) (h' : Heap) : Type 0 where
    pub block : ℕ
    pub address : p ≡ h.heap_start + block * block_size
    pub aligned : block % align ≡ 0
    pub fits : block + needed ≤ total
    pub tracked : block + needed ≤ capacity h
    pub free : IsFree h block needed
    pub first : (s : ℕ) → s % align ≡ 0 → s < block → IsBlocked h s needed
    pub marked : Wrote h block needed true h'

  -- Before block `i`: the open run of `c` free blocks from `start` on is aligned and too short, and
  -- no place before it, or before `i` where no run is open, will do.
  pub record Scanning (i c start : ℕ) : Type 0 where
    pub short : c < needed
    pub run : 0 < c → (start + c ≡ i) × (start % align ≡ 0) × IsFree h start c
    pub blocked : (s : ℕ) → s % align ≡ 0 → s < i → (0 < c → s < start) → IsBlocked h s needed

  Scanning-skip : (i start : ℕ) → Scanning i 0 start → i % align ≢ 0 → Scanning (i + 1) 0 start
  Scanning-skip i start v off = record {
    short = v.short;
    run = λ z. absurd (omega arith);
    blocked = λ s a lt k. elim (ℕ_discrete s i) [
      | yes e ↦ absurd (off (rw (← e) a))
      | no ne ↦ v.blocked s a (omega arith) k
    ];
  }

  Scanning-break :
      (i c start : ℕ) → Scanning i c start → hot_at h i ≡ true → Scanning (i + 1) 0 start
  Scanning-break i c start v hot = record {
    short = omega (arith, v.short);
    run = λ z. absurd (omega arith);
    blocked = λ s a lt k. elim (ℕ_discrete c 0) [
      | yes e ↦ elim (ℕ_discrete s i) [
        | yes now ↦ (i, omega arith, omega (arith, v.short), hot)
        | no ne ↦ v.blocked s a (omega arith) (λ z. absurd (omega arith))
      ]
      | no ne ↦ elim (dec_lt s start) [
        | yes before ↦ v.blocked s a (omega (arith, v.run (omega arith))) (λ _. before)
        | no after ↦ (i, omega arith, omega (arith, v.short, v.run (omega arith)), hot)
      ]
    ];
  }

  abbrev start_of : ℕ → ℕ → ℕ → ℕ
  start_of i c start = if c == 0 then i else start

  -- A free block makes the run one longer.
  longer :
      (i c start : ℕ)
      → Scanning i c start
      → hot_at h i ≡ false
      → (c ≡ 0 → i % align ≡ 0)
      → let s = start_of i c start in
        (s + (c + 1) ≡ i + 1)
        × (s % align ≡ 0)
        × IsFree h s (c + 1)
        × ((t : ℕ) → t % align ≡ 0 → t < s → IsBlocked h t needed)
  longer i c start v cold a = elim (ℕ_discrete c 0) [
    | yes e ↦
        let pick : start_of i c start ≡ i = ground arith in
        rw pick (
          omega arith,
          a e,
          λ j lo hi. rw (← (let q : i ≡ j = omega arith in q)) cold,
          λ t al lt. v.blocked t al lt (λ z. absurd (omega arith)),
        )
    | no ne ↦
        let pick : start_of i c start ≡ start = ground arith in
        let (ends, al, free) = v.run (omega arith) in
        rw pick (
          omega arith,
          al,
          λ j lo hi. elim (ℕ_discrete i j) [
            | yes e ↦ rw (← e) cold
            | no other ↦ free j lo (omega arith)
          ],
          λ t al lt. v.blocked t al (omega arith) (λ _. lt),
        )
  ]

  -- The search from block `i` on.
  abbrev pub Ends : Call (ℕ × Heap) → Type 0
  Ends r =
      ((p : ℕ) × (h' : Heap) × (r ≡ done (p, h')) × (NoRoom p h' ⊎ Found p h'))
      ⊎ ((r ≡ panic) × Untracked)

  -- The run has become long enough.
  finish :
      (i c start : ℕ)
      → IsValid h
      → i < total
      → i < capacity h
      → Scanning i c start
      → hot_at h i ≡ false
      → (c ≡ 0 → i % align ≡ 0)
      → c + 1 ≡ needed
      → Ends (
          set_bits needed (start_of i c start) 0 true h >>= λ h'.
          done (h'.heap_start + start_of i c start * block_size, h'))
  finish i c start v lt le inv cold a enough =
      let s = start_of i c start in
      let (ends, al, free, before) = longer i c start inv cold a in
      let (h', run, marked) = set_bits_lem needed s 0 true h v.bytes (omega arith) in
      let z : s + 0 ≡ s = omega arith in
      inl (
        h'.heap_start + s * block_size,
        h',
        rw run,
        inr (record {
          block = s;
          address = ap (λ k. k + s * block_size) marked.start;
          aligned = al;
          fits = omega arith;
          tracked = omega arith;
          free = subst (IsFree h s) enough free;
          first = before;
          marked = rw z at marked;
        }),
      )

  -- A block that the heatmap has no bit for.
  beyond : (i : ℕ) → capacity h ≤ i → is_hot h i ≡ panic
  unfolding is_hot
  beyond i out = rw (get_elem?-none h.heatmap (i / 8) (omega arith))

  pub scan_lem :
      (n i c start : ℕ)
      → IsValid h
      → i + n ≡ total
      → Scanning i c start
      → Ends (scan h needed align n i c start)
  unfolding scan
  scan_lem zero i c start v e inv = inl (
    0,
    h,
    refl,
    inl (record {
      null = refl;
      same = refl;
      full = λ s a fits.
          inv.blocked s a (omega (arith, inv.short)) (λ z. omega (arith, inv.short, inv.run z));
    }),
  )
  scan_lem (suc n) i c start v e inv = elim (Bool-cases (c == 0 && not (i % align == 0))) [
    | inl off ↦
        let c0 : c ≡ 0 = ground arith in
        rw off (
          scan_lem n (i + 1) c start v (omega arith)
            (rw c0 (Scanning-skip i start (rw c0 at inv) (ground arith))))
    | inr on ↦ elim (dec_lt i (capacity h)) [
      | no out ↦
          let gone : is_hot h i ≡ panic = beyond i (omega arith) in
          rw (on, gone)
            (inr (
              refl,
              record {
                beyond = omega arith;
                full = λ s a fits.
                    inv.blocked s a (omega (arith, inv.short))
                      (λ z. omega (arith, inv.short, inv.run z));
              },
            ))
      | yes in_bits ↦
          rw (on, is_hot_lem h i in_bits)
            (elim (Bool-cases (hot_at h i)) [
              | inl hot ↦
                  rw hot
                    (scan_lem n (i + 1) 0 start v (omega arith) (Scanning-break i c start inv hot))
              | inr cold ↦
                  let a : c ≡ 0 → i % align ≡ 0 = λ z. ground arith in
                  rw cold (elim (Bool-cases (c + 1 == needed)) [
                    | inl enough ↦ rw enough (
                        finish i c start v (omega arith) in_bits inv cold a ((==_iff _ _).0 enough))
                    | inr short ↦
                        let (ends, al, free, before) = longer i c start inv cold a in
                        rw short (
                          scan_lem n (i + 1) (c + 1) (start_of i c start) v (omega arith) (record {
                            short = ground (arith, inv.short);
                            run = λ _. (ends, al, free);
                            blocked = λ s al2 lt k. before s al2 (k (omega arith));
                          }))
                  ])
            ])
    ]
  ]
