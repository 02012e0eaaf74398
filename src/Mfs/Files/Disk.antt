-- ===== src/Mfs/Files/Disk.antt =====
-- A disk that works, for the runs of the operations on files of kernel/src/mfs.rs.
use polymorph_os.Prelude.{
  ℕ, zero, suc, ◌-◌, ◌≤◌, ◌≡◌, ◌≢◌, refl, sym, ap, ◌∙◌, false, inl, inr, [], ◌∷◌, ◌++◌, arith,
}
use polymorph_os.Prelude.{length, take, replicate, if◌then◌else◌, ltb, ◌==◌}
use polymorph_os.Prelude.{Run, done, fail, Bytes, Bool-cases}
use polymorph_os.Prelude.{length-take, length-append, length-replicate}
use polymorph_os.Mfs.{Drive}
use polymorph_os.Mfs.Files.Kept.{Keeps, padded}
use polymorph_os.Mfs.Files.Total.{Works}

-- A disk that holds what was written to each block, with zeros behind it.
abbrev pub held : (ℕ → Bytes) → ℕ → Bytes
held s k = take 4096 (s k ++ replicate 4096 0)

pub length-held : (s : ℕ → Bytes) (k : ℕ) → length (held s k) ≡ 4096
length-held s k = omega (
  arith,
  length-take 4096 (s k ++ replicate 4096 0),
  length-append (s k) (replicate 4096 0),
  length-replicate {A = ℕ} 4096 0,
)

abbrev pub put_block : (ℕ → Bytes) → ℕ → Bytes → Run ℕ (ℕ → Bytes)
put_block s lba bytes =
    if ltb 4096 (length bytes) then fail 0xFFFF else done (λ k. if k == lba then bytes else s k)

pub held_length :
    (s : ℕ → Bytes) (lba : ℕ) (block : Bytes) (s' : ℕ → Bytes)
    → ◌≡◌ {A = Run ℕ (Bytes × (ℕ → Bytes))} (done (held s lba, s)) (done (block, s'))
    → length block ≡ 4096
held_length s lba block s' h = let e : block ≡ held s lba = cc in ap length e ∙ length-held s lba

abbrev pub disk : Drive
disk = record {
  State = ℕ → Bytes;
  read_block = λ s lba. done (held s lba, s);
  write_block = put_block;
  length-read_block = held_length;
}

take-zeros : (n m : ℕ) → n ≤ m → take n (replicate m 0) ≡ replicate {A = ℕ} n 0
take-zeros zero m h = refl
take-zeros (suc n) zero h = absurd (omega arith)
take-zeros (suc n) (suc m) h = ap (◌∷◌ 0) (take-zeros n m (omega arith))

take-padded :
    (n m : ℕ) (xs : Bytes)
    → length xs ≤ n
    → n ≤ m
    → take n (xs ++ replicate m 0) ≡ xs ++ replicate (n - length xs) 0
take-padded n m [] h k = let e : n - 0 ≡ n = omega arith in rw e (take-zeros n m k)
take-padded zero m (x ∷ xs) h k = absurd (omega arith)
take-padded (suc n) m (x ∷ xs) h k =
    let e : suc n - suc (length xs) ≡ n - length xs = omega arith in
    rw e (ap (◌∷◌ x) (take-padded n m xs (omega arith) (omega arith)))

pub disk_reads :
    (s : ℕ → Bytes) (lba : ℕ) (block : Bytes) (s' : ℕ → Bytes)
    → ◌≡◌ {A = Run ℕ (Bytes × (ℕ → Bytes))} (done (held s lba, s)) (done (block, s'))
    → (block ≡ held s lba) × ((k : ℕ) → held s' k ≡ held s k)
disk_reads s lba block s' h = let same : s ≡ s' = cc in (cc, λ k. ap (λ t. held t k) (sym same))

pub disk_writes :
    (s : ℕ → Bytes) (lba : ℕ) (bytes : Bytes) (s' : ℕ → Bytes)
    → put_block s lba bytes ≡ done s'
    → (held s' lba ≡ padded bytes) × ((k : ℕ) → k ≢ lba → held s' k ≡ held s k)
disk_writes s lba bytes s' h = elim (Bool-cases (ltb 4096 (length bytes))) [
  | inl y ↦ absurd (refused (rw y at h))
  | inr n ↦ stored (in_block n) (rw n at h)
]
  where
    refused : ◌≢◌ {A = Run ℕ (ℕ → Bytes)} (fail 0xFFFF) (done s')
    refused e = cc

    in_block : ltb 4096 (length bytes) ≡ false → length bytes ≤ 4096
    in_block n = ground arith

    other : (k : ℕ) → k ≢ lba → (if k == lba then bytes else s k) ≡ s k
    other k ne = ground arith

    stored :
        length bytes ≤ 4096
        → ◌≡◌ {A = Run ℕ (ℕ → Bytes)} (done (λ k. if k == lba then bytes else s k)) (done s')
        → (held s' lba ≡ padded bytes) × ((k : ℕ) → k ≢ lba → held s' k ≡ held s k)
    stored small e =
        let now : s' ≡ (λ k. if k == lba then bytes else s k) = cc in
        let here : s' lba ≡ bytes = ap (λ t. t lba) now ∙ ground arith in
        (
          ap (λ b. take 4096 (b ++ replicate 4096 0)) here
              ∙ take-padded 4096 4096 bytes small (omega arith),
          λ k ne. ap (λ b. take 4096 (b ++ replicate 4096 0)) (ap (λ t. t k) now ∙ other k ne),
        )

abbrev pub disk_keeps : Keeps disk
disk_keeps = record { block_at = held; reads = disk_reads; writes = disk_writes }

pub put_block-small :
    (s : ℕ → Bytes) (lba : ℕ) (bytes : Bytes)
    → length bytes ≤ 4096
    → put_block s lba bytes ≡ done (λ k. if k == lba then bytes else s k)
put_block-small s lba bytes small = let l : ltb 4096 (length bytes) ≡ false = ground arith in rw l

pub disk_works : Works disk
disk_works = record {
  reads = λ s lba. (held s lba, s, refl);
  writes = λ s lba bytes small.
      (λ k. if k == lba then bytes else s k, put_block-small s lba bytes small);
}
