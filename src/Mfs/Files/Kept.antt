-- ===== src/Mfs/Files/Kept.antt =====
-- A drive that keeps what is written to it, and what one access of the file system comes to on it.
use polymorph_os.Prelude.{
  ℕ, zero, suc, ◌+◌, ◌*◌, ◌-◌, ◌%◌, ◌^◌, ◌≤◌, ◌≡◌, ◌≢◌, refl, sym, ap, ◌∙◌, true, inl, inr, ◌&&◌,
  List, [], ◌∷◌, ◌++◌, Option, none, some, arith, min, append-nil,
}
use polymorph_os.Prelude.{length, take, drop, replicate, leb, ltb, if◌then◌else◌, Bool-cases}
use polymorph_os.Prelude.{Run, done, panic, map_err, slice, Bytes, bind-done, map_err-done}
use polymorph_os.Prelude.{
  subst, Bool, ◌==◌, ==_iff, length-take, length-append, length-replicate, length-drop,
}
use polymorph_os.MdoVm.{MdoContext}
use polymorph_os.Mfs.{
  Drive, MfsError, mft_read_failed, mft_write_failed, data_block_write_failed, verify_mdo_access,
}
use polymorph_os.Mfs.Reads.{IsGranted, verify_mdo_access-IsGranted}
use polymorph_os.Mfs.Table.{FileEntry, parse_mft, new_mft_string, new_mft_buffer}
use polymorph_os.Mfs.Files.{read_mft, write_mft, write_chunks}

-- A block of 4096 bytes that begins with `bytes` and is zero behind them.
abbrev pub padded : Bytes → Bytes
padded bytes = bytes ++ replicate (4096 - length bytes) 0

-- A read answers the block at its number and changes none; a write changes its own block only, to the
-- bytes written with zeros behind them.
pub record Keeps (drive : Drive) : Type 0 where
  pub block_at : drive.State → ℕ → Bytes
  pub reads :
      (s : drive.State) (lba : ℕ) (block : Bytes) (s' : drive.State)
      → drive.read_block s lba ≡ done (block, s')
      → (block ≡ block_at s lba) × ((k : ℕ) → block_at s' k ≡ block_at s k)
  pub writes :
      (s : drive.State) (lba : ℕ) (bytes : Bytes) (s' : drive.State)
      → drive.write_block s lba bytes ≡ done s'
      → (block_at s' lba ≡ padded bytes) × ((k : ℕ) → k ≢ lba → block_at s' k ≡ block_at s k)

pub length-new_mft_buffer : (entries : List FileEntry) → length (new_mft_buffer entries) ≡ 4096
unfolding new_mft_buffer
length-new_mft_buffer entries =
    let copied = min (length (new_mft_string entries)) 4096 in
    omega (
      arith,
      length-append (take copied (new_mft_string entries)) (replicate (4096 - copied) 0),
      length-take copied (new_mft_string entries),
      length-replicate {A = ℕ} (4096 - copied) 0,
    )

padded-new_mft_buffer :
    (entries : List FileEntry) → padded (new_mft_buffer entries) ≡ new_mft_buffer entries
padded-new_mft_buffer entries =
    rw (length-new_mft_buffer entries) (append-nil (new_mft_buffer entries))

-- The bytes of a file that go into its block `j`.
abbrev pub chunk : Bytes → ℕ → Bytes
chunk bytes j = take 4096 (drop (j * 4096) bytes)

-- The blocks from `lba + i` to `lba + i + n` with the chunks of `bytes`, the others as they were.
abbrev pub filled : Bytes → ℕ → ℕ → ℕ → (ℕ → Bytes) → ℕ → Bytes
filled bytes lba i n old k =
    if leb (lba + i) k && ltb k (lba + i + n) then padded (chunk bytes (k - lba)) else old k

take-min {ℓ} : {A : Type ℓ} (n : ℕ) (xs : List A) → take (min n (length xs)) xs ≡ take n xs
take-min zero xs = let e : min 0 (length xs) ≡ 0 = omega arith in rw e
take-min (suc n) [] = let e : min (suc n) 0 ≡ 0 = omega arith in rw e
take-min (suc n) (x ∷ xs) =
    let e : min (suc n) (suc (length xs)) ≡ suc (min n (length xs)) = omega arith in
    rw e (ap (◌∷◌ x) (take-min n xs))

slice-chunk :
    (bytes : Bytes) (i : ℕ) (c : Bytes)
    → slice {E = MfsError} bytes (i * 4096) (min (i * 4096 + 4096) (length bytes)) ≡ done c
    → c ≡ chunk bytes i
slice-chunk bytes i c h = elim (Bool-cases in_range) [
  | inl y ↦
      let ordered : i * 4096 ≤ min (i * 4096 + 4096) (length bytes) = in_order y in
      let n : min (i * 4096 + 4096) (length bytes) - i * 4096
          ≡ min 4096 (length (drop (i * 4096) bytes)) =
        omega (arith, length-drop (i * 4096) bytes) in
      sym (done_value (rw y at h))
      ∙ ap (λ m. take m (drop (i * 4096) bytes)) n
      ∙ take-min 4096 (drop (i * 4096) bytes)
  | inr n ↦ absurd (panicked (rw n at h))
]
  where
    lo : ℕ
    lo = i * 4096

    hi : ℕ
    hi = min (i * 4096 + 4096) (length bytes)

    in_range : Bool
    in_range = leb lo hi && leb hi (length bytes)

    in_order : (leb lo hi && leb hi (length bytes)) ≡ true → lo ≤ hi
    in_order y = ground arith

    done_value : {a b : Bytes} → ◌≡◌ {A = Run MfsError Bytes} (done a) (done b) → a ≡ b
    done_value e = cc

    panicked : ◌≢◌ {A = Run MfsError Bytes} panic (done c)
    panicked e = cc

module _ (drive : Drive) (keeps : Keeps drive) where
  open drive use {State, read_block, write_block}
  open keeps use {block_at}

  pub read_mft-Keeps :
      (d : Option State) (entries : List FileEntry) (d1 : Option State)
      → read_mft drive d ≡ done (entries, d1)
      → (s s1 : State) × (d ≡ some s)
        × (d1 ≡ some s1)
        × (entries ≡ parse_mft (block_at s 0))
        × ((k : ℕ) → block_at s1 k ≡ block_at s k)
  unfolding read_mft
  read_mft-Keeps none entries d1 h = absurd cc
  read_mft-Keeps (some s) entries d1 h =
      let ((block, s1), mapped, h1) =
        bind-done (map_err mft_read_failed (read_block s 0)) _ (entries, d1) h in
      let read = map_err-done mft_read_failed (read_block s 0) (block, s1) mapped in
      let (same, kept) = keeps.reads s 0 block s1 read in
      let parsed : entries ≡ parse_mft block = cc in
      (s, s1, refl, cc, parsed ∙ ap parse_mft same, kept)

  pub write_mft-Keeps :
      (entries : List FileEntry) (d d1 : Option State)
      → write_mft drive entries d ≡ done d1
      → (s s1 : State) × (d ≡ some s)
        × (d1 ≡ some s1)
        × (block_at s1 0 ≡ new_mft_buffer entries)
        × ((k : ℕ) → k ≢ 0 → block_at s1 k ≡ block_at s k)
  unfolding write_mft
  write_mft-Keeps entries none d1 h = absurd cc
  write_mft-Keeps entries (some s) d1 h =
      let (s1, mapped, h1) =
        bind-done (map_err mft_write_failed (write_block s 0 (new_mft_buffer entries))) _ d1 h in
      let wrote =
        map_err-done mft_write_failed (write_block s 0 (new_mft_buffer entries)) s1 mapped in
      let (at_0, kept) = keeps.writes s 0 (new_mft_buffer entries) s1 wrote in
      (s, s1, refl, cc, at_0 ∙ padded-new_mft_buffer entries, kept)

  pub verify_mdo_access-Keeps :
      (s : State) (lba : ℕ) (ctx : MdoContext) (offset : ℕ) (d : Option State)
      → verify_mdo_access drive (some s) lba ctx ≡ done (offset, d)
      → (s1 : State) × (d ≡ some s1)
        × IsGranted (block_at s lba) ctx
        × ((k : ℕ) → block_at s1 k ≡ block_at s k)
  verify_mdo_access-Keeps s lba ctx offset d h =
      let (block, s1, read, ok, _, there) =
        verify_mdo_access-IsGranted drive s lba ctx offset d h in
      let (same, kept) = keeps.reads s lba block s1 read in
      (s1, there, subst (λ b. IsGranted b ctx) same ok, kept)

  pub write_chunks-Keeps :
      (bytes : Bytes) (lba n i : ℕ) (s s1 : State)
      → write_chunks drive bytes lba n i s ≡ done s1
      → lba + i + n ≤ 2 ^ 64
      → (k : ℕ) → block_at s1 k ≡ filled bytes lba i n (block_at s) k
  unfolding write_chunks
  write_chunks-Keeps bytes lba zero i s s1 h fits k =
      let same : s ≡ s1 = cc in ap (λ t. block_at t k) (sym same) ∙ none_filled
    where
      none_filled : block_at s k ≡ filled bytes lba i 0 (block_at s) k
      none_filled = ground arith
  write_chunks-Keeps bytes lba (suc n) i s s1 h fits k =
      let hi = min (i * 4096 + 4096) (length bytes) in
      let (c, sliced, h1) = bind-done (slice bytes (i * 4096) hi) _ s1 h in
      let whole : (lba + i) % 2 ^ 64 ≡ lba + i = omega arith in
      let (s2, mapped, h2) =
        bind-done (map_err data_block_write_failed (write_block s ((lba + i) % 2 ^ 64) c)) _ s1
          h1 in
      let wrote =
        map_err-done data_block_write_failed (write_block s ((lba + i) % 2 ^ 64) c) s2 mapped in
      let (here, kept) = keeps.writes s (lba + i) c s2 (rw whole at wrote) in
      let is_chunk = slice-chunk bytes i c sliced in
      one_more s2 (here ∙ ap padded is_chunk) (kept k)
        (write_chunks-Keeps bytes lba n (i + 1) s2 s1 h2 (omega arith) k)
    where
      one_more :
          (s2 : State)
          → block_at s2 (lba + i) ≡ padded (chunk bytes i)
          → (k ≢ lba + i → block_at s2 k ≡ block_at s k)
          → block_at s1 k ≡ filled bytes lba (i + 1) n (block_at s2) k
          → block_at s1 k ≡ filled bytes lba i (suc n) (block_at s) k
      one_more s2 here kept later = elim (Bool-cases (k == lba + i)) [
        | inl y ↦
            let e = (==_iff k (lba + i)).0 y in
            let d : lba + i - lba ≡ i = omega arith in
            rw e (rw d (rw e at later ∙ ground (arith, here)))
        | inr n' ↦ let apart : k ≢ lba + i = ground arith in later ∙ ground (arith, kept apart)
      ]
