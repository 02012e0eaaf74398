-- ===== src/Mfs/Reads.antt =====
-- `read_file` of kernel/src/mfs.rs, from the entry found: what is handed out.
use polymorph_os.Prelude.{ℕ, zero, suc, ◌+◌, ◌-◌, ◌*◌, ◌%◌, ◌^◌, ◌≤◌, ◌≡◌, sym, ap}
use polymorph_os.Prelude.{
  [], ◌++◌, Option, some, arith, take, drop, length, length-append, length-drop,
}
use polymorph_os.Prelude.{List, ◌∷◌, Bool, true, false, ltb, if◌then◌else◌, panic}
use polymorph_os.Prelude.{Run, done, map_err, slice, Bytes, bind-done, map_err-done}
use polymorph_os.Prelude.{◌∙◌, append_assoc, append-nil, take-append}
use polymorph_os.MdoVm.{MdoContext, execute_mict_check}
use polymorph_os.Mfs.{Drive, MfsError, hardware_read_failed, mdo_magic, check_header}
use polymorph_os.Mfs.{
  verify_mdo_access, read_blocks, read_data, read_payload, read_entry, isize_max,
}
use polymorph_os.Mfs.Gate.{code_len, code_of, check_header-granted, slice-in}

-- A file that may be handed out: its first block has the magic number, a length that fits, and a
-- policy that grants the context.
pub record IsGranted (block : Bytes) (ctx : MdoContext) : Type 0 where
  pub magic : take 4 block ≡ mdo_magic
  pub fits : code_len block ≤ 3968
  pub policy : execute_mict_check (code_of block) ctx ≡ done tt

pub take_whole : (xs : Bytes) → take (length xs) xs ≡ xs
take_whole xs = ap (take (length xs)) (sym (append-nil xs)) ∙ take-append xs []

-- Blocks, one behind the other.
abbrev pub joined : List Bytes → Bytes
joined [] = []
joined (block ∷ blocks) = block ++ joined blocks

-- The `n` block numbers from `i` behind the first on, as a u64.
abbrev pub following : ℕ → ℕ → ℕ → List ℕ
following lba zero i = []
following lba (suc n) i = (lba + i) % 2 ^ 64 ∷ following lba n (i + 1)

module _ (drive : Drive) where
  open drive use {State, read_block}

  -- `verify_mdo_access` grants only what its read of the first block allows, and answers the offset
  -- behind the bytecode, which lies within the block.
  pub verify_mdo_access-IsGranted :
      (s : State) (lba : ℕ) (ctx : MdoContext) (offset : ℕ) (d : Option State)
      → verify_mdo_access drive (some s) lba ctx ≡ done (offset, d)
      → (block : Bytes) × (s' : State) × (read_block s lba ≡ done (block, s'))
        × IsGranted block ctx
        × (offset ≡ 128 + code_len block)
        × (d ≡ some s')
  unfolding verify_mdo_access
  verify_mdo_access-IsGranted s lba ctx offset d h =
      let ((block, s'), mapped, h1) =
        bind-done (map_err hardware_read_failed (read_block s lba)) _ (offset, d) h in
      let read = map_err-done hardware_read_failed (read_block s lba) (block, s') mapped in
      let whole = drive.length-read_block s lba block s' read in
      let (n, checked, h2) = bind-done (check_header block ctx) _ (offset, d) h1 in
      let (magic, fits, policy, at_n) = check_header-granted block ctx n whole checked in
      (block, s', read, record { magic = magic; fits = fits; policy = policy }, cc, cc)

  -- Blocks read one after the other, at the given numbers.
  abbrev pub Reads : List ℕ → State → List Bytes → State → Type 0
  Reads [] s [] s' = s' ≡ s
  Reads (lba ∷ lbas) s (block ∷ blocks) s' =
      (s1 : State) × (read_block s lba ≡ done (block, s1)) × Reads lbas s1 blocks s'
  Reads _ s _ s' = ⊥

  read_blocks_lem :
      (lba n i : ℕ) (file_data : Bytes) (s : State) (out : Bytes) (s' : State)
      → read_blocks drive lba n i file_data s ≡ done (out, s')
      → (rest : List Bytes) × (out ≡ file_data ++ joined rest)
        × (length (joined rest) ≡ 4096 * n)
        × Reads (following lba n i) s rest s'
  unfolding read_blocks
  read_blocks_lem lba zero i file_data s out s' h =
      ([], sym out-same ∙ sym (append-nil file_data), omega arith, state-same)
    where
      out-same : file_data ≡ out
      out-same = cc

      state-same : s' ≡ s
      state-same = cc
  read_blocks_lem lba (suc n) i file_data s out s' h =
      let ((block, s1), mapped, h1) =
        bind-done (map_err hardware_read_failed (read_block s ((lba + i) % 2 ^ 64))) _ (out, s')
          h in
      let read =
        map_err-done hardware_read_failed (read_block s ((lba + i) % 2 ^ 64)) (block, s1) mapped in
      let whole = drive.length-read_block s ((lba + i) % 2 ^ 64) block s1 read in
      let (rest, holds, len, later) =
        read_blocks_lem lba n (i + 1) (file_data ++ block) s1 out s' h1 in
      (
        block ∷ rest,
        holds ∙ append_assoc file_data block (joined rest),
        omega (arith, length-append block (joined rest), len, whole),
        (s1, read, later),
      )

  read_payload_lem :
      (s : State) (lba count offset : ℕ) (out : Bytes) (d : Option State)
      → offset ≤ 4096
      → read_payload drive lba count offset (some s) ≡ done (out, d)
      → (buffer : Bytes) × (rest : List Bytes) × (s' s3 : State) × (read_block s lba
          ≡ done (buffer, s'))
        × (out ≡ drop offset buffer ++ joined rest)
        × Reads (following lba (count - 1) 1) s' rest s3
        × (d ≡ some s3)
        × (length out + offset ≡ 4096 * (1 + (count - 1)))
  unfolding read_payload read_data
  read_payload_lem s lba count offset out d inside h0 =
      let h = reserved (ltb isize_max (count * 4096 % 2 ^ 64)) h0 in
      let ((buffer, s1), mapped, h1) =
        bind-done (map_err hardware_read_failed (read_block s lba)) _ (out, d) h in
      let read = map_err-done hardware_read_failed (read_block s lba) (buffer, s1) mapped in
      let whole = drive.length-read_block s lba buffer s1 read in
      let (first, sliced, h2) = bind-done (slice buffer offset (length buffer)) _ (out, d) h1 in
      let is_first : first ≡ drop offset buffer = first_lem buffer first whole sliced in
      let ((all, s2), looped, h3) =
        bind-done (read_blocks drive lba (count - 1) 1 first s1) _ (out, d) h2 in
      let (rest, holds, len, in_order) = read_blocks_lem lba (count - 1) 1 first s1 all s2 looped in
      let out_all : out ≡ all = cc in
      let parts = out_all ∙ holds ∙ ap (λ l. l ++ joined rest) is_first in
      let at_end : d ≡ some s2 = cc in
      (
        buffer,
        rest,
        s1,
        s2,
        read,
        parts,
        in_order,
        at_end,
        omega (
          arith,
          len,
          ap length parts,
          length-append (drop offset buffer) (joined rest),
          length-drop offset buffer,
          whole,
        ),
      )
    where
      reserved :
          (over : Bool) {r : Run MfsError (Bytes × Option State)}
          → (if over then panic else r) ≡ done (out, d)
          → r ≡ done (out, d)
      reserved true e = absurd cc
      reserved false e = e

      first_lem :
          (buffer first : Bytes)
          → length buffer ≡ 4096
          → slice {E = MfsError} buffer offset (length buffer) ≡ done first
          → first ≡ drop offset buffer
      first_lem buffer first whole sliced =
          let e : ◌≡◌ {A = Run MfsError Bytes} (done first)
              (done (take (length buffer - offset) (drop offset buffer))) =
            sym sliced
            ∙ slice-in buffer offset (length buffer) (omega (arith, whole)) (omega arith) in
          let f : first ≡ take (length buffer - offset) (drop offset buffer) = cc in
          f
          ∙ ap (λ n. take n (drop offset buffer)) (sym (length-drop offset buffer))
          ∙ take_whole (drop offset buffer)

  -- If `read_file` on an online drive succeeds for the entry found, then the first block holds the
  -- magic number and a policy that grants the context, and what is handed out is the part of that
  -- block, read again, behind the policy's bytecode, and then the `count - 1` blocks whose numbers
  -- follow the first one's, as numbers of a u64, each read once, in order and whole.
  pub read_entry-IsGranted :
      (s : State) (lba count : ℕ) (ctx : MdoContext) (out : Bytes) (d : Option State)
      → read_entry drive (some s) lba count ctx ≡ done (out, d)
      → (block buffer : Bytes) × (rest : List Bytes) × (s' s'' s3 : State) × (read_block s lba
          ≡ done (block, s'))
        × IsGranted block ctx
        × (read_block s' lba ≡ done (buffer, s''))
        × (out ≡ drop (128 + code_len block) buffer ++ joined rest)
        × Reads (following lba (count - 1) 1) s'' rest s3
        × (d ≡ some s3)
        × (length out + 128 + code_len block ≡ 4096 * (1 + (count - 1)))
  unfolding read_entry
  read_entry-IsGranted s lba count ctx out d h =
      let ((offset, d1), verified, h1) =
        bind-done (verify_mdo_access drive (some s) lba ctx) _ (out, d) h in
      let (block, s', read, ok, at_offset, there) =
        verify_mdo_access-IsGranted s lba ctx offset d1 verified in
      let h2 : read_payload drive lba count offset (some s') ≡ done (out, d) = rw there at h1 in
      let (buffer, rest, s'', s3, again, parts, in_order, at_end, total) =
        read_payload_lem s' lba count offset out d (omega (arith, at_offset, ok.fits)) h2 in
      (
        block,
        buffer,
        rest,
        s',
        s'',
        s3,
        read,
        ok,
        again,
        parts ∙ ap (λ n. drop n buffer ++ joined rest) at_offset,
        in_order,
        at_end,
        omega (arith, total, at_offset),
      )
