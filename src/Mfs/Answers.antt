-- ===== src/Mfs/Answers.antt =====
-- `read_file` of kernel/src/mfs.rs, from the entry found, comes back.
use polymorph_os.Prelude.{ℕ, zero, suc, ◌+◌, ◌-◌, ◌*◌, ◌%◌, ◌^◌, ◌≤◌, ◌≡◌, sym}
use polymorph_os.Prelude.{◌++◌, Option, none, some, arith, length, ltb, false}
use polymorph_os.Prelude.{done, map_err, slice, Bytes, map_err-done, Returns}
use polymorph_os.Prelude.{Returns-bind, Returns-map_err, subst}
use polymorph_os.MdoVm.{MdoContext}
use polymorph_os.MdoVm.Rounds.{IsContext}
use polymorph_os.Mfs.{Drive, hardware_read_failed, check_header}
use polymorph_os.Mfs.{
  verify_mdo_access, read_blocks, read_data, read_payload, read_entry, isize_max,
}
use polymorph_os.Mfs.Gate.{check_header-Returns, slice-in}
use polymorph_os.Mfs.Reads.{verify_mdo_access-IsGranted}

module _ (drive : Drive) where
  open drive use {State, read_block}

  -- The reads of a drive that neither hangs nor panics.
  abbrev pub Answering : Type 0
  Answering = (s : State) (lba : ℕ) → Returns (read_block s lba)

  verify_mdo_access-Returns :
      (d : Option State) (lba : ℕ) (ctx : MdoContext)
      → Answering
      → IsContext ctx
      → Returns (verify_mdo_access drive d lba ctx)
  unfolding verify_mdo_access
  verify_mdo_access-Returns none lba ctx answers c = tt
  verify_mdo_access-Returns (some s) lba ctx answers c =
      Returns-bind (map_err hardware_read_failed (read_block s lba)) _
        (Returns-map_err hardware_read_failed (read_block s lba) (answers s lba))
        (λ (block, s') mapped.
          let read = map_err-done hardware_read_failed (read_block s lba) (block, s') mapped in
          Returns-bind (check_header block ctx) _
            (check_header-Returns block ctx (drive.length-read_block s lba block s' read) c)
            (λ n e. tt))

  read_blocks-Returns :
      (lba n i : ℕ) (file_data : Bytes) (s : State)
      → Answering
      → Returns (read_blocks drive lba n i file_data s)
  unfolding read_blocks
  read_blocks-Returns lba zero i file_data s answers = tt
  read_blocks-Returns lba (suc n) i file_data s answers =
      Returns-bind (map_err hardware_read_failed (read_block s ((lba + i) % 2 ^ 64))) _
        (Returns-map_err hardware_read_failed (read_block s ((lba + i) % 2 ^ 64))
          (answers s ((lba + i) % 2 ^ 64)))
        (λ (block, s') mapped. read_blocks-Returns lba n (i + 1) (file_data ++ block) s' answers)

  read_data-Returns :
      (s : State) (lba count offset : ℕ)
      → offset ≤ 4096
      → Answering
      → Returns (read_data drive lba count offset (some s))
  unfolding read_data
  read_data-Returns s lba count offset inside answers =
      Returns-bind (map_err hardware_read_failed (read_block s lba)) _
        (Returns-map_err hardware_read_failed (read_block s lba) (answers s lba))
        (λ (buffer, s') mapped.
          let read = map_err-done hardware_read_failed (read_block s lba) (buffer, s') mapped in
          let whole = drive.length-read_block s lba buffer s' read in
          Returns-bind (slice buffer offset (length buffer)) _
            (subst Returns
              (sym (slice-in buffer offset (length buffer) (omega (arith, whole)) (omega arith)))
              tt)
            (λ first sliced.
              Returns-bind (read_blocks drive lba (count - 1) 1 first s') _
                (read_blocks-Returns lba (count - 1) 1 first s' answers) (λ r e. tt)))

  read_payload-Returns :
      (s : State) (lba count offset : ℕ)
      → offset ≤ 4096
      → count * 4096 % 2 ^ 64 ≤ isize_max
      → Answering
      → Returns (read_payload drive lba count offset (some s))
  unfolding read_payload
  read_payload-Returns s lba count offset inside fits answers =
      let small : ltb isize_max (count * 4096 % 2 ^ 64) ≡ false = ground arith in
      rw small (read_data-Returns s lba count offset inside answers)

  -- On a drive whose reads answer, for a context of whole hashes, and for an entry whose number of
  -- blocks makes a buffer of at most `isize::MAX` bytes, `read_file` from the entry comes back for every
  -- content of the drive: no slice of a block is out of range, whatever length the header names, and
  -- the policy ends.
  pub read_entry-Returns :
      (d : Option State) (lba count : ℕ) (ctx : MdoContext)
      → Answering
      → IsContext ctx
      → count * 4096 % 2 ^ 64 ≤ isize_max
      → Returns (read_entry drive d lba count ctx)
  unfolding read_entry verify_mdo_access
  read_entry-Returns none lba count ctx answers c fits =
      Returns-bind (verify_mdo_access drive none lba ctx) _
        (verify_mdo_access-Returns none lba ctx answers c) (λ r e. offline r.0 r.1 e)
    where
      offline :
          (offset : ℕ) (d : Option State)
          → verify_mdo_access drive none lba ctx ≡ done (offset, d)
          → Returns (read_payload drive lba count offset d)
      offline offset d e = absurd cc
  read_entry-Returns (some s) lba count ctx answers c fits =
      Returns-bind (verify_mdo_access drive (some s) lba ctx) _
        (verify_mdo_access-Returns (some s) lba ctx answers c)
        (λ (offset, d) verified.
          let (block, s', read, ok, at_offset, there) =
            verify_mdo_access-IsGranted drive s lba ctx offset d verified in
          subst (λ d. Returns (read_payload drive lba count offset d)) (sym there)
            (read_payload-Returns s' lba count offset (omega (arith, at_offset, ok.fits)) fits
              answers))
