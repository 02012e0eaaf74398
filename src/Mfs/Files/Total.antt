-- ===== src/Mfs/Files/Total.antt =====
-- `save_file` of kernel/src/mfs.rs comes to its end on a drive whose accesses succeed.
use polymorph_os.Prelude.{
  ℕ, zero, suc, ◌+◌, ◌*◌, ◌-◌, ◌/◌, ◌%◌, ◌^◌, ◌≤◌, ◌<◌, ◌≡◌, refl, ap, ◌∙◌, false, ◌++◌, ◌∷◌, [],
  some, arith, min,
}
use polymorph_os.Prelude.{length, take, drop}
use polymorph_os.Prelude.{done, Bytes, length-take}
use polymorph_os.Mfs.{Drive, MfsError}
use polymorph_os.Mfs.Gate.{slice-in}
use polymorph_os.Prelude.{List}
use polymorph_os.Mfs.Table.{FileEntry, parse_mft, new_mft_buffer}
use polymorph_os.Mfs.Files.{has_name, next_lba, blocks_needed, read_mft, write_mft, write_chunks}
use polymorph_os.Mfs.Files.{write_file, save_file}
use polymorph_os.Mfs.Files.Kept.{Keeps, length-new_mft_buffer}
use polymorph_os.Mfs.Files.Save.{table}
use polymorph_os.Mfs.Files.Sound.{new_entry}

-- Every read succeeds, and every write of at most a block.
pub record Works (drive : Drive) : Type 0 where
  pub reads :
      (s : drive.State) (lba : ℕ)
      → (block : Bytes) × (s' : drive.State) × (drive.read_block s lba ≡ done (block, s'))
  pub writes :
      (s : drive.State) (lba : ℕ) (bytes : Bytes)
      → length bytes ≤ 4096
      → (s' : drive.State) × (drive.write_block s lba bytes ≡ done s')

module _ (drive : Drive) (works : Works drive) where
  open drive use {State}

  -- The loop over the chunks slices the bytes within their length, down to the last block.
  write_chunks-done :
      (bytes : Bytes) (lba n i : ℕ) (s : State)
      → (i + n) * 4096 ≤ length bytes + 4095
      → (s1 : State) × (write_chunks drive bytes lba n i s ≡ done s1)
  unfolding write_chunks
  write_chunks-done bytes lba zero i s h = (s, refl)
  write_chunks-done bytes lba (suc n) i s h =
      let hi = min (i * 4096 + 4096) (length bytes) in
      let c = take (hi - i * 4096) (drop (i * 4096) bytes) in
      let sliced = slice-in {E = MfsError} bytes (i * 4096) hi (omega arith) (omega arith) in
      let small : length c ≤ 4096 =
        omega (arith, length-take (hi - i * 4096) (drop (i * 4096) bytes)) in
      let (s2, wrote) = works.writes s ((lba + i) % 2 ^ 64) c small in
      let (s1, later) = write_chunks-done bytes lba n (i + 1) s2 (omega arith) in
      (s1, rw (sliced, wrote, later))

  write_mft-done :
      (entries : List FileEntry) (s : State)
      → (s1 : State) × (write_mft drive entries (some s) ≡ done (some s1))
  unfolding write_mft
  write_mft-done entries s =
      let (s1, wrote) =
        works.writes s 0 (new_mft_buffer entries) (omega (arith, length-new_mft_buffer entries)) in
      (s1, rw wrote)

  module _ (keeps : Keeps drive) where
    -- On a drive whose accesses succeed, and for bytes that fit into the address space, a save under
    -- a name that the table does not have succeeds.
    pub save_file-done :
        (filename bytes : Bytes) (s : State)
        → has_name filename (table drive keeps s) ≡ false
        → length bytes < 2 ^ 63
        → (s1 : State) × (save_file drive filename bytes (some s) ≡ done (some s1))
    unfolding save_file read_mft write_file blocks_needed
    save_file-done filename bytes s fresh short =
        let (block, s2, read) = works.reads s 0 in
        let same = (keeps.reads s 0 block s2 read).0 in
        let fresh' : has_name filename (parse_mft block) ≡ false =
          ap (λ b. has_name filename (parse_mft b)) same ∙ fresh in
        let entries = parse_mft block in
        let n = (length bytes + 4095) % 2 ^ 64 / 4096 in
        let (s3, chunks) = write_chunks-done bytes (next_lba entries) n 0 s2 (omega arith) in
        let (s1, put) = write_mft-done (entries ++ (new_entry filename bytes entries ∷ [])) s3 in
        (s1, rw (read, fresh', chunks) put)
