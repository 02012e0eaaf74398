-- ===== src/Mfs/Files.antt =====
-- kernel/src/mfs.rs: the operations on files. Each of them reads the table from block 0, and those that
-- change it write it back whole. `find_file` answers `file_not_found` for `None`, as `read_file` does.
pub mod Kept
pub mod Sound
pub mod Save
pub mod Total
pub mod Gated
pub mod Layout
mod Disk
mod Tests
use polymorph_os.Prelude.{
  ℕ, zero, suc, ◌+◌, ◌*◌, ◌-◌, ◌/◌, ◌%◌, ◌^◌, Bool, true, false, List, [], ◌∷◌, ◌++◌, Option, none,
  some, min,
}
use polymorph_os.Prelude.{length, take, drop, set, if◌then◌else◌, Run, done, fail, ◌>>=◌, map_err}
use polymorph_os.Prelude.{slice, read_at, Bytes, bytes_eq}
use polymorph_os.MdoVm.{MdoContext}
use polymorph_os.Mfs.{
  Drive, MfsError, nvme_offline, mft_read_failed, mft_write_failed, file_already_exists,
  data_block_write_failed, file_not_found, target_already_exists, verify_mdo_access, read_entry,
}
use polymorph_os.Mfs.Table.{FileEntry, parse_mft, new_mft_buffer, find_entry}

-- `entries.iter().any(|e| e.name == filename)`
unfoldable pub has_name : Bytes → List FileEntry → Bool
has_name filename [] = false
has_name filename (e ∷ entries) =
    if bytes_eq e.name filename then true else has_name filename entries

-- `entries.iter().position(|e| e.name == filename)`, from index `i`.
unfoldable pub position : Bytes → List FileEntry → ℕ → Option ℕ
position filename [] i = none
position filename (e ∷ entries) i =
    let rest = position filename entries (i + 1) in
    if bytes_eq e.name filename then some i else rest

-- `entries.remove(pos)`
unfoldable pub remove_at {ℓ} : {A : Type ℓ} → List A → ℕ → List A
remove_at [] pos = []
remove_at (x ∷ xs) zero = xs
remove_at (x ∷ xs) (suc pos) = x ∷ remove_at xs pos

-- The block behind the last entry of the table, and block 1 for an empty table.
unfoldable pub next_lba : List FileEntry → ℕ
next_lba [] = 1
next_lba (e ∷ []) = (e.start_lba + e.block_count) % 2 ^ 64
next_lba (e ∷ next ∷ entries) = next_lba (next ∷ entries)

unfoldable pub blocks_needed : Bytes → ℕ
blocks_needed bytes = (length bytes + 4095) % 2 ^ 64 / 4096

module _ (drive : Drive) where
  open drive use {State, read_block, write_block}

  unfoldable pub read_mft : Option State → Run MfsError (List FileEntry × Option State)
  read_mft none = fail nvme_offline
  read_mft (some s) = map_err mft_read_failed (read_block s 0) >>= λ (mft_buffer, s').
      done (parse_mft mft_buffer, some s')

  unfoldable pub write_mft : List FileEntry → Option State → Run MfsError (Option State)
  write_mft entries none = fail nvme_offline
  write_mft entries (some s) =
      map_err mft_write_failed (write_block s 0 (new_mft_buffer entries)) >>= λ s'. done (some s')

  -- The loop over the blocks of a new file, with `n` blocks left, at block `i`.
  unfoldable pub write_chunks : Bytes → ℕ → ℕ → ℕ → State → Run MfsError State
  write_chunks bytes lba zero i s = done s
  write_chunks bytes lba (suc n) i s =
      let offset = i * 4096 in
      let chunk_end = min (offset + 4096) (length bytes) in
      slice bytes offset chunk_end >>= λ chunk.
      map_err data_block_write_failed (write_block s ((lba + i) % 2 ^ 64) chunk) >>= λ s'.
      write_chunks bytes lba n (i + 1) s'

  unfoldable pub write_file : Bytes → ℕ → Option State → Run MfsError (Option State)
  write_file bytes lba none = fail nvme_offline
  write_file bytes lba (some s) =
      write_chunks bytes lba (blocks_needed bytes) 0 s >>= λ s'. done (some s')

  unfoldable pub save_file : Bytes → Bytes → Option State → Run MfsError (Option State)
  save_file filename bytes d = read_mft d >>= λ (entries, d1).
      if has_name filename entries
      then fail file_already_exists
      else (write_file bytes (next_lba entries) d1 >>= λ d2.
          write_mft
            (entries
              ++ (record {
                name = filename;
                start_lba = next_lba entries;
                block_count = blocks_needed bytes;
              }
                  ∷ []))
            d2)

  abbrev found : Option FileEntry → State → Run MfsError (FileEntry × Option State)
  found none s = fail file_not_found
  found (some e) s = done (e, some s)

  unfoldable pub find_file : Bytes → Option State → Run MfsError (FileEntry × Option State)
  find_file target_filename none = fail file_not_found
  find_file target_filename (some s) =
      map_err file_not_found (read_block s 0) >>= λ (mft_buffer, s').
      found (find_entry target_filename mft_buffer) s'

  unfoldable pub read_file : Bytes → MdoContext → Option State → Run MfsError (Bytes × Option State)
  read_file filename ctx d =
      find_file filename d >>= λ (e, d1). read_entry drive d1 e.start_lba e.block_count ctx

  abbrev pub delete_at :
      Option ℕ → List FileEntry → MdoContext → Option State → Run MfsError (Option State)
  delete_at none entries ctx d = fail file_not_found
  delete_at (some pos) entries ctx d = read_at entries pos >>= λ e.
      verify_mdo_access drive d e.start_lba ctx >>= λ (offset, d').
      write_mft (remove_at entries pos) d'

  unfoldable pub delete_file : Bytes → MdoContext → Option State → Run MfsError (Option State)
  delete_file filename ctx d =
      read_mft d >>= λ (entries, d1). delete_at (position filename entries 0) entries ctx d1

  abbrev pub rename_at :
      Bytes → Option ℕ → List FileEntry → MdoContext → Option State → Run MfsError (Option State)
  rename_at new_name none entries ctx d = fail file_not_found
  rename_at new_name (some pos) entries ctx d = read_at entries pos >>= λ e.
      verify_mdo_access drive d e.start_lba ctx >>= λ (offset, d').
      write_mft (set entries pos (record e { name = new_name })) d'

  unfoldable pub rename_file :
      Bytes → Bytes → MdoContext → Option State → Run MfsError (Option State)
  rename_file old_name new_name ctx d = read_mft d >>= λ (entries, d1).
      if has_name new_name entries
      then fail target_already_exists
      else rename_at new_name (position old_name entries 0) entries ctx d1
