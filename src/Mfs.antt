-- ===== src/Mfs.antt =====
-- kernel/src/mfs.rs: the part of the file system that guards and reads a file's blocks.
-- `read_entry` is `read_file` from the entry that `find_file` found. The drive behind NVME_DRIVE is a
-- parameter, an interface of block reads and writes; `none` is a drive that is offline. Block numbers
-- wrap as in a release build. An error ends the operation, and the drive after it is not part of the
-- outcome. Memory is taken not to run out. The file table is in Mfs/Table, and the operations on files are in Mfs/Files.
pub mod Gate
pub mod Reads
pub mod Answers
pub mod Text
pub mod Table
pub mod Files
mod Tests
use polymorph_os.Prelude.{
  ℕ, zero, suc, ◌+◌, ◌-◌, ◌*◌, ◌%◌, ◌^◌, ◌≡◌, not, List, [], ◌∷◌, ◌++◌, Option, none, some,
}
use polymorph_os.Prelude.{
  ltb, if◌then◌else◌, Run, done, fail, panic, ◌>>=◌, map_err, slice, Bytes, bytes_eq, length,
}
use polymorph_os.Prelude.{from_le_bytes}
use polymorph_os.MdoVm.{MdoContext, execute_mict_check}

abbrev pub isize_max : ℕ
isize_max = 9223372036854775807

-- A block drive: its reads and writes change its state and fail with a status; a read fills a buffer of
-- 4096 bytes.
pub record Drive : Type 1 where
  pub State : Type 0
  pub read_block : State → ℕ → Run ℕ (Bytes × State)
  pub write_block : State → ℕ → Bytes → Run ℕ State
  pub length-read_block :
      (s : State) (lba : ℕ) (block : Bytes) (s' : State)
      → read_block s lba ≡ done (block, s')
      → length block ≡ 4096

pub data MfsError : Type 0 where
  nvme_offline : MfsError
  hardware_read_failed : MfsError
  not_mdo : MfsError
  bytecode_too_large : MfsError
  access_denied : MfsError
  mft_read_failed : MfsError
  mft_write_failed : MfsError
  file_already_exists : MfsError
  data_block_write_failed : MfsError
  file_not_found : MfsError
  target_already_exists : MfsError

-- `MDO\x01`
abbrev pub mdo_magic : Bytes
mdo_magic = 0x4D ∷ 0x44 ∷ 0x4F ∷ 0x01 ∷ []

-- `verify_mdo_access`, once the first block has been read.
pub check_header : Bytes → MdoContext → Run MfsError ℕ
check_header first_block ctx = slice first_block 0 4 >>= λ magic.
    if not (bytes_eq magic mdo_magic)
    then fail not_mdo
    else (slice first_block 76 80 >>= λ len_bytes.
        let bytecode_len = from_le_bytes len_bytes in
        if ltb 3968 bytecode_len
        then fail bytecode_too_large
        else (slice first_block 128 (128 + bytecode_len) >>= λ bytecode.
            map_err access_denied (execute_mict_check bytecode ctx) >>= λ u.
            done (128 + bytecode_len)))

module _ (drive : Drive) where
  open drive use {State, read_block}

  pub verify_mdo_access : Option State → ℕ → MdoContext → Run MfsError (ℕ × Option State)
  verify_mdo_access none start_lba ctx = fail nvme_offline
  verify_mdo_access (some s) start_lba ctx =
      map_err hardware_read_failed (read_block s start_lba) >>= λ (first_block, s').
      check_header first_block ctx >>= λ offset. done (offset, some s')

  -- The loop over the blocks after the first, with `n` blocks left, at block `i`.
  pub read_blocks : ℕ → ℕ → ℕ → Bytes → State → Run MfsError (Bytes × State)
  read_blocks start_lba zero i file_data s = done (file_data, s)
  read_blocks start_lba (suc n) i file_data s =
      map_err hardware_read_failed (read_block s ((start_lba + i) % 2 ^ 64)) >>= λ (buffer, s').
      read_blocks start_lba n (i + 1) (file_data ++ buffer) s'

  -- The payload of a file that was let through: its first block again, from the offset, and the rest.
  pub read_data : ℕ → ℕ → ℕ → Option State → Run MfsError (Bytes × Option State)
  read_data start_lba block_count payload_start_offset none = fail nvme_offline
  read_data start_lba block_count payload_start_offset (some s) =
      map_err hardware_read_failed (read_block s start_lba) >>= λ (buffer, s').
      slice buffer payload_start_offset (length buffer) >>= λ first.
      read_blocks start_lba (block_count - 1) 1 first s' >>= λ (file_data, s'').
      done (file_data, some s'')

  -- `Vec::with_capacity` panics above `isize::MAX` bytes, before the drive is looked at.
  pub read_payload : ℕ → ℕ → ℕ → Option State → Run MfsError (Bytes × Option State)
  read_payload start_lba block_count payload_start_offset d =
      if ltb isize_max (block_count * 4096 % 2 ^ 64)
      then panic
      else read_data start_lba block_count payload_start_offset d

  pub read_entry : Option State → ℕ → ℕ → MdoContext → Run MfsError (Bytes × Option State)
  read_entry d start_lba block_count ctx =
      verify_mdo_access d start_lba ctx >>= λ (payload_start_offset, d').
      read_payload start_lba block_count payload_start_offset d'
