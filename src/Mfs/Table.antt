-- ===== src/Mfs/Table.antt =====
-- The file table of kernel/src/mfs.rs: an entry, the text of the table in block 0, and the reading of
-- that text, by `read_mft` for the whole table and by `find_file` for one name.
pub mod Printed
pub mod RoundTrip
pub mod Lookup
use polymorph_os.Prelude.{
  ℕ, ◌+◌, ◌-◌, Bool, true, false, List, [], ◌∷◌, ◌++◌, Option, none, some, min,
}
use polymorph_os.Prelude.{length, take, drop, replicate, if◌then◌else◌, Bytes}
use polymorph_os.Mfs.Text.{is_utf8, split, before, lines, starts_with, parse_u64, print_u64}
use polymorph_os.Mfs.Text.{trim, eq_ignore_ascii_case}

pub record FileEntry : Type 0 where
  pub name : Bytes
  pub start_lba : ℕ
  pub block_count : ℕ

-- `MFS_V1`
abbrev pub mfs_magic : Bytes
mfs_magic = b'M' ∷ b'F' ∷ b'S' ∷ b'_' ∷ b'V' ∷ b'1' ∷ []

-- `name:start_lba:block_count`, without the line feed.
abbrev pub entry_line : FileEntry → Bytes
entry_line e = e.name ++ (b':' ∷ (print_u64 e.start_lba ++ (b':' ∷ print_u64 e.block_count)))

unfoldable pub entry_lines : List FileEntry → Bytes
entry_lines [] = []
entry_lines (e ∷ entries) = entry_line e ++ (b'\n' ∷ entry_lines entries)

unfoldable pub new_mft_string : List FileEntry → Bytes
new_mft_string entries = mfs_magic ++ (b'\n' ∷ entry_lines entries)

-- The buffer of zeros with the text copied to its start, as far as it goes.
unfoldable pub new_mft_buffer : List FileEntry → Bytes
new_mft_buffer entries =
    let text = new_mft_string entries in
    let bytes_to_copy = min (length text) 4096 in
    take bytes_to_copy text ++ replicate (4096 - bytes_to_copy) 0

-- `unwrap_or("")` of the decoding, up to the first zero byte.
unfoldable pub clean_mft : Bytes → Bytes
clean_mft mft_buffer = before 0 (if is_utf8 mft_buffer then mft_buffer else [])

abbrev pub numbered : Bytes → Option ℕ → Option ℕ → Option FileEntry
numbered name none count = none
numbered name (some lba) none = none
numbered name (some lba) (some count) =
    some (record { name = name; start_lba = lba; block_count = count })

-- The entry of a line from its parts; what follows the third part is not looked at.
unfoldable pub entry_of : List Bytes → Option FileEntry
entry_of [] = none
entry_of (name ∷ []) = none
entry_of (name ∷ lba_str ∷ []) = none
entry_of (name ∷ lba_str ∷ count_str ∷ parts) =
    numbered name (parse_u64 lba_str) (parse_u64 count_str)

abbrev pub pushed : Option FileEntry → List FileEntry → List FileEntry
pushed none entries = entries
pushed (some e) entries = e ∷ entries

unfoldable pub entries_of : List Bytes → List FileEntry
entries_of [] = []
entries_of (line ∷ later) = pushed (entry_of (split b':' line)) (entries_of later)

-- The body of `read_mft`, once the table's block has been read.
unfoldable pub parse_mft : Bytes → List FileEntry
parse_mft mft_buffer =
    if starts_with (clean_mft mft_buffer) mfs_magic
    then entries_of (drop 1 (lines (clean_mft mft_buffer)))
    else []

-- Names that `find_file` takes for the same.
abbrev pub same_name : Bytes → Bytes → Bool
same_name target_filename name = eq_ignore_ascii_case (trim name) (trim target_filename)

-- A line that is the target's entry.
unfoldable pub target_entry : Bytes → List Bytes → Option FileEntry
target_entry target_filename [] = none
target_entry target_filename (name ∷ []) = none
target_entry target_filename (name ∷ lba_str ∷ []) = none
target_entry target_filename (name ∷ lba_str ∷ count_str ∷ parts) =
    if same_name target_filename name
    then numbered name (parse_u64 lba_str) (parse_u64 count_str)
    else none

abbrev pub or_later : Option FileEntry → Option FileEntry → Option FileEntry
or_later none later = later
or_later (some e) later = some e

unfoldable pub find_line : Bytes → List Bytes → Option FileEntry
find_line target_filename [] = none
find_line target_filename (line ∷ later) =
    or_later (target_entry target_filename (split b':' line)) (find_line target_filename later)

-- The body of `find_file`, once the table's block has been read; the magic number is not looked at.
unfoldable pub find_entry : Bytes → Bytes → Option FileEntry
find_entry target_filename mft_buffer =
    find_line target_filename (drop 1 (lines (clean_mft mft_buffer)))
