-- ===== src/Mfs/Files/Tests.antt =====
-- The operations on files of kernel/src/mfs.rs, run on a disk of one file.
use polymorph_os.Prelude.{
  ℕ, ◌+◌, ◌^◌, ◌≤◌, ◌<◌, ◌≡◌, ◌≢◌, refl, sym, true, false, List, [], ◌∷◌, ◌++◌, some, arith,
}
use polymorph_os.Prelude.{length, set, get_elem?, replicate, if◌then◌else◌, ◌==◌}
use polymorph_os.Prelude.{done, Bytes, bytes_eq, from_le_bytes, subst}
use polymorph_os.MdoVm.{MdoContext, execute_mict_check}
use polymorph_os.Mfs.{mdo_magic, verify_mdo_access, check_header}
use polymorph_os.Mfs.Text.{
  starts_with, utf8_from, utf8_step, leading, split, lines, lines_of, strip_cr, parse_u64,
  digits_onto, print_u64, print_onto, eq_ignore_ascii_case, trim_end, trim_start_from,
}
use polymorph_os.Mfs.Table.{
  FileEntry, mfs_magic, parse_mft, new_mft_string, new_mft_buffer, clean_mft,
}
use polymorph_os.Mfs.Table.{find_entry, entry_lines, entries_of, entry_of}
use polymorph_os.Mfs.Table.RoundTrip.{parse_mft-new_mft_buffer}
use polymorph_os.Mfs.Table.Printed.{IsClean}
use polymorph_os.Mfs.Table.Lookup.{first_named, find_entry_lem}
use polymorph_os.Mfs.Files.{has_name, next_lba, blocks_needed, remove_at, save_file, delete_file}
use polymorph_os.Mfs.Files.{rename_file, position, read_mft, write_mft, write_file, write_chunks}
use polymorph_os.Mfs.Files.Kept.{padded, chunk}
use polymorph_os.Mfs.Files.Save.{table, save_file_lem}
use polymorph_os.Mfs.Files.Sound.{IsSound, new_entry}
use polymorph_os.Mfs.Files.Gated.{delete_file_lem, rename_file_lem}
use polymorph_os.Mfs.Reads.{IsGranted}
use polymorph_os.Mfs.Files.Total.{save_file-done}
use polymorph_os.Mfs.Files.Disk.{held, disk, disk_keeps, disk_works}

-- `MFS_V1`, then `v:1:1`; the file's policy is `HALT_OK`.
abbrev vault : FileEntry
vault = record { name = b'v' ∷ []; start_lba = 1; block_count = 1 }

abbrev open_file : Bytes
open_file =
    mdo_magic ++ replicate 72 0 ++ (1 ∷ 0 ∷ 0 ∷ 0 ∷ []) ++ replicate 48 0 ++ (0x3F ∷ 65 ∷ 66 ∷ [])

abbrev one_file : ℕ → Bytes
one_file k = if k == 0 then new_mft_buffer (vault ∷ []) else if k == 1 then open_file else []

abbrev someone : MdoContext
someone = record {
  requestor_id_hash = replicate 32 1;
  action_hash = replicate 32 2;
  owner_id_hash = replicate 32 3;
  status = 0;
}

one_file-table : table disk disk_keeps one_file ≡ vault ∷ []
unfolding new_mft_buffer new_mft_string entry_lines print_u64 print_onto parse_mft clean_mft
    utf8_from utf8_step leading split lines lines_of strip_cr starts_with entries_of entry_of
    parse_u64 digits_onto
one_file-table = refl

vault-IsClean : IsClean vault
unfolding utf8_from utf8_step leading
vault-IsClean = record {
  text = refl;
  no_colon = omega arith;
  no_line_feed = omega arith;
  no_zero = omega arith;
  lba_fits = omega arith;
  count_fits = omega arith;
}

vault-IsSound : IsSound (vault ∷ [])
unfolding has_name
vault-IsSound = record {
  clean = (vault-IsClean, tt);
  laid_out = (omega arith, omega arith, tt);
  distinct = (refl, tt);
}

one_file-IsSound : IsSound (table disk disk_keeps one_file)
one_file-IsSound = subst IsSound (sym one_file-table) vault-IsSound

log : FileEntry
log = record { name = b'l' ∷ []; start_lba = 2; block_count = 1 }

abbrev log_saved : ℕ → Bytes
log_saved k =
    let one = λ (k : ℕ). if k == 2 then 7 ∷ 8 ∷ [] else one_file k in
    if k == 0 then new_mft_buffer (vault ∷ log ∷ []) else one k

log_save : save_file disk (b'l' ∷ []) (7 ∷ 8 ∷ []) (some one_file) ≡ done (some log_saved)
unfolding save_file read_mft write_mft write_file write_chunks has_name bytes_eq next_lba
    blocks_needed new_mft_buffer new_mft_string entry_lines print_u64 print_onto parse_mft clean_mft
    utf8_from utf8_step leading split lines lines_of strip_cr starts_with entries_of entry_of
    parse_u64 digits_onto log
log_save = refl

abbrev log_name : Bytes
log_name = b'l' ∷ []

abbrev log_bytes : Bytes
log_bytes = 7 ∷ 8 ∷ []

abbrev before : List FileEntry
before = table disk disk_keeps one_file

log-IsClean : IsClean (new_entry log_name log_bytes (vault ∷ []))
unfolding utf8_from utf8_step leading next_lba blocks_needed
log-IsClean = record {
  text = refl;
  no_colon = omega arith;
  no_line_feed = omega arith;
  no_zero = omega arith;
  lba_fits = omega arith;
  count_fits = omega arith;
}

log_room : next_lba (vault ∷ []) + blocks_needed log_bytes < 2 ^ 64
unfolding next_lba blocks_needed
log_room = omega arith

log_fits : length (new_mft_string (vault ∷ new_entry log_name log_bytes (vault ∷ []) ∷ [])) ≤ 4096
unfolding new_mft_string entry_lines print_u64 print_onto next_lba blocks_needed
log_fits = omega arith

save_file_lem_example :
    (s1 : ℕ → Bytes) × (some log_saved ≡ some s1)
    × (has_name log_name before ≡ false)
    × (table disk disk_keeps s1 ≡ before ++ (new_entry log_name log_bytes before ∷ []))
    × IsSound (table disk disk_keeps s1)
    × ((j : ℕ)
        → j < blocks_needed log_bytes
        → held s1 (next_lba before + j) ≡ padded (chunk log_bytes j))
    × ((i : ℕ) (e : FileEntry) (k : ℕ)
        → get_elem? before i ≡ some e
        → e.start_lba ≤ k
        → k < e.start_lba + e.block_count
        → held s1 k ≡ held one_file k)
save_file_lem_example =
    save_file_lem disk disk_keeps log_name log_bytes one_file (some log_saved) log_save
      one_file-IsSound
      (subst (λ l. IsClean (new_entry log_name log_bytes l)) (sym one_file-table) log-IsClean)
      (subst (λ l. next_lba l + blocks_needed log_bytes < 2 ^ 64) (sym one_file-table) log_room)
      (subst (λ l. length (new_mft_string (l ++ (new_entry log_name log_bytes l ∷ []))) ≤ 4096)
        (sym one_file-table) log_fits)

abbrev emptied : ℕ → Bytes
emptied k = if k == 0 then new_mft_buffer [] else one_file k

vault_delete : delete_file disk (b'v' ∷ []) someone (some one_file) ≡ done (some emptied)
unfolding delete_file read_mft write_mft position remove_at bytes_eq new_mft_buffer new_mft_string
    entry_lines print_u64 print_onto parse_mft clean_mft utf8_from utf8_step leading split lines
    lines_of strip_cr starts_with entries_of entry_of parse_u64 digits_onto verify_mdo_access
    check_header execute_mict_check from_le_bytes
vault_delete = refl

vault_fits : length (new_mft_string (vault ∷ [])) + 1 ≤ 4096
unfolding new_mft_string entry_lines print_u64 print_onto
vault_fits = omega arith

delete_file_lem_example :
    (pos : ℕ) × (e : FileEntry) × (s1 : ℕ → Bytes) × (some emptied ≡ some s1)
    × (get_elem? before pos ≡ some e)
    × (e.name ≡ b'v' ∷ [])
    × IsGranted (held one_file e.start_lba) someone
    × (table disk disk_keeps s1 ≡ remove_at before pos)
    × IsSound (table disk disk_keeps s1)
    × (has_name (b'v' ∷ []) (table disk disk_keeps s1) ≡ false)
    × ((k : ℕ) → k ≢ 0 → held s1 k ≡ held one_file k)
delete_file_lem_example =
    delete_file_lem disk disk_keeps (b'v' ∷ []) someone one_file (some emptied) vault_delete
      one_file-IsSound
      (subst (λ l. length (new_mft_string l) ≤ 4096) (sym one_file-table)
        (omega (arith, vault_fits)))

abbrev safe : FileEntry
safe = record { name = b's' ∷ []; start_lba = 1; block_count = 1 }

abbrev renamed : ℕ → Bytes
renamed k = if k == 0 then new_mft_buffer (safe ∷ []) else one_file k

vault_rename :
    rename_file disk (b'v' ∷ []) (b's' ∷ []) someone (some one_file) ≡ done (some renamed)
unfolding rename_file read_mft write_mft position has_name bytes_eq new_mft_buffer new_mft_string
    entry_lines print_u64 print_onto parse_mft clean_mft utf8_from utf8_step leading split lines
    lines_of strip_cr starts_with entries_of entry_of parse_u64 digits_onto verify_mdo_access
    check_header execute_mict_check from_le_bytes
vault_rename = refl

safe-IsClean : IsClean (record { name = b's' ∷ []; start_lba = 0; block_count = 0 })
unfolding utf8_from utf8_step leading
safe-IsClean = record {
  text = refl;
  no_colon = omega arith;
  no_line_feed = omega arith;
  no_zero = omega arith;
  lba_fits = omega arith;
  count_fits = omega arith;
}

rename_file_lem_example :
    (pos : ℕ) × (e : FileEntry) × (s1 : ℕ → Bytes) × (some renamed ≡ some s1)
    × (has_name (b's' ∷ []) before ≡ false)
    × (get_elem? before pos ≡ some e)
    × (e.name ≡ b'v' ∷ [])
    × IsGranted (held one_file e.start_lba) someone
    × (table disk disk_keeps s1 ≡ set before pos (record e { name = b's' ∷ [] }))
    × IsSound (table disk disk_keeps s1)
    × ((k : ℕ) → k ≢ 0 → held s1 k ≡ held one_file k)
rename_file_lem_example =
    rename_file_lem disk disk_keeps (b'v' ∷ []) (b's' ∷ []) someone one_file (some renamed)
      vault_rename one_file-IsSound safe-IsClean
      (subst (λ l. length (new_mft_string l) + 1 ≤ 4096) (sym one_file-table) vault_fits)

parse_mft-new_mft_buffer_example : parse_mft (new_mft_buffer (vault ∷ [])) ≡ vault ∷ []
parse_mft-new_mft_buffer_example =
    parse_mft-new_mft_buffer (vault ∷ []) (vault-IsClean, tt) (omega (arith, vault_fits))

one_file_magic : starts_with (clean_mft (held one_file 0)) mfs_magic ≡ true
unfolding new_mft_buffer new_mft_string entry_lines print_u64 print_onto clean_mft utf8_from
    utf8_step leading split starts_with
one_file_magic = refl

find_entry_lem_example :
    find_entry (b' ' ∷ b'V' ∷ []) (held one_file 0)
    ≡ first_named (b' ' ∷ b'V' ∷ []) (parse_mft (held one_file 0))
find_entry_lem_example = find_entry_lem (b' ' ∷ b'V' ∷ []) (held one_file 0) one_file_magic

-- The table's file `v` is found as ` V`.
found_as : first_named (b' ' ∷ b'V' ∷ []) (parse_mft (held one_file 0)) ≡ some vault
unfolding first_named new_mft_buffer new_mft_string entry_lines print_u64 print_onto parse_mft
    clean_mft utf8_from utf8_step leading split lines lines_of strip_cr starts_with entries_of
    entry_of parse_u64 digits_onto eq_ignore_ascii_case trim_end trim_start_from bytes_eq
found_as = refl

log_apart : has_name log_name (vault ∷ []) ≡ false
unfolding has_name bytes_eq
log_apart = refl

log_fresh : has_name log_name before ≡ false
log_fresh = subst (λ l. has_name log_name l ≡ false) (sym one_file-table) (log_apart)

save_file-done_example :
    (s1 : ℕ → Bytes) × (save_file disk log_name log_bytes (some one_file) ≡ done (some s1))
save_file-done_example =
    save_file-done disk disk_works disk_keeps log_name log_bytes one_file log_fresh (omega arith)
