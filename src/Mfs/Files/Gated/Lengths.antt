-- ===== src/Mfs/Files/Gated/Lengths.antt =====
-- The length of the text of a table from which a file is taken, or in which one is renamed.
use polymorph_os.Prelude.{ℕ, zero, suc, ◌+◌, ◌≡◌, ap, List, [], ◌∷◌, some, arith}
use polymorph_os.Prelude.{get_elem?, set}
use polymorph_os.Prelude.{Bytes}
use polymorph_os.Prelude.{◌≤◌, ◌++◌, length, length-append}
use polymorph_os.Mfs.Text.{print_u64}
use polymorph_os.Mfs.Table.{FileEntry, entry_line, entry_lines, new_mft_string}
use polymorph_os.Mfs.Files.{remove_at}

length-cons_line :
    (e : FileEntry) (entries : List FileEntry)
    → length (entry_lines (e ∷ entries)) ≡ length (entry_line e) + 1 + length (entry_lines entries)
unfolding entry_lines
length-cons_line e entries =
    omega (arith, length-append (entry_line e) (b'\n' ∷ entry_lines entries))

length-remove_lines :
    (entries : List FileEntry) (pos : ℕ)
    → length (entry_lines (remove_at entries pos)) ≤ length (entry_lines entries)
unfolding remove_at
length-remove_lines [] pos = omega arith
length-remove_lines (f ∷ entries) zero = omega (arith, length-cons_line f entries)
length-remove_lines (f ∷ entries) (suc pos) = omega (
  arith,
  length-cons_line f entries,
  length-cons_line f (remove_at entries pos),
  length-remove_lines entries pos,
)

length-rename_lines :
    (entries : List FileEntry) (pos : ℕ) (e : FileEntry) (new_name : Bytes)
    → get_elem? entries pos ≡ some e
    → length (entry_lines (set entries pos (record e { name = new_name })))
      ≤ length (entry_lines entries) + length new_name
length-rename_lines [] pos e new_name there = absurd cc
length-rename_lines (f ∷ entries) zero e new_name there =
    let same : f ≡ e = cc in
    let numbers = b':' ∷ (print_u64 e.start_lba ++ (b':' ∷ print_u64 e.block_count)) in
    let same_line : length (entry_line f) ≡ length (entry_line e) =
      ap (λ g. length (entry_line g)) same in
    omega (
      arith,
      length-cons_line f entries,
      length-cons_line (record e { name = new_name }) entries,
      length-append e.name numbers,
      length-append new_name numbers,
      same_line,
    )
length-rename_lines (f ∷ entries) (suc pos) e new_name there = omega (
  arith,
  length-cons_line f entries,
  length-cons_line f (set entries pos (record e { name = new_name })),
  length-rename_lines entries pos e new_name there,
)

length-new_mft_string :
    (entries : List FileEntry) → length (new_mft_string entries) ≡ 7 + length (entry_lines entries)
unfolding new_mft_string
length-new_mft_string entries = omega arith

-- The text of the table grows by no more than the new name, and not at all by a file taken out.
pub length-remove_at :
    (entries : List FileEntry) (pos : ℕ)
    → length (new_mft_string (remove_at entries pos)) ≤ length (new_mft_string entries)
length-remove_at entries pos = omega (
  arith,
  length-new_mft_string entries,
  length-new_mft_string (remove_at entries pos),
  length-remove_lines entries pos,
)

pub length-rename :
    (entries : List FileEntry) (pos : ℕ) (e : FileEntry) (new_name : Bytes)
    → get_elem? entries pos ≡ some e
    → length (new_mft_string (set entries pos (record e { name = new_name })))
      ≤ length (new_mft_string entries) + length new_name
length-rename entries pos e new_name there = omega (
  arith,
  length-new_mft_string entries,
  length-new_mft_string (set entries pos (record e { name = new_name })),
  length-rename_lines entries pos e new_name there,
)
