-- ===== src/Mfs/Table/RoundTrip.antt =====
-- The text that `write_mft` of kernel/src/mfs.rs prints, read back by `read_mft`.
use polymorph_os.Prelude.{
  ℕ, ◌-◌, ◌≤◌, ◌≡◌, refl, sym, ap, List, [], ◌∷◌, ◌++◌, some, ◌∙◌, inl, inr, append_assoc, min,
}
use polymorph_os.Prelude.{length, arith, Bytes}
use polymorph_os.Prelude.{Bool-cases, ◌==◌}
use polymorph_os.Mfs.Reads.{take_whole}
use polymorph_os.Mfs.Text.{split, lines, lines_of, strip_cr}
use polymorph_os.Mfs.Text.{starts_with, print_u64}
use polymorph_os.Mfs.Text.Split.{Lacks, split-append, split-lacking, strip_cr-append}
use polymorph_os.Mfs.Text.Decimal.{AreDigits-Lacks, print_u64-AreDigits, parse_u64-print_u64}
use polymorph_os.Mfs.Table.{FileEntry, mfs_magic, entry_line, entry_lines, new_mft_string}
use polymorph_os.Mfs.Table.{new_mft_buffer, clean_mft, entry_of, entries_of, parse_mft}
use polymorph_os.Mfs.Table.Printed.{
  IsClean, AreClean, Lacks-entry_line, before-zeros, text_valid, text_no_zero,
}

-- Padded to its block, the text is what the reading takes from it.
clean_mft-new_mft_buffer :
    (entries : List FileEntry)
    → AreClean entries
    → length (new_mft_string entries) ≤ 4096
    → clean_mft (new_mft_buffer entries) ≡ new_mft_string entries
unfolding clean_mft new_mft_buffer
clean_mft-new_mft_buffer entries h fits =
    let text = new_mft_string entries in
    let m : min (length text) 4096 ≡ length text = omega arith in
    let all_copied = take_whole text in
    let valid = text_valid entries (4096 - length text) h in
    rw (m, all_copied, valid) (before-zeros text (4096 - length text) (text_no_zero entries h))

lines_of-more :
    (part next : Bytes) (parts : List Bytes)
    → lines_of (part ∷ next ∷ parts) ≡ strip_cr part ∷ lines_of (next ∷ parts)
unfolding lines_of
lines_of-more [] next parts = refl
lines_of-more (c ∷ part) next parts = refl

split-cons :
    (sep : ℕ) (s : Bytes) → (part : Bytes) × (parts : List Bytes) × (split sep s ≡ part ∷ parts)
unfolding split
split-cons sep [] = ([], [], refl)
split-cons sep (c ∷ s) = elim (Bool-cases (c == sep)) [
  | inl y ↦ ([], split sep s, rw y)
  | inr n ↦ let (part, parts, e) = split-cons sep s in (c ∷ part, parts, rw (n, e))
]

lines-append : (s t : Bytes) → Lacks b'\n' s → lines (s ++ (b'\n' ∷ t)) ≡ strip_cr s ∷ lines t
unfolding lines
lines-append s t h =
    let (part, parts, e) = split-cons b'\n' t in
    ap lines_of (split-append b'\n' s t h)
    ∙ ap (λ l. lines_of (s ∷ l)) e
    ∙ lines_of-more s part parts
    ∙ ap (λ l. strip_cr s ∷ lines_of l) (sym e)

split-entry_line :
    (e : FileEntry)
    → IsClean e
    → split b':' (entry_line e) ≡ e.name ∷ print_u64 e.start_lba ∷ print_u64 e.block_count ∷ []
split-entry_line e c =
    let lba_digits = AreDigits-Lacks b':' _ (print_u64-AreDigits e.start_lba) (inr (omega arith)) in
    let count_digits =
      AreDigits-Lacks b':' _ (print_u64-AreDigits e.block_count) (inr (omega arith)) in
    split-append b':' e.name _ c.no_colon
    ∙ ap (◌∷◌ e.name) (split-append b':' (print_u64 e.start_lba) _ lba_digits)
    ∙ ap (λ l. e.name ∷ print_u64 e.start_lba ∷ l)
        (split-lacking b':' (print_u64 e.block_count) count_digits)

entry_of-entry_line : (e : FileEntry) → IsClean e → entry_of (split b':' (entry_line e)) ≡ some e
unfolding entry_of
entry_of-entry_line e c = rw (
  split-entry_line e c,
  parse_u64-print_u64 e.start_lba c.lba_fits,
  parse_u64-print_u64 e.block_count c.count_fits,
)

-- An entry's line ends in a digit, and so loses no carriage return.
strip_cr-entry_line : (e : FileEntry) → strip_cr (entry_line e) ≡ entry_line e
strip_cr-entry_line e =
    let no_cr : Lacks b'\r' (b':' ∷ print_u64 e.block_count) = (
      omega arith,
      AreDigits-Lacks b'\r' _ (print_u64-AreDigits e.block_count) (inl (omega arith)),
    ) in
    let regroup : entry_line e
        ≡ (e.name ++ (b':' ∷ print_u64 e.start_lba)) ++ (b':' ∷ print_u64 e.block_count) =
      simp append_assoc in
    ap strip_cr regroup
    ∙ strip_cr-append (e.name ++ (b':' ∷ print_u64 e.start_lba)) b':' (print_u64 e.block_count)
        no_cr
    ∙ sym regroup

entries_of-line :
    (e : FileEntry) (rest : Bytes)
    → IsClean e
    → entries_of (lines (entry_line e ++ (b'\n' ∷ rest))) ≡ e ∷ entries_of (lines rest)
unfolding entries_of
entries_of-line e rest c =
    let no_feed = Lacks-entry_line b'\n' e c.no_line_feed (inl (omega arith)) (omega arith) in
    rw (lines-append (entry_line e) rest no_feed, strip_cr-entry_line e, entry_of-entry_line e c)

entries_of-entry_lines :
    (entries : List FileEntry)
    → AreClean entries
    → entries_of (lines (entry_lines entries)) ≡ entries
unfolding entry_lines entries_of lines split lines_of
entries_of-entry_lines [] h = refl
entries_of-entry_lines (e ∷ entries) (c, h) =
    entries_of-line e (entry_lines entries) c ∙ ap (◌∷◌ e) (entries_of-entry_lines entries h)

-- The table that is printed, if its names are clean and its text fits into the block, is the table
-- that is read back.
pub parse_mft-new_mft_buffer :
    (entries : List FileEntry)
    → AreClean entries
    → length (new_mft_string entries) ≤ 4096
    → parse_mft (new_mft_buffer entries) ≡ entries
unfolding parse_mft starts_with new_mft_string
parse_mft-new_mft_buffer entries h fits = rw (clean_mft-new_mft_buffer entries h fits) (
    rw (lines-append mfs_magic (entry_lines entries) (omega arith))
      (entries_of-entry_lines entries h))
