-- ===== src/Mfs/Table/Printed.antt =====
-- The text that `write_mft` of kernel/src/mfs.rs prints is valid UTF-8 without a zero byte.
use polymorph_os.Prelude.{
  ℕ, zero, suc, ◌≤◌, ◌<◌, ◌≢◌, ◌⊎◌, ◌≡◌, refl, sym, ap, true, List, [], ◌∷◌, ◌++◌, ◌∙◌, inl,
  append_assoc, append-nil,
}
use polymorph_os.Prelude.{replicate, arith, Bytes}
use polymorph_os.Mfs.Text.{is_utf8, utf8_from, utf8_step, leading, before}
use polymorph_os.Mfs.Text.{print_u64, max_u64}
use polymorph_os.Mfs.Text.Utf8.{utf8_from-append, is_utf8-ascii}
use polymorph_os.Mfs.Text.Split.{Lacks, Lacks-append, split-append, split-lacking}
use polymorph_os.Mfs.Text.Decimal.{AreDigits, AreDigits-Lacks, print_u64-AreDigits}
use polymorph_os.Mfs.Table.{FileEntry, mfs_magic, entry_line, entry_lines, new_mft_string}

-- An entry that its line can hold: a text without the table's separators and the zero byte for a name,
-- and two numbers of 64 bits.
pub record IsClean (e : FileEntry) : Type 0 where
  pub text : is_utf8 e.name ≡ true
  pub no_colon : Lacks b':' e.name
  pub no_line_feed : Lacks b'\n' e.name
  pub no_zero : Lacks 0 e.name
  pub lba_fits : e.start_lba ≤ max_u64
  pub count_fits : e.block_count ≤ max_u64

abbrev pub AreClean : List FileEntry → Type 0
AreClean [] = Unit
AreClean (e ∷ entries) = IsClean e × AreClean entries

-- Digits are a text of their own.
is_utf8-digits : (s t : Bytes) → AreDigits s → is_utf8 (s ++ t) ≡ is_utf8 t
is_utf8-digits [] t h = refl
is_utf8-digits (c ∷ s) t (h, hs) = is_utf8-ascii c (s ++ t) (omega arith) ∙ is_utf8-digits s t hs

abbrev count_part : FileEntry → Bytes → Bytes
count_part e rest = print_u64 e.block_count ++ (b'\n' ∷ rest)

abbrev lba_part : FileEntry → Bytes → Bytes
lba_part e rest = print_u64 e.start_lba ++ (b':' ∷ count_part e rest)

line-regroup :
    (e : FileEntry) (rest : Bytes)
    → entry_line e ++ (b'\n' ∷ rest) ≡ e.name ++ (b':' ∷ lba_part e rest)
line-regroup e rest = simp append_assoc

is_utf8-line :
    (e : FileEntry) (rest : Bytes)
    → IsClean e
    → is_utf8 (entry_line e ++ (b'\n' ∷ rest)) ≡ is_utf8 rest
is_utf8-line e rest c =
    ap is_utf8 (line-regroup e rest)
    ∙ utf8_from-append e.name (b':' ∷ lba_part e rest) 0 0x80 0xBF c.text
    ∙ is_utf8-ascii b':' (lba_part e rest) (omega arith)
    ∙ is_utf8-digits (print_u64 e.start_lba) (b':' ∷ count_part e rest)
        (print_u64-AreDigits e.start_lba)
    ∙ is_utf8-ascii b':' (count_part e rest) (omega arith)
    ∙ is_utf8-digits (print_u64 e.block_count) (b'\n' ∷ rest) (print_u64-AreDigits e.block_count)
    ∙ is_utf8-ascii b'\n' rest (omega arith)

-- A byte that neither the name nor the numbers hold.
pub Lacks-entry_line :
    (c : ℕ) (e : FileEntry)
    → Lacks c e.name
    → (c < b'0') ⊎ (b'9' < c)
    → c ≢ b':'
    → Lacks c (entry_line e)
Lacks-entry_line c e in_name no_digit no_colon = Lacks-append c e.name _ in_name (
  λ h. no_colon (sym h),
  Lacks-append c (print_u64 e.start_lba) _
      (AreDigits-Lacks c _ (print_u64-AreDigits e.start_lba) no_digit)
      (λ h. no_colon (sym h), AreDigits-Lacks c _ (print_u64-AreDigits e.block_count) no_digit),
)

entry_lines_text :
    (entries : List FileEntry) (rest : Bytes)
    → AreClean entries
    → is_utf8 (entry_lines entries ++ rest) ≡ is_utf8 rest
unfolding entry_lines
entry_lines_text [] rest h = refl
entry_lines_text (e ∷ entries) rest (c, h) =
    ap is_utf8 (append_assoc (entry_line e) (b'\n' ∷ entry_lines entries) rest)
    ∙ is_utf8-line e (entry_lines entries ++ rest) c
    ∙ entry_lines_text entries rest h

Lacks-entry_lines : (entries : List FileEntry) → AreClean entries → Lacks 0 (entry_lines entries)
unfolding entry_lines
Lacks-entry_lines [] h = tt
Lacks-entry_lines (e ∷ entries) (c, h) =
    Lacks-append 0 (entry_line e) _
      (Lacks-entry_line 0 e c.no_zero (inl (omega arith)) (omega arith))
      (omega arith, Lacks-entry_lines entries h)

is_utf8-zeros : (n : ℕ) → is_utf8 (replicate n 0) ≡ true
unfolding utf8_from
is_utf8-zeros zero = refl
is_utf8-zeros (suc n) = is_utf8-ascii 0 (replicate n 0) (omega arith) ∙ is_utf8-zeros n

pub before-zeros : (s : Bytes) (n : ℕ) → Lacks 0 s → before 0 (s ++ replicate n 0) ≡ s
before-zeros s zero h = rw (append-nil s) (rw (split-lacking 0 s h))
before-zeros s (suc n) h = rw (split-append 0 s (replicate n 0) h)

magic_valid : is_utf8 (mfs_magic ++ (b'\n' ∷ [])) ≡ true
unfolding utf8_from utf8_step leading
magic_valid = refl

pub text_valid :
    (entries : List FileEntry) (n : ℕ)
    → AreClean entries
    → is_utf8 (new_mft_string entries ++ replicate n 0) ≡ true
unfolding new_mft_string
text_valid entries n h =
    utf8_from-append (mfs_magic ++ (b'\n' ∷ [])) (entry_lines entries ++ replicate n 0) 0 0x80 0xBF
      magic_valid
    ∙ entry_lines_text entries (replicate n 0) h
    ∙ is_utf8-zeros n

pub text_no_zero : (entries : List FileEntry) → AreClean entries → Lacks 0 (new_mft_string entries)
unfolding new_mft_string
text_no_zero entries h =
    Lacks-append 0 (mfs_magic ++ (b'\n' ∷ [])) (entry_lines entries) (omega arith)
      (Lacks-entry_lines entries h)
