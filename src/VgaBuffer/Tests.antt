-- ===== src/VgaBuffer/Tests.antt =====
-- Runs of the writer of kernel/src/vga_buffer.rs on a blank screen.
use polymorph_os.Prelude.{
  ℕ, zero, suc, ◌≡◌, refl, sym, ap, arith, List, [], ◌∷◌, length, get_elem?, replicate, some, done,
}
use polymorph_os.VgaBuffer.{ScreenChar, Writer, writer, blank_of, write_string, read_char}
use polymorph_os.VgaBuffer.Rows.{blank_row}
use polymorph_os.VgaBuffer.Terminal.{IsValid, all_printed, write_string_lem}

abbrev blank_screen : Writer
blank_screen = writer (replicate 25 (blank_row (blank_of 14)))

get_elem?-replicate :
    (n i : ℕ) (x r : List ScreenChar) → get_elem? (replicate n x) i ≡ some r → x ≡ r
get_elem?-replicate zero i x r h = absurd cc
get_elem?-replicate (suc n) zero x r h = cc
get_elem?-replicate (suc n) (suc i) x r h = get_elem?-replicate n i x r h

blank_screen-IsValid : IsValid blank_screen
blank_screen-IsValid = record {
  size = refl;
  wide = λ i r h. ap length (sym (get_elem?-replicate 25 i (blank_row (blank_of 14)) r h));
  column = omega arith;
}

-- A letter, a line break, and a byte that is not ASCII.
write_string_lem_example :
    (write_string blank_screen (65 ∷ 10 ∷ 200 ∷ [])
      ≡ done (all_printed blank_screen (65 ∷ 10 ∷ 200 ∷ [])))
    × IsValid (all_printed blank_screen (65 ∷ 10 ∷ 200 ∷ []))
write_string_lem_example = write_string_lem blank_screen (65 ∷ 10 ∷ 200 ∷ []) blank_screen-IsValid

letter_moved_up :
    read_char (all_printed blank_screen (65 ∷ 10 ∷ 200 ∷ [])).chars 23 0
    ≡ done (record { ascii_character = 65; color_code = 14 })
letter_moved_up = refl

square_below :
    read_char (all_printed blank_screen (65 ∷ 10 ∷ 200 ∷ [])).chars 24 0
    ≡ done (record { ascii_character = 0xfe; color_code = 14 })
square_below = refl
