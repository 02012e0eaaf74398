-- ===== src/VgaBuffer/Terminal.antt =====
-- `write_string` of kernel/src/vga_buffer.rs as a terminal that prints in its last row and scrolls whole
-- rows.
use polymorph_os.Prelude.{
  ℕ, zero, suc, ◌+◌, ◌≤◌, ◌<◌, ◌≡◌, refl, sym, ap, ◌∙◌, arith, List, [], ◌∷◌, ◌++◌, inl, inr,
}
use polymorph_os.Prelude.{
  length, get_or, set, drop, length-set, length-drop, length-append, get_elem?-eq-get_or,
  get_elem?-drop, Bytes, ◌==◌, leb, if◌then◌else◌,
}
use polymorph_os.Prelude.{done, ◌>>=◌, lt→ltb, Bool-cases}
use polymorph_os.VgaBuffer.{
  ScreenChar, Rows, Writer, blank_of, clear_row, new_line, write_byte, write_string, shown_byte,
  write_char,
}
use polymorph_os.VgaBuffer.Rows.{Wide, set-Wide, blank_row, copied, cleared}

pub record IsValid (w : Writer) : Type 0 where
  pub size : length w.chars ≡ 25
  pub wide : Wide 80 w.chars
  pub column : w.column_position ≤ 80

-- The rows move up by one, the last is blank, and printing goes on at its start.
abbrev pub scrolled : Writer → Writer
scrolled w = record w {
  chars = drop 1 w.chars ++ blank_row (blank_of w.color_code) ∷ [];
  column_position = 0;
}

-- A character stands in the last row.
abbrev pub typed : Writer → ℕ → Writer
typed w byte = record w {
  chars = set w.chars 24 (
      set (get_or w.chars 24 []) w.column_position
        (record { ascii_character = byte; color_code = w.color_code }));
  column_position = w.column_position + 1;
}

-- A line break scrolls; any other byte is typed, behind a scroll where the row is full.
abbrev pub printed : Writer → ℕ → Writer
printed w byte =
    if byte == 10
    then scrolled w
    else typed (if leb 80 w.column_position then scrolled w else w) byte

abbrev pub all_printed : Writer → Bytes → Writer
all_printed w [] = w
all_printed w (byte ∷ s) = all_printed (printed w (shown_byte byte)) s

new_line_lem : (w : Writer) → IsValid w → new_line w ≡ done (scrolled w)
unfolding new_line clear_row
new_line_lem w v =
    let last = get_or w.chars 24 [] in
    let rest_size : length (drop 1 w.chars) ≡ 24 = omega (arith, length-drop 1 w.chars, v.size) in
    let last_size = v.wide 24 last (get_elem?-eq-get_or w.chars 24 [] (omega (arith, v.size))) in
    let moved = copied w.chars v.size v.wide in
    let wiped = cleared (drop 1 w.chars) last (blank_of w.color_code) rest_size last_size in
    rw (moved, wiped)

append_row-Wide :
    (width : ℕ) (xs : Rows) (y : List ScreenChar)
    → Wide width xs
    → length y ≡ width
    → Wide width (xs ++ y ∷ [])
append_row-Wide width [] y wide e zero r h = let same : y ≡ r = cc in ap length (sym same) ∙ e
append_row-Wide width [] y wide e (suc i) r h = absurd cc
append_row-Wide width (x ∷ xs) y wide e zero r h = wide 0 r h
append_row-Wide width (x ∷ xs) y wide e (suc i) r h =
    append_row-Wide width xs y (λ j q g. wide (suc j) q g) e i r h

scrolled-IsValid : (w : Writer) → IsValid w → IsValid (scrolled w)
scrolled-IsValid w v = record {
  size =
      length-append (drop 1 w.chars) (blank_row (blank_of w.color_code) ∷ [])
      ∙ omega (arith, length-drop 1 w.chars, v.size);
  wide =
      append_row-Wide 80 (drop 1 w.chars) (blank_row (blank_of w.color_code))
        (λ i r h. v.wide (1 + i) r (sym (get_elem?-drop w.chars 1 i) ∙ h)) refl;
  column = omega arith;
}

typed-IsValid :
    (w : Writer) (byte : ℕ) → IsValid w → w.column_position < 80 → IsValid (typed w byte)
typed-IsValid w byte v lt =
    let last = get_or w.chars 24 [] in
    let last_size = v.wide 24 last (get_elem?-eq-get_or w.chars 24 [] (omega (arith, v.size))) in
    let row =
      set last w.column_position (record { ascii_character = byte; color_code = w.color_code }) in
    record {
      size = length-set w.chars 24 row ∙ v.size;
      wide = set-Wide 80 24 w.chars row v.wide (length-set last w.column_position _ ∙ last_size);
      column = omega arith;
    }

-- A character is written where there is room.
typed_lem :
    (w : Writer) (byte : ℕ)
    → IsValid w
    → w.column_position < 80
    → (write_char w.chars 24 w.column_position
          (record { ascii_character = byte; color_code = w.color_code })
        >>= λ chars. done (record w { chars = chars; column_position = w.column_position + 1 }))
      ≡ done (typed w byte)
typed_lem w byte v lt =
    let last = get_or w.chars 24 [] in
    let at_last = get_elem?-eq-get_or w.chars 24 [] (omega (arith, v.size)) in
    let last_size = v.wide 24 last at_last in
    rw (
      at_last,
      lt→ltb w.column_position (length last) (omega (arith, last_size)),
      lt→ltb 24 (length w.chars) (omega (arith, v.size)),
    )

write_byte_lem :
    (w : Writer) (byte : ℕ)
    → IsValid w
    → (write_byte w byte ≡ done (printed w byte)) × IsValid (printed w byte)
unfolding write_byte
write_byte_lem w byte v = elim (Bool-cases (byte == 10)) [
  | inl break ↦ (rw break (new_line_lem w v), rw break (scrolled-IsValid w v))
  | inr character ↦ elim (Bool-cases (leb 80 w.column_position)) [
    | inl full ↦
        let v' = scrolled-IsValid w v in
        (
          rw (character, full, new_line_lem w v) (typed_lem (scrolled w) byte v' (omega arith)),
          rw (character, full) (typed-IsValid (scrolled w) byte v' (omega arith)),
        )
    | inr room ↦
        let lt : w.column_position < 80 = ground arith in
        (
          rw (character, room) (typed_lem w byte v lt),
          rw (character, room) (typed-IsValid w byte v lt),
        )
  ]
]

-- On a valid buffer `write_string` comes back for any bytes: it prints them one by one, those that are
-- neither printable nor a line break as squares, and leaves a valid buffer.
pub write_string_lem :
    (w : Writer) (s : Bytes)
    → IsValid w
    → (write_string w s ≡ done (all_printed w s)) × IsValid (all_printed w s)
unfolding write_string
write_string_lem w [] v = (refl, v)
write_string_lem w (byte ∷ s) v =
    let (run, v1) = write_byte_lem w (shown_byte byte) v in
    let (later, v2) = write_string_lem (printed w (shown_byte byte)) s v1 in
    (ap (λ r. r >>= λ w. write_string w s) run ∙ later, v2)
