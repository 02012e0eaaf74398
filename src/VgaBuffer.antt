-- ===== src/VgaBuffer.antt =====
-- kernel/src/vga_buffer.rs: the writer of the VGA text buffer, 25 rows of 80 characters. `Writer` holds
-- the fields and the buffer that its reference reaches; the volatile cells are read and written like
-- memory. An access outside the buffer is `panic`.
pub mod Segments
pub mod Rows
pub mod Terminal
mod Tests
use polymorph_os.Prelude.{
  ℕ, zero, suc, ◌+◌, ◌-◌, ◌*◌, bit_or, Bool, true, false, ◌&&◌, ◌||◌, List, [], ◌∷◌,
}
use polymorph_os.Prelude.{
  ◌==◌, leb, ltb, if◌then◌else◌, Run, done, ◌>>=◌, read_at, write_at, Bytes, replicate,
}

pub data Color : Type 0 where
  black : Color
  blue : Color
  green : Color
  cyan : Color
  red : Color
  magenta : Color
  brown : Color
  light_gray : Color
  dark_gray : Color
  light_blue : Color
  light_green : Color
  light_cyan : Color
  light_red : Color
  pink : Color
  yellow : Color
  white : Color

-- `color as u8`
abbrev pub as_u8 : Color → ℕ
as_u8 black = 0
as_u8 blue = 1
as_u8 green = 2
as_u8 cyan = 3
as_u8 red = 4
as_u8 magenta = 5
as_u8 brown = 6
as_u8 light_gray = 7
as_u8 dark_gray = 8
as_u8 light_blue = 9
as_u8 light_green = 10
as_u8 light_cyan = 11
as_u8 light_red = 12
as_u8 pink = 13
as_u8 yellow = 14
as_u8 white = 15

-- `ColorCode::new`
abbrev pub new_color_code : Color → Color → ℕ
new_color_code foreground background = bit_or (as_u8 background * 16) (as_u8 foreground)

pub record ScreenChar : Type 0 where
  pub ascii_character : ℕ
  pub color_code : ℕ

abbrev pub buffer_height : ℕ
buffer_height = 25

abbrev pub buffer_width : ℕ
buffer_width = 80

abbrev pub Rows : Type 0
Rows = List (List ScreenChar)

pub record Writer : Type 0 where
  pub column_position : ℕ
  pub color_code : ℕ
  pub chars : Rows

-- The writer behind `WRITER`, over what the screen holds.
abbrev pub writer : Rows → Writer
writer chars = record {
  column_position = 0;
  color_code = new_color_code yellow black;
  chars = chars;
}

abbrev pub read_char : Rows → ℕ → ℕ → Run ⊥ ScreenChar
read_char chars row col = read_at chars row >>= λ r. read_at r col

abbrev pub write_char : Rows → ℕ → ℕ → ScreenChar → Run ⊥ Rows
write_char chars row col c =
    read_at chars row >>= λ r. write_at r col c >>= λ r. write_at chars row r

-- `for col in 0..BUFFER_WIDTH`, with `n` columns left.
pub copy_cols : ℕ → ℕ → ℕ → Rows → Run ⊥ Rows
copy_cols zero row col chars = done chars
copy_cols (suc n) row col chars = read_char chars row col >>= λ character.
    write_char chars (row - 1) col character >>= λ chars. copy_cols n row (col + 1) chars

-- `for row in 1..BUFFER_HEIGHT`, with `n` rows left.
pub copy_rows : ℕ → ℕ → Rows → Run ⊥ Rows
unfolding copy_cols
copy_rows zero row chars = done chars
copy_rows (suc n) row chars =
    copy_cols buffer_width row 0 chars >>= λ chars. copy_rows n (row + 1) chars

pub clear_cols : ScreenChar → ℕ → ℕ → ℕ → Rows → Run ⊥ Rows
clear_cols blank zero row col chars = done chars
clear_cols blank (suc n) row col chars =
    write_char chars row col blank >>= λ chars. clear_cols blank n row (col + 1) chars

abbrev pub blank_of : ℕ → ScreenChar
blank_of color_code = record { ascii_character = 32; color_code = color_code }

pub clear_row : Writer → ℕ → Run ⊥ Writer
unfolding clear_cols
clear_row w row = clear_cols (blank_of w.color_code) buffer_width row 0 w.chars >>= λ chars.
    done (record w { chars = chars })

pub new_line : Writer → Run ⊥ Writer
unfolding copy_rows clear_row
new_line w = copy_rows (buffer_height - 1) 1 w.chars >>= λ chars.
    clear_row (record w { chars = chars }) (buffer_height - 1) >>= λ w.
    done (record w { column_position = 0 })

pub write_byte : Writer → ℕ → Run ⊥ Writer
unfolding new_line
write_byte w byte =
    if byte == 10
    then new_line w
    else ((if leb buffer_width w.column_position then new_line w else done w) >>= λ w.
        write_char w.chars (buffer_height - 1) w.column_position
          (record { ascii_character = byte; color_code = w.color_code })
        >>= λ chars. done (record w { chars = chars; column_position = w.column_position + 1 }))

-- The byte itself where it is printable or a line break, else a filled square.
abbrev pub shown_byte : ℕ → ℕ
shown_byte byte = if (leb 0x20 byte && leb byte 0x7e) || (byte == 10) then byte else 0xfe

pub write_string : Writer → Bytes → Run ⊥ Writer
unfolding write_byte
write_string w [] = done w
write_string w (byte ∷ s) = write_byte w (shown_byte byte) >>= λ w. write_string w s
