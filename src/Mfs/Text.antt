-- ===== src/Mfs/Text.antt =====
-- The standard library's text functions that kernel/src/mfs.rs reads and prints its file table with:
-- `str::from_utf8`, `find('\0')`, `lines`, `split(':')`, `parse::<u64>`, the decimal print of a number,
-- and the trimmed comparison that ignores ASCII case. A text is its bytes.
pub mod Utf8
pub mod Split
pub mod Decimal
use polymorph_os.Prelude.{
  ℕ, zero, suc, ◌+◌, ◌-◌, ◌*◌, ◌/◌, ◌%◌, ◌^◌, Bool, true, false, ◌&&◌, ◌||◌, List, [], ◌∷◌, ◌++◌,
  Option, none, some,
}
use polymorph_os.Prelude.{ltb, leb, ◌==◌, if◌then◌else◌, Bytes, bytes_eq}

abbrev pub within : ℕ → ℕ → ℕ → Bool
within lo hi c = leb lo c && leb c hi

-- What a leading byte announces: the continuation bytes to come, and the range of the first of them.
unfoldable pub leading : ℕ → Option (ℕ × ℕ × ℕ)
leading c =
    if ltb c 0x80
    then some (0, 0x80, 0xBF)
    else if within 0xC2 0xDF c
    then some (1, 0x80, 0xBF)
    else if c == 0xE0
    then some (2, 0xA0, 0xBF)
    else if c == 0xED
    then some (2, 0x80, 0x9F)
    else if within 0xE1 0xEF c
    then some (2, 0x80, 0xBF)
    else if c == 0xF0
    then some (3, 0x90, 0xBF)
    else if within 0xF1 0xF3 c
    then some (3, 0x80, 0xBF)
    else if c == 0xF4
    then some (3, 0x80, 0x8F)
    else none

-- One byte of the check, with `n` continuation bytes due, the next of them from `lo` to `hi`.
unfoldable pub utf8_step : ℕ → ℕ → ℕ → ℕ → Option (ℕ × ℕ × ℕ)
utf8_step zero lo hi c = leading c
utf8_step (suc n) lo hi c = if within lo hi c then some (n, 0x80, 0xBF) else none

abbrev pub utf8_then : Option (ℕ × ℕ × ℕ) → (ℕ → ℕ → ℕ → Bool) → Bool
utf8_then none k = false
utf8_then (some (n, lo, hi)) k = k n lo hi

unfoldable pub utf8_from : Bytes → ℕ → ℕ → ℕ → Bool
utf8_from [] n lo hi = n == 0
utf8_from (c ∷ s) n lo hi = utf8_then (utf8_step n lo hi c) (utf8_from s)

-- `str::from_utf8(s).is_ok()`
abbrev pub is_utf8 : Bytes → Bool
is_utf8 s = utf8_from s 0 0x80 0xBF

-- `s.split(sep)`: one part more than there are separators.
abbrev pub onto_first : ℕ → List Bytes → List Bytes
onto_first c [] = (c ∷ []) ∷ []
onto_first c (part ∷ parts) = (c ∷ part) ∷ parts

unfoldable pub split : ℕ → Bytes → List Bytes
split sep [] = [] ∷ []
split sep (c ∷ s) = let parts = split sep s in if c == sep then [] ∷ parts else onto_first c parts

-- `&s[..s.find(c).unwrap_or(s.len())]`
abbrev pub first_part : List Bytes → Bytes
first_part [] = []
first_part (part ∷ parts) = part

abbrev pub before : ℕ → Bytes → Bytes
before c s = first_part (split c s)

-- A line that ends in a line feed, without the carriage return before it.
unfoldable pub strip_cr : Bytes → Bytes
strip_cr [] = []
strip_cr (c ∷ []) = if c == b'\r' then [] else c ∷ []
strip_cr (c ∷ d ∷ s) = c ∷ strip_cr (d ∷ s)

-- The parts between line feeds, as lines: what follows the last line feed is a line if it is not empty.
unfoldable pub lines_of : List Bytes → List Bytes
lines_of [] = []
lines_of ([] ∷ []) = []
lines_of ((c ∷ part) ∷ []) = (c ∷ part) ∷ []
lines_of (part ∷ next ∷ parts) = strip_cr part ∷ lines_of (next ∷ parts)

unfoldable pub lines : Bytes → List Bytes
lines s = lines_of (split b'\n' s)

-- `s.starts_with(prefix)`
unfoldable pub starts_with : Bytes → Bytes → Bool
starts_with s [] = true
starts_with [] (p ∷ prefix) = false
starts_with (c ∷ s) (p ∷ prefix) = c == p && starts_with s prefix

abbrev pub max_u64 : ℕ
max_u64 = 2 ^ 64 - 1

-- The digits of a number behind `n`; a value above `u64::MAX` is an overflow.
unfoldable pub digits_onto : Bytes → ℕ → Option ℕ
digits_onto [] n = some n
digits_onto (c ∷ s) n =
    let m = n * 10 + (c - b'0') in
    let rest = digits_onto s m in if within b'0' b'9' c && leb m max_u64 then rest else none

abbrev pub unsigned_digits : Bytes → Option ℕ
unsigned_digits [] = none
unsigned_digits (c ∷ s) = digits_onto (c ∷ s) 0

-- `s.parse::<u64>()`: one plus sign may stand before the digits.
unfoldable pub parse_u64 : Bytes → Option ℕ
parse_u64 [] = none
parse_u64 (c ∷ s) = if c == b'+' then unsigned_digits s else unsigned_digits (c ∷ s)

-- The decimal digits of `n`, put before `out`, the last digit first.
unfoldable pub print_onto : ℕ → ℕ → Bytes → Bytes
print_onto zero n out = out
print_onto (suc fuel) n out =
    let more = print_onto fuel (n / 10) ((b'0' + n % 10) ∷ out) in
    if ltb n 10 then (b'0' + n) ∷ out else more

-- `format!("{}", n)` of a u64, which has at most twenty digits.
unfoldable pub print_u64 : ℕ → Bytes
print_u64 n = print_onto 20 n []

-- The bytes of the white space character that a text begins with, 0 if it begins with none.
abbrev pub white_width : Bytes → ℕ
white_width [] = 0
white_width (a ∷ []) = if within 9 13 a || a == 0x20 then 1 else 0
white_width (a ∷ b ∷ []) =
    if within 9 13 a || a == 0x20 then 1 else if a == 0xC2 && (b == 0x85 || b == 0xA0) then 2 else 0
white_width (a ∷ b ∷ c ∷ s) =
    if within 9 13 a || a == 0x20
    then 1
    else if a == 0xC2 && (b == 0x85 || b == 0xA0)
    then 2
    else if (a == 0xE1 && b == 0x9A && c == 0x80)
        || (a == 0xE2 && b == 0x80 && (within 0x80 0x8A c || c == 0xA8 || c == 0xA9 || c == 0xAF))
        || (a == 0xE2 && b == 0x81 && c == 0x9F)
        || (a == 0xE3 && b == 0x80 && c == 0x80)
    then 3
    else 0

unfoldable pub trim_start_from : Bytes → ℕ → Bytes
trim_start_from [] skip = []
trim_start_from (c ∷ s) (suc skip) = trim_start_from s skip
trim_start_from (c ∷ s) zero =
    let rest = trim_start_from s (white_width (c ∷ s) - 1) in
    if white_width (c ∷ s) == 0 then c ∷ s else rest

abbrev pub trim_start : Bytes → Bytes
trim_start s = trim_start_from s 0

-- From its last character that is no white space on, a text is white to its end.
unfoldable pub trim_end : Bytes → Bytes
trim_end [] = []
trim_end (c ∷ s) =
    let rest = trim_end s in if bytes_eq (trim_start (c ∷ s)) [] then [] else c ∷ rest

-- `s.trim()`
abbrev pub trim : Bytes → Bytes
trim s = trim_end (trim_start s)

abbrev pub to_ascii_lowercase : ℕ → ℕ
to_ascii_lowercase c = if within b'A' b'Z' c then c + 32 else c

-- `a.eq_ignore_ascii_case(b)`
unfoldable pub eq_ignore_ascii_case : Bytes → Bytes → Bool
eq_ignore_ascii_case [] [] = true
eq_ignore_ascii_case [] (b ∷ bs) = false
eq_ignore_ascii_case (a ∷ as') [] = false
eq_ignore_ascii_case (a ∷ as') (b ∷ bs) =
    to_ascii_lowercase a == to_ascii_lowercase b && eq_ignore_ascii_case as' bs
