-- ===== src/VgaBuffer/Rows.antt =====
-- The loops of `new_line` and `clear_row` of kernel/src/vga_buffer.rs, as changes of whole rows.
use polymorph_os.Prelude.{
  ℕ, zero, suc, ◌+◌, ◌-◌, ◌≤◌, ◌<◌, ◌≡◌, ◌≢◌, refl, sym, ap, ◌∙◌, arith, false, List, [], ◌∷◌, ◌++◌,
  append_assoc, append-nil,
}
use polymorph_os.Prelude.{
  length, get_elem?, get_or, set, take, drop, take-append-drop, replicate, length-set,
  get_elem?-set_self, get_elem?-set_ne, get_elem?-eq-get_or,
}
use polymorph_os.Prelude.{some, done, lt→ltb, ◌==◌, Bool-cases, ==_iff, inl, inr}
use native.Mathlib.Decide.{dec_lt}
use polymorph_os.VgaBuffer.{
  ScreenChar, Rows, copy_cols, copy_rows, clear_cols, buffer_width, buffer_height,
}
use polymorph_os.VgaBuffer.Segments.{
  take-set, drop-some, drop-set, take-all, drop-all, set-set, set-same, inside,
}

abbrev no_char : ScreenChar
no_char = record { ascii_character = 0; color_code = 0 }

-- A row whose columns are written one by one from another, from a column on, ends as that other's.
overlay : (n col : ℕ) (src dst : List ScreenChar) → List ScreenChar
overlay zero col src dst = dst
overlay (suc n) col src dst = overlay n (col + 1) src (set dst col (get_or src col no_char))

overlay_lem :
    (n col : ℕ) (src dst : List ScreenChar)
    → col + n ≡ length src
    → length dst ≡ length src
    → overlay n col src dst ≡ take col dst ++ drop col src
unfolding overlay
overlay_lem zero col src dst at_end same =
    let at_dst : length dst ≡ col = omega arith in
    let whole : take col dst ≡ dst = ap (λ k. take k dst) (sym at_dst) ∙ take-all dst in
    let left : drop col src ≡ [] = drop-all src col (omega arith) in
    rw (whole, left) (sym (append-nil dst))
overlay_lem (suc n) col src dst at_end same =
    let c = get_or src col no_char in
    let dst1 = set dst col c in
    let next : suc col ≡ col + 1 = omega arith in
    let ih = overlay_lem n (col + 1) src dst1 (omega arith) (length-set dst col c ∙ same) in
    let front : take (col + 1) dst1 ≡ take col dst ++ c ∷ [] =
      ap (λ k. take k dst1) (sym next) ∙ take-set dst col c (omega arith) in
    let back : drop col src ≡ c ∷ drop (col + 1) src =
      drop-some src col c (get_elem?-eq-get_or src col no_char (omega arith))
      ∙ ap (λ k. c ∷ drop k src) next in
    ih
    ∙ ap (λ l. l ++ drop (col + 1) src) front
    ∙ append_assoc (take col dst) (c ∷ []) (drop (col + 1) src)
    ∙ ap (λ l. take col dst ++ l) (sym back)

copy_cols_lem :
    (n k col : ℕ) (chars : Rows) (src dst : List ScreenChar)
    → get_elem? chars k ≡ some dst
    → get_elem? chars (k + 1) ≡ some src
    → col + n ≡ length src
    → length dst ≡ length src
    → copy_cols n (k + 1) col chars ≡ done (set chars k (overlay n col src dst))
unfolding copy_cols overlay
copy_cols_lem zero k col chars src dst at_dst at_src at_end same =
    ap done (sym (set-same chars k dst at_dst))
copy_cols_lem (suc n) k col chars src dst at_dst at_src at_end same =
    let c = get_or src col no_char in
    let dst1 = set dst col c in
    let chars1 = set chars k dst1 in
    let above : k + 1 - 1 ≡ k = omega arith in
    let ih =
      copy_cols_lem n k (col + 1) chars1 src dst1
        (get_elem?-set_self chars k dst1 (inside chars k dst at_dst))
        (get_elem?-set_ne chars dst1 (λ e. omega arith) ∙ at_src) (omega arith)
        (length-set dst col c ∙ same) in
    rw
      (
        at_src,
        get_elem?-eq-get_or src col no_char (omega arith),
        above,
        at_dst,
        lt→ltb col (length dst) (omega arith),
        lt→ltb k (length chars) (inside chars k dst at_dst),
      )
      (ih ∙ ap done (set-set chars k dst1 (overlay n (col + 1) src dst1)))

clear_cols_lem :
    (n k col : ℕ) (chars : Rows) (blank : ScreenChar) (src dst : List ScreenChar)
    → get_elem? chars k ≡ some dst
    → ((i : ℕ) → i < length src → get_or src i no_char ≡ blank)
    → col + n ≡ length src
    → length dst ≡ length src
    → clear_cols blank n k col chars ≡ done (set chars k (overlay n col src dst))
unfolding clear_cols overlay
clear_cols_lem zero k col chars blank src dst at_dst all at_end same =
    ap done (sym (set-same chars k dst at_dst))
clear_cols_lem (suc n) k col chars blank src dst at_dst all at_end same =
    let dst1 = set dst col blank in
    let chars1 = set chars k dst1 in
    let ih =
      clear_cols_lem n k (col + 1) chars1 blank src dst1
        (get_elem?-set_self chars k dst1 (inside chars k dst at_dst)) all (omega arith)
        (length-set dst col blank ∙ same) in
    rw
      (
        all col (omega arith),
        at_dst,
        lt→ltb col (length dst) (omega arith),
        lt→ltb k (length chars) (inside chars k dst at_dst),
      )
      (ih ∙ ap done (set-set chars k dst1 (overlay n (col + 1) src dst1)))

-- Every row has some width.
abbrev pub Wide : ℕ → Rows → Type 0
Wide width chars =
    (i : ℕ) (row : List ScreenChar) → get_elem? chars i ≡ some row → length row ≡ width

pub set-Wide :
    (width k : ℕ) (chars : Rows) (row : List ScreenChar)
    → Wide width chars
    → length row ≡ width
    → Wide width (set chars k row)
set-Wide width k chars row wide e i r h = elim (dec_lt k (length chars)) [
  | no out ↦ wide i r (sym (ap (λ l. get_elem? l i) (set-out chars k row (omega arith))) ∙ h)
  | yes lt ↦ elim (Bool-cases (k == i)) [
    | inr ne ↦ wide i r (sym (get_elem?-set_ne chars row (apart ne)) ∙ h)
    | inl eq ↦
        let same = (==_iff k i).0 eq in
        let here : get_elem? (set chars k row) i ≡ some row =
          ap (get_elem? (set chars k row)) (sym same) ∙ get_elem?-set_self chars k row lt in
        let r_is : some r ≡ some row = sym h ∙ here in
        let r_row : r ≡ row = cc in ap length r_row ∙ e
  ]
]
  where
    apart : (k == i) ≡ false → k ≢ i
    apart n e = ground arith

    set-out : (xs : Rows) (i : ℕ) (x : List ScreenChar) → length xs ≤ i → set xs i x ≡ xs
    set-out [] i x h = refl
    set-out (z ∷ zs) zero x h = absurd (omega arith)
    set-out (z ∷ zs) (suc i) x h = ap (λ l. z ∷ l) (set-out zs i x (omega arith))

-- From row `k` on, each row gets the one below it, and the last stays.
copy_rows_lem :
    (n k m : ℕ) (chars : Rows)
    → length chars ≡ suc m
    → k + n ≡ m
    → Wide buffer_width chars
    → copy_rows n (k + 1) chars ≡ done (take k chars ++ (drop (k + 1) chars ++ drop m chars))
unfolding copy_rows
copy_rows_lem zero k m chars size at_end wide =
    let here : k ≡ m = omega arith in
    let left : drop (k + 1) chars ≡ [] = drop-all chars (k + 1) (omega arith) in
    rw left
      (ap done (sym (ap (λ j. take k chars ++ drop j chars) (sym here) ∙ take-append-drop k chars)))
copy_rows_lem (suc n) k m chars size at_end wide =
    let src = get_or chars (k + 1) [] in
    let dst = get_or chars k [] in
    let at_src : get_elem? chars (k + 1) ≡ some src =
      get_elem?-eq-get_or chars (k + 1) [] (omega arith) in
    let at_dst : get_elem? chars k ≡ some dst = get_elem?-eq-get_or chars k [] (omega arith) in
    let src_size = wide (k + 1) src at_src in
    let chars1 = set chars k src in
    let row_done : overlay buffer_width 0 src dst ≡ src =
      overlay_lem buffer_width 0 src dst (sym src_size) (wide k dst at_dst ∙ sym src_size) in
    let step : copy_cols buffer_width (k + 1) 0 chars ≡ done chars1 =
      copy_cols_lem buffer_width k 0 chars src dst at_dst at_src (sym src_size)
        (wide k dst at_dst ∙ sym src_size)
      ∙ ap (λ r. done (set chars k r)) row_done in
    let ih =
      copy_rows_lem n (k + 1) m chars1 (length-set chars k src ∙ size) (omega arith)
        (set-Wide buffer_width k chars src wide src_size) in
    let next : suc k ≡ k + 1 = omega arith in
    let front : take (k + 1) chars1 ≡ take k chars ++ src ∷ [] =
      ap (λ j. take j chars1) (sym next) ∙ take-set chars k src (omega arith) in
    let after : suc (k + 1) ≡ k + 1 + 1 = omega arith in
    let middle : drop (k + 1) chars ≡ src ∷ drop (k + 1 + 1) chars =
      drop-some chars (k + 1) src at_src ∙ ap (λ j. src ∷ drop j chars) after in
    let rest : drop (k + 1 + 1) chars1 ≡ drop (k + 1 + 1) chars =
      drop-set chars k (k + 1 + 1) src (omega arith) in
    let bottom : drop m chars1 ≡ drop m chars = drop-set chars k m src (omega arith) in
    rw step (
      ih
      ∙ ap done (
          rw (front, middle, rest, bottom)
            (append_assoc (take k chars) (src ∷ []) (drop (k + 1 + 1) chars ++ drop m chars))))

abbrev pub blank_row : ScreenChar → List ScreenChar
blank_row blank = replicate buffer_width blank

get_or-replicate : (n i : ℕ) (b : ScreenChar) → i < n → get_or (replicate n b) i no_char ≡ b
get_or-replicate zero i b h = absurd (omega arith)
get_or-replicate (suc n) zero b h = refl
get_or-replicate (suc n) (suc i) b h = get_or-replicate n i b (omega arith)

length-blank_row : (n : ℕ) (b : ScreenChar) → length (replicate n b) ≡ n
length-blank_row zero b = refl
length-blank_row (suc n) b = ap suc (length-blank_row n b)

set-append_end :
    (xs : Rows) (k : ℕ) (y z : List ScreenChar)
    → length xs ≡ k
    → set (xs ++ y ∷ []) k z ≡ xs ++ z ∷ []
set-append_end [] zero y z h = refl
set-append_end [] (suc k) y z h = absurd (omega arith)
set-append_end (x ∷ xs) zero y z h = absurd (omega arith)
set-append_end (x ∷ xs) (suc k) y z h = ap (λ l. x ∷ l) (set-append_end xs k y z (omega arith))

get_elem?-append_end :
    (xs : Rows) (k : ℕ) (y : List ScreenChar) → length xs ≡ k → get_elem? (xs ++ y ∷ []) k ≡ some y
get_elem?-append_end [] zero y h = refl
get_elem?-append_end [] (suc k) y h = absurd (omega arith)
get_elem?-append_end (x ∷ xs) zero y h = absurd (omega arith)
get_elem?-append_end (x ∷ xs) (suc k) y h = get_elem?-append_end xs k y (omega arith)

-- The rows, moved up by one: the first is gone and the last stands twice.
pub copied :
    (chars : Rows)
    → length chars ≡ buffer_height
    → Wide buffer_width chars
    → copy_rows (buffer_height - 1) 1 chars ≡ done (drop 1 chars ++ get_or chars 24 [] ∷ [])
copied chars size wide =
    let at_last = get_elem?-eq-get_or chars 24 [] (omega (arith, size)) in
    let last : drop 24 chars ≡ get_or chars 24 [] ∷ [] =
      drop-some chars 24 (get_or chars 24 []) at_last
      ∙ ap (λ l. get_or chars 24 [] ∷ l) (drop-all chars 25 (omega (arith, size))) in
    copy_rows_lem 24 0 24 chars size refl wide ∙ ap (λ l. done (drop 1 chars ++ l)) last

-- The last of the rows, cleared.
pub cleared :
    (xs : Rows) (y : List ScreenChar) (blank : ScreenChar)
    → length xs ≡ 24
    → length y ≡ buffer_width
    → clear_cols blank buffer_width 24 0 (xs ++ y ∷ []) ≡ done (xs ++ blank_row blank ∷ [])
cleared xs y blank size wide =
    let src = blank_row blank in
    clear_cols_lem buffer_width 24 0 (xs ++ y ∷ []) blank src y (get_elem?-append_end xs 24 y size)
      (λ i h. get_or-replicate buffer_width i blank h) refl wide
    ∙ ap (λ r. done (set (xs ++ y ∷ []) 24 r)) (overlay_lem buffer_width 0 src y refl wide)
    ∙ ap done (set-append_end xs 24 y src size)
