-- ===== src/Mfs/Files/Layout.antt =====
-- Where the files of the table lie: one behind the other, from block 1 on.
use polymorph_os.Prelude.{
  ℕ, zero, suc, ◌+◌, ◌^◌, ◌≤◌, ◌<◌, ◌≡◌, refl, List, [], ◌∷◌, ◌++◌, some, arith,
}
use polymorph_os.Prelude.{get_elem?, set, subst, Bytes}
use polymorph_os.Mfs.Table.{FileEntry}
use polymorph_os.Mfs.Files.{next_lba, remove_at}

-- Each file lies behind those before it in the table, from `lo` on, and ends at a block number of 64
-- bits.
abbrev pub LaidOut : ℕ → List FileEntry → Type 0
LaidOut lo [] = Unit
LaidOut lo (e ∷ entries) =
    (lo ≤ e.start_lba)
    × (e.start_lba + e.block_count < 2 ^ 64)
    × LaidOut (e.start_lba + e.block_count) entries

abbrev pub end_of : ℕ → List FileEntry → ℕ
end_of lo [] = lo
end_of lo (e ∷ entries) = end_of (e.start_lba + e.block_count) entries

pub LaidOut-weaken :
    (lo lo' : ℕ) (entries : List FileEntry) → lo' ≤ lo → LaidOut lo entries → LaidOut lo' entries
LaidOut-weaken lo lo' [] h l = tt
LaidOut-weaken lo lo' (e ∷ entries) h (a, b, l) = (omega arith, b, l)

pub LaidOut-append :
    (lo : ℕ) (entries : List FileEntry) (e : FileEntry)
    → LaidOut lo entries
    → end_of lo entries ≤ e.start_lba
    → e.start_lba + e.block_count < 2 ^ 64
    → LaidOut lo (entries ++ (e ∷ []))
LaidOut-append lo [] e l behind fits = (behind, fits, tt)
LaidOut-append lo (f ∷ entries) e (a, b, l) behind fits =
    (a, b, LaidOut-append (f.start_lba + f.block_count) entries e l behind fits)

next_lba-end_of :
    (lo : ℕ) (e : FileEntry) (entries : List FileEntry)
    → LaidOut lo (e ∷ entries)
    → next_lba (e ∷ entries) ≡ end_of lo (e ∷ entries)
unfolding next_lba
next_lba-end_of lo e [] (a, b, l) = omega arith
next_lba-end_of lo e (f ∷ entries) (a, b, l) =
    next_lba-end_of (e.start_lba + e.block_count) f entries l

-- The block that `save_file` starts a new file at is the end of the files.
pub next_lba_lem :
    (entries : List FileEntry) → LaidOut 1 entries → next_lba entries ≡ end_of 1 entries
unfolding next_lba
next_lba_lem [] l = refl
next_lba_lem (e ∷ entries) l = next_lba-end_of 1 e entries l

pub le-end_of : (lo : ℕ) (entries : List FileEntry) → LaidOut lo entries → lo ≤ end_of lo entries
le-end_of lo [] l = omega arith
le-end_of lo (e ∷ entries) (a, b, l) =
    omega (arith, le-end_of (e.start_lba + e.block_count) entries l)

-- Every file of the table lies between `lo` and the end.
pub LaidOut-within :
    (lo : ℕ) (entries : List FileEntry) (i : ℕ) (e : FileEntry)
    → LaidOut lo entries
    → get_elem? entries i ≡ some e
    → (lo ≤ e.start_lba) × (e.start_lba + e.block_count ≤ end_of lo entries)
LaidOut-within lo [] i e l h = absurd cc
LaidOut-within lo (f ∷ entries) zero e (a, b, l) h =
    let same : f ≡ e = cc in
    subst
      (λ g.
        (lo ≤ g.start_lba)
        × (g.start_lba + g.block_count ≤ end_of (f.start_lba + f.block_count) entries))
      same (a, le-end_of (f.start_lba + f.block_count) entries l)
LaidOut-within lo (f ∷ entries) (suc i) e (a, b, l) h =
    omega (arith, LaidOut-within (f.start_lba + f.block_count) entries i e l h)

-- Two files of the table share no block.
pub LaidOut-apart :
    (lo : ℕ) (entries : List FileEntry) (i j : ℕ) (e f : FileEntry)
    → LaidOut lo entries
    → get_elem? entries i ≡ some e
    → get_elem? entries j ≡ some f
    → i < j
    → e.start_lba + e.block_count ≤ f.start_lba
LaidOut-apart lo [] i j e f l hi hj lt = absurd cc
LaidOut-apart lo (g ∷ entries) i zero e f l hi hj lt = absurd (omega arith)
LaidOut-apart lo (g ∷ entries) zero (suc j) e f (a, b, l) hi hj lt =
    let same : g ≡ e = cc in
    subst (λ h. h.start_lba + h.block_count ≤ f.start_lba) same
      (LaidOut-within (g.start_lba + g.block_count) entries j f l hj).0
LaidOut-apart lo (g ∷ entries) (suc i) (suc j) e f (a, b, l) hi hj lt =
    LaidOut-apart (g.start_lba + g.block_count) entries i j e f l hi hj (omega arith)

-- A file taken from the table leaves the others where they are.
pub remove_at-LaidOut :
    (lo : ℕ) (entries : List FileEntry) (pos : ℕ)
    → LaidOut lo entries
    → LaidOut lo (remove_at entries pos)
unfolding remove_at
remove_at-LaidOut lo [] pos l = tt
remove_at-LaidOut lo (e ∷ entries) zero (a, b, l) =
    LaidOut-weaken (e.start_lba + e.block_count) lo entries (omega arith) l
remove_at-LaidOut lo (e ∷ entries) (suc pos) (a, b, l) =
    (a, b, remove_at-LaidOut (e.start_lba + e.block_count) entries pos l)

pub rename-LaidOut :
    (lo : ℕ) (entries : List FileEntry) (pos : ℕ) (e : FileEntry) (new_name : Bytes)
    → get_elem? entries pos ≡ some e
    → LaidOut lo entries
    → LaidOut lo (set entries pos (record e { name = new_name }))
rename-LaidOut lo [] pos e new_name h l = tt
rename-LaidOut lo (f ∷ entries) zero e new_name h (a, b, l) =
    let same : f ≡ e = cc in
    subst
      (λ g.
        (lo ≤ g.start_lba)
        × (g.start_lba + g.block_count < 2 ^ 64)
        × LaidOut (g.start_lba + g.block_count) entries)
      same (a, b, l)
rename-LaidOut lo (f ∷ entries) (suc pos) e new_name h (a, b, l) =
    (a, b, rename-LaidOut (f.start_lba + f.block_count) entries pos e new_name h l)
