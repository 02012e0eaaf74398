-- ===== src/Mfs/Files/Gated/Names.antt =====
-- Names in a table of kernel/src/mfs.rs from which a file is taken, or in which one is renamed.
use polymorph_os.Prelude.{
  ℕ, zero, suc, ◌+◌, ◌≡◌, refl, sym, ap, ◌∙◌, false, inl, inr, List, [], ◌∷◌, some, arith,
}
use polymorph_os.Prelude.{get_elem?, set, subst, Bool-cases}
use polymorph_os.Prelude.{Bytes, bytes_eq, bytes_eq_iff}
use polymorph_os.Prelude.{◌≤◌}
use polymorph_os.Mfs.Text.{max_u64}
use polymorph_os.Mfs.Table.{FileEntry}
use polymorph_os.Mfs.Table.Printed.{IsClean, AreClean}
use polymorph_os.Mfs.Files.{has_name, position, remove_at}
use polymorph_os.Mfs.Files.Layout.{remove_at-LaidOut, rename-LaidOut}
use polymorph_os.Mfs.Files.Sound.{IsSound, AreDistinct, bytes_ne_sym}

position_from :
    (filename : Bytes) (entries : List FileEntry) (i pos : ℕ)
    → position filename entries i ≡ some pos
    → (j : ℕ) × (e : FileEntry) × (pos ≡ i + j)
      × (get_elem? entries j ≡ some e)
      × (e.name ≡ filename)
unfolding position
position_from filename [] i pos h = absurd cc
position_from filename (f ∷ entries) i pos h = elim (Bool-cases (bytes_eq f.name filename)) [
  | inl y ↦ let e = rw y at h in (0, f, ground arith, refl, (bytes_eq_iff f.name filename).0 y)
  | inr n ↦
      let (j, e, at_j, there, named) = position_from filename entries (i + 1) pos (rw n at h) in
      (suc j, e, omega (arith, at_j), there, named)
]

pub position_lem :
    (filename : Bytes) (entries : List FileEntry) (pos : ℕ)
    → position filename entries 0 ≡ some pos
    → (e : FileEntry) × (get_elem? entries pos ≡ some e) × (e.name ≡ filename)
position_lem filename entries pos h =
    let (j, e, at_j, there, named) = position_from filename entries 0 pos h in
    let same : pos ≡ j = omega (arith, at_j) in (e, ap (get_elem? entries) same ∙ there, named)

module _ (name : Bytes) where
  has_name-later :
      (f : FileEntry) (entries : List FileEntry)
      → has_name name (f ∷ entries) ≡ false
      → (bytes_eq f.name name ≡ false) × (has_name name entries ≡ false)
  unfolding has_name
  has_name-later f entries h = ground arith

  has_name-cons :
      (f : FileEntry) (entries : List FileEntry)
      → bytes_eq f.name name ≡ false
      → has_name name entries ≡ false
      → has_name name (f ∷ entries) ≡ false
  unfolding has_name
  has_name-cons f entries h k = rw h k

  has_name-elem :
      (entries : List FileEntry) (j : ℕ) (e : FileEntry)
      → get_elem? entries j ≡ some e
      → has_name name entries ≡ false
      → bytes_eq e.name name ≡ false
  has_name-elem [] j e there h = absurd cc
  has_name-elem (f ∷ entries) zero e there h =
      let same : f ≡ e = cc in
      ap (λ (g : FileEntry). bytes_eq g.name name) (sym same) ∙ (has_name-later f entries h).0
  has_name-elem (f ∷ entries) (suc j) e there h =
      has_name-elem entries j e there (has_name-later f entries h).1

  has_name-remove_at :
      (entries : List FileEntry) (pos : ℕ)
      → has_name name entries ≡ false
      → has_name name (remove_at entries pos) ≡ false
  unfolding remove_at
  has_name-remove_at [] pos h = h
  has_name-remove_at (f ∷ entries) zero h = (has_name-later f entries h).1
  has_name-remove_at (f ∷ entries) (suc pos) h =
      let (n, later) = has_name-later f entries h in
      has_name-cons f (remove_at entries pos) n (has_name-remove_at entries pos later)

  has_name-set :
      (entries : List FileEntry) (pos : ℕ) (e : FileEntry)
      → has_name name entries ≡ false
      → bytes_eq e.name name ≡ false
      → has_name name (set entries pos e) ≡ false
  has_name-set [] pos e h k = h
  has_name-set (f ∷ entries) zero e h k = has_name-cons e entries k (has_name-later f entries h).1
  has_name-set (f ∷ entries) (suc pos) e h k =
      let (n, later) = has_name-later f entries h in
      has_name-cons f (set entries pos e) n (has_name-set entries pos e later k)

-- Names being distinct, the name of the file taken out is gone.
pub has_name-remove_at_self :
    (entries : List FileEntry) (pos : ℕ) (e : FileEntry)
    → AreDistinct entries
    → get_elem? entries pos ≡ some e
    → has_name e.name (remove_at entries pos) ≡ false
unfolding remove_at
has_name-remove_at_self [] pos e d there = absurd cc
has_name-remove_at_self (f ∷ entries) zero e (d, ds) there =
    let same : f ≡ e = cc in subst (λ (g : FileEntry). has_name g.name entries ≡ false) same d
has_name-remove_at_self (f ∷ entries) (suc pos) e (d, ds) there =
    has_name-cons e.name f (remove_at entries pos)
      (bytes_ne_sym e.name f.name (has_name-elem f.name entries pos e there d))
      (has_name-remove_at_self entries pos e ds there)

remove_at-AreClean :
    (entries : List FileEntry) (pos : ℕ) → AreClean entries → AreClean (remove_at entries pos)
unfolding remove_at
remove_at-AreClean [] pos h = tt
remove_at-AreClean (f ∷ entries) zero (h, hs) = hs
remove_at-AreClean (f ∷ entries) (suc pos) (h, hs) = (h, remove_at-AreClean entries pos hs)

remove_at-AreDistinct :
    (entries : List FileEntry) (pos : ℕ) → AreDistinct entries → AreDistinct (remove_at entries pos)
unfolding remove_at
remove_at-AreDistinct [] pos h = tt
remove_at-AreDistinct (f ∷ entries) zero (h, hs) = hs
remove_at-AreDistinct (f ∷ entries) (suc pos) (h, hs) =
    (has_name-remove_at f.name entries pos h, remove_at-AreDistinct entries pos hs)

pub remove_at-IsSound :
    (entries : List FileEntry) (pos : ℕ) → IsSound entries → IsSound (remove_at entries pos)
remove_at-IsSound entries pos ok = record {
  clean = remove_at-AreClean entries pos ok.clean;
  laid_out = remove_at-LaidOut 1 entries pos ok.laid_out;
  distinct = remove_at-AreDistinct entries pos ok.distinct;
}

set-AreClean :
    (entries : List FileEntry) (pos : ℕ) (e : FileEntry)
    → AreClean entries
    → IsClean e
    → AreClean (set entries pos e)
set-AreClean [] pos e h c = tt
set-AreClean (f ∷ entries) zero e (h, hs) c = (c, hs)
set-AreClean (f ∷ entries) (suc pos) e (h, hs) c = (h, set-AreClean entries pos e hs c)

set-AreDistinct :
    (entries : List FileEntry) (pos : ℕ) (e : FileEntry)
    → AreDistinct entries
    → has_name e.name entries ≡ false
    → AreDistinct (set entries pos e)
set-AreDistinct [] pos e h fresh = tt
set-AreDistinct (f ∷ entries) zero e (h, hs) fresh = ((has_name-later e.name f entries fresh).1, hs)
set-AreDistinct (f ∷ entries) (suc pos) e (h, hs) fresh =
    let (n, later) = has_name-later e.name f entries fresh in
    (
      has_name-set f.name entries pos e h (bytes_ne_sym f.name e.name n),
      set-AreDistinct entries pos e hs later,
    )

pub rename-IsSound :
    (entries : List FileEntry) (pos : ℕ) (e : FileEntry) (new_name : Bytes)
    → IsSound entries
    → get_elem? entries pos ≡ some e
    → IsClean (record e { name = new_name })
    → has_name new_name entries ≡ false
    → IsSound (set entries pos (record e { name = new_name }))
rename-IsSound entries pos e new_name ok there c fresh = record {
  clean = set-AreClean entries pos (record e { name = new_name }) ok.clean c;
  laid_out = rename-LaidOut 1 entries pos e new_name there ok.laid_out;
  distinct = set-AreDistinct entries pos (record e { name = new_name }) ok.distinct fresh;
}

-- The entry renamed is as clean as its new name.
pub renamed-IsClean :
    (entries : List FileEntry) (pos : ℕ) (e : FileEntry) (new_name : Bytes)
    → AreClean entries
    → get_elem? entries pos ≡ some e
    → IsClean (record { name = new_name; start_lba = 0; block_count = 0 })
    → IsClean (record e { name = new_name })
renamed-IsClean [] pos e new_name h there c = absurd cc
renamed-IsClean (f ∷ entries) zero e new_name (h, hs) there c =
    let same : f ≡ e = cc in
    record {
      text = c.text;
      no_colon = c.no_colon;
      no_line_feed = c.no_line_feed;
      no_zero = c.no_zero;
      lba_fits = subst (λ (g : FileEntry). g.start_lba ≤ max_u64) same h.lba_fits;
      count_fits = subst (λ (g : FileEntry). g.block_count ≤ max_u64) same h.count_fits;
    }
renamed-IsClean (f ∷ entries) (suc pos) e new_name (h, hs) there c =
    renamed-IsClean entries pos e new_name hs there c
