-- ===== src/Mfs/Files/Sound.antt =====
-- A sound table of kernel/src/mfs.rs, and a new file at its end.
use polymorph_os.Prelude.{
  ◌+◌, ◌^◌, ◌<◌, ◌≡◌, refl, sym, false, inl, inr, List, [], ◌∷◌, ◌++◌, arith,
}
use polymorph_os.Prelude.{Bool-cases}
use polymorph_os.Prelude.{Bytes, bytes_eq, bytes_eq_iff}
use polymorph_os.Mfs.Table.{FileEntry}
use polymorph_os.Mfs.Table.Printed.{IsClean, AreClean}
use polymorph_os.Mfs.Files.{has_name, next_lba, blocks_needed}
use polymorph_os.Mfs.Files.Layout.{LaidOut, LaidOut-append, next_lba_lem}

-- No two files of the table have the same name.
abbrev pub AreDistinct : List FileEntry → Type 0
AreDistinct [] = Unit
AreDistinct (e ∷ entries) = (has_name e.name entries ≡ false) × AreDistinct entries

pub record IsSound (entries : List FileEntry) : Type 0 where
  pub clean : AreClean entries
  pub laid_out : LaidOut 1 entries
  pub distinct : AreDistinct entries

abbrev pub new_entry : Bytes → Bytes → List FileEntry → FileEntry
new_entry filename bytes entries = record {
  name = filename;
  start_lba = next_lba entries;
  block_count = blocks_needed bytes;
}

pub AreClean-append :
    (entries : List FileEntry) (e : FileEntry)
    → AreClean entries
    → IsClean e
    → AreClean (entries ++ (e ∷ []))
AreClean-append [] e h c = (c, tt)
AreClean-append (f ∷ entries) e (h, hs) c = (h, AreClean-append entries e hs c)

pub bytes_ne_sym : (xs ys : Bytes) → bytes_eq xs ys ≡ false → bytes_eq ys xs ≡ false
bytes_ne_sym xs ys h = elim (Bool-cases (bytes_eq ys xs)) [
  | inl y ↦ let back = (bytes_eq_iff xs ys).1 (sym ((bytes_eq_iff ys xs).0 y)) in absurd cc
  | inr n ↦ n
]

has_name-append :
    (name : Bytes) (entries : List FileEntry) (e : FileEntry)
    → has_name name entries ≡ false
    → bytes_eq e.name name ≡ false
    → has_name name (entries ++ (e ∷ [])) ≡ false
unfolding has_name
has_name-append name [] e h k = rw k
has_name-append name (f ∷ entries) e h k = elim (Bool-cases (bytes_eq f.name name)) [
  | inl y ↦ absurd (ground arith)
  | inr n ↦ rw n (has_name-append name entries e (rw n at h) k)
]

AreDistinct-append :
    (entries : List FileEntry) (e : FileEntry)
    → AreDistinct entries
    → has_name e.name entries ≡ false
    → AreDistinct (entries ++ (e ∷ []))
unfolding has_name
AreDistinct-append [] e h k = (refl, tt)
AreDistinct-append (f ∷ entries) e (h, hs) k = elim (Bool-cases (bytes_eq f.name e.name)) [
  | inl y ↦ absurd (ground arith)
  | inr n ↦ (
    has_name-append f.name entries e h (bytes_ne_sym f.name e.name n),
    AreDistinct-append entries e hs (rw n at k),
  )
]

pub IsSound-append :
    (entries : List FileEntry) (e : FileEntry)
    → IsSound entries
    → IsClean e
    → has_name e.name entries ≡ false
    → e.start_lba ≡ next_lba entries
    → e.start_lba + e.block_count < 2 ^ 64
    → IsSound (entries ++ (e ∷ []))
IsSound-append entries e ok c fresh behind fits = record {
  clean = AreClean-append entries e ok.clean c;
  laid_out =
      LaidOut-append 1 entries e ok.laid_out
        (omega (arith, behind, next_lba_lem entries ok.laid_out)) fits;
  distinct = AreDistinct-append entries e ok.distinct fresh;
}
