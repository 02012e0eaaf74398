-- ===== src/Mfs/Files/Save.antt =====
-- `save_file` of kernel/src/mfs.rs on a drive that keeps what is written to it.
use polymorph_os.Prelude.{
  ℕ, ◌+◌, ◌-◌, ◌^◌, ◌≤◌, ◌<◌, ◌≡◌, ◌≢◌, refl, sym, ap, ◌∙◌, false, inl, inr, List, [], ◌∷◌, ◌++◌,
  Option, none, some, arith,
}
use polymorph_os.Prelude.{length, get_elem?, if◌then◌else◌, leb, ltb, ◌&&◌, Bool-cases, fail, subst}
use polymorph_os.Prelude.{Run, done, Bytes, bind-done}
use polymorph_os.Mfs.{Drive, MfsError, file_already_exists}
use polymorph_os.Mfs.Table.{FileEntry, parse_mft, new_mft_string, new_mft_buffer}
use polymorph_os.Mfs.Table.RoundTrip.{parse_mft-new_mft_buffer}
use polymorph_os.Mfs.Table.Printed.{IsClean}
use polymorph_os.Mfs.Files.{has_name, next_lba, blocks_needed, read_mft, write_chunks}
use polymorph_os.Mfs.Files.{write_file, save_file}
use polymorph_os.Mfs.Files.Kept.{
  Keeps, padded, chunk, filled, read_mft-Keeps, write_mft-Keeps, write_chunks-Keeps,
}
use polymorph_os.Mfs.Files.Layout.{LaidOut-within, next_lba_lem, le-end_of}
use polymorph_os.Mfs.Files.Sound.{AreClean-append, IsSound, new_entry, IsSound-append}

module _ (drive : Drive) (keeps : Keeps drive) where
  open drive use {State}
  open keeps use {block_at}

  -- The table that the drive's block 0 holds.
  abbrev pub table : State → List FileEntry
  table s = parse_mft (block_at s 0)

  -- What a save leaves on the drive.
  pub record Saved (filename bytes : Bytes) (s s1 : State) : Type 0 where
    pub fresh : has_name filename (table s) ≡ false
    pub listed :
        block_at s1 0 ≡ new_mft_buffer (table s ++ (new_entry filename bytes (table s) ∷ []))
    pub stored :
        (k : ℕ)
        → k ≢ 0
        → block_at s1 k ≡ filled bytes (next_lba (table s)) 0 (blocks_needed bytes) (block_at s) k

  write_file-Keeps :
      (bytes : Bytes) (lba : ℕ) (d d1 : Option State)
      → write_file drive bytes lba d ≡ done d1
      → lba + blocks_needed bytes ≤ 2 ^ 64
      → (s s1 : State) × (d ≡ some s)
        × (d1 ≡ some s1)
        × ((k : ℕ) → block_at s1 k ≡ filled bytes lba 0 (blocks_needed bytes) (block_at s) k)
  unfolding write_file
  write_file-Keeps bytes lba none d1 h fits = absurd cc
  write_file-Keeps bytes lba (some s) d1 h fits =
      let (s1, ran, e) =
        bind-done (write_chunks drive bytes lba (blocks_needed bytes) 0 s) _ d1 h in
      (
        s,
        s1,
        refl,
        cc,
        write_chunks-Keeps drive keeps bytes lba (blocks_needed bytes) 0 s s1 ran (omega arith),
      )

  filled-same :
      (bytes : Bytes) (lba n : ℕ) (old old' : ℕ → Bytes) (k : ℕ)
      → old k ≡ old' k
      → filled bytes lba 0 n old k ≡ filled bytes lba 0 n old' k
  filled-same bytes lba n old old' k e =
      ap
        (λ (b : Bytes).
          if leb (lba + 0) k && ltb k (lba + 0 + n) then padded (chunk bytes (k - lba)) else b)
        e

  -- A save that succeeds, onto a drive with room behind the last file, has found no file of the name,
  -- has put the bytes into the blocks behind the last file, and has put the table with the new entry
  -- at its end into block 0; every other block is as it was.
  pub save_file-Saved :
      (filename bytes : Bytes) (s : State) (d1 : Option State)
      → save_file drive filename bytes (some s) ≡ done d1
      → next_lba (table s) + blocks_needed bytes ≤ 2 ^ 64
      → (s1 : State) × (d1 ≡ some s1) × Saved filename bytes s s1
  unfolding save_file
  save_file-Saved filename bytes s d1 h room =
      let ((entries, d2), read, h1) = bind-done (read_mft drive (some s)) _ d1 h in
      let (t, t1, is_t, is_t1, parsed, same) =
        read_mft-Keeps drive keeps (some s) entries d2 read in
      let at_s : t ≡ s = cc in
      let entries_are : entries ≡ table s = parsed ∙ ap table at_s in
      elim (Bool-cases (has_name filename entries)) [
        | inl y ↦ absurd (refused (rw y at h1))
        | inr fresh ↦
            let (d3, filled_in, h2) =
              bind-done (write_file drive bytes (next_lba entries) d2) _ d1 (rw fresh at h1) in
            let room' : next_lba entries + blocks_needed bytes ≤ 2 ^ 64 =
              subst (λ l. next_lba l + blocks_needed bytes ≤ 2 ^ 64) (sym entries_are) room in
            let (u, u1, is_u, is_u1, content) =
              write_file-Keeps bytes (next_lba entries) d2 d3 filled_in room' in
            let (v, v1, is_v, is_v1, table_put, kept) =
              write_mft-Keeps drive keeps (entries ++ (new_entry filename bytes entries ∷ [])) d3 d1
                h2 in
            let u-t : u ≡ t1 = cc in
            let v-u : v ≡ u1 = cc in
            (
              v1,
              is_v1,
              subst
                  (λ (l : List FileEntry).
                    (has_name filename l ≡ false)
                    → (block_at v1 0 ≡ new_mft_buffer (l ++ (new_entry filename bytes l ∷ [])))
                    → ((k : ℕ)
                        → k ≢ 0
                        → block_at v1 k
                          ≡ filled bytes (next_lba l) 0 (blocks_needed bytes) (block_at s) k)
                    → Saved filename bytes s v1)
                  (sym entries_are) (λ f l c. record { fresh = f; listed = l; stored = c }) fresh
                  table_put
                  (λ k ne.
                    kept k ne
                    ∙ ap (λ w. block_at w k) v-u
                    ∙ content k
                    ∙ filled-same bytes (next_lba entries) (blocks_needed bytes) (block_at u)
                        (block_at s) k
                        (ap (λ w. block_at w k) u-t ∙ same k ∙ ap (λ w. block_at w k) at_s)),
            )
      ]
    where
      refused : ◌≢◌ {A = Run MfsError (Option State)} (fail file_already_exists) (done d1)
      refused e = cc

  -- On a sound table with a clean name for the new file and room for it on the drive and in the table, a
  -- save that succeeds has found no file of the name. The table read back is the one before with the
  -- new file behind it, and is sound; the new file's blocks hold its bytes, with zeros behind the last;
  -- and no block of a file that was there has changed.
  pub save_file_lem :
      (filename bytes : Bytes) (s : State) (d1 : Option State)
      → save_file drive filename bytes (some s) ≡ done d1
      → IsSound (table s)
      → IsClean (new_entry filename bytes (table s))
      → next_lba (table s) + blocks_needed bytes < 2 ^ 64
      → length (new_mft_string (table s ++ (new_entry filename bytes (table s) ∷ []))) ≤ 4096
      → (s1 : State) × (d1 ≡ some s1)
        × (has_name filename (table s) ≡ false)
        × (table s1 ≡ table s ++ (new_entry filename bytes (table s) ∷ []))
        × IsSound (table s1)
        × ((j : ℕ)
            → j < blocks_needed bytes
            → block_at s1 (next_lba (table s) + j) ≡ padded (chunk bytes j))
        × ((i : ℕ) (e : FileEntry) (k : ℕ)
            → get_elem? (table s) i ≡ some e
            → e.start_lba ≤ k
            → k < e.start_lba + e.block_count
            → block_at s1 k ≡ block_at s k)
  save_file_lem filename bytes s d1 h ok c room fits =
      let (s1, is_s1, saved) = save_file-Saved filename bytes s d1 h (omega arith) in
      let new = new_entry filename bytes (table s) in
      let read_back : table s1 ≡ table s ++ (new ∷ []) =
        ap parse_mft saved.listed
        ∙ parse_mft-new_mft_buffer (table s ++ (new ∷ []))
            (AreClean-append (table s) new ok.clean c) fits in
      let lba = next_lba (table s) in
      let at_end = next_lba_lem (table s) ok.laid_out in
      let behind = le-end_of 1 (table s) ok.laid_out in
      (
        s1,
        is_s1,
        saved.fresh,
        read_back,
        subst IsSound (sym read_back) (IsSound-append (table s) new ok c saved.fresh refl room),
        λ j small.
            let positive : lba + j ≢ 0 = omega (arith, at_end, behind) in
            saved.stored (lba + j) positive ∙ in_file s lba j small,
        λ i e k there lo hi.
            let inside = LaidOut-within 1 (table s) i e ok.laid_out there in
            let before_new : k < lba = omega (arith, at_end, inside) in
            saved.stored k (omega (arith, inside)) ∙ not_in_file s lba k before_new,
      )
    where
      in_file :
          (s : State) (lba j : ℕ)
          → j < blocks_needed bytes
          → filled bytes lba 0 (blocks_needed bytes) (block_at s) (lba + j) ≡ padded (chunk bytes j)
      in_file s lba j small = let d : lba + j - lba ≡ j = omega arith in rw d (ground arith)

      not_in_file :
          (s : State) (lba k : ℕ)
          → k < lba
          → filled bytes lba 0 (blocks_needed bytes) (block_at s) k ≡ block_at s k
      not_in_file s lba k lt = ground arith
