-- ===== src/Mfs/Files/Gated.antt =====
-- `delete_file` and `rename_file` of kernel/src/mfs.rs: what a success has passed and what it leaves.
mod Names
mod Lengths
use polymorph_os.Prelude.{
  ℕ, zero, suc, ◌+◌, ◌≤◌, ◌≡◌, ◌≢◌, refl, sym, ap, ◌∙◌, true, false, inl, inr, Option, none, some,
  arith, List,
}
use polymorph_os.Prelude.{length, get_elem?, set, subst, if◌then◌else◌, Bool-cases, Option-cases}
use polymorph_os.Prelude.{Run, done, fail, ◌>>=◌, or_panic, Bytes, bind-done}
use polymorph_os.MdoVm.{MdoContext}
use polymorph_os.Mfs.{Drive, MfsError, file_not_found, target_already_exists, verify_mdo_access}
use polymorph_os.Mfs.Reads.{IsGranted}
use polymorph_os.Mfs.Table.{FileEntry, parse_mft, new_mft_string, new_mft_buffer}
use polymorph_os.Mfs.Table.RoundTrip.{parse_mft-new_mft_buffer}
use polymorph_os.Mfs.Files.{
  has_name, position, remove_at, read_mft, write_mft, delete_file, rename_file,
}
use polymorph_os.Mfs.Files.{delete_at, rename_at}
use polymorph_os.Mfs.Files.Kept.{Keeps, read_mft-Keeps, write_mft-Keeps, verify_mdo_access-Keeps}
use polymorph_os.Mfs.Files.Save.{table}
use polymorph_os.Mfs.Files.Sound.{IsSound}
use polymorph_os.Mfs.Table.Printed.{IsClean}
use polymorph_os.Mfs.Files.Gated.Lengths.{length-remove_at, length-rename}
use polymorph_os.Mfs.Files.Gated.Names.{
  position_lem, renamed-IsClean, remove_at-IsSound, rename-IsSound, has_name-remove_at_self,
}

module _ (drive : Drive) (keeps : Keeps drive) where
  open drive use {State}
  open keeps use {block_at}

  -- The table is replaced by `entries`, all other blocks are as they were.
  pub record Retabled (entries : List FileEntry) (s s1 : State) : Type 0 where
    pub listed : block_at s1 0 ≡ new_mft_buffer entries
    pub kept : (k : ℕ) → k ≢ 0 → block_at s1 k ≡ block_at s k

  -- The part of both operations from the entry's check on, for the table `entries'` to be written.
  gate-Retabled :
      (entries' : List FileEntry) (e : FileEntry) (ctx : MdoContext) (s s2 : State)
      (d1 : Option State)
      → (verify_mdo_access drive (some s2) e.start_lba ctx >>= λ (offset, d').
          write_mft drive entries' d')
        ≡ done d1
      → ((k : ℕ) → block_at s2 k ≡ block_at s k)
      → (s1 : State) × (d1 ≡ some s1)
        × IsGranted (block_at s e.start_lba) ctx
        × Retabled entries' s s1
  gate-Retabled entries' e ctx s s2 d1 h same =
      let ((offset, d3), verified, h1) =
        bind-done (verify_mdo_access drive (some s2) e.start_lba ctx) _ d1 h in
      let (s3, is_s3, granted, same3) =
        verify_mdo_access-Keeps drive keeps s2 e.start_lba ctx offset d3 verified in
      let (v, s1, is_v, is_s1, put, kept) = write_mft-Keeps drive keeps entries' d3 d1 h1 in
      let v-s3 : v ≡ s3 = cc in
      (
        s1,
        is_s1,
        subst (λ b. IsGranted b ctx) (same e.start_lba) granted,
        record {
          listed = put;
          kept = λ k ne. kept k ne ∙ ap (λ w. block_at w k) v-s3 ∙ same3 k ∙ same k;
        },
      )

  read_at-some :
      (entries : List FileEntry) (pos : ℕ) (e : FileEntry) {B : Type 0}
      (f : FileEntry → Run MfsError B)
      → get_elem? entries pos ≡ some e
      → (or_panic (get_elem? entries pos) >>= f) ≡ f e
  read_at-some entries pos e f h = rw h

  -- On a drive that keeps what is written, with a sound table whose text fits its block: a delete that
  -- succeeds has found the file by its exact name, the policy in the file's first block has granted
  -- the context, the table read back is the one before without the file, has no file of the name and
  -- is sound, and no other block has changed.
  pub delete_file_lem :
      (filename : Bytes) (ctx : MdoContext) (s : State) (d1 : Option State)
      → delete_file drive filename ctx (some s) ≡ done d1
      → IsSound (table drive keeps s)
      → length (new_mft_string (table drive keeps s)) ≤ 4096
      → (pos : ℕ) × (e : FileEntry) × (s1 : State) × (d1 ≡ some s1)
        × (get_elem? (table drive keeps s) pos ≡ some e)
        × (e.name ≡ filename)
        × IsGranted (block_at s e.start_lba) ctx
        × (table drive keeps s1 ≡ remove_at (table drive keeps s) pos)
        × IsSound (table drive keeps s1)
        × (has_name filename (table drive keeps s1) ≡ false)
        × ((k : ℕ) → k ≢ 0 → block_at s1 k ≡ block_at s k)
  unfolding delete_file
  delete_file_lem filename ctx s d1 h ok fits =
      let ((entries, d2), read, h1) = bind-done (read_mft drive (some s)) _ d1 h in
      let (t, t1, is_t, is_t1, parsed, same) =
        read_mft-Keeps drive keeps (some s) entries d2 read in
      let at_s : t ≡ s = cc in
      let entries_are : entries ≡ table drive keeps s =
        parsed ∙ ap (λ w. parse_mft (block_at w 0)) at_s in
      let h2 : delete_at drive (position filename (table drive keeps s) 0) (table drive keeps s) ctx
            (some t1)
          ≡ done d1 =
        rw entries_are at (rw is_t1 at h1) in
      elim (Option-cases (position filename (table drive keeps s) 0)) [
        | inl e ↦ absurd (not_found (rw e at h2))
        | inr (pos, at_pos) ↦
            let (e, there, named) = position_lem filename (table drive keeps s) pos at_pos in
            let h3 = rw (at_pos, there) at h2 in
            let (s1, is_s1, granted, retabled) =
              gate-Retabled (remove_at (table drive keeps s) pos) e ctx s t1 d1 h3
                (λ k. same k ∙ ap (λ w. block_at w k) at_s) in
            let sound = remove_at-IsSound (table drive keeps s) pos ok in
            let read_back : table drive keeps s1 ≡ remove_at (table drive keeps s) pos =
              ap parse_mft retabled.listed
              ∙ parse_mft-new_mft_buffer (remove_at (table drive keeps s) pos) sound.clean
                  (omega (arith, fits, length-remove_at (table drive keeps s) pos)) in
            (
              pos,
              e,
              s1,
              is_s1,
              there,
              named,
              granted,
              read_back,
              subst IsSound (sym read_back) sound,
              ap (has_name filename) read_back
                  ∙ subst (λ n. has_name n (remove_at (table drive keeps s) pos) ≡ false) named
                      (has_name-remove_at_self (table drive keeps s) pos e ok.distinct there),
              retabled.kept,
            )
      ]
    where
      not_found : ◌≢◌ {A = Run MfsError (Option State)} (fail file_not_found) (done d1)
      not_found e = cc

  -- On a drive that keeps what is written, with a sound table whose text has room in its block for a
  -- clean new name: a rename that succeeds has found no file of the new name and the file by its exact
  -- old name, the policy in the file's first block has granted the context, the table read back is the
  -- one before with the new name in the file's place and is sound, and no other block has changed.
  pub rename_file_lem :
      (old_name new_name : Bytes) (ctx : MdoContext) (s : State) (d1 : Option State)
      → rename_file drive old_name new_name ctx (some s) ≡ done d1
      → IsSound (table drive keeps s)
      → IsClean (record { name = new_name; start_lba = 0; block_count = 0 })
      → length (new_mft_string (table drive keeps s)) + length new_name ≤ 4096
      → (pos : ℕ) × (e : FileEntry) × (s1 : State) × (d1 ≡ some s1)
        × (has_name new_name (table drive keeps s) ≡ false)
        × (get_elem? (table drive keeps s) pos ≡ some e)
        × (e.name ≡ old_name)
        × IsGranted (block_at s e.start_lba) ctx
        × (table drive keeps s1 ≡ set (table drive keeps s) pos (record e { name = new_name }))
        × IsSound (table drive keeps s1)
        × ((k : ℕ) → k ≢ 0 → block_at s1 k ≡ block_at s k)
  unfolding rename_file
  rename_file_lem old_name new_name ctx s d1 h ok c fits =
      let ((entries, d2), read, h1) = bind-done (read_mft drive (some s)) _ d1 h in
      let (t, t1, is_t, is_t1, parsed, same) =
        read_mft-Keeps drive keeps (some s) entries d2 read in
      let at_s : t ≡ s = cc in
      let now = table drive keeps s in
      let entries_are : entries ≡ now = parsed ∙ ap (λ w. parse_mft (block_at w 0)) at_s in
      let h2 : (if has_name new_name now
            then fail target_already_exists
            else rename_at drive new_name (position old_name now 0) now ctx (some t1))
          ≡ done d1 =
        rw entries_are at (rw is_t1 at h1) in
      elim (Bool-cases (has_name new_name now)) [
        | inl y ↦ absurd (refused target_already_exists (rw y at h2))
        | inr fresh ↦ elim (Option-cases (position old_name now 0)) [
          | inl e ↦ absurd (refused file_not_found (rw (fresh, e) at h2))
          | inr (pos, at_pos) ↦
              let (e, there, named) = position_lem old_name now pos at_pos in
              let renamed = set now pos (record e { name = new_name }) in
              let (s1, is_s1, granted, retabled) =
                gate-Retabled renamed e ctx s t1 d1 (rw (fresh, at_pos, there) at h2)
                  (λ k. same k ∙ ap (λ w. block_at w k) at_s) in
              let sound =
                rename-IsSound now pos e new_name ok there
                  (renamed-IsClean now pos e new_name ok.clean there c) fresh in
              let read_back : table drive keeps s1 ≡ renamed =
                ap parse_mft retabled.listed
                ∙ parse_mft-new_mft_buffer renamed sound.clean
                    (omega (arith, fits, length-rename now pos e new_name there)) in
              (
                pos,
                e,
                s1,
                is_s1,
                fresh,
                there,
                named,
                granted,
                read_back,
                subst IsSound (sym read_back) sound,
                retabled.kept,
              )
        ]
      ]
    where
      refused : (e : MfsError) → ◌≢◌ {A = Run MfsError (Option State)} (fail e) (done d1)
      refused e h = cc
