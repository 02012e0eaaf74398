-- ===== src/Mfs/Table/Lookup.antt =====
-- `find_file` of kernel/src/mfs.rs against the table that `read_mft` reads.
use polymorph_os.Prelude.{ℕ, ◌≡◌, refl, sym, ap, true, List, [], ◌∷◌, Option, none, some, ◌∙◌}
use polymorph_os.Prelude.{arith, if◌then◌else◌, Bytes}
use polymorph_os.Mfs.Text.{split, starts_with}
use polymorph_os.Mfs.Table.{FileEntry, mfs_magic, numbered, entry_of, entries_of, parse_mft, pushed}
use polymorph_os.Mfs.Table.{same_name, target_entry, or_later, find_line, find_entry, clean_mft}

-- The first entry of a table whose name is taken for the target's.
unfoldable pub first_named : Bytes → List FileEntry → Option FileEntry
first_named target [] = none
first_named target (e ∷ entries) =
    if same_name target e.name then some e else first_named target entries

first_named-numbered :
    (target name : Bytes) (lba count : Option ℕ) (entries : List FileEntry)
    → first_named target (pushed (numbered name lba count) entries)
      ≡ or_later
          (if same_name target name then numbered name lba count else none)
          (first_named target entries)
unfolding first_named
first_named-numbered target name none count entries = ground arith
first_named-numbered target name (some lba) none entries = ground arith
first_named-numbered target name (some lba) (some count) entries = ground arith

first_named-entry_of :
    (target : Bytes) (parts : List Bytes) (entries : List FileEntry)
    → first_named target (pushed (entry_of parts) entries)
      ≡ or_later (target_entry target parts) (first_named target entries)
unfolding entry_of target_entry
first_named-entry_of target [] entries = refl
first_named-entry_of target (name ∷ []) entries = refl
first_named-entry_of target (name ∷ lba ∷ []) entries = refl
first_named-entry_of target (name ∷ lba ∷ count ∷ parts) entries =
    first_named-numbered target name _ _ entries

find_line_lem :
    (target : Bytes) (lines : List Bytes)
    → find_line target lines ≡ first_named target (entries_of lines)
unfolding find_line entries_of first_named
find_line_lem target [] = refl
find_line_lem target (line ∷ lines) =
    ap (or_later (target_entry target (split b':' line))) (find_line_lem target lines)
    ∙ sym (first_named-entry_of target (split b':' line) (entries_of lines))

-- On a block with the table's magic number, `find_file` finds the first entry, in the order of
-- `read_mft`, whose name is the target's but for the white space around it and the case of ASCII
-- letters, and nothing if there is none.
pub find_entry_lem :
    (target mft_buffer : Bytes)
    → starts_with (clean_mft mft_buffer) mfs_magic ≡ true
    → find_entry target mft_buffer ≡ first_named target (parse_mft mft_buffer)
unfolding find_entry parse_mft
find_entry_lem target mft_buffer h = rw h (find_line_lem target _)
