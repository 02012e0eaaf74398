-- ===== src/Mfs/Tests.antt =====
-- Runs of the guarded read of kernel/src/mfs.rs on a small disk.
use polymorph_os.Prelude.{
  ℕ, ◌+◌, ◌≡◌, ◌≢◌, refl, List, [], ◌∷◌, ◌++◌, some, arith, take, drop, length,
}
use polymorph_os.Prelude.{
  Run, done, fail, Bytes, Returns, replicate, ap, ◌==◌, if◌then◌else◌, Bool-cases, inl, inr, ◌∙◌,
}
use polymorph_os.Prelude.{length-take, length-append, length-replicate, from_le_bytes, bytes_eq}
use polymorph_os.MdoVm.{MdoContext, execute_mict_check}
use polymorph_os.MdoVm.Rounds.{IsContext}
use polymorph_os.Mfs.{Drive, mdo_magic, check_header}
use polymorph_os.Mfs.{verify_mdo_access, read_payload, read_data, read_blocks, read_entry}
use polymorph_os.Mfs.Gate.{code_len}
use polymorph_os.Mfs.Reads.{IsGranted, joined, Reads, read_entry-IsGranted}
use polymorph_os.Mfs.Answers.{Answering, read_entry-Returns}

abbrev whole_block : Bytes → Bytes
whole_block bytes = take 4096 (bytes ++ replicate 4096 0)

length-whole_block : (bytes : Bytes) → length (whole_block bytes) ≡ 4096
length-whole_block bytes = omega (
  arith,
  length-take 4096 (bytes ++ replicate 4096 0),
  length-append bytes (replicate 4096 0),
  length-replicate {A = ℕ} 4096 0,
)

-- A disk of one file, read at block 1; other blocks are bad.
abbrev read : Bytes → ℕ → Run ℕ (Bytes × Bytes)
read file lba = if lba == 1 then done (whole_block file, file) else fail 2

read-length :
    (file : Bytes) (lba : ℕ) (block file' : Bytes)
    → read file lba ≡ done (block, file')
    → length block ≡ 4096
read-length file lba block file' h = elim (Bool-cases (lba == 1)) [
  | inl y ↦ same (rw y at h)
  | inr n ↦ absurd (refused (rw n at h))
]
  where
    same :
        ◌≡◌ {A = Run ℕ (Bytes × Bytes)} (done (whole_block file, file)) (done (block, file'))
        → length block ≡ 4096
    same e = let f : block ≡ whole_block file = cc in ap length f ∙ length-whole_block file

    refused : ◌≢◌ {A = Run ℕ (Bytes × Bytes)} (fail 2) (done (block, file'))
    refused e = cc

abbrev disk : Drive
disk = record {
  State = Bytes;
  read_block = read;
  write_block = λ s lba bytes. fail 2;
  length-read_block = read-length;
}

disk-Answering : Answering disk
disk-Answering file lba = elim (Bool-cases (lba == 1)) [ inl y ↦ rw y tt | inr n ↦ rw n tt ]

-- A file whose policy is `HALT_OK`, with a payload of two bytes.
abbrev open_file : Bytes
open_file =
    mdo_magic ++ replicate 72 0 ++ (1 ∷ 0 ∷ 0 ∷ 0 ∷ []) ++ replicate 48 0 ++ (0x3F ∷ 65 ∷ 66 ∷ [])

abbrev someone : MdoContext
someone = record {
  requestor_id_hash = replicate 32 1;
  action_hash = replicate 32 2;
  owner_id_hash = replicate 32 3;
  status = 0;
}

opened : verify_mdo_access disk (some open_file) 1 someone ≡ done (129, some open_file)
unfolding verify_mdo_access check_header execute_mict_check bytes_eq from_le_bytes
opened = refl

someone-IsContext : IsContext someone
someone-IsContext = record { requestor = refl; action = refl; owner = refl }

abbrev handed_out : Bytes
handed_out = drop 129 (whole_block open_file)

read_out : read_entry disk (some open_file) 1 1 someone ≡ done (handed_out, some open_file)
unfolding read_entry read_payload read_data read_blocks verify_mdo_access check_header
    execute_mict_check bytes_eq from_le_bytes
read_out = refl

read_entry-IsGranted_example :
    (block buffer : Bytes) × (rest : List Bytes) × (s' s'' s3 : Bytes) × (read open_file 1
      ≡ done (block, s'))
    × IsGranted block someone
    × (read s' 1 ≡ done (buffer, s''))
    × (handed_out ≡ drop (128 + code_len block) buffer ++ joined rest)
    × Reads disk [] s'' rest s3
    × (some open_file ≡ some s3)
    × (length handed_out + 128 + code_len block ≡ 4096)
read_entry-IsGranted_example =
    read_entry-IsGranted disk open_file 1 1 someone handed_out (some open_file) read_out

read_entry-Returns_example : Returns (read_entry disk (some open_file) 1 3 someone)
read_entry-Returns_example =
    read_entry-Returns disk (some open_file) 1 3 someone disk-Answering someone-IsContext
      (omega arith)
