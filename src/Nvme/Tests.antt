-- ===== src/Nvme/Tests.antt =====
-- Runs of the driver of kernel/src/nvme.rs with a few completions.
use polymorph_os.Prelude.{ℕ, zero, suc, ◌+◌, ◌≡◌, refl, List, [], ◌∷◌, arith, done, panic}
use polymorph_os.Prelude.{inl, inr, replicate}
use polymorph_os.Nvme
use polymorph_os.Nvme.{NvmeController, NvmeCmd, Reply, ok, err, Doorbell, empty_cmd, submit_io_cmd}
use polymorph_os.Nvme.{submit_admin_cmd, write_block, read_block, reply_of, sq_offset, cq_offset}
use polymorph_os.Nvme.InStep.{InStep, Posts, PostsAll, submit_all, submit_all-InStep}
use polymorph_os.Nvme.Admin.{submit_admins, submit_admin_cmd_panics}

-- The driver after 63 commands: the next one wraps both rings and flips the phase.
abbrev at_wrap : NvmeController
at_wrap = record {
  cap_high = 0;
  admin_sq_tail = 64;
  admin_cq_head = 64;
  io_sq_tail = 63;
  io_cq_head = 63;
  io_phase = 1;
  io_buf_phys = 0x5000;
  admin_sq = replicate 64 empty_cmd;
  io_sq = replicate 64 empty_cmd;
  io_buf = [];
  doorbells = [];
}

at_wrap-InStep : InStep at_wrap 63
at_wrap-InStep = record { tail = refl; head = refl; phased = refl; ring = refl }

-- Two stale words of the pass before, then success with phase 1.
abbrev reads : List ℕ
reads = 0 ∷ 0 ∷ 1 ∷ []

posted : Posts 63 reads 1
posted = inr (omega arith, inr (omega arith, inl (refl, refl)))

-- The command after that completes with phase 0; its first read is stale.
posted_all : PostsAll 63 ((empty_cmd, reads) ∷ (empty_cmd, 1 ∷ 6 ∷ []) ∷ []) (1 ∷ 6 ∷ [])
posted_all = (posted, (inr (omega arith, inl (refl, refl)), tt))

doorbell_offsets : (sq_offset at_wrap 1 ≡ 0x1008) × (cq_offset at_wrap 1 ≡ 0x100C)
unfolding sq_offset cq_offset Nvme.stride
doorbell_offsets = (refl, refl)

submit_all-InStep_example :
    (c' : NvmeController) × (submit_all at_wrap ((empty_cmd, reads) ∷ (empty_cmd, 1 ∷ 6 ∷ []) ∷ [])
      ≡ done (reply_of 1 ∷ reply_of 6 ∷ [], c'))
    × InStep c' 65
submit_all-InStep_example =
    submit_all-InStep ((empty_cmd, reads) ∷ (empty_cmd, 1 ∷ 6 ∷ []) ∷ []) (1 ∷ 6 ∷ []) 63 at_wrap
      at_wrap-InStep posted_all

abbrev idle : NvmeController
idle = record at_wrap { admin_sq_tail = 0; admin_cq_head = 0 }

-- 64 commands that succeed, and the doorbells that they ring.
abbrev jobs : List (NvmeCmd × List ℕ)
jobs = replicate 64 (empty_cmd, 1 ∷ [])

ring_all : ℕ → ℕ → List Doorbell → List Doorbell
ring_all zero k rung = rung
ring_all (suc n) k rung =
    ring_all n (k + 1)
      (record { offset = 0x1004; value = k } ∷ record { offset = 0x1000; value = k } ∷ rung)

abbrev filled : NvmeController
filled = record idle { admin_sq_tail = 64; admin_cq_head = 64; doorbells = ring_all 64 1 [] }

ran_64 : submit_admins idle jobs ≡ done filled
unfolding submit_admin_cmd Nvme.await_admin Nvme.sq_doorbell Nvme.cq_doorbell ring_all sq_offset
    cq_offset Nvme.stride reply_of
ran_64 = refl

submit_admin_cmd_panics_example : submit_admin_cmd filled empty_cmd (1 ∷ []) ≡ panic
submit_admin_cmd_panics_example =
    submit_admin_cmd_panics idle filled jobs empty_cmd (1 ∷ []) refl refl refl ran_64
