-- ===== src/Nvme/Blocks.antt =====
-- Block reads and writes of kernel/src/nvme.rs.
use polymorph_os.Nvme.{submit_io_cmd}
use polymorph_os.Prelude.{bind-done, Run}
use polymorph_os.Prelude.{ℕ, suc, ◌+◌, ◌-◌, ◌*◌, ◌/◌, ◌%◌, ◌^◌, ◌≤◌, ◌<◌, false, List}
use polymorph_os.Prelude.{◌++◌, ◌==◌, ltb, done, ◌≡◌, length}
use polymorph_os.Prelude.{get_elem?, some, arith, refl, ◌∙◌, ap, Bytes, replicate, length-append}
use polymorph_os.Prelude.{length-replicate, lt→ltb, Bool-cases, inl, inr}
use polymorph_os.Nvme.{NvmeController, NvmeCmd, Reply, ok, err, write_block, read_block}
use polymorph_os.Nvme.{block_cmd, reply_of}
use polymorph_os.Nvme.InStep.{InStep, Posts, submit_io_cmd-InStep}

-- A command that names a block: the opcode, the namespace, the DMA buffer, and the block's address in
-- two double words.
pub record Names (c : NvmeController) (cmd : NvmeCmd) (opcode lba : ℕ) : Type 0 where
  pub does : cmd.opcode ≡ opcode
  pub namespace : cmd.nsid ≡ 1
  pub buffer : cmd.dptr0 ≡ c.io_buf_phys
  pub low : cmd.cdw10 < 2 ^ 32
  pub high : cmd.cdw11 < 2 ^ 32
  pub address : cmd.cdw10 + 2 ^ 32 * cmd.cdw11 ≡ lba

block_cmd-Names :
    (c : NvmeController) (opcode lba : ℕ)
    → lba < 2 ^ 64
    → Names c (block_cmd c opcode lba) opcode lba
unfolding block_cmd
block_cmd-Names c opcode lba h = omega arith

-- With the driver in step and the completion posted, `write_block` of at most 4096 bytes at a 64-bit
-- address returns the reply for the status posted; the command in the submission ring names the block
-- for writing, and the DMA buffer is a whole block that starts with the bytes and is zero behind them.
pub write_block_lem :
    (c : NvmeController) (lba : ℕ) (bytes : Bytes) (n status : ℕ) (reads : List ℕ)
    → InStep c n
    → Posts n reads status
    → lba < 2 ^ 64
    → length bytes ≤ 4096
    → (c' : NvmeController) × (cmd : NvmeCmd) × (write_block c lba bytes reads
        ≡ done (reply_of status, c'))
      × InStep c' (suc n)
      × (get_elem? c'.io_sq (n % 64) ≡ some cmd)
      × Names c cmd 1 lba
      × (c'.io_buf ≡ bytes ++ replicate (4096 - length bytes) 0)
      × (length c'.io_buf ≡ 4096)
unfolding write_block
write_block_lem c lba bytes n status reads s posts h len =
    let buf = bytes ++ replicate (4096 - length bytes) 0 in
    let c0 : NvmeController = record c { io_buf = buf } in
    let s0 : InStep c0 n = record {
      tail = s.tail;
      head = s.head;
      phased = s.phased;
      ring = s.ring;
    } in
    let (c', run, s', slot, _, kept) =
      submit_io_cmd-InStep c0 (block_cmd c 1 lba) n status reads s0 posts in
    let fits : ltb 4096 (length bytes) ≡ false = ground arith in
    let whole : length buf ≡ 4096 = omega (
      arith,
      length-append bytes (replicate (4096 - length bytes) 0),
      length-replicate {A = ℕ} (4096 - length bytes) 0,
    ) in
    (
      c',
      block_cmd c 1 lba,
      rw fits run,
      s',
      slot,
      block_cmd-Names c 1 lba h,
      kept,
      ap length kept ∙ whole,
    )

-- A write of more than a block is refused with 0xFFFF, and no command is submitted.
pub write_block_too_long :
    (c : NvmeController) (lba : ℕ) (bytes : Bytes) (reads : List ℕ)
    → 4096 < length bytes
    → write_block c lba bytes reads ≡ done (err 0xFFFF, c)
unfolding write_block
write_block_too_long c lba bytes reads h = rw (lt→ltb _ _ h)

-- With the driver in step and the completion posted, `read_block` at a 64-bit address submits a command
-- that names the block for reading. For the status words 0 and 1 (success with either phase) the caller
-- gets the bytes that the device put into the DMA buffer; for any other, the status as an error, and
-- its own buffer is left.
pub read_block_lem :
    (c : NvmeController) (lba : ℕ) (dest dma : Bytes) (n status : ℕ) (reads : List ℕ)
    → InStep c n
    → Posts n reads status
    → lba < 2 ^ 64
    → (c' : NvmeController) × (cmd : NvmeCmd) × (out : Reply × Bytes) × (read_block c lba dest dma
          reads
        ≡ done (out, c'))
      × InStep c' (suc n)
      × (get_elem? c'.io_sq (n % 64) ≡ some cmd)
      × Names c cmd 2 lba
      × (status < 2 → out ≡ (ok, dma))
      × (2 ≤ status → out ≡ (err status, dest))
unfolding read_block reply_of
read_block_lem c lba dest dma n status reads s posts h =
    let c0 : NvmeController = record c { io_buf = replicate 4096 0 } in
    let s0 : InStep c0 n = record {
      tail = s.tail;
      head = s.head;
      phased = s.phased;
      ring = s.ring;
    } in
    let (c', run, s', slot, _, kept) =
      submit_io_cmd-InStep c0 (block_cmd c 2 lba) n status reads s0 posts in
    let names = block_cmd-Names c 2 lba h in
    elim (Bool-cases (status / 2 == 0)) [
      | inl good ↦ (
        record c' { io_buf = dma },
        block_cmd c 2 lba,
        (ok, dma),
        rw (run, good),
        record { tail = s'.tail; head = s'.head; phased = s'.phased; ring = s'.ring },
        slot,
        names,
        λ lt. refl,
        λ ge. ground arith,
      )
      | inr bad ↦ (
        c',
        block_cmd c 2 lba,
        (err status, dest),
        rw (run, bad),
        s',
        slot,
        names,
        λ lt. ground arith,
        λ ge. refl,
      )
    ]

-- A successful block read gives the bytes of the DMA buffer.
pub read_block-ok :
    (c : NvmeController) (lba : ℕ) (dest dma : Bytes) (reads : List ℕ) (bytes : Bytes)
    (c' : NvmeController)
    → read_block c lba dest dma reads ≡ done ((ok, bytes), c')
    → bytes ≡ dma
unfolding read_block
read_block-ok c lba dest dma reads bytes c' h =
    let ((r, c1), submitted, h1) =
      bind-done (submit_io_cmd (record c { io_buf = replicate 4096 0 }) (block_cmd c 2 lba) reads) _
        ((ok, bytes), c') h in
    copied r c1 h1
  where
    copied :
        (r : Reply) (c1 : NvmeController)
        → ◌≡◌ {A = Run ⊥ ((Reply × Bytes) × NvmeController)}
            (elim r as (λ _. Run ⊥ ((Reply × Bytes) × NvmeController)) [
              | ok ↦ done ((ok, dma), record c1 { io_buf = dma })
              | err e ↦ done ((err e, dest), c1)
            ])
            (done ((ok, bytes), c'))
        → bytes ≡ dma
    copied ok c1 e = cc
    copied (err n) c1 e = absurd cc
