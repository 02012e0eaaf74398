-- ===== src/Nvme.antt =====
-- kernel/src/nvme.rs: the NVMe driver's queues and block commands.
-- `NvmeController` holds the driver's trackers, the two submission rings and the DMA buffer of the
-- source's statics, and the doorbell writes made so far, newest first. The device is the environment:
-- a completion loop is given the status words that its successive volatile reads of the completion
-- ring see, and is `spin` where it would still be waiting; a block read is given the bytes that the
-- device puts into the DMA buffer. Register set-up (`ping`, `disable`, `configure_and_enable`,
-- `identify_controller`, `setup_io_queues`) is not modelled.
mod Tests
pub mod InStep
pub mod Admin
pub mod Blocks
use polymorph_os.Prelude.{
  ℕ, zero, suc, ◌+◌, ◌-◌, ◌*◌, ◌/◌, ◌%◌, ◌^◌, bit_and, Bool, true, false, not,
}
use polymorph_os.Prelude.{
  List, [], ◌∷◌, ◌++◌, ◌==◌, ltb, if◌then◌else◌, Run, done, panic, spin, ◌>>=◌,
}
use polymorph_os.Prelude.{read_at, write_at, replicate, length, Bytes, drop}

abbrev pub admin_queue_size : ℕ
admin_queue_size = 64

abbrev pub io_queue_size : ℕ
io_queue_size = 64

pub record NvmeCmd : Type 0 where
  pub opcode : ℕ
  pub flags : ℕ
  pub cid : ℕ
  pub nsid : ℕ
  pub rsvd : ℕ
  pub mptr : ℕ
  pub dptr0 : ℕ
  pub dptr1 : ℕ
  pub cdw10 : ℕ
  pub cdw11 : ℕ
  pub cdw12 : ℕ
  pub cdw13 : ℕ
  pub cdw14 : ℕ
  pub cdw15 : ℕ

abbrev pub empty_cmd : NvmeCmd
empty_cmd = record {
  opcode = 0;
  flags = 0;
  cid = 0;
  nsid = 0;
  rsvd = 0;
  mptr = 0;
  dptr0 = 0;
  dptr1 = 0;
  cdw10 = 0;
  cdw11 = 0;
  cdw12 = 0;
  cdw13 = 0;
  cdw14 = 0;
  cdw15 = 0;
}

-- A write of a value to a doorbell register, by the register's offset.
pub record Doorbell : Type 0 where
  pub offset : ℕ
  pub value : ℕ

pub record NvmeController : Type 0 where
  pub cap_high : ℕ
  pub admin_sq_tail : ℕ
  pub admin_cq_head : ℕ
  pub io_sq_tail : ℕ
  pub io_cq_head : ℕ
  pub io_phase : ℕ
  pub io_buf_phys : ℕ
  pub admin_sq : List NvmeCmd
  pub io_sq : List NvmeCmd
  pub io_buf : Bytes
  pub doorbells : List Doorbell

pub new : ℕ → NvmeController
new cap_high = record {
  cap_high = cap_high;
  admin_sq_tail = 0;
  admin_cq_head = 0;
  io_sq_tail = 0;
  io_cq_head = 0;
  io_phase = 1;
  io_buf_phys = 0;
  admin_sq = replicate admin_queue_size empty_cmd;
  io_sq = replicate io_queue_size empty_cmd;
  io_buf = replicate 4096 0;
  doorbells = [];
}

-- `4 << dstrd`, the distance between two doorbells.
pub stride : NvmeController → ℕ
stride c = 4 * 2 ^ bit_and c.cap_high 0b1111

pub sq_offset : NvmeController → ℕ → ℕ
sq_offset c qid = 0x1000 + 2 * qid * stride c

pub cq_offset : NvmeController → ℕ → ℕ
cq_offset c qid = 0x1000 + (2 * qid + 1) * stride c

pub sq_doorbell : NvmeController → ℕ → ℕ → NvmeController
sq_doorbell c qid value = record c {
  doorbells = record { offset = sq_offset c qid; value = value } ∷ c.doorbells;
}

pub cq_doorbell : NvmeController → ℕ → ℕ → NvmeController
cq_doorbell c qid value = record c {
  doorbells = record { offset = cq_offset c qid; value = value } ∷ c.doorbells;
}

-- `Result<(), u16>` of a command.
pub data Reply : Type 0 where
  ok : Reply
  err : ℕ → Reply

abbrev pub Call : Type 0 → Type 0
Call A = Run ⊥ (A × NvmeController)

-- `(status >> 1) == 0` is success.
pub reply_of : ℕ → Reply
reply_of status = if status / 2 == 0 then ok else err status

-- The completion loop of `submit_admin_cmd`: the admin queue has no phase and does not wrap.
pub await_admin : NvmeController → List ℕ → Call Reply
await_admin c [] = spin
await_admin c (status ∷ later) =
    if ltb c.admin_cq_head admin_queue_size
    then (if bit_and status 1 == 1
        then (let head = c.admin_cq_head + 1 in
            done (reply_of status, cq_doorbell (record c { admin_cq_head = head }) 0 head))
        else await_admin c later)
    else panic

pub submit_admin_cmd : NvmeController → NvmeCmd → List ℕ → Call Reply
submit_admin_cmd c cmd reads = write_at c.admin_sq c.admin_sq_tail cmd >>= λ sq.
    let tail = c.admin_sq_tail + 1 in
    await_admin (sq_doorbell (record c { admin_sq = sq; admin_sq_tail = tail }) 0 tail) reads

-- `head += 1` with the wrap of the ring and the flip `!io_phase & 1` of the u16 phase.
pub advance_cq : NvmeController → NvmeController
advance_cq c =
    if c.io_cq_head + 1 == io_queue_size
    then record c { io_cq_head = 0; io_phase = bit_and (65535 - c.io_phase) 1 }
    else record c { io_cq_head = c.io_cq_head + 1 }

pub await_io : NvmeController → List ℕ → Call Reply
await_io c [] = spin
await_io c (status ∷ later) =
    if ltb c.io_cq_head io_queue_size
    then (if bit_and status 1 == c.io_phase
        then (let c' = advance_cq c in done (reply_of status, cq_doorbell c' 1 c'.io_cq_head))
        else await_io c later)
    else panic

pub submit_io_cmd : NvmeController → NvmeCmd → List ℕ → Call Reply
submit_io_cmd c cmd reads = write_at c.io_sq c.io_sq_tail cmd >>= λ sq.
    let tail = if c.io_sq_tail + 1 == io_queue_size then 0 else c.io_sq_tail + 1 in
    await_io (sq_doorbell (record c { io_sq = sq; io_sq_tail = tail }) 1 tail) reads

-- `lba & 0xFFFFFFFF` and `lba >> 32`.
pub block_cmd : NvmeController → ℕ → ℕ → NvmeCmd
block_cmd c opcode lba = record empty_cmd {
  opcode = opcode;
  nsid = 1;
  dptr0 = c.io_buf_phys;
  cdw10 = lba % 2 ^ 32;
  cdw11 = lba / 2 ^ 32;
  cdw12 = 0;
}

-- The data, padded with zeros to a block, is what the device finds in the DMA buffer.
pub write_block : NvmeController → ℕ → Bytes → List ℕ → Call Reply
write_block c lba bytes reads =
    if ltb 4096 (length bytes)
    then done (err 0xFFFF, c)
    else submit_io_cmd (record c { io_buf = bytes ++ replicate (4096 - length bytes) 0 })
        (block_cmd c 1 lba) reads

-- On success the buffer that the device filled is copied out; on an error the caller's buffer is left.
pub read_block : NvmeController → ℕ → Bytes → Bytes → List ℕ → Call (Reply × Bytes)
read_block c lba dest dma reads =
    submit_io_cmd (record c { io_buf = replicate 4096 0 }) (block_cmd c 2 lba) reads >>= λ (r, c').
    elim r [ ok ↦ done ((ok, dma), record c' { io_buf = dma }) | err e ↦ done ((err e, dest), c') ]
