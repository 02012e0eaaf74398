-- ===== src/VirtioGpu.antt =====
-- kernel/src/virtio_gpu.rs: the display driver over a VirtIO control queue. `VirtioGpuDriver` holds the
-- driver's fields, the queue that its pointer reaches, the structs written to the mailbox, by their
-- offset, and the doorbell writes, both newest first. The device is the environment: a wait is given a
-- `Reply`, the used indices that its reads see and what the device has put into the reply envelope.
-- The structs and their sizes are in VirtioGpu/Messages; a failed `expect` or `unwrap` is `panic`.
pub mod Messages
pub mod Commands
pub mod Flush
mod Tests
use polymorph_os.Prelude.{
  ℕ, zero, suc, ◌+◌, ◌-◌, ◌*◌, ◌%◌, ◌^◌, Bool, true, false, List, [], ◌∷◌, ◌==◌, ltb,
}
use polymorph_os.Prelude.{
  if◌then◌else◌, Option, none, some, Run, done, panic, ◌>>=◌, or_panic, read_at,
}
use polymorph_os.Memory.{FrameAllocator, DmaBlock, allocate_dma_frames}
use polymorph_os.Virtqueue
use polymorph_os.Virtqueue.{
  VirtqDesc, VirtQueue, update_desc, write_avail, await_used, load_pair, reclaim_pair,
}
use polymorph_os.Virtqueue.{virtq_desc_f_next, virtq_desc_f_write}
use polymorph_os.VirtioGpu.Messages
use polymorph_os.VirtioGpu.Messages.{
  CommandTy, ControlHeader, with_ty, Message, is_ok_nodata, is_ok_display_info,
}
use polymorph_os.VirtioGpu.Messages.{
  size_of_header, size_of_display_info, size_of_create, size_of_attach,
}
use polymorph_os.VirtioGpu.Messages.{
  size_of_entry, size_of_scanout, size_of_transfer, size_of_flush,
}

pub data GpuError : Type 0 where
  queue_full : GpuError
  no_display_info : GpuError
  no_canvas : GpuError
  no_backing : GpuError
  no_scanout : GpuError
  no_mailbox_memory : GpuError
  no_queue_memory : GpuError

-- `Result<A, &'static str>`
pub data Answer (A : Type 0) : Type 0 where
  ok : A → Answer A
  err : GpuError → Answer A

pub record Notification : Type 0 where
  pub address : ℕ
  pub queue : ℕ

pub record VirtioGpuDriver : Type 0 where
  pub mmio_base : ℕ
  pub resource_id_counter : ℕ
  pub control_queue : Option VirtQueue
  pub notify_address : Option ℕ
  pub mailbox_phys : Option ℕ
  pub mailbox_virt : Option ℕ
  pub mailbox : List (ℕ × Message)
  pub notified : List Notification

pub record Reply : Type 0 where
  pub reads : List ℕ
  pub settled : ℕ
  pub ty : CommandTy
  pub width : ℕ
  pub height : ℕ

pub new : ℕ → VirtioGpuDriver
new mmio_base = record {
  mmio_base = mmio_base;
  resource_id_counter = 1;
  control_queue = none;
  notify_address = none;
  mailbox_phys = none;
  mailbox_virt = none;
  mailbox = [];
  notified = [];
}

pub set_notify_address : VirtioGpuDriver → ℕ → VirtioGpuDriver
set_notify_address d addr = record d { notify_address = some addr }

-- The id, and the driver with the u32 counter advanced.
pub next_resource_id : VirtioGpuDriver → ℕ × VirtioGpuDriver
next_resource_id d =
    (d.resource_id_counter, record d { resource_id_counter = (d.resource_id_counter + 1) % 2 ^ 32 })

-- Writing queue 0 to the notify register, if there is one.
abbrev pub ring_doorbell : VirtioGpuDriver → List Notification
ring_doorbell d = elim d.notify_address [
  | none ↦ d.notified
  | some addr ↦ record { address = addr; queue = 0 } ∷ d.notified
]

module _ (allocator : FrameAllocator) where
  open allocator use {State}

  -- The rings lie in the queue's struct at offsets 0, 1024 and 1160.
  pub setup_control_queue :
      VirtioGpuDriver → State → ℕ → Answer (ℕ × ℕ × ℕ) × VirtioGpuDriver × State
  setup_control_queue d s phys_mem_offset =
      let (queue, s) = allocate_dma_frames allocator s phys_mem_offset 3 in
      elim queue [
        | none ↦ (err no_queue_memory, d, s)
        | some block ↦
            let d = record d { control_queue = some Virtqueue.new } in
            let (mailbox, s) = allocate_dma_frames allocator s phys_mem_offset 1 in
            elim mailbox [
              | none ↦ (err no_mailbox_memory, d, s)
              | some m ↦ (
                ok (block.phys, block.phys + 1024, block.phys + 1160),
                record d { mailbox_phys = some m.phys; mailbox_virt = some m.virt },
                s,
              )
            ]
      ]

-- The command is published, and nobody waits; its bytes are not copied anywhere.
pub send_command : VirtioGpuDriver → ℕ → Run ⊥ (Answer (Unit {0}) × VirtioGpuDriver)
send_command d command_len = or_panic d.control_queue >>= λ vq.
    (if vq.num_free == 0
      then done (err queue_full, d)
      else (let head_idx = vq.free_head in
          read_at vq.descriptors head_idx >>= λ desc.
          let vq = record vq { free_head = desc.next; num_free = vq.num_free - 1 } in
          update_desc vq head_idx
            (λ d. record d { addr = 0x2000000; len = command_len % 2 ^ 32; flags = 0 })
          >>= λ vq. write_avail vq vq.avail_idx head_idx >>= λ vq.
              let vq = record vq { avail_idx = (vq.avail_idx + 1) % 2 ^ 16 } in
              done (ok tt, record d { control_queue = some vq; notified = ring_doorbell d })))

-- Drafting messages, sending them with a reply envelope, and waiting for the reply: the descriptors and
-- the driver after the wait.
pub exchange :
    VirtioGpuDriver
    → List (ℕ × Message)
    → ℕ
    → ℕ
    → Reply
    → Run ⊥ (ℕ × ℕ × VirtQueue × VirtioGpuDriver)
exchange d messages cmd_len resp_len reply = or_panic d.mailbox_virt >>= λ mailbox_virt.
    or_panic d.mailbox_phys >>= λ mailbox_phys. or_panic d.control_queue >>= λ vq.
    load_pair vq mailbox_phys cmd_len resp_len >>= λ (head_idx, next_idx, vq).
    await_used vq.last_used_idx reply.reads >>= λ u.
    let vq = record vq { last_used_idx = reply.settled } in
    done (
      head_idx,
      next_idx,
      vq,
      record d { control_queue = some vq; mailbox = messages; notified = ring_doorbell d },
    )

pub get_display_info : VirtioGpuDriver → Reply → Run ⊥ (Answer (ℕ × ℕ) × VirtioGpuDriver)
unfolding exchange
get_display_info d reply =
    exchange d ((0, Message.header (with_ty CommandTy.get_display_info)) ∷ d.mailbox) size_of_header
      size_of_display_info reply
    >>= λ (head_idx, next_idx, vq, d).
        let result : Answer (ℕ × ℕ) =
          if is_ok_display_info reply.ty
          then ok (reply.width, reply.height)
          else err no_display_info in
        reclaim_pair vq head_idx next_idx >>= λ vq.
        done (result, record d { control_queue = some vq })

-- The end of the three commands below: on success the pair is reclaimed.
abbrev pub finish :
    GpuError
    → Reply
    → ℕ × ℕ × VirtQueue × VirtioGpuDriver
    → Run ⊥ (Answer (Unit {0}) × VirtioGpuDriver)
finish failed reply (head_idx, next_idx, vq, d) =
    if is_ok_nodata reply.ty
    then (reclaim_pair vq head_idx next_idx >>= λ vq.
        done (ok tt, record d { control_queue = some vq }))
    else done (err failed, d)

pub create_2d_canvas :
    VirtioGpuDriver → ℕ → ℕ → ℕ → Reply → Run ⊥ (Answer (Unit {0}) × VirtioGpuDriver)
unfolding exchange
create_2d_canvas d resource_id width height reply =
    exchange d
      ((
        0,
        Message.create (record {
          header = with_ty CommandTy.resource_create_2d;
          resource_id = resource_id;
          format = Messages.bgrx;
          width = width;
          height = height;
        }),
      )
        ∷ d.mailbox)
      size_of_create size_of_header reply
    >>= finish no_canvas reply

pub attach_backing :
    VirtioGpuDriver → ℕ → ℕ → ℕ → Reply → Run ⊥ (Answer (Unit {0}) × VirtioGpuDriver)
unfolding exchange
attach_backing d resource_id back_buffer_phys buffer_length reply =
    exchange d
      ((
        size_of_attach,
        Message.entry (record { address = back_buffer_phys; length = buffer_length; padding = 0 }),
      )
        ∷ (
          0,
          Message.attach (record {
            header = with_ty CommandTy.resource_attach_backing;
            resource_id = resource_id;
            num_entries = 1;
          }),
        )
        ∷ d.mailbox)
      (size_of_attach + size_of_entry) size_of_header reply
    >>= finish no_backing reply

pub set_scanout :
    VirtioGpuDriver → ℕ → ℕ → ℕ → ℕ → Reply → Run ⊥ (Answer (Unit {0}) × VirtioGpuDriver)
unfolding exchange
set_scanout d scanout_id resource_id width height reply =
    exchange d
      ((
        0,
        Message.scanout (record {
          header = with_ty CommandTy.set_scanout;
          rect = record { x = 0; y = 0; width = width; height = height };
          scanout_id = scanout_id;
          resource_id = resource_id;
        }),
      )
        ∷ d.mailbox)
      size_of_scanout size_of_header reply
    >>= finish no_scanout reply

-- Both commands are published at once, nobody waits, and the four descriptors are reclaimed at once.
pub flush_to_screen : VirtioGpuDriver → ℕ → ℕ → ℕ → Run ⊥ VirtioGpuDriver
flush_to_screen d resource_id width height = or_panic d.mailbox_virt >>= λ mailbox_virt.
    or_panic d.mailbox_phys >>= λ mailbox_phys. or_panic d.control_queue >>= λ vq.
    (if ltb vq.num_free 4
      then done d
      else (let mailbox =
            (
              size_of_transfer,
              Message.flush (record {
                header = with_ty CommandTy.resource_flush;
                rect = record { x = 0; y = 0; width = width; height = height };
                resource_id = resource_id;
                padding = 0;
              }),
            )
            ∷ (
              0,
              Message.transfer (record {
                header = with_ty CommandTy.transfer_to_host_2d;
                rect = record { x = 0; y = 0; width = width; height = height };
                offset = 0;
                resource_id = resource_id;
                padding = 0;
              }),
            )
            ∷ d.mailbox in
          let head_idx = vq.free_head in
          read_at vq.descriptors head_idx >>= λ d1.
          let idx2 = d1.next in
          read_at vq.descriptors idx2 >>= λ d2.
          let idx3 = d2.next in
          read_at vq.descriptors idx3 >>= λ d3.
          let tail_idx = d3.next in
          read_at vq.descriptors tail_idx >>= λ d4.
          let vq = record vq { free_head = d4.next; num_free = vq.num_free - 4 } in
          update_desc vq head_idx (λ d. record d {
            addr = mailbox_phys;
            len = size_of_transfer;
            flags = virtq_desc_f_next;
          })
          >>= λ vq.
              update_desc vq idx2 (λ d. record d {
                addr = mailbox_phys + 512;
                len = size_of_header;
                flags = virtq_desc_f_write;
              })
              >>= λ vq.
                  update_desc vq idx3 (λ d. record d {
                    addr = mailbox_phys + size_of_transfer;
                    len = size_of_flush;
                    flags = virtq_desc_f_next;
                  })
                  >>= λ vq.
                      update_desc vq tail_idx (λ d. record d {
                        addr = mailbox_phys + 528;
                        len = size_of_header;
                        flags = virtq_desc_f_write;
                      })
                      >>= λ vq. write_avail vq vq.avail_idx head_idx >>= λ vq.
                          write_avail vq (vq.avail_idx + 1) idx3 >>= λ vq.
                          let vq = record vq { avail_idx = (vq.avail_idx + 2) % 2 ^ 16 } in
                          update_desc vq idx2 (λ d. record d { next = vq.free_head }) >>= λ vq.
                          let vq = record vq { free_head = head_idx } in
                          update_desc vq tail_idx (λ d. record d { next = vq.free_head }) >>= λ vq.
                          let vq = record vq { free_head = idx3; num_free = vq.num_free + 4 } in
                          done (record d {
                            control_queue = some vq;
                            mailbox = mailbox;
                            notified = ring_doorbell d;
                          })))
