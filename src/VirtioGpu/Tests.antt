-- ===== src/VirtioGpu/Tests.antt =====
-- Runs of the driver of kernel/src/virtio_gpu.rs.
use polymorph_os.Prelude.{◌≡◌, refl, [], ◌∷◌, arith, some, get_elem?, inl, inr}
use polymorph_os.Prelude.{done}
use polymorph_os.Virtqueue
use polymorph_os.Virtqueue.{VirtQueue}
use polymorph_os.Virtqueue.FreeList.{IsFree, count_up, new-IsFree}
use polymorph_os.VirtioGpu.{
  VirtioGpuDriver, Reply, err, no_canvas, create_2d_canvas, flush_to_screen, ring_doorbell,
}
use polymorph_os.VirtioGpu.Messages
use polymorph_os.VirtioGpu.Messages.{CommandTy, Message, with_ty}
use polymorph_os.VirtioGpu.Commands.{IsReady, create_2d_canvas_lem}
use polymorph_os.VirtioGpu.Flush.{drafts, flush_to_screen_lem}

abbrev ready : VirtioGpuDriver
ready = record {
  mmio_base = 0xFE00_0000;
  resource_id_counter = 1;
  control_queue = some Virtqueue.new;
  notify_address = some 0xFE00_3000;
  mailbox_phys = some 0x50_0000;
  mailbox_virt = some 0x1_0050_0000;
  mailbox = [];
  notified = [];
}

ready-IsReady : IsReady ready Virtqueue.new 0x50_0000
ready-IsReady = record { virt = 0x1_0050_0000; at_virt = refl; at_phys = refl; queue = refl }

-- A device that answers at the second read of the used index.
abbrev reply : CommandTy → Reply
reply ty = record { reads = 0 ∷ 1 ∷ []; settled = 1; ty = ty; width = 1280; height = 800 }

-- The device refuses: two of the descriptors are gone.
create_2d_canvas_lem_example :
    (vq' : VirtQueue) × (d' : VirtioGpuDriver) × (create_2d_canvas ready 1 1280 800
        (reply CommandTy.undefined)
      ≡ done (err no_canvas, d'))
    × (d'.control_queue ≡ some vq')
    × (d'.mailbox
        ≡ (
          0,
          Message.create (record {
            header = with_ty CommandTy.resource_create_2d;
            resource_id = 1;
            format = Messages.bgrx;
            width = 1280;
            height = 800;
          }),
        )
          ∷ [])
    × IsFree vq' (count_up 2 62)
unfolding Virtqueue.new
create_2d_canvas_lem_example =
    create_2d_canvas_lem ready Virtqueue.new 0x50_0000 0 1 (count_up 2 62) 1 1280 800
      (reply CommandTy.undefined) ready-IsReady new-IsFree (inr (inl (omega arith)))

flush_to_screen_lem_example :
    (vq' : VirtQueue) × (d' : VirtioGpuDriver) × (flush_to_screen ready 1 1280 800 ≡ done d')
    × (d'.control_queue ≡ some vq')
    × (d'.mailbox ≡ drafts 1 1280 800 [])
    × (d'.notified ≡ ring_doorbell ready)
    × (get_elem? vq'.avail_ring 0 ≡ some 0)
    × (get_elem? vq'.avail_ring 1 ≡ some 2)
    × (vq'.avail_idx ≡ 2)
    × IsFree vq' (2 ∷ 3 ∷ 0 ∷ 1 ∷ count_up 4 60)
unfolding Virtqueue.new
flush_to_screen_lem_example =
    flush_to_screen_lem ready Virtqueue.new 0x50_0000 0 1 2 3 (count_up 4 60) 1 1280 800
      ready-IsReady new-IsFree
