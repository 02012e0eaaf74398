-- ===== src/VirtioNet/Tests.antt =====
-- Runs of the driver of kernel/src/virtio_net.rs.
use polymorph_os.Prelude.{ℕ, ◌+◌, ◌*◌, ◌≡◌, refl, [], ◌∷◌, arith, some, none}
use polymorph_os.Prelude.{done, set, replicate}
use polymorph_os.Net.{Ip4}
use polymorph_os.Net.Packets.{broadcast}
use polymorph_os.Virtqueue
use polymorph_os.Virtqueue.{VirtQueue, VirtqDesc, VirtqUsedElem, empty_desc}
use polymorph_os.VirtioNet.{VirtioNetDriver, poll_receive}
use polymorph_os.VirtioNet.Receive.{poll_frames, poll_frames_lem}

abbrev gateway : Ip4
gateway = record { p0 = 10; p1 = 0; p2 = 2; p3 = 2 }

abbrev own_ip : Ip4
own_ip = record { p0 = 10; p1 = 0; p2 = 2; p3 = 15 }

abbrev ready : VirtioNetDriver
ready = record {
  mmio_base = 0xFEBF_0000;
  mac_address = broadcast;
  rx_queue = none;
  rx_notify_addr = none;
  tx_queue = some Virtqueue.new;
  tx_notify_addr = some 0xFEBF_3004;
  rx_last_used = 0;
  tx_buffer = [];
  notified = [];
}

abbrev bucket : ℕ → VirtqDesc
bucket k = record empty_desc { addr = 0x10_0000 + 2048 * k; len = 2048; flags = 2 }

abbrev nothing_used : VirtqUsedElem
nothing_used = record { id = 0; len = 0 }

-- The device has used bucket 1 and then bucket 0, round the end of the ring and of the u16 index.
abbrev rx : VirtQueue
rx = record {
  descriptors = bucket 0 ∷ bucket 1 ∷ [];
  avail_idx = 2;
  avail_ring = replicate 64 0;
  used_idx = 1;
  used_ring =
      set (set (replicate 64 nothing_used) 63 (record { id = 1; len = 74 })) 0
        (record { id = 0; len = 5 });
  free_head = 0;
  num_free = 0;
  last_used_idx = 0;
}

abbrev listening : VirtioNetDriver
listening = record ready { rx_queue = some rx; rx_last_used = 65535 }

poll_frames_lem_example :
    (d' : VirtioNetDriver) × (poll_frames 2 listening
      ≡ done (
        record { address = 0xFFFF_8000_0010_080C; len = 62 }
            ∷ record { address = 0xFFFF_8000_0010_000C; len = 0 }
            ∷ [],
        d',
      ))
    × (d'.rx_last_used ≡ 1)
    × (poll_receive d' ≡ done (none, d'))
poll_frames_lem_example =
    poll_frames_lem listening rx
      ((record { id = 1; len = 74 }, bucket 1) ∷ (record { id = 0; len = 5 }, bucket 0) ∷ []) refl
      refl (omega arith) (omega arith) refl
      (record { at_used = refl; at_desc = refl }, (record { at_used = refl; at_desc = refl }, tt))
