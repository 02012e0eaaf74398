-- ===== src/E1000/Tests.antt =====
-- Runs of the driver of kernel/src/e1000.rs.
use polymorph_os.Prelude.{ℕ, zero, suc, ◌+◌, ◌*◌, ◌≡◌, refl, [], ◌∷◌, arith, some}
use polymorph_os.Prelude.{replicate, done, set}
use polymorph_os.Net.{Mac, Ip4}
use polymorph_os.Memory.{FrameAllocator, allocate_dma_frames}
use polymorph_os.E1000.{E1000Driver, ReceiveDescriptor, RawParts, empty_rx, empty_tx}
use polymorph_os.E1000.Rings.{IsValid}
use polymorph_os.E1000.Receive.{Waiting, Emptied, polls, polls_lem}
use polymorph_os.E1000.Init.{Supplies}

-- An allocator that hands out all frames in order.
abbrev counting : FrameAllocator
counting = record { State = ℕ; allocate_frame = λ n. (some (4096 * n), n + 1) }

counting-Supplies : (n s : ℕ) → Supplies counting 0 n s
unfolding allocate_dma_frames
counting-Supplies zero s = tt
counting-Supplies (suc n) s = (
  record { phys = 4096 * s; virt = 0 + 4096 * s; zeroed = 4096 },
  s + 1,
  refl,
  counting-Supplies n (s + 1),
)

abbrev card : ℕ → ℕ
card register = register + 0x1234_0000

abbrev own_mac : Mac
own_mac = record { m0 = 0x52; m1 = 0x54; m2 = 0; m3 = 0x12; m4 = 0x34; m5 = 0x56 }

abbrev gateway : Ip4
gateway = record { p0 = 10; p1 = 0; p2 = 2; p3 = 2 }

abbrev own_ip : Ip4
own_ip = record { p0 = 10; p1 = 0; p2 = 2; p3 = 15 }

abbrev arrived : ReceiveDescriptor
arrived = record empty_rx { length = 2; status = 3 }

-- Two packets wait, round the end of the ring, and the last transmit descriptor is next.
abbrev busy : E1000Driver
busy = record {
  mac_address = own_mac;
  tx_ring = replicate 32 empty_tx;
  tx_buffer = replicate 4096 0;
  tx_buffer_phys = 0x9000;
  tx_index = 31;
  rx_ring = set (set (replicate 32 empty_rx) 31 arrived) 0 arrived;
  rx_buffers = set (set (replicate 32 []) 31 (1 ∷ 2 ∷ 3 ∷ [])) 0 (4 ∷ 5 ∷ 6 ∷ []);
  rx_index = 31;
  writes = [];
}

busy-IsValid : IsValid busy
busy-IsValid = record {
  tx_size = refl;
  rx_size = refl;
  buffers = refl;
  tx_inside = omega arith;
  rx_inside = omega arith;
}

abbrev first : RawParts
first = record { buffer = 1 ∷ 2 ∷ 3 ∷ []; packet_len = 2 }

abbrev second : RawParts
second = record { buffer = 4 ∷ 5 ∷ 6 ∷ []; packet_len = 2 }

busy-Waiting : Waiting busy.rx_ring busy.rx_buffers busy.rx_index 0 (first ∷ second ∷ [])
busy-Waiting = (
  record {
    desc = arrived;
    at_desc = refl;
    at_buffer = refl;
    is_done = refl;
    len = refl;
    inside = omega arith;
  },
  (
    record {
      desc = arrived;
      at_desc = refl;
      at_buffer = refl;
      is_done = refl;
      len = refl;
      inside = omega arith;
    },
    tt,
  ),
)

polls_lem_example :
    (d' : E1000Driver) × (polls 2 busy ≡ done (first ∷ second ∷ [], d')) × Emptied busy 2 d'
polls_lem_example = polls_lem busy (first ∷ second ∷ []) busy-IsValid (omega arith) busy-Waiting
