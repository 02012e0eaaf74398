-- ===== src/VirtioNet.antt =====
-- kernel/src/virtio_net.rs: the VirtIO network driver over its two queues. `VirtioNetDriver` holds the
-- driver's fields, the queues that its pointers reach, the bytes at the fixed transmit buffer, and the
-- doorbell writes, newest first. A received frame is the address and the length of the slice that the
-- code makes of it. The device is the environment: between two polls it may change the receive queue's
-- used index and ring. The forging of packets is that of Net.
pub mod Send
pub mod Ping
pub mod Receive
mod Tests
use polymorph_os.Prelude.{
  ℕ, zero, suc, ◌+◌, ◌-◌, ◌%◌, ◌^◌, Bool, true, false, List, [], ◌∷◌, ◌++◌, ◌==◌, not,
}
use polymorph_os.Prelude.{
  if◌then◌else◌, Option, none, some, Run, done, ◌>>=◌, or_panic, read_at, Bytes, length, replicate,
}
use polymorph_os.Net
use polymorph_os.Net.{Mac, Ip4, forge_ping, forge_arp_request}
use polymorph_os.Virtqueue.{VirtqDesc, VirtqUsedElem, VirtQueue, update_desc, write_avail}

pub record Notification : Type 0 where
  pub address : ℕ
  pub queue : ℕ

pub record VirtioNetDriver : Type 0 where
  pub mmio_base : ℕ
  pub mac_address : Mac
  pub rx_queue : Option VirtQueue
  pub rx_notify_addr : Option ℕ
  pub tx_queue : Option VirtQueue
  pub tx_notify_addr : Option ℕ
  pub rx_last_used : ℕ
  pub tx_buffer : Bytes
  pub notified : List Notification

pub new : ℕ → VirtioNetDriver
new mmio_base = record {
  mmio_base = mmio_base;
  mac_address = record { m0 = 0; m1 = 0; m2 = 0; m3 = 0; m4 = 0; m5 = 0 };
  rx_queue = none;
  rx_notify_addr = none;
  tx_queue = none;
  tx_notify_addr = none;
  rx_last_used = 0;
  tx_buffer = [];
  notified = [];
}

pub calculate_checksum : Bytes → Run ⊥ ℕ
calculate_checksum bytes = Net.calculate_checksum bytes

-- `size_of::<VirtioNetHeader>()`
abbrev pub header_size : ℕ
header_size = 12

abbrev pub tx_buffer_phys : ℕ
tx_buffer_phys = 0x3000000

-- The offset of the mapping of physical memory that the code assumes.
abbrev pub virt_offset : ℕ
virt_offset = 0xFFFF_8000_0000_0000

abbrev pub notify : Option ℕ → ℕ → List Notification → List Notification
notify none queue old = old
notify (some address) queue old = record { address = address; queue = queue } ∷ old

-- The packet goes behind an empty header; the descriptor is published and reclaimed at once.
pub transmit_packet : VirtioNetDriver → Bytes → Run ⊥ VirtioNetDriver
transmit_packet d payload = or_panic d.tx_queue >>= λ vq.
    (if vq.num_free == 0
      then done d
      else (let total_len = header_size + length payload in
          let head_idx = vq.free_head in
          read_at vq.descriptors head_idx >>= λ desc.
          let vq = record vq { free_head = desc.next; num_free = vq.num_free - 1 } in
          update_desc vq head_idx
            (λ d. record d { addr = tx_buffer_phys; len = total_len % 2 ^ 32; flags = 0 })
          >>= λ vq. write_avail vq vq.avail_idx head_idx >>= λ vq.
              let vq = record vq { avail_idx = (vq.avail_idx + 1) % 2 ^ 16 } in
              update_desc vq head_idx (λ d. record d { next = vq.free_head }) >>= λ vq.
              let vq = record vq {
                free_head = head_idx % 2 ^ 16;
                num_free = (vq.num_free + 1) % 2 ^ 16;
              } in
              done (record d {
                tx_queue = some vq;
                tx_buffer = replicate header_size 0 ++ payload;
                notified = notify d.tx_notify_addr 1 d.notified;
              })))

pub record Frame : Type 0 where
  pub address : ℕ
  pub len : ℕ

pub poll_receive : VirtioNetDriver → Run ⊥ (Option Frame × VirtioNetDriver)
poll_receive d = elim d.rx_queue [
  | none ↦ done (none, d)
  | some vq ↦
      if not (d.rx_last_used == vq.used_idx)
      then (read_at vq.used_ring (d.rx_last_used % 64) >>= λ used_elem.
          let desc_idx = used_elem.id in
          read_at vq.descriptors desc_idx >>= λ desc. write_avail vq vq.avail_idx desc_idx >>= λ vq.
          let vq = record vq { avail_idx = (vq.avail_idx + 1) % 2 ^ 16 } in
          done (
            some (record {
              address = (desc.addr + virt_offset + header_size) % 2 ^ 64;
              len = used_elem.len - header_size;
            }),
            record d {
              rx_queue = some vq;
              rx_last_used = (d.rx_last_used + 1) % 2 ^ 16;
              notified = notify d.rx_notify_addr 0 d.notified;
            },
          ))
      else done (none, d)
]

-- `b"PolymorphOS VirtIO Ping!"`
abbrev pub ping_payload : Bytes
ping_payload =
    80 ∷ 111 ∷ 108 ∷ 121 ∷ 109 ∷ 111 ∷ 114 ∷ 112 ∷ 104 ∷ 79 ∷ 83 ∷ 32 ∷ 86 ∷ 105 ∷ 114 ∷ 116 ∷ 73
    ∷ 79 ∷ 32 ∷ 80 ∷ 105 ∷ 110 ∷ 103 ∷ 33 ∷ []

pub send_ping : VirtioNetDriver → Mac → Ip4 → Ip4 → Run ⊥ VirtioNetDriver
send_ping d dest_mac dest_ip source_ip =
    forge_ping d.mac_address ping_payload dest_mac dest_ip source_ip >>= transmit_packet d

pub send_arp_request : VirtioNetDriver → Ip4 → Ip4 → Run ⊥ VirtioNetDriver
send_arp_request d target_ip source_ip =
    forge_arp_request d.mac_address target_ip source_ip >>= transmit_packet d
