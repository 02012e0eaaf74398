-- ===== src/E1000.antt =====
-- kernel/src/e1000.rs: the Intel gigabit driver. `E1000Driver` holds the driver's fields, the two
-- descriptor rings and the buffers that its pointers reach, and the register writes made so far, newest
-- first. The card is the environment: the values of the registers that initialisation reads are a
-- function, and between two polls the card may change the receive ring and its buffers. The rings are
-- the 32 descriptors at the start of their pages; an access outside them is `panic`.
pub mod Reg
pub mod Rings
pub mod Send
pub mod Receive
pub mod Init
mod Tests
use polymorph_os.Prelude.{
  ℕ, zero, suc, ◌+◌, ◌-◌, ◌*◌, ◌/◌, ◌%◌, ◌^◌, bit_and, bit_or, Bool, true, false, List, [],
}
use polymorph_os.Prelude.{
  ◌∷◌, ◌++◌, ◌==◌, not, ltb, if◌then◌else◌, Option, none, some, length, take, drop, replicate,
}
use polymorph_os.Prelude.{Run, done, panic, ◌>>=◌, read_at, write_at, or_panic, Bytes}
use polymorph_os.E1000.Reg
use polymorph_os.Memory.{FrameAllocator, DmaBlock, allocate_dma_frames}
use polymorph_os.Net.{Mac, Ip4, forge_ping, forge_arp_request}

abbrev pub num_tx_descriptors : ℕ
num_tx_descriptors = 32

abbrev pub num_rx_descriptors : ℕ
num_rx_descriptors = 32

-- `TCTL_EN | TCTL_PSP`
abbrev pub tctl_on : ℕ
tctl_on = bit_or (2 ^ 1) (2 ^ 3)

-- `RCTL_EN | RCTL_BAM | RCTL_SECRC | RCTL_UPE | RCTL_MPE`
abbrev pub rctl_on : ℕ
rctl_on = bit_or (2 ^ 1) (bit_or (2 ^ 15) (bit_or (2 ^ 26) (bit_or (2 ^ 3) (2 ^ 4))))

-- `TD_CMD_EOP | TD_CMD_IFCS | TD_CMD_RS`
abbrev pub td_cmd : ℕ
td_cmd = bit_or (2 ^ 0) (bit_or (2 ^ 1) (2 ^ 3))

abbrev pub rd_dd : ℕ
rd_dd = 1

pub record ReceiveDescriptor : Type 0 where
  pub buffer_addr : ℕ
  pub length : ℕ
  pub checksum : ℕ
  pub status : ℕ
  pub error : ℕ
  pub special : ℕ

pub record TransmitDescriptor : Type 0 where
  pub buffer_addr : ℕ
  pub length : ℕ
  pub cso : ℕ
  pub command : ℕ
  pub status : ℕ
  pub css : ℕ
  pub special : ℕ

-- Descriptors of a zeroed page.
abbrev pub empty_rx : ReceiveDescriptor
empty_rx = record { buffer_addr = 0; length = 0; checksum = 0; status = 0; error = 0; special = 0 }

abbrev pub empty_tx : TransmitDescriptor
empty_tx = record {
  buffer_addr = 0;
  length = 0;
  cso = 0;
  command = 0;
  status = 0;
  css = 0;
  special = 0;
}

pub record RegWrite : Type 0 where
  pub register : ℕ
  pub value : ℕ

pub record E1000Driver : Type 0 where
  pub mac_address : Mac
  pub tx_ring : List TransmitDescriptor
  pub tx_buffer : Bytes
  pub tx_buffer_phys : ℕ
  pub tx_index : ℕ
  pub rx_ring : List ReceiveDescriptor
  pub rx_buffers : List Bytes
  pub rx_index : ℕ
  pub writes : List RegWrite

pub write_reg : E1000Driver → ℕ → ℕ → E1000Driver
write_reg d register value = record d {
  writes = record { register = register; value = value } ∷ d.writes;
}

-- The bytes of RAL0 and the two low bytes of RAH0.
pub read_mac_address : (ℕ → ℕ) → E1000Driver → E1000Driver
read_mac_address read_reg d =
    let mac_low = read_reg Reg.ral0 in
    let mac_high = read_reg Reg.rah0 in
    record d {
      mac_address = record {
        m0 = mac_low % 256;
        m1 = mac_low / 2 ^ 8 % 256;
        m2 = mac_low / 2 ^ 16 % 256;
        m3 = mac_low / 2 ^ 24 % 256;
        m4 = mac_high % 256;
        m5 = mac_high / 2 ^ 8 % 256;
      };
    }

-- A descriptor has 16 bytes.
pub init_tx_ring : (ℕ → ℕ) → E1000Driver → ℕ → E1000Driver
unfolding write_reg
init_tx_ring read_reg d tx_ring_phys =
    let d = write_reg d Reg.tdbal (tx_ring_phys % 2 ^ 32) in
    let d = write_reg d Reg.tdbah (tx_ring_phys / 2 ^ 32) in
    let d = write_reg d Reg.tdlen (num_tx_descriptors * 16) in
    let d = write_reg d Reg.tdh 0 in
    let d = write_reg d Reg.tdt 0 in write_reg d Reg.tctl (bit_or (read_reg Reg.tctl) tctl_on)

module _ (allocator : FrameAllocator) (phys_mem_offset : ℕ) where
  open allocator use {State}

  -- `allocate_dma_frames(…, 1).unwrap()`
  abbrev pub one_frame : State → Run ⊥ (DmaBlock × State)
  one_frame s =
      let (block, s') = allocate_dma_frames allocator s phys_mem_offset 1 in
      or_panic block >>= λ b. done (b, s')

  -- The loop over the packet buffers, with `n` of them left, at `i`.
  pub wire_buffers : ℕ → ℕ → E1000Driver → State → Run ⊥ (E1000Driver × State)
  wire_buffers zero i d s = done (d, s)
  wire_buffers (suc n) i d s = one_frame s >>= λ (block, s').
      write_at d.rx_buffers i (replicate 4096 0) >>= λ buffers. read_at d.rx_ring i >>= λ desc.
      write_at d.rx_ring i (record desc { buffer_addr = block.phys; status = 0 }) >>= λ ring.
      wire_buffers n (i + 1) (record d { rx_buffers = buffers; rx_ring = ring }) s'

  pub init_rx_ring : (ℕ → ℕ) → E1000Driver → ℕ → State → Run ⊥ (E1000Driver × State)
  unfolding write_reg wire_buffers
  init_rx_ring read_reg d rx_ring_phys s =
      let d = write_reg d Reg.rdbal (rx_ring_phys % 2 ^ 32) in
      let d = write_reg d Reg.rdbah (rx_ring_phys / 2 ^ 32) in
      let d = write_reg d Reg.rdlen (num_rx_descriptors * 16) in
      let d = write_reg d Reg.rdh 0 in
      let d = write_reg d Reg.rdt (num_rx_descriptors - 1) in
      wire_buffers num_rx_descriptors 0 d s >>= λ (d, s').
      done (write_reg d Reg.rctl (bit_or (read_reg Reg.rctl) rctl_on), s')

  pub new : (ℕ → ℕ) → State → Run ⊥ (E1000Driver × State)
  new read_reg s = one_frame s >>= λ (tx_ring, s). one_frame s >>= λ (tx_buf, s).
      one_frame s >>= λ (rx_ring, s).
      let driver : E1000Driver = record {
        mac_address = record { m0 = 0; m1 = 0; m2 = 0; m3 = 0; m4 = 0; m5 = 0 };
        tx_ring = replicate num_tx_descriptors empty_tx;
        tx_buffer = replicate 4096 0;
        tx_buffer_phys = tx_buf.phys;
        tx_index = 0;
        rx_ring = replicate num_rx_descriptors empty_rx;
        rx_buffers = replicate num_rx_descriptors [];
        rx_index = 0;
        writes = [];
      } in
      init_rx_ring read_reg (init_tx_ring read_reg (read_mac_address read_reg driver) tx_ring.phys)
        rx_ring.phys s

pub transmit_packet_secure : E1000Driver → Bytes → Run ⊥ E1000Driver
unfolding write_reg
transmit_packet_secure d payload =
    if ltb 1518 (length payload)
    then done d
    else (read_at d.tx_ring d.tx_index >>= λ desc.
        write_at d.tx_ring d.tx_index (record desc {
          buffer_addr = d.tx_buffer_phys;
          length = length payload % 2 ^ 16;
          command = td_cmd;
          status = 0;
        })
        >>= λ ring.
            let tx_index = (d.tx_index + 1) % num_tx_descriptors in
            done (
              write_reg
                (record d {
                  tx_buffer = payload ++ drop (length payload) d.tx_buffer;
                  tx_ring = ring;
                  tx_index = tx_index;
                })
                Reg.tdt tx_index))

-- `slice::from_raw_parts(buffer_ptr, packet_len)`: the memory from the start of a buffer on, of a length
-- that nothing compares with the buffer's.
pub record RawParts : Type 0 where
  pub buffer : Bytes
  pub packet_len : ℕ

pub poll_receive : E1000Driver → Run ⊥ (Option RawParts × E1000Driver)
unfolding write_reg
poll_receive d = read_at d.rx_ring d.rx_index >>= λ desc.
    if not (bit_and desc.status rd_dd == 0)
    then (read_at d.rx_buffers d.rx_index >>= λ buffer.
        write_at d.rx_ring d.rx_index (record desc { status = 0 }) >>= λ ring.
        let old_index = d.rx_index in
        done (
          some (record { buffer = buffer; packet_len = desc.length }),
          write_reg (record d { rx_ring = ring; rx_index = (d.rx_index + 1) % num_rx_descriptors })
              Reg.rdt old_index,
        ))
    else done (none, d)

-- `b"PolymorphOS Bare-Metal Ping Test!"`
abbrev pub ping_payload : Bytes
ping_payload =
    80 ∷ 111 ∷ 108 ∷ 121 ∷ 109 ∷ 111 ∷ 114 ∷ 112 ∷ 104 ∷ 79 ∷ 83 ∷ 32 ∷ 66 ∷ 97 ∷ 114 ∷ 101 ∷ 45
    ∷ 77 ∷ 101 ∷ 116 ∷ 97 ∷ 108 ∷ 32 ∷ 80 ∷ 105 ∷ 110 ∷ 103 ∷ 32 ∷ 84 ∷ 101 ∷ 115 ∷ 116 ∷ 33 ∷ []

pub send_ping : E1000Driver → Mac → Ip4 → Ip4 → Run ⊥ E1000Driver
send_ping d dest_mac dest_ip source_ip =
    forge_ping d.mac_address ping_payload dest_mac dest_ip source_ip >>= transmit_packet_secure d

pub send_arp_request : E1000Driver → Ip4 → Ip4 → Run ⊥ E1000Driver
send_arp_request d target_ip source_ip =
    forge_arp_request d.mac_address target_ip source_ip >>= transmit_packet_secure d
