-- ===== src/E1000/Send.antt =====
-- `transmit_packet_secure` and `send_ping` of kernel/src/e1000.rs.
use polymorph_os.Prelude.{ℕ, ◌+◌, ◌%◌, ◌^◌, ◌≤◌, ◌<◌, ◌≡◌, ◌≢◌, refl, [], ◌∷◌, ◌++◌, arith, length}
use polymorph_os.Prelude.{some, get_elem?, set, done, lt→ltb, ltb, drop, Bytes, take, take-append}
use polymorph_os.Prelude.{length-set, get_elem?-set_self, get_elem?-set_ne, ◌∙◌, All, false}
use polymorph_os.Net.{Mac, Ip4, ip_bytes, forge_ping}
use polymorph_os.Net.Checksum.{IsByte}
use polymorph_os.Net.Verifies.{checksum_verifies, All-append}
use polymorph_os.Net.Packets.{IsPing, ethernet, ip_header, echo_request}
use polymorph_os.E1000.{
  E1000Driver, TransmitDescriptor, td_cmd, transmit_packet_secure, send_ping, ping_payload,
}
use polymorph_os.E1000.Reg
use polymorph_os.E1000.Rings.{IsValid, get_elem?-inside, read_at-some, write_at-set}

-- The driver after the transmission of a packet: the packet is at the start of the staging buffer, the
-- descriptor at the old index hands it to the card, the index has moved on and is in the tail register.
pub record Transmitted (d : E1000Driver) (packet : Bytes) (d' : E1000Driver) : Type 0 where
  pub staged : take (length packet) d'.tx_buffer ≡ packet
  pub desc : TransmitDescriptor
  pub handed : get_elem? d'.tx_ring d.tx_index ≡ some desc
  pub points : desc.buffer_addr ≡ d.tx_buffer_phys
  pub sized : desc.length ≡ length packet
  pub commanded : desc.command ≡ td_cmd
  pub others : (j : ℕ) → d.tx_index ≢ j → get_elem? d'.tx_ring j ≡ get_elem? d.tx_ring j
  pub moved : d'.tx_index ≡ (d.tx_index + 1) % 32
  pub rung : d'.writes ≡ record { register = Reg.tdt; value = d'.tx_index } ∷ d.writes
  pub valid : IsValid d'

-- A packet above 1518 bytes is dropped and changes nothing.
pub transmit_packet_secure_large :
    (d : E1000Driver) (packet : Bytes)
    → 1518 < length packet
    → transmit_packet_secure d packet ≡ done d
unfolding transmit_packet_secure
transmit_packet_secure_large d packet large = rw (lt→ltb 1518 (length packet) large)

-- On valid rings, a packet of at most 1518 bytes is transmitted: it is staged, the descriptor at the
-- index hands it to the card with its length, no other descriptor changes, the index and the tail
-- register move on, and the rings stay valid.
pub transmit_packet_secure_lem :
    (d : E1000Driver) (packet : Bytes)
    → IsValid d
    → length packet ≤ 1518
    → (d' : E1000Driver) × (transmit_packet_secure d packet ≡ done d') × Transmitted d packet d'
unfolding transmit_packet_secure
transmit_packet_secure_lem d packet v fits =
    let small = fits-ltb (length packet) fits in
    let (desc, at_desc) =
      get_elem?-inside d.tx_ring d.tx_index (omega (arith, v.tx_size, v.tx_inside)) in
    let inside : d.tx_index < length d.tx_ring = omega (arith, v.tx_size, v.tx_inside) in
    let whole : length packet % 2 ^ 16 ≡ length packet = omega arith in
    let next : TransmitDescriptor = record desc {
      buffer_addr = d.tx_buffer_phys;
      length = length packet % 2 ^ 16;
      command = td_cmd;
      status = 0;
    } in
    let d' : E1000Driver = record d {
      tx_buffer = packet ++ drop (length packet) d.tx_buffer;
      tx_ring = set d.tx_ring d.tx_index next;
      tx_index = (d.tx_index + 1) % 32;
      writes = record { register = Reg.tdt; value = (d.tx_index + 1) % 32 } ∷ d.writes;
    } in
    (
      d',
      rw (
        small,
        read_at-some d.tx_ring d.tx_index desc at_desc,
        write_at-set d.tx_ring d.tx_index next inside,
      ),
      record {
        staged = take-append packet (drop (length packet) d.tx_buffer);
        desc = next;
        handed = get_elem?-set_self d.tx_ring d.tx_index next inside;
        points = refl;
        sized = whole;
        commanded = refl;
        others = λ j ne. get_elem?-set_ne d.tx_ring next ne;
        moved = refl;
        rung = refl;
        valid = record {
          tx_size = length-set d.tx_ring d.tx_index next ∙ v.tx_size;
          rx_size = v.rx_size;
          buffers = v.buffers;
          tx_inside = omega arith;
          rx_inside = v.rx_inside;
        };
      },
    )
  where
    fits-ltb : (n : ℕ) → n ≤ 1518 → ltb 1518 n ≡ false
    fits-ltb n h = ground arith

-- On valid rings and for addresses of bytes, `send_ping` transmits an Ethernet frame with an echo
-- request whose IPv4 and ICMP checksums verify.
pub send_ping_lem :
    (d : E1000Driver) (dest : Mac) (dest_ip source_ip : Ip4)
    → IsValid d
    → All IsByte (ip_bytes dest_ip)
    → All IsByte (ip_bytes source_ip)
    → (packet : Bytes) × (d' : E1000Driver) × (send_ping d dest dest_ip source_ip ≡ done d')
      × IsPing d.mac_address dest ping_payload dest_ip source_ip packet
      × Transmitted d packet d'
unfolding send_ping forge_ping
send_ping_lem d dest dest_ip source_ip v bytes1 bytes2 =
    let (s1, run1, _, ok1) =
      checksum_verifies 5 (0x45 ∷ 0 ∷ 0 ∷ 61 ∷ 0x12 ∷ 0x34 ∷ 0x40 ∷ 0 ∷ 0x40 ∷ 1 ∷ [])
        (ip_bytes source_ip ++ ip_bytes dest_ip) refl (omega arith)
        (All-append (ip_bytes source_ip) (ip_bytes dest_ip) bytes2 bytes1) (omega arith) in
    let (s2, run2, _, ok2) =
      checksum_verifies 1 (8 ∷ 0 ∷ []) (0 ∷ 1 ∷ 0 ∷ 1 ∷ ping_payload) refl (omega arith)
        (omega arith) (omega arith) in
    let packet : Bytes =
      ethernet dest d.mac_address 0x0800
      ++ ip_header 61 s1 source_ip dest_ip
      ++ echo_request s2 ping_payload in
    let (d', run, sent) = transmit_packet_secure_lem d packet v (omega arith) in
    (
      packet,
      d',
      rw (forge_ping, run1, run2) run,
      record { ip_sum = s1; icmp_sum = s2; layout = refl; ip_verifies = ok1; icmp_verifies = ok2 },
      sent,
    )
