-- ===== src/VirtioNet/Ping.antt =====
-- `send_ping` and `send_arp_request` of kernel/src/virtio_net.rs.
use polymorph_os.Prelude.{ℕ, ◌<◌, ◌≡◌, refl, List, [], ◌∷◌, ◌++◌, arith}
use polymorph_os.Prelude.{some, done, Bytes, All}
use polymorph_os.Virtqueue.{VirtQueue}
use polymorph_os.Virtqueue.FreeList.{IsFree}
use polymorph_os.Net.{Mac, Ip4, ip_bytes, forge_ping}
use polymorph_os.Net.Checksum.{IsByte}
use polymorph_os.Net.Verifies.{checksum_verifies, All-append}
use polymorph_os.Net.Packets.{
  IsPing, ethernet, ip_header, echo_request, arp_request, broadcast, forge_arp_request_lem,
}
use polymorph_os.VirtioNet.{VirtioNetDriver, send_ping, send_arp_request, ping_payload}
use polymorph_os.VirtioNet.Send.{Transmitted, transmit_packet_lem}

-- With a free descriptor in the transmit queue and for addresses of bytes, `send_ping` transmits an
-- Ethernet frame with an echo request whose IPv4 and ICMP checksums verify.
pub send_ping-Transmitted :
    (d : VirtioNetDriver) (vq : VirtQueue) (a : ℕ) (rest : List ℕ) (dest : Mac)
    (dest_ip source_ip : Ip4)
    → d.tx_queue ≡ some vq
    → IsFree vq (a ∷ rest)
    → a < 64
    → All IsByte (ip_bytes dest_ip)
    → All IsByte (ip_bytes source_ip)
    → (packet : Bytes) × (d' : VirtioNetDriver) × (send_ping d dest dest_ip source_ip ≡ done d')
      × IsPing d.mac_address dest ping_payload dest_ip source_ip packet
      × Transmitted d vq a rest packet d'
unfolding send_ping forge_ping
send_ping-Transmitted d vq a rest dest dest_ip source_ip q f small bytes1 bytes2 =
    let (s1, run1, _, ok1) =
      checksum_verifies 5 (0x45 ∷ 0 ∷ 0 ∷ 52 ∷ 0x12 ∷ 0x34 ∷ 0x40 ∷ 0 ∷ 0x40 ∷ 1 ∷ [])
        (ip_bytes source_ip ++ ip_bytes dest_ip) refl (omega arith)
        (All-append (ip_bytes source_ip) (ip_bytes dest_ip) bytes2 bytes1) (omega arith) in
    let (s2, run2, _, ok2) =
      checksum_verifies 1 (8 ∷ 0 ∷ []) (0 ∷ 1 ∷ 0 ∷ 1 ∷ ping_payload) refl (omega arith)
        (omega arith) (omega arith) in
    let packet : Bytes =
      ethernet dest d.mac_address 0x0800
      ++ ip_header 52 s1 source_ip dest_ip
      ++ echo_request s2 ping_payload in
    let (d', run, sent) = transmit_packet_lem d vq packet a rest q f small (omega arith) in
    (
      packet,
      d',
      rw (forge_ping, run1, run2) run,
      record { ip_sum = s1; icmp_sum = s2; layout = refl; ip_verifies = ok1; icmp_verifies = ok2 },
      sent,
    )

-- With a free descriptor in the transmit queue, `send_arp_request` transmits a broadcast frame that
-- asks for the target's address.
pub send_arp_request-Transmitted :
    (d : VirtioNetDriver) (vq : VirtQueue) (a : ℕ) (rest : List ℕ) (target source : Ip4)
    → d.tx_queue ≡ some vq
    → IsFree vq (a ∷ rest)
    → a < 64
    → (d' : VirtioNetDriver) × (send_arp_request d target source ≡ done d')
      × Transmitted d vq a rest
          (ethernet broadcast d.mac_address 0x0806 ++ arp_request d.mac_address source target)
          d'
unfolding send_arp_request
send_arp_request-Transmitted d vq a rest target source q f small =
    let packet : Bytes =
      ethernet broadcast d.mac_address 0x0806 ++ arp_request d.mac_address source target in
    let (d', run, sent) = transmit_packet_lem d vq packet a rest q f small (omega arith) in
    (d', rw (forge_arp_request_lem d.mac_address target source) run, sent)
