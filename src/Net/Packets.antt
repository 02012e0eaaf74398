-- ===== src/Net/Packets.antt =====
-- The packets as their layouts: an Ethernet frame of an IPv4 header and an ICMP echo request, and an
-- ARP request. The proofs run the code's writes on a packet of known size.
use polymorph_os.Prelude.{ℕ, ◌+◌, ◌/◌, ◌%◌, ◌≡◌, refl, [], ◌∷◌, ◌++◌}
use polymorph_os.Prelude.{length, done, Bytes}
use polymorph_os.Net.{Mac, Ip4, mac_bytes, ip_bytes, calculate_checksum, forge_arp_request}

abbrev pub word : ℕ → Bytes
word w = w / 256 % 256 ∷ w % 256 ∷ []

-- Destination, source, and the protocol of what follows.
abbrev pub ethernet : Mac → Mac → ℕ → Bytes
ethernet dest source protocol = mac_bytes dest ++ mac_bytes source ++ word protocol

-- Version 4 with five words, no service class, the length with the header, an identification, `don't
-- fragment`, a time to live of 64, ICMP, the checksum, the addresses.
abbrev pub ip_header : ℕ → ℕ → Ip4 → Ip4 → Bytes
ip_header len sum source dest =
    (0x45 ∷ 0 ∷ [])
    ++ word len
    ++ (0x12 ∷ 0x34 ∷ 0x40 ∷ 0 ∷ 0x40 ∷ 1 ∷ [])
    ++ word sum
    ++ ip_bytes source
    ++ ip_bytes dest

-- An echo request: the checksum, identifier 1, sequence number 1, the payload.
abbrev pub echo_request : ℕ → Bytes → Bytes
echo_request sum payload = (8 ∷ 0 ∷ []) ++ word sum ++ (0 ∷ 1 ∷ 0 ∷ 1 ∷ []) ++ payload

-- `Who has the target? Tell the source.`
abbrev pub arp_request : Mac → Ip4 → Ip4 → Bytes
arp_request mac source target =
    (0 ∷ 1 ∷ 8 ∷ 0 ∷ 6 ∷ 4 ∷ 0 ∷ 1 ∷ [])
    ++ mac_bytes mac
    ++ ip_bytes source
    ++ (0 ∷ 0 ∷ 0 ∷ 0 ∷ 0 ∷ 0 ∷ [])
    ++ ip_bytes target

abbrev pub broadcast : Mac
broadcast = record { m0 = 0xFF; m1 = 0xFF; m2 = 0xFF; m3 = 0xFF; m4 = 0xFF; m5 = 0xFF }

-- `send_arp_request` forges a broadcast frame with the request for the target's address.
pub forge_arp_request_lem :
    (mac : Mac) (target source : Ip4)
    → forge_arp_request mac target source
      ≡ done (ethernet broadcast mac 0x0806 ++ arp_request mac source target)
unfolding forge_arp_request
forge_arp_request_lem mac target source = refl

-- A ping that a receiver accepts: the frame is the layout, and both of its checksums verify.
pub record IsPing (mac dest : Mac) (payload : Bytes) (dest_ip source_ip : Ip4) (packet : Bytes)
    : Type 0 where
  pub ip_sum : ℕ
  pub icmp_sum : ℕ
  pub layout :
      packet
      ≡ ethernet dest mac 0x0800
        ++ ip_header (28 + length payload) ip_sum source_ip dest_ip
        ++ echo_request icmp_sum payload
  pub ip_verifies :
      calculate_checksum (ip_header (28 + length payload) ip_sum source_ip dest_ip) ≡ done 0
  pub icmp_verifies : calculate_checksum (echo_request icmp_sum payload) ≡ done 0
