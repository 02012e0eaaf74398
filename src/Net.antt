-- ===== src/Net.antt =====
-- The packets that kernel/src/e1000.rs and kernel/src/virtio_net.rs forge: the Internet checksum, the
-- ICMP ping and the ARP request. Both files hold the same code (`calculate_checksum`, `send_ping`,
-- `send_arp_request` up to the transmission); they differ in the ping's payload. Slices and vectors are
-- lists of bytes, and an address, a byte array of fixed size, is a record of its bytes.
-- The u32 sum wraps; the loop that folds it is on fuel.
pub mod Checksum
pub mod Verifies
pub mod Packets
mod Tests
use polymorph_os.Prelude.{
  ℕ, zero, suc, ◌+◌, ◌-◌, ◌*◌, ◌/◌, ◌%◌, ◌^◌, Bool, true, false, List, [], ◌∷◌, ◌++◌,
}
use polymorph_os.Prelude.{
  ◌==◌, leb, ltb, if◌then◌else◌, length, take, drop, replicate, Run, done, panic, spin,
}
use polymorph_os.Prelude.{◌>>=◌, write_at, slice, Bytes}

-- `sum += (word0 << 8) | word1`, for the bytes from an index on; a last odd byte is a high byte.
pub sum_words : ℕ → Bytes → ℕ
sum_words sum [] = sum
sum_words sum (word0 ∷ []) = (sum + 256 * word0) % 2 ^ 32
sum_words sum (word0 ∷ word1 ∷ rest) = sum_words ((sum + (256 * word0 + word1)) % 2 ^ 32) rest

-- `while (sum >> 16) != 0 { sum = (sum & 0xFFFF) + (sum >> 16); }`
pub fold_sum : ℕ → ℕ → Run ⊥ ℕ
fold_sum zero sum = spin
fold_sum (suc fuel) sum = elim (sum / 2 ^ 16 == 0) [
  | true ↦ done sum
  | false ↦ fold_sum fuel (sum % 2 ^ 16 + sum / 2 ^ 16)
]

-- `!(sum as u16)`; two rounds of the loop and a last test are enough for a u32.
pub calculate_checksum : Bytes → Run ⊥ ℕ
unfolding sum_words fold_sum
calculate_checksum bytes = fold_sum 3 (sum_words 0 bytes) >>= λ sum. done (0xFFFF - sum % 2 ^ 16)

-- `[u8; 6]`
pub record Mac : Type 0 where
  pub m0 : ℕ
  pub m1 : ℕ
  pub m2 : ℕ
  pub m3 : ℕ
  pub m4 : ℕ
  pub m5 : ℕ

-- `[u8; 4]`
pub record Ip4 : Type 0 where
  pub p0 : ℕ
  pub p1 : ℕ
  pub p2 : ℕ
  pub p3 : ℕ

abbrev pub mac_bytes : Mac → Bytes
mac_bytes m = m.m0 ∷ m.m1 ∷ m.m2 ∷ m.m3 ∷ m.m4 ∷ m.m5 ∷ []

abbrev pub ip_bytes : Ip4 → Bytes
ip_bytes p = p.p0 ∷ p.p1 ∷ p.p2 ∷ p.p3 ∷ []

-- `packet[lo..lo + src.len()].copy_from_slice(src)`
abbrev pub copy_at : Bytes → ℕ → Bytes → Run ⊥ Bytes
copy_at packet lo src =
    if leb (lo + length src) (length packet)
    then done (take lo packet ++ src ++ drop (lo + length src) packet)
    else panic

-- A big-endian word, written as two bytes.
abbrev pub put_word : Bytes → ℕ → ℕ → Run ⊥ Bytes
put_word packet i w =
    write_at packet i (w / 256 % 256) >>= λ packet. write_at packet (i + 1) (w % 256)

-- A run of bytes, written one by one from an index on.
abbrev pub put_bytes : Bytes → ℕ → Bytes → Run ⊥ Bytes
put_bytes packet i [] = done packet
put_bytes packet i (b ∷ bs) = write_at packet i b >>= λ packet. put_bytes packet (i + 1) bs

-- The packet of `send_ping`, from the driver's own address to the payload.
unfoldable pub forge_ping : Mac → Bytes → Mac → Ip4 → Ip4 → Run ⊥ Bytes
forge_ping mac_address payload dest_mac dest_ip source_ip =
    let packet_size = 42 + length payload in
    copy_at (replicate packet_size 0) 0 (mac_bytes dest_mac) >>= λ packet.
    copy_at packet 6 (mac_bytes mac_address) >>= λ packet.
    put_bytes packet 12 (0x08 ∷ 0x00 ∷ 0x45 ∷ 0x00 ∷ []) >>= λ packet.
    put_word packet 16 ((20 + 8 + length payload) % 2 ^ 16) >>= λ packet.
    put_bytes packet 18 (0x12 ∷ 0x34 ∷ 0x40 ∷ 0x00 ∷ 0x40 ∷ 0x01 ∷ []) >>= λ packet.
    copy_at packet 26 (ip_bytes source_ip) >>= λ packet.
    copy_at packet 30 (ip_bytes dest_ip) >>= λ packet.
    put_bytes packet 24 (0 ∷ 0 ∷ []) >>= λ packet. slice packet 14 34 >>= λ header.
    calculate_checksum header >>= λ ip_csum. put_word packet 24 ip_csum >>= λ packet.
    put_bytes packet 34 (0x08 ∷ 0x00 ∷ []) >>= λ packet.
    put_bytes packet 38 (0x00 ∷ 0x01 ∷ 0x00 ∷ 0x01 ∷ []) >>= λ packet.
    copy_at packet 42 payload >>= λ packet. put_bytes packet 36 (0 ∷ 0 ∷ []) >>= λ packet.
    slice packet 34 packet_size >>= λ message.
    calculate_checksum message >>= λ icmp_csum. put_word packet 36 icmp_csum

-- The packet of `send_arp_request`.
pub forge_arp_request : Mac → Ip4 → Ip4 → Run ⊥ Bytes
forge_arp_request mac_address target_ip source_ip =
    copy_at (replicate 42 0) 0 (replicate 6 0xFF) >>= λ packet.
    copy_at packet 6 (mac_bytes mac_address) >>= λ packet.
    put_bytes packet 12 (0x08 ∷ 0x06 ∷ 0x00 ∷ 0x01 ∷ 0x08 ∷ 0x00 ∷ 0x06 ∷ 0x04 ∷ 0x00 ∷ 0x01 ∷ [])
    >>= λ packet. copy_at packet 22 (mac_bytes mac_address) >>= λ packet.
        copy_at packet 28 (ip_bytes source_ip) >>= λ packet.
        copy_at packet 32 (replicate 6 0x00) >>= λ packet. copy_at packet 38 (ip_bytes target_ip)
