-- ===== src/Net/Tests.antt =====
-- Runs of the checksum of kernel/src/e1000.rs and kernel/src/virtio_net.rs.
use polymorph_os.Prelude.{ℕ, ◌/◌, ◌%◌, ◌^◌, ◌<◌, ◌≡◌, refl, [], ◌∷◌, arith, done}
use polymorph_os.Net.{calculate_checksum}
use polymorph_os.Net.Verifies.{checksum_verifies}

-- An odd byte is the high byte of a last word, and a carry is folded back.
odd_checksum : calculate_checksum (0xFF ∷ 0xFF ∷ 1 ∷ []) ≡ done 0xFEFF
unfolding calculate_checksum
odd_checksum = refl

checksum_verifies_example :
    (sum : ℕ) × (calculate_checksum (8 ∷ 0 ∷ 0 ∷ 0 ∷ 1 ∷ 2 ∷ 3 ∷ []) ≡ done sum)
    × (sum < 2 ^ 16)
    × (calculate_checksum (8 ∷ 0 ∷ sum / 256 % 256 ∷ sum % 256 ∷ 1 ∷ 2 ∷ 3 ∷ []) ≡ done 0)
checksum_verifies_example =
    checksum_verifies 1 (8 ∷ 0 ∷ []) (1 ∷ 2 ∷ 3 ∷ []) refl (omega arith) (omega arith) (omega arith)
