-- ===== src/E1000/Init.antt =====
-- `E1000Driver::new` of kernel/src/e1000.rs: with enough frames it returns a driver with both rings.
use polymorph_os.Prelude.{
  ℕ, zero, suc, ◌+◌, ◌*◌, ◌%◌, ◌/◌, ◌^◌, ◌≤◌, ◌<◌, ◌≡◌, refl, [], ◌∷◌, arith, length,
}
use polymorph_os.Prelude.{set, done, replicate, bit_or, length-set, ◌∙◌}
use polymorph_os.Memory.{FrameAllocator, DmaBlock}
use polymorph_os.E1000
use polymorph_os.E1000.{
  E1000Driver, ReceiveDescriptor, RegWrite, one_frame, wire_buffers, init_rx_ring, init_tx_ring,
  read_mac_address, empty_tx, empty_rx, rctl_on,
}
use polymorph_os.E1000.Reg
use polymorph_os.E1000.Rings.{IsValid, get_elem?-inside, read_at-some, write_at-set}

module _ (allocator : FrameAllocator) (offset : ℕ) where
  open allocator use {State}

  -- The allocator has `n` frames to give.
  abbrev pub Supplies : ℕ → State → Type 0
  Supplies zero s = Unit
  Supplies (suc n) s =
      (block : DmaBlock) × (s' : State) × (one_frame allocator offset s ≡ done (block, s'))
      × Supplies n s'

  wire_buffers_lem :
      (n i : ℕ) (d : E1000Driver) (s : State)
      → i + n ≤ 32
      → IsValid d
      → Supplies n s
      → (d' : E1000Driver) × (s' : State) × (wire_buffers allocator offset n i d s ≡ done (d', s'))
        × IsValid d'
        × (d'.writes ≡ d.writes)
        × (d'.mac_address ≡ d.mac_address)
  unfolding wire_buffers
  wire_buffers_lem zero i d s le v supply = (d, s, refl, v, refl, refl)
  wire_buffers_lem (suc n) i d s le v (block, s1, given, later) =
      let in_buffers : i < length d.rx_buffers = omega (arith, v.buffers) in
      let in_ring : i < length d.rx_ring = omega (arith, v.rx_size) in
      let (desc, at_desc) = get_elem?-inside d.rx_ring i in_ring in
      let next : ReceiveDescriptor = record desc { buffer_addr = block.phys; status = 0 } in
      let d1 : E1000Driver = record d {
        rx_buffers = set d.rx_buffers i (replicate 4096 0);
        rx_ring = set d.rx_ring i next;
      } in
      let v1 : IsValid d1 = record {
        tx_size = v.tx_size;
        rx_size = length-set d.rx_ring i next ∙ v.rx_size;
        buffers = length-set d.rx_buffers i (replicate 4096 0) ∙ v.buffers;
        tx_inside = v.tx_inside;
        rx_inside = v.rx_inside;
      } in
      let (d2, s2, run, v2, writes, mac) =
        wire_buffers_lem n (i + 1) d1 s1 (omega arith) v1 later in
      (
        d2,
        s2,
        rw
            (
              wire_buffers,
              given,
              write_at-set d.rx_buffers i (replicate 4096 0) in_buffers,
              read_at-some d.rx_ring i desc at_desc,
              write_at-set d.rx_ring i next in_ring,
            )
            run,
        v2,
        writes,
        mac,
      )

  init_rx_ring_lem :
      (read_reg : ℕ → ℕ) (d : E1000Driver) (phys : ℕ) (s : State)
      → IsValid d
      → Supplies 32 s
      → (d' : E1000Driver) × (s' : State) × (init_rx_ring allocator offset read_reg d phys s
          ≡ done (d', s'))
        × IsValid d'
        × (d'.mac_address ≡ d.mac_address)
  unfolding init_rx_ring
  init_rx_ring_lem read_reg d phys s v supply =
      let d1 : E1000Driver = record d {
        writes =
            record { register = Reg.rdt; value = 31 }
            ∷ record { register = Reg.rdh; value = 0 }
            ∷ record { register = Reg.rdlen; value = 512 }
            ∷ record { register = Reg.rdbah; value = phys / 2 ^ 32 }
            ∷ record { register = Reg.rdbal; value = phys % 2 ^ 32 }
            ∷ d.writes;
      } in
      let v1 : IsValid d1 = record {
        tx_size = v.tx_size;
        rx_size = v.rx_size;
        buffers = v.buffers;
        tx_inside = v.tx_inside;
        rx_inside = v.rx_inside;
      } in
      let (d2, s2, run, v2, _, mac) = wire_buffers_lem 32 0 d1 s (omega arith) v1 supply in
      (
        record d2 {
          writes =
              record { register = Reg.rctl; value = bit_or (read_reg Reg.rctl) rctl_on }
              ∷ d2.writes;
        },
        s2,
        rw run,
        record {
          tx_size = v2.tx_size;
          rx_size = v2.rx_size;
          buffers = v2.buffers;
          tx_inside = v2.tx_inside;
          rx_inside = v2.rx_inside;
        },
        mac,
      )

  -- Whatever the card's registers read, `new` with 35 frames to give returns a driver on valid rings,
  -- and its address is the one in the card's address registers.
  pub new-IsValid :
      (read_reg : ℕ → ℕ) (s : State)
      → Supplies 35 s
      → (d : E1000Driver) × (s' : State) × (E1000.new allocator offset read_reg s ≡ done (d, s'))
        × IsValid d
        × (d.mac_address.m0
              + 2 ^ 8 * d.mac_address.m1
              + 2 ^ 16 * d.mac_address.m2
              + 2 ^ 24 * d.mac_address.m3
            ≡ read_reg Reg.ral0 % 2 ^ 32)
        × (d.mac_address.m4 + 2 ^ 8 * d.mac_address.m5 ≡ read_reg Reg.rah0 % 2 ^ 16)
  unfolding E1000.new init_tx_ring read_mac_address
  new-IsValid read_reg s (b1, s1, e1, (b2, s2, e2, (b3, s3, e3, later))) =
      let low = read_reg Reg.ral0 in
      let high = read_reg Reg.rah0 in
      let d0 : E1000Driver =
        init_tx_ring read_reg
          (read_mac_address read_reg (record {
            mac_address = record { m0 = 0; m1 = 0; m2 = 0; m3 = 0; m4 = 0; m5 = 0 };
            tx_ring = replicate 32 empty_tx;
            tx_buffer = replicate 4096 0;
            tx_buffer_phys = b2.phys;
            tx_index = 0;
            rx_ring = replicate 32 empty_rx;
            rx_buffers = replicate 32 [];
            rx_index = 0;
            writes = [];
          }))
          b1.phys in
      let v0 : IsValid d0 = record {
        tx_size = refl;
        rx_size = refl;
        buffers = refl;
        tx_inside = omega arith;
        rx_inside = omega arith;
      } in
      let (d, s', run, v, mac) = init_rx_ring_lem read_reg d0 b3.phys s3 v0 later in
      (d, s', rw (E1000.new, e1, e2, e3) run, v, rw mac (omega arith), rw mac (omega arith))
