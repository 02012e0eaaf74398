-- ===== src/VirtioNet/Send.antt =====
-- `transmit_packet` of kernel/src/virtio_net.rs.
use polymorph_os.Prelude.{ℕ, ◌+◌, ◌-◌, ◌%◌, ◌^◌, ◌<◌, ◌≡◌, refl, true, false}
use polymorph_os.Prelude.{
  List, ◌∷◌, ◌++◌, arith, length, some, get_elem?, set, done, ltb, lt→ltb, ◌∙◌, ◌==◌, replicate,
  Bytes,
}
use polymorph_os.Prelude.{get_elem?-set_self, length-set}
use polymorph_os.Virtqueue.{VirtqDesc, VirtQueue}
use polymorph_os.Virtqueue.FreeList.{IsFree, Chain-set}
use polymorph_os.Virtqueue.Pair.{inside}
use polymorph_os.VirtioNet.{VirtioNetDriver, notify, tx_buffer_phys, transmit_packet}

-- The driver after a transmission: the packet is in the transmit buffer behind twelve zeros, its
-- descriptor is the newest entry of the available ring, the doorbell was rung, and the free list is as
-- it was.
pub record Transmitted (d : VirtioNetDriver) (vq : VirtQueue) (a : ℕ) (rest : List ℕ)
    (packet : Bytes) (d' : VirtioNetDriver) : Type 0 where
  pub vq' : VirtQueue
  pub queue : d'.tx_queue ≡ some vq'
  pub staged : d'.tx_buffer ≡ replicate 12 0 ++ packet
  pub desc : VirtqDesc
  pub at_desc : get_elem? vq'.descriptors a ≡ some desc
  pub points : desc.addr ≡ tx_buffer_phys
  pub sized : desc.len ≡ 12 + length packet
  pub read_only : desc.flags ≡ 0
  pub published : get_elem? vq'.avail_ring (vq.avail_idx % 64) ≡ some (a % 2 ^ 16)
  pub advanced : vq'.avail_idx ≡ (vq.avail_idx + 1) % 2 ^ 16
  pub rung : d'.notified ≡ notify d.tx_notify_addr 1 d.notified
  pub free : IsFree vq' (a ∷ rest)

-- With no free descriptor in the transmit queue `transmit_packet` drops the packet and changes nothing.
pub transmit_packet_full :
    (d : VirtioNetDriver) (vq : VirtQueue) (packet : Bytes)
    → d.tx_queue ≡ some vq
    → vq.num_free ≡ 0
    → transmit_packet d packet ≡ done d
unfolding transmit_packet
transmit_packet_full d vq packet q none_left = rw (q, none_left)

-- With a free descriptor in the transmit queue, a packet below 4 GiB is transmitted through the first
-- of them: it stands behind the empty header in the transmit buffer, its descriptor is published and
-- the doorbell rung, and the free list is as it was.
pub transmit_packet_lem :
    (d : VirtioNetDriver) (vq : VirtQueue) (packet : Bytes) (a : ℕ) (rest : List ℕ)
    → d.tx_queue ≡ some vq
    → IsFree vq (a ∷ rest)
    → a < 64
    → 12 + length packet < 2 ^ 32
    → (d' : VirtioNetDriver) × (transmit_packet d packet ≡ done d')
      × Transmitted d vq a rest packet d'
unfolding transmit_packet
transmit_packet_lem d vq packet a rest q f small fits =
    let (at_a, (da, found, chained)) = f.chained in
    let ds = vq.descriptors in
    let a' : VirtqDesc = record {
      addr = tx_buffer_phys;
      len = (12 + length packet) % 2 ^ 32;
      flags = 0;
      next = da.next;
    } in
    let s1 = set ds a a' in
    let found1 = get_elem?-set_self ds a a' (inside ds a da found) in
    let s2 = set s1 a a' in
    let some_left : (vq.num_free == 0) ≡ false = not_zero vq.num_free (omega (arith, f.counted)) in
    let in_ring : ltb (vq.avail_idx % 64) (length vq.avail_ring) ≡ true =
      lt→ltb (vq.avail_idx % 64) (length vq.avail_ring) (omega (arith, f.ring)) in
    let vq' : VirtQueue = record vq {
      descriptors = s2;
      avail_ring = set vq.avail_ring (vq.avail_idx % 64) (a % 2 ^ 16);
      avail_idx = (vq.avail_idx + 1) % 2 ^ 16;
      free_head = a % 2 ^ 16;
      num_free = (vq.num_free - 1 + 1) % 2 ^ 16;
    } in
    (
      record d {
        tx_queue = some vq';
        tx_buffer = replicate 12 0 ++ packet;
        notified = notify d.tx_notify_addr 1 d.notified;
      },
      rw (
        q,
        some_left,
        at_a,
        found,
        lt→ltb a (length ds) (inside ds a da found),
        in_ring,
        found1,
        lt→ltb a (length s1) (inside s1 a a' found1),
      ),
      record {
        vq' = vq';
        queue = refl;
        staged = refl;
        desc = a';
        at_desc = get_elem?-set_self s1 a a' (inside s1 a a' found1);
        points = refl;
        sized = omega arith;
        read_only = refl;
        published =
            get_elem?-set_self vq.avail_ring (vq.avail_idx % 64) (a % 2 ^ 16)
              (omega (arith, f.ring));
        advanced = refl;
        rung = refl;
        free = record {
          chained = (
            omega arith,
            (
              a',
              get_elem?-set_self s1 a a' (inside s1 a a' found1),
              Chain-set s1 da.next a a' rest f.distinct.0
                  (Chain-set ds da.next a a' rest f.distinct.0 chained),
            ),
          );
          distinct = f.distinct;
          counted = omega (arith, f.counted, f.few);
          few = omega (arith, f.few);
          size = length-set s1 a a' ∙ length-set ds a a' ∙ f.size;
          ring = length-set vq.avail_ring (vq.avail_idx % 64) (a % 2 ^ 16) ∙ f.ring;
        };
      },
    )
  where
    not_zero : (n : ℕ) → 0 < n → (n == 0) ≡ false
    not_zero n h = ground arith
