-- ===== src/VirtioGpu/Flush.antt =====
-- `flush_to_screen` of kernel/src/virtio_gpu.rs and the control queue's free list.
use polymorph_os.Prelude.{ℕ, ◌+◌, ◌-◌, ◌%◌, ◌^◌, ◌≤◌, ◌<◌, ◌≡◌, refl, sym, true, false}
use polymorph_os.Prelude.{List, ◌∷◌, arith, length, some, get_elem?, set, done, ltb, lt→ltb, ◌∙◌}
use polymorph_os.Prelude.{get_elem?-set_ne, get_elem?-set_self, length-set}
use polymorph_os.Virtqueue.{VirtqDesc, VirtQueue}
use polymorph_os.Virtqueue.FreeList.{IsFree, Chain-set, ne_of-occurs, occurs-tail, occurs-of_ne}
use polymorph_os.Virtqueue.Pair.{inside}
use polymorph_os.VirtioGpu.{VirtioGpuDriver, ring_doorbell, flush_to_screen}
use polymorph_os.VirtioGpu.Messages.{CommandTy, Message, with_ty, size_of_transfer}
use polymorph_os.VirtioGpu.Commands.{IsReady}

-- What the mailbox holds after a flush: the transfer, and behind it the flush of the same rectangle.
abbrev pub drafts : ℕ → ℕ → ℕ → List (ℕ × Message) → List (ℕ × Message)
drafts resource_id width height old =
    (
      size_of_transfer,
      Message.flush (record {
        header = with_ty CommandTy.resource_flush;
        rect = record { x = 0; y = 0; width = width; height = height };
        resource_id = resource_id;
        padding = 0;
      }),
    )
    ∷ (
      0,
      Message.transfer (record {
        header = with_ty CommandTy.transfer_to_host_2d;
        rect = record { x = 0; y = 0; width = width; height = height };
        offset = 0;
        resource_id = resource_id;
        padding = 0;
      }),
    )
    ∷ old

-- With fewer than four free descriptors `flush_to_screen` drops the frame and changes nothing.
pub flush_to_screen_full :
    (d : VirtioGpuDriver) (vq : VirtQueue) (phys resource_id width height : ℕ)
    → IsReady d vq phys
    → vq.num_free < 4
    → flush_to_screen d resource_id width height ≡ done d
unfolding flush_to_screen
flush_to_screen_full d vq phys resource_id width height r few =
    rw (r.at_virt, r.at_phys, r.queue, lt→ltb vq.num_free 4 few)

-- With four free descriptors or more `flush_to_screen` drafts the transfer and the flush, publishes the
-- heads of both in the next two entries of the available ring, rings the doorbell, and puts the four
-- descriptors back: the free list holds what it held, the four in another order.
pub flush_to_screen_lem :
    (d : VirtioGpuDriver) (vq : VirtQueue) (phys h i j t : ℕ) (rest : List ℕ)
    (resource_id width height : ℕ)
    → IsReady d vq phys
    → IsFree vq (h ∷ i ∷ j ∷ t ∷ rest)
    → (vq' : VirtQueue) × (d' : VirtioGpuDriver) × (flush_to_screen d resource_id width height
        ≡ done d')
      × (d'.control_queue ≡ some vq')
      × (d'.mailbox ≡ drafts resource_id width height d.mailbox)
      × (d'.notified ≡ ring_doorbell d)
      × (get_elem? vq'.avail_ring (vq.avail_idx % 64) ≡ some (h % 2 ^ 16))
      × (get_elem? vq'.avail_ring ((vq.avail_idx + 1) % 64) ≡ some (j % 2 ^ 16))
      × (vq'.avail_idx ≡ (vq.avail_idx + 2) % 2 ^ 16)
      × IsFree vq' (j ∷ t ∷ h ∷ i ∷ rest)
unfolding flush_to_screen
flush_to_screen_lem d vq phys h i j t rest resource_id width height r f =
    let (
      at_h,
      (dh, found_h, (at_i, (di, found_i, (at_j, (dj, found_j, (at_t, (dt, found_t, chained))))))),
    ) =
      f.chained in
    let (out_h, (out_i, (out_j, (out_t, distinct)))) = f.distinct in
    let hi = ne_of-occurs h i (j ∷ t ∷ rest) out_h in
    let out_h2 = occurs-tail h i (j ∷ t ∷ rest) out_h in
    let hj = ne_of-occurs h j (t ∷ rest) out_h2 in
    let out_h3 = occurs-tail h j (t ∷ rest) out_h2 in
    let ht = ne_of-occurs h t rest out_h3 in
    let out_h4 = occurs-tail h t rest out_h3 in
    let ij = ne_of-occurs i j (t ∷ rest) out_i in
    let out_i2 = occurs-tail i j (t ∷ rest) out_i in
    let it = ne_of-occurs i t rest out_i2 in
    let out_i3 = occurs-tail i t rest out_i2 in
    let jt = ne_of-occurs j t rest out_j in
    let out_j2 = occurs-tail j t rest out_j in
    let ds = vq.descriptors in
    let h' : VirtqDesc = record { addr = phys; len = 56; flags = 1; next = i } in
    let i' : VirtqDesc = record { addr = phys + 512; len = 24; flags = 2; next = di.next } in
    let j' : VirtqDesc = record { addr = phys + 56; len = 48; flags = 1; next = dj.next } in
    let t' : VirtqDesc = record { addr = phys + 528; len = 24; flags = 2; next = dt.next } in
    let i'' : VirtqDesc = record i' { next = dt.next } in
    let t'' : VirtqDesc = record t' { next = h } in
    let s1 = set ds h h' in
    let s2 = set s1 i i' in
    let s3 = set s2 j j' in
    let s4 = set s3 t t' in
    let s5 = set s4 i i'' in
    let s6 = set s5 t t'' in
    let i1 = get_elem?-set_ne ds h' hi ∙ found_i in
    let j2 = get_elem?-set_ne s1 i' ij ∙ get_elem?-set_ne ds h' hj ∙ found_j in
    let t3 =
      get_elem?-set_ne s2 j' jt ∙ get_elem?-set_ne s1 i' it ∙ get_elem?-set_ne ds h' ht ∙ found_t in
    let i4 =
      get_elem?-set_ne s3 t' (λ e. it (sym e))
      ∙ get_elem?-set_ne s2 j' (λ e. ij (sym e))
      ∙ get_elem?-set_self s1 i i' (inside s1 i di i1) in
    let t5 = get_elem?-set_ne s4 i'' it ∙ get_elem?-set_self s3 t t' (inside s3 t dt t3) in
    let h6 =
      get_elem?-set_ne s5 t'' (λ e. ht (sym e))
      ∙ get_elem?-set_ne s4 i'' (λ e. hi (sym e))
      ∙ get_elem?-set_ne s3 t' (λ e. ht (sym e))
      ∙ get_elem?-set_ne s2 j' (λ e. hj (sym e))
      ∙ get_elem?-set_ne s1 i' (λ e. hi (sym e))
      ∙ get_elem?-set_self ds h h' (inside ds h dh found_h) in
    let i6 =
      get_elem?-set_ne s5 t'' (λ e. it (sym e)) ∙ get_elem?-set_self s4 i i'' (inside s4 i i' i4) in
    let j6 =
      get_elem?-set_ne s5 t'' (λ e. jt (sym e))
      ∙ get_elem?-set_ne s4 i'' ij
      ∙ get_elem?-set_ne s3 t' (λ e. jt (sym e))
      ∙ get_elem?-set_self s2 j j' (inside s2 j dj j2) in
    let t6 = get_elem?-set_self s5 t t'' (inside s5 t t' t5) in
    let linked = Chain-set s5 dt.next t t'' rest out_t (
      Chain-set s4 dt.next i i'' rest out_i3 (
        Chain-set s3 dt.next t t' rest out_t (
          Chain-set s2 dt.next j j' rest out_j2 (
            Chain-set s1 dt.next i i' rest out_i3
              (Chain-set ds dt.next h h' rest out_h4 chained))))) in
    let enough : ltb vq.num_free 4 ≡ false = enough_lem vq.num_free (omega (arith, f.counted)) in
    let in_ring : ltb (vq.avail_idx % 64) (length vq.avail_ring) ≡ true =
      lt→ltb (vq.avail_idx % 64) (length vq.avail_ring) (omega (arith, f.ring)) in
    let ring1 = set vq.avail_ring (vq.avail_idx % 64) (h % 2 ^ 16) in
    let size1 : length ring1 ≡ 64 =
      length-set vq.avail_ring (vq.avail_idx % 64) (h % 2 ^ 16) ∙ f.ring in
    let in_ring1 : ltb ((vq.avail_idx + 1) % 64) (length ring1) ≡ true =
      lt→ltb ((vq.avail_idx + 1) % 64) (length ring1) (omega (arith, size1)) in
    let ring2 = set ring1 ((vq.avail_idx + 1) % 64) (j % 2 ^ 16) in
    let vq' : VirtQueue = record vq {
      descriptors = s6;
      avail_ring = ring2;
      avail_idx = (vq.avail_idx + 2) % 2 ^ 16;
      free_head = j;
      num_free = vq.num_free - 4 + 4;
    } in
    (
      vq',
      record d {
        control_queue = some vq';
        mailbox = drafts resource_id width height d.mailbox;
        notified = ring_doorbell d;
      },
      rw (
        r.at_virt,
        r.at_phys,
        r.queue,
        enough,
        at_h,
        found_h,
        at_i,
        found_i,
        at_j,
        found_j,
        at_t,
        found_t,
        lt→ltb h (length ds) (inside ds h dh found_h),
        i1,
        lt→ltb i (length s1) (inside s1 i di i1),
        j2,
        lt→ltb j (length s2) (inside s2 j dj j2),
        t3,
        lt→ltb t (length s3) (inside s3 t dt t3),
        in_ring,
        in_ring1,
        i4,
        lt→ltb i (length s4) (inside s4 i i' i4),
        t5,
        lt→ltb t (length s5) (inside s5 t t' t5),
        at_j,
        at_t,
      ),
      refl,
      refl,
      refl,
      get_elem?-set_ne ring1 {i = (vq.avail_idx + 1) % 64} {j = vq.avail_idx % 64} (j % 2 ^ 16)
            (λ e. omega arith)
          ∙ get_elem?-set_self vq.avail_ring (vq.avail_idx % 64) (h % 2 ^ 16)
              (omega (arith, f.ring)),
      get_elem?-set_self ring1 ((vq.avail_idx + 1) % 64) (j % 2 ^ 16) (omega (arith, size1)),
      refl,
      record {
        chained = (refl, (j', j6, (at_t, (t'', t6, (refl, (h', h6, (refl, (i'', i6, linked))))))));
        distinct = (
          occurs-of_ne j t (h ∷ i ∷ rest) jt (
              occurs-of_ne j h (i ∷ rest) (λ e. hj (sym e))
                (occurs-of_ne j i rest (λ e. ij (sym e)) out_j2)),
          (
            occurs-of_ne t h (i ∷ rest) (λ e. ht (sym e))
                (occurs-of_ne t i rest (λ e. it (sym e)) out_t),
            (occurs-of_ne h i rest hi out_h4, (out_i3, distinct)),
          ),
        );
        counted = omega (arith, f.counted);
        few = omega (arith, f.counted, f.few);
        size =
            length-set s5 t t''
            ∙ length-set s4 i i''
            ∙ length-set s3 t t'
            ∙ length-set s2 j j'
            ∙ length-set s1 i i'
            ∙ length-set ds h h'
            ∙ f.size;
        ring = length-set ring1 ((vq.avail_idx + 1) % 64) (j % 2 ^ 16) ∙ size1;
      },
    )
  where
    enough_lem : (n : ℕ) → 4 ≤ n → ltb n 4 ≡ false
    enough_lem n h = ground arith
