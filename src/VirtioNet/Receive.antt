-- ===== src/VirtioNet/Receive.antt =====
-- `poll_receive` of kernel/src/virtio_net.rs takes the frames that the device has put into the used
-- ring, in order, and hands each buffer back.
use polymorph_os.Prelude.{
  ℕ, zero, suc, ◌+◌, ◌-◌, ◌%◌, ◌^◌, ◌≤◌, ◌<◌, ◌≡◌, ◌≢◌, refl, sym, ap, true, false, List, [], ◌∷◌,
  arith,
}
use polymorph_os.Prelude.{
  length, some, none, get_elem?, set, Run, done, ◌>>=◌, ltb, lt→ltb, ◌==◌, ◌∙◌,
}
use polymorph_os.Prelude.{get_elem?-set_self, length-set}
use polymorph_os.Virtqueue.{VirtqDesc, VirtqUsedElem, VirtQueue}
use polymorph_os.VirtioNet.{VirtioNetDriver, Frame, notify, virt_offset, poll_receive}

-- An entry of the used ring, and the descriptor that it names.
pub record Arrived (vq : VirtQueue) (slot : ℕ) (used : VirtqUsedElem) (desc : VirtqDesc)
    : Type 0 where
  pub at_used : get_elem? vq.used_ring (slot % 64) ≡ some used
  pub at_desc : get_elem? vq.descriptors used.id ≡ some desc

-- The slice behind the twelve bytes of the header.
abbrev pub frame_of : VirtqUsedElem → VirtqDesc → Frame
frame_of used desc = record {
  address = (desc.addr + virt_offset + 12) % 2 ^ 64;
  len = used.len - 12;
}

-- The entries from `slot` on, in order.
abbrev pub Waiting : VirtQueue → ℕ → List (VirtqUsedElem × VirtqDesc) → Type 0
Waiting vq slot [] = Unit
Waiting vq slot ((used, desc) ∷ more) = Arrived vq slot used desc × Waiting vq (suc slot) more

abbrev pub frames_of : List (VirtqUsedElem × VirtqDesc) → List Frame
frames_of [] = []
frames_of ((used, desc) ∷ more) = frame_of used desc ∷ frames_of more

-- `n` polls, and the frames that they answer.
abbrev pub poll_frames : ℕ → VirtioNetDriver → Run ⊥ (List Frame × VirtioNetDriver)
poll_frames zero d = done ([], d)
poll_frames (suc n) d = poll_receive d >>= λ (frame, d'). poll_frames n d' >>= λ (frames, d'').
    elim frame [ none ↦ done (frames, d'') | some f ↦ done (f ∷ frames, d'') ]

-- The driver after a frame was taken: the descriptor is the newest entry of the available ring.
pub record Taken (d : VirtioNetDriver) (vq : VirtQueue) (used : VirtqUsedElem)
    (d' : VirtioNetDriver) : Type 0 where
  pub vq' : VirtQueue
  pub queue : d'.rx_queue ≡ some vq'
  pub republished : get_elem? vq'.avail_ring (vq.avail_idx % 64) ≡ some (used.id % 2 ^ 16)
  pub advanced : vq'.avail_idx ≡ (vq.avail_idx + 1) % 2 ^ 16
  pub moved : d'.rx_last_used ≡ (d.rx_last_used + 1) % 2 ^ 16
  pub rung : d'.notified ≡ notify d.rx_notify_addr 0 d.notified
  pub used_idx : vq'.used_idx ≡ vq.used_idx
  pub used_ring : vq'.used_ring ≡ vq.used_ring
  pub descriptors : vq'.descriptors ≡ vq.descriptors
  pub ring : length vq'.avail_ring ≡ 64

differ : (a b : ℕ) → a ≢ b → (a == b) ≡ false
differ a b ne = ground arith

pub poll_receive-Taken :
    (d : VirtioNetDriver) (vq : VirtQueue) (used : VirtqUsedElem) (desc : VirtqDesc)
    → d.rx_queue ≡ some vq
    → length vq.avail_ring ≡ 64
    → d.rx_last_used ≢ vq.used_idx
    → Arrived vq d.rx_last_used used desc
    → (d' : VirtioNetDriver) × (poll_receive d ≡ done (some (frame_of used desc), d'))
      × Taken d vq used d'
unfolding poll_receive
poll_receive-Taken d vq used desc q size ne a =
    let in_ring : ltb (vq.avail_idx % 64) (length vq.avail_ring) ≡ true =
      lt→ltb (vq.avail_idx % 64) (length vq.avail_ring) (omega (arith, size)) in
    let vq' : VirtQueue = record vq {
      avail_ring = set vq.avail_ring (vq.avail_idx % 64) (used.id % 2 ^ 16);
      avail_idx = (vq.avail_idx + 1) % 2 ^ 16;
    } in
    (
      record d {
        rx_queue = some vq';
        rx_last_used = (d.rx_last_used + 1) % 2 ^ 16;
        notified = notify d.rx_notify_addr 0 d.notified;
      },
      rw (q, differ d.rx_last_used vq.used_idx ne, a.at_used, a.at_desc, in_ring),
      record {
        vq' = vq';
        queue = refl;
        republished =
            get_elem?-set_self vq.avail_ring (vq.avail_idx % 64) (used.id % 2 ^ 16)
              (omega (arith, size));
        advanced = refl;
        moved = refl;
        rung = refl;
        used_idx = refl;
        used_ring = refl;
        descriptors = refl;
        ring = length-set vq.avail_ring (vq.avail_idx % 64) (used.id % 2 ^ 16) ∙ size;
      },
    )

Waiting-later :
    (vq vq' : VirtQueue) (slot slot' : ℕ) (more : List (VirtqUsedElem × VirtqDesc))
    → vq'.used_ring ≡ vq.used_ring
    → vq'.descriptors ≡ vq.descriptors
    → slot % 64 ≡ slot' % 64
    → Waiting vq slot more
    → Waiting vq' slot' more
Waiting-later vq vq' slot slot' [] us ds same w = tt
Waiting-later vq vq' slot slot' ((used, desc) ∷ more) us ds same (a, w) = (
  record {
    at_used =
        ap (λ r. get_elem? r (slot' % 64)) us ∙ ap (get_elem? vq.used_ring) (sym same) ∙ a.at_used;
    at_desc = ap (λ r. get_elem? r used.id) ds ∙ a.at_desc;
  },
  Waiting-later vq vq' (suc slot) (suc slot') more us ds (omega arith) w,
)

-- When the device has used the entries of a list since the last poll, no more of them than the ring
-- has, as many polls answer just their frames, in order, and catch up with the device; one more poll
-- then answers nothing and changes nothing.
pub poll_frames_lem :
    (d : VirtioNetDriver) (vq : VirtQueue) (entries : List (VirtqUsedElem × VirtqDesc))
    → d.rx_queue ≡ some vq
    → length vq.avail_ring ≡ 64
    → d.rx_last_used < 2 ^ 16
    → length entries ≤ 64
    → vq.used_idx ≡ (d.rx_last_used + length entries) % 2 ^ 16
    → Waiting vq d.rx_last_used entries
    → (d' : VirtioNetDriver) × (poll_frames (length entries) d ≡ done (frames_of entries, d'))
      × (d'.rx_last_used ≡ vq.used_idx)
      × (poll_receive d' ≡ done (none, d'))
unfolding poll_receive
poll_frames_lem d vq [] q size small le used w =
    let caught_up : (d.rx_last_used == vq.used_idx) ≡ true =
      caught d.rx_last_used vq.used_idx (omega (arith, used)) in
    (d, refl, omega (arith, used), rw (q, caught_up))
  where
    caught : (a b : ℕ) → a ≡ b → (a == b) ≡ true
    caught a b e = ground arith
poll_frames_lem d vq ((used, desc) ∷ more) q size small le at_used (a, w) =
    let ne : d.rx_last_used ≢ vq.used_idx = λ e. omega (arith, at_used) in
    let (d1, ran, t) = poll_receive-Taken d vq used desc q size ne a in
    let (d2, later, at_end, empty) =
      poll_frames_lem d1 t.vq' more t.queue t.ring (omega (arith, t.moved)) (omega arith)
        (t.used_idx ∙ at_used ∙ omega (arith, t.moved))
        (Waiting-later vq t.vq' (suc d.rx_last_used) d1.rx_last_used more t.used_ring t.descriptors
          (omega (arith, t.moved)) w) in
    (d2, rw (ran, later), at_end ∙ t.used_idx, empty)
