-- ===== src/E1000/Receive.antt =====
-- `poll_receive` of kernel/src/e1000.rs takes the packets that the card has put into the ring, in
-- order.
use polymorph_os.Prelude.{
  ℕ, zero, suc, ◌+◌, ◌%◌, ◌≤◌, ◌<◌, ◌≡◌, ◌≢◌, refl, sym, ap, List, [], ◌∷◌, arith, length,
}
use polymorph_os.Prelude.{none, some, get_elem?, set, Run, done, Bytes, bit_and, ◌==◌}
use polymorph_os.Prelude.{length-set, get_elem?-set_self, get_elem?-set_ne, ◌∙◌, ◌>>=◌, true, false}
use polymorph_os.E1000.{E1000Driver, ReceiveDescriptor, RegWrite, RawParts, rd_dd, poll_receive}
use polymorph_os.E1000.Reg
use polymorph_os.E1000.Rings.{IsValid, read_at-some, write_at-set}

-- The card has put a packet into a buffer, and its length into the buffer's descriptor; the packet lies
-- inside the buffer.
pub record Holds (ring : List ReceiveDescriptor) (buffers : List Bytes) (i : ℕ) (packet : RawParts)
    : Type 0 where
  pub desc : ReceiveDescriptor
  pub at_desc : get_elem? ring i ≡ some desc
  pub at_buffer : get_elem? buffers i ≡ some packet.buffer
  pub is_done : (bit_and desc.status rd_dd == 0) ≡ false
  pub len : desc.length ≡ packet.packet_len
  pub inside : packet.packet_len ≤ length packet.buffer

-- The packets in the ring, in order, from the `k`th place after `start` on.
abbrev pub Waiting : List ReceiveDescriptor → List Bytes → ℕ → ℕ → List RawParts → Type 0
Waiting ring buffers start k [] = Unit
Waiting ring buffers start k (p ∷ ps) =
    Holds ring buffers ((start + k) % 32) p × Waiting ring buffers start (suc k) ps

-- The driver after a packet was taken: its descriptor is empty again, the index has moved on, and the
-- tail register hands the old place to the card.
pub record Taken (d d' : E1000Driver) : Type 0 where
  pub cleared :
      (desc : ReceiveDescriptor) × (get_elem? d'.rx_ring d.rx_index ≡ some desc) × (desc.status ≡ 0)
  pub others : (j : ℕ) → d.rx_index ≢ j → get_elem? d'.rx_ring j ≡ get_elem? d.rx_ring j
  pub buffers : d'.rx_buffers ≡ d.rx_buffers
  pub moved : d'.rx_index ≡ (d.rx_index + 1) % 32
  pub rung : d'.writes ≡ record { register = Reg.rdt; value = d.rx_index } ∷ d.writes
  pub valid : IsValid d'

pub poll_receive-Taken :
    (d : E1000Driver) (packet : RawParts)
    → IsValid d
    → Holds d.rx_ring d.rx_buffers d.rx_index packet
    → (d' : E1000Driver) × (poll_receive d ≡ done (some packet, d')) × Taken d d'
unfolding poll_receive
poll_receive-Taken d packet v h =
    let inside : d.rx_index < length d.rx_ring = omega (arith, v.rx_size, v.rx_inside) in
    let next : ReceiveDescriptor = record h.desc { status = 0 } in
    (
      record d {
        rx_ring = set d.rx_ring d.rx_index next;
        rx_index = (d.rx_index + 1) % 32;
        writes = record { register = Reg.rdt; value = d.rx_index } ∷ d.writes;
      },
      rw (
        read_at-some d.rx_ring d.rx_index h.desc h.at_desc,
        h.is_done,
        read_at-some d.rx_buffers d.rx_index packet.buffer h.at_buffer,
        write_at-set d.rx_ring d.rx_index next inside,
        h.len,
      ),
      record {
        cleared = (next, get_elem?-set_self d.rx_ring d.rx_index next inside, refl);
        others = λ j ne. get_elem?-set_ne d.rx_ring next ne;
        buffers = refl;
        moved = refl;
        rung = refl;
        valid = record {
          tx_size = v.tx_size;
          rx_size = length-set d.rx_ring d.rx_index next ∙ v.rx_size;
          buffers = v.buffers;
          tx_inside = v.tx_inside;
          rx_inside = omega arith;
        };
      },
    )

-- `n` polls, and the packets that they answer.
abbrev pub polls : ℕ → E1000Driver → Run ⊥ (List RawParts × E1000Driver)
polls zero d = done ([], d)
polls (suc n) d = poll_receive d >>= λ (packet, d'). polls n d' >>= λ (packets, d''). elim packet [
  | none ↦ done (packets, d'')
  | some p ↦ done (p ∷ packets, d'')
]

Waiting-later :
    (d d' : E1000Driver) (k : ℕ) (ps : List RawParts)
    → IsValid d
    → Taken d d'
    → k + length ps < 32
    → Waiting d.rx_ring d.rx_buffers d.rx_index (suc k) ps
    → Waiting d'.rx_ring d'.rx_buffers d'.rx_index k ps
Waiting-later d d' k [] v t le w = tt
Waiting-later d d' k (p ∷ ps) v t le (h, w) =
    let same : (d.rx_index + suc k) % 32 ≡ (d'.rx_index + k) % 32 = omega (arith, t.moved) in
    let apart : d.rx_index ≢ (d.rx_index + suc k) % 32 = λ e. omega (arith, v.rx_inside) in
    (
      record {
        desc = h.desc;
        at_desc = ap (get_elem? d'.rx_ring) (sym same) ∙ t.others _ apart ∙ h.at_desc;
        at_buffer =
            ap (λ b. get_elem? b ((d'.rx_index + k) % 32)) t.buffers
            ∙ ap (get_elem? d.rx_buffers) (sym same)
            ∙ h.at_buffer;
        is_done = h.is_done;
        len = h.len;
        inside = h.inside;
      },
      Waiting-later d d' (suc k) ps v t (omega arith) w,
    )

-- The writes to the tail register that hand `n` places from `start` on back to the card, in order.
abbrev pub handed_back : ℕ → ℕ → List RegWrite → List RegWrite
handed_back start zero writes = writes
handed_back start (suc n) writes =
    handed_back ((start + 1) % 32) n (record { register = Reg.rdt; value = start } ∷ writes)

-- The driver after `n` packets were taken: the rings are valid, the index stands behind the last of them,
-- their descriptors have the status 0, no other has changed, and their places were handed back.
pub record Emptied (d : E1000Driver) (n : ℕ) (d' : E1000Driver) : Type 0 where
  pub valid : IsValid d'
  pub moved : d'.rx_index ≡ (d.rx_index + n) % 32
  pub cleared :
      (k : ℕ)
      → k < n
      → (desc : ReceiveDescriptor) × (get_elem? d'.rx_ring ((d.rx_index + k) % 32) ≡ some desc)
        × (desc.status ≡ 0)
  pub others :
      (j : ℕ)
      → ((k : ℕ) → k < n → (d.rx_index + k) % 32 ≢ j)
      → get_elem? d'.rx_ring j ≡ get_elem? d.rx_ring j
  pub rung : d'.writes ≡ handed_back d.rx_index n d.writes

Emptied-more :
    (d d1 d2 : E1000Driver) (n : ℕ)
    → IsValid d
    → n < 32
    → Taken d d1
    → Emptied d1 n d2
    → Emptied d (suc n) d2
Emptied-more d d1 d2 n v le t e = record {
  valid = e.valid;
  moved = omega (arith, e.moved, t.moved);
  cleared = cleared;
  others = λ j apart.
      e.others j (λ k lt same. apart (suc k) (omega arith) (next k ∙ same))
      ∙ t.others j (λ same. apart 0 (omega arith) (first ∙ same));
  rung =
      e.rung
      ∙ ap (λ i. handed_back i n d1.writes) t.moved
      ∙ ap (handed_back ((d.rx_index + 1) % 32) n) t.rung;
}
  where
    first : (d.rx_index + 0) % 32 ≡ d.rx_index
    first = omega (arith, v.rx_inside)

    next : (k : ℕ) → (d.rx_index + suc k) % 32 ≡ (d1.rx_index + k) % 32
    next k = omega (arith, t.moved)

    cleared :
        (k : ℕ)
        → k < suc n
        → (desc : ReceiveDescriptor) × (get_elem? d2.rx_ring ((d.rx_index + k) % 32) ≡ some desc)
          × (desc.status ≡ 0)
    cleared zero lt =
        let (desc, there, zero_status) = t.cleared in
        let kept = e.others d.rx_index (λ k less same. omega (arith, v.rx_inside, t.moved)) in
        (desc, ap (get_elem? d2.rx_ring) first ∙ kept ∙ there, zero_status)
    cleared (suc k) lt = rw (next k) (e.cleared k (omega arith))

-- On valid rings with at most 32 packets waiting, each inside its buffer, as many polls answer just
-- these packets, in order. They leave the rings valid, the index behind the last packet, the descriptors
-- of the packets with status 0 and the others unchanged, and have handed the places of the packets back
-- to the card, in order, by writes to the tail register.
pub polls_lem :
    (d : E1000Driver) (packets : List RawParts)
    → IsValid d
    → length packets ≤ 32
    → Waiting d.rx_ring d.rx_buffers d.rx_index 0 packets
    → (d' : E1000Driver) × (polls (length packets) d ≡ done (packets, d'))
      × Emptied d (length packets) d'
polls_lem d [] v le w = (
  d,
  refl,
  record {
    valid = v;
    moved = omega (arith, v.rx_inside);
    cleared = λ k lt. absurd (omega arith);
    others = λ j apart. refl;
    rung = refl;
  },
)
polls_lem d (p ∷ ps) v le (h, w) =
    let here : (d.rx_index + 0) % 32 ≡ d.rx_index = omega (arith, v.rx_inside) in
    let (d1, ran, t) = poll_receive-Taken d p v (rw here at h) in
    let (d2, later, e) =
      polls_lem d1 ps t.valid (omega arith) (Waiting-later d d1 0 ps v t (omega arith) w) in
    (d2, rw (ran, later), Emptied-more d d1 d2 (length ps) v (omega arith) t e)

-- With nothing in the descriptor at the index, a poll answers nothing and changes nothing.
pub poll_receive_empty :
    (d : E1000Driver) (desc : ReceiveDescriptor)
    → get_elem? d.rx_ring d.rx_index ≡ some desc
    → (bit_and desc.status rd_dd == 0) ≡ true
    → poll_receive d ≡ done (none, d)
unfolding poll_receive
poll_receive_empty d desc h e = rw (read_at-some d.rx_ring d.rx_index desc h, e)
