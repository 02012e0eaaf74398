-- ===== src/Virtqueue/Pair.antt =====
-- A pair of descriptors leaves the free list of kernel/src/virtqueue.rs for a command and its reply, and
-- comes back.
use polymorph_os.Prelude.{ℕ, zero, suc, ◌+◌, ◌-◌, ◌%◌, ◌^◌, ◌≤◌, ◌<◌, ◌≡◌, ◌≢◌, refl, sym, true}
use polymorph_os.Prelude.{
  List, [], ◌∷◌, arith, length, some, get_elem?, get_elem?-set_ne, get_elem?-set_self, set,
}
use polymorph_os.Prelude.{◌∙◌, length-set, done, lt→ltb, ltb, ◌⊎◌, inl, inr}
use polymorph_os.Virtqueue.{VirtqDesc, VirtQueue, load_pair, reclaim_pair, await_used}
use polymorph_os.Virtqueue.FreeList.{Distinct, IsFree, ne_of-occurs, occurs-tail, Chain-set}

pub inside {ℓ} :
    {A : Type ℓ} (xs : List A) (i : ℕ) (x : A) → get_elem? xs i ≡ some x → i < length xs
inside [] i x h = absurd cc
inside (y ∷ ys) zero x h = omega arith
inside (y ∷ ys) (suc i) x h = omega (arith, inside ys i x h)

-- The queue after a pair was loaded: the first descriptor holds the command and leads to the second,
-- which the device may write; the first is the newest entry of the available ring.
pub record Loaded (vq : VirtQueue) (a b : ℕ) (rest : List ℕ) (mailbox_phys cmd_len resp_len : ℕ)
    (vq' : VirtQueue) : Type 0 where
  pub command :
      get_elem? vq'.descriptors a
      ≡ some (record { addr = mailbox_phys; len = cmd_len; flags = 1; next = b })
  pub reply : VirtqDesc
  pub at_reply : get_elem? vq'.descriptors b ≡ some reply
  pub reply_addr : reply.addr ≡ mailbox_phys + 512
  pub reply_len : reply.len ≡ resp_len
  pub writable : reply.flags ≡ 2
  pub published : get_elem? vq'.avail_ring (vq.avail_idx % 64) ≡ some (a % 2 ^ 16)
  pub advanced : vq'.avail_idx ≡ (vq.avail_idx + 1) % 2 ^ 16
  pub waits : vq'.last_used_idx ≡ vq.last_used_idx
  pub free : IsFree vq' rest

pub load_pair_lem :
    (vq : VirtQueue) (a b : ℕ) (rest : List ℕ) (mailbox_phys cmd_len resp_len : ℕ)
    → IsFree vq (a ∷ b ∷ rest)
    → (vq' : VirtQueue) × (load_pair vq mailbox_phys cmd_len resp_len ≡ done (a, b, vq'))
      × Loaded vq a b rest mailbox_phys cmd_len resp_len vq'
unfolding load_pair
load_pair_lem vq a b rest mailbox_phys cmd_len resp_len f =
    let (at_a, (da, found_a, (at_b, (db, found_b, chained)))) = f.chained in
    let (out_a, (out_b, distinct)) = f.distinct in
    let ne : a ≢ b = ne_of-occurs a b rest out_a in
    let ds = vq.descriptors in
    let da' : VirtqDesc = record { addr = mailbox_phys; len = cmd_len; flags = 1; next = b } in
    let db' : VirtqDesc = record db { addr = mailbox_phys + 512; len = resp_len; flags = 2 } in
    let ds1 : List VirtqDesc = set ds a da' in
    let ds2 : List VirtqDesc = set ds1 b db' in
    let found_b1 : get_elem? ds1 b ≡ some db = get_elem?-set_ne ds da' ne ∙ found_b in
    let in_a = lt→ltb a (length ds) (inside ds a da found_a) in
    let in_b = lt→ltb b (length ds1) (inside ds1 b db found_b1) in
    let in_ring : ltb (vq.avail_idx % 64) (length vq.avail_ring) ≡ true =
      lt→ltb (vq.avail_idx % 64) (length vq.avail_ring) (omega (arith, f.ring)) in
    let vq1 : VirtQueue = record vq {
      free_head = db.next;
      num_free = (vq.num_free + 2 ^ 16 - 2) % 2 ^ 16;
    } in
    let vq3 : VirtQueue = record vq1 { descriptors = ds2 } in
    let vq' : VirtQueue = record vq3 {
      avail_ring = set vq.avail_ring (vq.avail_idx % 64) (a % 2 ^ 16);
      avail_idx = (vq.avail_idx + 1) % 2 ^ 16;
    } in
    (
      vq',
      rw (at_a, found_a, at_b, found_b, in_a, found_b1, in_b, in_ring),
      record {
        command =
            get_elem?-set_ne ds1 db' (λ e. ne (sym e))
            ∙ get_elem?-set_self ds a da' (inside ds a da found_a);
        reply = db';
        at_reply = get_elem?-set_self ds1 b db' (inside ds1 b db found_b1);
        reply_addr = refl;
        reply_len = refl;
        writable = refl;
        published =
            get_elem?-set_self vq.avail_ring (vq.avail_idx % 64) (a % 2 ^ 16)
              (omega (arith, f.ring));
        advanced = refl;
        waits = refl;
        free = record {
          chained =
              Chain-set ds1 db.next b db' rest out_b
                (Chain-set ds db.next a da' rest (occurs-tail a b rest out_a) chained);
          distinct = distinct;
          counted = omega (arith, f.counted, f.few);
          few = omega (arith, f.few);
          size = length-set ds1 b db' ∙ length-set ds a da' ∙ f.size;
          ring = length-set vq.avail_ring (vq.avail_idx % 64) (a % 2 ^ 16) ∙ f.ring;
        };
      },
    )

-- A pair outside the free list, linked and with nothing else changed, comes back to its head.
pub reclaim_pair_lem :
    (vq : VirtQueue) (a b : ℕ) (rest : List ℕ) (da db : VirtqDesc)
    → IsFree vq rest
    → Distinct (a ∷ b ∷ rest)
    → length rest ≤ 62
    → get_elem? vq.descriptors a ≡ some da
    → da.next ≡ b
    → get_elem? vq.descriptors b ≡ some db
    → (vq' : VirtQueue) × (reclaim_pair vq a b ≡ done vq')
      × IsFree vq' (a ∷ b ∷ rest)
      × (vq'.last_used_idx ≡ vq.last_used_idx)
unfolding reclaim_pair
reclaim_pair_lem vq a b rest da db f (out_a, (out_b, distinct)) few found_a linked found_b =
    let ds = vq.descriptors in
    let db' : VirtqDesc = record db { next = vq.free_head } in
    let ne : b ≢ a = λ e. ne_of-occurs a b rest out_a (sym e) in
    let in_b = lt→ltb b (length ds) (inside ds b db found_b) in
    (
      record vq {
        descriptors = set ds b db';
        free_head = a;
        num_free = (vq.num_free + 2) % 2 ^ 16;
      },
      rw (found_b, in_b),
      record {
        chained = (
          refl,
          (
            da,
            get_elem?-set_ne ds db' ne ∙ found_a,
            (
              linked,
              (
                db',
                get_elem?-set_self ds b db' (inside ds b db found_b),
                Chain-set ds vq.free_head b db' rest out_b f.chained,
              ),
            ),
          ),
        );
        distinct = (out_a, (out_b, distinct));
        counted = omega (arith, f.counted);
        few = omega (arith, f.counted);
        size = length-set ds b db' ∙ f.size;
        ring = f.ring;
      },
      refl,
    )

-- The device moves the used index before the reads end.
abbrev pub Moves : ℕ → List ℕ → Type 0
Moves start [] = ⊥
Moves start (seen ∷ later) = (start ≢ seen) ⊎ Moves start later

pub await_used_lem :
    (start : ℕ) (reads : List ℕ) → Moves start reads → await_used start reads ≡ done tt
unfolding await_used
await_used_lem start [] m = absurd m
await_used_lem start (seen ∷ later) (inl ne) = ground arith
await_used_lem start (seen ∷ later) (inr m) = ground (arith, await_used_lem start later m)
