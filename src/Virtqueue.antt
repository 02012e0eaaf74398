-- ===== src/Virtqueue.antt =====
-- kernel/src/virtqueue.rs, the split queue that a VirtIO driver shares with its device, and the steps
-- on it that the drivers of kernel/src/virtio_gpu.rs and kernel/src/virtio_net.rs repeat: taking
-- descriptors off the free list, publishing one in the available ring, waiting on the used ring. The
-- u16 fields wrap. The device is the environment: a wait is given the values of the used index that
-- its reads see, and is `spin` where it would still be waiting.
pub mod FreeList
pub mod Pair
use polymorph_os.Prelude.{
  ℕ, zero, suc, ◌+◌, ◌-◌, ◌%◌, ◌^◌, Bool, true, false, List, [], ◌∷◌, ◌==◌, not,
}
use polymorph_os.Prelude.{
  if◌then◌else◌, replicate, Run, done, panic, spin, ◌>>=◌, read_at, write_at, set, get_or,
}

abbrev pub virtq_desc_f_next : ℕ
virtq_desc_f_next = 1

abbrev pub virtq_desc_f_write : ℕ
virtq_desc_f_write = 2

pub record VirtqDesc : Type 0 where
  pub addr : ℕ
  pub len : ℕ
  pub flags : ℕ
  pub next : ℕ

pub record VirtqUsedElem : Type 0 where
  pub id : ℕ
  pub len : ℕ

pub record VirtQueue : Type 0 where
  pub descriptors : List VirtqDesc
  pub avail_idx : ℕ
  pub avail_ring : List ℕ
  pub used_idx : ℕ
  pub used_ring : List VirtqUsedElem
  pub free_head : ℕ
  pub num_free : ℕ
  pub last_used_idx : ℕ

abbrev pub empty_desc : VirtqDesc
empty_desc = record { addr = 0; len = 0; flags = 0; next = 0 }

-- The loop `for i in 0..63`, with `n` rounds left.
pub chain_free : ℕ → ℕ → List VirtqDesc → List VirtqDesc
chain_free zero i descriptors = descriptors
chain_free (suc n) i descriptors =
    chain_free n (i + 1)
      (set descriptors i (record (get_or descriptors i empty_desc) { next = i + 1 }))

unfoldable pub new : VirtQueue
unfolding chain_free
new = record {
  descriptors = chain_free 63 0 (replicate 64 empty_desc);
  avail_idx = 0;
  avail_ring = replicate 64 0;
  used_idx = 0;
  used_ring = replicate 64 (record { id = 0; len = 0 });
  free_head = 0;
  num_free = 64;
  last_used_idx = 0;
}

-- A change of one descriptor.
abbrev pub update_desc : VirtQueue → ℕ → (VirtqDesc → VirtqDesc) → Run ⊥ VirtQueue
update_desc vq i f = read_at vq.descriptors i >>= λ d.
    write_at vq.descriptors i (f d) >>= λ ds. done (record vq { descriptors = ds })

-- `available.ring[available.idx % 64] = idx`
abbrev pub write_avail : VirtQueue → ℕ → ℕ → Run ⊥ VirtQueue
write_avail vq slot idx = write_at vq.avail_ring (slot % 64) (idx % 2 ^ 16) >>= λ ring.
    done (record vq { avail_ring = ring })

-- The loop `while starting_used_idx == used.idx`.
pub await_used : ℕ → List ℕ → Run ⊥ (Unit {0})
await_used start [] = spin
await_used start (seen ∷ later) = if not (start == seen) then done tt else await_used start later

-- A command in one buffer and its reply in another 512 bytes behind: two descriptors leave the free
-- list, are linked, and the first is published. The answer is the two and the queue.
unfoldable pub load_pair : VirtQueue → ℕ → ℕ → ℕ → Run ⊥ (ℕ × ℕ × VirtQueue)
load_pair vq mailbox_phys cmd_len resp_len =
    let head_idx = vq.free_head in
    read_at vq.descriptors head_idx >>= λ head.
    let next_idx = head.next in
    read_at vq.descriptors next_idx >>= λ second.
    let vq = record vq {
      free_head = second.next;
      num_free = (vq.num_free + 2 ^ 16 - 2) % 2 ^ 16;
    } in
    update_desc vq head_idx (λ d. record d {
      addr = mailbox_phys;
      len = cmd_len;
      flags = virtq_desc_f_next;
      next = next_idx;
    })
    >>= λ vq.
        update_desc vq next_idx
          (λ d. record d { addr = mailbox_phys + 512; len = resp_len; flags = virtq_desc_f_write })
        >>= λ vq. write_avail vq vq.avail_idx head_idx >>= λ vq.
            done (head_idx, next_idx, record vq { avail_idx = (vq.avail_idx + 1) % 2 ^ 16 })

-- The pair is put back at the head of the free list.
unfoldable pub reclaim_pair : VirtQueue → ℕ → ℕ → Run ⊥ VirtQueue
reclaim_pair vq head_idx next_idx =
    update_desc vq next_idx (λ d. record d { next = vq.free_head }) >>= λ vq.
    done (record vq { free_head = head_idx; num_free = (vq.num_free + 2) % 2 ^ 16 })
