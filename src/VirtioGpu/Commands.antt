-- ===== src/VirtioGpu/Commands.antt =====
-- The commands of kernel/src/virtio_gpu.rs that wait for their reply, and the control queue's free list.
use polymorph_os.Prelude.{ℕ, ◌≡◌, inl, inr, refl, ap}
use polymorph_os.Prelude.{
  List, ◌∷◌, arith, Option, some, done, ◌>>=◌, ◌∙◌, if◌then◌else◌, Bool-cases,
}
use polymorph_os.Virtqueue.{VirtQueue, await_used, reclaim_pair}
use polymorph_os.Virtqueue.FreeList.{IsFree}
use polymorph_os.Virtqueue.Pair.{Loaded, load_pair_lem, reclaim_pair_lem, Moves, await_used_lem}
use polymorph_os.VirtioGpu.{
  VirtioGpuDriver, Reply, ok, err, GpuError, no_display_info, no_canvas, ring_doorbell,
}
use polymorph_os.VirtioGpu.{exchange, finish, get_display_info, create_2d_canvas}
use polymorph_os.VirtioGpu.Messages
use polymorph_os.VirtioGpu.Messages.{
  CommandTy, Message, with_ty, is_ok_nodata, is_ok_display_info, size_of_header,
  size_of_display_info, size_of_create,
}

-- A driver whose mailbox and control queue are set up.
pub record IsReady (d : VirtioGpuDriver) (vq : VirtQueue) (phys : ℕ) : Type 0 where
  pub virt : ℕ
  pub at_virt : d.mailbox_virt ≡ some virt
  pub at_phys : d.mailbox_phys ≡ some phys
  pub queue : d.control_queue ≡ some vq

-- The driver after an exchange: the messages are in the mailbox, their descriptors were loaded, and the
-- doorbell was rung.
pub record Exchanged (d : VirtioGpuDriver) (vq : VirtQueue) (phys : ℕ)
    (messages : List (ℕ × Message)) (cmd_len resp_len a b : ℕ) (rest : List ℕ) (reply : Reply)
    (vq' : VirtQueue) (d' : VirtioGpuDriver) : Type 0 where
  pub loaded : VirtQueue
  pub was_loaded : Loaded vq a b rest phys cmd_len resp_len loaded
  pub queue_is : vq' ≡ record loaded { last_used_idx = reply.settled }
  pub driver_is :
      d' ≡ record d { control_queue = some vq'; mailbox = messages; notified = ring_doorbell d }

pub exchange_lem :
    (d : VirtioGpuDriver) (vq : VirtQueue) (phys : ℕ) (messages : List (ℕ × Message))
    (cmd_len resp_len a b : ℕ) (rest : List ℕ) (reply : Reply)
    → IsReady d vq phys
    → IsFree vq (a ∷ b ∷ rest)
    → Moves vq.last_used_idx reply.reads
    → (vq' : VirtQueue) × (d' : VirtioGpuDriver) × (exchange d messages cmd_len resp_len reply
        ≡ done (a, b, vq', d'))
      × Exchanged d vq phys messages cmd_len resp_len a b rest reply vq' d'
unfolding exchange
exchange_lem d vq phys messages cmd_len resp_len a b rest reply r f moves =
    let (loaded, run, l) = load_pair_lem vq a b rest phys cmd_len resp_len f in
    let waited : await_used loaded.last_used_idx reply.reads ≡ done tt =
      rw l.waits (await_used_lem vq.last_used_idx reply.reads moves) in
    let vq' : VirtQueue = record loaded { last_used_idx = reply.settled } in
    (
      vq',
      record d { control_queue = some vq'; mailbox = messages; notified = ring_doorbell d },
      rw (exchange, r.at_virt, r.at_phys, r.queue, run, waited),
      record { loaded = loaded; was_loaded = l; queue_is = refl; driver_is = refl },
    )

-- The queue after the wait: `settle` stores the used index alone.
settled-IsFree :
    (vq : VirtQueue) (n : ℕ) (free : List ℕ)
    → IsFree vq free
    → IsFree (record vq { last_used_idx = n }) free
settled-IsFree vq n free f = record {
  chained = f.chained;
  distinct = f.distinct;
  counted = f.counted;
  few = f.few;
  size = f.size;
  ring = f.ring;
}

reclaimed :
    (d : VirtioGpuDriver) (vq : VirtQueue) (phys : ℕ) (messages : List (ℕ × Message))
    (cmd_len resp_len a b : ℕ) (rest : List ℕ) (reply : Reply) (vq' : VirtQueue)
    (d' : VirtioGpuDriver)
    → IsFree vq (a ∷ b ∷ rest)
    → Exchanged d vq phys messages cmd_len resp_len a b rest reply vq' d'
    → (vq'' : VirtQueue) × (reclaim_pair vq' a b ≡ done vq'') × IsFree vq'' (a ∷ b ∷ rest)
reclaimed d vq phys messages cmd_len resp_len a b rest reply vq' d' f x =
    let l = x.was_loaded in
    let free : IsFree (record x.loaded { last_used_idx = reply.settled }) rest =
      settled-IsFree x.loaded reply.settled rest l.free in
    let (vq'', run, free', _) =
      reclaim_pair_lem (record x.loaded { last_used_idx = reply.settled }) a b rest
        (record { addr = phys; len = cmd_len; flags = 1; next = b }) l.reply free f.distinct
        (omega (arith, f.counted, f.few)) l.command refl l.at_reply in
    (vq'', ap (λ q. reclaim_pair q a b) x.queue_is ∙ run, free')

-- With at least two free descriptors and a device that replies, `get_display_info` answers the size in
-- the reply, or an error for a reply of another type, and in both cases puts its two descriptors back:
-- the free list is as it was.
pub get_display_info_lem :
    (d : VirtioGpuDriver) (vq : VirtQueue) (phys a b : ℕ) (rest : List ℕ) (reply : Reply)
    → IsReady d vq phys
    → IsFree vq (a ∷ b ∷ rest)
    → Moves vq.last_used_idx reply.reads
    → (vq' : VirtQueue) × (d' : VirtioGpuDriver) × (get_display_info d reply
        ≡ done (
          (if is_ok_display_info reply.ty
              then ok (reply.width, reply.height)
              else err no_display_info),
          d',
        ))
      × (d'.control_queue ≡ some vq')
      × IsFree vq' (a ∷ b ∷ rest)
unfolding get_display_info
get_display_info_lem d vq phys a b rest reply r f moves =
    let messages : List (ℕ × Message) =
      (0, Message.header (with_ty CommandTy.get_display_info)) ∷ d.mailbox in
    let (vq1, d1, run, x) =
      exchange_lem d vq phys messages size_of_header size_of_display_info a b rest reply r f
        moves in
    let (vq2, back, free) =
      reclaimed d vq phys messages size_of_header size_of_display_info a b rest reply vq1 d1 f x in
    (vq2, record d1 { control_queue = some vq2 }, rw (get_display_info, run, back), refl, free)

-- The commands that end with `finish`: on success the free list is as it was, on any other reply the
-- two descriptors are lost to it.
command_lem :
    (d : VirtioGpuDriver) (vq : VirtQueue) (phys : ℕ) (messages : List (ℕ × Message))
    (cmd_len a b : ℕ) (rest : List ℕ) (reply : Reply) (failed : GpuError)
    → IsReady d vq phys
    → IsFree vq (a ∷ b ∷ rest)
    → Moves vq.last_used_idx reply.reads
    → (vq' : VirtQueue) × (d' : VirtioGpuDriver) × ((exchange d messages cmd_len size_of_header
            reply
          >>= finish failed reply)
        ≡ done ((if is_ok_nodata reply.ty then ok tt else err failed), d'))
      × (d'.control_queue ≡ some vq')
      × (d'.mailbox ≡ messages)
      × IsFree vq' (if is_ok_nodata reply.ty then a ∷ b ∷ rest else rest)
command_lem d vq phys messages cmd_len a b rest reply failed r f moves =
    let (vq1, d1, run, x) =
      exchange_lem d vq phys messages cmd_len size_of_header a b rest reply r f moves in
    let (vq2, back, free) =
      reclaimed d vq phys messages cmd_len size_of_header a b rest reply vq1 d1 f x in
    elim (Bool-cases (is_ok_nodata reply.ty)) [
      | inl y ↦ (
        vq2,
        record d1 { control_queue = some vq2 },
        rw (run, y, back),
        refl,
        ap mailbox_of x.driver_is,
        rw y free,
      )
      | inr n ↦ (
        vq1,
        d1,
        rw (run, n),
        ap queue_of x.driver_is,
        ap mailbox_of x.driver_is,
        rw (n, x.queue_is) (settled-IsFree x.loaded reply.settled rest x.was_loaded.free),
      )
    ]
  where
    mailbox_of : VirtioGpuDriver → List (ℕ × Message)
    mailbox_of d = d.mailbox

    queue_of : VirtioGpuDriver → Option VirtQueue
    queue_of d = d.control_queue

-- With at least two free descriptors and a device that replies, `create_2d_canvas` drafts the request
-- with the size and the format of four bytes a pixel. On the reply `RespOkNodata` it succeeds and the
-- free list is as it was; on any other it answers its error, and the two descriptors are not put back.
pub create_2d_canvas_lem :
    (d : VirtioGpuDriver) (vq : VirtQueue) (phys a b : ℕ) (rest : List ℕ)
    (resource_id width height : ℕ) (reply : Reply)
    → IsReady d vq phys
    → IsFree vq (a ∷ b ∷ rest)
    → Moves vq.last_used_idx reply.reads
    → (vq' : VirtQueue) × (d' : VirtioGpuDriver) × (create_2d_canvas d resource_id width height
          reply
        ≡ done ((if is_ok_nodata reply.ty then ok tt else err no_canvas), d'))
      × (d'.control_queue ≡ some vq')
      × (d'.mailbox
          ≡ (
            0,
            Message.create (record {
              header = with_ty CommandTy.resource_create_2d;
              resource_id = resource_id;
              format = Messages.bgrx;
              width = width;
              height = height;
            }),
          )
            ∷ d.mailbox)
      × IsFree vq' (if is_ok_nodata reply.ty then a ∷ b ∷ rest else rest)
unfolding create_2d_canvas
create_2d_canvas_lem d vq phys a b rest resource_id width height reply r f moves =
    command_lem d vq phys _ size_of_create a b rest reply no_canvas r f moves
