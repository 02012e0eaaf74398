-- ===== src/Nvme/Admin.antt =====
-- The admin queue pair of kernel/src/nvme.rs over a run of commands.
use polymorph_os.Prelude.{ℕ, ◌+◌, bit_and, List, [], ◌∷◌, ◌==◌, ltb, false}
use polymorph_os.Prelude.{Run, done, panic, ◌>>=◌, ◌≡◌, ◌≢◌, inl, inr, length, arith, sym}
use polymorph_os.Prelude.{◌∙◌, length-set, set, ap, write_at, Bool-cases, bind-done}
use polymorph_os.Nvme.{NvmeController, NvmeCmd, Reply, submit_admin_cmd, await_admin}
use polymorph_os.Nvme.{sq_doorbell, cq_doorbell, reply_of, admin_queue_size}

length-write_at :
    (sq : List NvmeCmd) (i : ℕ) (cmd : NvmeCmd) (sq' : List NvmeCmd)
    → ◌≡◌ {A = Run ⊥ (List NvmeCmd)} (write_at sq i cmd) (done sq')
    → length sq' ≡ length sq
length-write_at sq i cmd sq' h = elim (Bool-cases (ltb i (length sq))) [
  | inl inside ↦ written (rw inside at h)
  | inr out ↦ absurd (refused (rw out at h))
]
  where
    written :
        ◌≡◌ {A = Run ⊥ (List NvmeCmd)} (done (set sq i cmd)) (done sq') → length sq' ≡ length sq
    written e = let f : sq' ≡ set sq i cmd = cc in ap length f ∙ length-set sq i cmd

    refused : ◌≢◌ {A = Run ⊥ (List NvmeCmd)} panic (done sq')
    refused e = cc

-- Admin commands submitted one after the other, each with the reads of its completion loop.
abbrev pub submit_admins : NvmeController → List (NvmeCmd × List ℕ) → Run ⊥ NvmeController
submit_admins c [] = done c
submit_admins c ((cmd, reads) ∷ rest) =
    submit_admin_cmd c cmd reads >>= λ (r, c'). submit_admins c' rest

await_admin_lem :
    (reads : List ℕ) (c c' : NvmeController) (r : Reply)
    → await_admin c reads ≡ done (r, c')
    → (c'.admin_sq ≡ c.admin_sq) × (c'.admin_sq_tail ≡ c.admin_sq_tail)
unfolding await_admin cq_doorbell
await_admin_lem [] c c' r h = absurd cc
await_admin_lem (status ∷ later) c c' r h = elim (Bool-cases (ltb c.admin_cq_head 64)) [
  | inr over ↦ absurd (stuck (rw over at h))
  | inl inside ↦ elim (Bool-cases (bit_and status 1 == 1)) [
    | inl posted ↦ taken (rw (inside, posted) at h)
    | inr stale ↦ await_admin_lem later c c' r (rw (inside, stale) at h)
  ]
]
  where
    stuck : ◌≢◌ {A = Run ⊥ (Reply × NvmeController)} panic (done (r, c'))
    stuck e = cc

    taken :
        ◌≡◌ {A = Run ⊥ (Reply × NvmeController)}
          (done (
            reply_of status,
            cq_doorbell (record c { admin_cq_head = c.admin_cq_head + 1 }) 0 (c.admin_cq_head + 1),
          ))
          (done (r, c'))
        → (c'.admin_sq ≡ c.admin_sq) × (c'.admin_sq_tail ≡ c.admin_sq_tail)
    taken e = (
      sym (ap (λ (q : NvmeController). q.admin_sq) (same e)),
      sym (ap (λ (q : NvmeController). q.admin_sq_tail) (same e)),
    )
      where
        same :
            {d : NvmeController} {q : Reply}
            → ◌≡◌ {A = Run ⊥ (Reply × NvmeController)} (done (q, d)) (done (r, c'))
            → d ≡ c'
        same e = cc

-- A command that has been submitted moved the tail on.
submit_admin_cmd_lem :
    (c c' : NvmeController) (cmd : NvmeCmd) (reads : List ℕ) (r : Reply)
    → submit_admin_cmd c cmd reads ≡ done (r, c')
    → (length c'.admin_sq ≡ length c.admin_sq) × (c'.admin_sq_tail ≡ c.admin_sq_tail + 1)
unfolding submit_admin_cmd sq_doorbell
submit_admin_cmd_lem c c' cmd reads r h =
    let (sq, put, h1) = bind-done (write_at c.admin_sq c.admin_sq_tail cmd) _ (r, c') h in
    let (kept, moved) = await_admin_lem reads _ c' r h1 in
    (ap length kept ∙ length-write_at c.admin_sq c.admin_sq_tail cmd sq put, moved)

submit_admins_lem :
    (jobs : List (NvmeCmd × List ℕ)) (c c' : NvmeController)
    → submit_admins c jobs ≡ done c'
    → (length c'.admin_sq ≡ length c.admin_sq) × (c'.admin_sq_tail ≡ c.admin_sq_tail + length jobs)
submit_admins_lem [] c c' h =
    let e : c' ≡ c = cc in
    (
      ap (λ (q : NvmeController). length q.admin_sq) e,
      omega (arith, ap (λ (q : NvmeController). q.admin_sq_tail) e),
    )
submit_admins_lem ((cmd, reads) ∷ rest) c c' h =
    let ((r, c1), ran, h1) = bind-done (submit_admin_cmd c cmd reads) _ c' h in
    let (kept, moved) = submit_admin_cmd_lem c c1 cmd reads r ran in
    let (kept2, moved2) = submit_admins_lem rest c1 c' h1 in
    (kept2 ∙ kept, omega (arith, moved, moved2))

-- The admin queue has no wrap: from an empty queue, once 64 commands have been submitted and have come
-- back, whatever they were and whatever was replied, the next one panics, whatever the device does.
pub submit_admin_cmd_panics :
    (c c' : NvmeController) (jobs : List (NvmeCmd × List ℕ)) (cmd : NvmeCmd) (reads : List ℕ)
    → length c.admin_sq ≡ admin_queue_size
    → c.admin_sq_tail ≡ 0
    → length jobs ≡ 64
    → submit_admins c jobs ≡ done c'
    → submit_admin_cmd c' cmd reads ≡ panic
unfolding submit_admin_cmd
submit_admin_cmd_panics c c' jobs cmd reads size empty many ran =
    let (kept, moved) = submit_admins_lem jobs c c' ran in
    let t : ltb c'.admin_sq_tail (length c'.admin_sq) ≡ false = ground (arith, kept, moved) in rw t
