-- ===== src/Nvme/InStep.antt =====
-- The I/O queue pair of kernel/src/nvme.rs stays in step with the controller over any number of
-- commands. The controller fills its completion ring in order, and toggles the phase bit of the status
-- word on each pass over the 64 entries, starting with 1.
use polymorph_os.Prelude.{ℕ, zero, suc, ◌+◌, ◌-◌, ◌/◌, ◌%◌, ◌<◌, bit_and, true, false}
use polymorph_os.Prelude.{List, [], ◌∷◌, ◌==◌, ltb, if◌then◌else◌, Run, done, ◌>>=◌, ◌≡◌, ◌≢◌}
use polymorph_os.Prelude.{
  ◌⊎◌, inl, inr, length, get_elem?, some, arith, refl, sym, ◌∙◌, length-set, set,
}
use polymorph_os.Prelude.{get_elem?-set_self, ap, map, subst, lt→ltb, ==_iff}
use polymorph_os.Nvme.{NvmeController, NvmeCmd, Reply, Doorbell, submit_io_cmd}
use polymorph_os.Nvme.{await_io, advance_cq, sq_doorbell, cq_doorbell, reply_of, sq_offset}
use polymorph_os.Nvme.{cq_offset, stride}

-- The phase bit of the completion of the `n`th command, counted from 0.
abbrev pub phase : ℕ → ℕ
phase n = (n / 64 + 1) % 2

-- The successive reads of the completion entry see stale words, and then the status of command `n`.
abbrev pub Posts : ℕ → List ℕ → ℕ → Type 0
Posts n [] status = ⊥
Posts n (w ∷ ws) status =
    (bit_and w 1 ≡ phase n) × (w ≡ status) ⊎ (bit_and w 1 ≢ phase n) × Posts n ws status

-- The driver's trackers after `n` commands.
pub record InStep (c : NvmeController) (n : ℕ) : Type 0 where
  pub tail : c.io_sq_tail ≡ n % 64
  pub head : c.io_cq_head ≡ n % 64
  pub phased : c.io_phase ≡ phase n
  pub ring : length c.io_sq ≡ 64

flip : (p : ℕ) → p < 2 → bit_and (65535 - p) 1 ≡ 1 - p
flip zero h = refl
flip (suc zero) h = refl
flip (suc (suc p)) h = absurd (omega arith)

-- Its own fields after a completion.
advance_cq_lem :
    (c : NvmeController) (n : ℕ)
    → c.io_cq_head ≡ n % 64
    → c.io_phase ≡ phase n
    → ((advance_cq c).io_cq_head ≡ suc n % 64)
      × ((advance_cq c).io_phase ≡ phase (suc n))
      × ((advance_cq c).io_sq_tail ≡ c.io_sq_tail)
      × ((advance_cq c).io_sq ≡ c.io_sq)
      × ((advance_cq c).doorbells ≡ c.doorbells)
      × ((advance_cq c).cap_high ≡ c.cap_high)
      × ((advance_cq c).io_buf ≡ c.io_buf)
unfolding advance_cq
advance_cq_lem c n h p = ground (arith, flip c.io_phase (omega arith))

await_io_lem :
    (reads : List ℕ) (status n : ℕ) (c : NvmeController)
    → c.io_cq_head ≡ n % 64
    → c.io_phase ≡ phase n
    → Posts n reads status
    → await_io c reads
      ≡ done (reply_of status, cq_doorbell (advance_cq c) 1 (advance_cq c).io_cq_head)
unfolding await_io
await_io_lem [] status n c h p posts = absurd posts
await_io_lem (w ∷ ws) status n c h p (inl (now, e)) =
    let t : ltb c.io_cq_head 64 ≡ true = lt→ltb _ _ (omega arith) in
    let q : (bit_and w 1 == c.io_phase) ≡ true = (==_iff _ _).1 (now ∙ sym p) in rw (t, q, e)
await_io_lem (w ∷ ws) status n c h p (inr (stale, later)) =
    let t : ltb c.io_cq_head 64 ≡ true = lt→ltb _ _ (omega arith) in
    let q : (bit_and w 1 == c.io_phase) ≡ false = ground arith in
    rw (t, q) (await_io_lem ws status n c h p later)

-- If the driver is in step after `n` commands and the controller posts the completion of command `n`,
-- `submit_io_cmd` returns the reply for the status posted, is in step after `n + 1` commands, has put
-- the command into slot `n % 64` of the submission ring, and has rung the submission and then the
-- completion doorbell with `(n + 1) % 64`; the DMA buffer is left alone.
pub submit_io_cmd-InStep :
    (c : NvmeController) (cmd : NvmeCmd) (n status : ℕ) (reads : List ℕ)
    → InStep c n
    → Posts n reads status
    → (c' : NvmeController) × (submit_io_cmd c cmd reads ≡ done (reply_of status, c'))
      × InStep c' (suc n)
      × (get_elem? c'.io_sq (n % 64) ≡ some cmd)
      × (c'.doorbells
          ≡ record { offset = cq_offset c 1; value = suc n % 64 }
            ∷ record { offset = sq_offset c 1; value = suc n % 64 }
            ∷ c.doorbells)
      × (c'.io_buf ≡ c.io_buf)
unfolding submit_io_cmd sq_doorbell cq_doorbell sq_offset cq_offset stride
submit_io_cmd-InStep c cmd n status reads s posts =
    let next : ℕ = if c.io_sq_tail + 1 == 64 then 0 else c.io_sq_tail + 1 in
    let wraps : next ≡ suc n % 64 = ground (arith, s.tail) in
    let sq = set c.io_sq c.io_sq_tail cmd in
    let c1 : NvmeController = sq_doorbell (record c { io_sq = sq; io_sq_tail = next }) 1 next in
    let adv = advance_cq_lem c1 n s.head s.phased in
    let c' : NvmeController = cq_doorbell (advance_cq c1) 1 (advance_cq c1).io_cq_head in
    let room : ltb c.io_sq_tail (length c.io_sq) ≡ true =
      lt→ltb _ _ (omega (arith, s.tail, s.ring)) in
    let slot = get_elem?-set_self c.io_sq c.io_sq_tail cmd (omega (arith, s.tail, s.ring)) in
    (
      c',
      rw room (await_io_lem reads status n c1 s.head s.phased posts),
      record {
        tail = adv.2 ∙ wraps;
        head = adv.0;
        phased = adv.1;
        ring = ap length adv.3 ∙ length-set c.io_sq c.io_sq_tail cmd ∙ s.ring;
      },
      ap (λ l. get_elem? l (n % 64)) adv.3 ∙ ap (get_elem? sq) (sym s.tail) ∙ slot,
      rung (advance_cq c1).io_cq_head next (suc n % 64) adv.0 wraps (advance_cq c1) adv.5 adv.4,
      adv.6,
    )
  where
    rung :
        (h t m : ℕ)
        → h ≡ m
        → t ≡ m
        → (d : NvmeController) → d.cap_high ≡ c.cap_high
        → d.doorbells ≡ record { offset = sq_offset c 1; value = t } ∷ c.doorbells
        → ◌≡◌ {A = List Doorbell} (record { offset = cq_offset d 1; value = h } ∷ d.doorbells) (
            record { offset = cq_offset c 1; value = m }
            ∷ record { offset = sq_offset c 1; value = m }
            ∷ c.doorbells)
    rung h t m e f d g k = ground arith

-- Commands submitted one after the other, each with the reads of its completion loop.
abbrev pub submit_all :
    NvmeController → List (NvmeCmd × List ℕ) → Run ⊥ (List Reply × NvmeController)
submit_all c [] = done ([], c)
submit_all c ((cmd, reads) ∷ rest) =
    submit_io_cmd c cmd reads >>= λ (r, c'). submit_all c' rest >>= λ (rs, c''). done (r ∷ rs, c'')

-- The controller posts `statuses` for the commands from the `n`th on.
abbrev pub PostsAll : ℕ → List (NvmeCmd × List ℕ) → List ℕ → Type 0
PostsAll n [] [] = Unit
PostsAll n ((cmd, reads) ∷ rest) (status ∷ statuses) =
    Posts n reads status × PostsAll (suc n) rest statuses
PostsAll n _ _ = ⊥

-- Over any number of commands the driver, once in step, returns the reply for each status that the
-- controller posts, in order, and stays in step.
pub submit_all-InStep :
    (jobs : List (NvmeCmd × List ℕ)) (statuses : List ℕ) (n : ℕ) (c : NvmeController)
    → InStep c n
    → PostsAll n jobs statuses
    → (c' : NvmeController) × (submit_all c jobs ≡ done (map reply_of statuses, c'))
      × InStep c' (n + length jobs)
submit_all-InStep [] [] n c s posts =
    (c, refl, subst (InStep c) (let e : n ≡ n + 0 = omega arith in e) s)
submit_all-InStep [] (x ∷ xs) n c s posts = absurd posts
submit_all-InStep ((cmd, reads) ∷ rest) [] n c s posts = absurd posts
submit_all-InStep ((cmd, reads) ∷ rest) (status ∷ statuses) n c s posts =
    let (c1, run1, s1, _, _, _) = submit_io_cmd-InStep c cmd n status reads s posts.0 in
    let (c2, run2, s2) = submit_all-InStep rest statuses (suc n) c1 s1 posts.1 in
    (
      c2,
      rw (run1, run2),
      subst (InStep c2) (let e : suc n + length rest ≡ n + suc (length rest) = omega arith in e) s2,
    )
