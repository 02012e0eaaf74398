-- ===== src/Streams/Refines.antt =====
-- The two sides of a byte stream (kernel/src/task/keyboard.rs and its two likes), the interrupt and the
-- future, against a queue of at most `buf_size - 1` bytes.
use polymorph_os.Prelude.{ℕ, ◌+◌, ◌-◌, ◌%◌, ◌≤◌, ◌<◌, false, List, [], ◌∷◌, ◌++◌}
use polymorph_os.Prelude.{none, ◌==◌, if◌then◌else◌, get_or, ◌≡◌, refl, sym, ap}
use polymorph_os.Prelude.{◌∙◌, ◌≢◌, arith, length, length-append, subst}
use polymorph_os.Prelude.{Bool-cases, inl, inr}
use polymorph_os.Streams.{
  AtomicWaker, ByteStream, Poll, ready, pending, add_byte, add_bytes, has_data,
}
use polymorph_os.Streams.{poll_next, second_look}
use polymorph_os.Streams.Ring.{
  tabulate, length-tabulate, IsValid, waiting, contents, full_iff, contents-stored, stored-IsValid,
  has_data_iff, taken,
}

-- The queue that a byte stream should be: at most `cap` bytes, and a full one refuses.
abbrev pub enqueue : ℕ → List ℕ → ℕ → List ℕ
enqueue cap q b = if length q == cap then q else q ++ (b ∷ [])

abbrev pub enqueue_all : ℕ → List ℕ → List ℕ → List ℕ
enqueue_all cap q [] = q
enqueue_all cap q (b ∷ bs) = enqueue_all cap (enqueue cap q b) bs

enqueue_all-append :
    (cap : ℕ) (q xs ys : List ℕ)
    → enqueue_all cap q (xs ++ ys) ≡ enqueue_all cap (enqueue_all cap q xs) ys
enqueue_all-append cap q [] ys = refl
enqueue_all-append cap q (x ∷ xs) ys = enqueue_all-append cap (enqueue cap q x) xs ys

length-enqueue_all : (cap : ℕ) (q bs : List ℕ) → length q ≤ length (enqueue_all cap q bs)
length-enqueue_all cap q [] = omega arith
length-enqueue_all cap q (b ∷ bs) =
    ground (arith, length-enqueue_all cap (enqueue cap q b) bs, length-append q (b ∷ []))

-- Of a queue with room for a byte, at least one byte of a run is kept.
pub enqueue_all-nil : (cap : ℕ) (bs : List ℕ) → 0 < cap → enqueue_all cap [] bs ≡ [] → bs ≡ []
enqueue_all-nil cap [] pos e = refl
enqueue_all-nil cap (b ∷ bs) pos e =
    let room : enqueue cap [] b ≡ b ∷ [] = ground arith in
    absurd (
      omega (
        arith,
        length-enqueue_all cap (b ∷ []) bs,
        ap length (sym (ap (λ q. enqueue_all cap q bs) room) ∙ e),
      ))

module _ (atomic : AtomicWaker) (size : ℕ) where
  open atomic use {Waker, Cell, empty, register, wake, take}

  -- On valid statics `add_byte` keeps them valid and enqueues the byte; a byte that does not fit is
  -- dropped with nothing else changed and no waker called, and for one that fits the waker in the cell
  -- is called.
  pub add_byte_refines :
      (s : ByteStream atomic) (b : ℕ)
      → IsValid atomic size s
      → let (s', woken) = add_byte atomic size s b in
        IsValid atomic size s'
        × (contents atomic size s' ≡ enqueue (size - 1) (contents atomic size s) b)
        × (length (contents atomic size s) ≡ size - 1 → (s' ≡ s) × (woken ≡ none))
        × (length (contents atomic size s) ≢ size - 1 → (woken, s'.waker) ≡ wake s.waker)
  unfolding add_byte
  add_byte_refines s b v =
      let n : length (contents atomic size s) ≡ waiting atomic size s =
        length-tabulate (waiting atomic size s) (λ k. get_or s.buffer ((s.tail + k) % size) 0) in
      elim (Bool-cases ((s.head + 1) % size == s.tail)) [
        | inl full ↦
            let at_cap : waiting atomic size s ≡ size - 1 =
              ground (arith, full_iff atomic size s v) in
            rw full
              (v, ground (arith, n, at_cap), λ _. (refl, refl), λ ne. absurd (ne (n ∙ at_cap)))
        | inr room ↦
            let below : waiting atomic size s ≢ size - 1 =
              ground (arith, full_iff atomic size s v) in
            let c : Cell = (wake s.waker).1 in
            rw room (
              stored-IsValid atomic size s b v c,
              contents-stored atomic size s b v c room ∙ ground (arith, n, below),
              λ e. absurd (below (sym n ∙ e)),
              λ _. refl,
            )
      ]

  pub add_bytes_refines :
      (bs : List ℕ) (s : ByteStream atomic)
      → IsValid atomic size s
      → IsValid atomic size (add_bytes atomic size s bs)
        × (contents atomic size (add_bytes atomic size s bs)
            ≡ enqueue_all (size - 1) (contents atomic size s) bs)
  unfolding add_bytes
  add_bytes_refines [] s v = (v, refl)
  add_bytes_refines (b ∷ bs) s v =
      let one = add_byte_refines s b v in
      let rest = add_bytes_refines bs (add_byte atomic size s b).0 one.0 in
      (rest.0, rest.1 ∙ ap (λ q. enqueue_all (size - 1) q bs) one.1)

  -- The answer of a poll that has the queue `q` before it.
  pub record Answers (q : List ℕ) (r : Poll) (s' : ByteStream atomic) : Type 0 where
    pub valid : IsValid atomic size s'
    pub idle : q ≡ [] → (r ≡ pending) × (contents atomic size s' ≡ [])
    pub served :
        (b : ℕ) (rest : List ℕ) → q ≡ b ∷ rest → (r ≡ ready b) × (contents atomic size s' ≡ rest)

  served-Answers :
      (q : List ℕ) (b : ℕ) (s' : ByteStream atomic)
      → IsValid atomic size s'
      → q ≡ b ∷ contents atomic size s'
      → Answers q (ready b) s'
  served-Answers q b s' v e = record {
    valid = v;
    idle = λ z. cc;
    served = λ c rest z.
        let f : b ≡ c = cc in let g : contents atomic size s' ≡ rest = cc in (ap ready f, g);
  }

  idle-Answers :
      (s : ByteStream atomic)
      → IsValid atomic size s
      → (q : List ℕ) → q ≡ []
      → contents atomic size s ≡ []
      → Answers q pending s
  idle-Answers s v q z e = record { valid = v; idle = λ _. (refl, e); served = λ b rest y. cc }

  pub no_data :
      (s : ByteStream atomic)
      → IsValid atomic size s
      → has_data atomic size s ≡ false
      → contents atomic size s ≡ []
  no_data s v e =
      let z : waiting atomic size s ≡ 0 = ground (arith, e, has_data_iff atomic size s v) in
      ap (λ n. tabulate n (λ k. get_or s.buffer ((s.tail + k) % size) 0)) z

  -- The waker's cell plays no part in the ring.
  unfoldable pub set_waker : ByteStream atomic → Cell → ByteStream atomic
  set_waker s c = record s { waker = c }

  pub set_waker-IsValid :
      (s : ByteStream atomic) (c : Cell)
      → IsValid atomic size s
      → IsValid atomic size (set_waker s c)
  unfolding set_waker
  set_waker-IsValid s c v = record {
    room = v.room;
    large = v.large;
    head_in = v.head_in;
    tail_in = v.tail_in;
  }

  contents-set_waker :
      (s : ByteStream atomic) (c : Cell)
      → contents atomic size (set_waker s c) ≡ contents atomic size s
  unfolding set_waker
  contents-set_waker s c = refl

  pub has_data-set_waker :
      (s : ByteStream atomic) (c : Cell)
      → has_data atomic size (set_waker s c) ≡ has_data atomic size s
  unfolding has_data set_waker
  has_data-set_waker s c = refl

  second_look-Answers :
      (s : ByteStream atomic)
      → IsValid atomic size s
      → let (r, s') = second_look atomic size s in Answers (contents atomic size s) r s'
  unfolding second_look set_waker
  second_look-Answers s v = elim (Bool-cases (has_data atomic size s)) [
    | inl d ↦
        let c = take s.waker in
        let t =
          taken atomic size (set_waker s c) (set_waker-IsValid s c v)
            (has_data-set_waker s c ∙ d) in
        rw d (served-Answers (contents atomic size s) _ _ t.0 t.1)
    | inr e ↦ rw e (idle-Answers s v (contents atomic size s) (no_data s v e) (no_data s v e))
  ]

  -- What a poll has before it: the waiting bytes, or, if none waits, what the interrupts bring.
  abbrev pub before_poll : ByteStream atomic → List ℕ → List ℕ → List ℕ
  before_poll s early late =
      if has_data atomic size s
      then contents atomic size s
      else enqueue_all (size - 1) [] (early ++ late)

  -- On valid statics, whatever interrupts fall into it, `poll_next` keeps them valid. It is ready with
  -- the oldest byte, and removes that one, if a byte waits or the interrupts bring one; otherwise it is
  -- pending and the ring is empty.
  pub poll_next_refines :
      (s : ByteStream atomic) (cx : Waker) (early late : List ℕ)
      → IsValid atomic size s
      → let (r, s') = poll_next atomic size s cx early late in
        Answers (before_poll s early late) r s'
  unfolding poll_next set_waker
  poll_next_refines s cx early late v = elim (Bool-cases (has_data atomic size s)) [
    | inl d ↦
        let t = taken atomic size s v d in
        rw d (served-Answers (contents atomic size s) _ _ t.0 t.1)
    | inr e ↦
        let a = add_bytes_refines early s v in
        let s1 = add_bytes atomic size s early in
        let s2 = set_waker s1 (register s1.waker cx) in
        let b = add_bytes_refines late s2 (set_waker-IsValid s1 _ a.0) in
        let q : contents atomic size (add_bytes atomic size s2 late)
            ≡ enqueue_all (size - 1) [] (early ++ late) =
          b.1
          ∙ ap (λ l. enqueue_all (size - 1) l late)
              (a.1 ∙ ap (λ l. enqueue_all (size - 1) l early) (no_data s v e))
          ∙ sym (enqueue_all-append (size - 1) [] early late) in
        rw e (
          subst
            (λ l.
              let (r, s') = second_look atomic size (add_bytes atomic size s2 late) in
              Answers l r s')
            q (second_look-Answers (add_bytes atomic size s2 late) b.0))
  ]
