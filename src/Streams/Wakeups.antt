-- ===== src/Streams/Wakeups.antt =====
-- A byte stream (kernel/src/task/keyboard.rs and its two likes) loses no wake-up.
use polymorph_os.Prelude.{ℕ, ◌-◌, true, false, List, [], ◌∷◌, ◌++◌}
use polymorph_os.Prelude.{Option, some, ◌≡◌, sym, ap}
use polymorph_os.Prelude.{◌∙◌, ◌≢◌, arith, length, subst}
use polymorph_os.Prelude.{Bool-cases, List-cases, inl, inr}
use polymorph_os.Streams.{
  AtomicWaker, ByteStream, Poll, ready, pending, add_byte, add_bytes, has_data,
}
use polymorph_os.Streams.{poll_next, second_look}
use polymorph_os.Streams.Ring.{IsValid, contents, taken}
use polymorph_os.Streams.Refines.{
  Answers, before_poll, poll_next_refines, add_byte_refines, set_waker, set_waker-IsValid,
  has_data-set_waker, no_data, enqueue, enqueue_all-nil,
}

module _ (atomic : AtomicWaker) (size : ℕ) where
  open atomic use {Waker, Cell, empty, register, wake, take}

  module _ (s : ByteStream atomic) (cx : Waker) (s' : ByteStream atomic)
      (v : IsValid atomic size s) where
    pending-Answers :
        (early late : List ℕ)
        → poll_next atomic size s cx early late ≡ (pending, s')
        → Answers atomic size (before_poll atomic size s early late) pending s'
    pending-Answers early late run =
        subst
          (λ (o : Poll × ByteStream atomic).
            Answers atomic size (before_poll atomic size s early late) o.0 o.1)
          run (poll_next_refines atomic size s cx early late v)

    -- A pending poll had nothing before it, and no interrupt fell into it.
    pending_quiet :
        (early late : List ℕ)
        → poll_next atomic size s cx early late ≡ (pending, s')
        → (has_data atomic size s ≡ false) × (early ++ late ≡ [])
    pending_quiet early late run =
        let a = pending-Answers early late run in
        let nothing : before_poll atomic size s early late ≡ [] =
          elim (List-cases (before_poll atomic size s early late)) [
            | inl z ↦ z
            | inr (b, rest, e) ↦ absurd (pending≢ready b (a.served b rest e).0)
          ] in
        elim (Bool-cases (has_data atomic size s)) [
          | inl d ↦ absurd (busy d nothing)
          | inr e ↦ (
            e,
            enqueue_all-nil (size - 1) (early ++ late) (omega (arith, v.large))
                (sym (ground (arith, e)) ∙ nothing),
          )
        ]
      where
        pending≢ready : (b : ℕ) → pending ≢ ready b
        pending≢ready b e = cc

        busy : has_data atomic size s ≡ true → before_poll atomic size s early late ≢ []
        busy d z =
            let t = taken atomic size s v d in let e : contents atomic size s ≡ [] = rw d at z in cc

    pending_state :
        (early late : List ℕ)
        → early ++ late ≡ []
        → has_data atomic size s ≡ false
        → poll_next atomic size s cx early late ≡ (pending, s')
        → s' ≡ set_waker atomic size s (register s.waker cx)
    unfolding poll_next second_look add_bytes set_waker
    pending_state [] [] z e run =
        let e' = has_data-set_waker atomic size s (register s.waker cx) ∙ e in
        sym (ap (λ (o : Poll × ByteStream atomic). o.1) (rw (e, e') at run))
    pending_state [] (b ∷ bs) z e run = cc
    pending_state (b ∷ bs) late z e run = cc

  -- No wake-up is lost: on valid statics, if `poll_next` is pending, the next interrupt stores its byte
  -- and calls the waker that the poll registered.
  pub pending_is_woken :
      (s : ByteStream atomic) (cx : Waker) (early late : List ℕ) (s' : ByteStream atomic) (byte : ℕ)
      → IsValid atomic size s
      → poll_next atomic size s cx early late ≡ (pending, s')
      → let (s'', woken) = add_byte atomic size s' byte in
        (woken ≡ some cx) × (contents atomic size s'' ≡ byte ∷ [])
  unfolding set_waker
  pending_is_woken s cx early late s' byte v run =
      let quiet = pending_quiet s cx s' v early late run in
      let state = pending_state s cx s' v early late quiet.1 quiet.0 run in
      let w = set_waker atomic size s (register s.waker cx) in
      let none_left : contents atomic size w ≡ [] = no_data atomic size s v quiet.0 in
      let a =
        add_byte_refines atomic size w byte
          (set_waker-IsValid atomic size s (register s.waker cx) v) in
      let room : length (contents atomic size w) ≢ size - 1 =
        omega (arith, ap length none_left, v.large) in
      rw state (
        ap (λ (o : Option Waker × Cell). o.0) (a.3 room ∙ atomic.wake-register s.waker cx),
        a.1 ∙ ap (λ q. enqueue (size - 1) q byte) none_left ∙ ground (arith, v.large),
      )
