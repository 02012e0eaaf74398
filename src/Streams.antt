-- ===== src/Streams.antt =====
-- The interrupt-fed byte streams: kernel/src/task/keyboard.rs, kernel/src/task/mouse_stream.rs and
-- kernel/src/task/serial_stream.rs. The three hold the same statics (BUFFER, HEAD, TAIL, WAKER) and
-- the same code, over buffers of 256, 65536 and 65536 bytes; the record `ByteStream` is those statics.
-- A poll is not atomic: an interrupt may run `add_byte` between its first look at the buffer and
-- `WAKER.register`, and between that and its second look. The bytes of such interrupts are the lists
-- `early` and `late`. The futures crate's `AtomicWaker` is a parameter.
pub mod Ring
pub mod Refines
pub mod Wakeups
pub mod Keyboard
pub mod Mouse
pub mod Serial
mod Tests
use polymorph_os.Prelude.{
  ℕ, zero, suc, ◌+◌, ◌-◌, ◌%◌, Bool, true, false, List, [], ◌∷◌, ◌++◌, Option,
}
use polymorph_os.Prelude.{none, some, ◌==◌, if◌then◌else◌, get_or, set, replicate, ◌≡◌, not}

-- A cell for at most one waker. What the streams rely on: waking a cell answers the waker that was
-- registered last and leaves the cell empty; taking the waker leaves the cell empty too.
pub record AtomicWaker : Type 1 where
  pub Waker : Type 0
  pub Cell : Type 0
  pub empty : Cell
  pub register : Cell → Waker → Cell
  pub wake : Cell → Option Waker × Cell
  pub take : Cell → Cell
  pub wake-register : (c : Cell) (w : Waker) → wake (register c w) ≡ (some w, empty)
  pub wake-empty : wake empty ≡ (none, empty)
  pub take-register : (c : Cell) (w : Waker) → take (register c w) ≡ empty

pub data Poll : Type 0 where
  ready : ℕ → Poll
  pending : Poll

module _ (atomic : AtomicWaker) where
  open atomic use {Waker, Cell, empty, register, wake, take}

  pub record ByteStream : Type 0 where
    pub buffer : List ℕ
    pub head : ℕ
    pub tail : ℕ
    pub waker : Cell

  module _ (buf_size : ℕ) where
    unfoldable pub fresh : ByteStream
    fresh = record { buffer = replicate buf_size 0; head = 0; tail = 0; waker = empty }

    -- The interrupt's side: the new statics, and the waker that was called. BUFFER[HEAD] is in range
    -- wherever HEAD is below the buffer's size, which every write to HEAD keeps.
    unfoldable pub add_byte : ByteStream → ℕ → ByteStream × Option Waker
    add_byte s byte =
        let next_head = (s.head + 1) % buf_size in
        if not (next_head == s.tail)
        then (let (woken, cell) = wake s.waker in
            (record s { buffer = set s.buffer s.head byte; head = next_head; waker = cell }, woken))
        else (s, none)

    -- A run of interrupts, oldest first.
    unfoldable pub add_bytes : ByteStream → List ℕ → ByteStream
    add_bytes s [] = s
    add_bytes s (b ∷ bs) = add_bytes (add_byte s b).0 bs

    -- `HEAD != TAIL`
    unfoldable pub has_data : ByteStream → Bool
    has_data s = not (s.head == s.tail)

    -- `byte = BUFFER[TAIL]; TAIL = (TAIL + 1) % BUF_SIZE`
    unfoldable pub take_byte : ByteStream → ℕ × ByteStream
    take_byte s = (get_or s.buffer s.tail 0, record s { tail = (s.tail + 1) % buf_size })

    -- The second look, after `WAKER.register`; `WAKER.take()` drops the waker again.
    unfoldable pub second_look : ByteStream → Poll × ByteStream
    second_look s =
        if has_data s
        then (let (byte, s') = take_byte (record s { waker = take s.waker }) in (ready byte, s'))
        else (pending, s)

    -- The future's side, with the interrupts that fall into it.
    unfoldable pub poll_next : ByteStream → Waker → List ℕ → List ℕ → Poll × ByteStream
    poll_next s cx early late =
        if has_data s
        then (let (byte, s') = take_byte s in (ready byte, s'))
        else (let s1 = add_bytes s early in
            second_look (add_bytes (record s1 { waker = register s1.waker cx }) late))
