-- ===== src/Streams/Keyboard.antt =====
-- kernel/src/task/keyboard.rs: the byte stream that the keyboard interrupt (IRQ 1) feeds.
use polymorph_os.Prelude.{ℕ, List, Option}
use polymorph_os.Streams
use polymorph_os.Streams.{AtomicWaker, ByteStream, Poll}

abbrev pub buf_size : ℕ
buf_size = 256

module _ (atomic : AtomicWaker) where
  open atomic use {Waker}

  pub add_scancode : ByteStream atomic → ℕ → ByteStream atomic × Option Waker
  add_scancode s byte = Streams.add_byte atomic buf_size s byte

  pub poll_next : ByteStream atomic → Waker → List ℕ → List ℕ → Poll × ByteStream atomic
  poll_next s cx early late = Streams.poll_next atomic buf_size s cx early late
