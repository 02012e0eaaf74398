-- ===== src/Streams/Serial.antt =====
-- kernel/src/task/serial_stream.rs: the byte stream that the serial interrupt feeds.
use polymorph_os.Prelude.{ℕ, List, Option}
use polymorph_os.Streams
use polymorph_os.Streams.{AtomicWaker, ByteStream, Poll}

abbrev pub buf_size : ℕ
buf_size = 65536

module _ (atomic : AtomicWaker) where
  open atomic use {Waker}

  pub add_byte : ByteStream atomic → ℕ → ByteStream atomic × Option Waker
  add_byte s byte = Streams.add_byte atomic buf_size s byte

  pub poll_next : ByteStream atomic → Waker → List ℕ → List ℕ → Poll × ByteStream atomic
  poll_next s cx early late = Streams.poll_next atomic buf_size s cx early late
