-- ===== src/Streams/Tests.antt =====
-- Runs of the byte streams of kernel/src/task/ on a ring of four bytes.
use polymorph_os.Prelude.{ℕ, ◌≡◌, refl, [], ◌∷◌, arith, Option, none, some}
use polymorph_os.Streams
use polymorph_os.Streams.{AtomicWaker, ByteStream, Poll, ready, pending, add_byte, poll_next, fresh}
use polymorph_os.Streams.Ring.{IsValid, contents}
use polymorph_os.Streams.Refines.{Answers, before_poll, poll_next_refines}
use polymorph_os.Streams.Wakeups.{pending_is_woken}

-- A cell that is an optional waker; a waker is a task's number.
abbrev cell : AtomicWaker
cell = record {
  Waker = ℕ;
  Cell = Option ℕ;
  empty = none;
  register = λ c w. some w;
  wake = λ c. (c, none);
  take = λ c. none;
  wake-register = λ c w. refl;
  wake-empty = refl;
  take-register = λ c w. refl;
}

-- Bytes 8 and 9 wait, round the end of the buffer.
abbrev wrapped : ByteStream cell
wrapped = record { buffer = 9 ∷ 0 ∷ 0 ∷ 8 ∷ []; head = 1; tail = 3; waker = some 5 }

abbrev idle : ByteStream cell
idle = record { buffer = 0 ∷ 0 ∷ 0 ∷ 0 ∷ []; head = 2; tail = 2; waker = none }

wrapped-IsValid : IsValid cell 4 wrapped
wrapped-IsValid = omega arith

idle-IsValid : IsValid cell 4 idle
idle-IsValid = omega arith

pending_run : poll_next cell 4 idle 6 [] [] ≡ (pending, record idle { waker = some 6 })
unfolding poll_next Streams.second_look Streams.has_data Streams.add_bytes
pending_run = refl

late_byte : (poll_next cell 4 idle 6 [] (7 ∷ [])).0 ≡ ready 7
unfolding poll_next Streams.second_look Streams.has_data Streams.add_bytes add_byte
    Streams.take_byte
late_byte = refl

drops_when_full : (add_byte cell 4 (record wrapped { head = 2 }) 7).1 ≡ none
unfolding add_byte
drops_when_full = refl

poll_next_refines_example :
    let (r, s') = poll_next cell 4 idle 6 (7 ∷ []) (8 ∷ []) in
    Answers cell 4 (before_poll cell 4 idle (7 ∷ []) (8 ∷ [])) r s'
poll_next_refines_example = poll_next_refines cell 4 idle 6 (7 ∷ []) (8 ∷ []) idle-IsValid

pending_is_woken_example :
    let (s'', woken) = add_byte cell 4 (record idle { waker = some 6 }) 7 in
    (woken ≡ some 6) × (contents cell 4 s'' ≡ 7 ∷ [])
pending_is_woken_example =
    pending_is_woken cell 4 idle 6 [] [] (record idle { waker = some 6 }) 7 idle-IsValid pending_run
