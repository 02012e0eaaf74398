-- ===== src/Streams/Ring.antt =====
-- The statics of a byte stream (kernel/src/task/keyboard.rs and its two likes) as a ring of bytes.
use polymorph_os.Prelude.{ℕ, zero, suc, ◌+◌, ◌-◌, ◌%◌, ◌≤◌, ◌<◌, true, false, List, [], ◌∷◌, ◌++◌}
use polymorph_os.Prelude.{◌==◌, ltb, if◌then◌else◌, get_or, set, ◌≡◌, refl, sym, ap, ap₂}
use polymorph_os.Prelude.{◌∙◌, ◌≢◌, arith, length, length-set, get_or-set_self, get_or-set_ne, not}
use native.Mathlib.Nat.{mod-eq_of_lt, mod-eq-sub-mod, mod-add-mod}
use native.Mathlib.Decide.{dec_lt}
use polymorph_os.Streams.{AtomicWaker, ByteStream, has_data}
use polymorph_os.Streams.{take_byte}

-- The list of `f 0`, …, `f (n - 1)`.
abbrev pub tabulate : ℕ → (ℕ → ℕ) → List ℕ
tabulate zero f = []
tabulate (suc n) f = f 0 ∷ tabulate n (λ k. f (suc k))

pub tabulate_ext :
    (n : ℕ) (f g : ℕ → ℕ) → ((k : ℕ) → k < n → f k ≡ g k) → tabulate n f ≡ tabulate n g
tabulate_ext zero f g h = refl
tabulate_ext (suc n) f g h = rw (
  h 0 (omega arith),
  tabulate_ext n (λ k. f (suc k)) (λ k. g (suc k)) (λ k l. h (suc k) (omega arith)),
)

pub tabulate_last : (n : ℕ) (f : ℕ → ℕ) → tabulate (suc n) f ≡ tabulate n f ++ (f n ∷ [])
tabulate_last zero f = refl
tabulate_last (suc n) f = ap (λ l. f 0 ∷ l) (tabulate_last n (λ k. f (suc k)))

pub length-tabulate : (n : ℕ) (f : ℕ → ℕ) → length (tabulate n f) ≡ n
length-tabulate zero f = refl
length-tabulate (suc n) f = ap suc (length-tabulate n (λ k. f (suc k)))

-- Once round the ring at most, `%` subtracts at most once.
wrap_below : (a size : ℕ) → a < size + size → a % size ≡ (if ltb a size then a else a - size)
wrap_below a size h = elim (dec_lt a size) [
  | yes p ↦ ground (arith, mod-eq_of_lt p)
  | no p ↦ ground (
    arith,
    mod-eq-sub-mod {n = a} {m = size} (omega arith),
    mod-eq_of_lt {n = a - size} {m = size} (omega arith),
  )
]

module _ (atomic : AtomicWaker) (size : ℕ) where
  open atomic use {Waker, Cell}

  pub record IsValid (s : ByteStream atomic) : Type 0 where
    pub room : size ≤ length s.buffer
    pub large : 1 < size
    pub head_in : s.head < size
    pub tail_in : s.tail < size

  -- How many bytes wait, and which.
  abbrev pub waiting : ByteStream atomic → ℕ
  waiting s = if ltb s.head s.tail then s.head + size - s.tail else s.head - s.tail

  abbrev pub contents : ByteStream atomic → List ℕ
  contents s = tabulate (waiting s) (λ k. get_or s.buffer ((s.tail + k) % size) 0)

  -- One step forward, with the wrap written out.
  pub next_of : (a : ℕ) → a < size → (a + 1) % size ≡ (if a + 1 == size then 0 else a + 1)
  next_of a h = ground (arith, wrap_below (a + 1) size)

  -- The full test of `add_byte` is that `size - 1` bytes wait.
  pub full_iff :
      (s : ByteStream atomic)
      → IsValid s
      → ((s.head + 1) % size == s.tail) ≡ (waiting s == size - 1)
  full_iff s v = ground (arith, next_of s.head v.head_in)

  module _ (s : ByteStream atomic) (b : ℕ) (v : IsValid s) where
    abbrev pub next_head : ℕ
    next_head = (s.head + 1) % size

    -- Bytes that wait are not where the new byte goes.
    apart : (k : ℕ) → k < waiting s → s.head ≢ (s.tail + k) % size
    apart k lt e = ground (arith, wrap_below (s.tail + k) size)

    abbrev pub stored : (c : Cell) → ByteStream atomic
    stored c = record s { buffer = set s.buffer s.head b; head = next_head; waker = c }

    waiting-stored :
        (c : Cell) → (next_head == s.tail) ≡ false → waiting (stored c) ≡ suc (waiting s)
    waiting-stored c e = ground (arith, next_of s.head v.head_in)

    next_place : (s.tail + waiting s) % size ≡ s.head
    next_place = ground (arith, wrap_below (s.tail + waiting s) size)

    pub contents-stored :
        (c : Cell) → (next_head == s.tail) ≡ false → contents (stored c) ≡ contents s ++ (b ∷ [])
    contents-stored c e =
        let n = waiting s in
        let new = λ (k : ℕ). get_or (set s.buffer s.head b) ((s.tail + k) % size) 0 in
        let old = λ (k : ℕ). get_or s.buffer ((s.tail + k) % size) 0 in
        let here : new n ≡ b =
          rw next_place (get_or-set_self s.buffer s.head b 0 (omega (arith, v.room, v.head_in))) in
        ap (λ m. tabulate m new) (waiting-stored c e)
        ∙ tabulate_last n new
        ∙ ap₂ (λ l x. l ++ (x ∷ []))
            (tabulate_ext n new old (λ k lt. get_or-set_ne s.buffer b 0 (apart k lt))) here

    pub stored-IsValid : (c : Cell) → IsValid (stored c)
    stored-IsValid c = record {
      room = rw length-set v.room;
      large = v.large;
      head_in = omega (arith, v.large);
      tail_in = v.tail_in;
    }

  pub waiting-le : (s : ByteStream atomic) → IsValid s → waiting s < size
  waiting-le s v = ground (arith, v.head_in, v.tail_in)

  pub has_data_iff :
      (s : ByteStream atomic) → IsValid s → has_data atomic size s ≡ not (waiting s == 0)
  unfolding has_data
  has_data_iff s v = ground (arith, v.head_in, v.tail_in)

  -- `take_byte` on a ring with data.
  pub taken :
      (s : ByteStream atomic)
      → IsValid s
      → has_data atomic size s ≡ true
      → let (byte, s') = take_byte atomic size s in
        IsValid s' × (contents s ≡ byte ∷ contents s') × (s'.waker ≡ s.waker)
  unfolding take_byte
  taken s v d =
      let s' : ByteStream atomic = record s { tail = (s.tail + 1) % size } in
      let n = waiting s' in
      let f = λ (k : ℕ). get_or s.buffer ((s.tail + k) % size) 0 in
      let g = λ (k : ℕ). get_or s.buffer (((s.tail + 1) % size + k) % size) 0 in
      let one : waiting s ≡ suc n = ground (arith, d, next_of s.tail v.tail_in, has_data_iff s v) in
      let first : (s.tail + 0) % size ≡ s.tail = ground (arith, wrap_below (s.tail + 0) size) in
      let shift : (k : ℕ) → (s.tail + suc k) % size ≡ ((s.tail + 1) % size + k) % size = λ k.
        ap (λ m. m % size) (let e : s.tail + suc k ≡ s.tail + 1 + k = omega arith in e)
        ∙ sym (mod-add-mod (s.tail + 1) size k) in
      (
        record {
          room = v.room;
          large = v.large;
          head_in = v.head_in;
          tail_in = omega (arith, v.large);
        },
        ap (λ m. tabulate m f) one
            ∙ ap₂ ◌∷◌ (ap (λ i. get_or s.buffer i 0) first) (
                tabulate_ext n (λ k. f (suc k)) g
                  (λ k lt. ap (λ i. get_or s.buffer i 0) (shift k))),
        refl,
      )
