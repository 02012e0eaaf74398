-- ===== src/Virtqueue/FreeList.antt =====
-- The free list of kernel/src/virtqueue.rs: the descriptors that are linked from the free head on.
use polymorph_os.Prelude.{ℕ, zero, suc, ◌+◌, ◌≤◌, ◌<◌, ◌≡◌, ◌≢◌, refl, ap, Bool, true, false}
use polymorph_os.Prelude.{
  List, [], ◌∷◌, arith, length, some, get_elem?, get_elem?-set_ne, set, ◌==◌, if◌then◌else◌,
}
use polymorph_os.Prelude.{◌∙◌, ==_iff, Bool-cases, inl, inr, Option-cases, none}
use polymorph_os.Virtqueue
use polymorph_os.Virtqueue.{VirtqDesc, VirtQueue, empty_desc}

abbrev pub occurs : ℕ → List ℕ → Bool
occurs i [] = false
occurs i (j ∷ js) = if i == j then true else occurs i js

abbrev pub Distinct : List ℕ → Type 0
Distinct [] = Unit
Distinct (i ∷ is) = (occurs i is ≡ false) × Distinct is

-- The descriptors of a list are linked in its order, from `head` on.
abbrev pub Chain : List VirtqDesc → ℕ → List ℕ → Type 0
Chain ds head [] = Unit
Chain ds head (i ∷ is) =
    (head ≡ i) × ((d : VirtqDesc) × (get_elem? ds i ≡ some d) × Chain ds d.next is)

pub record IsFree (vq : VirtQueue) (free : List ℕ) : Type 0 where
  pub chained : Chain vq.descriptors vq.free_head free
  pub distinct : Distinct free
  pub counted : vq.num_free ≡ length free
  pub few : vq.num_free ≤ 64
  pub size : length vq.descriptors ≡ 64
  pub ring : length vq.avail_ring ≡ 64

pub ne_of-occurs : (i j : ℕ) (js : List ℕ) → occurs i (j ∷ js) ≡ false → i ≢ j
ne_of-occurs i j js h = λ e. ground arith

pub occurs-tail : (i j : ℕ) (js : List ℕ) → occurs i (j ∷ js) ≡ false → occurs i js ≡ false
occurs-tail i j js h = ground arith

pub occurs-of_ne : (i j : ℕ) (js : List ℕ) → i ≢ j → occurs i js ≡ false → occurs i (j ∷ js) ≡ false
occurs-of_ne i j js ne h = ground arith

-- A change of a descriptor outside the list leaves it linked.
pub Chain-set :
    (ds : List VirtqDesc) (head i : ℕ) (v : VirtqDesc) (is : List ℕ)
    → occurs i is ≡ false
    → Chain ds head is
    → Chain (set ds i v) head is
Chain-set ds head i v [] out c = tt
Chain-set ds head i v (j ∷ js) out (at_head, (d, found, rest)) = (
  at_head,
  (
    d,
    get_elem?-set_ne ds v (ne_of-occurs i j js out) ∙ found,
    Chain-set ds d.next i v js (occurs-tail i j js out) rest,
  ),
)

-- The indices from `i` on.
abbrev pub count_up : ℕ → ℕ → List ℕ
count_up i zero = []
count_up i (suc n) = i ∷ count_up (i + 1) n

count_up-Distinct : (i n : ℕ) → Distinct (count_up i n)
count_up-Distinct i zero = tt
count_up-Distinct i (suc n) = (above i (i + 1) n (omega arith), count_up-Distinct (i + 1) n)
  where
    above : (i j n : ℕ) → i < j → occurs i (count_up j n) ≡ false
    above i j zero h = refl
    above i j (suc n) h = ground (arith, above i (j + 1) n (omega arith))

-- Whether the descriptors from `i` on are linked one to the next, `n` of them.
linked : List VirtqDesc → ℕ → ℕ → Bool
linked ds i zero = true
linked ds i (suc n) = elim (get_elem? ds i) [
  | none ↦ false
  | some d ↦ if d.next == i + 1 then linked ds (i + 1) n else false
]

linked-Chain :
    (ds : List VirtqDesc) (i n : ℕ) (last : VirtqDesc)
    → linked ds i n ≡ true
    → get_elem? ds (i + n) ≡ some last
    → Chain ds i (count_up i (suc n))
unfolding linked
linked-Chain ds i zero last h e = (refl, (last, ap (get_elem? ds) (omega arith) ∙ e, tt))
linked-Chain ds i (suc n) last h e = elim (Option-cases (get_elem? ds i)) [
  | inl gone ↦ absurd (no_link gone)
  | inr (d, found) ↦
      let test : (if d.next == i + 1 then linked ds (i + 1) n else false) ≡ true =
        rw (found, linked) at h in
      elim (Bool-cases (d.next == i + 1)) [
        | inl y ↦
            let rest : linked ds (i + 1) n ≡ true = rw y at test in
            let more = linked-Chain ds (i + 1) n last rest (ap (get_elem? ds) (omega arith) ∙ e) in
            (refl, (d, found, (((==_iff d.next (i + 1)).0 y), more.1)))
        | inr w ↦ let never : false ≡ true = rw w at test in absurd cc
      ]
]
  where
    no_link : get_elem? ds i ≡ none → ⊥
    no_link gone = let never : false ≡ true = rw (gone, linked) at h in cc

-- A new queue has all of its 64 descriptors on the free list, in order.
pub new-IsFree : IsFree Virtqueue.new (count_up 0 64)
unfolding Virtqueue.new linked
new-IsFree = record {
  chained = linked-Chain Virtqueue.new.descriptors 0 63 empty_desc refl refl;
  distinct = count_up-Distinct 0 64;
  counted = refl;
  few = omega arith;
  size = refl;
  ring = refl;
}
