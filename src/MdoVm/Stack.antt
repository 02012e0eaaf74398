-- ===== src/MdoVm/Stack.antt =====
-- `MictStack` of kernel/src/mdo_vm.rs as a bounded list, newest hash first.
use polymorph_os.Prelude.{ℕ, zero, suc, ◌-◌, ◌≤◌, ◌<◌, ◌≡◌, refl, ap, ◌∙◌, sym, subst}
use polymorph_os.Prelude.{List, [], ◌∷◌, arith, length, get_or, set, length-set}
use polymorph_os.Prelude.{done, fail}
use polymorph_os.Prelude.{get_or-set_self, get_or-set_ne, get_elem?-eq-get_or, All}
use polymorph_os.MdoVm.{Hash, MictStack, overflow, underflow, push, pop}
use polymorph_os.MdoVm.{new_stack}

-- The hashes in the lowest `n` slots, the highest first.
abbrev pub stack_of : List Hash → ℕ → List Hash
stack_of slots zero = []
stack_of slots (suc n) = get_or slots n [] ∷ stack_of slots n

abbrev pub contents : MictStack → List Hash
contents s = stack_of s.slots s.ptr

abbrev pub IsHash : Hash → Type 0
IsHash h = length h ≡ 32

-- 32 slots, the pointer within them, and whole hashes below it.
pub record IsValid (s : MictStack) : Type 0 where
  pub size : length s.slots ≡ 32
  pub within : s.ptr ≤ 32
  pub hashes : All IsHash (contents s)

pub length-contents : (s : MictStack) → length (contents s) ≡ s.ptr
length-contents s = go s.ptr
  where
    go : (n : ℕ) → length (stack_of s.slots n) ≡ n
    go zero = refl
    go (suc n) = ap suc (go n)

-- A write at or above the window does not show in it.
stack_of-set :
    (slots : List Hash) (n i : ℕ) (h : Hash) → n ≤ i → stack_of (set slots i h) n ≡ stack_of slots n
stack_of-set slots zero i h le = refl
stack_of-set slots (suc n) i h le =
    rw (
      get_or-set_ne slots {i = i} {j = n} h [] (omega arith),
      stack_of-set slots n i h (omega arith),
    )

pub new_stack-IsValid : IsValid new_stack
unfolding new_stack
new_stack-IsValid = record { size = refl; within = omega arith; hashes = tt }

-- What `push` writes.
abbrev pub pushed : MictStack → Hash → MictStack
pushed s h = record { slots = set s.slots s.ptr h; ptr = suc s.ptr }

module _ (s : MictStack) (v : IsValid s) where
  pub push_full : (h : Hash) → 32 ≤ s.ptr → push s h ≡ fail overflow
  unfolding push
  push_full h full = ground arith

  pub push_room : (h : Hash) → s.ptr < 32 → push s h ≡ done (pushed s h)
  unfolding push
  push_room h room = ground (arith, v.size)

  pub contents-pushed : (h : Hash) → s.ptr < 32 → contents (pushed s h) ≡ h ∷ contents s
  contents-pushed h room = rw (
    get_or-set_self s.slots s.ptr h [] (omega (arith, v.size)),
    stack_of-set s.slots s.ptr s.ptr h (omega arith),
  )

  pub pushed-IsValid : (h : Hash) → IsHash h → s.ptr < 32 → IsValid (pushed s h)
  pushed-IsValid h ih room = record {
    size = length-set s.slots s.ptr h ∙ v.size;
    within = omega arith;
    hashes = subst (All IsHash) (sym (contents-pushed h room)) (ih, v.hashes);
  }

  pub pop_empty : contents s ≡ [] → pop s ≡ fail underflow
  unfolding pop
  pop_empty e = let z : s.ptr ≡ 0 = sym (length-contents s) ∙ ap length e in ground (arith, z)

  abbrev pub popped : MictStack
  popped = record s { ptr = s.ptr - 1 }

  contents-suc : (n : ℕ) → s.ptr ≡ suc n → contents s ≡ get_or s.slots n [] ∷ stack_of s.slots n
  contents-suc n e = ap (stack_of s.slots) e

  pub pop_cons :
      (h : Hash) (r : List Hash)
      → contents s ≡ h ∷ r
      → (pop s ≡ done (h, popped)) × (contents popped ≡ r) × IsHash h × IsValid popped
  unfolding pop
  pop_cons h r e =
      let n : ℕ = s.ptr - 1 in
      let p : s.ptr ≡ suc n = omega (arith, length-contents s, ap length e) in
      let top : get_or s.slots n [] ≡ h = ground (arith, e, contents-suc n p) in
      let rest : stack_of s.slots n ≡ r = ground (arith, e, contents-suc n p) in
      let all : All IsHash (h ∷ r) = rw e at v.hashes in
      (
        ground (arith, p, top, get_elem?-eq-get_or s.slots n [] (omega (arith, v.size))),
        rest,
        all.0,
        record { size = v.size; within = omega arith; hashes = rw rest all.1 },
      )

-- `pop` undoes `push`: on a valid stack with room, for a whole hash, `push` answers a valid stack
-- that holds the hash on top of the old contents, and `pop` then gives back the hash and a stack
-- with the old contents; with no room `push` answers `overflow`.
pub pop-push :
    (s : MictStack) (h : Hash)
    → IsValid s
    → IsHash h
    → (32 ≤ s.ptr → push s h ≡ fail overflow)
      × (s.ptr < 32
          → (s' : MictStack) × (s'' : MictStack) × (push s h ≡ done s')
            × IsValid s'
            × (contents s' ≡ h ∷ contents s)
            × (pop s' ≡ done (h, s''))
            × (contents s'' ≡ contents s))
pop-push s h v ih = (
  push_full s v h,
  λ room.
      let v' = pushed-IsValid s v h ih room in
      let c = contents-pushed s v h room in
      let p = pop_cons (pushed s h) v' h (contents s) c in
      (pushed s h, popped (pushed s h) v', push_room s v h room, v', c, p.0, p.1),
)
