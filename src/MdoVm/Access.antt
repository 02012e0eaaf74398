-- ===== src/MdoVm/Access.antt =====
-- What a caller of kernel/src/mdo_vm.rs may rely on: an answer, and no access without `HALT_OK`.
use polymorph_os.Prelude.{ℕ, zero, suc, ◌+◌, ◌≡◌, ap, ◌∙◌, sym, Bool, subst, not}
use polymorph_os.Prelude.{List, [], ◌∷◌, ◌⊎◌, arith, length, get_or, get_elem?, true, false}
use polymorph_os.Prelude.{done, fail, leb, ◌==◌, if◌then◌else◌, inl, inr}
use polymorph_os.Prelude.{Run, none, some, drop, get_elem?-drop, Bytes, Returns}
use polymorph_os.Prelude.{Option-cases, bytes_eq}
use polymorph_os.MdoVm.{MdoContext, Hash, variable, execute_mict_check, op_halt_ok, bool_hash}
use polymorph_os.MdoVm.Program.{Instr, decode, decode_one, interpret, push_var, push_const_hash}
use polymorph_os.MdoVm.Program.{compare_eq, compare_neq, assert_or_dissonance, halt_ok, malformed}
use polymorph_os.MdoVm.Program.{illegal, operand}
use polymorph_os.MdoVm.Rounds.{IsContext}
use polymorph_os.MdoVm.Refines.{execute_mict_check_refines}

Returns-if :
    (b : Bool) (e : ℕ) (r : Run ℕ (Unit {0})) → Returns r → Returns (if b then fail e else r)
Returns-if true e r h = tt
Returns-if false e r h = h

interpret-Returns :
    (ctx : MdoContext) (is : List Instr) (st : List Hash) → Returns (interpret ctx st is)
unfolding interpret
interpret-Returns ctx [] st = tt
interpret-Returns ctx (push_var id ∷ is) st = elim (Option-cases (variable ctx id)) [
  | inl n ↦ rw (interpret, n) tt
  | inr (h, y) ↦ rw (interpret, y) (Returns-if _ _ _ (interpret-Returns ctx is (h ∷ st)))
]
interpret-Returns ctx (push_const_hash h ∷ is) st =
    Returns-if (leb 32 (length st)) 0xFD _ (interpret-Returns ctx is (h ∷ st))
interpret-Returns ctx (compare_eq ∷ is) [] = tt
interpret-Returns ctx (compare_eq ∷ is) (a ∷ []) = tt
interpret-Returns ctx (compare_eq ∷ is) (a ∷ b ∷ st) =
    interpret-Returns ctx is (bool_hash (bytes_eq a b) ∷ st)
interpret-Returns ctx (compare_neq ∷ is) [] = tt
interpret-Returns ctx (compare_neq ∷ is) (a ∷ []) = tt
interpret-Returns ctx (compare_neq ∷ is) (a ∷ b ∷ st) =
    interpret-Returns ctx is (bool_hash (not (bytes_eq a b)) ∷ st)
interpret-Returns ctx (assert_or_dissonance code ∷ is) [] = tt
interpret-Returns ctx (assert_or_dissonance code ∷ is) (a ∷ st) =
    Returns-if (get_or a 0 0 == 0) code _ (interpret-Returns ctx is st)
interpret-Returns ctx (halt_ok ∷ is) st = tt
interpret-Returns ctx (malformed ∷ is) st = tt
interpret-Returns ctx (illegal ∷ is) st = tt

-- For every bytecode and every context whose hashes have 32 bytes, `execute_mict_check` comes back
-- with an answer: its loop ends, and no access to the bytecode, to the stack or to a hash is out of
-- range.
pub execute_mict_check-Returns :
    (bytecode : Bytes) (ctx : MdoContext)
    → IsContext ctx
    → Returns (execute_mict_check bytecode ctx)
execute_mict_check-Returns bytecode ctx c =
    subst Returns (sym (execute_mict_check_refines bytecode ctx c)) (interpret-Returns ctx _ [])

abbrev IsHalt : Instr → Type 0
IsHalt halt_ok = Unit
IsHalt _ = ⊥

abbrev HasHalt : List Instr → Type 0
HasHalt [] = ⊥
HasHalt (halt_ok ∷ is) = Unit
HasHalt (_ ∷ is) = HasHalt is

not_fail_if :
    (b : Bool) (e : ℕ) (r : Run ℕ (Unit {0})) → (if b then fail e else r) ≡ done tt → r ≡ done tt
not_fail_if true e r h = cc
not_fail_if false e r h = h

granted-HasHalt :
    (ctx : MdoContext) (is : List Instr) (st : List Hash)
    → interpret ctx st is ≡ done tt
    → HasHalt is
unfolding interpret
granted-HasHalt ctx [] st h = cc
granted-HasHalt ctx (push_var id ∷ is) st h = elim (Option-cases (variable ctx id)) [
  | inl n ↦ absurd (refused n)
  | inr (k, y) ↦
      granted-HasHalt ctx is (k ∷ st) (not_fail_if (leb 32 (length st)) 0xFD _ (known k y))
]
  where
    refused : variable ctx id ≡ none → ⊥
    refused n = ground (arith, h)

    known :
        (k : Hash)
        → variable ctx id ≡ some k
        → (if leb 32 (length st) then fail 0xFD else interpret ctx (k ∷ st) is) ≡ done tt
    known k y = rw (interpret, y) at h
granted-HasHalt ctx (push_const_hash k ∷ is) st h =
    granted-HasHalt ctx is (k ∷ st) (not_fail_if (leb 32 (length st)) 0xFD _ h)
granted-HasHalt ctx (compare_eq ∷ is) [] h = cc
granted-HasHalt ctx (compare_eq ∷ is) (a ∷ []) h = cc
granted-HasHalt ctx (compare_eq ∷ is) (a ∷ b ∷ st) h =
    granted-HasHalt ctx is (bool_hash (bytes_eq a b) ∷ st) h
granted-HasHalt ctx (compare_neq ∷ is) [] h = cc
granted-HasHalt ctx (compare_neq ∷ is) (a ∷ []) h = cc
granted-HasHalt ctx (compare_neq ∷ is) (a ∷ b ∷ st) h =
    granted-HasHalt ctx is (bool_hash (not (bytes_eq a b)) ∷ st) h
granted-HasHalt ctx (assert_or_dissonance code ∷ is) [] h = cc
granted-HasHalt ctx (assert_or_dissonance code ∷ is) (a ∷ st) h =
    granted-HasHalt ctx is st (not_fail_if (get_or a 0 0 == 0) code _ h)
granted-HasHalt ctx (halt_ok ∷ is) st h = tt
granted-HasHalt ctx (malformed ∷ is) st h = cc
granted-HasHalt ctx (illegal ∷ is) st h = cc

-- One decoded instruction: it is `HALT_OK` only at that opcode, and the rest are later bytes.
decode_one-halt :
    (opcode : ℕ) (bytes : Bytes) → IsHalt (decode_one opcode bytes).0 → opcode ≡ op_halt_ok
unfolding decode_one operand
decode_one-halt opcode [] h = ground arith
decode_one-halt opcode (b ∷ bs) h = ground arith

decode_one-rest :
    (opcode : ℕ) (bytes rest : Bytes)
    → (decode_one opcode bytes).1 ≡ some rest
    → (rest ≡ drop 0 bytes) ⊎ (rest ≡ drop 1 bytes) ⊎ (rest ≡ drop 32 bytes)
unfolding decode_one operand
decode_one-rest opcode [] rest h = ground arith
decode_one-rest opcode (b ∷ bs) rest h = ground arith

-- `bytes` holds the opcode `HALT_OK` at or behind position `p`.
abbrev HaltFrom : Bytes → Type 0
HaltFrom bytes = (i : ℕ) × (get_elem? bytes i ≡ some op_halt_ok)

halt_behind : (b : ℕ) (bytes : Bytes) (k : ℕ) → HaltFrom (drop k bytes) → HaltFrom (b ∷ bytes)
halt_behind b bytes k (i, e) = (suc (k + i), sym (get_elem?-drop bytes k i) ∙ e)

IsHalt-or : (i : Instr) (is : List Instr) → HasHalt (i ∷ is) → IsHalt i ⊎ HasHalt is
IsHalt-or halt_ok is h = inl tt
IsHalt-or (push_var n) is h = inr h
IsHalt-or (push_const_hash n) is h = inr h
IsHalt-or compare_eq is h = inr h
IsHalt-or compare_neq is h = inr h
IsHalt-or (assert_or_dissonance n) is h = inr h
IsHalt-or malformed is h = inr h
IsHalt-or illegal is h = inr h

HasHalt-decode : (g : ℕ) (bytes : Bytes) → HasHalt (decode g bytes) → HaltFrom bytes
unfolding decode
HasHalt-decode zero bytes h = absurd h
HasHalt-decode (suc g) [] h = absurd h
HasHalt-decode (suc g) (opcode ∷ bytes) h = elim (Option-cases (decode_one opcode bytes).1) [
  | inl n ↦ elim (IsHalt-or (decode_one opcode bytes).0 [] (last n)) [
    | inl now ↦ (0, ap some (decode_one-halt opcode bytes now))
    | inr later ↦ absurd later
  ]
  | inr (rest, y) ↦ elim (IsHalt-or (decode_one opcode bytes).0 (decode g rest) (more rest y)) [
    | inl now ↦ (0, ap some (decode_one-halt opcode bytes now))
    | inr later ↦ elim (decode_one-rest opcode bytes rest y) [
      | inl e ↦ halt_behind opcode bytes 0 (subst HaltFrom e (HasHalt-decode g rest later))
      | inr (inl e) ↦ halt_behind opcode bytes 1 (subst HaltFrom e (HasHalt-decode g rest later))
      | inr (inr e) ↦ halt_behind opcode bytes 32 (subst HaltFrom e (HasHalt-decode g rest later))
    ]
  ]
]
  where
    last : (decode_one opcode bytes).1 ≡ none → HasHalt ((decode_one opcode bytes).0 ∷ [])
    last n = rw (decode, n) at h

    more :
        (rest : Bytes)
        → (decode_one opcode bytes).1 ≡ some rest
        → HasHalt ((decode_one opcode bytes).0 ∷ decode g rest)
    more rest y = rw (decode, y) at h

-- For a context whose hashes have 32 bytes, access is granted only by a bytecode that holds the
-- opcode `HALT_OK`.
pub granted_needs_halt :
    (bytecode : Bytes) (ctx : MdoContext)
    → IsContext ctx
    → execute_mict_check bytecode ctx ≡ done tt
    → (i : ℕ) × (get_elem? bytecode i ≡ some op_halt_ok)
granted_needs_halt bytecode ctx c h =
    HasHalt-decode (length bytecode) bytecode
      (granted-HasHalt ctx _ [] (sym (execute_mict_check_refines bytecode ctx c) ∙ h))
