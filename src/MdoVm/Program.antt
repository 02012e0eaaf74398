-- ===== src/MdoVm/Program.antt =====
-- What bytecode means: a list of instructions, run over a bounded list of hashes. `decode` reads the
-- bytes of kernel/src/mdo_vm.rs once, from the front, and `interpret` has no program counter, no
-- array and no fuel; `execute_mict_check` is measured against the two.
use polymorph_os.Prelude.{ℕ, zero, suc, not, List, [], ◌∷◌, Option, none, some, ltb}
use polymorph_os.Prelude.{leb, ◌==◌, if◌then◌else◌, Run, done, fail, Bytes, bytes_eq, length, take}
use polymorph_os.Prelude.{drop, get_or}
use polymorph_os.MdoVm.{
  Hash, MdoContext, variable, bool_hash, op_push_var, op_push_const_hash, op_eq,
}
use polymorph_os.MdoVm.{op_neq, op_assert_or_dissonance, op_halt_ok}

pub data Instr : Type 0 where
  push_var : ℕ → Instr
  push_const_hash : Hash → Instr
  compare_eq : Instr
  compare_neq : Instr
  assert_or_dissonance : ℕ → Instr
  halt_ok : Instr
  -- an operand is cut off
  malformed : Instr
  illegal : Instr

unfoldable pub operand : (ℕ → Instr) → Bytes → Instr × Option Bytes
operand make [] = (malformed, none)
operand make (b ∷ bs) = (make b, some bs)

-- The instruction that starts with `opcode`, and the bytes behind it unless decoding ends there.
unfoldable pub decode_one : ℕ → Bytes → Instr × Option Bytes
decode_one opcode bytes =
    if opcode == op_push_var
    then operand push_var bytes
    else if opcode == op_push_const_hash
    then (if ltb (length bytes) 32
        then (malformed, none)
        else (push_const_hash (take 32 bytes), some (drop 32 bytes)))
    else if opcode == op_eq
    then (compare_eq, some bytes)
    else if opcode == op_neq
    then (compare_neq, some bytes)
    else if opcode == op_assert_or_dissonance
    then operand assert_or_dissonance bytes
    else if opcode == op_halt_ok
    then (halt_ok, some bytes)
    else (illegal, none)

unfoldable pub decode : ℕ → Bytes → List Instr
decode zero bytes = []
decode (suc fuel) [] = []
decode (suc fuel) (opcode ∷ bytes) =
    let (i, more) = decode_one opcode bytes in
    elim more [ none ↦ i ∷ [] | some rest ↦ i ∷ decode fuel rest ]

unfoldable pub interpret : MdoContext → List Hash → List Instr → Run ℕ (Unit {0})
interpret ctx st [] = fail 0xFB
interpret ctx st (push_var id ∷ is) = elim (variable ctx id) [
  | none ↦ fail 0xFE
  | some h ↦ if leb 32 (length st) then fail 0xFD else interpret ctx (h ∷ st) is
]
interpret ctx st (push_const_hash h ∷ is) =
    if leb 32 (length st) then fail 0xFD else interpret ctx (h ∷ st) is
interpret ctx (a ∷ b ∷ st) (compare_eq ∷ is) = interpret ctx (bool_hash (bytes_eq a b) ∷ st) is
interpret ctx st (compare_eq ∷ is) = fail 0xFD
interpret ctx (a ∷ b ∷ st) (compare_neq ∷ is) =
    interpret ctx (bool_hash (not (bytes_eq a b)) ∷ st) is
interpret ctx st (compare_neq ∷ is) = fail 0xFD
interpret ctx [] (assert_or_dissonance code ∷ is) = fail 0xFD
interpret ctx (a ∷ st) (assert_or_dissonance code ∷ is) =
    if get_or a 0 0 == 0 then fail code else interpret ctx st is
interpret ctx st (halt_ok ∷ is) = done tt
interpret ctx st (malformed ∷ is) = fail 0xFF
interpret ctx st (illegal ∷ is) = fail 0xFC
