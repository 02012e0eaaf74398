-- ===== src/MdoVm/Refines.antt =====
-- `execute_mict_check` of kernel/src/mdo_vm.rs runs the decoded program, and always comes back.
use polymorph_os.Prelude.{ℕ, zero, suc, ◌+◌, ◌≤◌, ◌<◌, ◌≡◌, refl, ap, ◌∙◌, sym}
use polymorph_os.Prelude.{[], ◌∷◌, arith, length, get_elem?, true, false, Option}
use polymorph_os.Prelude.{done, fail, ltb, List-cases, inl, inr}
use polymorph_os.Prelude.{
  Run, panic, spin, none, some, ◌>>=◌, drop, length-drop, get_elem?-drop, Bytes,
}
use polymorph_os.MdoVm.{MdoContext, MictStack, Next, halt, go, exec_op, check_loop}
use polymorph_os.MdoVm.{execute_mict_check, new_stack}
use polymorph_os.MdoVm.Stack.{IsValid, contents, new_stack-IsValid}
use polymorph_os.MdoVm.Program.{Instr, decode, decode_one, interpret}
use polymorph_os.MdoVm.Rounds.{IsContext, Agrees, exec_op-Agrees}

module _ (bytecode : Bytes) (ctx : MdoContext) (c : IsContext ctx) where
  -- The loop from `pc` on means the program that stands there.
  abbrev Means : ℕ → ℕ → Type 0
  Means fuel g =
      (s : MictStack) (pc : ℕ)
      → IsValid s
      → 0 < fuel
      → length bytecode < pc + fuel
      → length bytecode ≤ pc + g
      → check_loop bytecode ctx fuel s pc ≡ interpret ctx (contents s) (decode g (drop pc bytecode))

  round :
      (fuel g pc : ℕ) (s : MictStack) (i : Instr) (more : Option Bytes) (r : Run ℕ Next)
      → Agrees bytecode ctx (contents s) pc i more r
      → Means fuel g
      → pc < length bytecode
      → length bytecode < pc + suc fuel
      → length bytecode ≤ pc + suc g
      → (r >>= λ next. elim next [
        | halt ↦ done tt
        | go s' pc' ↦ check_loop bytecode ctx fuel s' pc'
      ])
        ≡ interpret ctx (contents s) (elim more [ none ↦ i ∷ [] | some rest ↦ i ∷ decode g rest ])
  round fuel g pc s i more (done (go s' pc')) a ih lt lf lg =
      rw (a.0, a.3) (ih s' pc' a.2 (omega arith) (omega (arith, a.1)) (omega (arith, a.1)))
  round fuel g pc s i none (done halt) a ih lt lf lg = sym (a [])
  round fuel g pc s i (some rest) (done halt) a ih lt lf lg = sym (a (decode g rest))
  round fuel g pc s i none (fail e) a ih lt lf lg = sym (a [])
  round fuel g pc s i (some rest) (fail e) a ih lt lf lg = sym (a (decode g rest))
  round fuel g pc s i more panic a ih lt lf lg = absurd a
  round fuel g pc s i more spin a ih lt lf lg = absurd a

  decode-nil : (g : ℕ) → decode g [] ≡ []
  unfolding decode
  decode-nil zero = refl
  decode-nil (suc g) = refl

  past_end :
      (fuel g pc : ℕ) (s : MictStack)
      → drop pc bytecode ≡ []
      → check_loop bytecode ctx (suc fuel) s pc
        ≡ interpret ctx (contents s) (decode g (drop pc bytecode))
  unfolding check_loop interpret
  past_end fuel g pc s over =
      let t : ltb pc (length bytecode) ≡ false =
        ground (arith, length-drop pc bytecode, ap length over) in
      rw (t, over, decode-nil g)

  check_loop-Means : (fuel g : ℕ) → Means fuel g
  unfolding check_loop decode
  check_loop-Means zero g s pc v pos lf lg = absurd (omega arith)
  check_loop-Means (suc fuel) zero s pc v pos lf lg =
      past_end fuel zero pc s (elim (List-cases (drop pc bytecode)) [
        | inl over ↦ over
        | inr (opcode, bytes, e) ↦ absurd (omega (arith, length-drop pc bytecode, ap length e))
      ])
  check_loop-Means (suc fuel) (suc g) s pc v pos lf lg = elim (List-cases (drop pc bytecode)) [
    | inl over ↦ past_end fuel (suc g) pc s over
    | inr (opcode, bytes, e) ↦
        let lt : pc < length bytecode = omega (arith, length-drop pc bytecode, ap length e) in
        let t : ltb pc (length bytecode) ≡ true = ground arith in
        let z : pc + 0 ≡ pc = omega arith in
        let look : get_elem? bytecode pc ≡ some opcode =
          ap (get_elem? bytecode) (sym z)
          ∙ sym (get_elem?-drop bytecode pc 0)
          ∙ ap (λ l. get_elem? l 0) e in
        rw (t, look, e)
          (round fuel g pc s (decode_one opcode bytes).0 (decode_one opcode bytes).1
            (exec_op bytecode ctx opcode s pc) (exec_op-Agrees bytecode ctx c s v pc opcode bytes e)
            (check_loop-Means fuel g) lt lf lg)
  ]

-- The meaning of a bytecode: its decoded program, run on the empty stack.
abbrev pub meaning : Bytes → MdoContext → Run ℕ (Unit {0})
meaning bytecode ctx = interpret ctx [] (decode (length bytecode) bytecode)

-- For every bytecode and every context whose hashes have 32 bytes, `execute_mict_check` answers what
-- the decoded program means on an empty stack: access granted, or the same error code. The opcodes are
-- those that mdo_vm.rs executes; every other one, also PUSH_CONST_INT, OR, AND and EMIT_STATE of
-- MDO_VM.md, is illegal and means the error code 0xFC.
pub execute_mict_check_refines :
    (bytecode : Bytes) (ctx : MdoContext)
    → IsContext ctx
    → execute_mict_check bytecode ctx ≡ meaning bytecode ctx
unfolding execute_mict_check new_stack
execute_mict_check_refines bytecode ctx c =
    check_loop-Means bytecode ctx c (length bytecode + 1) (length bytecode) new_stack 0
      new_stack-IsValid (omega arith) (omega arith) (omega arith)
