-- ===== src/MdoVm/Rounds.antt =====
-- One round of the loop of kernel/src/mdo_vm.rs does what the decoded instruction means.
use polymorph_os.Prelude.{ℕ, suc, ◌+◌, ◌-◌, ◌<◌, ◌≡◌, refl, ap, ◌∙◌, sym, Bool, subst, not}
use polymorph_os.Prelude.{
  List, [], ◌∷◌, arith, List-cases, length, get_or, get_elem?, true, false, Option,
}
use polymorph_os.Prelude.{
  done, fail, ltb, leb, ◌==◌, if◌then◌else◌, Bool-cases, Option-cases, inl, inr, Run, panic,
}
use polymorph_os.Prelude.{spin, none, some, ◌>>=◌, map_err, drop, take, length-drop, length-take}
use polymorph_os.Prelude.{get_elem?-drop, drop-drop, get_elem?-eq-get_or, Bytes, bytes_eq}
use polymorph_os.Prelude.{to_le_bytes}
use polymorph_os.MdoVm.{Hash, MdoContext, MictStack, Next, halt, go, variable, push, bool_hash}
use polymorph_os.MdoVm.{exec_push_var, exec_push_const_hash, exec_compare, exec_assert, exec_op}
use polymorph_os.MdoVm.{op_push_var, op_push_const_hash, op_eq, op_neq, op_assert_or_dissonance}
use polymorph_os.MdoVm.{op_halt_ok, push_bool, pop_bool}
use polymorph_os.MdoVm.Stack.{IsHash, IsValid, contents, pushed, push_full, push_room, popped}
use polymorph_os.MdoVm.Stack.{contents-pushed, pushed-IsValid, pop_empty, pop_cons, length-contents}
use polymorph_os.MdoVm.Program.{Instr, push_var, push_const_hash, compare_eq, compare_neq}
use polymorph_os.MdoVm.Program.{assert_or_dissonance, malformed, decode_one}
use polymorph_os.MdoVm.Program.{operand, interpret}

pub record IsContext (ctx : MdoContext) : Type 0 where
  pub requestor : IsHash ctx.requestor_id_hash
  pub action : IsHash ctx.action_hash
  pub owner : IsHash ctx.owner_id_hash

variable-IsHash :
    (ctx : MdoContext) → IsContext ctx → (id : ℕ) (h : Hash) → variable ctx id ≡ some h → IsHash h
unfolding variable to_le_bytes
variable-IsHash ctx c id h e = ground (arith, c.requestor, c.action, c.owner)

module _ (bytecode : Bytes) (ctx : MdoContext) where
  -- What a round does at `pc` is what the instruction `i` means on the stack `st`; if it goes on, it
  -- does so further on, at the bytes behind the instruction.
  abbrev pub Agrees : List Hash → ℕ → Instr → Option Bytes → Run ℕ Next → Type 0
  Agrees st pc i more (fail c) = (is : List Instr) → interpret ctx st (i ∷ is) ≡ fail c
  Agrees st pc i more (done halt) = (is : List Instr) → interpret ctx st (i ∷ is) ≡ done tt
  Agrees st pc i more (done (go s pc')) =
      (more ≡ some (drop pc' bytecode))
      × (pc < pc')
      × IsValid s
      × ((is : List Instr) → interpret ctx st (i ∷ is) ≡ interpret ctx (contents s) is)
  Agrees st pc i more panic = ⊥
  Agrees st pc i more spin = ⊥

  module _ (s : MictStack) (v : IsValid s) (pc : ℕ) (i : Instr) where
    -- A push whose meaning is the bounded push.
    push-Agrees :
        (h : Hash) (pc' : ℕ)
        → IsHash h
        → pc < pc'
        → ((is : List Instr)
            → interpret ctx (contents s) (i ∷ is) ≡ (
                if leb 32 (length (contents s))
                then fail 0xFD
                else interpret ctx (h ∷ contents s) is))
        → Agrees
            (contents s)
            pc
            i
            (some (drop pc' bytecode))
            (map_err 0xFD (push s h) >>= λ stack. done (go stack pc'))
    push-Agrees h pc' ih lt means = elim (Bool-cases (ltb s.ptr 32)) [
      | inl room ↦ rw (push_room s v h (ground arith)) (
        refl,
        lt,
        pushed-IsValid s v h ih (ground arith),
        λ is.
            means is
            ∙ ground (arith, length-contents s)
            ∙ ap (λ st. interpret ctx st is) (sym (contents-pushed s v h (ground arith))),
      )
      | inr full ↦
          rw (push_full s v h (ground arith)) (λ is. means is ∙ ground (arith, length-contents s))
    ]

  -- The bytes from `pc` on are `opcode ∷ bytes`.
  module _ (pc opcode : ℕ) (bytes : Bytes) (e : drop pc bytecode ≡ opcode ∷ bytes) where
    size : pc + 1 + length bytes ≡ length bytecode
    size = omega (arith, length-drop pc bytecode, ap length e)

    ahead : (i : ℕ) → get_elem? bytecode (pc + suc i) ≡ get_elem? bytes i
    ahead i = sym (get_elem?-drop bytecode pc (suc i)) ∙ ap (λ l. get_elem? l (suc i)) e

    behind : (i : ℕ) → drop (pc + suc i) bytecode ≡ drop i bytes
    behind i = sym (drop-drop bytecode pc (suc i)) ∙ ap (drop (suc i)) e

  module _ (c : IsContext ctx) (s : MictStack) (v : IsValid s) (pc opcode : ℕ) where
    abbrev push_then : Hash → ℕ → Run ℕ Next
    push_then h pc' = map_err 0xFD (push s h) >>= λ stack. done (go stack pc')

    abbrev pub Arm : (Bytes → Instr × Option Bytes) → Run ℕ Next → Type 0
    Arm decodes run =
        (bytes : Bytes)
        → drop pc bytecode ≡ opcode ∷ bytes
        → Agrees (contents s) pc (decodes bytes).0 (decodes bytes).1 run

    exec_push_var-Agrees : Arm (operand push_var) (exec_push_var bytecode ctx s pc)
    unfolding exec_push_var operand interpret
    exec_push_var-Agrees [] e =
        let short : leb (length bytecode) (pc + 1) ≡ true = ground (arith, size pc opcode [] e) in
        rw short (λ is. refl)
    exec_push_var-Agrees (b ∷ bs) e =
        let long : leb (length bytecode) (pc + 1) ≡ false =
          ground (arith, size pc opcode (b ∷ bs) e) in
        let look = ahead pc opcode (b ∷ bs) e 0 in
        elim (Option-cases (variable ctx b)) [
          | inl n ↦
              let run : exec_push_var bytecode ctx s pc ≡ fail 0xFE = ground (arith, look, n) in
              subst (Agrees (contents s) pc (push_var b) (some bs)) (sym run)
                (λ is. rw (interpret, n))
          | inr (h, y) ↦
              let run : exec_push_var bytecode ctx s pc ≡ push_then h (pc + 2) =
                ground (arith, look, y) in
              subst (Agrees (contents s) pc (push_var b) (some bs)) (sym run) (
                rw (← behind pc opcode (b ∷ bs) e 1) (
                  push-Agrees s v pc (push_var b) h (pc + 2) (variable-IsHash ctx c b h y)
                    (omega arith) (λ is. rw (interpret, y))))
        ]

    exec_push_const_hash-Agrees :
        Arm
          (λ bytes.
            if ltb (length bytes) 32
            then (malformed, none)
            else (push_const_hash (take 32 bytes), some (drop 32 bytes)))
          (exec_push_const_hash bytecode ctx s pc)
    unfolding exec_push_const_hash interpret
    exec_push_const_hash-Agrees bytes e = elim (Bool-cases (ltb (length bytes) 32)) [
      | inl short ↦
          let t : leb (length bytecode) (pc + 32) ≡ true = ground (arith, size pc opcode bytes e) in
          rw (short, t) (λ is. refl)
      | inr long ↦
          let t : leb (length bytecode) (pc + 32) ≡ false =
            ground (arith, size pc opcode bytes e) in
          let n : pc + 33 - (pc + 1) ≡ 32 = omega arith in
          let n1 : leb (pc + 1) (pc + 33) ≡ true = ground arith in
          let n2 : leb (pc + 33) (length bytecode) ≡ true =
            ground (arith, size pc opcode bytes e) in
          let run : exec_push_const_hash bytecode ctx s pc ≡ push_then (take 32 bytes) (pc + 33) =
            rw (t, n1, n2, n, behind pc opcode bytes e 0) in
          rw long (
            subst (Agrees (contents s) pc (push_const_hash (take 32 bytes)) (some (drop 32 bytes)))
              (sym run)
              (rw (← behind pc opcode bytes e 32) (
                push-Agrees s v pc (push_const_hash (take 32 bytes)) (take 32 bytes) (pc + 33)
                  (length-take 32 bytes ∙ ground arith) (omega arith) (λ is. refl))))
    ]

    exec_assert-Agrees : Arm (operand assert_or_dissonance) (exec_assert bytecode ctx s pc)
    unfolding exec_assert operand interpret pop_bool
    exec_assert-Agrees [] e =
        let short : leb (length bytecode) (pc + 1) ≡ true = ground (arith, size pc opcode [] e) in
        rw short (λ is. refl)
    exec_assert-Agrees (b ∷ bs) e =
        let long : leb (length bytecode) (pc + 1) ≡ false =
          ground (arith, size pc opcode (b ∷ bs) e) in
        let look = ahead pc opcode (b ∷ bs) e 0 in
        elim (List-cases (contents s)) [
          | inl none_left ↦
              let run : exec_assert bytecode ctx s pc ≡ fail 0xFD =
                rw (long, look, pop_bool, pop_empty s v none_left) in
              subst (Agrees (contents s) pc (assert_or_dissonance b) (some bs)) (sym run)
                (λ is. rw none_left)
          | inr (h, r, some_left) ↦
              let p = pop_cons s v h r some_left in
              let first = get_elem?-eq-get_or h 0 0 (omega (arith, p.2)) in
              let run : exec_assert bytecode ctx s pc ≡ (
                  if not (not (get_or h 0 0 == 0))
                  then fail b
                  else done (go (popped s v) (pc + 2))) =
                rw (long, look, pop_bool, p.0, first) in
              subst (Agrees (contents s) pc (assert_or_dissonance b) (some bs)) (sym run)
                (elim (Bool-cases (get_or h 0 0 == 0)) [
                  | inl zeroed ↦ rw zeroed (λ is. rw (some_left, interpret, zeroed))
                  | inr other ↦ rw other (
                    ap some (sym (behind pc opcode (b ∷ bs) e 1)),
                    omega arith,
                    p.3,
                    λ is.
                        rw (some_left, interpret, other) (ap (λ st. interpret ctx st is) (sym p.1)),
                  )
                ])
        ]

    -- `exec_compare` pops two hashes and pushes what the test says.
    exec_compare-Agrees :
        (test : Bool → Bool) (i : Instr) (bytes : Bytes)
        → drop pc bytecode ≡ opcode ∷ bytes
        → ((is : List Instr) → interpret ctx [] (i ∷ is) ≡ fail 0xFD)
        → ((a : Hash) (is : List Instr) → interpret ctx (a ∷ []) (i ∷ is) ≡ fail 0xFD)
        → ((a b : Hash) (st : List Hash) (is : List Instr)
            → interpret ctx (a ∷ b ∷ st) (i ∷ is)
              ≡ interpret ctx (bool_hash (test (bytes_eq a b)) ∷ st) is)
        → Agrees (contents s) pc i (some bytes) (exec_compare bytecode ctx test s pc)
    unfolding exec_compare push_bool interpret
    exec_compare-Agrees test i bytes e on_none on_one on_two = elim (List-cases (contents s)) [
      | inl empty ↦
          let run : exec_compare bytecode ctx test s pc ≡ fail 0xFD = rw (pop_empty s v empty) in
          subst (Agrees (contents s) pc i (some bytes)) (sym run) (λ is. rw empty (on_none is))
      | inr (a, r, one) ↦
          let p = pop_cons s v a r one in
          let s1 = popped s v in
          elim (List-cases r) [
            | inl empty ↦
                let run : exec_compare bytecode ctx test s pc ≡ fail 0xFD =
                  rw (p.0, pop_empty s1 p.3 (p.1 ∙ empty)) in
                subst (Agrees (contents s) pc i (some bytes)) (sym run)
                  (λ is. rw (one, empty) (on_one a is))
            | inr (b, st, two) ↦
                let q = pop_cons s1 p.3 b st (p.1 ∙ two) in
                let s2 = popped s1 p.3 in
                let h = bool_hash (test (bytes_eq a b)) in
                let run : exec_compare bytecode ctx test s pc ≡ done (go (pushed s2 h) (pc + 1)) =
                  rw (p.0, q.0, push_room s2 q.3 h (omega (arith, v.within))) in
                let c2 = contents-pushed s2 q.3 h (omega (arith, v.within)) in
                subst (Agrees (contents s) pc i (some bytes)) (sym run) (
                  ap some (sym (behind pc opcode bytes e 0)),
                  omega arith,
                  pushed-IsValid s2 q.3 h refl (omega (arith, v.within)),
                  λ is.
                      rw (one, two)
                        (on_two a b st is
                          ∙ ap (λ l. interpret ctx l is) (sym (c2 ∙ ap (λ l. h ∷ l) q.1))),
                )
          ]
    ]

    pub exec_op-Agrees : Arm (decode_one opcode) (exec_op bytecode ctx opcode s pc)
    unfolding exec_op decode_one interpret
    exec_op-Agrees bytes e = elim (Bool-cases (opcode == op_push_var)) [
      | inl y ↦ rw y (exec_push_var-Agrees bytes e)
      | inr n1 ↦ elim (Bool-cases (opcode == op_push_const_hash)) [
        | inl y ↦ rw (n1, y) (exec_push_const_hash-Agrees bytes e)
        | inr n2 ↦ elim (Bool-cases (opcode == op_eq)) [
          | inl y ↦
              rw (n1, n2, y)
                (exec_compare-Agrees (λ b. b) compare_eq bytes e (λ is. refl) (λ a is. refl)
                  (λ a b st is. refl))
          | inr n3 ↦ elim (Bool-cases (opcode == op_neq)) [
            | inl y ↦
                rw (n1, n2, n3, y)
                  (exec_compare-Agrees not compare_neq bytes e (λ is. refl) (λ a is. refl)
                    (λ a b st is. refl))
            | inr n4 ↦ elim (Bool-cases (opcode == op_assert_or_dissonance)) [
              | inl y ↦ rw (n1, n2, n3, n4, y) (exec_assert-Agrees bytes e)
              | inr n5 ↦ elim (Bool-cases (opcode == op_halt_ok)) [
                | inl y ↦ rw (n1, n2, n3, n4, n5, y) (λ is. refl)
                | inr n6 ↦ rw (n1, n2, n3, n4, n5, n6) (λ is. refl)
              ]
            ]
          ]
        ]
      ]
    ]
