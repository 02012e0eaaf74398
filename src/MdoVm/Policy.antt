-- ===== src/MdoVm/Policy.antt =====
-- Access policies: what the machine of kernel/src/mdo_vm.rs says of the bytecode of a list of rules.
-- A rule compares two values and carries the error code for the case that the test fails.
use polymorph_os.Prelude.{ℕ, zero, suc, ◌+◌, ◌≤◌, ◌<◌, ◌≡◌, refl, ap, ◌∙◌, Bool}
use polymorph_os.Prelude.{List, [], ◌∷◌, ◌++◌, arith, length, true, false, Option}
use polymorph_os.Prelude.{done, fail, ltb, if◌then◌else◌}
use polymorph_os.Prelude.{
  Run, none, some, drop, take, Bytes, bytes_eq, All, length-append, take-append,
}
use polymorph_os.Prelude.{drop-append}
use polymorph_os.MdoVm.{MdoContext, Hash, variable, execute_mict_check}
use polymorph_os.MdoVm.{op_push_var, op_push_const_hash, op_eq, op_neq, op_assert_or_dissonance}
use polymorph_os.MdoVm.{op_halt_ok}
use polymorph_os.MdoVm.Stack.{IsHash}
use polymorph_os.MdoVm.Program.{Instr, decode, decode_one, interpret, push_var, push_const_hash}
use polymorph_os.MdoVm.Program.{compare_eq, compare_neq, assert_or_dissonance, halt_ok, malformed}
use polymorph_os.MdoVm.Program.{illegal, operand}
use polymorph_os.MdoVm.Rounds.{IsContext}
use polymorph_os.MdoVm.Refines.{execute_mict_check_refines}

pub data Value : Type 0 where
  var : ℕ → Value
  hash : Hash → Value

pub record Rule : Type 0 where
  pub left : Value
  pub right : Value
  pub wants_equal : Bool
  pub code : ℕ

abbrev pub push_value : Value → Instr
push_value (var id) = push_var id
push_value (hash h) = push_const_hash h

abbrev pub compile_rule : Rule → List Instr → List Instr
compile_rule r rest =
    push_value r.left
    ∷ push_value r.right
    ∷ (if r.wants_equal then compare_eq else compare_neq)
    ∷ assert_or_dissonance r.code
    ∷ rest

abbrev pub compile : List Rule → List Instr
compile [] = halt_ok ∷ []
compile (r ∷ rs) = compile_rule r (compile rs)

abbrev pub encode_instr : Instr → Bytes
encode_instr (push_var id) = op_push_var ∷ id ∷ []
encode_instr (push_const_hash h) = op_push_const_hash ∷ h
encode_instr compare_eq = op_eq ∷ []
encode_instr compare_neq = op_neq ∷ []
encode_instr (assert_or_dissonance code) = op_assert_or_dissonance ∷ code ∷ []
encode_instr halt_ok = op_halt_ok ∷ []
encode_instr malformed = op_push_var ∷ []
encode_instr illegal = 0 ∷ []

abbrev pub encode : List Instr → Bytes
encode [] = []
encode (i ∷ is) = encode_instr i ++ encode is

-- The values that bytecode can name: whole constants, and the four variables.
module _ (ctx : MdoContext) where
  abbrev pub value : Value → Option Hash
  value (var id) = variable ctx id
  value (hash h) = some h

  -- The first rule that fails decides, and its code is the answer.
  pub judge : Rule → Run ℕ (Unit {0}) → Option Hash → Option Hash → Run ℕ (Unit {0})
  judge rule others none right = fail 0xFE
  judge rule others (some a) none = fail 0xFE
  judge rule others (some a) (some b) =
      if bytes_eq b a
      then (if rule.wants_equal then others else fail rule.code)
      else (if rule.wants_equal then fail rule.code else others)

  pub verdict : List Rule → Run ℕ (Unit {0})
  verdict [] = done tt
  verdict (rule ∷ rules) = judge rule (verdict rules) (value rule.left) (value rule.right)

  push_value_lem :
      (v : Value) (st : List Hash) (is : List Instr)
      → length st < 32
      → interpret ctx st (push_value v ∷ is)
        ≡ elim (value v) [ none ↦ fail 0xFE | some h ↦ interpret ctx (h ∷ st) is ]
  unfolding interpret
  push_value_lem (var id) st is h = ground arith
  push_value_lem (hash k) st is h = ground arith

  compare_lem :
      (w : Bool) (a b : Hash) (code : ℕ) (is : List Instr)
      → interpret ctx
          (b ∷ a ∷ [])
          ((if w then compare_eq else compare_neq) ∷ assert_or_dissonance code ∷ is)
        ≡ (if bytes_eq b a
            then (if w then interpret ctx [] is else fail code)
            else (if w then fail code else interpret ctx [] is))
  unfolding interpret
  compare_lem true a b code is = ground arith
  compare_lem false a b code is = ground arith

  compile_lem : (rules : List Rule) → interpret ctx [] (compile rules) ≡ verdict rules
  unfolding verdict judge interpret
  compile_lem [] = refl
  compile_lem (rule ∷ rules) =
      push_value_lem rule.left [] _ (omega arith) ∙ first (compile_lem rules) (value rule.left)
    where
      tail : List Instr
      tail =
          (if rule.wants_equal then compare_eq else compare_neq)
          ∷ assert_or_dissonance rule.code
          ∷ compile rules

      second :
          interpret ctx [] (compile rules) ≡ verdict rules
          → (a : Hash) (o : Option Hash)
          → elim o as (λ _. Run ℕ (Unit {0})) [
            | none ↦ fail 0xFE
            | some b ↦ interpret ctx (b ∷ a ∷ []) tail
          ]
            ≡ judge rule (verdict rules) (some a) o
      second ih a none = refl
      second ih a (some b) = compare_lem rule.wants_equal a b rule.code (compile rules) ∙ rw (ih)

      first :
          interpret ctx [] (compile rules) ≡ verdict rules
          → (o : Option Hash)
          → elim o as (λ _. Run ℕ (Unit {0})) [
            | none ↦ fail 0xFE
            | some a ↦ interpret ctx (a ∷ []) (push_value rule.right ∷ tail)
          ]
            ≡ judge rule (verdict rules) o (value rule.right)
      first ih none = refl
      first ih (some a) =
          push_value_lem rule.right (a ∷ []) tail (omega arith) ∙ second ih a (value rule.right)

-- Instructions that have bytecode: no fault, and whole constants.
abbrev pub IsWhole : Instr → Type 0
IsWhole (push_const_hash h) = IsHash h
IsWhole malformed = ⊥
IsWhole illegal = ⊥
IsWhole _ = Unit

whole_hash :
    (h rest : Bytes)
    → IsHash h
    → decode_one op_push_const_hash (h ++ rest) ≡ (push_const_hash h, some rest)
unfolding decode_one
whole_hash h rest e =
    let long : ltb (length (h ++ rest)) 32 ≡ false = ground (arith, length-append h rest) in
    let now : take 32 (h ++ rest) ≡ h = rw (← e) (take-append h rest) in
    let z : length h + 0 ≡ 32 = omega arith in
    let then_rest : drop 32 (h ++ rest) ≡ rest = rw (← z) (drop-append h rest 0) in
    rw (long, now, then_rest)

decode_step :
    (g opcode : ℕ) (bytes rest : Bytes) (i : Instr)
    → decode_one opcode bytes ≡ (i, some rest)
    → decode (suc g) (opcode ∷ bytes) ≡ i ∷ decode g rest
unfolding decode
decode_step g opcode bytes rest i e =
    ap
      (λ (d : Instr × Option Bytes). elim d.1 as (λ _. List Instr) [
        | none ↦ d.0 ∷ []
        | some more ↦ d.0 ∷ decode g more
      ])
      e

-- Decoding reads back what encoding wrote.
decode-encode :
    (g : ℕ) (is : List Instr) → length (encode is) ≤ g → All IsWhole is → decode g (encode is) ≡ is
unfolding decode decode_one operand
decode-encode zero [] le w = refl
decode-encode (suc g) [] le w = refl
decode-encode zero (push_var n ∷ is) le w = absurd (omega arith)
decode-encode zero (push_const_hash n ∷ is) le w = absurd (omega arith)
decode-encode zero (compare_eq ∷ is) le w = absurd (omega arith)
decode-encode zero (compare_neq ∷ is) le w = absurd (omega arith)
decode-encode zero (assert_or_dissonance n ∷ is) le w = absurd (omega arith)
decode-encode zero (halt_ok ∷ is) le w = absurd (omega arith)
decode-encode g (malformed ∷ is) le w = absurd w.0
decode-encode g (illegal ∷ is) le w = absurd w.0
decode-encode (suc g) (push_var n ∷ is) le w = rw (decode-encode g is (omega arith) w.1)
decode-encode (suc g) (push_const_hash h ∷ is) le w =
    decode_step g op_push_const_hash (h ++ encode is) (encode is) (push_const_hash h)
      (whole_hash h (encode is) w.0)
    ∙ (ap (λ l. push_const_hash h ∷ l)
        (decode-encode g is (omega (arith, length-append h (encode is))) w.1))
decode-encode (suc g) (compare_eq ∷ is) le w = rw (decode-encode g is (omega arith) w.1)
decode-encode (suc g) (compare_neq ∷ is) le w = rw (decode-encode g is (omega arith) w.1)
decode-encode (suc g) (assert_or_dissonance n ∷ is) le w = rw (decode-encode g is (omega arith) w.1)
decode-encode (suc g) (halt_ok ∷ is) le w = rw (decode-encode g is (omega arith) w.1)

abbrev pub IsWholeRule : Rule → Type 0
IsWholeRule r = IsWhole (push_value r.left) × IsWhole (push_value r.right)

compile-IsWhole : (rules : List Rule) → All IsWholeRule rules → All IsWhole (compile rules)
compile-IsWhole [] w = (tt, tt)
compile-IsWhole (r ∷ rs) w =
    (w.0.0, (w.0.1, (compare-IsWhole r.wants_equal, (tt, compile-IsWhole rs w.1))))
  where
    compare-IsWhole : (b : Bool) → IsWhole (if b then compare_eq else compare_neq)
    compare-IsWhole true = tt
    compare-IsWhole false = tt

-- For every list of rules whose constants have 32 bytes, and every context whose hashes do, the
-- machine on the rules' bytecode grants access if every rule's test holds, and otherwise answers the
-- error code of the first rule that fails (0xFE if that rule names an unknown variable).
pub policy_decides :
    (rules : List Rule) (ctx : MdoContext)
    → All IsWholeRule rules
    → IsContext ctx
    → execute_mict_check (encode (compile rules)) ctx ≡ verdict ctx rules
policy_decides rules ctx w c =
    execute_mict_check_refines (encode (compile rules)) ctx c
    ∙ ap (interpret ctx [])
        (decode-encode _ (compile rules) (omega arith) (compile-IsWhole rules w))
    ∙ compile_lem ctx rules
