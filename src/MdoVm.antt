-- ===== src/MdoVm.antt =====
-- kernel/src/mdo_vm.rs: the policy machine that decides on file access.
-- `MictStack` is a record of its 32 slots and its pointer; a method returns the new stack. The
-- loop of `execute_mict_check` is `check_loop`, one arm of its match a function each, on fuel: a
-- round moves the program counter on, so one round more than there are bytes is enough.
pub mod Stack
pub mod Program
pub mod Rounds
pub mod Refines
pub mod Access
pub mod Policy
mod Tests
use polymorph_os.Prelude.{ℕ, zero, suc, ◌+◌, ◌-◌, ◌≤◌, ◌<◌, ◌≡◌, refl, Bool, true, false, not}
use polymorph_os.Prelude.{List, [], ◌∷◌, ◌++◌, Option, none, some, ltb, leb, ◌==◌, if◌then◌else◌}
use polymorph_os.Prelude.{Run, done, fail, panic, spin, ◌>>=◌, read_at, write_at, map_err}
use polymorph_os.Prelude.{Bytes, slice, bytes_eq, to_le_bytes, length, replicate}

-- `[u8; 32]`
abbrev pub Hash : Type 0
Hash = Bytes

pub record MdoContext : Type 0 where
  pub requestor_id_hash : Hash
  pub action_hash : Hash
  pub owner_id_hash : Hash
  pub status : ℕ

pub record MictStack : Type 0 where
  pub slots : List Hash
  pub ptr : ℕ

pub data StackError : Type 0 where
  overflow underflow : StackError

abbrev pub zero_hash : Hash
zero_hash = replicate 32 0

pub new_stack : MictStack
new_stack = record { slots = replicate 32 zero_hash; ptr = 0 }

pub push : MictStack → Hash → Run StackError MictStack
push s val =
    if leb 32 s.ptr
    then fail overflow
    else (write_at s.slots s.ptr val >>= λ slots. done (record { slots = slots; ptr = s.ptr + 1 }))

pub pop : MictStack → Run StackError (Hash × MictStack)
pop s =
    if s.ptr == 0
    then fail underflow
    else (read_at s.slots (s.ptr - 1) >>= λ val. done (val, record s { ptr = s.ptr - 1 }))

-- `val[0] = 1` on the zeroed array
abbrev pub bool_hash : Bool → Hash
bool_hash b = (if b then 1 else 0) ∷ replicate 31 0

pub push_bool : MictStack → Bool → Run StackError MictStack
push_bool s b = push s (bool_hash b)

pub pop_bool : MictStack → Run StackError (Bool × MictStack)
pop_bool s = pop s >>= λ (val, s'). read_at val 0 >>= λ b. done (not (b == 0), s')

abbrev pub op_push_var : ℕ
op_push_var = 0x10

abbrev pub op_push_const_hash : ℕ
op_push_const_hash = 0x11

abbrev pub op_eq : ℕ
op_eq = 0x20

abbrev pub op_neq : ℕ
op_neq = 0x21

abbrev pub op_assert_or_dissonance : ℕ
op_assert_or_dissonance = 0x30

abbrev pub op_halt_ok : ℕ
op_halt_ok = 0x3F

abbrev pub var_requestor_id : ℕ
var_requestor_id = 1

abbrev pub var_action : ℕ
var_action = 2

abbrev pub var_owner_id : ℕ
var_owner_id = 3

abbrev pub var_status : ℕ
var_status = 4

-- The inner match on `var_id`; `none` is its error 0xFE.
pub variable : MdoContext → ℕ → Option Hash
variable ctx var_id =
    if var_id == var_requestor_id
    then some ctx.requestor_id_hash
    else if var_id == var_action
    then some ctx.action_hash
    else if var_id == var_owner_id
    then some ctx.owner_id_hash
    else if var_id == var_status
    then some (to_le_bytes ctx.status ++ replicate 28 0)
    else none

-- One round of the loop leaves it, or goes on with a new stack and program counter.
pub data Next : Type 0 where
  halt : Next
  go : MictStack → ℕ → Next

module _ (bytecode : Bytes) (ctx : MdoContext) where
  pub exec_push_var : MictStack → ℕ → Run ℕ Next
  exec_push_var stack pc =
      if leb (length bytecode) (pc + 1)
      then fail 0xFF
      else (read_at bytecode (pc + 1) >>= λ var_id. elim (variable ctx var_id) [
        | none ↦ fail 0xFE
        | some val ↦ map_err 0xFD (push stack val) >>= λ stack. done (go stack (pc + 2))
      ])

  pub exec_push_const_hash : MictStack → ℕ → Run ℕ Next
  exec_push_const_hash stack pc =
      if leb (length bytecode) (pc + 32)
      then fail 0xFF
      else (slice bytecode (pc + 1) (pc + 33) >>= λ hash.
          map_err 0xFD (push stack hash) >>= λ stack. done (go stack (pc + 33)))

  -- `OP_EQ` and `OP_NEQ` differ in the test alone.
  pub exec_compare : (Bool → Bool) → MictStack → ℕ → Run ℕ Next
  exec_compare test stack pc = map_err 0xFD (pop stack) >>= λ (a, stack).
      map_err 0xFD (pop stack) >>= λ (b, stack).
      map_err 0xFD (push_bool stack (test (bytes_eq a b))) >>= λ stack. done (go stack (pc + 1))

  pub exec_assert : MictStack → ℕ → Run ℕ Next
  exec_assert stack pc =
      if leb (length bytecode) (pc + 1)
      then fail 0xFF
      else (read_at bytecode (pc + 1) >>= λ error_code.
          map_err 0xFD (pop_bool stack) >>= λ (condition, stack).
          if not condition then fail error_code else done (go stack (pc + 2)))

  -- `match bytecode[pc]`
  pub exec_op : ℕ → MictStack → ℕ → Run ℕ Next
  exec_op opcode stack pc =
      if opcode == op_push_var
      then exec_push_var stack pc
      else if opcode == op_push_const_hash
      then exec_push_const_hash stack pc
      else if opcode == op_eq
      then exec_compare (λ b. b) stack pc
      else if opcode == op_neq
      then exec_compare not stack pc
      else if opcode == op_assert_or_dissonance
      then exec_assert stack pc
      else if opcode == op_halt_ok
      then done halt
      else fail 0xFC

  pub check_loop : ℕ → MictStack → ℕ → Run ℕ (Unit {0})
  check_loop zero stack pc = spin
  check_loop (suc fuel) stack pc =
      if ltb pc (length bytecode)
      then (read_at bytecode pc >>= λ opcode. exec_op opcode stack pc >>= λ next. elim next [
        | halt ↦ done tt
        | go stack' pc' ↦ check_loop fuel stack' pc'
      ])
      else fail 0xFB

unfoldable pub execute_mict_check : Bytes → MdoContext → Run ℕ (Unit {0})
unfolding check_loop exec_op exec_push_var exec_push_const_hash exec_compare exec_assert push pop
    push_bool pop_bool new_stack variable bytes_eq to_le_bytes
execute_mict_check bytecode ctx = check_loop bytecode ctx (length bytecode + 1) new_stack 0
