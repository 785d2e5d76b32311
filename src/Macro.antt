-- ===== src/Macro.antt =====
-- The macro method expander's interpreter: app/src/main/cpp/skyline/soc/gm20b/macro/
-- macro_interpreter.h and macro_interpreter.cpp. Pointers into the code are indices; reading past
-- the code or past the arguments, and shifting by 32 or more, is a fault. The engine that the macro
-- drives, `MacroEngineBase`, is a parameter.
pub mod Opcode
pub mod Alu
pub mod Carry
pub mod Registers
pub mod Methods
mod Tests
use skyline.Base.{
  ℕ, zero, suc, ◌+◌, ◌-◌, ◌*◌, ◌/◌, ◌%◌, ◌^◌, bit_and, bit_or, Bool, true, false, not, ◌&&◌, List,
  [], ◌∷◌, Option, none, some, ltb, leb, ◌==◌, if◌then◌else◌, get_elem?, get_or, set, replicate,
  Result, ok, err, ◌>>=◌, ◌>>◌, guard, or_throw, branch_in_delay_slot, unknown_opcode, fault,
}
use skyline.Macro.Opcode.{
  Operation, alu_register, add_immediate, bitfield_replace, bitfield_extract_shift_left_immediate,
  bitfield_extract_shift_left_register, read_immediate, branch, AssignmentOperation,
  ignore_and_fetch, move, move_and_set_method, fetch_and_send, move_and_send, fetch_and_set_method,
  move_and_set_method_then_fetch_and_send, move_and_set_method_then_send_high, operation,
  assignment_operation, branch_if_zero, no_delay, exit, dest, src_a, src_b, alu_operation,
  immediate, src_bit, dest_bit, mask, add_immediate32, jump,
}
use skyline.Macro.Alu.{handle_alu, not32, shl32}

-- `CallMethodFromMacro` and `ReadMethodFromMacro`.
pub record Engine : Type 1 where
  pub State : Type 0
  pub call_method : State → ℕ → ℕ → State
  pub read_method : State → ℕ → ℕ

module _ (e : Engine) where
  open e use {State, call_method, read_method}

  pub record Interpreter : Type 0 where
    pub engine : State
    pub opcode : ℕ
    pub registers : List ℕ
    pub argument : List ℕ
    pub method_address : ℕ
    pub carry_flag : Bool

  abbrev pub address : Interpreter → ℕ
  address m = m.method_address % 2 ^ 12

  abbrev pub increment : Interpreter → ℕ
  increment m = m.method_address / 2 ^ 12 % 2 ^ 6

  abbrev pub register : Interpreter → ℕ → ℕ
  register m r = get_or m.registers r 0

  unfoldable pub write_register : ℕ → ℕ → Interpreter → Interpreter
  write_register reg value m =
      if reg == 0 then m else record m { registers = set m.registers reg value }

  -- The address is a field of 12 bits, so it wraps and leaves the other bits alone.
  unfoldable pub send : ℕ → Interpreter → Interpreter
  send argument m = record m {
    engine = call_method m.engine (address m) argument;
    method_address = m.method_address - address m + (address m + increment m) % 2 ^ 12;
  }

  -- `*argument++`
  unfoldable pub fetch : Interpreter → Result (ℕ × Interpreter)
  fetch m = elim m.argument [ [] ↦ err fault | x ∷ rest ↦ ok (x, record m { argument = rest }) ]

  abbrev pub set_method : ℕ → Interpreter → Interpreter
  set_method raw m = record m { method_address = raw }

  unfoldable pub handle_assignment : AssignmentOperation → ℕ → ℕ → Interpreter → Result Interpreter
  unfolding fetch send write_register
  handle_assignment ignore_and_fetch reg result m = do
    (x, m') ← fetch m
    ok (write_register reg x m')
  handle_assignment move reg result m = ok (write_register reg result m)
  handle_assignment move_and_set_method reg result m =
      ok (set_method result (write_register reg result m))
  handle_assignment fetch_and_send reg result m = do
    (x, m') ← fetch m
    ok (send result (write_register reg x m'))
  handle_assignment move_and_send reg result m = ok (send result (write_register reg result m))
  handle_assignment fetch_and_set_method reg result m = do
    (x, m') ← fetch m
    ok (set_method result (write_register reg x m'))
  handle_assignment move_and_set_method_then_fetch_and_send reg result m = do
    (x, m') ← fetch (set_method result (write_register reg result m))
    ok (send x m')
  handle_assignment move_and_set_method_then_send_high reg result m =
      let m' = set_method result (write_register reg result m) in ok (send (increment m') m')

  -- `src << n` and `src >> n` by a register.
  abbrev pub guard_shift : ℕ → Result (Unit {0})
  guard_shift n = guard (ltb n 32) fault

  -- The operations other than a branch, which end in an assignment.
  unfoldable pub compute : Operation → ℕ → Interpreter → Result (ℕ × Interpreter)
  unfolding handle_alu
  compute alu_register op m = do
    (result, carry) ←
        handle_alu (alu_operation op) m.carry_flag (register m (src_a op)) (register m (src_b op))
    ok (result, record m { carry_flag = carry })
  compute add_immediate op m = ok (add_immediate32 op (register m (src_a op)), m)
  compute bitfield_replace op m =
      let src = bit_and (register m (src_b op) / 2 ^ src_bit op) (mask op) in
      let kept = bit_and (register m (src_a op)) (not32 (shl32 (mask op) (dest_bit op))) in
      ok (bit_or kept (shl32 src (dest_bit op)), m)
  compute bitfield_extract_shift_left_immediate op m = do
    guard_shift (register m (src_a op))
    ok (
      shl32 (bit_and (register m (src_b op) / 2 ^ register m (src_a op)) (mask op)) (dest_bit op),
      m,
    )
  compute bitfield_extract_shift_left_register op m = do
    guard_shift (register m (src_a op))
    ok (
      shl32 (bit_and (register m (src_b op) / 2 ^ src_bit op) (mask op)) (register m (src_a op)),
      m,
    )
  compute read_immediate op m =
      ok (read_method m.engine (add_immediate32 op (register m (src_a op))), m)
  compute branch op m = err unknown_opcode

  unfoldable pub assign : Operation → ℕ → Interpreter → Result Interpreter
  unfolding compute handle_assignment
  assign o op m = do
    (result, m') ← compute o op m
    handle_assignment (assignment_operation op) (dest op) result m'

  abbrev pub current : List ℕ → Interpreter → Result ℕ
  current code m = or_throw (get_elem? code m.opcode) fault

  abbrev pub operation_of : ℕ → Result Operation
  operation_of op = or_throw (operation op) unknown_opcode

  -- `Step(delayedOpcode)` in a delay slot: `exit` is ignored there.
  unfoldable pub delay_slot : Operation → ℕ → ℕ → Interpreter → Result Interpreter
  unfolding assign
  delay_slot branch op target m = err branch_in_delay_slot
  delay_slot o op target m = do m' ← assign o op m; ok (record m' { opcode = target })

  unfoldable pub step_delayed : List ℕ → ℕ → Interpreter → Result Interpreter
  unfolding delay_slot
  step_delayed code target m = do op ← current code m; o ← operation_of op; delay_slot o op target m

  abbrev pub advance : Interpreter → Interpreter
  advance m = record m { opcode = m.opcode + 1 }

  -- The end of `Step()`: an exit has a delay slot.
  unfoldable pub finish : List ℕ → ℕ → Interpreter → Result (Bool × Interpreter)
  unfolding step_delayed
  finish code op m =
      if exit op
      then (do m' ← step_delayed code (m.opcode + 1) (advance m); ok (false, m'))
      else ok (true, advance m)

  unfoldable pub take_branch : List ℕ → ℕ → Interpreter → Result (Bool × Interpreter)
  unfolding step_delayed finish
  take_branch code op m =
      let taken = (register m (src_a op) == 0) in
      if (if branch_if_zero op then taken else not taken)
      then (do
        target ← or_throw (jump op m.opcode) fault
        if no_delay op
            then ok (true, record m { opcode = target })
            else (do m' ← step_delayed code target (advance m); ok (true, m')))
      else finish code op m

  unfoldable pub dispatch : Operation → List ℕ → ℕ → Interpreter → Result (Bool × Interpreter)
  unfolding take_branch assign finish
  dispatch branch code op m = take_branch code op m
  dispatch o code op m = do m' ← assign o op m; finish code op m'

  -- `Step()`, and whether to go on.
  unfoldable pub step : List ℕ → Interpreter → Result (Bool × Interpreter)
  unfolding dispatch
  step code m = do op ← current code m; o ← operation_of op; dispatch o code op m

  -- `while (Step());`, at most `fuel` times; `none` where the fuel runs out.
  unfoldable pub run : List ℕ → ℕ → Interpreter → Result (Option Interpreter)
  unfolding step
  run code zero m = ok none
  run code (suc fuel) m =
      step code m >>= λ r. elim (r.0) [ true ↦ run code fuel (r.1) | false ↦ ok (some (r.1)) ]

  unfoldable pub execute : List ℕ → ℕ → List ℕ → State → ℕ → Result (Option Interpreter)
  unfolding run
  execute code offset args engine fuel = elim args [
    | [] ↦ err fault
    | x ∷ rest ↦ run code fuel (record {
      engine = engine;
      opcode = offset;
      registers = set (replicate 8 0) 1 x;
      argument = rest;
      method_address = 0;
      carry_flag = false;
    })
  ]
