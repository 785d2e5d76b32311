-- ===== src/Macro/Opcode.antt =====
-- `MacroInterpreter::Opcode` of macro_interpreter.h: the fields of an instruction word.
use skyline.Base.{
  ℕ, ◌+◌, ◌-◌, ◌/◌, ◌%◌, ◌^◌, Bool, Option, none, some, ltb, leb, ◌==◌, if◌then◌else◌,
}

pub data Operation : Type 0 where
  alu_register add_immediate bitfield_replace : Operation
  bitfield_extract_shift_left_immediate bitfield_extract_shift_left_register : Operation
  read_immediate branch : Operation

pub data AssignmentOperation : Type 0 where
  ignore_and_fetch move move_and_set_method fetch_and_send move_and_send : AssignmentOperation
  fetch_and_set_method move_and_set_method_then_fetch_and_send : AssignmentOperation
  move_and_set_method_then_send_high : AssignmentOperation

pub data AluOperation : Type 0 where
  add add_with_carry subtract subtract_with_borrow : AluOperation
  bitwise_xor bitwise_or bitwise_and bitwise_and_not bitwise_nand : AluOperation

-- `width` bits from bit `low` on.
abbrev pub field : ℕ → ℕ → ℕ → ℕ
field low width op = op / 2 ^ low % 2 ^ width

unfoldable pub operation : ℕ → Option Operation
operation op =
    let o = field 0 3 op in
    if o == 0
    then some alu_register
    else if o == 1
    then some add_immediate
    else if o == 2
    then some bitfield_replace
    else if o == 3
    then some bitfield_extract_shift_left_immediate
    else if o == 4
    then some bitfield_extract_shift_left_register
    else if o == 5
    then some read_immediate
    else if o == 7
    then some branch
    else none

unfoldable pub assignment_operation : ℕ → AssignmentOperation
assignment_operation op =
    let a = field 4 3 op in
    if a == 0
    then ignore_and_fetch
    else if a == 1
    then move
    else if a == 2
    then move_and_set_method
    else if a == 3
    then fetch_and_send
    else if a == 4
    then move_and_send
    else if a == 5
    then fetch_and_set_method
    else if a == 6
    then move_and_set_method_then_fetch_and_send
    else move_and_set_method_then_send_high

abbrev pub branch_if_zero : ℕ → Bool
branch_if_zero op = field 4 1 op == 0

abbrev pub no_delay : ℕ → Bool
no_delay op = field 5 1 op == 1

abbrev pub exit : ℕ → Bool
exit op = field 7 1 op == 1

abbrev pub dest : ℕ → ℕ
dest op = field 8 3 op

abbrev pub src_a : ℕ → ℕ
src_a op = field 11 3 op

abbrev pub src_b : ℕ → ℕ
src_b op = field 14 3 op

unfoldable pub alu_operation : ℕ → Option AluOperation
alu_operation op =
    let a = field 17 5 op in
    if a == 0
    then some add
    else if a == 1
    then some add_with_carry
    else if a == 2
    then some subtract
    else if a == 3
    then some subtract_with_borrow
    else if a == 8
    then some bitwise_xor
    else if a == 9
    then some bitwise_or
    else if a == 10
    then some bitwise_and
    else if a == 11
    then some bitwise_and_not
    else if a == 12
    then some bitwise_nand
    else none

-- The immediate has 18 bits, the highest of which is its sign.
abbrev pub immediate : ℕ → ℕ
immediate op = field 14 18 op

abbrev pub is_negative : ℕ → Bool
is_negative op = leb (2 ^ 17) (immediate op)

-- `static_cast<u32>(static_cast<i32>(value) + immediate)`; the signed sum is taken to wrap around.
unfoldable pub add_immediate32 : ℕ → ℕ → ℕ
add_immediate32 op value =
    (value + immediate op + (if is_negative op then 2 ^ 32 - 2 ^ 18 else 0)) % 2 ^ 32

-- `opcode + immediate`, which may lie before the code.
unfoldable pub jump : ℕ → ℕ → Option ℕ
jump op pc =
    if is_negative op
    then (if ltb (pc + immediate op) (2 ^ 18) then none else some (pc + immediate op - 2 ^ 18))
    else some (pc + immediate op)

abbrev pub src_bit : ℕ → ℕ
src_bit op = field 17 5 op

abbrev pub size : ℕ → ℕ
size op = field 22 5 op

abbrev pub dest_bit : ℕ → ℕ
dest_bit op = field 27 5 op

-- `GetMask`; at a size of 31 its signed difference overflows, and is taken to wrap around.
abbrev pub mask : ℕ → ℕ
mask op = 2 ^ size op - 1
