-- ===== src/Macro/Alu.antt =====
-- `HandleAlu` of macro_interpreter.cpp on 32-bit words.
use skyline.Base.{
  ℕ, ◌+◌, ◌-◌, ◌*◌, ◌/◌, ◌%◌, ◌^◌, bit_and, bit_or, bit_xor, Bool, true, false, not, Option, none,
  some, ◌==◌, Result, ok, err, fault,
}
use skyline.Macro.Opcode.{
  AluOperation, add, add_with_carry, subtract, subtract_with_borrow, bitwise_xor, bitwise_or,
  bitwise_and, bitwise_and_not, bitwise_nand,
}

abbrev pub not32 : ℕ → ℕ
not32 a = 2 ^ 32 - 1 - a

abbrev pub shl32 : ℕ → ℕ → ℕ
shl32 a n = a * 2 ^ n % 2 ^ 32

-- A u64 difference.
abbrev pub sub64 : ℕ → ℕ → ℕ
sub64 a b = (a + 2 ^ 64 - b) % 2 ^ 64

abbrev pub bit : Bool → ℕ
bit true = 1
bit false = 0

-- An integer as a bool.
abbrev pub is_set : ℕ → Bool
is_set n = not (n == 0)

-- The result and the new carry flag.
unfoldable pub alu : AluOperation → Bool → ℕ → ℕ → ℕ × Bool
alu add carry a b = ((a + b) % 2 ^ 32, is_set ((a + b) / 2 ^ 32))
alu add_with_carry carry a b = ((a + b + bit carry) % 2 ^ 32, is_set ((a + b + bit carry) / 2 ^ 32))
alu subtract carry a b = (sub64 a b % 2 ^ 32, is_set (sub64 a b % 2 ^ 32))
alu subtract_with_borrow carry a b =
    let result = sub64 (sub64 a b) (bit (not carry)) in (result % 2 ^ 32, is_set (result % 2 ^ 32))
alu bitwise_xor carry a b = (bit_xor a b, carry)
alu bitwise_or carry a b = (bit_or a b, carry)
alu bitwise_and carry a b = (bit_and a b, carry)
alu bitwise_and_not carry a b = (bit_and a (not32 b), carry)
alu bitwise_nand carry a b = (not32 (bit_and a b), carry)

-- No case of the switch matches other operations: nothing is returned.
unfoldable pub handle_alu : Option AluOperation → Bool → ℕ → ℕ → Result (ℕ × Bool)
unfolding alu
handle_alu none carry a b = err fault
handle_alu (some o) carry a b = ok (alu o carry a b)
