-- ===== src/Macro/Carry.antt =====
-- Arithmetic on two words through the carry flag of macro_interpreter.cpp.
use skyline.Base.{ℕ, ◌+◌, ◌-◌, ◌*◌, ◌%◌, ◌^◌, ◌<◌, ◌≡◌, ◌↔◌, false, arith}
use skyline.Macro.Opcode.{add, add_with_carry, subtract, subtract_with_borrow}
use skyline.Macro.Alu.{alu}

-- `Add` on the low words, then `AddWithCarry` on the high ones.
pub add_words : ℕ → ℕ → ℕ → ℕ → ℕ × ℕ
add_words al ah bl bh =
    let (low, carry) = alu add false al bl in (low, (alu add_with_carry carry ah bh).0)

-- `Subtract` on the low words, then `SubtractWithBorrow` on the high ones.
pub subtract_words : ℕ → ℕ → ℕ → ℕ → ℕ × ℕ
subtract_words al ah bl bh =
    let (low, carry) = alu subtract false al bl in (low, (alu subtract_with_borrow carry ah bh).0)

-- On 32-bit words, `Add` on the low words and then `AddWithCarry` on the high words make up the
-- 64-bit sum, modulo 2^64.
pub add_words_lem :
    (al ah bl bh : ℕ)
    → al < 2 ^ 32
    → ah < 2 ^ 32
    → bl < 2 ^ 32
    → bh < 2 ^ 32
    → (add_words al ah bl bh).1 * 2 ^ 32 + (add_words al ah bl bh).0
      ≡ (al + ah * 2 ^ 32 + (bl + bh * 2 ^ 32)) % 2 ^ 64
unfolding add_words alu
add_words_lem al ah bl bh h i j k = ground arith

-- On 32-bit words, `Subtract` on the low words and then `SubtractWithBorrow` on the high words make
-- up the 64-bit difference, modulo 2^64, exactly where the low word of the minuend is the greater:
-- the flag tells whether the low difference is not zero, and not whether it took no borrow.
pub subtract_words_lem :
    (al ah bl bh : ℕ)
    → al < 2 ^ 32
    → ah < 2 ^ 32
    → bl < 2 ^ 32
    → bh < 2 ^ 32
    → ((subtract_words al ah bl bh).1 * 2 ^ 32 + (subtract_words al ah bl bh).0
        ≡ (al + ah * 2 ^ 32 + 2 ^ 64 - (bl + bh * 2 ^ 32)) % 2 ^ 64)
      ↔ (bl < al)
unfolding subtract_words alu
subtract_words_lem al ah bl bh h i j k = (λ e. ground arith, λ e. ground arith)
