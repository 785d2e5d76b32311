-- ===== src/Macro/Tests.antt =====
-- The macro interpreter of macro_interpreter.cpp at fixed inputs.
use skyline.Base.{
  ℕ, ◌+◌, ◌-◌, ◌*◌, ◌%◌, ◌^◌, ◌<◌, ◌↔◌, arith, Ensures, false, ◌≡◌, refl, List, [], ◌∷◌, ◌++◌,
  Option, some, none, Result, ok,
}
use skyline.Macro.{Engine}
use skyline.Macro
use skyline.Macro.Registers.{Ended, execute-Ended}
use skyline.Macro.Carry.{add_words, subtract_words, add_words_lem, subtract_words_lem}
use skyline.Macro.Methods.{sends, burst, sends_lem}
use skyline.Macro.Opcode.{operation, assignment_operation, add_immediate32}

-- An engine that records its calls.
abbrev recorder : Engine
recorder = record {
  State = List (ℕ × ℕ);
  call_method = λ s a x. s ++ (a, x) ∷ [];
  read_method = λ s a. a;
}

-- `r2 = r1 + 5, set method`, then `send r1`, an exit, and its delay slot.
abbrev code : List ℕ
code = 0x0001_4a21 ∷ 0x0000_08c1 ∷ 0x0000_0811 ∷ []

abbrev calls : Result (Option (Macro.Interpreter recorder)) → Option (List (ℕ × ℕ))
calls (ok (some m)) = some m.engine
calls r = none

recorded : calls (Macro.execute recorder code 0 (7 ∷ []) [] 10) ≡ some ((12, 7) ∷ [])
unfolding Macro.execute operation assignment_operation add_immediate32
recorded = refl

execute-Ended_example : Ensures (Ended recorder) (Macro.execute recorder code 0 (7 ∷ []) [] 10)
execute-Ended_example = execute-Ended recorder code (7 ∷ []) 0 [] 10

add_words_lem_example :
    (add_words 0xffff_ffff 1 1 2).1 * 2 ^ 32 + (add_words 0xffff_ffff 1 1 2).0
    ≡ (0xffff_ffff + 1 * 2 ^ 32 + (1 + 2 * 2 ^ 32)) % 2 ^ 64
add_words_lem_example =
    add_words_lem 0xffff_ffff 1 1 2 (omega arith) (omega arith) (omega arith) (omega arith)

subtract_words_lem_example :
    ((subtract_words 5 1 5 1).1 * 2 ^ 32 + (subtract_words 5 1 5 1).0
      ≡ (5 + 1 * 2 ^ 32 + 2 ^ 64 - (5 + 1 * 2 ^ 32)) % 2 ^ 64)
    ↔ (5 < 5)
subtract_words_lem_example =
    subtract_words_lem 5 1 5 1 (omega arith) (omega arith) (omega arith) (omega arith)

-- The method address is 0xfff, with an increment of 2.
abbrev bursting : Macro.Interpreter recorder
bursting = record {
  engine = [];
  opcode = 0;
  registers = 0 ∷ 0 ∷ 0 ∷ 0 ∷ 0 ∷ 0 ∷ 0 ∷ 0 ∷ [];
  argument = [];
  method_address = 0x2fff;
  carry_flag = false;
}

sends_lem_example :
    ((sends recorder (3 ∷ 4 ∷ []) bursting).engine
      ≡ burst recorder []
          (Macro.address recorder bursting)
          (Macro.increment recorder bursting)
          (3 ∷ 4 ∷ []))
    × (Macro.increment recorder (sends recorder (3 ∷ 4 ∷ []) bursting)
        ≡ Macro.increment recorder bursting)
sends_lem_example = sends_lem recorder (3 ∷ 4 ∷ []) bursting
