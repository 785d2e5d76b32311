-- ===== src/CommandFifo/Commands.antt =====
-- Commands for soc/host1x/command_fifo.cpp, the words that they are written as, and their calls.
use skyline.Base.{
  ℕ, zero, suc, ◌+◌, ◌*◌, ◌^◌, ◌≤◌, ◌<◌, ◌≡◌, refl, sym, ap, ◌∙◌, List, [], ◌∷◌, ◌++◌, length,
  length-append, arith, ok, some,
}
use mathlib.Core.List.{append-nil}
use skyline.CommandFifo.{
  host1x, Call, send, immd_data, method_count, offset_mask, class_method_mask, class_id,
  method_address, opcode, process_header, process_from, process,
}
use skyline.CommandFifo.Sends.{selected, sends, strided, send_words_lem, send_mask_lem}

pub data Command : Type 0 where
  set_class : (class address mask : ℕ) → (arguments : List ℕ) → Command
  incr non_incr : (address : ℕ) → (arguments : List ℕ) → Command
  masked : (address mask : ℕ) → (arguments : List ℕ) → Command
  imm : (address value : ℕ) → Command

-- The fields fit, and there are as many arguments as the header says.
abbrev pub Fits : Command → Type 0
Fits (set_class c a m xs) =
    (c < 2 ^ 10) × (a < 2 ^ 12) × (m < 2 ^ 6) × (length xs ≡ length (selected a m 8))
Fits (incr a xs) = (a < 2 ^ 12) × (length xs < 2 ^ 16)
Fits (non_incr a xs) = (a < 2 ^ 12) × (length xs < 2 ^ 16)
Fits (masked a m xs) = (a < 2 ^ 12) × (m < 2 ^ 16) × (length xs ≡ length (selected a m 16))
Fits (imm a x) = (a < 2 ^ 12) × (x < 2 ^ 12)

abbrev pub header : ℕ → ℕ → ℕ → ℕ
header op address low = op * 2 ^ 28 + address * 2 ^ 16 + low

abbrev pub head : Command → ℕ
head (set_class c a m xs) = header 0 a (c * 2 ^ 6 + m)
head (incr a xs) = header 1 a (length xs)
head (non_incr a xs) = header 2 a (length xs)
head (masked a m xs) = header 3 a m
head (imm a x) = header 4 a x

abbrev pub arguments : Command → List ℕ
arguments (set_class c a m xs) = xs
arguments (incr a xs) = xs
arguments (non_incr a xs) = xs
arguments (masked a m xs) = xs
arguments (imm a x) = []

-- The class that the calls of a command, and of those after it, go to.
abbrev pub class_after : ℕ → Command → ℕ
class_after target (set_class c a m xs) = c
class_after target (incr a xs) = target
class_after target (non_incr a xs) = target
class_after target (masked a m xs) = target
class_after target (imm a x) = target

abbrev pub methods : Command → List ℕ
methods (set_class c a m xs) = selected a m 8
methods (incr a xs) = strided a 1 (length xs)
methods (non_incr a xs) = strided a 0 (length xs)
methods (masked a m xs) = selected a m 16
methods (imm a x) = a ∷ []

abbrev pub values : Command → List ℕ
values (imm a x) = x ∷ []
values (set_class c a m xs) = xs
values (incr a xs) = xs
values (non_incr a xs) = xs
values (masked a m xs) = xs

module _ (target raw a : ℕ) (rest : List ℕ) (at : method_address raw ≡ a) where
  process_incr :
      (xs : List ℕ)
      → opcode raw ≡ 1
      → method_count raw ≡ length xs
      → process_header target raw (xs ++ rest)
        ≡ ok (target, sends target (strided a 1 (length xs)) xs, rest)
  unfolding process_header
  process_incr xs op n = rw (op, at, n, send_words_lem target a 1 xs rest) refl

  process_non_incr :
      (xs : List ℕ)
      → opcode raw ≡ 2
      → method_count raw ≡ length xs
      → process_header target raw (xs ++ rest)
        ≡ ok (target, sends target (strided a 0 (length xs)) xs, rest)
  unfolding process_header
  process_non_incr xs op n = rw (op, at, n, send_words_lem target a 0 xs rest) refl

  process_masked :
      (m : ℕ) (xs : List ℕ)
      → opcode raw ≡ 3
      → offset_mask raw ≡ m
      → length xs ≡ length (selected a m 16)
      → process_header target raw (xs ++ rest)
        ≡ ok (target, sends target (selected a m 16) xs, rest)
  unfolding process_header
  process_masked m xs op n e = rw (op, at, n, send_mask_lem target a m 16 xs rest e) refl

  process_imm :
      (x : ℕ)
      → opcode raw ≡ 4
      → immd_data raw ≡ x
      → process_header target raw rest ≡ ok (target, send target a x, rest)
  unfolding process_header
  process_imm x op n = rw (op, at, n) refl

  process_set_class :
      (c m : ℕ) (xs : List ℕ)
      → opcode raw ≡ 0
      → class_id raw ≡ c
      → class_method_mask raw ≡ m
      → length xs ≡ length (selected a m 8)
      → process_header target raw (xs ++ rest) ≡ ok (c, sends c (selected a m 8) xs, rest)
  unfolding process_header
  process_set_class c m xs op k n e = rw (op, at, k, n, send_mask_lem c a m 8 xs rest e) refl

-- A command is read back from its words.
command_lem :
    (target : ℕ) (command : Command) (rest : List ℕ)
    → Fits command
    → process_header target (head command) (arguments command ++ rest)
      ≡ ok (
        class_after target command,
        sends (class_after target command) (methods command) (values command),
        rest,
      )
unfolding sends
command_lem target (set_class c a m xs) rest f =
    process_set_class target _ a rest (omega arith) c m xs (omega arith) (omega arith) (omega arith)
      f.3
command_lem target (incr a xs) rest f =
    process_incr target _ a rest (omega arith) xs (omega arith) (omega arith)
command_lem target (non_incr a xs) rest f =
    process_non_incr target _ a rest (omega arith) xs (omega arith) (omega arith)
command_lem target (masked a m xs) rest f =
    process_masked target _ a rest (omega arith) m xs (omega arith) (omega arith) f.2
command_lem target (imm a x) rest f =
    process_imm target _ a rest (omega arith) x (omega arith) (omega arith)
    ∙ ap (λ c. ok (target, c, rest)) (sym (append-nil (send target a x)))

pub gather : List Command → List ℕ
gather [] = []
gather (command ∷ commands) = head command ∷ arguments command ++ gather commands

-- The calls of commands, each with the class that the last `SetClass` before it gave.
unfoldable pub meaning : ℕ → List Command → List Call
meaning target [] = []
meaning target (command ∷ commands) =
    sends (class_after target command) (methods command) (values command)
    ++ meaning (class_after target command) commands

abbrev pub AllFit : List Command → Type 0
AllFit [] = Unit {0}
AllFit (command ∷ commands) = Fits command × AllFit commands

process_from-gather :
    (fuel target : ℕ) (commands : List Command)
    → length (gather commands) ≤ fuel
    → AllFit commands
    → process_from fuel target (gather commands) ≡ some (ok (meaning target commands))
unfolding process_from gather meaning
process_from-gather fuel target [] le f = refl
process_from-gather zero target (command ∷ commands) le f = ground arith
process_from-gather (suc fuel) target (command ∷ commands) le f =
    rw
      (
        command_lem target command (gather commands) f.0,
        process_from-gather fuel (class_after target command) commands
            (omega (arith, length-append (arguments command) (gather commands))) f.1,
      )
      refl

-- A gather that commands are written as, whose fields fit and whose arguments are as many as its
-- headers say, is read to its end, and makes the calls of the commands in their order.
pub process-gather :
    (commands : List Command)
    → AllFit commands
    → process (gather commands) ≡ some (ok (meaning host1x commands))
unfolding process
process-gather commands f =
    process_from-gather (length (gather commands)) host1x commands (omega arith) f
