-- ===== src/CommandFifo/Tests.antt =====
-- The command processor of soc/host1x/command_fifo.cpp at fixed inputs.
use skyline.Base.{◌≡◌, refl, List, [], ◌∷◌, some, ok, err, fault, arith}
use skyline.CommandFifo.{host1x, process, process_from, process_header, send, send_words}
use skyline.CommandFifo.Sends.{selected, sends, strided}
use skyline.CommandFifo.Commands.{
  Command, set_class, incr, imm, AllFit, gather, meaning, process-gather, header,
}

abbrev commands : List Command
commands = set_class 0xf0 0x10 0b101 (7 ∷ 8 ∷ []) ∷ incr 0x20 (1 ∷ 2 ∷ []) ∷ imm 0x30 5 ∷ []

fit : AllFit commands
unfolding selected
fit = (
  (omega arith, omega arith, omega arith, refl),
  ((omega arith, omega arith), ((omega arith, omega arith), tt)),
)

process-gather_example : process (gather commands) ≡ some (ok (meaning host1x commands))
process-gather_example = process-gather commands fit

calls :
    meaning host1x commands
    ≡ (0xf0, 0x10, 7) ∷ (0xf0, 0x12, 8) ∷ (0xf0, 0x20, 1) ∷ (0xf0, 0x21, 2) ∷ (0xf0, 0x30, 5) ∷ []
unfolding meaning sends selected strided send
calls = refl

-- A header whose arguments are not all there.
cut_short : process (header 1 0x20 2 ∷ 1 ∷ []) ≡ some (err fault)
unfolding process process_from process_header send_words send
cut_short = refl
