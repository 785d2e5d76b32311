-- ===== src/CommandFifo.antt =====
-- The command processor of a Host1x channel: soc/host1x/command_fifo.cpp. A gather is the list of its
-- words; a read past its end is a fault. The calls of the classes are a list, since nothing that they
-- return is read back.
pub mod Sends
pub mod Commands
pub mod Total
mod Tests
use skyline.Base.{
  ℕ, zero, suc, ◌+◌, ◌*◌, ◌/◌, ◌%◌, ◌^◌, List, [], ◌∷◌, ◌++◌, Option, none, some, ◌==◌,
  if◌then◌else◌, length, Result, ok, err, fault, unimplemented,
}
use mathlib.Core.Option.{map}

abbrev pub host1x : ℕ
host1x = 0x1

-- `Send`: the class, the method and the argument; it calls the classes Host1x, NvDec and VIC.
abbrev pub Call : Type 0
Call = ℕ × ℕ × ℕ

unfoldable pub send : ℕ → ℕ → ℕ → List Call
send target_class method argument =
    if target_class == host1x
    then (target_class, method, argument) ∷ []
    else if target_class == 0xf0
    then (target_class, method, argument) ∷ []
    else if target_class == 0x5d
    then (target_class, method, argument) ∷ []
    else []

-- `ChannelCommandFifoMethodHeader`
abbrev pub immd_data : ℕ → ℕ
immd_data raw = raw % 2 ^ 12

abbrev pub method_count : ℕ → ℕ
method_count raw = raw % 2 ^ 16

abbrev pub offset_mask : ℕ → ℕ
offset_mask raw = raw % 2 ^ 16

abbrev pub class_method_mask : ℕ → ℕ
class_method_mask raw = raw % 2 ^ 6

abbrev pub class_id : ℕ → ℕ
class_id raw = raw / 2 ^ 6 % 2 ^ 10

abbrev pub method_address : ℕ → ℕ
method_address raw = raw / 2 ^ 16 % 2 ^ 12

abbrev pub opcode : ℕ → ℕ
opcode raw = raw / 2 ^ 28 % 2 ^ 4

-- The calls of a method, and the words after it.
abbrev pub Sent : Type 0
Sent = Result (List Call × List ℕ)

abbrev pub after_send : List Call → Sent → Sent
after_send calls (err e) = err e
after_send calls (ok (more, words)) = ok (calls ++ more, words)

-- The loops of `Incr` and `NonIncr`: `count` words to `method`, and then `stride` further each time.
unfoldable pub send_words : ℕ → ℕ → ℕ → ℕ → List ℕ → Sent
send_words target_class method stride zero words = ok ([], words)
send_words target_class method stride (suc count) [] = err fault
send_words target_class method stride (suc count) (word ∷ words) =
    after_send (send target_class method word)
      (send_words target_class (method + stride) stride count words)

-- The loops of `SetClass` and `Mask` over `digits` bits, from the lowest of `mask` on.
unfoldable pub send_mask : ℕ → ℕ → ℕ → ℕ → List ℕ → Sent
send_mask target_class method mask zero words = ok ([], words)
send_mask target_class method mask (suc digits) [] =
    let rest = send_mask target_class (suc method) (mask / 2) digits [] in
    if mask % 2 == 0 then rest else err fault
send_mask target_class method mask (suc digits) (word ∷ words) =
    let skipped = send_mask target_class (suc method) (mask / 2) digits (word ∷ words) in
    let sent = send_mask target_class (suc method) (mask / 2) digits words in
    if mask % 2 == 0 then skipped else after_send (send target_class method word) sent

-- The target class from then on, the calls, and the words after the method.
abbrev pub Processed : Type 0
Processed = Result (ℕ × List Call × List ℕ)

abbrev pub with_class : ℕ → Sent → Processed
with_class target_class (err e) = err e
with_class target_class (ok (calls, words)) = ok (target_class, calls, words)

-- A header, by its opcode.
unfoldable pub process_header : ℕ → ℕ → List ℕ → Processed
process_header target_class raw words =
    if opcode raw == 0x0
    then with_class (class_id raw)
        (send_mask (class_id raw) (method_address raw) (class_method_mask raw) 8 words)
    else with_class target_class (
        if opcode raw == 0x1
        then send_words target_class (method_address raw) 1 (method_count raw) words
        else if opcode raw == 0x2
        then send_words target_class (method_address raw) 0 (method_count raw) words
        else if opcode raw == 0x3
        then send_mask target_class (method_address raw) (offset_mask raw) 16 words
        else if opcode raw == 0x4
        then ok (send target_class (method_address raw) (immd_data raw), words)
        else err unimplemented)

abbrev pub Outcome : Type 0
Outcome = Result (List Call)

abbrev pub after_calls : List Call → Outcome → Outcome
after_calls calls (err e) = err e
after_calls calls (ok more) = ok (calls ++ more)

abbrev pub go_on : (ℕ → List ℕ → Option Outcome) → Processed → Option Outcome
go_on more (err e) = some (err e)
go_on more (ok (target_class, calls, words)) = map (after_calls calls) (more target_class words)

unfoldable pub process_from : ℕ → ℕ → List ℕ → Option Outcome
process_from fuel target_class [] = some (ok [])
process_from zero target_class (raw ∷ words) = none
process_from (suc fuel) target_class (raw ∷ words) =
    go_on (λ target words. process_from fuel target words) (process_header target_class raw words)

-- `Process`; the fuel is the number of the words.
unfoldable pub process : List ℕ → Option Outcome
process gather = process_from (length gather) host1x gather
