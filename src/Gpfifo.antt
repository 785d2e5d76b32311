-- ===== src/Gpfifo.antt =====
-- The command processor of a GPU channel: soc/gm20b/gpfifo.h and gpfifo.cpp. The calls that it makes
-- of the engines are a list, since nothing that they return is read back. The words of a pushbuffer,
-- which `gmmu.Read` copies before any of them is looked at, are an argument.
pub mod Header
pub mod Word
pub mod Batch
pub mod Method
pub mod Entry
pub mod Split
pub mod Cut
mod Tests
use skyline.Base.{
  ℕ, zero, suc, ◌+◌, ◌-◌, ◌%◌, ◌^◌, Bool, true, false, List, [], ◌∷◌, ◌++◌, Option, none, some, ltb,
  leb, ◌==◌, if◌then◌else◌, length, take, drop, Result, ok, err, fault, unimplemented,
}
use mathlib.Core.Option.{map}
use skyline.Gpfifo.Header.{
  SubchannelId, three_d, compute, inline2mem, two_d, copy, SecOp, MethodHeader, method_header,
  is_pure, engine_methods_end, register_count, inc_method, non_inc_method, one_inc, imm_data_method,
  end_pb_segment, grp0_use_tert, grp2_use_tert, reserved6,
}

-- `CallMethod` of the GPFIFO's own engine, `HandleMacroCall`, and `CallMethod`,
-- `CallMethodBatchNonInc` and `FlushEngineState` of the others.
pub data Call : Type 0 where
  gpfifo_method : (method argument : ℕ) → Call
  macro_call : SubchannelId → (method argument : ℕ) → (last_call : Bool) → Call
  call_method : SubchannelId → (method argument : ℕ) → Call
  call_method_batch_non_inc : SubchannelId → (method : ℕ) → (arguments : List ℕ) → Call
  flush_engine_state : Call

unfoldable pub send_pure : ℕ → ℕ → SubchannelId → List Call
send_pure method argument sub_channel = elim sub_channel [
  | three_d ↦ call_method three_d method argument ∷ []
  | compute ↦ call_method compute method argument ∷ []
  | inline2mem ↦ call_method inline2mem method argument ∷ []
  | copy ↦ call_method copy method argument ∷ call_method two_d method argument ∷ []
  | two_d ↦ call_method two_d method argument ∷ []
  | _ ↦ []
]

unfoldable pub send_full : ℕ → ℕ → SubchannelId → Bool → List Call
unfolding send_pure
send_full method argument sub_channel last_call =
    if ltb method register_count
    then gpfifo_method method argument ∷ []
    else if ltb method engine_methods_end
    then send_pure method argument sub_channel
    else elim sub_channel [
      | three_d ↦ macro_call three_d (method - engine_methods_end) argument last_call ∷ []
      | two_d ↦ macro_call two_d (method - engine_methods_end) argument last_call ∷ []
      | _ ↦ []
    ]

unfoldable pub send_pure_batch_non_inc : ℕ → List ℕ → SubchannelId → List Call
send_pure_batch_non_inc method arguments sub_channel = elim sub_channel [
  | three_d ↦ call_method_batch_non_inc three_d method arguments ∷ []
  | compute ↦ call_method_batch_non_inc compute method arguments ∷ []
  | inline2mem ↦ call_method_batch_non_inc inline2mem method arguments ∷ []
  | copy ↦ call_method_batch_non_inc copy method arguments ∷ []
  | _ ↦ []
]

-- `MethodResumeState::State`
pub data State : Type 0 where
  non_inc inc one_inc_state : State

-- `MethodResumeState`
pub record Resume : Type 0 where
  pub remaining : ℕ
  pub address : ℕ
  pub sub_channel : SubchannelId
  pub state : State

-- The state after one more word of the method.
abbrev pub advance : Resume → Resume
advance r = elim r.state [
  | non_inc ↦ record r { remaining = r.remaining - 1 }
  | inc ↦ record r { remaining = r.remaining - 1; address = (r.address + 1) % 2 ^ 32 }
  | one_inc_state ↦ record r {
    remaining = r.remaining - 1;
    address = (r.address + 1) % 2 ^ 32;
    state = non_inc;
  }
]

-- The call for the next word.
abbrev pub send_next : Resume → ℕ → List Call
send_next r word = send_full r.address word r.sub_channel (r.remaining - 1 == 0)

-- The loops of `Inc` and of `NonInc`: the calls, the state and the entries that are left.
unfoldable pub resume_loop : Resume → List ℕ → List Call × Resume × List ℕ
resume_loop r [] = ([], r, [])
resume_loop r (word ∷ words) =
    let rest = resume_loop (advance r) words in
    if r.remaining == 0 then ([], r, word ∷ words) else (send_next r word ++ rest.0, rest.1, rest.2)

-- `OneInc` reads an entry whether there is one or not.
unfoldable pub resume_split_method : Resume → List ℕ → Result (List Call × Resume × List ℕ)
resume_split_method r words = elim r.state [
  | one_inc_state ↦ elim words [
    | [] ↦ err fault
    | word ∷ words ↦
        let rest = resume_loop (advance r) words in ok (send_next r word ++ rest.0, rest.1, rest.2)
  ]
  | _ ↦ ok (resume_loop r words)
]

abbrev pub method_offset : State → ℕ → ℕ
method_offset s i = elim s [ inc ↦ i | one_inc_state ↦ (if i == 0 then 0 else 1) | non_inc ↦ 0 ]

-- A call of the 3D engine where the template parameter says so, and of the subchannel's otherwise.
abbrev pub send_one : Bool → ℕ → ℕ → SubchannelId → List Call
send_one three_d_only method argument sub_channel =
    if three_d_only
    then call_method three_d method argument ∷ []
    else send_pure method argument sub_channel

abbrev pub send_batch : Bool → ℕ → List ℕ → SubchannelId → List Call
send_batch three_d_only method arguments sub_channel =
    if three_d_only
    then call_method_batch_non_inc three_d method arguments ∷ []
    else send_pure_batch_non_inc method arguments sub_channel

-- The loop over the arguments from the one with index `i` on.
unfoldable pub pure_loop : Bool → State → MethodHeader → ℕ → List ℕ → List Call
pure_loop three_d_only s h i [] = []
pure_loop three_d_only s h i (word ∷ words) =
    send_one three_d_only (h.method_address + method_offset s i) word h.method_sub_channel
    ++ pure_loop three_d_only s h (suc i) words

unfoldable pub full_loop : State → MethodHeader → ℕ → List ℕ → List Call
full_loop s h i [] = []
full_loop s h i (word ∷ words) =
    send_full (h.method_address + method_offset s i) word h.method_sub_channel
      (i == h.method_count - 1)
    ++ full_loop s h (suc i) words

abbrev pub batch_cutoff : ℕ
batch_cutoff = 4

-- The calls of a pure method; `words` are its arguments.
unfoldable pub dispatch_pure : Bool → State → MethodHeader → List ℕ → List Call
dispatch_pure three_d_only non_inc h words =
    if ltb batch_cutoff h.method_count
    then send_batch three_d_only h.method_address words h.method_sub_channel
    else pure_loop three_d_only non_inc h 0 words
dispatch_pure three_d_only one_inc_state h [] = []
dispatch_pure three_d_only one_inc_state h (word ∷ words) =
    if ltb (batch_cutoff + 1) h.method_count
    then send_one three_d_only h.method_address word h.method_sub_channel
      ++ send_batch three_d_only (h.method_address + 1) words h.method_sub_channel
    else pure_loop three_d_only one_inc_state h 0 (word ∷ words)
dispatch_pure three_d_only inc h words = pure_loop three_d_only inc h 0 words

-- A method whose entries have been processed, and the words after it; or the last one.
pub data Next : Type 0 where
  continue : List Call → List ℕ → Next
  finish : List Call → Resume → Next

abbrev pub resume_from : State → MethodHeader → Resume
resume_from s h = record {
  remaining = h.method_count;
  address = h.method_address;
  sub_channel = h.method_sub_channel;
  state = s;
}

-- `startSplitMethod`
unfoldable pub start_split_method : State → MethodHeader → List ℕ → Result Next
start_split_method s h words = elim (resume_split_method (resume_from s h) words) [
  | err e ↦ err e
  | ok (calls, r, rest) ↦ ok (finish calls r)
]

unfoldable pub dispatch_calls : Bool → State → MethodHeader → List ℕ → Result Next
dispatch_calls three_d_only s h words =
    if leb h.method_count (length words)
    then ok (
        continue
          (if is_pure h
            then dispatch_pure three_d_only s h (take h.method_count words)
            else full_loop s h 0 (take h.method_count words))
          (drop h.method_count words))
    else start_split_method s h words

unfoldable pub process_sec_op : SecOp → Bool → Resume → MethodHeader → List ℕ → Result Next
process_sec_op inc_method three_d_only r h words = dispatch_calls three_d_only inc h words
process_sec_op non_inc_method three_d_only r h words = dispatch_calls three_d_only non_inc h words
process_sec_op one_inc three_d_only r h words = dispatch_calls three_d_only one_inc_state h words
process_sec_op imm_data_method three_d_only r h words = ok (
    continue
      (if is_pure h
        then send_one three_d_only h.method_address h.method_count h.method_sub_channel
        else send_full h.method_address h.method_count h.method_sub_channel true)
      words)
process_sec_op end_pb_segment three_d_only r h words = ok (finish [] r)
process_sec_op grp0_use_tert three_d_only r h words = err unimplemented
process_sec_op grp2_use_tert three_d_only r h words = err unimplemented
process_sec_op reserved6 three_d_only r h words = err unimplemented

abbrev pub process_method : Bool → Resume → MethodHeader → List ℕ → Result Next
process_method three_d_only r h words = process_sec_op h.sec_op three_d_only r h words

abbrev pub is_three_d : SubchannelId → Bool
is_three_d s = elim s [ three_d ↦ true | _ ↦ false ]

abbrev pub flushing : List Call → Next → Next
flushing calls next = elim next [
  | continue more words ↦ continue (calls ++ more) words
  | finish more r ↦ finish (calls ++ more) r
]

-- An entry that is a method header, and the words after it.
unfoldable pub process_header : Resume → ℕ → List ℕ → Result Next
process_header r word words =
    let h = method_header word in
    if is_three_d h.method_sub_channel
    then process_method true r h words
    else elim (process_method false r h words) [
      | err e ↦ err e
      | ok next ↦ ok (flushing (flush_engine_state ∷ []) next)
    ]

abbrev pub Outcome : Type 0
Outcome = Result (List Call × Resume)

abbrev pub after_calls {ℓ} :
    {M : Type ℓ} → List Call → Result (List Call × M) → Result (List Call × M)
after_calls calls outcome = elim outcome [ err e ↦ err e | ok (more, r) ↦ ok (calls ++ more, r) ]

-- After an entry: the loop goes on, or is over, by the end of the words or an exception.
abbrev pub go_on : (List ℕ → Option Outcome) → Result Next → Option Outcome
go_on more (err e) = some (err e)
go_on more (ok (finish calls r)) = some (ok (calls, r))
go_on more (ok (continue calls words)) = map (after_calls calls) (more words)

-- The loop over the entries.
unfoldable pub process_entries : ℕ → Resume → List ℕ → Option Outcome
process_entries fuel r [] = some (ok ([], r))
process_entries zero r (word ∷ words) = none
process_entries (suc fuel) r (word ∷ words) =
    go_on (λ ws. process_entries fuel r ws)
      (if word == 0 then ok (continue [] words) else process_header r word words)

-- The last flush.
abbrev pub flushed : Outcome → Outcome
flushed (err e) = err e
flushed (ok (calls, r)) = ok (calls ++ (flush_engine_state ∷ []), r)

-- What `Process` does before the loop.
unfoldable pub process_resumed : Resume → List ℕ → Result (List Call × Resume × List ℕ)
process_resumed r words =
    if r.remaining == 0 then ok ([], r, words) else resume_split_method r words

abbrev pub process_rest : ℕ → Result (List Call × Resume × List ℕ) → Option Outcome
process_rest fuel (err e) = some (err e)
process_rest fuel (ok (calls, r, rest)) =
    map (λ outcome. after_calls calls (flushed outcome)) (process_entries fuel r rest)

-- `Process`; a control entry has no words. The fuel is the number of the words.
unfoldable pub process : Resume → List ℕ → Option Outcome
process r [] = some (ok ([], r))
process r (word ∷ words) = process_rest (length (word ∷ words)) (process_resumed r (word ∷ words))
