-- ===== src/Gpfifo/Tests.antt =====
-- The command processor of soc/gm20b/gpfifo.cpp at fixed inputs.
use skyline.Base.{ℕ, ◌+◌, ◌*◌, ◌^◌, ◌≡◌, refl, List, [], ◌∷◌, ◌++◌, some, ok, err, fault}
use skyline.Gpfifo.Header.{three_d, two_d, copy, method_header, is_pure}
use skyline.Gpfifo.{
  Call, call_method, flush_engine_state, inc, non_inc, Resume, process, process_resumed,
  process_entries, resume_split_method, resume_loop, process_header, process_sec_op, dispatch_calls,
  dispatch_pure, start_split_method, send_pure, send_full, send_pure_batch_non_inc, Outcome,
}
use skyline.Gpfifo.Word.{enter, feed_all, feed, feed_sec_op, observed, summary, settle}
use skyline.Gpfifo.Split.{process_lem}
use skyline.Gpfifo.Cut.{Open, process-append}

-- A header word.
abbrev header : ℕ → ℕ → ℕ → ℕ → ℕ
header sec_op count sub_channel address =
    sec_op * 2 ^ 29 + count * 2 ^ 16 + sub_channel * 2 ^ 13 + address

abbrev nothing_left : Resume
nothing_left = record { remaining = 0; address = 0; sub_channel = three_d; state = non_inc }

abbrev calls_before : List Call
calls_before = call_method three_d 0x100 11 ∷ flush_engine_state ∷ []

abbrev left : Resume
left = record { remaining = 2; address = 0x101; sub_channel = three_d; state = inc }

-- Three words from method 0x100 on, of which the pushbuffer has one.
before_cut : process nothing_left (header 1 3 0 0x100 ∷ 11 ∷ []) ≡ some (ok (calls_before, left))
unfolding process process_resumed process_entries process_header process_sec_op dispatch_calls
    start_split_method resume_split_method resume_loop send_full send_pure method_header
before_cut = refl

abbrev calls_after : List Call
calls_after = call_method three_d 0x101 12 ∷ call_method three_d 0x102 13 ∷ flush_engine_state ∷ []

abbrev done : Resume
done = record { remaining = 0; address = 0x103; sub_channel = three_d; state = inc }

after_cut : process left (12 ∷ 13 ∷ []) ≡ some (ok (calls_after, done))
unfolding process process_resumed process_entries resume_split_method resume_loop send_full
    send_pure
after_cut = refl

stays-Open : Open nothing_left (header 1 3 0 0x100 ∷ 11 ∷ [])
unfolding feed_all feed feed_sec_op method_header
stays-Open calls e = cc

process-append_example :
    (outcome : Outcome) × (process nothing_left (header 1 3 0 0x100 ∷ 11 ∷ 12 ∷ 13 ∷ [])
      ≡ some outcome)
    × (summary outcome ≡ ok (observed calls_before ++ observed calls_after, enter done))
process-append_example =
    process-append nothing_left left done (header 1 3 0 0x100) 12 (11 ∷ []) (13 ∷ []) calls_before
      calls_after stays-Open before_cut after_cut

process_lem_example :
    (outcome : Outcome) × (process nothing_left
        (header 3 6 2 0x6d ∷ 1 ∷ 2 ∷ 3 ∷ 4 ∷ 5 ∷ 6 ∷ header 4 9 4 0x100 ∷ [])
      ≡ some outcome)
    × (summary outcome
        ≡ settle (
            feed_all
              (enter nothing_left)
              (header 3 6 2 0x6d ∷ 1 ∷ 2 ∷ 3 ∷ 4 ∷ 5 ∷ 6 ∷ header 4 9 4 0x100 ∷ [])))
process_lem_example =
    process_lem nothing_left (header 3 6 2 0x6d) (1 ∷ 2 ∷ 3 ∷ 4 ∷ 5 ∷ 6 ∷ header 4 9 4 0x100 ∷ [])

-- A header of `OneInc` at the end of a pushbuffer.
one_inc_at_end : process nothing_left (header 5 2 0 0x100 ∷ []) ≡ some (err fault)
unfolding process process_resumed process_entries process_header process_sec_op dispatch_calls
    start_split_method resume_split_method method_header
one_inc_at_end = refl

-- What is meant for the copy engine goes to the 2D engine as well, unless it is a batch.
copied_twice :
    process nothing_left (header 4 9 4 0x100 ∷ [])
    ≡ some (
        ok (
          flush_engine_state
              ∷ call_method copy 0x100 9
              ∷ call_method two_d 0x100 9
              ∷ flush_engine_state
              ∷ [],
          nothing_left,
        ))
unfolding process process_resumed process_entries process_header process_sec_op send_pure is_pure
    method_header
copied_twice = refl

-- A batch for the 2D engine is lost.
batch_lost :
    process nothing_left (header 3 5 3 0x100 ∷ 1 ∷ 2 ∷ 3 ∷ 4 ∷ 5 ∷ [])
    ≡ some (ok (flush_engine_state ∷ flush_engine_state ∷ [], nothing_left))
unfolding process process_resumed process_entries process_header process_sec_op dispatch_calls
    dispatch_pure send_pure_batch_non_inc is_pure method_header
batch_lost = refl
