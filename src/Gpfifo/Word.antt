-- ===== src/Gpfifo/Word.antt =====
-- A channel that takes one word at a time, wherever the pushbuffers are cut: what soc/gm20b/gpfifo.cpp
-- is compared with.
use skyline.Base.{
  ℕ, ◌≡◌, refl, sym, ap, Bool, true, false, List, [], ◌∷◌, ◌++◌, ◌==◌, if◌then◌else◌, map, Result,
  ok, err, unimplemented, fault,
}
use mathlib.Core.List.{append_assoc}
use skyline.Gpfifo.Header.{
  SubchannelId, two_d, SecOp, MethodHeader, method_header, inc_method, non_inc_method, one_inc,
  imm_data_method, end_pb_segment, grp0_use_tert, grp2_use_tert, reserved6,
}
use skyline.Gpfifo.{
  Call, call_method, call_method_batch_non_inc, flush_engine_state, send_full, inc, non_inc,
  one_inc_state, Resume, advance, send_next, resume_from, after_calls, Outcome,
}

-- Before a header, within a method, or past the end of a segment.
pub data Mode : Type 0 where
  idle ended : Mode
  inside : Resume → Mode

abbrev pub enter : Resume → Mode
enter r = if r.remaining == 0 then idle else inside r

abbrev pub Fed : Type 0
Fed = Result (List Call × Mode)

unfoldable pub feed_sec_op : SecOp → MethodHeader → Fed
feed_sec_op inc_method h = ok ([], enter (resume_from inc h))
feed_sec_op non_inc_method h = ok ([], enter (resume_from non_inc h))
feed_sec_op one_inc h = ok ([], enter (resume_from one_inc_state h))
feed_sec_op imm_data_method h =
    ok (send_full h.method_address h.method_count h.method_sub_channel true, idle)
feed_sec_op end_pb_segment h = ok ([], ended)
feed_sec_op grp0_use_tert h = err unimplemented
feed_sec_op grp2_use_tert h = err unimplemented
feed_sec_op reserved6 h = err unimplemented

unfoldable pub feed : Mode → ℕ → Fed
feed ended word = ok ([], ended)
feed (inside r) word = ok (send_next r word, enter (advance r))
feed idle word =
    if word == 0
    then ok ([], idle)
    else feed_sec_op (method_header word).sec_op (method_header word)

-- What follows what was fed.
abbrev pub then_feed : (Mode → Fed) → Fed → Fed
then_feed next fed = elim fed [ err e ↦ err e | ok (calls, m) ↦ after_calls calls (next m) ]

unfoldable pub feed_all : Mode → List ℕ → Fed
feed_all m [] = ok ([], m)
feed_all m (word ∷ words) = then_feed (λ m. feed_all m words) (feed m word)

abbrev pub is_two_d : SubchannelId → Bool
is_two_d s = elim s [ two_d ↦ true | _ ↦ false ]

-- The calls of the engines, one for each argument, but for the method calls of the 2D engine. A flush
-- is no call.
abbrev pub observed_call : Call → List Call
observed_call call = elim call [
  | call_method s m x ↦ (if is_two_d s then [] else call_method s m x ∷ [])
  | call_method_batch_non_inc s m xs ↦ (if is_two_d s then [] else map (call_method s m) xs)
  | flush_engine_state ↦ []
  | call ↦ call ∷ []
]

unfoldable pub observed : List Call → List Call
observed [] = []
observed (call ∷ calls) = observed_call call ++ observed calls

-- What a call of `Process` says, and leaves to the next.
unfoldable pub summary : Outcome → Fed
summary (err e) = err e
summary (ok (calls, r)) = ok (observed calls, enter r)

-- What was fed, at the end of a pushbuffer: a segment ends with it, and a header of `OneInc` that is
-- its last word is a fault.
abbrev pub end_of_entry : Mode → Result Mode
end_of_entry idle = ok idle
end_of_entry ended = ok idle
end_of_entry (inside r) = elim r.state [ one_inc_state ↦ err fault | _ ↦ ok (inside r) ]

unfoldable pub settle : Fed → Fed
settle (err e) = err e
settle (ok (calls, m)) = elim (end_of_entry m) [ err e ↦ err e | ok m ↦ ok (observed calls, m) ]

pub observed-append : (xs ys : List Call) → observed (xs ++ ys) ≡ observed xs ++ observed ys
unfolding observed
observed-append [] ys = refl
observed-append (call ∷ calls) ys =
    rw (observed-append calls ys)
      (sym (append_assoc (observed_call call) (observed calls) (observed ys)))

pub after_calls-append {ℓ} :
    {M : Type ℓ} (xs ys : List Call) (outcome : Result (List Call × M))
    → after_calls (xs ++ ys) outcome ≡ after_calls xs (after_calls ys outcome)
after_calls-append xs ys (err e) = refl
after_calls-append xs ys (ok (calls, m)) = ap (λ c. ok (c, m)) (append_assoc xs ys calls)

pub after_calls-nil {ℓ} :
    {M : Type ℓ} (outcome : Result (List Call × M)) → after_calls [] outcome ≡ outcome
after_calls-nil (err e) = refl
after_calls-nil (ok (calls, m)) = refl

pub summary-after_calls :
    (xs : List Call) (outcome : Outcome)
    → summary (after_calls xs outcome) ≡ after_calls (observed xs) (summary outcome)
unfolding summary
summary-after_calls xs (err e) = refl
summary-after_calls xs (ok (calls, r)) = ap (λ c. ok (c, enter r)) (observed-append xs calls)

pub settle-after_calls :
    (xs : List Call) (fed : Fed)
    → settle (after_calls xs fed) ≡ after_calls (observed xs) (settle fed)
unfolding settle
settle-after_calls xs (err e) = refl
settle-after_calls xs (ok (calls, idle)) = ap (λ c. ok (c, idle)) (observed-append xs calls)
settle-after_calls xs (ok (calls, ended)) = ap (λ c. ok (c, idle)) (observed-append xs calls)
settle-after_calls xs (ok (calls, inside r)) =
    elim (end_of_entry (inside r))
      as (λ o.
        elim o [ err e ↦ err e | ok m ↦ ok (observed (xs ++ calls), m) ]
        ≡ after_calls (observed xs) (elim o [ err e ↦ err e | ok m ↦ ok (observed calls, m) ])) [
          | err e ↦ refl
          | ok m ↦ ap (λ c. ok (c, m)) (observed-append xs calls)
        ]

pub then_feed-after_calls :
    (next : Mode → Fed) (xs : List Call) (fed : Fed)
    → then_feed next (after_calls xs fed) ≡ after_calls xs (then_feed next fed)
then_feed-after_calls next xs (err e) = refl
then_feed-after_calls next xs (ok (calls, m)) = after_calls-append xs calls (next m)

pub feed_all-append :
    (m : Mode) (xs ys : List ℕ)
    → feed_all m (xs ++ ys) ≡ then_feed (λ m. feed_all m ys) (feed_all m xs)
unfolding feed_all
feed_all-append m [] ys = sym (after_calls-nil (feed_all m ys))
feed_all-append m (x ∷ xs) ys =
    elim (feed m x)
      as (λ f.
        then_feed (λ m. feed_all m (xs ++ ys)) f
        ≡ then_feed (λ m. feed_all m ys) (then_feed (λ m. feed_all m xs) f)) [
          | err e ↦ refl
          | ok (calls, m) ↦
              rw (feed_all-append m xs ys)
                (sym (then_feed-after_calls (λ m. feed_all m ys) calls (feed_all m xs)))
        ]
