-- ===== src/Gpfifo/Entry.antt =====
-- An entry of a pushbuffer of soc/gm20b/gpfifo.cpp against the words one at a time.
use skyline.Base.{
  ℕ, ◌≡◌, refl, subst, true, List, [], ◌∷◌, ◌==◌, if◌then◌else◌, length, arith, Bool-cases, inl,
  inr, Result, ok, err, Error,
}
use skyline.Gpfifo.Header.{
  MethodHeader, SecOp, is_pure, method_header, grp0_use_tert, inc_method, grp2_use_tert,
  non_inc_method, imm_data_method, one_inc, reserved6, end_pb_segment,
}
use skyline.Gpfifo.{
  send_full, State, inc, non_inc, one_inc_state, Resume, resume_from, after_calls, is_three_d,
  dispatch_calls, Next, continue, finish, process_sec_op, process_header, flushing,
  flush_engine_state, send_one,
}
use skyline.Gpfifo.Word.{
  idle, ended, enter, Fed, feed, feed_sec_op, feed_all, then_feed, observed, settle,
  after_calls-nil, settle-after_calls,
}
use skyline.Gpfifo.Batch.{op_of, Narrow, send_one-send_full}
use skyline.Gpfifo.Method.{Dispatched, dispatch_calls-Dispatched}

method_header-Narrow : (raw : ℕ) → Narrow (method_header raw)
unfolding method_header
method_header-Narrow raw = (omega arith, omega arith)

feed_all-ended : (words : List ℕ) → feed_all ended words ≡ ok ([], ended)
unfolding feed_all feed
feed_all-ended [] = refl
feed_all-ended (word ∷ words) = rw (feed_all-ended words) refl

settle-err : {e : Error} → settle (err e) ≡ err e
unfolding settle
settle-err {e} = refl

settle-ended : (r : Resume) → r.remaining ≡ 0 → settle (ok ([], ended)) ≡ ok (observed [], enter r)
unfolding settle
settle-ended r done = ground arith

imm_data :
    (h : MethodHeader)
    → h.sec_op ≡ imm_data_method
    → Narrow h
    → (if is_pure h
        then send_one
            (is_three_d h.method_sub_channel)
            h.method_address
            h.method_count
            h.method_sub_channel
        else send_full h.method_address h.method_count h.method_sub_channel true)
      ≡ send_full h.method_address h.method_count h.method_sub_channel true
unfolding is_pure
imm_data h op narrow =
    ground (arith, send_one-send_full h.method_address h.method_count h.method_sub_channel true)

abbrev Fits : SecOp → Resume → MethodHeader → List ℕ → Type 0
Fits op r h words =
    Dispatched (then_feed (λ m. feed_all m words) (feed_sec_op op h)) (length words)
      (process_sec_op op (is_three_d h.method_sub_channel) r h words)

fits_method :
    (s : State) (r : Resume) (h : MethodHeader) (words : List ℕ)
    → h.sec_op ≡ op_of s
    → Narrow h
    → Dispatched
        (after_calls [] (feed_all (enter (resume_from s h)) words))
        (length words)
        (dispatch_calls (is_three_d h.method_sub_channel) s h words)
fits_method s r h words op narrow =
    rw (after_calls-nil (feed_all (enter (resume_from s h)) words))
      (dispatch_calls-Dispatched s h words op narrow)

process_sec_op-Fits :
    (op : SecOp) (r : Resume) (h : MethodHeader) (words : List ℕ)
    → h.sec_op ≡ op
    → Narrow h
    → r.remaining ≡ 0
    → Fits op r h words
unfolding process_sec_op feed_sec_op Dispatched
process_sec_op-Fits inc_method r h words op narrow done = fits_method inc r h words op narrow
process_sec_op-Fits non_inc_method r h words op narrow done =
    fits_method non_inc r h words op narrow
process_sec_op-Fits one_inc r h words op narrow done = fits_method one_inc_state r h words op narrow
process_sec_op-Fits imm_data_method r h words op narrow done =
    (rw (imm_data h op narrow) (settle-after_calls _ (feed_all idle words)), omega arith)
process_sec_op-Fits end_pb_segment r h words op narrow done =
    rw (feed_all-ended words) (settle-ended r done)
process_sec_op-Fits grp0_use_tert r h words op narrow done = settle-err
process_sec_op-Fits grp2_use_tert r h words op narrow done = settle-err
process_sec_op-Fits reserved6 r h words op narrow done = settle-err

-- A flush is not observed.
Dispatched-flushing :
    (fed : Fed) (n : ℕ) (next : Result Next)
    → Dispatched fed n next
    → Dispatched fed n
        (elim next [ err e ↦ err e | ok next ↦ ok (flushing (flush_engine_state ∷ []) next) ])
unfolding Dispatched observed
Dispatched-flushing fed n (err e) d = d
Dispatched-flushing fed n (ok (continue calls rest)) d = d
Dispatched-flushing fed n (ok (finish calls r)) d = d

process_header-Dispatched :
    (r : Resume) (word : ℕ) (words : List ℕ)
    → r.remaining ≡ 0
    → Dispatched
        (then_feed
          (λ m. feed_all m words)
          (feed_sec_op (method_header word).sec_op (method_header word)))
        (length words)
        (process_header r word words)
unfolding process_header
process_header-Dispatched r word words done =
    let h = method_header word in
    let d = process_sec_op-Fits h.sec_op r h words refl (method_header-Narrow word) done in
    elim (Bool-cases (is_three_d h.method_sub_channel)) [
      | inl e ↦ rw e (
          subst
            (λ t.
              Dispatched (then_feed (λ m. feed_all m words) (feed_sec_op h.sec_op h)) (length words)
                (process_sec_op h.sec_op t r h words))
            e d)
      | inr e ↦ rw e (
          Dispatched-flushing _ _ _ (
            subst
              (λ t.
                Dispatched (then_feed (λ m. feed_all m words) (feed_sec_op h.sec_op h))
                  (length words) (process_sec_op h.sec_op t r h words))
              e d))
    ]

nop :
    (words : List ℕ)
    → Dispatched (after_calls [] (feed_all idle words)) (length words) (ok (continue [] words))
unfolding Dispatched
nop words = (settle-after_calls [] (feed_all idle words), omega arith)

pub entry-Dispatched :
    (r : Resume) (word : ℕ) (words : List ℕ)
    → r.remaining ≡ 0
    → Dispatched
        (feed_all idle (word ∷ words))
        (length words)
        (if word == 0 then ok (continue [] words) else process_header r word words)
unfolding feed_all feed
entry-Dispatched r word words done = elim (Bool-cases (word == 0)) [
  | inl e ↦ rw e (nop words)
  | inr e ↦ rw e (process_header-Dispatched r word words done)
]
