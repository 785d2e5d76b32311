-- ===== src/Gpfifo/Batch.antt =====
-- The quick ways of soc/gm20b/gpfifo.cpp to make the calls of a whole method, and the slow one.
use skyline.Base.{
  ℕ, suc, ◌+◌, ◌^◌, ◌<◌, ◌≤◌, ◌≡◌, refl, sym, ap, ◌∙◌, Bool, true, false, List, [], ◌∷◌, ◌++◌, ltb,
  if◌then◌else◌, length, arith,
}
use skyline.Gpfifo.Header.{
  SubchannelId, three_d, two_d, compute, inline2mem, copy, software0, software1, software2, SecOp,
  MethodHeader, inc_method, non_inc_method, one_inc, is_pure, register_count, engine_methods_end,
}
use skyline.Gpfifo.{
  Call, send_full, send_pure, send_pure_batch_non_inc, State, inc, non_inc, one_inc_state,
  method_offset, send_one, send_batch, pure_loop, full_loop, dispatch_pure, is_three_d,
  batch_cutoff,
}
use skyline.Gpfifo.Word.{observed, observed-append}

abbrev pub op_of : State → SecOp
op_of s = elim s [ inc ↦ inc_method | non_inc ↦ non_inc_method | one_inc_state ↦ one_inc ]

-- The template parameter agrees with the subchannel.
abbrev pub Agrees : Bool → MethodHeader → Type 0
Agrees three_d_only h = three_d_only ≡ is_three_d h.method_sub_channel

-- The fields are as wide as those of a header.
abbrev pub Narrow : MethodHeader → Type 0
Narrow h = (h.method_address < 2 ^ 12) × (h.method_count < 2 ^ 13)

pub send_one-send_full :
    (method argument : ℕ) (s : SubchannelId) (last : Bool)
    → register_count ≤ method
    → method < engine_methods_end
    → send_full method argument s last ≡ send_one (is_three_d s) method argument s
unfolding send_full send_pure
send_one-send_full method argument s last lo hi = ground arith

is_pure-range :
    (s : State) (h : MethodHeader)
    → h.sec_op ≡ op_of s
    → Narrow h
    → is_pure h ≡ true
    → (i : ℕ) → i < h.method_count
    → (register_count ≤ h.method_address + method_offset s i)
      × (h.method_address + method_offset s i < engine_methods_end)
unfolding is_pure
is_pure-range inc h op narrow is i lt = ground arith
is_pure-range non_inc h op narrow is i lt = ground arith
is_pure-range one_inc_state h op narrow is i lt = ground arith

pure_loop-full_loop :
    (s : State) (h : MethodHeader)
    → h.sec_op ≡ op_of s
    → Narrow h
    → is_pure h ≡ true
    → (i : ℕ) (words : List ℕ) → i + length words ≡ h.method_count
    → full_loop s h i words ≡ pure_loop (is_three_d h.method_sub_channel) s h i words
unfolding full_loop pure_loop
pure_loop-full_loop s h op narrow is i [] e = refl
pure_loop-full_loop s h op narrow is i (word ∷ words) e =
    let (lo, hi) = is_pure-range s h op narrow is i (omega arith) in
    rw
      (
        send_one-send_full (h.method_address + method_offset s i) word h.method_sub_channel _ lo hi,
        pure_loop-full_loop s h op narrow is (suc i) words (omega arith),
      )
      refl

one_by_one :
    (s : State) (h : MethodHeader) (words : List ℕ)
    → h.sec_op ≡ op_of s
    → Narrow h
    → is_pure h ≡ true
    → length words ≡ h.method_count
    → observed (pure_loop (is_three_d h.method_sub_channel) s h 0 words)
      ≡ observed (full_loop s h 0 words)
one_by_one s h words op narrow is e =
    ap observed (sym (pure_loop-full_loop s h op narrow is 0 words (omega arith)))

-- A batch stands for its calls.
send_one-send_batch :
    (s : SubchannelId) (method argument : ℕ) (arguments : List ℕ)
    → observed (send_one (is_three_d s) method argument s)
        ++ observed (send_batch (is_three_d s) method arguments s)
      ≡ observed (send_batch (is_three_d s) method (argument ∷ arguments) s)
unfolding send_pure send_pure_batch_non_inc observed
send_one-send_batch three_d method argument arguments = refl
send_one-send_batch compute method argument arguments = refl
send_one-send_batch inline2mem method argument arguments = refl
send_one-send_batch two_d method argument arguments = refl
send_one-send_batch copy method argument arguments = refl
send_one-send_batch software0 method argument arguments = refl
send_one-send_batch software1 method argument arguments = refl
send_one-send_batch software2 method argument arguments = refl

no_batch : (s : SubchannelId) (method : ℕ) → observed (send_batch (is_three_d s) method [] s) ≡ []
unfolding send_pure_batch_non_inc observed
no_batch three_d method = refl
no_batch compute method = refl
no_batch inline2mem method = refl
no_batch two_d method = refl
no_batch copy method = refl
no_batch software0 method = refl
no_batch software1 method = refl
no_batch software2 method = refl

send_batch-pure_loop :
    (s : State) (h : MethodHeader) (method i : ℕ) (words : List ℕ)
    → ((j : ℕ) → i ≤ j → h.method_address + method_offset s j ≡ method)
    → observed (send_batch (is_three_d h.method_sub_channel) method words h.method_sub_channel)
      ≡ observed (pure_loop (is_three_d h.method_sub_channel) s h i words)
unfolding pure_loop observed
send_batch-pure_loop s h method i [] same = no_batch h.method_sub_channel method
send_batch-pure_loop s h method i (word ∷ words) same =
    sym (send_one-send_batch h.method_sub_channel method word words)
    ∙ rw
        (
          same i (omega arith),
          observed-append
              (send_one (is_three_d h.method_sub_channel) method word h.method_sub_channel)
              (pure_loop (is_three_d h.method_sub_channel) s h (suc i) words),
          send_batch-pure_loop s h method (suc i) words (λ j le. same j (omega arith)),
        )
        refl

one_inc_batch :
    (h : MethodHeader) (word : ℕ) (words : List ℕ)
    → observed (
        send_one (is_three_d h.method_sub_channel) h.method_address word h.method_sub_channel
        ++ send_batch
            (is_three_d h.method_sub_channel)
            (h.method_address + 1)
            words
            h.method_sub_channel)
      ≡ observed (pure_loop (is_three_d h.method_sub_channel) one_inc_state h 0 (word ∷ words))
unfolding pure_loop
one_inc_batch h word words =
    let t = is_three_d h.method_sub_channel in
    let first = send_one t h.method_address word h.method_sub_channel in
    let rest = pure_loop t one_inc_state h 1 words in
    observed-append first (send_batch t (h.method_address + 1) words h.method_sub_channel)
    ∙ ap (observed first ++◌)
        (send_batch-pure_loop one_inc_state h (h.method_address + 1) 1 words (λ j le. ground arith))
    ∙ sym (observed-append first rest)
    ∙ ap (λ a. observed (send_one t a word h.method_sub_channel ++ rest)) (omega arith)

no_calls : (s : State) (h : MethodHeader) → observed [] ≡ observed (full_loop s h 0 [])
unfolding full_loop
no_calls s h = refl

observed-if :
    (b : Bool) (x y z : List Call)
    → observed x ≡ observed z
    → observed y ≡ observed z
    → observed (if b then x else y) ≡ observed z
observed-if true x y z h k = h
observed-if false x y z h k = k

-- The calls of a pure method are, but for those of the 2D engine, those of the slow way.
pub dispatch_pure_lem :
    (s : State) (h : MethodHeader) (words : List ℕ)
    → h.sec_op ≡ op_of s
    → Narrow h
    → is_pure h ≡ true
    → length words ≡ h.method_count
    → observed (dispatch_pure (is_three_d h.method_sub_channel) s h words)
      ≡ observed (full_loop s h 0 words)
unfolding dispatch_pure
dispatch_pure_lem inc h words op narrow is e = one_by_one inc h words op narrow is e
dispatch_pure_lem non_inc h words op narrow is e =
    let slow = one_by_one non_inc h words op narrow is e in
    observed-if (ltb batch_cutoff h.method_count) _ _ (full_loop non_inc h 0 words)
      (send_batch-pure_loop non_inc h h.method_address 0 words (λ j le. omega arith) ∙ slow) slow
dispatch_pure_lem one_inc_state h [] op narrow is e = no_calls one_inc_state h
dispatch_pure_lem one_inc_state h (word ∷ words) op narrow is e =
    let slow = one_by_one one_inc_state h (word ∷ words) op narrow is e in
    observed-if (ltb (batch_cutoff + 1) h.method_count) _ _
      (full_loop one_inc_state h 0 (word ∷ words)) (one_inc_batch h word words ∙ slow) slow
