-- ===== src/Gpfifo/Method.antt =====
-- One method of a pushbuffer of soc/gm20b/gpfifo.cpp, whole or split, and its words one at a time.
use skyline.Base.{
  ℕ, suc, ◌+◌, ◌-◌, ◌<◌, ◌≤◌, ◌≡◌, ◌≢◌, refl, sym, ap, ◌∙◌, true, false, List, [], ◌∷◌, ◌++◌, ◌==◌,
  leb, if◌then◌else◌, length, take, drop, length-take, length-drop, take-append-drop, arith,
  Bool-cases, ==-false, inl, inr, ◌⊎◌, Result, ok, err,
}
use mathlib.Core.List.{append-nil}
use skyline.Gpfifo.Header.{MethodHeader, is_pure}
use skyline.Gpfifo.{
  Call, State, inc, non_inc, one_inc_state, method_offset, full_loop, Resume, advance, send_next,
  resume_from, resume_loop, resume_split_method, after_calls, is_three_d, dispatch_pure,
  dispatch_calls, start_split_method, Next, continue, finish,
}
use skyline.Gpfifo.Word.{
  Mode, idle, inside, enter, Fed, feed, feed_all, feed_all-append, then_feed, observed, settle,
  end_of_entry, after_calls-append, after_calls-nil, settle-after_calls,
}
use skyline.Gpfifo.Batch.{op_of, Narrow, dispatch_pure_lem}

-- The state before argument `i`, and after all of them.
abbrev at : State → MethodHeader → ℕ → Resume
at s h i = record {
  remaining = h.method_count - i;
  address = h.method_address + method_offset s i;
  sub_channel = h.method_sub_channel;
  state = if i == 0 then s else elim s [ one_inc_state ↦ non_inc | s ↦ s ];
}

advance-at :
    (s : State) (h : MethodHeader) (i : ℕ)
    → Narrow h
    → i < h.method_count
    → advance (at s h i) ≡ at s h (suc i)
advance-at inc h i narrow lt = ground arith
advance-at non_inc h i narrow lt = ground arith
advance-at one_inc_state h i narrow lt = ground arith

-- A word within a method.
feed_all-inside :
    (r : Resume) (word : ℕ) (words : List ℕ)
    → r.remaining ≢ 0
    → feed_all (enter r) (word ∷ words)
      ≡ after_calls (send_next r word) (feed_all (enter (advance r)) words)
unfolding feed_all feed
feed_all-inside r word words more = rw (==-false r.remaining 0 more) refl

last_word : (i count : ℕ) → i < count → (count - i - 1 == 0) ≡ (i == count - 1)
last_word i count lt = ground arith

feed_all-done :
    (s : State) (h : MethodHeader) (i : ℕ)
    → i ≡ h.method_count
    → feed_all (enter (at s h i)) [] ≡ ok ([], idle)
unfolding feed_all
feed_all-done s h i e = ground arith

feed_all-at :
    (s : State) (h : MethodHeader) (i : ℕ) (words : List ℕ)
    → Narrow h
    → i + length words ≡ h.method_count
    → feed_all (enter (at s h i)) words ≡ ok (full_loop s h i words, idle)
unfolding full_loop
feed_all-at s h i [] narrow e = feed_all-done s h i (omega arith)
feed_all-at s h i (word ∷ words) narrow e =
    feed_all-inside (at s h i) word words (omega arith)
    ∙ rw
        (
          advance-at s h i narrow (omega arith),
          feed_all-at s h (suc i) words narrow (omega arith),
          last_word i h.method_count (omega arith),
        )
        refl

resume_loop-done :
    (r : Resume) (words : List ℕ) → (r.remaining == 0) ≡ true → resume_loop r words ≡ ([], r, words)
unfolding resume_loop
resume_loop-done r [] e = refl
resume_loop-done r (word ∷ words) e = rw e refl

resume_loop-more :
    (r : Resume) (word : ℕ) (words : List ℕ)
    → (r.remaining == 0) ≡ false
    → resume_loop r (word ∷ words) ≡ (
      send_next r word ++ (resume_loop (advance r) words).0,
      (resume_loop (advance r) words).1,
      (resume_loop (advance r) words).2,
    )
unfolding resume_loop
resume_loop-more r word words e = rw e refl

-- The loop takes the words that the method has left, and stops at the end of either.
pub resume_loop_lem :
    (r : Resume) (words : List ℕ)
    → feed_all (enter r) words
      ≡ after_calls
          (resume_loop r words).0
          (feed_all (enter (resume_loop r words).1) (resume_loop r words).2)
unfolding resume_loop
resume_loop_lem r [] = sym (after_calls-nil _)
resume_loop_lem r (word ∷ words) = elim (Bool-cases (r.remaining == 0)) [
  | inl e ↦ rw (resume_loop-done r (word ∷ words) e) (sym (after_calls-nil _))
  | inr e ↦
      feed_all-inside r word words (ground arith)
      ∙ rw (resume_loop-more r word words e, resume_loop_lem (advance r) words)
          (sym (after_calls-append (send_next r word) (resume_loop (advance r) words).0 _))
]

-- Past the first word, a method is not at the start of a `OneInc`.
abbrev pub Underway : Resume → Type 0
Underway r = r.state ≢ one_inc_state

Underway-advance : (r : Resume) → Underway (advance r)
Underway-advance r e = ground arith

remaining-advance : (r : Resume) → (advance r).remaining ≡ r.remaining - 1
remaining-advance r = ground arith

resume_loop-nil : (r : Resume) → resume_loop r [] ≡ ([], r, [])
unfolding resume_loop
resume_loop-nil r = refl

-- Where the loop stops.
abbrev pub Stopped : Resume → List ℕ → Resume → List ℕ → Type 0
Stopped r words r' rest =
    Underway r'
    × ((r'.remaining ≡ 0) ⊎ ((rest ≡ []) × Underway r'))
    × (length rest ≤ length words)
    × (length words < r.remaining → rest ≡ [])

resume_loop-Stopped :
    (r : Resume) (words : List ℕ)
    → Underway r
    → Stopped r words (resume_loop r words).1 (resume_loop r words).2
resume_loop-Stopped r [] u = rw (resume_loop-nil r) (u, inr (refl, u), omega arith, λ lt. refl)
resume_loop-Stopped r (word ∷ words) u = elim (Bool-cases (r.remaining == 0)) [
  | inl e ↦
      rw (resume_loop-done r (word ∷ words) e)
        (u, inl (ground arith), omega arith, λ lt. ground arith)
  | inr e ↦
      let (u', done, le, all) = resume_loop-Stopped (advance r) words (Underway-advance r) in
      rw (resume_loop-more r word words e)
        (u', done, omega arith, λ lt. all (omega (arith, remaining-advance r)))
]

-- On a method with words left, `OneInc` does what the loop does, and is then underway.
resume_split_method-loop :
    (r : Resume) (word : ℕ) (words : List ℕ)
    → r.remaining ≢ 0
    → resume_split_method r (word ∷ words) ≡ ok (resume_loop r (word ∷ words))
unfolding resume_split_method resume_loop
resume_split_method-loop r word words more = ground arith

pub resume_split_method_lem :
    (r : Resume) (word : ℕ) (words : List ℕ)
    → r.remaining ≢ 0
    → (resume_split_method r (word ∷ words) ≡ ok (resume_loop r (word ∷ words)))
      × Stopped r (word ∷ words) (resume_loop r (word ∷ words)).1 (resume_loop r (word ∷ words)).2
resume_split_method_lem r word words more =
    let (u', done, le, all) = resume_loop-Stopped (advance r) words (Underway-advance r) in
    (
      resume_split_method-loop r word words more,
      rw (resume_loop-more r word words (==-false r.remaining 0 more))
          (u', done, omega arith, λ lt. all (omega (arith, remaining-advance r))),
    )

end_of_entry-inside : (r : Resume) → Underway r → end_of_entry (inside r) ≡ ok (inside r)
end_of_entry-inside r u = ground arith

-- What is left to send of a method that a pushbuffer ends within.
pub settle-enter :
    (calls : List Call) (r : Resume)
    → Underway r
    → settle (ok (calls, enter r)) ≡ ok (observed calls, enter r)
unfolding settle
settle-enter calls r u = elim (Bool-cases (r.remaining == 0)) [
  | inl e ↦ rw e refl
  | inr e ↦
      rw e (
        ap (λ m. elim m [ err e ↦ err e | ok m ↦ ok (observed calls, m) ])
          (end_of_entry-inside r u))
]

-- What `dispatch_calls` did of the words, against the words one at a time.
unfoldable pub Dispatched : Fed → ℕ → Result Next → Type 0
Dispatched fed n (err e) = settle fed ≡ err e
Dispatched fed n (ok (finish calls r)) = settle fed ≡ ok (observed calls, enter r)
Dispatched fed n (ok (continue calls rest)) =
    (settle fed ≡ after_calls (observed calls) (settle (feed_all idle rest))) × (length rest ≤ n)

nothing_more : (calls : List Call) (m : Mode) → after_calls calls (feed_all m []) ≡ ok (calls, m)
unfolding feed_all
nothing_more calls m = ap (λ c. ok (c, m)) (append-nil calls)

-- A method that the words end within.
resumed :
    (r : Resume) (words : List ℕ) (calls : List Call) (r' : Resume) (rest : List ℕ)
    → resume_loop r words ≡ (calls, r', rest)
    → rest ≡ []
    → Underway r'
    → settle (feed_all (enter r) words) ≡ ok (observed calls, enter r')
resumed r words calls r' rest e none_left u =
    ap settle (resume_loop_lem r words ∙ rw (e, none_left) (nothing_more calls (enter r')))
    ∙ settle-enter calls r' u

not_started :
    (s : State) (h : MethodHeader)
    → 0 < h.method_count
    → Dispatched (feed_all (enter (resume_from s h)) []) 0 (start_split_method s h [])
unfolding start_split_method resume_split_method Dispatched feed_all settle resume_loop observed
not_started inc h lt = settle-enter [] (resume_from inc h) (λ e. cc)
not_started non_inc h lt = settle-enter [] (resume_from non_inc h) (λ e. cc)
not_started one_inc_state h lt = rw (==-false h.method_count 0 (omega arith)) refl

pub start_split_method-Dispatched :
    (s : State) (h : MethodHeader) (words : List ℕ)
    → length words < h.method_count
    → Dispatched
        (feed_all (enter (resume_from s h)) words)
        (length words)
        (start_split_method s h words)
unfolding start_split_method resume_split_method Dispatched
start_split_method-Dispatched s h [] lt = not_started s h lt
start_split_method-Dispatched s h (word ∷ words) lt =
    let r = resume_from s h in
    let (same, stopped) = resume_split_method_lem r word words (omega arith) in
    rw same (resumed r (word ∷ words) _ _ _ refl (stopped.3 lt) stopped.0)

resume_from-at : (s : State) (h : MethodHeader) → resume_from s h ≡ at s h 0
resume_from-at inc h = ground arith
resume_from-at non_inc h = ground arith
resume_from-at one_inc_state h = ground arith

whole_method :
    (s : State) (h : MethodHeader) (words : List ℕ)
    → Narrow h
    → h.method_count ≤ length words
    → feed_all (enter (resume_from s h)) words
      ≡ after_calls
          (full_loop s h 0 (take h.method_count words))
          (feed_all idle (drop h.method_count words))
whole_method s h words narrow le =
    ap (λ ws. feed_all (enter (resume_from s h)) ws) (sym (take-append-drop h.method_count words))
    ∙ feed_all-append (enter (resume_from s h)) (take h.method_count words)
        (drop h.method_count words)
    ∙ ap (then_feed (λ m. feed_all m (drop h.method_count words))) (
        ap (λ r. feed_all (enter r) (take h.method_count words)) (resume_from-at s h)
        ∙ feed_all-at s h 0 (take h.method_count words) narrow
            (omega (arith, length-take h.method_count words)))

whole_calls :
    (s : State) (h : MethodHeader) (words : List ℕ)
    → h.sec_op ≡ op_of s
    → Narrow h
    → length words ≡ h.method_count
    → observed (full_loop s h 0 words)
      ≡ observed (
          if is_pure h
          then dispatch_pure (is_three_d h.method_sub_channel) s h words
          else full_loop s h 0 words)
whole_calls s h words op narrow e = elim (Bool-cases (is_pure h)) [
  | inl is ↦ rw is (sym (dispatch_pure_lem s h words op narrow is e))
  | inr is ↦ rw is refl
]

pub dispatch_calls-Dispatched :
    (s : State) (h : MethodHeader) (words : List ℕ)
    → h.sec_op ≡ op_of s
    → Narrow h
    → Dispatched
        (feed_all (enter (resume_from s h)) words)
        (length words)
        (dispatch_calls (is_three_d h.method_sub_channel) s h words)
unfolding dispatch_calls Dispatched
dispatch_calls-Dispatched s h words op narrow =
    elim (Bool-cases (leb h.method_count (length words))) [
      | inl e ↦ rw e (
        ap settle (whole_method s h words narrow (ground arith))
            ∙ settle-after_calls _ _
            ∙ ap (λ c. after_calls c (settle (feed_all idle (drop h.method_count words))))
                (whole_calls s h (take h.method_count words) op narrow
                  (ground (arith, length-take h.method_count words))),
        omega (arith, length-drop h.method_count words),
      )
      | inr e ↦ rw e (start_split_method-Dispatched s h words (ground arith))
    ]
