-- ===== src/Gpfifo/Split.antt =====
-- `Process` of soc/gm20b/gpfifo.cpp against the words one at a time.
use skyline.Base.{
  ℕ, zero, suc, ◌≤◌, ◌≡◌, refl, sym, ap, ◌∙◌, true, false, List, [], ◌∷◌, ◌++◌, ◌==◌, length, arith,
  Bool-cases, inl, inr, ◌⊎◌, Result, ok, err, Option, some, Error, ==-true,
}
use mathlib.Core.List.{append-nil}
use skyline.Gpfifo.{
  Call, Resume, resume_split_method, after_calls, Next, continue, finish, process_entries,
  process_resumed, process, process_rest, flushed, go_on, Outcome, flush_engine_state,
}
use skyline.Gpfifo.Word.{
  idle, enter, Fed, feed_all, observed, observed-append, summary, settle, after_calls-nil,
  settle-after_calls, summary-after_calls,
}
use skyline.Gpfifo.Method.{
  Dispatched, resume_split_method_lem, resume_loop_lem, settle-enter, Underway,
}
use skyline.Gpfifo.Entry.{entry-Dispatched}

-- A run that returns, and says what was fed.
abbrev pub Settled : Option Outcome → Fed → Type 0
Settled o fed = (outcome : Outcome) × (o ≡ some outcome) × (summary outcome ≡ settle fed)

summary-err : {e : Error} {fed : Fed} → fed ≡ err e → summary (err e) ≡ fed
unfolding summary
summary-err d = sym d

summary-ok :
    (calls : List Call) (r : Resume) {fed : Fed}
    → fed ≡ ok (observed calls, enter r)
    → summary (ok (calls, r)) ≡ fed
unfolding summary
summary-ok calls r d = sym d

settled_nothing : (r : Resume) → Underway r → summary (ok ([], r)) ≡ settle (feed_all (enter r) [])
unfolding summary feed_all
settled_nothing r u = sym (settle-enter [] r u)

go_on-Settled :
    (more : List ℕ → Option Outcome) (fed : Fed) (n : ℕ) (next : Result Next)
    → Dispatched fed n next
    → ((rest : List ℕ) → length rest ≤ n → Settled (more rest) (feed_all idle rest))
    → Settled (go_on more next) fed
unfolding Dispatched
go_on-Settled more fed n (err e) d ih = (err e, refl, summary-err d)
go_on-Settled more fed n (ok (finish calls r)) d ih = (ok (calls, r), refl, summary-ok calls r d)
go_on-Settled more fed n (ok (continue calls rest)) d ih =
    let (outcome, e, same) = ih rest d.1 in
    (
      after_calls calls outcome,
      rw e refl,
      summary-after_calls calls outcome ∙ ap (after_calls (observed calls)) same ∙ sym d.0,
    )

nothing_fed : (r : Resume) → r.remaining ≡ 0 → summary (ok ([], r)) ≡ settle (feed_all idle [])
unfolding summary settle feed_all
nothing_fed r done = ground arith

process_entries-Settled :
    (fuel : ℕ) (r : Resume) (words : List ℕ)
    → length words ≤ fuel
    → r.remaining ≡ 0
    → Settled (process_entries fuel r words) (feed_all idle words)
unfolding process_entries
process_entries-Settled fuel r [] le done = (ok ([], r), refl, nothing_fed r done)
process_entries-Settled zero r (word ∷ words) le done = ground arith
process_entries-Settled (suc fuel) r (word ∷ words) le done =
    go_on-Settled (λ ws. process_entries fuel r ws) _ (length words) _
      (entry-Dispatched r word words done)
      (λ rest h. process_entries-Settled fuel r rest (omega arith) done)

rest-Settled :
    (fuel : ℕ) (r : Resume) (rest : List ℕ)
    → length rest ≤ fuel
    → (r.remaining ≡ 0) ⊎ ((rest ≡ []) × Underway r)
    → Settled (process_entries fuel r rest) (feed_all (enter r) rest)
unfolding process_entries
rest-Settled fuel r rest le (inl done) =
    rw (==-true r.remaining 0 done) (process_entries-Settled fuel r rest le done)
rest-Settled fuel r [] le (inr t) = (ok ([], r), refl, settled_nothing r t.1)
rest-Settled fuel r (word ∷ words) le (inr t) = cc

no_flush : (calls : List Call) → observed (calls ++ (flush_engine_state ∷ [])) ≡ observed calls
unfolding observed
no_flush calls = observed-append calls (flush_engine_state ∷ []) ∙ append-nil (observed calls)

summary-flushed : (outcome : Outcome) → summary (flushed outcome) ≡ summary outcome
unfolding summary
summary-flushed (err e) = refl
summary-flushed (ok (calls, r)) = ap (λ c. ok (c, enter r)) (no_flush calls)

process_rest-Settled :
    (fuel : ℕ) (calls : List Call) (r : Resume) (rest : List ℕ) (fed : Fed)
    → length rest ≤ fuel
    → fed ≡ after_calls calls (feed_all (enter r) rest)
    → (r.remaining ≡ 0) ⊎ ((rest ≡ []) × Underway r)
    → Settled (process_rest fuel (ok (calls, r, rest))) fed
process_rest-Settled fuel calls r rest fed le e stopped =
    let (outcome, e', same) = rest-Settled fuel r rest le stopped in
    (
      after_calls calls (flushed outcome),
      rw e' refl,
      summary-after_calls calls (flushed outcome)
          ∙ ap (after_calls (observed calls)) (summary-flushed outcome ∙ same)
          ∙ sym (ap settle e ∙ settle-after_calls calls (feed_all (enter r) rest)),
    )

process_resumed-idle :
    (r : Resume) (words : List ℕ)
    → (r.remaining == 0) ≡ true
    → process_resumed r words ≡ ok ([], r, words)
unfolding process_resumed
process_resumed-idle r words e = rw e refl

process_resumed-inside :
    (r : Resume) (words : List ℕ)
    → (r.remaining == 0) ≡ false
    → process_resumed r words ≡ resume_split_method r words
unfolding process_resumed
process_resumed-inside r words e = rw e refl

-- A call of `Process` on a pushbuffer that is not empty returns, and what it does and leaves to the
-- next call, or throws, is what comes of its words one at a time: the same calls with the same
-- arguments in the same order, but for the method calls of the 2D engine, where a batch counts as its
-- calls and a flush as none; and a fault where a `OneInc` header is the last word.
pub process_lem :
    (r : Resume) (word : ℕ) (words : List ℕ)
    → (outcome : Outcome) × (process r (word ∷ words) ≡ some outcome)
      × (summary outcome ≡ settle (feed_all (enter r) (word ∷ words)))
unfolding process
process_lem r word words = elim (Bool-cases (r.remaining == 0)) [
  | inl e ↦
      let fed = feed_all (enter r) (word ∷ words) in
      rw (process_resumed-idle r (word ∷ words) e) (
        process_rest-Settled (length (word ∷ words)) [] r (word ∷ words) fed (omega arith)
          (sym (after_calls-nil fed)) (inl (ground arith)))
  | inr e ↦
      let (same, stopped) = resume_split_method_lem r word words (ground arith) in
      rw (process_resumed-inside r (word ∷ words) e, same)
        (process_rest-Settled (length (word ∷ words)) _ _ _ _ stopped.2
          (resume_loop_lem r (word ∷ words)) stopped.1)
]
