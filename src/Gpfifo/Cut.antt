-- ===== src/Gpfifo/Cut.antt =====
-- A pushbuffer of soc/gm20b/gpfifo.cpp that comes in two calls of `Process`.
use skyline.Base.{
  ℕ, ◌≡◌, ◌≢◌, refl, sym, ap, ◌∙◌, List, ◌∷◌, ◌++◌, some, ok, err, arith, some-injective,
}
use skyline.Gpfifo.{Call, Resume, process, Outcome}
use skyline.Gpfifo.Word.{
  Mode, idle, ended, inside, enter, Fed, feed_all, feed_all-append, then_feed, observed, summary,
  settle, settle-after_calls,
}
use skyline.Gpfifo.Split.{process_lem}

-- No header ends the segment.
abbrev pub Open : Resume → List ℕ → Type 0
Open r words = (calls : List Call) → feed_all (enter r) words ≢ ok (calls, ended)

inside-kept :
    (sent : List Call) (r : Resume) {calls : List Call} {m : Mode}
    → settle (ok (sent, inside r)) ≡ ok (calls, m)
    → (m ≡ inside r) × (observed sent ≡ calls)
unfolding settle
inside-kept sent r s = ground arith

-- What was fed, from what a call says.
unsettled :
    (fed : Fed) (calls : List Call) (m : Mode)
    → settle fed ≡ ok (calls, m)
    → ((calls : List Call) → fed ≢ ok (calls, ended))
    → (sent : List Call) × (fed ≡ ok (sent, m)) × (observed sent ≡ calls)
unfolding settle
unsettled (err e) calls m s o = cc
unsettled (ok (sent, idle)) calls m s o = (sent, cc, cc)
unsettled (ok (sent, ended)) calls m s o = absurd (o sent refl)
unsettled (ok (sent, inside r)) calls m s o =
    let t = inside-kept sent r s in (sent, ap (λ m. ok (sent, m)) (sym t.0), t.1)

reported :
    (r : Resume) (word : ℕ) (words : List ℕ) {calls : List Call} {r' : Resume}
    → process r (word ∷ words) ≡ some (ok (calls, r'))
    → settle (feed_all (enter r) (word ∷ words)) ≡ ok (observed calls, enter r')
unfolding summary
reported r word words {calls} {r'} e =
    let (outcome, e', same) = process_lem r word words in
    sym same ∙ ap summary (some-injective (sym e' ∙ e))

-- A pushbuffer that two calls of `Process` take in turn, cut anywhere, does what it does whole, if
-- both return and no header in the first part ends the segment: the same calls but for the flushes, the
-- batching and the method calls of the 2D engine, and the same method left unfinished.
pub process-append :
    (r r1 r2 : Resume) (x y : ℕ) (xs ys : List ℕ) (calls1 calls2 : List Call)
    → Open r (x ∷ xs)
    → process r (x ∷ xs) ≡ some (ok (calls1, r1))
    → process r1 (y ∷ ys) ≡ some (ok (calls2, r2))
    → (outcome : Outcome) × (process r (x ∷ xs ++ y ∷ ys) ≡ some outcome)
      × (summary outcome ≡ ok (observed calls1 ++ observed calls2, enter r2))
process-append r r1 r2 x y xs ys calls1 calls2 o e1 e2 =
    let (sent, f, same) = unsettled _ _ _ (reported r x xs e1) o in
    let (outcome, e, s) = process_lem r x (xs ++ y ∷ ys) in
    (
      outcome,
      e,
      s
          ∙ ap settle (
              feed_all-append (enter r) (x ∷ xs) (y ∷ ys)
              ∙ ap (then_feed (λ m. feed_all m (y ∷ ys))) f)
          ∙ settle-after_calls sent (feed_all (enter r1) (y ∷ ys))
          ∙ rw (same, reported r1 y ys e2) refl,
    )
