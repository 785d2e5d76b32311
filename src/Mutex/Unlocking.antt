-- ===== src/Mutex/Unlocking.antt =====
-- What MutexUnlock of kernel/types/KProcess.cpp does to the words and to those that wait on them.
use skyline.Base.{
  ℕ, ◌+◌, ◌^◌, ◌<◌, ◌≡◌, ◌≢◌, refl, sym, ap, subst, ◌∙◌, ◌⊎◌, false, List, [], ◌∷◌, ◌++◌, Option,
  none, some, ◌==◌, Result, ok, err, arith, Bool-cases, inl, inr, ==-true, ==-false, Ensures,
  some-injective,
}
use skyline.PriorityQueue.{All}
use skyline.Mutex.{
  Kernel, with_waiters, store, find_waiter, same_key, other_keys, release, handed, Unlock,
  mutex_unlock,
}
use skyline.Mutex.Effects.{unlock_state, next_word, Effect, mutex_unlock-Effect}
use skyline.Mutex.Counts.{
  one, occurrences, occurrences-append, occurrences-same_key, occurrences-split, find_waiter-Found,
  Found, All-occurrences, zero-or-more, transfer-stays, transfer-moves, transfer-rest,
}
use skyline.Mutex.Linked.{Linked-waits, Linked-stands, handed-Linked, handed-free}
use skyline.Mutex.Owned.{
  with_waiters-eq, OwnedBy, Consistent, waiting, if_waiting, Same-Consistent, store-Consistent,
}

bits : (h k : ℕ) → h < 2 ^ 30 → k < 2 ^ 30 → with_waiters h ≢ k
bits h k lt l e = let sum = with_waiters-eq h lt in ground arith

bits_equal : (h k : ℕ) → h < 2 ^ 30 → k < 2 ^ 30 → with_waiters h ≡ with_waiters k → h ≡ k
bits_equal h k lt l e =
    let sum : h + 2 ^ 30 ≡ k + 2 ^ 30 = sym (with_waiters-eq h lt) ∙ e ∙ with_waiters-eq k l in
    omega arith

same_key-on :
    (mutex : ℕ) (key : ℕ → ℕ) (t : ℕ) (queue : List ℕ)
    → 0 < occurrences t (same_key mutex key queue)
    → key t ≡ mutex
same_key-on mutex key t queue lt = elim (Bool-cases (key t == mutex)) [
  | inl e ↦ ground arith
  | inr e ↦
      let nowhere : occurrences t (same_key mutex key queue) ≡ 0 =
        occurrences-same_key mutex key t queue ∙ rw e refl in
      absurd (omega arith)
]

next_word-some :
    (t : ℕ) (queue : List ℕ) (tag : ℕ)
    → 0 < occurrences t queue
    → next_word queue tag ≡ with_waiters tag
next_word-some t [] tag lt = absurd (omega arith)
next_word-some t (x ∷ queue) tag lt = refl

Ensures-imp :
    (P Q : Unlock → Type 0) (r : Result Unlock)
    → ((u : Unlock) → P u → Q u)
    → Ensures P r
    → Ensures Q r
Ensures-imp P Q (ok u) f h = f u h
Ensures-imp P Q (err e) f h = tt

module _ (thread_of : ℕ → Option ℕ)
    (small : (handle t : ℕ) → thread_of handle ≡ some t → handle < 2 ^ 30)
    (calling mutex handle : ℕ) (s : Kernel) (c : Consistent thread_of s)
    (runs : s.wait_thread calling ≡ none) (own : thread_of handle ≡ some calling)
    (word : (s.memory mutex ≡ handle) ⊎ (s.memory mutex ≡ with_waiters handle)) where
  -- Those that wait on a mutex of the calling thread wait for it.
  waits-calling : (t o : ℕ) → s.wait_thread t ≡ some o → s.wait_key t ≡ mutex → o ≡ calling
  waits-calling t o w k =
      let ((h, m, n), tag) = waiting thread_of s t o c.1 w in
      let there : s.memory mutex ≡ with_waiters h = ap s.memory (sym k) ∙ m in
      let below = small h o n in
      let own_below = small handle calling own in
      let that : h ≡ handle = elim word [
        | inl e ↦ absurd (bits h handle below own_below (sym there ∙ e))
        | inr e ↦ bits_equal h handle below own_below (sym there ∙ e)
      ] in
      some-injective (sym n ∙ ap thread_of that ∙ own)

  stands :
      (t o : ℕ)
      → s.wait_thread t ≡ some o
      → s.wait_key t ≡ mutex
      → 0 < occurrences t (s.waiters calling)
  stands t o w k = Linked-stands s t calling c.0 (w ∙ ap some (waits-calling t o w k))

  unlock_none-Consistent :
      All (λ x. s.wait_key x ≢ mutex) (s.waiters calling) → Consistent thread_of (store mutex 0 s)
  unlock_none-Consistent a = store-Consistent thread_of small mutex 0 s c (λ t o w k.
      All-occurrences (λ x. s.wait_key x ≢ mutex) t (s.waiters calling) a (stands t o w k) k)

  module _ (before : List ℕ) (next : ℕ) (after : List ℕ)
      (e : s.waiters calling ≡ before ++ next ∷ after) (a : All (λ x. s.wait_key x ≢ mutex) before)
      (next_key : s.wait_key next ≡ mutex) where
    -- The kept tags and keys.
    kept_key :
        (t : ℕ)
        → (next == t) ≡ false
        → (handed calling mutex before next after s).wait_key t ≡ s.wait_key t
    kept_key t n =
        let back : (t == next) ≡ false = ground arith in
        let (memory, key, tag) =
          transfer-rest next (same_key mutex s.wait_key after)
            (release calling next (before ++ other_keys mutex s.wait_key after) s) in
        ap (λ f. f t) key ∙ rw back refl

    next_waits : s.wait_thread next ≡ some calling
    next_waits = Linked-waits s next calling c.0 (
        subst (λ l. 0 < occurrences next l) (sym e)
          (let sum = occurrences-append next before (next ∷ after) in ground arith))

    moved_waits :
        (t : ℕ)
        → 0 < occurrences t (same_key mutex s.wait_key after)
        → s.wait_thread t ≡ some calling
    moved_waits t lt = Linked-waits s t calling c.0 (
        subst (λ l. 0 < occurrences t l) (sym e)
          (let sum = occurrences-append t before (next ∷ after) in
            let split = occurrences-split mutex s.wait_key t after in ground arith))

    -- A thread that still waits for the calling one waits on another mutex.
    kept_other :
        (t o : ℕ)
        → (next == t) ≡ false
        → occurrences t (same_key mutex s.wait_key after) ≡ 0
        → s.wait_thread t ≡ some o
        → s.wait_key t ≢ mutex
    kept_other t o n z w k =
        let there : occurrences t (s.waiters calling)
            ≡ occurrences t before + (one t next + occurrences t after) =
          ap (occurrences t) e ∙ occurrences-append t before (next ∷ after) in
        let stood = stands t o w k in
        let keyed : occurrences t after ≡ 0 =
          sym (rw (==-true (s.wait_key t) mutex k) refl)
          ∙ sym (occurrences-same_key mutex s.wait_key t after)
          ∙ z in
        All-occurrences (λ x. s.wait_key x ≢ mutex) t before a (ground arith) k

    -- The state after the exchange of the word.
    abbrev passed : Kernel
    passed =
        store mutex
          (next_word (same_key mutex s.wait_key after)
            ((handed calling mutex before next after s).wait_tag next))
          (handed calling mutex before next after s)

    moved-OwnedBy :
        (t : ℕ)
        → (next == t) ≡ false
        → 0 < occurrences t (same_key mutex s.wait_key after)
        → OwnedBy thread_of t (some next) passed
    moved-OwnedBy t n lt =
        let (memory, key, tag) =
          transfer-rest next (same_key mutex s.wait_key after)
            (release calling next (before ++ other_keys mutex s.wait_key after) s) in
        let on : s.wait_key t ≡ mutex = same_key-on mutex s.wait_key t after lt in
        (
          (
            s.wait_tag next,
            ap passed.memory (kept_key t n ∙ on)
                ∙ rw (==-true mutex mutex refl)
                    (next_word-some t (same_key mutex s.wait_key after) _ lt)
                ∙ ap (λ f. with_waiters (f next)) tag,
            (waiting thread_of s next calling c.1 next_waits).1,
          ),
          ap (λ f. thread_of (f t)) tag ∙ (waiting thread_of s t calling c.1 (moved_waits t lt)).1,
        )

    kept-OwnedBy :
        (t o : ℕ)
        → (next == t) ≡ false
        → occurrences t (same_key mutex s.wait_key after) ≡ 0
        → s.wait_thread t ≡ some o
        → OwnedBy thread_of t (some o) passed
    kept-OwnedBy t o n z w =
        let (memory, key, tag) =
          transfer-rest next (same_key mutex s.wait_key after)
            (release calling next (before ++ other_keys mutex s.wait_key after) s) in
        let ((h, m, names), own_tag) = waiting thread_of s t o c.1 w in
        (
          (
            h,
            ap passed.memory (kept_key t n)
                ∙ rw (==-false (s.wait_key t) mutex (kept_other t o n z w))
                    (ap (λ f. f (s.wait_key t)) memory)
                ∙ m,
            names,
          ),
          ap (λ f. thread_of (f t)) tag ∙ own_tag,
        )

    passed-Consistent : Consistent thread_of passed
    passed-Consistent = (
      handed-Linked calling mutex before next after s c.0 runs e,
      λ t. elim (Bool-cases (next == t)) [
        | inl n ↦
            subst (λ w. OwnedBy thread_of t w passed)
              (sym (handed-free calling mutex before next after s c.0 runs e t n)) tt
        | inr n ↦ elim (zero-or-more (occurrences t (same_key mutex s.wait_key after))) [
          | inl z ↦
              let back : (t == next) ≡ false = ground arith in
              if_waiting thread_of t _ passed (λ o w. kept-OwnedBy t o n z (
                sym (
                  transfer-stays next (same_key mutex s.wait_key after)
                    (release calling next (before ++ other_keys mutex s.wait_key after) s) t z
                  ∙ rw back refl)
                ∙ w))
          | inr lt ↦
              subst (λ w. OwnedBy thread_of t w passed)
                (sym (
                  transfer-moves next (same_key mutex s.wait_key after)
                    (release calling next (before ++ other_keys mutex s.wait_key after) s) t lt))
                (moved-OwnedBy t n lt)
        ]
      ],
    )

  Effect-Consistent :
      (found : Option (List ℕ × ℕ × List ℕ)) (s' : Kernel)
      → Found mutex s.wait_key (s.waiters calling) found
      → Effect calling mutex found s s'
      → Consistent thread_of s'
  Effect-Consistent none s' a h =
      Same-Consistent thread_of (store mutex 0 s) s' h (unlock_none-Consistent a)
  Effect-Consistent (some (before, next, after)) s' (e, k, a) h =
      Same-Consistent thread_of _ s' h (passed-Consistent before next after e a k)

  pub mutex_unlock-Consistent :
      Ensures (λ u. Consistent thread_of (unlock_state u)) (mutex_unlock calling mutex s)
  mutex_unlock-Consistent =
      Ensures-imp
        (λ u.
          Effect calling mutex (find_waiter mutex s.wait_key (s.waiters calling)) s
            (unlock_state u))
        (λ u. Consistent thread_of (unlock_state u)) (mutex_unlock calling mutex s)
        (λ u h.
          Effect-Consistent (find_waiter mutex s.wait_key (s.waiters calling)) (unlock_state u)
            (find_waiter-Found mutex s.wait_key (s.waiters calling)) h)
        (mutex_unlock-Effect calling mutex s)
