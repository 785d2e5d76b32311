-- ===== src/Mutex/Linked.antt =====
-- The queues of waiters of kernel/types/KProcess.cpp and `waitThread`, under a change of owners.
use skyline.Base.{
  ℕ, ◌+◌, ◌≤◌, ◌<◌, ◌≡◌, ◌≢◌, refl, sym, ap, subst, ◌∙◌, true, false, List, ◌∷◌, ◌++◌, Option, none,
  some, ◌==◌, if◌then◌else◌, arith, Bool-cases, inl, inr,
}
use skyline.Scheduler.{Scheduler}
use skyline.Mutex.{Kernel, same_key, other_keys, release, handed, wait_for}
use skyline.Mutex.Counts.{
  one, occurrences, occurrences-append, occurrences-insert_by_priority, occurrences-split,
  zero-or-more, transfer-waiters, transfer-stays, transfer-moves,
}

-- One where a thread waits for this owner.
abbrev pub waits_on : ℕ → Option ℕ → ℕ
waits_on owner none = 0
waits_on owner (some other) = one owner other

pub waits_on-some : (o : ℕ) (w : Option ℕ) → 0 < waits_on o w → w ≡ some o
waits_on-some o none lt = ground arith
waits_on-some o (some p) lt = ap some (ground arith)

waits_on-le : (o : ℕ) (w : Option ℕ) → waits_on o w ≤ 1
waits_on-le o none = omega arith
waits_on-le o (some p) = ground arith

abbrev LinkedAt : ℕ → ℕ → Kernel → Type 0
LinkedAt t o s = occurrences t (s.waiters o) ≡ waits_on o (s.wait_thread t)

-- A thread stands once among the waiters of the thread that it waits for, and among no others.
abbrev pub Linked : Kernel → Type 0
Linked s = (t o : ℕ) → LinkedAt t o s

pub Linked-waits :
    (s : Kernel) (t o : ℕ) → Linked s → 0 < occurrences t (s.waiters o) → s.wait_thread t ≡ some o
Linked-waits s t o l lt = waits_on-some o (s.wait_thread t) (subst (λ n. 0 < n) (l t o) lt)

pub Linked-stands :
    (s : Kernel) (t o : ℕ) → Linked s → s.wait_thread t ≡ some o → 0 < occurrences t (s.waiters o)
Linked-stands s t o l e =
    let there : occurrences t (s.waiters o) ≡ one o o = l t o ∙ ap (waits_on o) e in ground arith

-- How often a thread is among those that wait on the mutex, and among the others.
abbrev moves : ℕ → List ℕ → Kernel → ℕ → ℕ
moves mutex after s t = occurrences t (same_key mutex s.wait_key after)

abbrev stays : ℕ → List ℕ → Kernel → ℕ → ℕ
stays mutex after s t = occurrences t (other_keys mutex s.wait_key after)

module _ (calling mutex : ℕ) (before : List ℕ) (next : ℕ) (after : List ℕ) (s : Kernel)
    (l : Linked s) (runs : s.wait_thread calling ≡ none)
    (e : s.waiters calling ≡ before ++ next ∷ after) where
  -- The places of a thread before.
  places :
      (t : ℕ)
      → occurrences t before + (one t next + (moves mutex after s t + stays mutex after s t))
        ≡ waits_on calling (s.wait_thread t)
  places t =
      let whole : occurrences t before + (one t next + occurrences t after)
          ≡ waits_on calling (s.wait_thread t) =
        sym (occurrences-append t before (next ∷ after))
        ∙ ap (occurrences t) (sym e)
        ∙ l t calling in
      let split = occurrences-split mutex s.wait_key t after in omega arith

  pub next-ne : next ≢ calling
  next-ne h =
      let none_stands : occurrences calling before
            + (one calling next + (moves mutex after s calling + stays mutex after s calling))
          ≡ 0 =
        places calling ∙ ap (waits_on calling) runs in
      ground arith

  -- The places of a thread afterwards.
  handed-places :
      (t o : ℕ)
      → occurrences t ((handed calling mutex before next after s).waiters o)
        ≡ (if o == calling
            then occurrences t before + stays mutex after s t
            else occurrences t (s.waiters o))
          + (if o == next then moves mutex after s t else 0)
  handed-places t o =
      transfer-waiters next (same_key mutex s.wait_key after)
        (release calling next (before ++ other_keys mutex s.wait_key after) s) t o
      ∙ elim (Bool-cases (o == calling)) [
        | inl c ↦ rw c (rw (occurrences-append t before (other_keys mutex s.wait_key after)) refl)
        | inr c ↦ rw c refl
      ]

  -- A thread that waited for the calling one waits for no other.
  elsewhere :
      (t o : ℕ)
      → 0 < waits_on calling (s.wait_thread t)
      → (o == calling) ≡ false
      → occurrences t (s.waiters o) ≡ 0
  elsewhere t o w c =
      let other : one o calling ≡ 0 = ground arith in
      l t o ∙ ap (waits_on o) (waits_on-some calling (s.wait_thread t) w) ∙ other

  -- The next owner waits for none.
  pub handed-free :
      (t : ℕ) → (next == t) ≡ true → (handed calling mutex before next after s).wait_thread t ≡ none
  handed-free t n =
      let total = places t in
      let most = waits_on-le calling (s.wait_thread t) in
      let back : (t == next) ≡ true = ground arith in
      let none_moves : moves mutex after s t ≡ 0 = ground arith in
      transfer-stays next (same_key mutex s.wait_key after)
        (release calling next (before ++ other_keys mutex s.wait_key after) s) t none_moves
      ∙ rw back refl

  handed-next :
      (t o : ℕ) → (next == t) ≡ true → LinkedAt t o (handed calling mutex before next after s)
  handed-next t o n =
      let total = places t in
      let most = waits_on-le calling (s.wait_thread t) in
      let none_moves : moves mutex after s t ≡ 0 = ground arith in
      let none_stays : occurrences t before + stays mutex after s t ≡ 0 = ground arith in
      let some_before : 0 < waits_on calling (s.wait_thread t) = ground arith in
      handed-places t o
      ∙ elim (Bool-cases (o == calling)) [
        | inl c ↦ rw c (ground arith)
        | inr c ↦ let nowhere = elsewhere t o some_before c in rw c (ground arith)
      ]
      ∙ sym (ap (waits_on o) (handed-free t n))

  handed-moved :
      (t o : ℕ)
      → (next == t) ≡ false
      → 0 < moves mutex after s t
      → LinkedAt t o (handed calling mutex before next after s)
  handed-moved t o n lt =
      let total = places t in
      let most = waits_on-le calling (s.wait_thread t) in
      let distinct = next-ne in
      let one_moves : moves mutex after s t ≡ 1 = ground arith in
      let none_stays : occurrences t before + stays mutex after s t ≡ 0 = ground arith in
      let some_before : 0 < waits_on calling (s.wait_thread t) = ground arith in
      let left : Kernel = release calling next (before ++ other_keys mutex s.wait_key after) s in
      handed-places t o
      ∙ elim (Bool-cases (o == calling)) [
        | inl c ↦ rw c (ground arith)
        | inr c ↦ let nowhere = elsewhere t o some_before c in rw c (ground arith)
      ]
      ∙ sym (ap (waits_on o) (transfer-moves next (same_key mutex s.wait_key after) left t lt))

  handed-kept :
      (t o : ℕ)
      → (next == t) ≡ false
      → moves mutex after s t ≡ 0
      → LinkedAt t o (handed calling mutex before next after s)
  handed-kept t o n z =
      let total = places t in
      let back : (t == next) ≡ false = ground arith in
      let left : Kernel = release calling next (before ++ other_keys mutex s.wait_key after) s in
      let waits_for : (handed calling mutex before next after s).wait_thread t ≡ s.wait_thread t =
        transfer-stays next (same_key mutex s.wait_key after) left t z ∙ rw back refl in
      handed-places t o
      ∙ elim (Bool-cases (o == calling)) [
        | inl c ↦
            let owner : waits_on o (s.wait_thread t) ≡ waits_on calling (s.wait_thread t) =
              ap (λ p. waits_on p (s.wait_thread t)) (ground arith) in
            rw c (ground arith)
        | inr c ↦ let there = l t o in rw c (ground arith)
      ]
      ∙ sym (ap (waits_on o) waits_for)

  -- The change of owners keeps the queues and `waitThread` in step.
  pub handed-Linked : Linked (handed calling mutex before next after s)
  handed-Linked t o = elim (Bool-cases (next == t)) [
    | inl n ↦ handed-next t o n
    | inr n ↦ elim (zero-or-more (moves mutex after s t)) [
      | inl z ↦ handed-kept t o n z
      | inr lt ↦ handed-moved t o n lt
    ]
  ]

-- A thread that waits for no other joins the waiters of an owner.
pub wait_for-Linked :
    (calling owner mutex tag : ℕ) (left : Scheduler) (s : Kernel)
    → Linked s
    → s.wait_thread calling ≡ none
    → Linked (wait_for calling owner mutex tag left s)
wait_for-Linked calling owner mutex tag left s l runs t o =
    joined ∙ elim (Bool-cases (t == calling)) [
      | inl c ↦
          let none_stand : occurrences t (s.waiters o) ≡ 0 =
            l t o ∙ ap (λ p. waits_on o (s.wait_thread p)) (ground arith) ∙ ap (waits_on o) runs in
          rw c (ground arith)
      | inr c ↦ let there = l t o in rw c (ground arith)
    ]
  where
    joined :
        occurrences t ((wait_for calling owner mutex tag left s).waiters o)
        ≡ (if o == owner then one t calling else 0) + occurrences t (s.waiters o)
    joined = elim (Bool-cases (o == owner)) [
      | inl e ↦
          let place : o ≡ owner = ground arith in
          rw e (
            occurrences-insert_by_priority s.scheduler.priority t calling (s.waiters owner)
            ∙ ap (λ p. one t calling + occurrences t (s.waiters p)) (sym place))
      | inr e ↦ rw e (omega arith)
    ]
