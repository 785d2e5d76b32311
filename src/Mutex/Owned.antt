-- ===== src/Mutex/Owned.antt =====
-- The words of mutexes and those that wait on them, under MutexLock and MutexUnlock of
-- kernel/types/KProcess.cpp.
use skyline.Base.{
  ℕ, ◌+◌, ◌^◌, ◌<◌, ◌≡◌, ◌≢◌, refl, sym, ap, subst, ◌∙◌, Bool, true, false, Option, none, some, leb,
  ◌==◌, arith, Bool-cases, inl, inr, ==-false, Ensures, Ensures->>=, Ensures-any,
}
use skyline.Scheduler.{Scheduler, remove_thread}
use skyline.Scheduler.Operations.{would_run}
use skyline.Mutex.{
  Kernel, has_waiters, with_waiters, store, inherit, update_priority_inheritance, inherit_first,
  Lock, returned, waits, wait_for, lock_owned, mutex_lock,
}
use skyline.Mutex.Effects.{Same}
use skyline.Mutex.Linked.{Linked, wait_for-Linked}

abbrev pub lock_state : Lock → Kernel
lock_state (returned result s) = s
lock_state (waits s) = s

pub with_waiters-eq : (h : ℕ) → h < 2 ^ 30 → with_waiters h ≡ h + 2 ^ 30
with_waiters-eq h lt = ground arith

has_waiters-with_waiters : (h : ℕ) → h < 2 ^ 30 → has_waiters (with_waiters h) ≡ true
has_waiters-with_waiters h lt = rw (with_waiters-eq h lt) (ground arith)

module _ (thread_of : ℕ → Option ℕ) where
  -- The word that a thread waits on names the thread that it waits for, with the bit set, and its tag is
  -- its own handle.
  abbrev pub OwnedBy : ℕ → Option ℕ → Kernel → Type 0
  OwnedBy t none s = Unit {0}
  OwnedBy t (some owner) s =
      ((handle : ℕ) × (s.memory (s.wait_key t) ≡ with_waiters handle)
        × (thread_of handle ≡ some owner))
      × (thread_of (s.wait_tag t) ≡ some t)

  abbrev pub Owned : Kernel → Type 0
  Owned s = (t : ℕ) → OwnedBy t (s.wait_thread t) s

  -- Queues and words in step.
  abbrev pub Consistent : Kernel → Type 0
  Consistent s = Linked s × Owned s

  pub waiting : (s : Kernel) (t o : ℕ) → Owned s → s.wait_thread t ≡ some o → OwnedBy t (some o) s
  waiting s t o ow e = subst (λ w. OwnedBy t w s) e (ow t)

  pub if_waiting :
      (t : ℕ) (w : Option ℕ) (s : Kernel)
      → ((o : ℕ) → w ≡ some o → OwnedBy t (some o) s)
      → OwnedBy t w s
  if_waiting t none s h = tt
  if_waiting t (some o) s h = h o refl

  pub Same-Consistent : (s t : Kernel) → Same s t → Consistent s → Consistent t
  Same-Consistent s t (m, w, h, k, g) c =
      let moved : Kernel = record s {
        memory = t.memory;
        waiters = t.waiters;
        wait_thread = t.wait_thread;
        wait_key = t.wait_key;
        wait_tag = t.wait_tag;
      } in
      let path : s ≡ moved = λ i. record s {
        memory = sym m i;
        waiters = sym w i;
        wait_thread = sym h i;
        wait_key = sym k i;
        wait_tag = sym g i;
      } in
      let c' : Consistent moved = subst Consistent path c in
      (c'.0, λ x. if_waiting x (t.wait_thread x) t (λ o e. waiting moved x o c'.1 e))

  inherit-Same : (owner : Option ℕ) (priority : ℕ) (s : Kernel) → Same s (inherit owner priority s)
  inherit-Same none priority s = (refl, refl, refl, refl, refl)
  inherit-Same (some owner) priority s =
      elim (Bool-cases (leb (s.scheduler.priority owner) priority)) [
        | inl e ↦ rw e (refl, refl, refl, refl, refl)
        | inr e ↦ rw e (refl, refl, refl, refl, refl)
      ]

  inherit_first-Consistent :
      (b : Bool) (calling : ℕ) (s : Kernel) → Consistent s → Consistent (inherit_first b calling s)
  unfolding update_priority_inheritance
  inherit_first-Consistent true calling s c =
      Same-Consistent s _ (inherit-Same (s.wait_thread calling) (s.scheduler.priority calling) s) c
  inherit_first-Consistent false calling s c = c

  module _ (small : (handle t : ℕ) → thread_of handle ≡ some t → handle < 2 ^ 30) where
    -- A word that nobody waits on can be written.
    pub store-Consistent :
        (mutex word : ℕ) (s : Kernel)
        → Consistent s
        → ((t o : ℕ) → s.wait_thread t ≡ some o → s.wait_key t ≢ mutex)
        → Consistent (store mutex word s)
    store-Consistent mutex word s (l, ow) free = (
      l,
      λ t.
          if_waiting t (s.wait_thread t) (store mutex word s)
            (λ o e. rw (==-false (s.wait_key t) mutex (free t o e)) (waiting s t o ow e)),
    )

    pub write-Consistent :
        (mutex word : ℕ) (s : Kernel)
        → Consistent s
        → has_waiters (s.memory mutex) ≡ false
        → Consistent (store mutex word s)
    write-Consistent mutex word s c clear = store-Consistent mutex word s c (λ t o e k.
        let ((handle, m, h), tag) = waiting s t o c.1 e in
        let set : has_waiters (s.memory mutex) ≡ true =
          ap (λ a. has_waiters (s.memory a)) (sym k)
          ∙ ap has_waiters m
          ∙ has_waiters-with_waiters handle (small handle o h) in
        cc)

    -- A thread joins the waiters of the owner that the word names.
    wait_for-Consistent :
        (calling owner mutex owner_handle tag : ℕ) (left : Scheduler) (s : Kernel)
        → thread_of owner_handle ≡ some owner
        → thread_of tag ≡ some calling
        → s.wait_thread calling ≡ none
        → s.memory mutex ≡ with_waiters owner_handle
        → Consistent s
        → Consistent (wait_for calling owner mutex tag left s)
    wait_for-Consistent calling owner mutex owner_handle tag left s h g runs m c = (
      wait_for-Linked calling owner mutex tag left s c.0 runs,
      λ t. elim (Bool-cases (t == calling)) [
        | inl e ↦
            let here : t ≡ calling = ground arith in
            rw e (rw e ((owner_handle, m, h), g ∙ ap some (sym here)))
        | inr e ↦ rw e (if_waiting t (s.wait_thread t) _ (λ o w. rw e (waiting s t o c.1 w)))
      ],
    )

    lock_owned-Consistent :
        (owner : Option ℕ) (now calling mutex owner_handle tag : ℕ) (s : Kernel)
        → thread_of owner_handle ≡ owner
        → thread_of tag ≡ some calling
        → s.wait_thread calling ≡ none
        → Consistent s
        → Ensures
            (λ r. Consistent (lock_state r))
            (lock_owned owner now calling mutex owner_handle tag s)
    lock_owned-Consistent none now calling mutex owner_handle tag s h g runs c = c
    lock_owned-Consistent (some owner) now calling mutex owner_handle tag s h g runs c =
        elim (Bool-cases (s.memory mutex == 0)) [
          | inl z ↦
              let clear : s.memory mutex ≡ 0 = ground arith in
              rw z (write-Consistent mutex tag s c (ap has_waiters clear))
          | inr z ↦ elim (Bool-cases (s.memory mutex == with_waiters owner_handle)) [
            | inl e ↦
                let names : s.memory mutex ≡ with_waiters owner_handle = ground arith in
                rw z (
                  rw e (
                    Ensures->>= (λ left. Unit {0}) (λ r. Consistent (lock_state r))
                      (remove_thread now calling s.scheduler) _ (Ensures-any _)
                      (λ left u.
                        inherit_first-Consistent (would_run calling (s.waiters owner) s.scheduler)
                          calling _
                          (wait_for-Consistent calling owner mutex owner_handle tag left s h g runs
                            names c))))
            | inr e ↦ rw z (rw e c)
          ]
        ]

    pub mutex_lock-Consistent :
        (now calling mutex owner_handle tag : ℕ) (s : Kernel)
        → thread_of tag ≡ some calling
        → s.wait_thread calling ≡ none
        → Consistent s
        → Ensures
            (λ r. Consistent (lock_state r))
            (mutex_lock thread_of now calling mutex owner_handle tag s)
    unfolding mutex_lock
    mutex_lock-Consistent now calling mutex owner_handle tag s g runs c =
        lock_owned-Consistent (thread_of owner_handle) now calling mutex owner_handle tag s refl g
          runs c
