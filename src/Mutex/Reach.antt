-- ===== src/Mutex/Reach.antt =====
-- The calls of MutexLock and MutexUnlock of kernel/types/KProcess.cpp by the guest's threads, in any
-- order, with what the guest writes itself.
use skyline.Base.{ℕ, ◌^◌, ◌<◌, ◌≡◌, ◌⊎◌, refl, subst, false, [], Option, none, some, ok, Ensures}
use skyline.Scheduler.{Scheduler}
use skyline.Mutex.{Kernel, has_waiters, with_waiters, store, Lock, mutex_lock, Unlock, mutex_unlock}
use skyline.Mutex.Effects.{unlock_state}
use skyline.Mutex.Owned.{
  lock_state, Consistent, Same-Consistent, write-Consistent, mutex_lock-Consistent,
}
use skyline.Mutex.Unlocking.{mutex_unlock-Consistent}

-- A call comes from a thread that runs, so that it waits for none; it locks with its own handle, and
-- unlocks what is its own. The guest itself writes only words whose bit is not set. What the scheduler
-- does in between, and the base priorities, are arbitrary.
pub data Step (thread_of : ℕ → Option ℕ) : Kernel → Kernel → Type 0 where
  locks :
      (now calling mutex owner_handle tag : ℕ) (s : Kernel) (r : Lock)
      → s.wait_thread calling ≡ none
      → thread_of tag ≡ some calling
      → mutex_lock thread_of now calling mutex owner_handle tag s ≡ ok r
      → Step thread_of s (lock_state r)
  unlocks :
      (calling mutex handle : ℕ) (s : Kernel) (u : Unlock)
      → s.wait_thread calling ≡ none
      → thread_of handle ≡ some calling
      → (s.memory mutex ≡ handle) ⊎ (s.memory mutex ≡ with_waiters handle)
      → mutex_unlock calling mutex s ≡ ok u
      → Step thread_of s (unlock_state u)
  writes :
      (mutex word : ℕ) (s : Kernel)
      → has_waiters (s.memory mutex) ≡ false
      → Step thread_of s (store mutex word s)
  schedules :
      (scheduler : Scheduler) (base_priority : ℕ → ℕ) (s : Kernel)
      → Step thread_of s (record s { scheduler = scheduler; base_priority = base_priority })

-- From a state on in which no thread waits.
pub data Reach (thread_of : ℕ → Option ℕ) : Kernel → Type 0 where
  start :
      (s : Kernel)
      → ((t : ℕ) → s.wait_thread t ≡ none)
      → ((o : ℕ) → s.waiters o ≡ [])
      → Reach thread_of s
  step : (s s' : Kernel) → Reach thread_of s → Step thread_of s s' → Reach thread_of s'

module _ (thread_of : ℕ → Option ℕ)
    (small : (handle t : ℕ) → thread_of handle ≡ some t → handle < 2 ^ 30) where
  Step-Consistent :
      {s s' : Kernel} → Step thread_of s s' → Consistent thread_of s → Consistent thread_of s'
  Step-Consistent (locks now calling mutex owner_handle tag s r runs g e) c =
      subst (Ensures (λ r. Consistent thread_of (lock_state r))) e
        (mutex_lock-Consistent thread_of small now calling mutex owner_handle tag s g runs c)
  Step-Consistent (unlocks calling mutex handle s u runs own word e) c =
      subst (Ensures (λ u. Consistent thread_of (unlock_state u))) e
        (mutex_unlock-Consistent thread_of small calling mutex handle s c runs own word)
  Step-Consistent (writes mutex word s clear) c =
      write-Consistent thread_of small mutex word s c clear
  Step-Consistent (schedules scheduler base_priority s) c =
      Same-Consistent thread_of s _ (refl, refl, refl, refl, refl) c

  -- Where handles are below the bit and no thread waits at first, after calls in any order that keep to
  -- the protocol - a thread that waits for none locks with its own handle as the tag, or unlocks a mutex
  -- whose word is its own handle, with or without the bit - between which the guest writes only words
  -- whose bit is clear, and the scheduler and the base priorities change as they like: a thread stands once among the waiters of the thread that it waits for and among no others; the word that it
  -- waits on is the handle of that thread with the bit set; and its tag is its own handle.
  pub Reach-Consistent : {s : Kernel} → Reach thread_of s → Consistent thread_of s
  Reach-Consistent (start s free empty) =
      (λ t o. rw (empty o) (rw (free t) refl), λ t. rw (free t) tt)
  Reach-Consistent (step s s' r t) = Step-Consistent t (Reach-Consistent r)
