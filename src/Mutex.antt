-- ===== src/Mutex.antt =====
-- The mutexes of the guest: kernel/types/KProcess.cpp, MutexLock and MutexUnlock, and the inheritance of
-- priorities in kernel/types/KThread.cpp. A mutex is the address of a word of the guest, which holds
-- the handle of its owner and a bit that is set while threads wait. The members run one after another,
-- so that an exchange succeeds. A field of the threads is a function of the thread; the threads behind
-- handles, the time and the calling thread, `state.thread`, are arguments.
pub mod Effects
pub mod Counts
pub mod Linked
pub mod Owned
pub mod Unlocking
pub mod Reach
pub mod Inheritance
mod Tests
use skyline.Base.{
  ℕ, ◌+◌, ◌*◌, ◌/◌, ◌%◌, ◌^◌, Bool, true, false, ◌&&◌, not, List, [], ◌∷◌, ◌++◌, Option, none, some,
  leb, ◌==◌, min, if◌then◌else◌, Result, ok, ◌>>=◌,
}
use skyline.PriorityQueue.{update, insert_by_priority}
use skyline.Scheduler.{Scheduler, Insertion, inserted, waiting, insert_thread, remove_thread}
use skyline.Scheduler.Operations.{would_run, update_priority}

pub record Kernel : Type 0 where
  pub scheduler : Scheduler
  pub memory : ℕ → ℕ
  pub base_priority : ℕ → ℕ
  pub wait_key : ℕ → ℕ
  pub wait_tag : ℕ → ℕ
  pub wait_thread : ℕ → Option ℕ
  pub waiters : ℕ → List ℕ

-- `word & HandleWaitersBit`
abbrev pub has_waiters : ℕ → Bool
has_waiters word = ((word / 2 ^ 30) % 2) == 1

-- `handle | HandleWaitersBit`
abbrev pub with_waiters : ℕ → ℕ
with_waiters handle = if has_waiters handle then handle else handle + 2 ^ 30

abbrev pub store : ℕ → ℕ → Kernel → Kernel
store mutex word s = record s { memory = update s.memory mutex word }

abbrev pub set_scheduler : Scheduler → Kernel → Kernel
set_scheduler scheduler s = record s { scheduler = scheduler }

abbrev pub ranked : ℕ → ℕ → Scheduler → Scheduler
ranked thread priority scheduler = record scheduler {
  priority = update scheduler.priority thread priority;
}

abbrev pub set_priority : ℕ → ℕ → Kernel → Kernel
set_priority thread priority s = set_scheduler (ranked thread priority s.scheduler) s

-- A thread takes the priority of one that waits for it, unless its own is as high. The loop ends there,
-- since the priority that it reads again is the new one.
abbrev pub inherit : Option ℕ → ℕ → Kernel → Kernel
inherit none priority s = s
inherit (some owner) priority s =
    if leb (s.scheduler.priority owner) priority then s else set_priority owner priority s

unfoldable pub update_priority_inheritance : ℕ → Kernel → Kernel
update_priority_inheritance thread s =
    inherit (s.wait_thread thread) (s.scheduler.priority thread) s

pub data MutexResult : Type 0 where
  success invalid_current_memory invalid_handle : MutexResult

-- A call of `MutexLock` that returns, or that waits to be scheduled as the owner.
pub data Lock : Type 0 where
  returned : MutexResult → Kernel → Lock
  waits : Kernel → Lock

-- The calling thread waits for the owner, among those that do.
abbrev pub wait_for : ℕ → ℕ → ℕ → ℕ → Scheduler → Kernel → Kernel
wait_for calling owner mutex tag left s = record s {
  scheduler = left;
  waiters =
      update s.waiters owner (insert_by_priority s.scheduler.priority calling (s.waiters owner));
  wait_thread = update s.wait_thread calling (some owner);
  wait_key = update s.wait_key calling mutex;
  wait_tag = update s.wait_tag calling tag;
}

-- `isHighestPriority`
abbrev pub inherit_first : Bool → ℕ → Kernel → Kernel
inherit_first highest calling s = if highest then update_priority_inheritance calling s else s

abbrev pub lock_after : ℕ → ℕ → ℕ → ℕ → Kernel → Scheduler → Result Lock
lock_after calling owner mutex tag s left = ok (
    waits (
      inherit_first (would_run calling (s.waiters owner) s.scheduler) calling
        (wait_for calling owner mutex tag left s)))

abbrev pub lock_owned : Option ℕ → ℕ → ℕ → ℕ → ℕ → ℕ → Kernel → Result Lock
lock_owned none now calling mutex owner_handle tag s = ok (
    returned
      (if s.memory mutex == with_waiters owner_handle
        then invalid_handle
        else invalid_current_memory)
      s)
lock_owned (some owner) now calling mutex owner_handle tag s =
    if s.memory mutex == 0
    then ok (returned success (store mutex tag s))
    else if not (s.memory mutex == with_waiters owner_handle)
    then ok (returned invalid_current_memory s)
    else remove_thread now calling s.scheduler >>= lock_after calling owner mutex tag s

-- `thread_of` is the thread of a handle, if it has one.
unfoldable pub mutex_lock : (ℕ → Option ℕ) → ℕ → ℕ → ℕ → ℕ → ℕ → Kernel → Result Lock
unfolding remove_thread update_priority_inheritance
mutex_lock thread_of now calling mutex owner_handle tag s =
    lock_owned (thread_of owner_handle) now calling mutex owner_handle tag s

-- The first thread that waits on a mutex, with those before and after it.
abbrev pub found_after : ℕ → Option (List ℕ × ℕ × List ℕ) → Option (List ℕ × ℕ × List ℕ)
found_after thread none = none
found_after thread (some (before, next, after)) = some (thread ∷ before, next, after)

unfoldable pub find_waiter : ℕ → (ℕ → ℕ) → List ℕ → Option (List ℕ × ℕ × List ℕ)
find_waiter mutex key [] = none
find_waiter mutex key (thread ∷ queue) =
    let rest = find_waiter mutex key queue in
    if key thread == mutex then some ([], thread, queue) else found_after thread rest

-- The threads that wait on the mutex, and those that wait on others.
unfoldable pub same_key : ℕ → (ℕ → ℕ) → List ℕ → List ℕ
same_key mutex key [] = []
same_key mutex key (thread ∷ queue) =
    let rest = same_key mutex key queue in if key thread == mutex then thread ∷ rest else rest

unfoldable pub other_keys : ℕ → (ℕ → ℕ) → List ℕ → List ℕ
other_keys mutex key [] = []
other_keys mutex key (thread ∷ queue) =
    let rest = other_keys mutex key queue in if key thread == mutex then rest else thread ∷ rest

-- The next owner no longer waits; the calling thread keeps those of its waiters that wait on others.
abbrev pub release : ℕ → ℕ → List ℕ → Kernel → Kernel
release calling next kept s = record s {
  wait_thread = update s.wait_thread next none;
  wait_key = update s.wait_key next 0;
  waiters = update s.waiters calling kept;
}

-- A thread waits for the next owner.
abbrev pub hand_over : ℕ → ℕ → Kernel → Kernel
hand_over next thread s = record s {
  waiters = update s.waiters next (insert_by_priority s.scheduler.priority thread (s.waiters next));
  wait_thread = update s.wait_thread thread (some next);
}

-- The loop of `MutexUnlock`, over the threads that wait on the mutex.
unfoldable pub transfer : ℕ → List ℕ → Kernel → Kernel
transfer next [] s = s
transfer next (thread ∷ queue) s = transfer next queue (hand_over next thread s)

abbrev pub reschedule : ℕ → Kernel → Result Kernel
reschedule thread s =
    update_priority thread s.scheduler >>= λ scheduler. ok (set_scheduler scheduler s)

-- The priority of a thread that has these waiters left. Where there are any, the exchange expects the
-- base priority.
abbrev pub lower_priority : ℕ → List ℕ → Kernel → Result Kernel
lower_priority thread [] s =
    if s.scheduler.priority thread == s.base_priority thread
    then ok s
    else reschedule thread (set_priority thread (s.base_priority thread) s)
lower_priority thread (first ∷ queue) s =
    let priority = min (s.base_priority thread) (s.scheduler.priority first) in
    reschedule thread (
      if not (s.base_priority thread == priority)
        && (s.scheduler.priority thread == s.base_priority thread)
      then set_priority thread priority s
      else s)

-- The word of the next owner, which inherits the priority of the first that waits for it.
abbrev pub pass_word : ℕ → ℕ → List ℕ → Kernel → Kernel
pass_word mutex next [] s = store mutex (s.wait_tag next) s
pass_word mutex next (waiter ∷ queue) s =
    store mutex (with_waiters (s.wait_tag next))
      (set_priority next (min (s.scheduler.priority next) (s.scheduler.priority waiter)) s)

-- A call of `MutexUnlock` that returns, or that waits for the next owner to be resumed.
pub data Unlock : Type 0 where
  unlocked inserting : Kernel → Unlock

abbrev pub scheduled : Kernel → Insertion → Unlock
scheduled s (inserted scheduler) = unlocked (set_scheduler scheduler s)
scheduled s (waiting scheduler) = inserting (set_scheduler scheduler s)

abbrev pub schedule_next : ℕ → ℕ → Kernel → Result Unlock
schedule_next calling next s = insert_thread calling next s.scheduler >>= λ i. ok (scheduled s i)

-- What the waiters of the calling thread and of the next owner become.
abbrev pub handed : ℕ → ℕ → List ℕ → ℕ → List ℕ → Kernel → Kernel
handed calling mutex before next after s =
    transfer next (same_key mutex s.wait_key after)
      (release calling next (before ++ other_keys mutex s.wait_key after) s)

abbrev pub unlock_found : ℕ → ℕ → Option (List ℕ × ℕ × List ℕ) → Kernel → Result Unlock
unlock_found calling mutex none s = ok (unlocked (store mutex 0 s))
unlock_found calling mutex (some (before, next, after)) s =
    let left : Kernel = handed calling mutex before next after s in
    lower_priority calling (left.waiters calling) left >>= λ lowered.
    schedule_next calling next (pass_word mutex next (same_key mutex s.wait_key after) lowered)

unfoldable pub mutex_unlock : ℕ → ℕ → Kernel → Result Unlock
unfolding find_waiter same_key other_keys transfer update_priority insert_thread
mutex_unlock calling mutex s =
    unlock_found calling mutex (find_waiter mutex s.wait_key (s.waiters calling)) s
