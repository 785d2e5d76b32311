-- ===== src/Syncpoint.antt =====
-- The host1x syncpoint: app/src/main/cpp/skyline/soc/host1x/syncpoint.h and syncpoint.cpp.
-- A callback is a number; a node of the waiter list is named by its handle, counted up by `emplace`.
-- What a thread reads before it takes the mutex is an argument, `seen`.
pub mod Waiters
pub mod Accounts
pub mod Interleaving
mod Tests
use skyline.Base.{
  ℕ, ◌+◌, ◌%◌, ◌^◌, Bool, true, false, List, [], ◌∷◌, Option, none, some, ltb, leb, ◌==◌,
  if◌then◌else◌,
}

pub record Waiter : Type 0 where
  pub threshold : ℕ
  pub callback : Option ℕ
  pub handle : ℕ

pub record Syncpoint : Type 0 where
  pub value : ℕ
  pub waiters : List Waiter
  pub next_handle : ℕ

abbrev pub init : Syncpoint
init = record { value = 0; waiters = []; next_handle = 1 }

unfoldable pub load : Syncpoint → ℕ
load s = s.value

-- Behind every waiter whose threshold is not above the new one.
unfoldable pub insert_waiter : Waiter → List Waiter → List Waiter
insert_waiter w [] = w ∷ []
insert_waiter w (v ∷ ws) =
    if leb v.threshold w.threshold then v ∷ insert_waiter w ws else w ∷ v ∷ ws

abbrev pub emplace : Syncpoint → ℕ → Option ℕ → Syncpoint
emplace s threshold callback = record s {
  waiters =
      insert_waiter (record { threshold = threshold; callback = callback; handle = s.next_handle })
        s.waiters;
  next_handle = s.next_handle + 1;
}

-- The new state, the callbacks that were called, and the handle (`none` is the empty one).
unfoldable pub register_waiter : Syncpoint → ℕ → ℕ → ℕ → Syncpoint × List ℕ × Option ℕ
unfolding insert_waiter
register_waiter s seen threshold callback =
    if leb threshold seen
    then (s, callback ∷ [], none)
    else if leb threshold s.value
    then (s, callback ∷ [], none)
    else (emplace s threshold (some callback), [], some s.next_handle)

unfoldable pub erase_handle : ℕ → List Waiter → List Waiter
erase_handle h [] = []
erase_handle h (w ∷ ws) = if w.handle == h then ws else w ∷ erase_handle h ws

unfoldable pub deregister_waiter : Syncpoint → ℕ → Syncpoint
unfolding erase_handle
deregister_waiter s h = record s { waiters = erase_handle h s.waiters }

-- `value.fetch_add(1) + 1`, which happens before the mutex is taken.
unfoldable pub bump : Syncpoint → ℕ × Syncpoint
bump s = let v : ℕ = (s.value + 1) % 2 ^ 32 in (v, record s { value = v })

-- What the loop over the waiters calls, whether it signals the condition, and whom it leaves.
pub record Woken : Type 0 where
  pub called : List ℕ
  pub signal : Bool
  pub rest : List Waiter

abbrev pub wake_one : Option ℕ → Woken → Woken
wake_one none r = record r { signal = true }
wake_one (some f) r = record r { called = f ∷ r.called }

unfoldable pub wake : ℕ → List Waiter → Woken
wake read_value [] = record { called = []; signal = false; rest = [] }
wake read_value (w ∷ ws) =
    if leb w.threshold read_value
    then wake_one w.callback (wake read_value ws)
    else record { called = []; signal = false; rest = w ∷ ws }

-- The part of `Increment` that holds the mutex.
unfoldable pub wake_waiters : Syncpoint → ℕ → Syncpoint × Woken
unfolding wake
wake_waiters s read_value = let r = wake read_value s.waiters in (record s { waiters = r.rest }, r)

unfoldable pub increment : Syncpoint → ℕ × Syncpoint × Woken
unfolding bump wake_waiters
increment s = let (v, s') = bump s in let (s'', r) = wake_waiters s' v in (v, s'', r)

-- `Wait`: `some b` if it returns `b` at once, `none` if the thread blocks on the condition, whose
-- test is `wait_test`.
unfoldable pub wait_test : Syncpoint → ℕ → Bool
wait_test s threshold = leb threshold s.value

unfoldable pub wait : Syncpoint → ℕ → ℕ → Syncpoint × Option Bool
unfolding insert_waiter wait_test
wait s seen threshold =
    if leb threshold seen
    then (s, some false)
    else let s' = emplace s threshold none in
      if wait_test s' threshold then (s', some true) else (s', none)
