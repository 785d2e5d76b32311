-- ===== src/Syncpoint/Accounts.antt =====
-- The callbacks of the waiters of soc/host1x/syncpoint.cpp, and how often each is there.
use skyline.Base.{
  ℕ, ◌+◌, ◌≡◌, refl, List, [], ◌∷◌, Option, none, some, leb, ◌==◌, if◌then◌else◌, arith, Bool-cases,
  inl, inr,
}
use skyline.Base.Counts.{one, occurrences}
use skyline.Syncpoint.{Waiter, insert_waiter, erase_handle, wake, Woken, wake_one}

abbrev pub held : ℕ → Option ℕ → ℕ
held c none = 0
held c (some f) = one c f

-- How many waiters have this callback.
abbrev pub waiting : ℕ → List Waiter → ℕ
waiting c [] = 0
waiting c (w ∷ ws) = held c w.callback + waiting c ws

-- The callback of the first waiter with this handle.
abbrev pub callback_at : ℕ → List Waiter → Option ℕ
callback_at h [] = none
callback_at h (w ∷ ws) = if w.handle == h then w.callback else callback_at h ws

pub waiting-insert_waiter :
    (c : ℕ) (w : Waiter) (ws : List Waiter)
    → waiting c (insert_waiter w ws) ≡ held c w.callback + waiting c ws
unfolding insert_waiter
waiting-insert_waiter c w [] = refl
waiting-insert_waiter c w (v ∷ ws) =
    let rest = waiting-insert_waiter c w ws in
    elim (Bool-cases (leb v.threshold w.threshold)) [
      | inl e ↦ rw e (omega arith)
      | inr e ↦ rw e refl
    ]

pub waiting-erase_handle :
    (c h : ℕ) (ws : List Waiter)
    → held c (callback_at h ws) + waiting c (erase_handle h ws) ≡ waiting c ws
unfolding erase_handle
waiting-erase_handle c h [] = omega arith
waiting-erase_handle c h (w ∷ ws) =
    let rest = waiting-erase_handle c h ws in
    elim (Bool-cases (w.handle == h)) [ inl e ↦ rw e refl | inr e ↦ rw e (omega arith) ]

wake_one-waiting :
    (c : ℕ) (callback : Option ℕ) (r : Woken)
    → occurrences c (wake_one callback r).called + waiting c (wake_one callback r).rest
      ≡ held c callback + (occurrences c r.called + waiting c r.rest)
wake_one-waiting c none r = omega arith
wake_one-waiting c (some f) r = omega arith

-- What is woken is called, and the others stay.
pub waiting-wake :
    (c v : ℕ) (ws : List Waiter)
    → occurrences c (wake v ws).called + waiting c (wake v ws).rest ≡ waiting c ws
unfolding wake
waiting-wake c v [] = omega arith
waiting-wake c v (w ∷ ws) =
    let rest = waiting-wake c v ws in
    let first = wake_one-waiting c w.callback (wake v ws) in
    elim (Bool-cases (leb w.threshold v)) [
      | inl e ↦ rw e (omega arith)
      | inr e ↦ rw e (omega arith)
    ]
