-- ===== src/Syncpoint/Waiters.antt =====
-- The waiter list of soc/host1x/syncpoint.cpp.
use skyline.Base.{
  ℕ, ◌+◌, ◌%◌, ◌^◌, ◌≤◌, ◌<◌, ◌≡◌, refl, List, [], ◌∷◌, Option, none, some, leb, if◌then◌else◌,
  arith, Bool-cases, inl, inr,
}
use skyline.Syncpoint.{
  Waiter, Syncpoint, insert_waiter, erase_handle, Woken, wake, wake_one, increment,
}

-- Thresholds rise along the list, from `t` on.
abbrev pub Rising : ℕ → List Waiter → Type 0
Rising t [] = Unit {0}
Rising t (w ∷ ws) = (t ≤ w.threshold) × Rising w.threshold ws

pub Rising-mono : (t u : ℕ) (ws : List Waiter) → t ≤ u → Rising u ws → Rising t ws
Rising-mono t u [] h r = tt
Rising-mono t u (w ∷ ws) h r = (omega arith, r.1)

pub insert_waiter-Rising :
    (t : ℕ) (w : Waiter) (ws : List Waiter)
    → t ≤ w.threshold
    → Rising t ws
    → Rising t (insert_waiter w ws)
unfolding insert_waiter
insert_waiter-Rising t w [] h r = (h, tt)
insert_waiter-Rising t w (v ∷ ws) h r = ground (arith, insert_waiter-Rising v.threshold w ws)

pub erase_handle-Rising : (t h : ℕ) (ws : List Waiter) → Rising t ws → Rising t (erase_handle h ws)
unfolding erase_handle
erase_handle-Rising t h [] r = tt
erase_handle-Rising t h (w ∷ ws) r =
    ground (arith, erase_handle-Rising w.threshold h ws r.1, Rising-mono t w.threshold ws)

pub wake_one-rest : (o : Option ℕ) (r : Woken) → (wake_one o r).rest ≡ r.rest
wake_one-rest none r = refl
wake_one-rest (some f) r = refl

pub wake-Rising : (t v : ℕ) (ws : List Waiter) → Rising t ws → Rising t (wake v ws).rest
unfolding wake
wake-Rising t v [] r = tt
wake-Rising t v (w ∷ ws) r = elim (Bool-cases (leb w.threshold v)) [
  | inl e ↦
      rw (e, wake_one-rest w.callback (wake v ws))
        (Rising-mono t w.threshold (wake v ws).rest r.0 (wake-Rising w.threshold v ws r.1))
  | inr e ↦ rw e r
]

-- The callbacks of the waiters at or below `v`, in order, and those waiters that lie above it.
pub due : ℕ → List Waiter → List ℕ
due v [] = []
due v (w ∷ ws) =
    let rest = due v ws in
    if leb w.threshold v then elim w.callback [ none ↦ rest | some f ↦ f ∷ rest ] else rest

pub not_due : ℕ → List Waiter → List Waiter
not_due v [] = []
not_due v (w ∷ ws) = if leb w.threshold v then not_due v ws else w ∷ not_due v ws

due-above : (t v : ℕ) (ws : List Waiter) → v < t → Rising t ws → due v ws ≡ []
unfolding due
due-above t v [] h r = refl
due-above t v (w ∷ ws) h r = ground (arith, due-above w.threshold v ws (omega arith) r.1)

not_due-above : (t v : ℕ) (ws : List Waiter) → v < t → Rising t ws → not_due v ws ≡ ws
unfolding not_due
not_due-above t v [] h r = refl
not_due-above t v (w ∷ ws) h r = ground (arith, not_due-above w.threshold v ws (omega arith) r.1)

wake-due : (t v : ℕ) (ws : List Waiter) → Rising t ws → (wake v ws).called ≡ due v ws
unfolding wake due
wake-due t v [] r = refl
wake-due t v (w ∷ ws) r = ground (arith, wake-due w.threshold v ws r.1, due-above w.threshold v ws)

wake-not_due : (t v : ℕ) (ws : List Waiter) → Rising t ws → (wake v ws).rest ≡ not_due v ws
unfolding wake not_due
wake-not_due t v [] r = refl
wake-not_due t v (w ∷ ws) r =
    ground (arith, wake-not_due w.threshold v ws r.1, not_due-above w.threshold v ws)

-- `Increment` on a sorted waiter list returns the value after the increment, modulo 2^32, calls the
-- callbacks of exactly the waiters whose threshold it has reached, in list order, and keeps exactly
-- the others.
pub increment_lem :
    (s : Syncpoint)
    → Rising 0 s.waiters
    → let v : ℕ = (s.value + 1) % 2 ^ 32 in
      ((increment s).0 ≡ v)
      × ((increment s).1.value ≡ v)
      × ((increment s).2.called ≡ due v s.waiters)
      × ((increment s).1.waiters ≡ not_due v s.waiters)
unfolding increment
increment_lem s r = (refl, refl, wake-due 0 _ s.waiters r, wake-not_due 0 _ s.waiters r)
