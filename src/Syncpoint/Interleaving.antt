-- ===== src/Syncpoint/Interleaving.antt =====
-- Threads that use one syncpoint of soc/host1x/syncpoint.cpp at the same time. `Increment` adds
-- before it takes the mutex, so another thread may run between its two parts; everything else happens
-- under the mutex.
use skyline.Base.{
  ℕ, ◌+◌, ◌^◌, ◌≤◌, ◌<◌, ◌≡◌, refl, List, [], ◌∷◌, ◌++◌, Option, none, some, leb, ◌==◌, arith,
  Bool-cases, sym, inl, inr, ◌⊎◌, subst,
}
use native.Mathlib.Nat.{mod-eq_of_lt}
use skyline.Syncpoint.{
  Waiter, Syncpoint, insert_waiter, register_waiter, erase_handle, deregister_waiter, bump, wake,
  wake_waiters, wait, init, emplace,
}
use skyline.Base.Counts.{one, occurrences, occurrences-append}
use skyline.Syncpoint.Accounts.{
  held, waiting, callback_at, waiting-insert_waiter, waiting-erase_handle, waiting-wake,
}
use skyline.Syncpoint.Waiters.{
  Rising, insert_waiter-Rising, erase_handle-Rising, wake-Rising, wake_one-rest,
}

-- `pending` holds what the increments have read that have yet to wake the waiters. The others are the
-- callbacks that have been registered, that have been called, and whose waiters were deregistered.
pub record World : Type 0 where
  pub point : Syncpoint
  pub pending : List ℕ
  pub registered : List ℕ
  pub called : List ℕ
  pub removed : List (Option ℕ)

abbrev pub start : World
start = record { point = init; pending = []; registered = []; called = []; removed = [] }

-- An increment that would wrap the counter is left out.
pub data Step : World → World → Type 0 where
  registers :
      (w : World) (seen threshold callback : ℕ)
      → seen ≤ w.point.value
      → Step w (record w {
        point = (register_waiter w.point seen threshold callback).0;
        registered = callback ∷ w.registered;
        called = w.called ++ (register_waiter w.point seen threshold callback).1;
      })
  deregisters :
      (w : World) (handle : ℕ)
      → Step w (record w {
        point = deregister_waiter w.point handle;
        removed = callback_at handle w.point.waiters ∷ w.removed;
      })
  waits :
      (w : World) (seen threshold : ℕ)
      → seen ≤ w.point.value
      → Step w (record w { point = (wait w.point seen threshold).0 })
  bumps :
      (w : World)
      → w.point.value + 1 < 2 ^ 32
      → Step w (record w { point = (bump w.point).1; pending = (bump w.point).0 ∷ w.pending })
  wakes :
      (w : World) (before after : List ℕ) (v : ℕ)
      → w.pending ≡ before ++ v ∷ after
      → Step w (record w {
        point = (wake_waiters w.point v).0;
        pending = before ++ after;
        called = w.called ++ (wake_waiters w.point v).1.called;
      })

pub data Reach : World → Type 0 where
  here : Reach start
  next : {w v : World} → Reach w → Step w v → Reach v

abbrev Reached : ℕ → List ℕ → Type 0
Reached t [] = ⊥
Reached t (v ∷ vs) = (t ≤ v) ⊎ Reached t vs

-- Each callback is still to come: the counter is below its threshold, or a pending increment is not.
abbrev Covered : ℕ → List ℕ → List Waiter → Type 0
Covered value pending [] = Unit {0}
Covered value pending (w ∷ ws) =
    ((w.callback ≡ none) ⊎ ((value < w.threshold) ⊎ Reached w.threshold pending))
    × Covered value pending ws

insert_waiter-Covered :
    (value : ℕ) (pending : List ℕ) (w : Waiter) (ws : List Waiter)
    → (w.callback ≡ none) ⊎ ((value < w.threshold) ⊎ Reached w.threshold pending)
    → Covered value pending ws
    → Covered value pending (insert_waiter w ws)
unfolding insert_waiter
insert_waiter-Covered value pending w [] h k = (h, tt)
insert_waiter-Covered value pending w (v ∷ ws) h k =
    elim (Bool-cases (leb v.threshold w.threshold)) [
      | inl e ↦ rw e (k.0, insert_waiter-Covered value pending w ws h k.1)
      | inr e ↦ rw e (h, k)
    ]

erase_handle-Covered :
    (value : ℕ) (pending : List ℕ) (h : ℕ) (ws : List Waiter)
    → Covered value pending ws
    → Covered value pending (erase_handle h ws)
unfolding erase_handle
erase_handle-Covered value pending h [] k = tt
erase_handle-Covered value pending h (w ∷ ws) k = elim (Bool-cases (w.handle == h)) [
  | inl e ↦ rw e (k.1)
  | inr e ↦ rw e (k.0, erase_handle-Covered value pending h ws k.1)
]

bump-Covered :
    (value : ℕ) (pending : List ℕ) (ws : List Waiter)
    → Covered value pending ws
    → Covered (value + 1) ((value + 1) ∷ pending) ws
bump-Covered value pending [] k = tt
bump-Covered value pending (w ∷ ws) k = (later k.0, bump-Covered value pending ws k.1)
  where
    later :
        (w.callback ≡ none) ⊎ ((value < w.threshold) ⊎ Reached w.threshold pending)
        → (w.callback ≡ none)
          ⊎ ((value + 1 < w.threshold) ⊎ ((w.threshold ≤ value + 1) ⊎ Reached w.threshold pending))
    later (inl e) = inl e
    later (inr (inl h)) = inr (elim (Bool-cases (leb w.threshold (value + 1))) [
      | inl e ↦ inr (inl (ground arith))
      | inr e ↦ inl (ground arith)
    ])
    later (inr (inr h)) = inr (inr (inr h))

-- The increment that goes was no help above its own value.
Reached-remove :
    (t v : ℕ) (before after : List ℕ)
    → v < t
    → Reached t (before ++ v ∷ after)
    → Reached t (before ++ after)
Reached-remove t v [] after h (inl k) = absurd (omega arith)
Reached-remove t v [] after h (inr k) = k
Reached-remove t v (u ∷ before) after h (inl k) = inl k
Reached-remove t v (u ∷ before) after h (inr k) = inr (Reached-remove t v before after h k)

above-Covered :
    (value v : ℕ) (before after : List ℕ) (t : ℕ) (ws : List Waiter)
    → v < t
    → Rising t ws
    → Covered value (before ++ v ∷ after) ws
    → Covered value (before ++ after) ws
above-Covered value v before after t [] h r k = tt
above-Covered value v before after t (w ∷ ws) h r k =
    (keep k.0, above-Covered value v before after w.threshold ws (omega arith) r.1 k.1)
  where
    keep :
        (w.callback ≡ none) ⊎ ((value < w.threshold) ⊎ Reached w.threshold (before ++ v ∷ after))
        → (w.callback ≡ none) ⊎ ((value < w.threshold) ⊎ Reached w.threshold (before ++ after))
    keep (inl e) = inl e
    keep (inr (inl e)) = inr (inl e)
    keep (inr (inr e)) = inr (inr (Reached-remove w.threshold v before after (omega arith) e))

wake-Covered :
    (value v : ℕ) (before after : List ℕ) (t : ℕ) (ws : List Waiter)
    → Rising t ws
    → Covered value (before ++ v ∷ after) ws
    → Covered value (before ++ after) (wake v ws).rest
unfolding wake
wake-Covered value v before after t [] r k = tt
wake-Covered value v before after t (w ∷ ws) r k = elim (Bool-cases (leb w.threshold v)) [
  | inl e ↦
      rw (e, wake_one-rest w.callback (wake v ws))
        (wake-Covered value v before after w.threshold ws r.1 k.1)
  | inr e ↦
      rw e (
        above-Covered value v before after w.threshold (w ∷ ws) (ground arith) (omega arith, r.1) k)
]

record IsSafe (w : World) : Type 0 where
  rising : Rising 0 w.point.waiters
  covered : Covered w.point.value w.pending w.point.waiters

emplace-IsSafe :
    (w : World) (threshold : ℕ) (callback : Option ℕ)
    → (callback ≡ none) ⊎ (w.point.value < threshold)
    → IsSafe w
    → IsSafe (record w { point = emplace w.point threshold callback })
emplace-IsSafe w threshold callback h s = record {
  rising = insert_waiter-Rising 0 _ w.point.waiters (omega arith) s.rising;
  covered = insert_waiter-Covered w.point.value w.pending _ w.point.waiters (widen h) s.covered;
}
  where
    widen :
        (callback ≡ none) ⊎ (w.point.value < threshold)
        → (callback ≡ none) ⊎ ((w.point.value < threshold) ⊎ Reached threshold w.pending)
    widen (inl e) = inl e
    widen (inr e) = inr (inl e)

Step-IsSafe : {w v : World} → Step w v → IsSafe w → IsSafe v
unfolding register_waiter deregister_waiter wait bump wake_waiters
Step-IsSafe (registers w seen threshold callback h) s = elim (Bool-cases (leb threshold seen)) [
  | inl e ↦ rw e (record { rising = s.rising; covered = s.covered })
  | inr e ↦ rw e (elim (Bool-cases (leb threshold w.point.value)) [
    | inl d ↦ rw d (record { rising = s.rising; covered = s.covered })
    | inr d ↦
        let safe = emplace-IsSafe w threshold (some callback) (inr (ground arith)) s in
        rw d (record { rising = safe.rising; covered = safe.covered })
  ])
]
Step-IsSafe (deregisters w handle) s = record {
  rising = erase_handle-Rising 0 handle w.point.waiters s.rising;
  covered = erase_handle-Covered w.point.value w.pending handle w.point.waiters s.covered;
}
Step-IsSafe (waits w seen threshold h) s = elim (Bool-cases (leb threshold seen)) [
  | inl e ↦ rw e s
  | inr e ↦ rw e (elim (Bool-cases (leb threshold w.point.value)) [
    | inl d ↦ rw d (emplace-IsSafe w threshold none (inl refl) s)
    | inr d ↦ rw d (emplace-IsSafe w threshold none (inl refl) s)
  ])
]
Step-IsSafe (bumps w h) s = record {
  rising = s.rising;
  covered =
      subst (λ v. Covered v (v ∷ w.pending) w.point.waiters) (sym (mod-eq_of_lt h))
        (bump-Covered w.point.value w.pending w.point.waiters s.covered);
}
Step-IsSafe (wakes w before after v e) s = record {
  rising = wake-Rising 0 v w.point.waiters s.rising;
  covered =
      wake-Covered w.point.value v before after 0 w.point.waiters s.rising
        (subst (λ p. Covered w.point.value p w.point.waiters) e s.covered);
}

Reach-IsSafe : {w : World} → Reach w → IsSafe w
Reach-IsSafe here = record { rising = tt; covered = tt }
Reach-IsSafe (next r s) = Step-IsSafe s (Reach-IsSafe r)

-- Every waiter with a callback lies above the counter.
abbrev pub AllAbove : ℕ → List Waiter → Type 0
AllAbove value [] = Unit {0}
AllAbove value (w ∷ ws) = ((w.callback ≡ none) ⊎ (value < w.threshold)) × AllAbove value ws

Covered-AllAbove : (value : ℕ) (ws : List Waiter) → Covered value [] ws → AllAbove value ws
Covered-AllAbove value [] k = tt
Covered-AllAbove value (w ∷ ws) k = (now k.0, Covered-AllAbove value ws k.1)
  where
    now :
        (w.callback ≡ none) ⊎ ((value < w.threshold) ⊎ ⊥)
        → (w.callback ≡ none) ⊎ (value < w.threshold)
    now (inl e) = inl e
    now (inr (inl h)) = inr h
    now (inr (inr h)) = absurd h

pub taken : ℕ → List (Option ℕ) → ℕ
taken c [] = 0
taken c (callback ∷ callbacks) = held c callback + taken c callbacks

-- Each callback has been called, or taken off, or waits, as often as it was registered.
abbrev pub AllAccounted : World → Type 0
AllAccounted w =
    (c : ℕ)
    → occurrences c w.registered
      ≡ occurrences c w.called + taken c w.removed + waiting c w.point.waiters

Step-AllAccounted : {w v : World} → Step w v → AllAccounted w → AllAccounted v
unfolding register_waiter deregister_waiter wait bump wake_waiters taken
Step-AllAccounted (registers w seen threshold callback h) a c =
    let before = a c in
    let now : occurrences c (w.called ++ callback ∷ [])
        ≡ occurrences c w.called + (one c callback + 0) =
      occurrences-append c w.called (callback ∷ []) in
    let later : occurrences c (w.called ++ []) ≡ occurrences c w.called + 0 =
      occurrences-append c w.called [] in
    let joins =
      waiting-insert_waiter c
        (record { threshold = threshold; callback = some callback; handle = w.point.next_handle })
        w.point.waiters in
    elim (Bool-cases (leb threshold seen)) [
      | inl e ↦ rw e (omega arith)
      | inr e ↦ rw e (elim (Bool-cases (leb threshold w.point.value)) [
        | inl d ↦ rw d (omega arith)
        | inr d ↦ rw d (omega arith)
      ])
    ]
Step-AllAccounted (deregisters w handle) a c =
    let before = a c in let leaves = waiting-erase_handle c handle w.point.waiters in omega arith
Step-AllAccounted (waits w seen threshold h) a c =
    let before = a c in
    let joins =
      waiting-insert_waiter c
        (record { threshold = threshold; callback = none; handle = w.point.next_handle })
        w.point.waiters in
    elim (Bool-cases (leb threshold seen)) [
      | inl e ↦ rw e before
      | inr e ↦ rw e (elim (Bool-cases (leb threshold w.point.value)) [
        | inl d ↦ rw d (omega arith)
        | inr d ↦ rw d (omega arith)
      ])
    ]
Step-AllAccounted (bumps w h) a c = a c
Step-AllAccounted (wakes w before after v e) a c =
    let whole = a c in
    let now = occurrences-append c w.called (wake v w.point.waiters).called in
    let goes = waiting-wake c v w.point.waiters in omega arith

Reach-AllAccounted : {w : World} → Reach w → AllAccounted w
unfolding taken
Reach-AllAccounted here = λ c. refl
Reach-AllAccounted (next r s) = Step-AllAccounted s (Reach-AllAccounted r)

-- However threads that register, deregister, wait and increment interleave, as long as the counter
-- does not wrap: each callback has been called, or its waiter deregistered, or waits, together as often
-- as it was registered; and when no increment is under way, every waiter that is left with a callback
-- has a threshold above the counter.
pub Reach-AllAbove :
    {w : World}
    → Reach w
    → AllAccounted w × (w.pending ≡ [] → AllAbove w.point.value w.point.waiters)
Reach-AllAbove {w} r = (
  Reach-AllAccounted r,
  λ e.
      Covered-AllAbove w.point.value w.point.waiters
        (subst (λ p. Covered w.point.value p w.point.waiters) e (Reach-IsSafe r).covered),
)
