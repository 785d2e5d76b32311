-- ===== src/Scheduler/Priority.antt =====
-- `UpdatePriority` of kernel/scheduler.cpp.
use skyline.Base.{
  ℕ, ◌≤◌, ◌≡◌, refl, sym, ap, subst, ◌∙◌, ◌⊎◌, Bool, true, false, ◌&&◌, ◌||◌, not, List, [], ◌∷◌,
  Option, none, some, ltb, ◌==◌, if◌then◌else◌, ok, ◌>>◌, guard, out_of_range, arith, Bool-cases,
  inl, inr, ==-true,
}
use skyline.PriorityQueue.{update, All, All-imp, Sorted, insert_by_priority-Sorted}
use skyline.Scheduler.{
  Scheduler, preemption_priority, core_count, set_queue, resident, contains, erase, yield_thread,
}
use skyline.Scheduler.Operations.{
  find, overtaken, update_running, reinsert, update_found, update_priority,
}

same : (x y : ℕ) → (x == y) ≡ true → x ≡ y
same x y e = ground arith

erase-here : (t x : ℕ) (q : List ℕ) → (x == t) ≡ true → erase t (x ∷ q) ≡ q
unfolding erase
erase-here t x q e = rw e refl

erase-there : (t x : ℕ) (q : List ℕ) → (x == t) ≡ false → erase t (x ∷ q) ≡ x ∷ erase t q
unfolding erase
erase-there t x q e = rw e refl

find-none : (t : ℕ) (before : Option ℕ) → find t before [] ≡ none
unfolding find
find-none t before = refl

find-here :
    (t x : ℕ) (before : Option ℕ) (q : List ℕ)
    → (x == t) ≡ true
    → find t before (x ∷ q) ≡ some (before, q)
unfolding find
find-here t x before q e = rw e refl

find-there :
    (t x : ℕ) (before : Option ℕ) (q : List ℕ)
    → (x == t) ≡ false
    → find t before (x ∷ q) ≡ find t (some x) q
unfolding find
find-there t x before q e = rw e refl

found :
    (t x : ℕ) (q : List ℕ)
    → contains t q ≡ true
    → (b : ℕ) × (right : List ℕ) × (find t (some x) q ≡ some (some b, right))
found t x [] c = cc
found t x (y ∷ q) c = elim (Bool-cases (y == t)) [
  | inl e ↦ (x, q, find-here t y (some x) q e)
  | inr e ↦
      let (b, right, f) = found t y q (rw e at c) in (b, right, find-there t y (some x) q e ∙ f)
]

All-put_back : (P : ℕ → Type 0) (t : ℕ) (q : List ℕ) → P t → All P (erase t q) → All P q
All-put_back P t [] p a = tt
All-put_back P t (x ∷ q) p a = elim (Bool-cases (x == t)) [
  | inl e ↦ (subst P (sym (same x t e)) p, subst (All P) (erase-here t x q e) a)
  | inr e ↦ let a' = subst (All P) (erase-there t x q e) a in (a'.0, All-put_back P t q p a'.1)
]

-- What stands behind a thread that its first successor does not overtake.
All-behind :
    (t : ℕ) (q : List ℕ) (s : Scheduler)
    → overtaken t q s ≡ false
    → Sorted s.priority q
    → All (λ x. s.priority t ≤ s.priority x) q
All-behind t [] s o q = tt
All-behind t (h ∷ q) s o r = (ground arith, All-imp _ _ q (λ x le. ground arith) r.0)

module _ (t b : ℕ) (right : List ℕ) (s : Scheduler) where
  here :
      (x : ℕ) (q : List ℕ)
      → ◌≡◌ {A = Option (Option ℕ × List ℕ)} (some (some x, q)) (some (some b, right))
      → (x ≡ b) × (q ≡ right)
  here x q f = ground arith

  bound :
      (x : ℕ) (q : List ℕ)
      → find t (some x) q ≡ some (some b, right)
      → Sorted s.priority (x ∷ erase t q)
      → s.priority x ≤ s.priority b
  bound x [] f r = ground (arith, find-none t (some x))
  bound x (y ∷ q) f r = elim (Bool-cases (y == t)) [
    | inl e ↦ ground (arith, find-here t y (some x) q e)
    | inr e ↦
        let r' = subst (λ l. Sorted s.priority (x ∷ l)) (erase-there t y q e) r in
        omega (arith, r'.0.0, bound y q (sym (find-there t y (some x) q e) ∙ f) r'.1)
  ]

  -- A thread between one that it does not overtake and one that does not overtake it.
  stays :
      (x : ℕ) (q : List ℕ)
      → s.priority b ≤ s.priority t
      → overtaken t right s ≡ false
      → find t (some x) q ≡ some (some b, right)
      → Sorted s.priority (x ∷ erase t q)
      → Sorted s.priority (x ∷ q)
  stays x [] le o f r = (tt, tt)
  stays x (y ∷ q) le o f r = elim (Bool-cases (y == t)) [
    | inl e ↦
        let (eb, eq) = here x q (sym (find-here t y (some x) q e) ∙ f) in
        let r' = subst (λ l. Sorted s.priority (x ∷ l)) (erase-here t y q e) r in
        let ey = ap s.priority (same y t e) in
        let ex = ap s.priority eb in
        let behind = All-behind t q s (subst (λ l. overtaken t l s ≡ false) (sym eq) o) r'.1 in
        (
          (omega (arith, ey, ex, le), r'.0),
          (All-imp _ _ q (λ z h. omega (arith, ey, h)) behind, r'.1),
        )
    | inr e ↦
        let r' = subst (λ l. Sorted s.priority (x ∷ l)) (erase-there t y q e) r in
        let f' = sym (find-there t y (some x) q e) ∙ f in
        (
          (r'.0.0, All-put_back _ t q (omega (arith, r'.0.0, le, bound y q f' r'.1)) r'.0.1),
          stays y q le o f' r'.1,
        )
  ]

-- A queue whose threads stand in order, but for the one at the front, which yields where it should not
-- be there.
abbrev pub Settling : (ℕ → ℕ) → (ℕ → Bool) → List ℕ → Type 0
Settling priority pending [] = Unit {0}
Settling priority pending (front ∷ queue) =
    Sorted priority queue × ((pending front ≡ true) ⊎ Sorted priority (front ∷ queue))

abbrev SettlingOn : ℕ → Scheduler → Type 0
SettlingOn core s = Settling s.priority s.pending_yield (s.queue core)

front-Settling :
    (priority : ℕ → ℕ) (pending : ℕ → Bool) (l : List ℕ) (front : ℕ) (q : List ℕ)
    → l ≡ front ∷ q
    → Sorted priority q
    → (pending front ≡ true) ⊎ Sorted priority (front ∷ q)
    → Settling priority pending l
front-Settling priority pending l front q e r d = subst (Settling priority pending) (sym e) (r, d)

if-SettlingOn :
    (core : ℕ) (b : Bool) (s t : Scheduler)
    → SettlingOn core s
    → SettlingOn core t
    → SettlingOn core (if b then s else t)
if-SettlingOn core true s t h k = h
if-SettlingOn core false s t h k = k

-- A front that is told to yield.
yielding :
    (core front : ℕ) (q : List ℕ) (s : Scheduler)
    → s.queue core ≡ front ∷ q
    → Sorted s.priority q
    → SettlingOn core (yield_thread front s)
yielding core front q s e r = elim (Bool-cases (s.pending_yield front)) [
  | inl p ↦ rw p (front-Settling s.priority s.pending_yield (s.queue core) front q e r (inl p))
  | inr p ↦ rw p (
      front-Settling s.priority (update s.pending_yield front true) (s.queue core) front q e r
        (inl (rw (==-true front front refl) refl)))
]

Sorted-Settling :
    (priority : ℕ → ℕ) (pending : ℕ → Bool) (q : List ℕ)
    → Sorted priority q
    → Settling priority pending q
Sorted-Settling priority pending [] r = tt
Sorted-Settling priority pending (x ∷ q) r = (r.1, inr r)

reinsert-Settling :
    (t : ℕ) (q : List ℕ) (s : Scheduler)
    → Sorted s.priority q
    → SettlingOn (s.core_id t) (reinsert t q s)
unfolding reinsert
reinsert-Settling t [] s r = rw (==-true (s.core_id t) (s.core_id t) refl) (tt, inr (tt, tt))
reinsert-Settling t (h ∷ q) s r = elim (Bool-cases (ltb (s.priority t) (s.priority h))) [
  | inl e ↦ rw e (
      yielding (s.core_id t) h (t ∷ q) (set_queue (s.core_id t) (h ∷ t ∷ q) s)
        (rw (==-true (s.core_id t) (s.core_id t) refl) refl)
        (All-imp _ _ q (λ x le. ground arith) r.0, r.1))
  | inr e ↦
      rw (e, ==-true (s.core_id t) (s.core_id t) refl)
        (Sorted-Settling s.priority s.pending_yield _
          (insert_by_priority-Sorted s.priority t (h ∷ q) r))
]

update_running-Settling :
    (t : ℕ) (q : List ℕ) (s : Scheduler)
    → s.queue (s.core_id t) ≡ t ∷ q
    → Sorted s.priority q
    → SettlingOn (s.core_id t) (update_running t q s)
update_running-Settling t q s e r = elim (Bool-cases (overtaken t q s)) [
  | inl o ↦ rw o (yielding (s.core_id t) t q s e r)
  | inr o ↦
      let stays_put =
        front-Settling s.priority s.pending_yield (s.queue (s.core_id t)) t q e r
          (inr (All-behind t q s o r, r)) in
      rw o (
        if-SettlingOn (s.core_id t)
          (not (s.is_preempted t) && (s.priority t == preemption_priority (s.core_id t)))
          (record s { is_preempted = update s.is_preempted t true }) _ stays_put
          (if-SettlingOn (s.core_id t)
            (s.is_preempted t && not (s.priority t == preemption_priority (s.core_id t)))
            (record s { is_preempted = update s.is_preempted t false }) s stays_put stays_put))
]

or-false : (a b : Bool) → (a || b) ≡ false → (a ≡ false) × (b ≡ false)
or-false a b e = ground arith

-- In a queue with another thread at the front.
update_behind-Settling :
    (t x : ℕ) (q : List ℕ) (s : Scheduler)
    → s.queue (s.core_id t) ≡ x ∷ q
    → (x == t) ≡ false
    → contains t q ≡ true
    → Sorted s.priority (erase t (x ∷ q))
    → SettlingOn (s.core_id t) (update_found t (find t none (x ∷ q)) s)
update_behind-Settling t x q s e differs c r =
    let (b, right, f) = found t x q c in
    let r' = subst (Sorted s.priority) (erase-there t x q differs) r in
    rw (find-there t x none q differs ∙ f)
      (elim (Bool-cases (ltb (s.priority t) (s.priority b) || overtaken t right s)) [
        | inl moves ↦ rw moves (
            reinsert-Settling t (erase t (resident t s)) s
              (subst (λ l. Sorted s.priority (erase t l)) (sym e) r))
        | inr stands ↦
            let (below, o) =
              or-false (ltb (s.priority t) (s.priority b)) (overtaken t right s) stands in
            let all = stays t b right s x q (ground arith) o f r' in
            rw stands (
              front-Settling s.priority s.pending_yield (s.queue (s.core_id t)) x q e all.1
                (inr all))
      ])

update_found-Settling :
    (t : ℕ) (q : List ℕ) (s : Scheduler)
    → s.queue (s.core_id t) ≡ q
    → contains t q ≡ true
    → Sorted s.priority (erase t q)
    → SettlingOn (s.core_id t) (update_found t (find t none q) s)
update_found-Settling t [] s e c r = cc
update_found-Settling t (x ∷ q) s e c r = elim (Bool-cases (x == t)) [
  | inl h ↦ rw (find-here t x none q h) (
      update_running-Settling t q s (e ∙ ap (λ y. y ∷ q) (same x t h))
        (subst (Sorted s.priority) (erase-here t x q h) r))
  | inr h ↦ update_behind-Settling t x q s e h (rw h at c) r
]

returned : (b : Bool) (s s' : Scheduler) → (guard b out_of_range >> ok s) ≡ ok s' → s ≡ s'
returned b s s' e = ground arith

-- Where the priority of one thread of a queue has changed, and the others stand in order, UpdatePriority
-- leaves its core's queue in order, or in order behind a front that has been told to yield.
pub update_priority_lem :
    (t : ℕ) (s s' : Scheduler)
    → contains t (resident t s) ≡ true
    → Sorted s.priority (erase t (resident t s))
    → update_priority t s ≡ ok s'
    → Settling s'.priority s'.pending_yield (s'.queue (s.core_id t))
unfolding update_priority
update_priority_lem t s s' c r e =
    subst (SettlingOn (s.core_id t))
      (returned (ltb (s.core_id t) core_count) (update_found t (find t none (resident t s)) s) s' e)
      (update_found-Settling t (resident t s) s refl c r)
