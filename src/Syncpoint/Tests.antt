-- ===== src/Syncpoint/Tests.antt =====
-- The syncpoint of soc/host1x/syncpoint.cpp at fixed inputs.
use skyline.Base.{◌≡◌, refl, [], ◌∷◌, ◌++◌, some, arith}
use skyline.Syncpoint.{
  Syncpoint, register_waiter, bump, wake_waiters, increment, insert_waiter, wake,
}
use skyline.Syncpoint.Waiters.{due, not_due, increment_lem}
use skyline.Syncpoint.Interleaving.{
  World, start, Reach, here, next, registers, bumps, wakes, AllAbove, AllAccounted, Reach-AllAbove,
}

abbrev waiting : Syncpoint
waiting = record {
  value = 4;
  waiters =
      record { threshold = 5; callback = some 1; handle = 1 }
      ∷ record { threshold = 7; callback = some 2; handle = 2 }
      ∷ [];
  next_handle = 3;
}

increment_lem_example :
    ((increment waiting).0 ≡ 5)
    × ((increment waiting).1.value ≡ 5)
    × ((increment waiting).2.called ≡ due 5 waiting.waiters)
    × ((increment waiting).1.waiters ≡ not_due 5 waiting.waiters)
increment_lem_example = increment_lem waiting (omega arith, (omega arith, tt))

-- A callback at 1 and one at 2 are registered, then an increment adds and wakes.
abbrev one_registered : World
one_registered = record start {
  point = (register_waiter start.point 0 1 8).0;
  registered = 8 ∷ [];
  called = [] ++ (register_waiter start.point 0 1 8).1;
}

abbrev both_registered : World
both_registered = record one_registered {
  point = (register_waiter one_registered.point 0 2 9).0;
  registered = 9 ∷ 8 ∷ [];
  called = one_registered.called ++ (register_waiter one_registered.point 0 2 9).1;
}

abbrev bumped : World
bumped = record both_registered {
  point = (bump both_registered.point).1;
  pending = (bump both_registered.point).0 ∷ [];
}

abbrev woken : World
woken = record bumped {
  point = (wake_waiters bumped.point 1).0;
  pending = [];
  called = bumped.called ++ (wake_waiters bumped.point 1).1.called;
}

woken-Reach : Reach woken
unfolding register_waiter bump
woken-Reach =
    next
      (next
        (next (next here (registers start 0 1 8 (omega arith)))
          (registers one_registered 0 2 9 (omega arith)))
        (bumps both_registered (omega arith)))
      (wakes bumped [] [] 1 refl)

woken-waiters : woken.point.waiters ≡ record { threshold = 2; callback = some 9; handle = 2 } ∷ []
unfolding register_waiter insert_waiter bump wake_waiters wake
woken-waiters = refl

Reach-AllAbove_example :
    AllAccounted woken × (woken.pending ≡ [] → AllAbove woken.point.value woken.point.waiters)
Reach-AllAbove_example = Reach-AllAbove woken-Reach
