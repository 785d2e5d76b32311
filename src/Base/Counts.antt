-- ===== src/Base/Counts.antt =====
-- How often a number stands in a list.
use Prim.Native.Nat.{ℕ, ◌+◌}
use mathlib.Core.Path.{◌≡◌}
use mathlib.Core.List.{List, [], ◌∷◌, ◌++◌}
use native.Mathlib.Omega.{arith}
use skyline.Base.Tests.{◌==◌, if◌then◌else◌}

-- One where they are equal.
abbrev pub one : ℕ → ℕ → ℕ
one thread other = if other == thread then 1 else 0

abbrev pub occurrences : ℕ → List ℕ → ℕ
occurrences thread [] = 0
occurrences thread (other ∷ queue) = one thread other + occurrences thread queue

pub occurrences-append :
    (t : ℕ) (xs ys : List ℕ) → occurrences t (xs ++ ys) ≡ occurrences t xs + occurrences t ys
occurrences-append t [] ys = omega arith
occurrences-append t (x ∷ xs) ys = rw (occurrences-append t xs ys) (omega arith)
