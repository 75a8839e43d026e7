-- ===== src/Prelude/Count.antt =====
-- How often a number stands in a list.
use Prim.Native.Nat.{ℕ, ◌+◌}
use mathlib.Core.Path.{◌≡◌}
use mathlib.Core.List.{List, [], ◌∷◌, ◌++◌}
use native.Mathlib.Omega.{arith}
use ironpulse.Prelude.Tests.{◌==◌, if◌then◌else◌}

module _ (wanted : ℕ) where
  abbrev pub count : List ℕ → ℕ
  count [] = 0
  count (head ∷ rest) = count rest + (if wanted == head then 1 else 0)

  pub count-append : (front back : List ℕ) → count (front ++ back) ≡ count front + count back
  count-append [] back = omega arith
  count-append (head ∷ front) back = omega (arith, count-append front back)
