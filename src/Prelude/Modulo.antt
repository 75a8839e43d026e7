-- ===== src/Prelude/Modulo.antt =====
-- Remainders by a variable, for indices that go round an array.
use Prim.Native.Nat.{ℕ, suc, ◌+◌, ◌*◌, ◌/◌, ◌%◌, ◌≤◌, ◌<◌}
use mathlib.Core.Logic.{◌≢◌}
use native.Mathlib.Decide.{dec_lt}
use native.Mathlib.Nat.{div-add-mod'}
use native.Mathlib.Omega.{arith}

times_mono : (a b c : ℕ) → a ≤ b → a * c ≤ b * c
times_mono a b c h = grind arith

-- Two numbers less than `c` apart have different remainders.
pub mod-ne : (c i j : ℕ) → i < j → j < i + c → i % c ≢ j % c
mod-ne c i j lt near e = elim (dec_lt (i / c) (j / c)) [
  | yes p ↦ omega (arith, div-add-mod' i c, div-add-mod' j c, times_mono (suc (i / c)) (j / c) c p)
  | no p ↦
      omega (arith, div-add-mod' i c, div-add-mod' j c, times_mono (j / c) (i / c) c (omega arith))
]
