-- ===== src/Prelude/Double.antt =====
-- What the program uses of `double`, as an interface: the values, their order test, the arithmetic
-- and the conversions. No law of rounding is assumed.
use Prim.Native.Nat.{ℕ, ◌+◌, ◌-◌, ◌*◌, ◌/◌, ◌^◌}
use Prim.Native.String.{String}
use mathlib.Core.Bool.{Bool, true}
use ironpulse.Prelude.Tests.{ltb, ◌==◌, if◌then◌else◌}

pub record Double : Type 1 where
  pub D : Type 0
  -- `a < b` and `a == b`
  pub below : D → D → Bool
  pub equal : D → D → Bool
  pub add : D → D → D
  pub sub : D → D → D
  pub mul : D → D → D
  pub div : D → D → D
  pub sqrt : D → D
  pub abs : D → D
  -- `static_cast<double>` of a non-negative integer, and of the negative one `-(n + 1)`
  pub of_nat : ℕ → D
  pub of_negative : ℕ → D
  -- `std::bit_cast<float>` of 32 bits, widened
  pub of_float_bits : ℕ → D
  -- the decimal literal `m * 10 ^ (-e)`
  pub literal : ℕ → ℕ → D
  pub is_finite : D → Bool
  -- `static_cast<std::size_t>(std::ceil(d))`
  pub ceiling : D → ℕ
  -- `%.2f`
  pub two_decimals : D → String

-- A concrete instance to run tests on: whole numbers cut off at zero.
abbrev pub whole : Double
whole = record {
  D = ℕ;
  below = ltb;
  equal = λ a b. a == b;
  add = λ a b. a + b;
  sub = λ a b. a - b;
  mul = λ a b. a * b;
  div = λ a b. a / b;
  sqrt = λ a. a;
  abs = λ a. a;
  of_nat = λ n. n;
  of_negative = λ n. 0;
  of_float_bits = λ b. b;
  literal = λ m e. if e == 0 then m else 0;
  is_finite = λ d. true;
  ceiling = λ d. d;
  two_decimals = λ d. "n";
}

-- Another one, in which decimal fractions differ: a number is a count of billionths.
abbrev pub billionths : Double
billionths = record {
  D = ℕ;
  below = ltb;
  equal = λ a b. a == b;
  add = λ a b. a + b;
  sub = λ a b. a - b;
  mul = λ a b. a * b / 10 ^ 9;
  div = λ a b. a * 10 ^ 9 / b;
  sqrt = λ a. a;
  abs = λ a. a;
  of_nat = λ n. n * 10 ^ 9;
  of_negative = λ n. 0;
  of_float_bits = λ b. b;
  literal = λ m e. m * 10 ^ (9 - e);
  is_finite = λ d. true;
  ceiling = λ d. (d + (10 ^ 9 - 1)) / 10 ^ 9;
  two_decimals = λ d. "n";
}

module _ (F : Double) where
  open F use {D, below, literal}

  -- `std::min` and `std::max` of two doubles
  abbrev pub smaller : D → D → D
  smaller a b = if below b a then b else a

  abbrev pub larger : D → D → D
  larger a b = if below a b then b else a

  abbrev pub zero_point : D
  zero_point = literal 0 0

  abbrev pub one_point : D
  one_point = literal 1 0
