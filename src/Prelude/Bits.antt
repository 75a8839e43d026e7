-- ===== src/Prelude/Bits.antt =====
-- The bitwise operations on numbers of a given width.
use Prim.Native.Nat.{ℕ, zero, suc, ◌+◌, ◌-◌, ◌*◌, ◌/◌, ◌%◌, ◌^◌, ◌≤◌, ◌<◌}
use mathlib.Core.Logic.{inl, inr}
use mathlib.Core.Path.{◌≡◌, refl, sym, ap, ap₂, ◌∙◌}
use native.Mathlib.Nat.{
  mod-add-div, mod-lt, mod-eq_of_lt, add-mul-mod_self_left, one-le-pow, two-pow-succ,
}
use native.Mathlib.Omega.{arith}
use ironpulse.Prelude.Tests.{Bool-cases, ◌==◌, ==_iff}

-- `&`
unfoldable pub bit_and : ℕ → ℕ → ℕ → ℕ
bit_and zero a b = 0
bit_and (suc bits) a b = (a % 2) * (b % 2) + 2 * bit_and bits (a / 2) (b / 2)

-- `^`
unfoldable pub bit_xor : ℕ → ℕ → ℕ → ℕ
bit_xor zero a b = 0
bit_xor (suc bits) a b = (a % 2 + b % 2) % 2 + 2 * bit_xor bits (a / 2) (b / 2)

pub pow_pos : (k : ℕ) → 1 ≤ 2 ^ k
pow_pos k = one-le-pow k 2 (omega arith)

bit_and-zero : (bits a : ℕ) → bit_and bits a 0 ≡ 0
unfolding bit_and
bit_and-zero zero a = refl
bit_and-zero (suc bits) a = omega (arith, bit_and-zero bits (a / 2))

times_bound : (m r : ℕ) → r < m → suc (1 + 2 * r) ≤ 2 * m
times_bound m r h = omega arith

mod_double : (a m : ℕ) → 1 ≤ m → a % 2 + 2 * ((a / 2) % m) ≡ a % (2 * m)
mod_double a m h =
    sym (mod-eq_of_lt small)
    ∙ sym (add-mul-mod_self_left rest (2 * m) (a / 2 / m))
    ∙ ap (λ t. t % (2 * m)) whole
  where
    rest : ℕ
    rest = a % 2 + 2 * ((a / 2) % m)

    small : a % 2 + 2 * ((a / 2) % m) < 2 * m
    small = omega (arith, mod-lt (a / 2) {m = m} h)

    regroup : 2 * m * (a / 2 / m) ≡ 2 * (m * (a / 2 / m))
    regroup = grind arith

    whole : a % 2 + 2 * ((a / 2) % m) + 2 * m * (a / 2 / m) ≡ a
    whole = omega (arith, mod-add-div (a / 2) m, regroup)

double : (k : ℕ) → 2 * 2 ^ k ≡ 2 ^ suc k
double k = omega (arith, two-pow-succ k)

-- A mask of `k` ones keeps the low `k` bits.
pub bit_and_mask : (bits k a : ℕ) → k ≤ bits → bit_and bits a (2 ^ k - 1) ≡ a % 2 ^ k
unfolding bit_and
bit_and_mask zero zero a h = omega arith
bit_and_mask zero (suc k) a h = absurd (omega arith)
bit_and_mask (suc bits) zero a h = omega (arith, bit_and-zero bits (a / 2))
bit_and_mask (suc bits) (suc k) a h =
    ap₂ (λ (l m : ℕ). a % 2 * l + 2 * bit_and bits (a / 2) m) low high
    ∙ omega (
      arith,
      bit_and_mask bits k (a / 2) (omega arith),
      mod_double a (2 ^ k) (pow_pos k),
      ap (λ (t : ℕ). a % t) (double k),
    )
  where
    low : (2 ^ suc k - 1) % 2 ≡ 1
    low = omega (arith, two-pow-succ k, pow_pos k)

    high : (2 ^ suc k - 1) / 2 ≡ 2 ^ k - 1
    high = omega (arith, two-pow-succ k, pow_pos k)

-- Digits above the width are not read.
pub bit_and_wrap : (bits a b : ℕ) → bit_and bits (a % 2 ^ bits) b ≡ bit_and bits a b
unfolding bit_and
bit_and_wrap zero a b = refl
bit_and_wrap (suc bits) a b = omega (
  arith,
  ap (λ (t : ℕ). t * (b % 2)) low,
  ap (λ (t : ℕ). bit_and bits t (b / 2)) high,
  bit_and_wrap bits (a / 2) (b / 2),
)
  where
    split : a % 2 ^ suc bits ≡ a % 2 + 2 * ((a / 2) % 2 ^ bits)
    split = ap (λ (t : ℕ). a % t) (sym (double bits)) ∙ sym (mod_double a (2 ^ bits) (pow_pos bits))

    low : (a % 2 ^ suc bits) % 2 ≡ a % 2
    low = omega (arith, split)

    high : (a % 2 ^ suc bits) / 2 ≡ (a / 2) % 2 ^ bits
    high = omega (arith, split)

digit_square : (b : ℕ) → b < 2 → b * b ≡ b
digit_square zero h = refl
digit_square (suc zero) h = refl
digit_square (suc (suc b)) h = absurd (omega arith)

bit_and_self : (bits a : ℕ) → a < 2 ^ bits → bit_and bits a a ≡ a
unfolding bit_and
bit_and_self zero a h = omega (arith, h)
bit_and_self (suc bits) a h = omega (
  arith,
  digit_square (a % 2) (omega arith),
  bit_and_self bits (a / 2) (omega (arith, h, two-pow-succ bits)),
)

-- The test `(c & (c - 1)) == 0` passes for the powers of two only.
pub power_of_two :
    (bits c : ℕ)
    → 1 ≤ c
    → c < 2 ^ bits
    → bit_and bits c (c - 1) ≡ 0
    → (k : ℕ) × (k < bits) × (c ≡ 2 ^ k)
unfolding bit_and
power_of_two zero c p h e = absurd (omega arith)
power_of_two (suc bits) c p h e = elim (Bool-cases (c % 2 == 0)) [
  | inl even ↦
      (let is_even : c % 2 ≡ 0 = (==_iff (c % 2) 0).0 even in
        let pred : (c - 1) / 2 ≡ c / 2 - 1 = omega arith in
        let half : bit_and bits (c / 2) (c / 2 - 1) ≡ 0 =
          omega (arith, e, ap (λ t. bit_and bits (c / 2) t) pred) in
        let below : c / 2 < 2 ^ bits = omega (arith, h, two-pow-succ bits) in
        let got = power_of_two bits (c / 2) (omega arith) below half in
        (suc got.0, omega (arith, got.1), omega (arith, got.2, double got.0)))
  | inr odd ↦
      (let is_odd : c % 2 ≡ 1 = ground (arith, ==_iff (c % 2) 0, odd) in
        let same : (c - 1) / 2 ≡ c / 2 = omega arith in
        let half : bit_and bits (c / 2) (c / 2) ≡ 0 =
          omega (arith, e, ap (λ t. bit_and bits (c / 2) t) same) in
        let below : c / 2 < 2 ^ bits = omega (arith, h, two-pow-succ bits) in
        (0, omega arith, omega (arith, bit_and_self bits (c / 2) below)))
]

pub bit_xor_comm : (bits a b : ℕ) → bit_xor bits a b ≡ bit_xor bits b a
unfolding bit_xor
bit_xor_comm zero a b = refl
bit_xor_comm (suc bits) a b = omega (arith, bit_xor_comm bits (a / 2) (b / 2))

pub bit_xor-lt : (bits a b : ℕ) → bit_xor bits a b < 2 ^ bits
unfolding bit_xor
bit_xor-lt zero a b = omega arith
bit_xor-lt (suc bits) a b = omega (arith, bit_xor-lt bits (a / 2) (b / 2), two-pow-succ bits)

pub bit_xor-zero : (bits a : ℕ) → a < 2 ^ bits → bit_xor bits a 0 ≡ a
unfolding bit_xor
bit_xor-zero zero a h = omega (arith, h)
bit_xor-zero (suc bits) a h =
    omega (arith, bit_xor-zero bits (a / 2) (omega (arith, h, two-pow-succ bits)))

-- The low bit of a result, and what stands above it.
pub bit_xor_low : (bits a b : ℕ) → bit_xor (suc bits) a b % 2 ≡ (a + b) % 2
unfolding bit_xor
bit_xor_low bits a b = omega arith

pub bit_xor_high : (bits a b : ℕ) → bit_xor (suc bits) a b / 2 ≡ bit_xor bits (a / 2) (b / 2)
unfolding bit_xor
bit_xor_high bits a b = omega arith

eighth : (a : ℕ) → a / 2 / 2 / 2 / 2 / 2 / 2 / 2 / 2 ≡ a / 256
eighth a = omega arith

-- What stands above the low byte.
pub bit_xor_byte :
    (bits a b : ℕ)
    → bit_xor (suc (suc (suc (suc (suc (suc (suc (suc bits)))))))) a b / 256
      ≡ bit_xor bits (a / 256) (b / 256)
unfolding bit_xor
bit_xor_byte bits a b = omega (
  arith,
  ap (λ t. bit_xor bits t (b / 2 / 2 / 2 / 2 / 2 / 2 / 2 / 2)) (eighth a),
  ap (bit_xor bits (a / 256)) (eighth b),
)

pub bit_xor_assoc :
    (bits a b c : ℕ) → bit_xor bits (bit_xor bits a b) c ≡ bit_xor bits a (bit_xor bits b c)
unfolding bit_xor
bit_xor_assoc zero a b c = refl
bit_xor_assoc (suc bits) a b c = omega (
  arith,
  bit_xor_assoc bits (a / 2) (b / 2) (c / 2),
  ap (λ t. bit_xor bits t (c / 2)) (bit_xor_high bits a b),
  ap (λ t. bit_xor bits (a / 2) t) (bit_xor_high bits b c),
  bit_xor_low bits a b,
  bit_xor_low bits b c,
)

-- A width that holds both numbers gives what any larger one does.
pub bit_xor_wider :
    (bits a b : ℕ) → a < 2 ^ bits → b < 2 ^ bits → bit_xor (suc bits) a b ≡ bit_xor bits a b
unfolding bit_xor
bit_xor_wider zero a b p q = omega (arith, p, q)
bit_xor_wider (suc bits) a b p q = omega (
  arith,
  bit_xor_wider bits (a / 2) (b / 2) (omega (arith, p, two-pow-succ bits))
      (omega (arith, q, two-pow-succ bits)),
)
