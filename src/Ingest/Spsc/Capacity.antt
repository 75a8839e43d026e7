-- ===== src/Ingest/Spsc/Capacity.antt =====
-- include/ironpulse/ingest/ring_buffer.hpp: what the constructor's test of the capacity gives.
use native.Mathlib.Nat.{pow-le-pow_right}
use mathlib.Core.Option.{some-injective}
use ironpulse.Prelude.{
  ℕ, ◌-◌, ◌%◌, ◌^◌, ◌<◌, ◌≤◌, ◌≡◌, refl, sym, subst, ◌∙◌, ltb, ◌==◌, ==_iff, some, arith,
  Bool-cases, inl, inr, not_ltb→le,
}
use ironpulse.Prelude.Bits.{bit_and, bit_and_mask, bit_and_wrap, power_of_two}
use ironpulse.Ingest.Spsc.{SpscRingBuffer, empty_buffer, make_buffer}

-- At least 2 and at most 2 ^ 63, and its mask takes an index that wraps at 2 ^ 64 to its remainder.
pub record IsCapacity (capacity : ℕ) : Type 0 where
  pub two_le : 2 ≤ capacity
  pub half_le : capacity ≤ 2 ^ 63
  pub place_eq : (n : ℕ) → bit_and 64 (n % 2 ^ 64) (capacity - 1) ≡ n % capacity

power-IsCapacity : (k : ℕ) → k < 64 → 2 ≤ 2 ^ k → IsCapacity (2 ^ k)
power-IsCapacity k h two = record {
  two_le = two;
  half_le = pow-le-pow_right {n = 2} (omega arith) {i = k} {j = 63} (omega arith);
  place_eq = λ n. bit_and_wrap 64 n (2 ^ k - 1) ∙ bit_and_mask 64 k n (omega arith);
}

pub tested-IsCapacity :
    (capacity : ℕ)
    → capacity < 2 ^ 64
    → 2 ≤ capacity
    → bit_and 64 capacity (capacity - 1) ≡ 0
    → IsCapacity capacity
tested-IsCapacity capacity below two test =
    let power = power_of_two 64 capacity (omega arith) below test in
    subst IsCapacity (sym power.2) (power-IsCapacity power.0 power.1 (omega (arith, power.2)))

-- Every capacity that the constructor accepts, in `size_t`, is one.
pub make_buffer-IsCapacity :
    {A : Type 0} (capacity : ℕ) (b : SpscRingBuffer A)
    → capacity < 2 ^ 64
    → make_buffer capacity ≡ some b
    → IsCapacity capacity × (b ≡ empty_buffer capacity)
unfolding make_buffer
make_buffer-IsCapacity capacity b below made = elim (Bool-cases (ltb capacity 2)) [
  | inl e ↦ cc
  | inr e ↦ elim (Bool-cases (bit_and 64 capacity (capacity - 1) == 0)) [
    | inl f ↦
        (let eq : some (empty_buffer capacity) ≡ some b = sym (rw e (rw f refl)) ∙ made in
          (
            tested-IsCapacity capacity below (not_ltb→le capacity 2 e)
                ((==_iff (bit_and 64 capacity (capacity - 1)) 0).0 f),
            sym (some-injective _ _ eq),
          ))
    | inr f ↦ cc
  ]
]
