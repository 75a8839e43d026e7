-- ===== src/Ingest/Crc/Rounds.antt =====
-- include/ironpulse/ingest/serializer.hpp: eight rounds of the checksum by bits.
use native.Mathlib.Nat.{two-pow-succ}
use ironpulse.Prelude.{
  ℕ, zero, suc, ◌+◌, ◌*◌, ◌/◌, ◌%◌, ◌^◌, ◌<◌, ◌≤◌, ◌≡◌, sym, ap, ◌∙◌, inl, inr, ◌==◌, ==_iff,
  Bool-cases, false, arith,
}
use ironpulse.Prelude.Bits.{
  bit_xor, bit_and_mask, bit_xor_comm, bit_xor_assoc, bit_xor-lt, bit_xor-zero, bit_xor_low,
  bit_xor_high, bit_xor_wider,
}
use ironpulse.Ingest.Crc.{crc32c_polynomial, crc_bit, crc_bits}

crc_bit_even : (crc : ℕ) → crc % 2 ≡ 0 → crc_bit crc ≡ crc / 2
unfolding crc_bit
crc_bit_even crc h =
    rw (bit_and_mask 32 1 crc (omega arith)) (ground (arith, h, ==_iff (crc % 2) 0))

crc_bit_odd : (crc : ℕ) → crc % 2 ≡ 1 → crc_bit crc ≡ bit_xor 32 (crc / 2) crc32c_polynomial
unfolding crc_bit
crc_bit_odd crc h = rw (bit_and_mask 32 1 crc (omega arith)) (ground (arith, h, ==_iff (crc % 2) 0))

odd_of : (x : ℕ) → (x % 2 == 0) ≡ false → x % 2 ≡ 1
odd_of x h = ground (arith, ==_iff (x % 2) 0)

pub crc_bit-lt : (crc : ℕ) → crc < 2 ^ 32 → crc_bit crc < 2 ^ 32
crc_bit-lt crc h = elim (Bool-cases (crc % 2 == 0)) [
  | inl e ↦ omega (arith, crc_bit_even crc ((==_iff (crc % 2) 0).0 e))
  | inr e ↦ omega (arith, crc_bit_odd crc (odd_of crc e), bit_xor-lt 32 (crc / 2) crc32c_polynomial)
]

half_xor : (x z : ℕ) → x < 2 ^ 32 → 2 * z < 2 ^ 32 → bit_xor 32 x (2 * z) / 2 ≡ bit_xor 32 (x / 2) z
half_xor x z p q =
    bit_xor_high 31 x (2 * z)
    ∙ ap (λ (t : ℕ). bit_xor 31 (x / 2) t) same
    ∙ sym (bit_xor_wider 31 (x / 2) z (omega (arith, p)) (omega (arith, q)))
  where
    same : 2 * z / 2 ≡ z
    same = omega arith

swap_last : (a b c : ℕ) → bit_xor 32 (bit_xor 32 a b) c ≡ bit_xor 32 (bit_xor 32 a c) b
swap_last a b c =
    bit_xor_assoc 32 a b c
    ∙ ap (λ (t : ℕ). bit_xor 32 a t) (bit_xor_comm 32 b c)
    ∙ sym (bit_xor_assoc 32 a c b)

-- What stands above the low bit only moves down.
crc_bit_linear :
    (x z : ℕ)
    → x < 2 ^ 32
    → 2 * z < 2 ^ 32
    → crc_bit (bit_xor 32 x (2 * z)) ≡ bit_xor 32 (crc_bit x) z
crc_bit_linear x z p q = elim (Bool-cases (x % 2 == 0)) [
  | inl e ↦
      (let even : x % 2 ≡ 0 = (==_iff (x % 2) 0).0 e in
        crc_bit_even (bit_xor 32 x (2 * z)) (omega (arith, bit_xor_low 31 x (2 * z)))
        ∙ half_xor x z p q
        ∙ ap (λ (t : ℕ). bit_xor 32 t z) (sym (crc_bit_even x even)))
  | inr e ↦
      (let odd : x % 2 ≡ 1 = odd_of x e in
        crc_bit_odd (bit_xor 32 x (2 * z)) (omega (arith, bit_xor_low 31 x (2 * z)))
        ∙ ap (λ (t : ℕ). bit_xor 32 t crc32c_polynomial) (half_xor x z p q)
        ∙ swap_last (x / 2) z crc32c_polynomial
        ∙ ap (λ (t : ℕ). bit_xor 32 t z) (sym (crc_bit_odd x odd)))
]

pub crc_bits_linear :
    (n x z : ℕ)
    → x < 2 ^ 32
    → 2 ^ n * z < 2 ^ 32
    → crc_bits n (bit_xor 32 x (2 ^ n * z)) ≡ bit_xor 32 (crc_bits n x) z
unfolding crc_bits
crc_bits_linear zero x z p q = ap (λ (t : ℕ). bit_xor 32 x t) (omega arith)
crc_bits_linear (suc n) x z p q =
    ap (λ (t : ℕ). crc_bits n (crc_bit (bit_xor 32 x t))) regroup
    ∙ ap (crc_bits n) (crc_bit_linear x (2 ^ n * z) p (omega (arith, regroup, q)))
    ∙ crc_bits_linear n (crc_bit x) z (crc_bit-lt x p) (omega (arith, regroup, q))
  where
    regroup : 2 ^ suc n * z ≡ 2 * (2 ^ n * z)
    regroup = rw (two-pow-succ n) (grind arith)

-- Two numbers with no common digit are added.
disjoint :
    (bits k l h : ℕ)
    → k ≤ bits
    → l < 2 ^ k
    → l + 2 ^ k * h < 2 ^ bits
    → bit_xor bits l (2 ^ k * h) ≡ l + 2 ^ k * h
unfolding bit_xor
disjoint bits zero l h kb lk b =
    rw zero'
      (bit_xor_comm bits 0 (1 * h) ∙ bit_xor-zero bits (1 * h) (omega (arith, b)) ∙ omega arith)
  where
    zero' : l ≡ 0
    zero' = omega arith
disjoint zero (suc k) l h kb lk b = absurd (omega arith)
disjoint (suc bits) (suc k) l h kb lk b = omega (
  arith,
  regroup,
  ap (λ (t : ℕ). bit_xor bits (l / 2) t) halved,
  disjoint bits k (l / 2) h (omega arith) (omega (arith, lk, two-pow-succ k))
      (omega (arith, regroup, b, two-pow-succ bits)),
)
  where
    regroup : 2 ^ suc k * h ≡ 2 * (2 ^ k * h)
    regroup = rw (two-pow-succ k) (grind arith)

    halved : 2 ^ suc k * h / 2 ≡ 2 ^ k * h
    halved = omega (arith, regroup)

-- Eight rounds read the low byte only.
pub crc_byte : (x : ℕ) → x < 2 ^ 32 → crc_bits 8 x ≡ bit_xor 32 (crc_bits 8 (x % 256)) (x / 256)
crc_byte x h =
    ap (crc_bits 8) (sym together)
    ∙ crc_bits_linear 8 (x % 256) (x / 256) (omega arith) (omega (arith, h))
  where
    together : bit_xor 32 (x % 256) (2 ^ 8 * (x / 256)) ≡ x
    together =
        disjoint 32 8 (x % 256) (x / 256) (omega arith) (omega arith) (omega (arith, h))
        ∙ omega arith
