-- ===== src/Ingest/Spsc/Numbers.antt =====
-- include/ironpulse/ingest/ring_buffer.hpp: indices in `size_t`, and the slots they lead to.
use native.Mathlib.Nat.{mod-lt}
use mathlib.Core.Option.{some-injective}
use ironpulse.Prelude.{
  ℕ, zero, suc, ◌+◌, ◌-◌, ◌%◌, ◌^◌, ◌<◌, ◌≤◌, ◌≡◌, ◌≢◌, refl, sym, ap, true, false, ◌==◌, ==_iff,
  List, [], ◌∷◌, ◌++◌, none, some, length, take, drop, get_elem?, get_or, set, arith, dec_lt,
  get_or-set_self, get_or-set_ne,
}
use ironpulse.Prelude.Modulo.{mod-ne}
use ironpulse.Ingest.Spsc.{minus}

-- A size that is at most 2 ^ 63 is the difference of the wrapped indices.
pub minus_eq : (a b : ℕ) → b ≤ a → a ≤ b + 2 ^ 63 → minus (a % 2 ^ 64) (b % 2 ^ 64) ≡ a - b
minus_eq a b h k = omega arith

pub same_index : (a b : ℕ) → a ≤ b → b ≤ a + 2 ^ 63 → (a % 2 ^ 64 == b % 2 ^ 64) ≡ true → a ≡ b
same_index a b h k e = omega (arith, (==_iff (a % 2 ^ 64) (b % 2 ^ 64)).0 e)

pub other_index : (a b : ℕ) → a ≤ b → (a % 2 ^ 64 == b % 2 ^ 64) ≡ false → a < b
other_index a b h e = ground (arith, ==_iff (a % 2 ^ 64) (b % 2 ^ 64))

pub different : (a b : ℕ) → a < b → b ≤ a + 2 ^ 63 → (a % 2 ^ 64 == b % 2 ^ 64) ≡ false
different a b h k = ground (arith, ==_iff (a % 2 ^ 64) (b % 2 ^ 64))

pub next_index : (n : ℕ) → (n % 2 ^ 64 + 1) % 2 ^ 64 ≡ suc n % 2 ^ 64
next_index n = omega arith

module _ {A : Type 0} where
  pub get_elem?-append_lt :
      (xs ys : List A) (n : ℕ) → n < length xs → get_elem? (xs ++ ys) n ≡ get_elem? xs n
  get_elem?-append_lt [] ys n h = absurd (omega arith)
  get_elem?-append_lt (x ∷ xs) ys zero h = refl
  get_elem?-append_lt (x ∷ xs) ys (suc n) h = get_elem?-append_lt xs ys n (omega arith)

  pub get_elem?-append_last :
      (xs : List A) (x : A) → get_elem? (xs ++ (x ∷ [])) (length xs) ≡ some x
  get_elem?-append_last [] x = refl
  get_elem?-append_last (y ∷ xs) x = get_elem?-append_last xs x

  pub get_elem?-past : (xs : List A) (n : ℕ) → length xs ≤ n → get_elem? xs n ≡ none
  get_elem?-past [] n h = refl
  get_elem?-past (x ∷ xs) zero h = absurd (omega arith)
  get_elem?-past (x ∷ xs) (suc n) h = get_elem?-past xs n (omega arith)

  pub get_elem?-some : (xs : List A) (n : ℕ) → n < length xs → (x : A) × (get_elem? xs n ≡ some x)
  get_elem?-some [] n h = absurd (omega arith)
  get_elem?-some (x ∷ xs) zero h = (x, refl)
  get_elem?-some (x ∷ xs) (suc n) h = get_elem?-some xs n (omega arith)

  pub take-suc-some :
      (xs : List A) (n : ℕ) (x : A)
      → get_elem? xs n ≡ some x
      → take (suc n) xs ≡ take n xs ++ (x ∷ [])
  take-suc-some [] n x e = cc
  take-suc-some (y ∷ xs) zero x e = ap (λ z. z ∷ []) (some-injective _ _ e)
  take-suc-some (y ∷ xs) (suc n) x e = ap (λ t. y ∷ t) (take-suc-some xs n x e)

  pub drop-some :
      (xs : List A) (n : ℕ) (x : A) → get_elem? xs n ≡ some x → drop n xs ≡ x ∷ drop (suc n) xs
  drop-some [] n x e = cc
  drop-some (y ∷ xs) zero x e = ap (λ z. z ∷ xs) (some-injective _ _ e)
  drop-some (y ∷ xs) (suc n) x e = drop-some xs n x e

  pub drop-length : (xs : List A) → drop (length xs) xs ≡ []
  drop-length [] = refl
  drop-length (x ∷ xs) = drop-length xs

  pub take-append_le : (n : ℕ) (xs ys : List A) → n ≤ length xs → take n (xs ++ ys) ≡ take n xs
  take-append_le zero xs ys h = refl
  take-append_le (suc n) [] ys h = absurd (omega arith)
  take-append_le (suc n) (x ∷ xs) ys h = ap (λ t. x ∷ t) (take-append_le n xs ys (omega arith))

-- A write to the slot of one index is not seen at another that is less than a capacity away.
module _ {B : Type 0} (slots : List B) (capacity : ℕ) (positive : 0 < capacity)
    (whole : length slots ≡ capacity) where
  pub set_here : (i : ℕ) (v d : B) → get_or (set slots (i % capacity) v) (i % capacity) d ≡ v
  set_here i v d =
      get_or-set_self slots (i % capacity) v d (omega (arith, mod-lt i {m = capacity} positive))

  pub set_elsewhere :
      (i j : ℕ) (v d : B)
      → i ≢ j
      → i < j + capacity
      → j < i + capacity
      → get_or (set slots (i % capacity) v) (j % capacity) d ≡ get_or slots (j % capacity) d
  set_elsewhere i j v d ne p q = get_or-set_ne slots v d apart
    where
      apart : i % capacity ≢ j % capacity
      apart = elim (dec_lt i j) [
        | yes lt ↦ mod-ne capacity i j lt q
        | no ge ↦ λ e. mod-ne capacity j i (omega arith) p (sym e)
      ]
