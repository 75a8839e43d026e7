-- ===== src/Prelude/Bytes.antt =====
-- Little-endian layouts of unsigned integers, and buffers cut into pieces of one size.
use Prim.Native.Nat.{ℕ, zero, suc, ◌+◌, ◌*◌, ◌/◌, ◌%◌, ◌^◌, ◌<◌}
use mathlib.Core.Path.{◌≡◌, refl, ap, ap₂, ◌∙◌}
use mathlib.Core.List.{List, [], ◌∷◌, ◌++◌}
use native.Mathlib.Nat.{pow-succ'}
use native.Mathlib.Omega.{arith}
use ironpulse.Prelude.Lists.{length, All}

-- The bytes of a number, the low one first.
unfoldable pub le_bytes : ℕ → ℕ → List ℕ
le_bytes zero v = []
le_bytes (suc n) v = (v % 256) ∷ le_bytes n (v / 256)

unfoldable pub of_le : List ℕ → ℕ
of_le [] = 0
of_le (b ∷ bs) = b + 256 * of_le bs

pub length-le_bytes : (n v : ℕ) → length (le_bytes n v) ≡ n
unfolding le_bytes
length-le_bytes zero v = refl
length-le_bytes (suc n) v = ap suc (length-le_bytes n (v / 256))

pub of_le-le_bytes : (n v : ℕ) → v < 256 ^ n → of_le (le_bytes n v) ≡ v
unfolding le_bytes of_le
of_le-le_bytes zero v h = omega (arith, h)
of_le-le_bytes (suc n) v h = omega (arith, h, of_le-le_bytes n (v / 256) (omega (arith, h)))

abbrev pub IsByte : ℕ → Type 0
IsByte b = b < 256

pub of_le-lt : (bytes : List ℕ) → All IsByte bytes → of_le bytes < 256 ^ length bytes
unfolding of_le
of_le-lt [] h = omega arith
of_le-lt (b ∷ bytes) h = omega (arith, h.0, of_le-lt bytes h.1, pow-succ' 256 (length bytes))

pub le_bytes-of_le :
    (bytes : List ℕ) → All IsByte bytes → le_bytes (length bytes) (of_le bytes) ≡ bytes
unfolding le_bytes of_le
le_bytes-of_le [] h = refl
le_bytes-of_le (b ∷ bytes) h =
    ap₂ (λ (x : ℕ) (xs : List ℕ). x ∷ xs) low
      (ap (le_bytes (length bytes)) high ∙ le_bytes-of_le bytes h.1)
  where
    low : (b + 256 * of_le bytes) % 256 ≡ b
    low = omega (arith, h.0)

    high : (b + 256 * of_le bytes) / 256 ≡ of_le bytes
    high = omega (arith, h.0)

pub of_le-append :
    (n : ℕ) (a b : List ℕ) → length a ≡ n → of_le (a ++ b) ≡ of_le a + 256 ^ n * of_le b
unfolding of_le
of_le-append zero [] b e = omega arith
of_le-append (suc n) [] b e = absurd (omega arith)
of_le-append zero (x ∷ a) b e = absurd (omega arith)
of_le-append (suc n) (x ∷ a) b e = omega (arith, of_le-append n a b (omega arith), regroup)
  where
    regroup : 256 ^ suc n * of_le b ≡ 256 * (256 ^ n * of_le b)
    regroup = rw (pow-succ' 256 n) (grind arith)

pub IsByte-le_bytes : (n v : ℕ) → All IsByte (le_bytes n v)
unfolding le_bytes
IsByte-le_bytes zero v = tt
IsByte-le_bytes (suc n) v = (omega arith, IsByte-le_bytes n (v / 256))
