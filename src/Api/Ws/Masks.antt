-- ===== src/Api/Ws/Masks.antt =====
-- src/api/ws_server.cpp: the masks of a client's payloads.
use ironpulse.Prelude.{
  ℕ, zero, suc, ◌+◌, ◌/◌, ◌%◌, get_or, ◌≡◌, refl, ap, ap₂, ◌∙◌, List, [], ◌∷◌, length, All, arith,
}
use ironpulse.Prelude.Bits.{bit_xor, bit_xor_assoc, bit_xor-zero}
use ironpulse.Prelude.Bytes.{IsByte}
use ironpulse.Api.Ws.{unmask}

-- The key's octets are used in turn.
unfoldable pub mask : ℕ → ℕ → ℕ → ℕ → List ℕ → List ℕ
mask k0 k1 k2 k3 [] = []
mask k0 k1 k2 k3 (b ∷ bytes) = bit_xor 8 b k0 ∷ mask k1 k2 k3 k0 bytes

pub length-mask :
    (k0 k1 k2 k3 : ℕ) (bytes : List ℕ) → length (mask k0 k1 k2 k3 bytes) ≡ length bytes
unfolding mask
length-mask k0 k1 k2 k3 [] = refl
length-mask k0 k1 k2 k3 (b ∷ bytes) = ap suc (length-mask k1 k2 k3 k0 bytes)

bit_xor_self : (bits a : ℕ) → bit_xor bits a a ≡ 0
unfolding bit_xor
bit_xor_self zero a = refl
bit_xor_self (suc bits) a = omega (arith, bit_xor_self bits (a / 2))

unmask_octet : (b k : ℕ) → IsByte b → bit_xor 8 (bit_xor 8 b k) k ≡ b
unmask_octet b k small =
    bit_xor_assoc 8 b k k ∙ ap (bit_xor 8 b) (bit_xor_self 8 k) ∙ bit_xor-zero 8 b small

module _ (key : List ℕ) where
  pub unmask-mask :
      (bytes : List ℕ) (i k0 k1 k2 k3 : ℕ)
      → All IsByte bytes
      → get_or key (i % 4) 0 ≡ k0
      → get_or key ((i + 1) % 4) 0 ≡ k1
      → get_or key ((i + 2) % 4) 0 ≡ k2
      → get_or key ((i + 3) % 4) 0 ≡ k3
      → unmask i key (mask k0 k1 k2 k3 bytes) ≡ bytes
  unfolding unmask mask
  unmask-mask [] i k0 k1 k2 k3 small e0 e1 e2 e3 = refl
  unmask-mask (b ∷ bytes) i k0 k1 k2 k3 small e0 e1 e2 e3 =
      ap₂ (λ x y. x ∷ y) (ap (bit_xor 8 (bit_xor 8 b k0)) e0 ∙ unmask_octet b k0 small.0)
        (unmask-mask bytes (i + 1) k1 k2 k3 k0 small.1 e1
          (ap (λ n. get_or key (n % 4) 0) (two i) ∙ e2)
          (ap (λ n. get_or key (n % 4) 0) (three i) ∙ e3) (ap (λ n. get_or key n 0) (four i) ∙ e0))
    where
      two : (i : ℕ) → i + 1 + 1 ≡ i + 2
      two i = omega arith

      three : (i : ℕ) → i + 1 + 2 ≡ i + 3
      three i = omega arith

      four : (i : ℕ) → (i + 1 + 3) % 4 ≡ i % 4
      four i = omega arith
