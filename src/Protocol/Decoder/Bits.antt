-- ===== src/Protocol/Decoder/Bits.antt =====
-- The numbers behind register words, as a device sends them.
use ironpulse.Prelude.{
  ℕ, ◌-◌, ◌*◌, ◌/◌, ◌%◌, ◌^◌, ◌<◌, ◌≡◌, refl, ap, ◌∙◌, ltb, arith, List, [], ◌∷◌, get_or,
  Bool-cases, inl, inr, tests,
}
use ironpulse.Prelude.Double.{Double}
use ironpulse.Core.Config.Types.{
  DataType, uint16, int16, uint32, int32, float32, WordOrder, big, little,
}
use ironpulse.Protocol.Decoder.{join_words, of_signed, decode_raw}

-- A measured number: `n`, `-(n + 1)`, or the float of 32 bits.
pub data Quantity : Type 0 where
  natural : ℕ → Quantity
  negative : ℕ → Quantity
  float : ℕ → Quantity

-- Which numbers a type can carry.
abbrev pub Carries : DataType → Quantity → Type 0
Carries uint16 (natural n) = n < 2 ^ 16
Carries int16 (natural n) = n < 2 ^ 15
Carries int16 (negative n) = n < 2 ^ 15
Carries uint32 (natural n) = n < 2 ^ 32
Carries int32 (natural n) = n < 2 ^ 31
Carries int32 (negative n) = n < 2 ^ 31
Carries float32 (float b) = b < 2 ^ 32
Carries _ _ = ⊥

-- The two registers that hold a 32-bit pattern, in the order in which they are sent.
abbrev pub split_words : WordOrder → ℕ → List ℕ
split_words big bits = (bits / 65536) ∷ (bits % 65536) ∷ []
split_words little bits = (bits % 65536) ∷ (bits / 65536) ∷ []

-- The two's complement pattern in 16 or 32 bits.
abbrev pub pattern_of : ℕ → Quantity → ℕ
pattern_of size (natural n) = n
pattern_of size (negative n) = size - 1 - n
pattern_of size (float b) = b

abbrev pub registers_of : DataType → WordOrder → Quantity → List ℕ
registers_of uint16 order q = pattern_of (2 ^ 16) q ∷ []
registers_of int16 order q = pattern_of (2 ^ 16) q ∷ []
registers_of _ order q = split_words order (pattern_of (2 ^ 32) q)

join_words-split :
    (order : WordOrder) (bits : ℕ)
    → join_words order (get_or (split_words order bits) 0 0) (get_or (split_words order bits) 1 0)
      ≡ bits
unfolding join_words
join_words-split big bits = omega arith
join_words-split little bits = omega arith

module _ (F : Double) where
  open F use {D, of_nat, of_negative, of_float_bits}

  abbrev pub double_of : Quantity → D
  double_of (natural n) = of_nat n
  double_of (negative n) = of_negative n
  double_of (float b) = of_float_bits b

  of_signed_natural : (half n : ℕ) → n < half → of_signed F half n ≡ of_nat n
  unfolding of_signed
  of_signed_natural half n h = ground arith

  of_signed_negative : (half n : ℕ) → n < half → of_signed F half (2 * half - 1 - n) ≡ of_negative n
  unfolding of_signed
  of_signed_negative half n h = elim (Bool-cases (ltb (2 * half - 1 - n) half)) [
    | inl e ↦ absurd (omega tests)
    | inr e ↦ rw e (ap of_negative (omega arith))
  ]

  -- `decode_raw` returns the very number that a device sends, whatever the type that can carry it
  -- and the word order: unsigned, signed of either sign, or the bits of a float.
  pub decode_raw-registers_of :
      (type : DataType) (order : WordOrder) (q : Quantity)
      → Carries type q
      → decode_raw F (registers_of type order q) type order ≡ double_of q
  unfolding decode_raw
  decode_raw-registers_of uint16 order (natural n) h = refl
  decode_raw-registers_of int16 order (natural n) h = of_signed_natural (2 ^ 15) n h
  decode_raw-registers_of int16 order (negative n) h = of_signed_negative (2 ^ 15) n h
  decode_raw-registers_of uint32 order (natural n) h = ap of_nat (join_words-split order n)
  decode_raw-registers_of int32 order (natural n) h =
      ap (of_signed F (2 ^ 31)) (join_words-split order n) ∙ of_signed_natural (2 ^ 31) n h
  decode_raw-registers_of int32 order (negative n) h =
      ap (of_signed F (2 ^ 31)) (join_words-split order (2 ^ 32 - 1 - n))
      ∙ of_signed_negative (2 ^ 31) n h
  decode_raw-registers_of float32 order (float b) h = ap of_float_bits (join_words-split order b)
  decode_raw-registers_of _ order _ h = absurd h
