-- ===== src/Protocol/Frame/Layout.antt =====
-- The bytes of an answer as the Modbus documents lay them out, and the words behind a byte list.
use ironpulse.Prelude.{
  ℕ, zero, suc, ◌+◌, ◌*◌, ◌/◌, ◌%◌, ◌<◌, ◌≤◌, ◌≡◌, refl, ap, ap₂, sym, ◌∙◌, true, false, List, [],
  ◌∷◌, ◌++◌, arith, length, get_or, All, Bool, append_assoc, length-append, get_or-append_right,
}
use ironpulse.Protocol.Frame.{
  FunctionCode, write_single_register, code, ModbusResponse, push_u16, read_registers,
}

abbrev pub IsByte : ℕ → Type 0
IsByte b = b < 256

abbrev pub IsWord : ℕ → Type 0
IsWord w = w < 65536

abbrev pub word_bytes : List ℕ → List ℕ
word_bytes [] = []
word_bytes (w ∷ ws) = push_u16 w ++ word_bytes ws

abbrev pub words : ℕ → List ℕ → List ℕ
words (suc n) (a ∷ b ∷ xs) = (a * 256 + b) ∷ words n xs
words _ _ = []

pub length-word_bytes : (ws : List ℕ) → length (word_bytes ws) ≡ 2 * length ws
length-word_bytes [] = refl
length-word_bytes (w ∷ ws) = omega (arith, length-word_bytes ws)

pub words-word_bytes : (ws : List ℕ) → All IsWord ws → words (length ws) (word_bytes ws) ≡ ws
words-word_bytes [] h = refl
words-word_bytes (w ∷ ws) h = ap₂ ◌∷◌ joined (words-word_bytes ws h.1)
  where
    joined : w / 256 % 256 * 256 + w % 256 ≡ w
    joined = omega (arith, h.0)

pub word_bytes-words :
    (n : ℕ) (xs : List ℕ) → length xs ≡ 2 * n → All IsByte xs → word_bytes (words n xs) ≡ xs
word_bytes-words zero [] e h = refl
word_bytes-words zero (x ∷ xs) e h = absurd (omega arith)
word_bytes-words (suc n) [] e h = absurd (omega arith)
word_bytes-words (suc n) (a ∷ []) e h = absurd (omega arith)
word_bytes-words (suc n) (a ∷ b ∷ xs) e h =
    ap₂ ◌∷◌ high (ap₂ ◌∷◌ low (word_bytes-words n xs (omega arith) h.1.1))
  where
    high : (a * 256 + b) / 256 % 256 ≡ a
    high = omega (arith, h.0, h.1.0)

    low : (a * 256 + b) % 256 ≡ b
    low = omega (arith, h.0, h.1.0)

pub length-words : (n : ℕ) (xs : List ℕ) → length xs ≡ 2 * n → length (words n xs) ≡ n
length-words zero xs e = refl
length-words (suc n) [] e = absurd (omega arith)
length-words (suc n) (a ∷ []) e = absurd (omega arith)
length-words (suc n) (a ∷ b ∷ xs) e = ap suc (length-words n xs (omega arith))

pub words-IsWord : (n : ℕ) (xs : List ℕ) → All IsByte xs → All IsWord (words n xs)
words-IsWord zero xs h = tt
words-IsWord (suc n) [] h = tt
words-IsWord (suc n) (a ∷ []) h = tt
words-IsWord (suc n) (a ∷ b ∷ xs) h = (omega (arith, h.0, h.1.0), words-IsWord n xs h.1.1)

-- The loop reads the words that stand behind the first nine bytes.
pub read_registers-eq-words :
    (stray left i : ℕ) (xs : List ℕ)
    → 2 * left ≤ length xs
    → (before : List ℕ) → length before ≡ 9 + i * 2
    → read_registers stray (before ++ xs) left i ≡ words left xs
unfolding read_registers
read_registers-eq-words stray zero i xs h before e = refl
read_registers-eq-words stray (suc n) i [] h before e = absurd (omega arith)
read_registers-eq-words stray (suc n) i (a ∷ []) h before e = absurd (omega arith)
read_registers-eq-words stray (suc n) i (a ∷ b ∷ xs) h before e =
    ap₂ ◌∷◌ (ap₂ (λ hi lo. hi * 256 + lo) high low) (
      ap (λ l. read_registers stray l n (i + 1)) (sym (append_assoc before (a ∷ b ∷ []) xs))
      ∙ read_registers-eq-words stray n (i + 1) xs (omega arith) (before ++ (a ∷ b ∷ []))
          (omega (arith, length-append before (a ∷ b ∷ []))))
  where
    high : get_or (before ++ (a ∷ b ∷ xs)) (9 + i * 2) stray ≡ a
    high = get_or-append_right before (a ∷ b ∷ xs) (9 + i * 2) 0 stray (omega arith)

    low : get_or (before ++ (a ∷ b ∷ xs)) (9 + i * 2 + 1) stray ≡ b
    low = get_or-append_right before (a ∷ b ∷ xs) (9 + i * 2 + 1) 1 stray (omega arith)

-- What a device sends back. The address belongs to the echo of a written register alone.
abbrev pub response_bytes : ℕ → ModbusResponse → List ℕ
response_bytes address r =
    push_u16 r.transaction_id ++ (push_u16 0 ++ pdu r.is_exception r.function)
  where
    pdu : Bool → FunctionCode → List ℕ
    pdu true f = push_u16 3 ++ (r.unit_id ∷ (128 + code f) ∷ r.exception_code ∷ [])
    pdu false write_single_register =
        push_u16 6 ++ (r.unit_id ∷ 6 ∷ (push_u16 address ++ word_bytes r.registers))
    pdu false f =
        push_u16 (3 + 2 * length r.registers)
        ++ (r.unit_id ∷ code f ∷ (2 * length r.registers) ∷ word_bytes r.registers)
