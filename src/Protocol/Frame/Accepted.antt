-- ===== src/Protocol/Frame/Accepted.antt =====
-- `decode_response` accepts nothing but the layout of an answer.
use ironpulse.Prelude.{
  ℕ, ◌+◌, ◌*◌, ◌/◌, ◌%◌, ◌<◌, ◌≤◌, ◌≡◌, ◌≢◌, refl, Bool, true, false, List, [], ◌∷◌, some, arith,
  length, All, inl, inr, ◌⊎◌,
}
use ironpulse.Protocol.Frame.{
  FunctionCode, read_holding_registers, read_input_registers, write_single_register, code,
  ModbusResponse, read_u16, read_registers, decode_response, decode_pdu,
}
use ironpulse.Protocol.Frame.Layout.{
  IsByte, word_bytes, words, word_bytes-words, read_registers-eq-words, response_bytes,
  length-words, words-IsWord,
}
use ironpulse.Protocol.Frame.RoundTrip.{IsAnswer, IsShape}
use ironpulse.Protocol.Frame.Guards.{Passed, passed, header_facts, function_facts, accepted_length}

pub record IsLaidOut (buf : List ℕ) (r : ModbusResponse) : Type 0 where
  pub answer : IsAnswer r
  pub address : ℕ
  pub layout : response_bytes address r ≡ buf

module _ (stray b0 b1 b2 b3 b4 b5 b6 b7 b8 : ℕ) (rest : List ℕ) where
  abbrev buffer : List ℕ
  buffer = b0 ∷ b1 ∷ b2 ∷ b3 ∷ b4 ∷ b5 ∷ b6 ∷ b7 ∷ b8 ∷ rest

  abbrev answer : FunctionCode → Bool → ℕ → List ℕ → ModbusResponse
  answer f exc x rs = record {
    transaction_id = b0 * 256 + b1;
    unit_id = b6;
    function = f;
    is_exception = exc;
    exception_code = x;
    registers = rs;
  }

  record Frame (fc : FunctionCode) : Type 0 where
    bytes : All IsByte buffer
    zeros : (b2 ≡ 0) × (b3 ≡ 0)
    size : length buffer ≡ 6 + (b4 * 256 + b5)
    byte : b7 % 128 ≡ code fc

  exception_pdu :
      (fc : FunctionCode) {r : ModbusResponse}
      → 128 ≤ b7
      → decode_pdu stray buffer (length buffer) fc ≡ some r
      → (length rest ≡ 0) × (r ≡ answer fc true b8 [])
  unfolding decode_pdu
  exception_pdu fc high h = ground arith

  read_pdu :
      (fc : FunctionCode) {r : ModbusResponse}
      → fc ≢ write_single_register
      → b7 < 128
      → decode_pdu stray buffer (length buffer) fc ≡ some r
      → (b8 ≡ length rest)
        × (b8 ≡ 2 * (b8 / 2))
        × (1 ≤ b8 / 2)
        × (b8 / 2 ≤ 125)
        × (r ≡ answer fc false 0 (read_registers stray buffer (b8 / 2) 0))
  unfolding decode_pdu
  read_pdu read_holding_registers ne low h = ground arith
  read_pdu read_input_registers ne low h = ground arith
  read_pdu write_single_register ne low h = absurd (ne refl)

  exception_IsLaidOut :
      (fc : FunctionCode) {r : ModbusResponse}
      → Frame fc
      → 128 ≤ b7
      → decode_pdu stray buffer (length buffer) fc ≡ some r
      → IsLaidOut buffer r
  exception_IsLaidOut fc v high h =
      let (short, e) = exception_pdu fc high h in
      rw e (record {
        answer = record {
          transaction = omega (arith, v.bytes);
          unit = omega (arith, v.bytes);
          register_words = tt;
          shape = (omega (arith, v.bytes), refl);
        };
        address = 0;
        layout = ground (arith, v.bytes, v.zeros, v.size, v.byte, short);
      })

  read_IsLaidOut :
      (fc : FunctionCode) {r : ModbusResponse}
      → Frame fc
      → fc ≢ write_single_register
      → b7 < 128
      → decode_pdu stray buffer (length buffer) fc ≡ some r
      → IsLaidOut buffer r
  read_IsLaidOut fc {r} v ne low h =
      let (count, even, some_words, few, e) = read_pdu fc ne low h in
      let n = b8 / 2 in
      let long : length rest ≡ 2 * n = omega arith in
      let read : read_registers stray buffer n 0 ≡ words n rest =
        read_registers-eq-words stray n 0 rest (omega arith)
          (b0 ∷ b1 ∷ b2 ∷ b3 ∷ b4 ∷ b5 ∷ b6 ∷ b7 ∷ b8 ∷ []) refl in
      let tail : All IsByte rest = v.bytes.1.1.1.1.1.1.1.1.1 in
      let back = word_bytes-words n rest long tail in
      let size = length-words n rest long in
      let shape : IsShape false fc 0 (words n rest) =
        read_shape fc (words n rest) ne (omega arith) (omega arith) in
      rw (e, read)
        (record {
          answer = record {
            transaction = omega (arith, v.bytes);
            unit = omega (arith, v.bytes);
            register_words = words-IsWord n rest tail;
            shape = shape;
          };
          address = 0;
          layout = read_layout fc ne v (words n rest) (omega arith) (omega arith) back;
        })
    where
      read_shape :
          (f : FunctionCode) (rs : List ℕ)
          → f ≢ write_single_register
          → 1 ≤ length rs
          → length rs ≤ 125
          → IsShape false f 0 rs
      read_shape read_holding_registers rs ne' a b = (refl, a, b)
      read_shape read_input_registers rs ne' a b = (refl, a, b)
      read_shape write_single_register rs ne' a b = absurd (ne' refl)

      read_layout :
          (f : FunctionCode)
          → f ≢ write_single_register
          → Frame f
          → (rs : List ℕ) → b8 ≡ 2 * length rs
          → length rest ≡ b8
          → word_bytes rs ≡ rest
          → response_bytes 0 (answer f false 0 rs) ≡ buffer
      read_layout read_holding_registers ne' v' rs e₁ e₂ e₃ =
          ground (arith, v'.bytes, v'.zeros, v'.size, v'.byte)
      read_layout read_input_registers ne' v' rs e₁ e₂ e₃ =
          ground (arith, v'.bytes, v'.zeros, v'.size, v'.byte)
      read_layout write_single_register ne' v' rs e₁ e₂ e₃ = absurd (ne' refl)

  write_pdu :
      {r : ModbusResponse}
      → b7 < 128
      → decode_pdu stray buffer (length buffer) write_single_register ≡ some r
      → (length rest ≡ 3)
        × (r ≡ answer write_single_register false 0 (read_u16 stray buffer 10 ∷ []))
  unfolding decode_pdu
  write_pdu low h = ground arith

write_IsLaidOut :
    (stray b0 b1 b2 b3 b4 b5 b6 b7 b8 : ℕ) (rest : List ℕ) {r : ModbusResponse}
    → Frame stray b0 b1 b2 b3 b4 b5 b6 b7 b8 rest write_single_register
    → length rest ≡ 3
    → b7 < 128
    → r
      ≡ answer stray b0 b1 b2 b3 b4 b5 b6 b7 b8 rest write_single_register false 0
          (read_u16 stray (b0 ∷ b1 ∷ b2 ∷ b3 ∷ b4 ∷ b5 ∷ b6 ∷ b7 ∷ b8 ∷ rest) 10 ∷ [])
    → IsLaidOut (b0 ∷ b1 ∷ b2 ∷ b3 ∷ b4 ∷ b5 ∷ b6 ∷ b7 ∷ b8 ∷ rest) r
write_IsLaidOut stray b0 b1 b2 b3 b4 b5 b6 b7 b8 (c0 ∷ c1 ∷ c2 ∷ []) v three low e = rw e (record {
  answer = record {
    transaction = omega (arith, v.bytes);
    unit = omega (arith, v.bytes);
    register_words = omega (arith, v.bytes);
    shape = (refl, refl);
  };
  address = b8 * 256 + c0;
  layout = ground (arith, v.bytes, v.zeros, v.size, v.byte);
})
write_IsLaidOut stray b0 b1 b2 b3 b4 b5 b6 b7 b8 [] v three low e = absurd (omega arith)
write_IsLaidOut stray b0 b1 b2 b3 b4 b5 b6 b7 b8 (c0 ∷ []) v three low e = absurd (omega arith)
write_IsLaidOut stray b0 b1 b2 b3 b4 b5 b6 b7 b8 (c0 ∷ c1 ∷ []) v three low e = absurd (omega arith)
write_IsLaidOut stray b0 b1 b2 b3 b4 b5 b6 b7 b8 (c0 ∷ c1 ∷ c2 ∷ c3 ∷ cs) v three low e =
    absurd (omega arith)

laid_out :
    (stray b0 b1 b2 b3 b4 b5 b6 b7 b8 : ℕ) (rest : List ℕ) {r : ModbusResponse} (fc : FunctionCode)
    → Frame stray b0 b1 b2 b3 b4 b5 b6 b7 b8 rest fc
    → decode_pdu stray
        (b0 ∷ b1 ∷ b2 ∷ b3 ∷ b4 ∷ b5 ∷ b6 ∷ b7 ∷ b8 ∷ rest)
        (length (b0 ∷ b1 ∷ b2 ∷ b3 ∷ b4 ∷ b5 ∷ b6 ∷ b7 ∷ b8 ∷ rest))
        fc
      ≡ some r
    → (128 ≤ b7) ⊎ (b7 < 128)
    → IsLaidOut (b0 ∷ b1 ∷ b2 ∷ b3 ∷ b4 ∷ b5 ∷ b6 ∷ b7 ∷ b8 ∷ rest) r
laid_out stray b0 b1 b2 b3 b4 b5 b6 b7 b8 rest fc v d (inl high) =
    exception_IsLaidOut stray b0 b1 b2 b3 b4 b5 b6 b7 b8 rest fc v high d
laid_out stray b0 b1 b2 b3 b4 b5 b6 b7 b8 rest write_single_register v d (inr low) =
    let (three, e) = write_pdu stray b0 b1 b2 b3 b4 b5 b6 b7 b8 rest low d in
    write_IsLaidOut stray b0 b1 b2 b3 b4 b5 b6 b7 b8 rest v three low e
laid_out stray b0 b1 b2 b3 b4 b5 b6 b7 b8 rest read_holding_registers v d (inr low) =
    read_IsLaidOut stray b0 b1 b2 b3 b4 b5 b6 b7 b8 rest read_holding_registers v (λ e. cc) low d
laid_out stray b0 b1 b2 b3 b4 b5 b6 b7 b8 rest read_input_registers v d (inr low) =
    read_IsLaidOut stray b0 b1 b2 b3 b4 b5 b6 b7 b8 rest read_input_registers v (λ e. cc) low d

by_bytes :
    (stray : ℕ) (buf : List ℕ) {r : ModbusResponse}
    → All IsByte buf
    → 9 ≤ length buf
    → Passed stray buf r
    → IsLaidOut buf r
by_bytes stray (b0 ∷ b1 ∷ b2 ∷ b3 ∷ b4 ∷ b5 ∷ b6 ∷ b7 ∷ b8 ∷ rest) {r} bytes long p =
    let facts = header_facts stray b0 b1 b2 b3 b4 b5 b6 b7 (b8 ∷ rest) _ p.header in
    laid_out stray b0 b1 b2 b3 b4 b5 b6 b7 b8 rest p.fc
      (record {
        bytes = bytes;
        zeros = (facts.0, facts.1);
        size = facts.2;
        byte = function_facts (b7 % 128) p.fc p.function_byte;
      })
      p.pdu (omega arith)
by_bytes stray _ bytes long p = absurd (omega arith)

-- Every frame that `decode_response` accepts is the layout of a well-formed answer, and the
-- returned answer is that one: nothing malformed, cut short or over-long gets through.
pub decode_response-IsLaidOut :
    (stray : ℕ) (buf : List ℕ) {r : ModbusResponse}
    → All IsByte buf
    → decode_response stray buf ≡ some r
    → IsLaidOut buf r
decode_response-IsLaidOut stray buf bytes h =
    by_bytes stray buf bytes (accepted_length stray buf h) (passed stray buf h)
