-- ===== src/Protocol/Frame/Guards.antt =====
-- src/protocol/frame_codec.cpp: what the tests of `decode_response` say of an accepted frame.
use ironpulse.Prelude.{
  ℕ, ◌+◌, ◌*◌, ◌%◌, ◌≤◌, ◌≡◌, refl, ap, sym, subst, ◌∙◌, Bool, true, false, List, ◌∷◌, Option, some,
  none, arith, length, ◌>>=◌, get_or, ==_iff, ◌==◌, guard, ◌>>◌,
}
use ironpulse.Protocol.Frame.{
  FunctionCode, read_holding_registers, read_input_registers, write_single_register, code,
  ModbusResponse, decode_response, decode_pdu, expected_frame_length, function_of,
}

>>=-eq-some :
    {A B : Type 0} (m : Option A) (f : A → Option B) {b : B}
    → (m >>= f) ≡ some b
    → (a : A) × (m ≡ some a) × (f a ≡ some b)
>>=-eq-some none f h = absurd (ground arith)
>>=-eq-some (some a) f h = (a, refl, h)

guard-eq-some :
    {B : Type 0} (t : Bool) (m : Option B) {b : B}
    → (guard t >> m) ≡ some b
    → (t ≡ true) × (m ≡ some b)
guard-eq-some true m h = (refl, h)
guard-eq-some false m h = absurd (ground arith)

-- What a decoded buffer has passed.
pub record Passed (stray : ℕ) (buf : List ℕ) (r : ModbusResponse) : Type 0 where
  pub fc : FunctionCode
  pub header : expected_frame_length stray buf ≡ some (length buf)
  pub function_byte : function_of (get_or buf 7 stray % 128) ≡ some fc
  pub pdu : decode_pdu stray buf (length buf) fc ≡ some r

pub passed :
    (stray : ℕ) (buf : List ℕ) {r : ModbusResponse}
    → decode_response stray buf ≡ some r
    → Passed stray buf r
unfolding decode_response
passed stray buf {r} h =
    let (total, header, h₁) = >>=-eq-some (expected_frame_length stray buf) _ h in
    let (fits, h₂) = guard-eq-some (length buf == total) _ h₁ in
    let (fc, function_byte, pdu) = >>=-eq-some (function_of (get_or buf 7 stray % 128)) _ h₂ in
    let same : total ≡ length buf = sym ((==_iff (length buf) total).0 fits) in
    record {
      fc = fc;
      header = header ∙ ap some same;
      function_byte = function_byte;
      pdu = subst (λ n. decode_pdu stray buf n fc ≡ some r) same pdu;
    }

pub decoded_length :
    (stray : ℕ) (buf : List ℕ) (r : ModbusResponse)
    → decode_response stray buf ≡ some r
    → expected_frame_length stray buf ≡ some (length buf)
decoded_length stray buf r h = (passed stray buf h).header

-- The header of an accepted frame, and the byte of its function.
pub header_facts :
    (stray b0 b1 b2 b3 b4 b5 b6 b7 : ℕ) (rest : List ℕ) (n : ℕ)
    → expected_frame_length stray (b0 ∷ b1 ∷ b2 ∷ b3 ∷ b4 ∷ b5 ∷ b6 ∷ b7 ∷ rest) ≡ some n
    → (b2 ≡ 0) × (b3 ≡ 0) × (n ≡ 6 + (b4 * 256 + b5)) × (8 ≤ n) × (n ≤ 260)
unfolding expected_frame_length
header_facts stray b0 b1 b2 b3 b4 b5 b6 b7 rest n h = ground arith

pub function_facts : (b : ℕ) (fc : FunctionCode) → function_of b ≡ some fc → b ≡ code fc
unfolding function_of
function_facts b read_holding_registers h = ground arith
function_facts b read_input_registers h = ground arith
function_facts b write_single_register h = ground arith

pub accepted_length :
    (stray : ℕ) (buf : List ℕ) {r : ModbusResponse}
    → decode_response stray buf ≡ some r
    → 9 ≤ length buf
unfolding decode_pdu expected_frame_length
accepted_length stray buf {r} h = let p = passed stray buf h in by_code p.fc p.header p.pdu
  where
    by_code :
        (fc : FunctionCode)
        → expected_frame_length stray buf ≡ some (length buf)
        → decode_pdu stray buf (length buf) fc ≡ some r
        → 9 ≤ length buf
    by_code read_holding_registers e d = ground arith
    by_code read_input_registers e d = ground arith
    by_code write_single_register e d = ground arith

-- `address` and the layout that give back the accepted bytes.
