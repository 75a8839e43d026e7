-- ===== src/Protocol/Frame.antt =====
-- src/protocol/frame_codec.cpp: the Modbus TCP frames. A byte is a number below 256.
pub mod Layout
pub mod Soundness
pub mod Accepted
pub mod Guards
pub mod RoundTrip
mod Examples
use ironpulse.Prelude.{
  ℕ, zero, suc, ◌+◌, ◌*◌, ◌/◌, ◌%◌, ltb, leb, ◌==◌, if◌then◌else◌, not, ◌||◌, Bool, true, false,
  List, [], ◌∷◌, ◌++◌, Option, none, some, length, get_or, ◌>>=◌, ◌>>◌, guard,
}

pub data FunctionCode : Type 0 where
  read_holding_registers read_input_registers write_single_register : FunctionCode

-- `static_cast<std::uint8_t>(function)`
abbrev pub code : FunctionCode → ℕ
code read_holding_registers = 3
code read_input_registers = 4
code write_single_register = 6

-- `static_cast<FunctionCode>(byte)`, none for a value that is none of the three.
unfoldable pub function_of : ℕ → Option FunctionCode
function_of b =
    if b == 3
    then some read_holding_registers
    else if b == 4
    then some read_input_registers
    else if b == 6
    then some write_single_register
    else none

pub record ModbusRequest : Type 0 where
  pub transaction_id : ℕ
  pub unit_id : ℕ
  pub function : FunctionCode
  pub start_address : ℕ
  pub quantity_or_value : ℕ

pub record ModbusResponse : Type 0 where
  pub transaction_id : ℕ
  pub unit_id : ℕ
  pub function : FunctionCode
  pub is_exception : Bool
  pub exception_code : ℕ
  pub registers : List ℕ

-- The two bytes appended for a `std::uint16_t`.
abbrev pub push_u16 : ℕ → List ℕ
push_u16 value = (value / 256 % 256) ∷ (value % 256) ∷ []

-- `stray` is the value of a read past the end of the buffer. The two bytes of a word do not
-- overlap, so `|` is a sum.
abbrev pub read_u16 : ℕ → List ℕ → ℕ → ℕ
read_u16 stray buf offset = get_or buf offset stray * 256 + get_or buf (offset + 1) stray

unfoldable pub encode_request : ModbusRequest → List ℕ
encode_request r =
    push_u16 r.transaction_id
    ++ (push_u16 0
        ++ (push_u16 6
            ++ (r.unit_id
                ∷ code r.function
                ∷ (push_u16 r.start_address ++ push_u16 r.quantity_or_value))))

unfoldable pub expected_frame_length : ℕ → List ℕ → Option ℕ
expected_frame_length stray header = do
  guard (not (ltb (length header) 7))
  guard (read_u16 stray header 2 == 0)
  let length_field = read_u16 stray header 4
  guard (not (ltb length_field 2 || ltb 254 length_field))
  some (6 + length_field)

-- The loop over the registers, with the rounds that are left.
unfoldable pub read_registers : ℕ → List ℕ → ℕ → ℕ → List ℕ
read_registers stray buf zero i = []
read_registers stray buf (suc left) i =
    read_u16 stray buf (9 + i * 2) ∷ read_registers stray buf left (i + 1)

-- The `switch`: what stands behind the function byte of an answer that is no exception.
unfoldable pub decode_registers : ℕ → List ℕ → ℕ → FunctionCode → Option (List ℕ)
unfolding read_registers
decode_registers stray buf total write_single_register = do
  guard (total == 12)
  some (read_u16 stray buf 10 ∷ [])
decode_registers stray buf total _ = do
  guard (not (ltb total 9))
  let byte_count = get_or buf 8 stray
  guard (
      not (
        byte_count == 0
        || ltb 250 byte_count
        || not (byte_count % 2 == 0)
        || not (total == 9 + byte_count)))
  some (read_registers stray buf (byte_count / 2) 0)

-- The fields that every answer carries.
unfoldable pub response : ℕ → List ℕ → FunctionCode → Bool → ℕ → List ℕ → ModbusResponse
response stray buf function is_exception exception_code registers = record {
  transaction_id = read_u16 stray buf 0;
  unit_id = get_or buf 6 stray;
  function = function;
  is_exception = is_exception;
  exception_code = exception_code;
  registers = registers;
}

unfoldable pub decode_pdu : ℕ → List ℕ → ℕ → FunctionCode → Option ModbusResponse
unfolding response decode_registers
decode_pdu stray buf total function =
    if leb 128 (get_or buf 7 stray)
    then guard (total == 9) >> some (response stray buf function true (get_or buf 8 stray) [])
    else decode_registers stray buf total function >>= λ registers.
        some (response stray buf function false 0 registers)

unfoldable pub decode_response : ℕ → List ℕ → Option ModbusResponse
decode_response stray buf = do
  total ← expected_frame_length stray buf
  guard (length buf == total)
  function ← function_of (get_or buf 7 stray % 128)
  decode_pdu stray buf total function
