-- ===== src/Protocol/Frame/Examples.antt =====
-- Tests of the codec, and its theorems at concrete frames.
use ironpulse.Prelude.{ℕ, ◌≡◌, refl, List, [], ◌∷◌, some, none, arith, false}
use ironpulse.Protocol.Frame.{
  read_holding_registers, write_single_register, ModbusRequest, ModbusResponse, encode_request,
  expected_frame_length, decode_response, decode_pdu, function_of,
}
use ironpulse.Protocol.Frame.Layout.{response_bytes}
use ironpulse.Protocol.Frame.RoundTrip.{
  IsAnswer, decode_response-response_bytes, decode_response-encode_request,
}
use ironpulse.Protocol.Frame.Soundness.{decode_response_in_bounds}
use ironpulse.Protocol.Frame.Accepted.{IsLaidOut, decode_response-IsLaidOut}

abbrev two_registers : ModbusResponse
two_registers = record {
  transaction_id = 258;
  unit_id = 17;
  function = read_holding_registers;
  is_exception = false;
  exception_code = 0;
  registers = 1000 ∷ 65535 ∷ [];
}

abbrev two_registers_bytes : List ℕ
two_registers_bytes = 1 ∷ 2 ∷ 0 ∷ 0 ∷ 0 ∷ 7 ∷ 17 ∷ 3 ∷ 4 ∷ 3 ∷ 232 ∷ 255 ∷ 255 ∷ []

abbrev write_request : ModbusRequest
write_request = record {
  transaction_id = 7;
  unit_id = 1;
  function = write_single_register;
  start_address = 300;
  quantity_or_value = 513;
}

encode_write : encode_request write_request ≡ 0 ∷ 7 ∷ 0 ∷ 0 ∷ 0 ∷ 6 ∷ 1 ∷ 6 ∷ 1 ∷ 44 ∷ 2 ∷ 1 ∷ []
unfolding encode_request
encode_write = refl

decode_two : decode_response 0 two_registers_bytes ≡ some two_registers
unfolding decode_response expected_frame_length function_of decode_pdu
decode_two = refl

decode_other_protocol : expected_frame_length 0 (0 ∷ 1 ∷ 0 ∷ 1 ∷ 0 ∷ 6 ∷ 1 ∷ []) ≡ none
unfolding expected_frame_length
decode_other_protocol = refl

two_registers-IsAnswer : IsAnswer two_registers
two_registers-IsAnswer = omega arith

decode_response-response_bytes_example :
    decode_response 9 (response_bytes 0 two_registers) ≡ some two_registers
decode_response-response_bytes_example =
    decode_response-response_bytes 9 0 two_registers two_registers-IsAnswer

decode_response-encode_request_example :
    decode_response 0 (encode_request write_request)
    ≡ some (record {
      transaction_id = 7;
      unit_id = 1;
      function = write_single_register;
      is_exception = false;
      exception_code = 0;
      registers = 513 ∷ [];
    })
decode_response-encode_request_example =
    decode_response-encode_request 0 write_request (omega arith) (omega arith) refl

decode_response-IsLaidOut_example : IsLaidOut two_registers_bytes two_registers
decode_response-IsLaidOut_example =
    decode_response-IsLaidOut 0 two_registers_bytes (omega arith) decode_two

-- A frame that says one register and ends before it.
decode_response_in_bounds_example :
    decode_response 0 (0 ∷ 1 ∷ 0 ∷ 0 ∷ 0 ∷ 4 ∷ 1 ∷ 3 ∷ 2 ∷ [])
    ≡ decode_response 7 (0 ∷ 1 ∷ 0 ∷ 0 ∷ 0 ∷ 4 ∷ 1 ∷ 3 ∷ 2 ∷ [])
decode_response_in_bounds_example =
    decode_response_in_bounds 0 7 (0 ∷ 1 ∷ 0 ∷ 0 ∷ 0 ∷ 4 ∷ 1 ∷ 3 ∷ 2 ∷ [])
