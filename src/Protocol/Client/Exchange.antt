-- ===== src/Protocol/Client/Exchange.antt =====
-- src/protocol/modbus_client.cpp: a read from the call to its callback.
use native.Mathlib.Omega.{arith}
use ironpulse.Prelude.{
  ℕ, ◌+◌, ◌-◌, ◌%◌, ◌^◌, ◌≤◌, ◌≡◌, refl, ap, ◌∙◌, Bool, true, false, ==_iff, List, [], ◌∷◌, ◌++◌,
  some, length, take, drop, take-append-drop, length-take, le→not_ltb,
}
use ironpulse.Protocol.Frame.{
  FunctionCode, ModbusResponse, encode_request, expected_frame_length, decode_response,
}
use ironpulse.Protocol.Frame.Soundness.{frame_length_bounds}
use ironpulse.Protocol.Frame.Guards.{decoded_length}
use ironpulse.Protocol.Client.{
  values, read_done, Request, for_read, idle, reading_header, reading_body, ModbusClient, send,
  call, arm_deadline, disarm_deadline, finish, answer, send_request, take_id, read_registers,
  on_written, check_length, on_header, on_response, on_body, call_read, succeeded, completion,
  begin, step, run,
}

-- A connected client with no pending operation.
abbrev pub ready : Bool → ℕ → ℕ → List ℕ → ModbusClient
ready timed_out generation next_id buffer = record {
  connected = true;
  timed_out = timed_out;
  deadline_generation = generation;
  next_transaction_id = next_id;
  read_buffer = buffer;
  pending = idle;
}

-- The length stands in the first seven bytes.
header_enough :
    (stray : ℕ) (buf : List ℕ)
    → 7 ≤ length buf
    → expected_frame_length stray (take 7 buf) ≡ expected_frame_length stray buf
unfolding expected_frame_length
header_enough stray [] h = absurd (omega arith)
header_enough stray (a ∷ []) h = absurd (omega arith)
header_enough stray (a ∷ b ∷ []) h = absurd (omega arith)
header_enough stray (a ∷ b ∷ c ∷ []) h = absurd (omega arith)
header_enough stray (a ∷ b ∷ c ∷ d ∷ []) h = absurd (omega arith)
header_enough stray (a ∷ b ∷ c ∷ d ∷ e ∷ []) h = absurd (omega arith)
header_enough stray (a ∷ b ∷ c ∷ d ∷ e ∷ f ∷ []) h = absurd (omega arith)
header_enough stray (a ∷ b ∷ c ∷ d ∷ e ∷ f ∷ g ∷ rest) h = ground arith

delivered :
    (stray : ℕ) (answered : ModbusResponse) (quantity t : ℕ) (c : ModbusClient)
    → answered.transaction_id ≡ t
    → answered.is_exception ≡ false
    → quantity ≤ length answered.registers
    → on_response stray (for_read quantity) t (some answered) c
      ≡ (record c { pending = idle }, call (read_done (values answered.registers)) ∷ [])
unfolding on_response answer finish
delivered stray answered quantity t c same_id no_exception enough = ground (
  arith,
  ==_iff answered.transaction_id t,
  le→not_ltb (length answered.registers) quantity enough,
)

-- The header of an accepted frame leads to a read of the other bytes.
header_read :
    (stray : ℕ) (buf : List ℕ) (answered : ModbusResponse) (r : Request) (t : ℕ) (c : ModbusClient)
    → decode_response stray buf ≡ some answered
    → on_header stray r t (some (take 7 buf)) c
      ≡ (record c { read_buffer = take 7 buf; pending = reading_body r t (length buf - 7) }, [])
unfolding on_header check_length
header_read stray buf answered r t c accepted = rw (header_enough stray buf bounds.2 ∙ total) (
    rw (seven) (
      rw (le→not_ltb (length buf) (7 + 1) bounds.0)
        (rw (le→not_ltb (7 + 253) (length buf) bounds.1) refl)))
  where
    total : expected_frame_length stray buf ≡ some (length buf)
    total = decoded_length stray buf answered accepted

    bounds : (8 ≤ length buf) × (length buf ≤ 260) × (7 ≤ length buf)
    bounds = frame_length_bounds stray buf total

    seven : length (take 7 buf) ≡ 7
    seven = omega (arith, length-take 7 buf, bounds.2)

-- And its body to the callback, with the registers that were decoded.
body_read :
    (stray : ℕ) (buf : List ℕ) (answered : ModbusResponse) (quantity t : ℕ) (c : ModbusClient)
    → decode_response stray buf ≡ some answered
    → answered.transaction_id ≡ t
    → answered.is_exception ≡ false
    → quantity ≤ length answered.registers
    → c.read_buffer ≡ take 7 buf
    → on_body stray (for_read quantity) t (some (drop 7 buf)) c ≡ (
      record (disarm_deadline c) { read_buffer = buf; pending = idle },
      call (read_done (values answered.registers)) ∷ [],
    )
unfolding on_body
body_read stray buf answered quantity t c accepted same_id no_exception enough header =
    rw (whole, accepted)
      (delivered stray answered quantity t (record (disarm_deadline c) { read_buffer = buf })
        same_id no_exception enough)
  where
    whole : c.read_buffer ++ drop 7 buf ≡ buf
    whole = ap (λ (bytes : List ℕ). bytes ++ drop 7 buf) header ∙ take-append-drop 7 buf

module _ (stray : ℕ) where
  -- A client that is connected and waits for nothing sends a read with its next transaction id. When
  -- the answer is a frame that decode_response accepts, with this id, no exception and at least as
  -- many registers as asked for, the caller gets just the registers of that frame, and the client
  -- stays connected and waits for nothing.
  pub read_exchange :
      (timed_out : Bool) (generation next_id : ℕ) (buffer : List ℕ) (function : FunctionCode)
      (unit_id start_address quantity : ℕ) (buf : List ℕ) (answered : ModbusResponse)
      → decode_response stray buf ≡ some answered
      → answered.transaction_id ≡ next_id
      → answered.is_exception ≡ false
      → quantity ≤ length answered.registers
      → run stray
          (call_read function unit_id start_address quantity
            ∷ succeeded []
            ∷ succeeded (take 7 buf)
            ∷ succeeded (drop 7 buf)
            ∷ [])
          (ready timed_out generation next_id buffer)
        ≡ (
          ready false (((generation + 1) % 2 ^ 64 + 1) % 2 ^ 64) ((next_id + 1) % 2 ^ 16) buf,
          send (
                encode_request record {
                  transaction_id = next_id;
                  unit_id = unit_id;
                  function = function;
                  start_address = start_address;
                  quantity_or_value = quantity;
                })
              ∷ call (read_done (values answered.registers))
              ∷ [],
        )
  unfolding run step completion begin read_registers send_request take_id arm_deadline on_written
      disarm_deadline
  read_exchange timed_out generation next_id buffer function unit_id start_address quantity buf
        answered accepted same_id no_exception enough =
      rw
        (header_read stray buf answered (for_read quantity) next_id
          (record (ready false ((generation + 1) % 2 ^ 64) ((next_id + 1) % 2 ^ 16) []) {
            pending = reading_header (for_read quantity) next_id;
          })
          accepted)
        (rw
          (body_read stray buf answered quantity next_id
            (record (ready false ((generation + 1) % 2 ^ 64) ((next_id + 1) % 2 ^ 16)
              (take 7 buf)) { pending = reading_body (for_read quantity) next_id (length buf - 7) })
            accepted same_id no_exception enough refl)
          refl)
