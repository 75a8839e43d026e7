-- ===== src/Protocol/Client.antt =====
-- src/protocol/modbus_client.cpp: one connection, as a state machine over the completions of the
-- socket, the resolver and the timer. All of them run on one strand, one after the other. Callers
-- issue one request at a time, as the class asks: a call during another one changes nothing here.
pub mod Once
pub mod Deadline
pub mod Exchange
mod Examples
use ironpulse.Prelude.{
  ℕ, zero, suc, ◌+◌, ◌-◌, ◌%◌, ◌^◌, Bool, true, false, not, ltb, ◌==◌, ◌||◌, if◌then◌else◌, List,
  [], ◌∷◌, ◌++◌, Option, none, some, length,
}
use ironpulse.Protocol.Frame.{
  FunctionCode, read_holding_registers, read_input_registers, write_single_register, ModbusRequest,
  ModbusResponse, encode_request, expected_frame_length, decode_response,
}

-- The messages, with `timed_out_` where a message tells it.
pub data ModbusError : Type 0 where
  not_connected malformed_header undecodable transaction_mismatch : ModbusError
  write_failed header_failed body_failed : Bool → ModbusError
  device_exception : ℕ → ModbusError
  short_response : ℕ → ℕ → ModbusError

pub data RegistersResult : Type 0 where
  values : List ℕ → RegistersResult
  failure : ModbusError → RegistersResult

-- What a callback is called with: of connect, of a read, of a write.
pub data Callback : Type 0 where
  connect_done : Bool → Callback
  read_done : RegistersResult → Callback
  write_done : Bool → Callback

-- Whose answer is awaited: a read of that many registers, or a write.
pub data Request : Type 0 where
  for_read : ℕ → Request
  for_write : Request

-- The operation whose completion handler is next to run, with what the handler holds.
pub data Pending : Type 0 where
  idle resolving connecting : Pending
  writing : Request → ℕ → Pending
  reading_header : Request → ℕ → Pending
  reading_body : Request → ℕ → ℕ → Pending

pub record ModbusClient : Type 0 where
  pub connected : Bool
  pub timed_out : Bool
  pub deadline_generation : ℕ
  pub next_transaction_id : ℕ
  pub read_buffer : List ℕ
  pub pending : Pending

-- What a handler hands on: bytes to the socket, or the result to the caller.
pub data Output : Type 0 where
  send : List ℕ → Output
  call : Callback → Output

abbrev pub new_client : ModbusClient
new_client = record {
  connected = false;
  timed_out = false;
  deadline_generation = 0;
  next_transaction_id = 1;
  read_buffer = [];
  pending = idle;
}

unfoldable pub close_socket : ModbusClient → ModbusClient
close_socket c = record c { connected = false }

unfoldable pub arm_deadline : ModbusClient → ModbusClient
arm_deadline c = record c {
  timed_out = false;
  deadline_generation = (c.deadline_generation + 1) % 2 ^ 64;
}

-- The handler of a wait that was not cancelled, armed in that generation.
unfoldable pub deadline_expired : ℕ → ModbusClient → ModbusClient
deadline_expired generation c =
    if not (generation == c.deadline_generation)
    then c
    else close_socket (record c { timed_out = true })

unfoldable pub disarm_deadline : ModbusClient → ModbusClient
disarm_deadline c = record c { deadline_generation = (c.deadline_generation + 1) % 2 ^ 64 }

-- The wrappers round the callbacks of `read_registers` and `write_single_register`.
unfoldable pub finish : Request → RegistersResult → Callback
finish (for_read quantity) (values registers) =
    if ltb (length registers) quantity
    then read_done (failure (short_response quantity (length registers)))
    else read_done (values registers)
finish (for_read quantity) (failure e) = read_done (failure e)
finish for_write (values registers) = write_done true
finish for_write (failure e) = write_done false

-- The call of the callback ends the operation.
unfoldable pub answer : Request → RegistersResult → ModbusClient → ModbusClient × List Output
answer r result c = (record c { pending = idle }, call (finish r result) ∷ [])

unfoldable pub connect : ModbusClient → ModbusClient × List Output
connect c = (record (arm_deadline (close_socket c)) { pending = resolving }, [])

unfoldable pub on_resolved : Bool → ModbusClient → ModbusClient × List Output
on_resolved ok c =
    if not ok
    then (record (disarm_deadline c) { pending = idle }, call (connect_done false) ∷ [])
    else (record c { pending = connecting }, [])

unfoldable pub on_connected : Bool → ModbusClient → ModbusClient × List Output
on_connected ok c =
    if not ok
    then (
      record (close_socket (disarm_deadline c)) { pending = idle },
      call (connect_done false) ∷ [],
    )
    else (
      record (disarm_deadline c) { connected = true; pending = idle },
      call (connect_done true) ∷ [],
    )

unfoldable pub send_request : ModbusRequest → Request → ModbusClient → ModbusClient × List Output
send_request request r c = if not c.connected then answer r (failure not_connected) c else (
  record (arm_deadline c) { pending = writing r request.transaction_id },
  send (encode_request request) ∷ [],
)

-- `next_transaction_id_++`
unfoldable pub take_id : ModbusClient → ModbusClient
take_id c = record c { next_transaction_id = (c.next_transaction_id + 1) % 2 ^ 16 }

unfoldable pub read_registers : FunctionCode → ℕ → ℕ → ℕ → ModbusClient → ModbusClient × List Output
read_registers function unit_id start_address quantity c =
    send_request
      record {
        transaction_id = c.next_transaction_id;
        unit_id = unit_id;
        function = function;
        start_address = start_address;
        quantity_or_value = quantity;
      }
      (for_read quantity) (take_id c)

unfoldable pub write_register : ℕ → ℕ → ℕ → ModbusClient → ModbusClient × List Output
write_register unit_id address value c =
    send_request
      record {
        transaction_id = c.next_transaction_id;
        unit_id = unit_id;
        function = write_single_register;
        start_address = address;
        quantity_or_value = value;
      }
      for_write (take_id c)

-- The completion of the write, and `read_response` after it.
unfoldable pub on_written : Request → ℕ → Bool → ModbusClient → ModbusClient × List Output
on_written r transaction_id ok c =
    if not ok
    then answer r (failure (write_failed c.timed_out)) (close_socket (disarm_deadline c))
    else (record c { read_buffer = []; pending = reading_header r transaction_id }, [])

-- A read gives all its bytes, or none for an error.
module _ (stray : ℕ) where
  unfoldable pub check_length : Request → ℕ → Option ℕ → ModbusClient → ModbusClient × List Output
  check_length r transaction_id none c =
      answer r (failure malformed_header) (close_socket (disarm_deadline c))
  check_length r transaction_id (some total) c =
      if ltb total (length c.read_buffer + 1) || ltb (7 + 253) total
      then answer r (failure malformed_header) (close_socket (disarm_deadline c))
      else (record c { pending = reading_body r transaction_id (total - length c.read_buffer) }, [])

  unfoldable pub on_header :
      Request → ℕ → Option (List ℕ) → ModbusClient → ModbusClient × List Output
  on_header r transaction_id none c =
      answer r (failure (header_failed c.timed_out)) (close_socket (disarm_deadline c))
  on_header r transaction_id (some bytes) c =
      check_length r transaction_id (expected_frame_length stray bytes)
        record c { read_buffer = bytes }

  unfoldable pub on_response :
      Request → ℕ → Option ModbusResponse → ModbusClient → ModbusClient × List Output
  on_response r transaction_id none c = answer r (failure undecodable) (close_socket c)
  on_response r transaction_id (some response) c =
      if not (response.transaction_id == transaction_id)
      then answer r (failure transaction_mismatch) (close_socket c)
      else if response.is_exception
      then answer r (failure (device_exception response.exception_code)) c
      else answer r (values response.registers) c

  unfoldable pub on_body : Request → ℕ → Option (List ℕ) → ModbusClient → ModbusClient × List Output
  on_body r transaction_id none c =
      answer r (failure (body_failed c.timed_out)) (close_socket (disarm_deadline c))
  on_body r transaction_id (some bytes) c =
      let buffer = c.read_buffer ++ bytes in
      on_response r transaction_id (decode_response stray buffer)
        record (disarm_deadline c) { read_buffer = buffer }

unfoldable pub close : ModbusClient → ModbusClient × List Output
close c = (close_socket (disarm_deadline c), [])

-- Calls of the public methods, and handlers that run: the completion of the pending operation, with
-- what it gives, or the end of a wait.
pub data Event : Type 0 where
  call_connect call_close : Event
  call_read : FunctionCode → ℕ → ℕ → ℕ → Event
  call_write : ℕ → ℕ → ℕ → Event
  failed : Event
  succeeded : List ℕ → Event
  expired : ℕ → Event

module _ (stray : ℕ) where
  unfoldable pub completion : Pending → Option (List ℕ) → ModbusClient → ModbusClient × List Output
  completion idle got c = (c, [])
  completion resolving none c = on_resolved false c
  completion resolving (some bytes) c = on_resolved true c
  completion connecting none c = on_connected false c
  completion connecting (some bytes) c = on_connected true c
  completion (writing r transaction_id) none c = on_written r transaction_id false c
  completion (writing r transaction_id) (some bytes) c = on_written r transaction_id true c
  completion (reading_header r transaction_id) got c = on_header stray r transaction_id got c
  completion (reading_body r transaction_id remaining) got c = on_body stray r transaction_id got c

  -- A call starts an operation when none is pending.
  unfoldable pub begin : Pending → Event → ModbusClient → ModbusClient × List Output
  begin idle call_connect c = connect c
  begin idle (call_read function unit_id start_address quantity) c =
      read_registers function unit_id start_address quantity c
  begin idle (call_write unit_id address value) c = write_register unit_id address value c
  begin pending e c = (c, [])

  unfoldable pub step : Event → ModbusClient → ModbusClient × List Output
  step call_close c = close c
  step failed c = completion c.pending none c
  step (succeeded bytes) c = completion c.pending (some bytes) c
  step (expired generation) c = (deadline_expired generation c, [])
  step e c = begin c.pending e c

  unfoldable pub run : List Event → ModbusClient → ModbusClient × List Output
  run [] c = (c, [])
  run (e ∷ events) c =
      let next = step e c in let rest = run events next.0 in (rest.0, next.1 ++ rest.1)
