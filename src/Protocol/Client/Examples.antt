-- ===== src/Protocol/Client/Examples.antt =====
-- Runs of the client, and instances of its theorems.
use ironpulse.Prelude.{
  ℕ, ◌+◌, ◌≡◌, ◌≢◌, refl, ap, true, false, List, [], ◌∷◌, some, take, drop, arith,
}
use ironpulse.Protocol.Frame.{read_holding_registers, ModbusResponse, encode_request}
use ironpulse.Protocol.Frame.Layout.{response_bytes}
use ironpulse.Protocol.Frame.RoundTrip.{decode_response-response_bytes}
use ironpulse.Protocol.Client.{
  values, read_done, for_read, Pending, idle, connecting, writing, ModbusClient, send, call,
  connect_done, new_client, Event, call_connect, call_read, call_close, failed, succeeded, expired,
  connect, close, on_resolved, on_connected, close_socket, arm_deadline, deadline_expired,
  disarm_deadline, completion, begin, step, run,
}
use ironpulse.Protocol.Client.Once.{answers, busy, begun, answers-run}
use ironpulse.Protocol.Client.Deadline.{timeout_result, timeout_answers, late_timer}
use ironpulse.Protocol.Client.Exchange.{ready, read_exchange}

abbrev two_registers : ModbusResponse
two_registers = record {
  transaction_id = 258;
  unit_id = 17;
  function = read_holding_registers;
  is_exception = false;
  exception_code = 0;
  registers = 1000 ∷ 65535 ∷ [];
}

abbrev answer_bytes : List ℕ
answer_bytes = response_bytes 0 two_registers

read_exchange_example :
    run 0
      (call_read read_holding_registers 17 40 2
        ∷ succeeded []
        ∷ succeeded (take 7 answer_bytes)
        ∷ succeeded (drop 7 answer_bytes)
        ∷ [])
      (ready true 5 258 [])
    ≡ (
      ready false 7 259 answer_bytes,
      send (
            encode_request record {
              transaction_id = 258;
              unit_id = 17;
              function = read_holding_registers;
              start_address = 40;
              quantity_or_value = 2;
            })
          ∷ call (read_done (values (1000 ∷ 65535 ∷ [])))
          ∷ [],
    )
read_exchange_example =
    read_exchange 0 true 5 258 [] read_holding_registers 17 40 2 answer_bytes two_registers
      (decode_response-response_bytes 0 0 two_registers (omega arith)) refl refl (omega arith)

abbrev refused_run : List Event
refused_run =
    call_connect ∷ succeeded [] ∷ expired 1 ∷ failed ∷ call_read read_holding_registers 1 0 1 ∷ []

answers-run_example :
    answers (run 0 refused_run new_client).1 + busy (run 0 refused_run new_client).0.pending
    ≡ begun 0 refused_run new_client + 0
answers-run_example = answers-run 0 refused_run new_client

abbrev in_write : ModbusClient
in_write = record (ready false 3 8 []) { pending = writing (for_read 2) 7 }

tag : Pending → ℕ
tag idle = 0
tag p = 1

writing_busy : writing (for_read 2) 7 ≢ idle
unfolding tag
writing_busy e = absurd (omega (arith, ap tag e))

timeout_answers_example :
    ((run 0 (expired 3 ∷ failed ∷ []) in_write).1 ≡ call (timeout_result in_write.pending) ∷ [])
    × ((run 0 (expired 3 ∷ failed ∷ []) in_write).0.connected ≡ false)
    × ((run 0 (expired 3 ∷ failed ∷ []) in_write).0.pending ≡ idle)
timeout_answers_example = timeout_answers 0 in_write writing_busy

abbrev in_connect : ModbusClient
in_connect = record new_client { deadline_generation = 1; pending = connecting }

connecting_busy : connecting ≢ idle
unfolding tag
connecting_busy e = absurd (omega (arith, ap tag e))

connected_then : (completion 0 connecting (some []) in_connect).0.pending ≡ idle
unfolding completion on_connected disarm_deadline
connected_then = refl

late_timer_example :
    step 0 (expired 1) (completion 0 connecting (some []) in_connect).0
    ≡ ((completion 0 connecting (some []) in_connect).0, [])
late_timer_example = late_timer 0 (some []) in_connect (omega arith) connecting_busy connected_then

-- A deadline that expires after the resolver has succeeded, but before its handler has run, does not
-- stop the connection from being opened: no timer is left for it.
expired_too_early :
    (run 0 (call_connect ∷ expired 1 ∷ succeeded [] ∷ succeeded [] ∷ []) new_client).1
    ≡ call (connect_done true) ∷ []
unfolding run step begin connect completion on_resolved on_connected close_socket arm_deadline
    deadline_expired disarm_deadline
expired_too_early = refl

-- Nor does a close before the resolver has answered: the client is connected afterwards.
closed_too_early :
    (run 0 (call_connect ∷ call_close ∷ succeeded [] ∷ succeeded [] ∷ []) new_client).0.connected
    ≡ true
unfolding run step begin connect completion on_resolved on_connected close_socket arm_deadline
    deadline_expired disarm_deadline close
closed_too_early = refl
