-- ===== src/Protocol/Client/Once.antt =====
-- src/protocol/modbus_client.cpp: every operation has one answer.
use ironpulse.Prelude.{
  ℕ, suc, ◌+◌, ◌≡◌, refl, ap, Bool, true, false, not, ltb, ◌==◌, ◌||◌, if_cases, List, [], ◌∷◌,
  ◌++◌, Option, none, some, length, arith,
}
use ironpulse.Protocol.Frame.{ModbusRequest, ModbusResponse, expected_frame_length, decode_response}
use ironpulse.Protocol.Client.{
  RegistersResult, failure, not_connected, Request, for_read, for_write, Pending, idle, resolving,
  connecting, writing, reading_header, reading_body, ModbusClient, Output, send, call, close_socket,
  deadline_expired, disarm_deadline, answer, connect, on_resolved, on_connected, send_request,
  take_id, read_registers, write_register, on_written, check_length, on_header, on_response,
  on_body, close, Event, call_connect, call_close, call_read, call_write, failed, succeeded,
  expired, completion, begin, step, run,
}

-- How many callbacks are called.
abbrev pub answers : List Output → ℕ
answers [] = 0
answers (send bytes ∷ outputs) = answers outputs
answers (call result ∷ outputs) = suc (answers outputs)

abbrev pub busy : Pending → ℕ
busy idle = 0
busy p = 1

abbrev is_call : Event → Bool
is_call call_connect = true
is_call (call_read function unit_id start_address quantity) = true
is_call (call_write unit_id address value) = true
is_call e = false

-- Whether an event is a call that starts an operation.
abbrev pub begins : Pending → Event → ℕ
begins idle call_connect = 1
begins idle (call_read function unit_id start_address quantity) = 1
begins idle (call_write unit_id address value) = 1
begins p e = 0

answers-append : (xs ys : List Output) → answers (xs ++ ys) ≡ answers xs + answers ys
answers-append [] ys = omega arith
answers-append (send bytes ∷ xs) ys = answers-append xs ys
answers-append (call result ∷ xs) ys = omega (arith, answers-append xs ys)

-- One operation is pending, or has just been answered.
abbrev Single : ModbusClient × List Output → Type 0
Single r = answers r.1 + busy r.0.pending ≡ 1

answer-Single :
    (r : Request) (result : RegistersResult) (c : ModbusClient) → Single (answer r result c)
unfolding answer
answer-Single r result c = refl

on_resolved-Single : (ok : Bool) (c : ModbusClient) → Single (on_resolved ok c)
unfolding on_resolved
on_resolved-Single ok c = if_cases Single (not ok) (λ e. refl) (λ e. refl)

on_connected-Single : (ok : Bool) (c : ModbusClient) → Single (on_connected ok c)
unfolding on_connected
on_connected-Single ok c = if_cases Single (not ok) (λ e. refl) (λ e. refl)

send_request-Single :
    (request : ModbusRequest) (r : Request) (c : ModbusClient) → Single (send_request request r c)
unfolding send_request
send_request-Single request r c =
    if_cases Single (not c.connected) (λ e. answer-Single r (failure not_connected) c) (λ e. refl)

on_written-Single :
    (r : Request) (t : ℕ) (ok : Bool) (c : ModbusClient) → Single (on_written r t ok c)
unfolding on_written
on_written-Single r t ok c = if_cases Single (not ok) (λ e. answer-Single r _ _) (λ e. refl)

module _ (stray : ℕ) where
  check_length-Single :
      (r : Request) (t : ℕ) (o : Option ℕ) (c : ModbusClient) → Single (check_length stray r t o c)
  unfolding check_length
  check_length-Single r t none c = answer-Single r _ _
  check_length-Single r t (some total) c =
      if_cases Single (ltb total (length c.read_buffer + 1) || ltb (7 + 253) total)
        (λ e. answer-Single r _ _) (λ e. refl)

  on_header-Single :
      (r : Request) (t : ℕ) (got : Option (List ℕ)) (c : ModbusClient)
      → Single (on_header stray r t got c)
  unfolding on_header
  on_header-Single r t none c = answer-Single r _ _
  on_header-Single r t (some bytes) c =
      check_length-Single r t (expected_frame_length stray bytes) _

  on_response-Single :
      (r : Request) (t : ℕ) (o : Option ModbusResponse) (c : ModbusClient)
      → Single (on_response stray r t o c)
  unfolding on_response
  on_response-Single r t none c = answer-Single r _ _
  on_response-Single r t (some a) c =
      if_cases Single (not (a.transaction_id == t)) (λ e. answer-Single r _ _)
        (λ e. if_cases Single a.is_exception (λ f. answer-Single r _ _) (λ f. answer-Single r _ _))

  on_body-Single :
      (r : Request) (t : ℕ) (got : Option (List ℕ)) (c : ModbusClient)
      → Single (on_body stray r t got c)
  unfolding on_body
  on_body-Single r t none c = answer-Single r _ _
  on_body-Single r t (some bytes) c =
      on_response-Single r t (decode_response stray (c.read_buffer ++ bytes)) _

  completion-count :
      (p : Pending) (got : Option (List ℕ)) (c : ModbusClient)
      → c.pending ≡ p
      → answers (completion stray p got c).1 + busy (completion stray p got c).0.pending ≡ busy p
  unfolding completion
  completion-count idle got c e = omega (arith, ap busy e)
  completion-count resolving none c e = on_resolved-Single false c
  completion-count resolving (some bytes) c e = on_resolved-Single true c
  completion-count connecting none c e = on_connected-Single false c
  completion-count connecting (some bytes) c e = on_connected-Single true c
  completion-count (writing r t) none c e = on_written-Single r t false c
  completion-count (writing r t) (some bytes) c e = on_written-Single r t true c
  completion-count (reading_header r t) got c e = on_header-Single r t got c
  completion-count (reading_body r t n) got c e = on_body-Single r t got c

  begin-count :
      (p : Pending) (e : Event) (c : ModbusClient)
      → c.pending ≡ p
      → answers (begin stray p e c).1 + busy (begin stray p e c).0.pending ≡ begins p e + busy p
  unfolding begin connect read_registers write_register
  begin-count idle call_connect c h = refl
  begin-count idle call_close c h = omega (arith, ap busy h)
  begin-count idle (call_read function unit_id start_address quantity) c h =
      send_request-Single _ (for_read quantity) (take_id c)
  begin-count idle (call_write unit_id address value) c h =
      send_request-Single _ for_write (take_id c)
  begin-count idle failed c h = omega (arith, ap busy h)
  begin-count idle (succeeded bytes) c h = omega (arith, ap busy h)
  begin-count idle (expired generation) c h = omega (arith, ap busy h)
  begin-count resolving e c h = omega (arith, ap busy h)
  begin-count connecting e c h = omega (arith, ap busy h)
  begin-count (writing r t) e c h = omega (arith, ap busy h)
  begin-count (reading_header r t) e c h = omega (arith, ap busy h)
  begin-count (reading_body r t n) e c h = omega (arith, ap busy h)

  expired-pending :
      (generation : ℕ) (c : ModbusClient) → (deadline_expired generation c).pending ≡ c.pending
  unfolding deadline_expired close_socket
  expired-pending generation c =
      if_cases (λ (d : ModbusClient). d.pending ≡ c.pending)
        (not (generation == c.deadline_generation)) (λ e. refl) (λ e. refl)

  close-pending : (c : ModbusClient) → (close c).0.pending ≡ c.pending
  unfolding close close_socket disarm_deadline
  close-pending c = refl

  close_silent : (c : ModbusClient) → answers (close c).1 ≡ 0
  unfolding close
  close_silent c = refl

  -- Neither a handler nor a close starts one.
  no_begin : (p : Pending) (e : Event) → is_call e ≡ false → begins p e ≡ 0
  no_begin p call_connect h = cc
  no_begin p (call_read f u s q) h = cc
  no_begin p (call_write u s v) h = cc
  no_begin idle call_close h = refl
  no_begin resolving call_close h = refl
  no_begin connecting call_close h = refl
  no_begin (writing r t) call_close h = refl
  no_begin (reading_header r t) call_close h = refl
  no_begin (reading_body r t n) call_close h = refl
  no_begin idle failed h = refl
  no_begin resolving failed h = refl
  no_begin connecting failed h = refl
  no_begin (writing r t) failed h = refl
  no_begin (reading_header r t) failed h = refl
  no_begin (reading_body r t n) failed h = refl
  no_begin idle (succeeded bytes) h = refl
  no_begin resolving (succeeded bytes) h = refl
  no_begin connecting (succeeded bytes) h = refl
  no_begin (writing r t) (succeeded bytes) h = refl
  no_begin (reading_header r t) (succeeded bytes) h = refl
  no_begin (reading_body r t n) (succeeded bytes) h = refl
  no_begin idle (expired generation) h = refl
  no_begin resolving (expired generation) h = refl
  no_begin connecting (expired generation) h = refl
  no_begin (writing r t) (expired generation) h = refl
  no_begin (reading_header r t) (expired generation) h = refl
  no_begin (reading_body r t n) (expired generation) h = refl

  step-count :
      (e : Event) (c : ModbusClient)
      → answers (step stray e c).1 + busy (step stray e c).0.pending
        ≡ begins c.pending e + busy c.pending
  unfolding step
  step-count call_connect c = begin-count c.pending call_connect c refl
  step-count call_close c =
      omega (arith, close_silent c, ap busy (close-pending c), no_begin c.pending call_close refl)
  step-count (call_read function unit_id start_address quantity) c =
      begin-count c.pending (call_read function unit_id start_address quantity) c refl
  step-count (call_write unit_id address value) c =
      begin-count c.pending (call_write unit_id address value) c refl
  step-count failed c =
      omega (arith, completion-count c.pending none c refl, no_begin c.pending failed refl)
  step-count (succeeded bytes) c = omega (
    arith,
    completion-count c.pending (some bytes) c refl,
    no_begin c.pending (succeeded bytes) refl,
  )
  step-count (expired generation) c =
      omega (
        arith,
        ap busy (expired-pending generation c),
        no_begin c.pending (expired generation) refl,
      )

  -- The calls of a run that started an operation.
  abbrev pub begun : List Event → ModbusClient → ℕ
  begun [] c = 0
  begun (e ∷ events) c = begins c.pending e + begun events (step stray e c).0

  -- In every run each call of connect, read or write that finds no other pending is answered by one
  -- callback, at the latest when the operation ends: the callbacks and the operation that is still
  -- pending, if there is one, are as many as these calls and the operation pending before.
  pub answers-run :
      (events : List Event) (c : ModbusClient)
      → answers (run stray events c).1 + busy (run stray events c).0.pending
        ≡ begun events c + busy c.pending
  unfolding run
  answers-run [] c = refl
  answers-run (e ∷ events) c = omega (
    arith,
    answers-append (step stray e c).1 (run stray events (step stray e c).0).1,
    step-count e c,
    answers-run events (step stray e c).0,
  )
