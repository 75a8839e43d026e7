-- ===== src/Protocol/Client/Deadline.antt =====
-- src/protocol/modbus_client.cpp: timeouts, and timers that come too late.
use ironpulse.Prelude.{
  ℕ, ◌+◌, ◌%◌, ◌^◌, ◌<◌, ◌≡◌, ◌≢◌, refl, subst, sym, ap, ◌∙◌, true, false, not, ltb, ◌==◌, ==_iff,
  ◌||◌, if_cases, List, [], ◌∷◌, ◌++◌, append-nil, Option, none, some, length, arith,
}
use ironpulse.Protocol.Frame.{ModbusResponse, expected_frame_length, decode_response}
use ironpulse.Protocol.Client.{
  RegistersResult, failure, write_failed, header_failed, body_failed, Callback, connect_done,
  Request, Pending, idle, resolving, connecting, writing, reading_header, reading_body,
  ModbusClient, Output, call, close_socket, deadline_expired, disarm_deadline, finish, answer,
  on_resolved, on_connected, on_written, check_length, on_header, on_response, on_body, failed,
  expired, completion, step, run,
}

-- What the caller of a pending operation is told after a timeout.
abbrev pub timeout_result : Pending → Callback
timeout_result (writing r t) = finish r (failure (write_failed true))
timeout_result (reading_header r t) = finish r (failure (header_failed true))
timeout_result (reading_body r t n) = finish r (failure (body_failed true))
timeout_result p = connect_done false

-- It ends the operation with that answer on a closed connection.
abbrev GivesUp : Pending → ModbusClient × List Output → Type 0
GivesUp p r = (r.1 ≡ call (timeout_result p) ∷ []) × (r.0.connected ≡ false) × (r.0.pending ≡ idle)

expired_now :
    (c : ModbusClient)
    → deadline_expired c.deadline_generation c ≡ close_socket (record c { timed_out = true })
unfolding deadline_expired
expired_now c = ground (arith, ==_iff c.deadline_generation c.deadline_generation)

-- An operation that ends moves the generation on.
abbrev Ends : ℕ → ModbusClient × List Output → Type 0
Ends generation r = r.0.pending ≡ idle → r.0.deadline_generation ≡ (generation + 1) % 2 ^ 64

tag : Pending → ℕ
tag idle = 0
tag p = 1

connecting_not_idle : connecting ≢ idle
unfolding tag
connecting_not_idle e = absurd (omega (arith, ap tag e))

header_not_idle : {r : Request} {t : ℕ} → reading_header r t ≢ idle
unfolding tag
header_not_idle e = absurd (omega (arith, ap tag e))

body_not_idle : {r : Request} {t n : ℕ} → reading_body r t n ≢ idle
unfolding tag
body_not_idle e = absurd (omega (arith, ap tag e))

stale : (g h : ℕ) → g < 2 ^ 64 → h ≡ (g + 1) % 2 ^ 64 → (g == h) ≡ false
stale g h small e = ground (arith, ==_iff g h)

module _ (stray : ℕ) where
  gives_up :
      (p : Pending) (c : ModbusClient)
      → p ≢ idle
      → GivesUp p (completion stray p none (close_socket (record c { timed_out = true })))
  unfolding completion on_resolved on_connected on_written on_header on_body answer close_socket
      disarm_deadline
  gives_up idle c busy = absurd (busy refl)
  gives_up resolving c busy = (refl, refl, refl)
  gives_up connecting c busy = (refl, refl, refl)
  gives_up (writing r t) c busy = (refl, refl, refl)
  gives_up (reading_header r t) c busy = (refl, refl, refl)
  gives_up (reading_body r t n) c busy = (refl, refl, refl)

  -- When the deadline of a pending operation expires, and the operation on the closed connection
  -- then fails, its caller is told once: that the connection failed, or that the request timed out
  -- in the write, the header or the body; the client is not connected and takes the next call.
  pub timeout_answers :
      (c : ModbusClient)
      → c.pending ≢ idle
      → ((run stray (expired c.deadline_generation ∷ failed ∷ []) c).1
          ≡ call (timeout_result c.pending) ∷ [])
        × ((run stray (expired c.deadline_generation ∷ failed ∷ []) c).0.connected ≡ false)
        × ((run stray (expired c.deadline_generation ∷ failed ∷ []) c).0.pending ≡ idle)
  unfolding run step close_socket
  timeout_answers c busy =
      let g = gives_up c.pending c busy in
      subst
        (λ (d : ModbusClient).
          ((completion stray d.pending none d).1 ++ [] ≡ call (timeout_result c.pending) ∷ [])
          × ((completion stray d.pending none d).0.connected ≡ false)
          × ((completion stray d.pending none d).0.pending ≡ idle))
        (sym (expired_now c))
        (
          append-nil
                (completion stray c.pending none (close_socket (record c { timed_out = true }))).1
              ∙ g.0,
          g.1,
          g.2,
        )

  answer-Ends :
      (r : Request) (result : RegistersResult) (c d : ModbusClient)
      → d.deadline_generation ≡ (c.deadline_generation + 1) % 2 ^ 64
      → Ends c.deadline_generation (answer r result d)
  unfolding answer
  answer-Ends r result c d e idle_now = e

  on_response-Ends :
      (r : Request) (t : ℕ) (o : Option ModbusResponse) (c d : ModbusClient)
      → d.deadline_generation ≡ (c.deadline_generation + 1) % 2 ^ 64
      → Ends c.deadline_generation (on_response stray r t o d)
  unfolding on_response close_socket
  on_response-Ends r t none c d e = answer-Ends r _ c _ e
  on_response-Ends r t (some a) c d e =
      if_cases (Ends c.deadline_generation) (not (a.transaction_id == t))
        (λ f. answer-Ends r _ c _ e)
        (λ f.
          if_cases (Ends c.deadline_generation) a.is_exception (λ g. answer-Ends r _ c _ e)
            (λ g. answer-Ends r _ c _ e))

  check_length-Ends :
      (r : Request) (t : ℕ) (o : Option ℕ) (c d : ModbusClient)
      → d.deadline_generation ≡ c.deadline_generation
      → Ends c.deadline_generation (check_length stray r t o d)
  unfolding check_length close_socket disarm_deadline
  check_length-Ends r t none c d e = answer-Ends r _ c _ (ap (λ (n : ℕ). (n + 1) % 2 ^ 64) e)
  check_length-Ends r t (some total) c d e =
      if_cases (Ends c.deadline_generation)
        (ltb total (length d.read_buffer + 1) || ltb (7 + 253) total)
        (λ f. answer-Ends r _ c _ (ap (λ (n : ℕ). (n + 1) % 2 ^ 64) e))
        (λ f. λ idle_now. absurd (body_not_idle idle_now))

  completion-Ends :
      (p : Pending) (got : Option (List ℕ)) (c : ModbusClient)
      → p ≢ idle
      → Ends c.deadline_generation (completion stray p got c)
  unfolding completion on_resolved on_connected on_written on_header on_body close_socket
      disarm_deadline
  completion-Ends idle got c busy = absurd (busy refl)
  completion-Ends resolving none c busy = λ e. refl
  completion-Ends resolving (some bytes) c busy = λ e. absurd (connecting_not_idle e)
  completion-Ends connecting none c busy = λ e. refl
  completion-Ends connecting (some bytes) c busy = λ e. refl
  completion-Ends (writing r t) none c busy = answer-Ends r _ c _ refl
  completion-Ends (writing r t) (some bytes) c busy = λ e. absurd (header_not_idle e)
  completion-Ends (reading_header r t) none c busy = answer-Ends r _ c _ refl
  completion-Ends (reading_header r t) (some bytes) c busy =
      check_length-Ends r t (expected_frame_length stray bytes) c _ refl
  completion-Ends (reading_body r t n) none c busy = answer-Ends r _ c _ refl
  completion-Ends (reading_body r t n) (some bytes) c busy =
      on_response-Ends r t (decode_response stray (c.read_buffer ++ bytes)) c _ refl

  -- When the completion of a pending operation ends it, the timer of that operation no longer
  -- touches the client, even if its handler was waiting to run already.
  pub late_timer :
      (got : Option (List ℕ)) (c : ModbusClient)
      → c.deadline_generation < 2 ^ 64
      → c.pending ≢ idle
      → (completion stray c.pending got c).0.pending ≡ idle
      → step stray (expired c.deadline_generation) (completion stray c.pending got c).0
        ≡ ((completion stray c.pending got c).0, [])
  unfolding step deadline_expired
  late_timer got c small busy ended =
      let moved = completion-Ends c.pending got c busy ended in
      rw
        (stale c.deadline_generation (completion stray c.pending got c).0.deadline_generation small
          moved)
        refl
