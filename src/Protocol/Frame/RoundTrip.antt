-- ===== src/Protocol/Frame/RoundTrip.antt =====
-- `decode_response` against the layout of an answer: what it accepts, and what it makes of it.
use ironpulse.Prelude.{
  ℕ, ◌+◌, ◌*◌, ◌/◌, ◌%◌, ◌≤◌, ◌≡◌, ◌≢◌, refl, ap, subst, ◌∙◌, Bool, true, false, List, [], ◌∷◌,
  ◌++◌, some, arith, length, All,
}
use ironpulse.Protocol.Frame.{
  FunctionCode, read_holding_registers, read_input_registers, write_single_register, code,
  ModbusRequest, ModbusResponse, push_u16, read_registers, decode_response, encode_request,
  decode_registers, decode_pdu, expected_frame_length, function_of,
}
use ironpulse.Protocol.Frame.Layout.{
  IsByte, IsWord, word_bytes, length-word_bytes, words-word_bytes, read_registers-eq-words,
  response_bytes,
}

-- The registers and the exception code that a kind of answer has.
abbrev pub IsShape : Bool → FunctionCode → ℕ → List ℕ → Type 0
IsShape true f x rs = IsByte x × (rs ≡ [])
IsShape false write_single_register x rs = (x ≡ 0) × (length rs ≡ 1)
IsShape false f x rs = (x ≡ 0) × (1 ≤ length rs) × (length rs ≤ 125)

pub record IsAnswer (r : ModbusResponse) : Type 0 where
  pub transaction : IsWord r.transaction_id
  pub unit : IsByte r.unit_id
  pub register_words : All IsWord r.registers
  pub shape : IsShape r.is_exception r.function r.exception_code r.registers

registers_back :
    (stray : ℕ) (before rs : List ℕ)
    → length before ≡ 9
    → All IsWord rs
    → read_registers stray (before ++ word_bytes rs) (2 * length rs / 2) 0 ≡ rs
registers_back stray before rs nine ws =
    ap (λ n. read_registers stray (before ++ word_bytes rs) n 0) halved
    ∙ read_registers-eq-words stray (length rs) 0 (word_bytes rs)
        (omega (arith, length-word_bytes rs)) before nine
    ∙ words-word_bytes rs ws
  where
    halved : 2 * length rs / 2 ≡ length rs
    halved = omega arith

module _ (stray t u : ℕ) (rs : List ℕ) (is_word : IsWord t) (ws : All IsWord rs) where
  abbrev read_bytes : ℕ → List ℕ
  read_bytes f =
      (t / 256 % 256)
      ∷ (t % 256)
      ∷ 0
      ∷ 0
      ∷ ((3 + 2 * length rs) / 256 % 256)
      ∷ ((3 + 2 * length rs) % 256)
      ∷ u
      ∷ f
      ∷ (2 * length rs)
      ∷ word_bytes rs

  read_body :
      (f : ℕ) (fc : FunctionCode)
      → 1 ≤ length rs
      → length rs ≤ 125
      → fc ≢ write_single_register
      → decode_registers stray (read_bytes f) (9 + 2 * length rs) fc ≡ some rs
  unfolding decode_registers
  read_body f read_holding_registers some_words few ne =
      ground (arith, registers_back stray before rs refl ws)
    where
      before : List ℕ
      before =
          (t / 256 % 256)
          ∷ (t % 256)
          ∷ 0
          ∷ 0
          ∷ ((3 + 2 * length rs) / 256 % 256)
          ∷ ((3 + 2 * length rs) % 256)
          ∷ u
          ∷ f
          ∷ (2 * length rs)
          ∷ []
  read_body f read_input_registers some_words few ne =
      ground (arith, registers_back stray before rs refl ws)
    where
      before : List ℕ
      before =
          (t / 256 % 256)
          ∷ (t % 256)
          ∷ 0
          ∷ 0
          ∷ ((3 + 2 * length rs) / 256 % 256)
          ∷ ((3 + 2 * length rs) % 256)
          ∷ u
          ∷ f
          ∷ (2 * length rs)
          ∷ []
  read_body f write_single_register some_words few ne = absurd (ne refl)

  read_length :
      (f : ℕ)
      → 1 ≤ length rs
      → length rs ≤ 125
      → expected_frame_length stray (read_bytes f) ≡ some (9 + 2 * length rs)
  unfolding expected_frame_length
  read_length f some_words few = ground arith

  read_answer :
      (fc : FunctionCode)
      → 1 ≤ length rs
      → length rs ≤ 125
      → fc ≢ write_single_register
      → decode_response stray (read_bytes (code fc))
        ≡ some (record {
          transaction_id = t;
          unit_id = u;
          function = fc;
          is_exception = false;
          exception_code = 0;
          registers = rs;
        })
  unfolding decode_response expected_frame_length function_of decode_pdu
  read_answer read_holding_registers some_words few ne = ground (
    arith,
    read_length 3 some_words few,
    length-word_bytes rs,
    read_body 3 read_holding_registers some_words few ne,
  )
  read_answer read_input_registers some_words few ne = ground (
    arith,
    read_length 4 some_words few,
    length-word_bytes rs,
    read_body 4 read_input_registers some_words few ne,
  )
  read_answer write_single_register some_words few ne = absurd (ne refl)

write_answer :
    (stray t u address w : ℕ)
    → IsWord t
    → IsWord w
    → decode_response stray
        ((t / 256 % 256) ∷ (t % 256) ∷ 0 ∷ 0 ∷ 0 ∷ 6 ∷ u ∷ 6 ∷ (push_u16 address ++ push_u16 w))
      ≡ some (record {
        transaction_id = t;
        unit_id = u;
        function = write_single_register;
        is_exception = false;
        exception_code = 0;
        registers = w ∷ [];
      })
unfolding decode_response expected_frame_length function_of decode_pdu
write_answer stray t u address w ht hw = ground arith

exception_answer :
    (stray t u x : ℕ) (f : FunctionCode)
    → IsWord t
    → decode_response stray
        ((t / 256 % 256) ∷ (t % 256) ∷ 0 ∷ 0 ∷ 0 ∷ 3 ∷ u ∷ (128 + code f) ∷ x ∷ [])
      ≡ some (record {
        transaction_id = t;
        unit_id = u;
        function = f;
        is_exception = true;
        exception_code = x;
        registers = [];
      })
unfolding decode_response expected_frame_length function_of decode_pdu
exception_answer stray t u x read_holding_registers ht = ground arith
exception_answer stray t u x _ ht = ground arith

single : (rs : List ℕ) → length rs ≡ 1 → (w : ℕ) × (rs ≡ w ∷ [])
single [] e = absurd (omega arith)
single (w ∷ []) e = (w, refl)
single (w ∷ v ∷ rs) e = absurd (omega arith)

decode_parts :
    (stray address t u x : ℕ) (fc : FunctionCode) (exc : Bool) (rs : List ℕ)
    → IsWord t
    → All IsWord rs
    → IsShape exc fc x rs
    → let r : ModbusResponse = record {
      transaction_id = t;
      unit_id = u;
      function = fc;
      is_exception = exc;
      exception_code = x;
      registers = rs;
    } in
      decode_response stray (response_bytes address r) ≡ some r
decode_parts stray address t u x fc true rs ht ws h = rw (h.1) (exception_answer stray t u x fc ht)
decode_parts stray address t u x write_single_register false rs ht ws h =
    let (w, e) = single rs h.1 in
    rw (h.0, e) (write_answer stray t u address w ht (subst (All IsWord) e ws).0)
decode_parts stray address t u x read_holding_registers false rs ht ws h =
    rw (h.0) (read_answer stray t u rs ht ws read_holding_registers h.1 h.2 (λ e. cc))
decode_parts stray address t u x read_input_registers false rs ht ws h =
    rw (h.0) (read_answer stray t u rs ht ws read_input_registers h.1 h.2 (λ e. cc))

-- Whatever well-formed answer a device lays out (an exception, 1 to 125 registers, or the echo of a
-- written one at any address), `decode_response` returns exactly that answer.
pub decode_response-response_bytes :
    (stray address : ℕ) (r : ModbusResponse)
    → IsAnswer r
    → decode_response stray (response_bytes address r) ≡ some r
decode_response-response_bytes stray address r v =
    decode_parts stray address r.transaction_id r.unit_id r.exception_code r.function r.is_exception
      r.registers v.transaction v.register_words v.shape

-- The echo of a write request is decoded to the value that was written.
pub decode_response-encode_request :
    (stray : ℕ) (q : ModbusRequest)
    → IsWord q.transaction_id
    → IsWord q.quantity_or_value
    → q.function ≡ write_single_register
    → decode_response stray (encode_request q)
      ≡ some (record {
        transaction_id = q.transaction_id;
        unit_id = q.unit_id;
        function = write_single_register;
        is_exception = false;
        exception_code = 0;
        registers = q.quantity_or_value ∷ [];
      })
unfolding encode_request
decode_response-encode_request stray q ht hw e =
    rw e (write_answer stray q.transaction_id q.unit_id q.start_address q.quantity_or_value ht hw)
