-- ===== src/Api/Ws/Frames.antt =====
-- src/api/ws_server.cpp: the frames of a client, as RFC 6455 lays them out, against `read_frame_header`.
use native.Mathlib.Nat.{div-div-eq-div-mul, pow-succ', div-le_self, div-eq_of_lt}
use ironpulse.Prelude.{
  ℕ, zero, suc, ◌+◌, ◌*◌, ◌/◌, ◌%◌, ◌^◌, ◌≤◌, ◌<◌, ◌≡◌, refl, sym, ap, ap₂, ◌∙◌, Bool, true, false,
  not, ltb, leb, ◌==◌, ==_iff, ◌||◌, if◌then◌else◌, if_cases, both_cases, leb→le, List, [], ◌∷◌,
  ◌++◌, append-nil, length, take, drop, arith,
}
use ironpulse.Prelude.Pieces.{take-append, drop-append}
use ironpulse.Api.Ws.{
  be_bytes, Reading, header, extended, mask_key, WsConnection, Output, close_reading,
  finish_with_length, extended_length, on_header, on_read, wanted, max_incoming_payload,
}

-- The reads of a number of handlers from what the client sent, and what is left of it.
unfoldable pub hand_on :
    List Output → (WsConnection × List Output) × List ℕ → (WsConnection × List Output) × List ℕ
hand_on first ((c, outputs), stream) = ((c, first ++ outputs), stream)

unfoldable pub and_then :
    (WsConnection → (WsConnection × List Output) × List ℕ)
    → WsConnection × List Output
    → (WsConnection × List Output) × List ℕ
and_then next (c, outputs) = hand_on outputs (next c)

unfoldable pub receive : ℕ → List ℕ → WsConnection → (WsConnection × List Output) × List ℕ
receive zero stream c = ((c, []), stream)
receive (suc n) stream c =
    and_then (receive n (drop (wanted c.reading) stream))
      (on_read c.reading (take (wanted c.reading) stream) c)

-- The bit that says that a frame is masked.
unfoldable pub mask_bit : Bool → ℕ
mask_bit masked = if masked then 128 else 0

-- A client's frame: the octets of its header, with the length in its shortest form.
unfoldable pub client_header : ℕ → Bool → ℕ → List ℕ
client_header opcode masked len =
    (128 + opcode)
    ∷ (if leb len 125
        then (mask_bit masked + len) ∷ []
        else if leb len 65535
        then (mask_bit masked + 126) ∷ be_bytes 2 len
        else (mask_bit masked + 127) ∷ be_bytes 8 len)

-- The extended length is the number its bytes spell.
next_digit : (x : ℕ) → x < 2 ^ 64 → (x / 256 * 256) % 2 ^ 64 + x % 256 ≡ x
next_digit x h = omega (arith, h)

high : (n len : ℕ) → len / 256 ^ suc n ≡ len / 256 ^ n / 256
high n len =
    ap (λ t. len / t) (pow-succ' 256 n ∙ swap (256 ^ n))
    ∙ sym (div-div-eq-div-mul len (256 ^ n) 256)
  where
    swap : (q : ℕ) → 256 * q ≡ q * 256
    swap q = omega arith

div_small : (len q : ℕ) → len < 2 ^ 64 → len / q < 2 ^ 64
div_small len q h = omega (arith, h, div-le_self len q)

extended_length-be_bytes :
    (n len : ℕ) → len < 2 ^ 64 → extended_length (len / 256 ^ n) (be_bytes n len) ≡ len
unfolding extended_length be_bytes
extended_length-be_bytes zero len h = omega arith
extended_length-be_bytes (suc n) len h =
    ap (λ a. extended_length ((a * 256) % 2 ^ 64 + (len / 256 ^ n) % 256) (be_bytes n len))
      (high n len)
    ∙ ap (λ a. extended_length a (be_bytes n len))
        (next_digit (len / 256 ^ n) (div_small len (256 ^ n) h))
    ∙ extended_length-be_bytes n len h

-- The octets of the lengths that a header can hold.
as_extended : (n len : ℕ) → len < 2 ^ 64 → len < 256 ^ n → extended_length 0 (be_bytes n len) ≡ len
as_extended n len h small =
    ap (λ a. extended_length a (be_bytes n len)) (sym (div-eq_of_lt small))
    ∙ extended_length-be_bytes n len h

length-be_bytes : (n len : ℕ) → length (be_bytes n len) ≡ n
unfolding be_bytes
length-be_bytes zero len = refl
length-be_bytes (suc n) len = ap suc (length-be_bytes n len)

-- How many reads take in a header with its length.
unfoldable pub header_reads : ℕ → ℕ → ℕ
header_reads len more = if leb len 125 then suc more else suc (suc more)

-- What `on_header` does with the parts of the two octets.
abbrev after_header : ℕ → Bool → ℕ → WsConnection → WsConnection × List Output
after_header opcode masked code c =
    if code == 126
    then (record c { reading = extended opcode masked 2 }, [])
    else if code == 127
    then (record c { reading = extended opcode masked 8 }, [])
    else finish_with_length opcode masked code c

bit_of :
    (masked : Bool) (code : ℕ) → code < 128 → leb 1 ((mask_bit masked + code) / 128 % 2) ≡ masked
unfolding mask_bit
bit_of true code h = ground (arith, h)
bit_of false code h = ground (arith, h)

code_of : (masked : Bool) (code : ℕ) → code < 128 → (mask_bit masked + code) % 128 ≡ code
unfolding mask_bit
code_of true code h = omega (arith, h)
code_of false code h = omega (arith, h)

opcode_of : (opcode : ℕ) → opcode < 16 → (128 + opcode) % 16 ≡ opcode
opcode_of opcode h = omega (arith, h)

module _ (opcode : ℕ) (masked : Bool) (small : opcode < 16) where
  on_header_lem :
      (code : ℕ) (c : WsConnection)
      → code < 128
      → on_header (128 + opcode) (mask_bit masked + code) c ≡ after_header opcode masked code c
  unfolding on_header
  on_header_lem code c h =
      ap
        (λ o.
          after_header o (leb 1 ((mask_bit masked + code) / 128 % 2))
            ((mask_bit masked + code) % 128) c)
        (opcode_of opcode small)
      ∙ ap₂ (λ m l. after_header opcode m l c) (bit_of masked code h) (code_of masked code h)

  module _ (more : ℕ) (tail : List ℕ) (c : WsConnection) where
    abbrev pub Goes : ℕ → List ℕ → ℕ → Reading → Type 0
    Goes reads stream len r =
        receive reads stream (record c { reading = r })
        ≡ and_then (receive more tail) (finish_with_length opcode masked len c)

    extended-Goes :
        (n len : ℕ)
        → len < 2 ^ 64
        → len < 256 ^ n
        → Goes (suc more) (be_bytes n len ++ tail) len (extended opcode masked n)
    unfolding receive wanted on_read finish_with_length close_reading
    extended-Goes n len h fits =
        ap₂
          (λ bytes rest.
            and_then (receive more rest)
              (finish_with_length opcode masked (extended_length 0 bytes) c))
          (take-append n (be_bytes n len) tail (length-be_bytes n len))
          (drop-append n (be_bytes n len) tail (length-be_bytes n len))
        ∙ ap (λ l. and_then (receive more tail) (finish_with_length opcode masked l c))
            (as_extended n len h fits)

    short-Goes :
        (len : ℕ)
        → len ≤ 125
        → Goes (suc more) ((128 + opcode) ∷ (mask_bit masked + len) ∷ tail) len header
    unfolding receive wanted on_read finish_with_length close_reading
    short-Goes len h =
        ap (and_then (receive more tail))
          (on_header_lem len (record c { reading = header }) (omega (arith, h)) ∙ no_code)
      where
        no_code :
            after_header opcode masked len (record c { reading = header })
            ≡ finish_with_length opcode masked len c
        no_code =
            if_cases (λ r. r ≡ finish_with_length opcode masked len c) (len == 126)
              (λ e. absurd (omega (arith, h, (==_iff len 126).0 e)))
              λ _.
                if_cases (λ r. r ≡ finish_with_length opcode masked len c) (len == 127)
                  (λ e. absurd (omega (arith, h, (==_iff len 127).0 e))) λ _. refl

    long-Goes :
        (n code len : ℕ)
        → ((d : WsConnection)
            → after_header opcode masked code d
              ≡ (record d { reading = extended opcode masked n }, []))
        → code < 128
        → len < 2 ^ 64
        → len < 256 ^ n
        → Goes
            (suc (suc more))
            ((128 + opcode) ∷ (mask_bit masked + code) ∷ be_bytes n len ++ tail)
            len
            header
    unfolding and_then receive on_read finish_with_length hand_on wanted be_bytes
    long-Goes n code len e low h fits =
        ap (and_then (receive (suc more) (be_bytes n len ++ tail))) (
          on_header_lem code (record c { reading = header }) low
          ∙ e (record c { reading = header }))
        ∙ extended-Goes n len h fits

    pub header-Goes :
        (len : ℕ)
        → len < 2 ^ 64
        → Goes (header_reads len more) (client_header opcode masked len ++ tail) len header
    unfolding header_reads client_header
    header-Goes len h =
        both_cases (λ n octets. Goes n ((128 + opcode) ∷ octets ++ tail) len header) (leb len 125)
          (λ e. short-Goes len (leb→le len 125 e))
          λ _.
            if_cases (λ octets. Goes (suc (suc more)) ((128 + opcode) ∷ octets ++ tail) len header)
              (leb len 65535)
              (λ e.
                long-Goes 2 126 len (λ d. refl) (omega arith) h (omega (arith, leb→le len 65535 e)))
              λ _. long-Goes 8 127 len (λ d. refl) (omega arith) h (omega (arith, h))

-- The last of some reads.
pub no_more :
    (rest : List ℕ) (r : WsConnection × List Output) → and_then (receive 0 rest) r ≡ (r, rest)
unfolding and_then receive hand_on
no_more rest r = ap (λ o. ((r.0, o), rest)) (append-nil r.1)

-- A frame that is not masked or longer than 64 KiB closes the connection after its header, for every
-- length of up to 64 bits, and nothing of its key and payload is read.
pub receive-client_header :
    (opcode : ℕ) (masked : Bool) (len : ℕ) (rest : List ℕ) (c : WsConnection)
    → opcode < 16
    → len < 2 ^ 64
    → (not masked || ltb max_incoming_payload len) ≡ true
    → receive
        (header_reads len 0)
        (client_header opcode masked len ++ rest)
        (record c { reading = header })
      ≡ (close_reading c, rest)
unfolding finish_with_length
receive-client_header opcode masked len rest c small h refused =
    header-Goes opcode masked small 0 rest c len h
    ∙ ap
        (λ b.
          and_then (receive 0 rest)
            (if b then close_reading c else (record c { reading = mask_key opcode len }, [])))
        refused
    ∙ no_more rest (close_reading c)
