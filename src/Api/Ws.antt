-- ===== src/Api/Ws.antt =====
-- src/api/ws_server.cpp: one WebSocket connection after its handshake. The handlers run on the
-- connection's strand, one after the other. There is at most one read and one write in flight.
pub mod Queue
pub mod Enqueue
pub mod Sending
pub mod Handlers
pub mod Drained
pub mod Masks
pub mod Frames
pub mod Received
mod Examples
use ironpulse.Prelude.{
  ℕ, zero, suc, ◌+◌, ◌*◌, ◌/◌, ◌%◌, ◌^◌, min, Bool, true, false, not, ltb, leb, ◌==◌, ◌||◌,
  if◌then◌else◌, List, [], ◌∷◌, ◌++◌, Option, none, some, map, length, get_or, take,
}
use ironpulse.Prelude.Bits.{bit_xor}

abbrev pub op_text : ℕ
op_text = 0x1

abbrev pub op_close : ℕ
op_close = 0x8

abbrev pub op_ping : ℕ
op_ping = 0x9

abbrev pub op_pong : ℕ
op_pong = 0xA

-- 64 KiB, written out.
abbrev pub max_incoming_payload : ℕ
max_incoming_payload = 65536

abbrev pub max_queued_frames : ℕ
max_queued_frames = 512

-- The loop over `len >> (i * 8)`, from the highest byte on.
unfoldable pub be_bytes : ℕ → ℕ → List ℕ
be_bytes zero len = []
be_bytes (suc i) len = (len / 256 ^ i) % 256 ∷ be_bytes i len

unfoldable pub length_bytes : ℕ → List ℕ
length_bytes len =
    if leb len 125
    then len ∷ []
    else if leb len 0xFFFF
    then 126 ∷ be_bytes 2 len
    else 127 ∷ be_bytes 8 len

unfoldable pub make_frame : ℕ → List ℕ → List ℕ
make_frame opcode bytes = (128 + opcode % 128) ∷ length_bytes (length bytes) ++ bytes

-- What the read in flight is for, with what its handler holds.
pub data Reading : Type 0 where
  stopped header : Reading
  extended : ℕ → Bool → ℕ → Reading
  mask_key : ℕ → ℕ → Reading
  payload : ℕ → ℕ → List ℕ → Reading

pub record WsConnection : Type 0 where
  pub is_open : Bool
  pub closed : Bool
  pub writing : Bool
  pub outbox : List (List ℕ)
  pub reading : Reading

-- A write that begins, or the call of `on_closed_`.
pub data Output : Type 0 where
  write : List ℕ → Output
  on_closed : Output

-- After the handshake was answered.
abbrev pub opened : WsConnection
opened = record { is_open = true; closed = false; writing = false; outbox = []; reading = header }

unfoldable pub close : WsConnection → WsConnection × List Output
close c =
    if c.closed
    then (c, [])
    else (record c { closed = true; is_open = false; outbox = [] }, on_closed ∷ [])

unfoldable pub write_front : List (List ℕ) → WsConnection → WsConnection × List Output
write_front [] c = (record c { writing = false }, [])
write_front (frame ∷ frames) c = (record c { writing = true }, write frame ∷ [])

unfoldable pub write_next : WsConnection → WsConnection × List Output
write_next c = if c.closed then (record c { writing = false }, []) else write_front c.outbox c

unfoldable pub enqueue : List ℕ → WsConnection → WsConnection × List Output
enqueue frame c =
    let queued = record c { outbox = c.outbox ++ frame ∷ [] } in
    if c.closed
    then (c, [])
    else if leb max_queued_frames (length c.outbox)
    then close c
    else if not c.writing
    then write_next queued
    else (queued, [])

-- `outbox_.pop_front()`, which is undefined on an empty queue.
unfoldable pub pop_front : List (List ℕ) → WsConnection → Option (WsConnection × List Output)
pop_front [] c = none
pop_front (frame ∷ frames) c = some (write_next (record c { outbox = frames }))

-- The handler of a write that ended, with success or not.
unfoldable pub on_written : Bool → WsConnection → Option (WsConnection × List Output)
on_written ok c = if not ok then some (close c) else pop_front c.outbox c

unfoldable pub handle_frame : List ℕ → ℕ → WsConnection → WsConnection × List Output
handle_frame bytes opcode c =
    if opcode == op_close
    then close c
    else if opcode == op_ping
    then enqueue (make_frame op_pong (take (min (length bytes) 125) bytes)) c
    else (c, [])

-- A read that begins, also on a closed socket, where it fails.
unfoldable pub read_frame_header : WsConnection × List Output → WsConnection × List Output
read_frame_header (c, outputs) = (record c { reading = header }, outputs)

-- Without a new read.
unfoldable pub close_reading : WsConnection → WsConnection × List Output
close_reading c = close (record c { reading = stopped })

unfoldable pub finish_with_length : ℕ → Bool → ℕ → WsConnection → WsConnection × List Output
finish_with_length opcode masked len c =
    if not masked || ltb max_incoming_payload len
    then close_reading c
    else (record c { reading = mask_key opcode len }, [])

-- `len = (len << 8) | ext[i]`
unfoldable pub extended_length : ℕ → List ℕ → ℕ
extended_length len [] = len
extended_length len (b ∷ bytes) = extended_length ((len * 256) % 2 ^ 64 + b) bytes

unfoldable pub unmask : ℕ → List ℕ → List ℕ → List ℕ
unmask i key [] = []
unmask i key (b ∷ bytes) = bit_xor 8 b (get_or key (i % 4) 0) ∷ unmask (i + 1) key bytes

unfoldable pub on_header : ℕ → ℕ → WsConnection → WsConnection × List Output
on_header byte0 byte1 c =
    let opcode = byte0 % 16 in
    let masked = leb 1 (byte1 / 128 % 2) in
    let payload_len = byte1 % 128 in
    if payload_len == 126
    then (record c { reading = extended opcode masked 2 }, [])
    else if payload_len == 127
    then (record c { reading = extended opcode masked 8 }, [])
    else finish_with_length opcode masked payload_len c

unfoldable pub on_mask_key : ℕ → ℕ → List ℕ → WsConnection → WsConnection × List Output
on_mask_key opcode len key c =
    if len == 0
    then read_frame_header (handle_frame [] opcode c)
    else (record c { reading = payload opcode len key }, [])

-- The handler of the read in flight, with the bytes it gave.
unfoldable pub on_read : Reading → List ℕ → WsConnection → WsConnection × List Output
on_read stopped bytes c = (c, [])
on_read header bytes c = on_header (get_or bytes 0 0) (get_or bytes 1 0) c
on_read (extended opcode masked n) bytes c =
    finish_with_length opcode masked (extended_length 0 bytes) c
on_read (mask_key opcode len) bytes c = on_mask_key opcode len bytes c
on_read (payload opcode len key) bytes c =
    read_frame_header (handle_frame (unmask 0 key bytes) opcode c)

-- How many bytes it asks for.
unfoldable pub wanted : Reading → ℕ
wanted stopped = 0
wanted header = 2
wanted (extended opcode masked n) = n
wanted (mask_key opcode len) = 4
wanted (payload opcode len key) = len

-- The handlers that run: a posted `enqueue`, the end of the write, the read in flight with its bytes,
-- or a read that failed.
pub data Event : Type 0 where
  post : List ℕ → Event
  written : Bool → Event
  received : List ℕ → Event
  read_failed : Event

-- The handler it posts, on an open connection.
unfoldable pub send_text : List ℕ → WsConnection → Option Event
send_text bytes c = if not c.is_open then none else some (post (make_frame op_text bytes))

unfoldable pub step : Event → WsConnection → Option (WsConnection × List Output)
step (post frame) c = some (enqueue frame c)
step (written ok) c = on_written ok c
step (received bytes) c = some (on_read c.reading bytes c)
step read_failed c = some (close_reading c)

-- What the rest of the events does is added to what was handed on before.
unfoldable pub join :
    List Output → Option (WsConnection × List Output) → Option (WsConnection × List Output)
join first none = none
join first (some (c, outputs)) = some (c, first ++ outputs)

unfoldable pub then_run :
    (WsConnection → Option (WsConnection × List Output))
    → Option (WsConnection × List Output)
    → Option (WsConnection × List Output)
then_run next none = none
then_run next (some (c, outputs)) = join outputs (next c)

unfoldable pub run : List Event → WsConnection → Option (WsConnection × List Output)
run [] c = some (c, [])
run (e ∷ events) c = then_run (run events) (step e c)
