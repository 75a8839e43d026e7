-- ===== src/Api/Ws/Handlers.antt =====
-- src/api/ws_server.cpp: each handler keeps the queue.
use mathlib.Core.Option.{some-injective}
use ironpulse.Prelude.{
  ℕ, ◌%◌, ◌/◌, min, get_or, ◌≡◌, sym, subst, Bool, not, ltb, leb, ◌==◌, ◌||◌, if_cases, both_cases,
  List, [], ◌∷◌, ◌++◌, append-nil, some, length, take,
}
use ironpulse.Api.Ws.{
  op_close, op_ping, op_pong, make_frame, Reading, stopped, header, extended, mask_key, payload,
  WsConnection, Output, close, enqueue, handle_frame, read_frame_header, close_reading,
  finish_with_length, unmask, extended_length, on_header, on_mask_key, on_read, Event, post,
  written, received, read_failed, step, max_incoming_payload,
}
use ironpulse.Api.Ws.Enqueue.{enqueue-IsQueue}
use ironpulse.Api.Ws.Queue.{
  pongs, answered, offered, IsQueue, After, quiet, close-IsQueue, on_written-IsQueue,
}

module _ (sent all : List (List ℕ)) where
  -- A handler that brings no frame.
  pub silent : (r : WsConnection × List Output) → After sent all r → After sent (all ++ []) r
  silent r h = subst (λ t. After sent t r) (sym (append-nil all)) h

  abbrev Gives : List (List ℕ) → WsConnection × List Output → Type 0
  Gives frames r = After sent (all ++ frames) r

  handle_frame-IsQueue :
      (bytes : List ℕ) (opcode : ℕ) (c : WsConnection)
      → IsQueue sent all c
      → Gives (pongs bytes opcode) (handle_frame bytes opcode c)
  unfolding handle_frame pongs
  handle_frame-IsQueue bytes opcode c h =
      both_cases Gives (opcode == op_close) (λ _. silent (close c) (close-IsQueue sent all c h))
        λ _.
          both_cases Gives (opcode == op_ping)
            (λ _.
              enqueue-IsQueue sent all (make_frame op_pong (take (min (length bytes) 125) bytes)) c
                h)
            λ _. silent (c, []) (quiet sent all c h)

  close_reading-IsQueue : (c : WsConnection) → IsQueue sent all c → After sent all (close_reading c)
  unfolding close_reading
  close_reading-IsQueue c h = close-IsQueue sent all (record c { reading = stopped }) h

  finish_with_length-IsQueue :
      (opcode : ℕ) (masked : Bool) (len : ℕ) (c : WsConnection)
      → IsQueue sent all c
      → After sent all (finish_with_length opcode masked len c)
  unfolding finish_with_length
  finish_with_length-IsQueue opcode masked len c h =
      if_cases (After sent all) (not masked || ltb max_incoming_payload len)
        (λ _. close_reading-IsQueue c h)
        λ _. quiet sent all (record c { reading = mask_key opcode len }) h

  on_header-IsQueue :
      (byte0 byte1 : ℕ) (c : WsConnection)
      → IsQueue sent all c
      → After sent all (on_header byte0 byte1 c)
  unfolding on_header
  on_header-IsQueue byte0 byte1 c h =
      if_cases (After sent all) (byte1 % 128 == 126)
        (λ _.
          quiet sent all (record c { reading = extended (byte0 % 16) (leb 1 (byte1 / 128 % 2)) 2 })
            h)
        λ _.
          if_cases (After sent all) (byte1 % 128 == 127)
            (λ _.
              quiet sent all
                (record c { reading = extended (byte0 % 16) (leb 1 (byte1 / 128 % 2)) 8 }) h)
            λ _. finish_with_length-IsQueue (byte0 % 16) (leb 1 (byte1 / 128 % 2)) (byte1 % 128) c h

  on_read-IsQueue :
      (r : Reading) (bytes : List ℕ) (c : WsConnection)
      → IsQueue sent all c
      → Gives (answered r bytes) (on_read r bytes c)
  unfolding on_read answered on_mask_key read_frame_header
  on_read-IsQueue stopped bytes c h = silent (c, []) (quiet sent all c h)
  on_read-IsQueue header bytes c h =
      silent (on_header (get_or bytes 0 0) (get_or bytes 1 0) c)
        (on_header-IsQueue (get_or bytes 0 0) (get_or bytes 1 0) c h)
  on_read-IsQueue (extended opcode masked n) bytes c h =
      silent (finish_with_length opcode masked (extended_length 0 bytes) c)
        (finish_with_length-IsQueue opcode masked (extended_length 0 bytes) c h)
  on_read-IsQueue (mask_key opcode len) bytes c h =
      both_cases Gives (len == 0) (λ _. handle_frame-IsQueue [] opcode c h)
        λ _. silent (record c { reading = payload opcode len bytes }, []) (quiet sent all c h)
  on_read-IsQueue (payload opcode len key) bytes c h =
      handle_frame-IsQueue (unmask 0 key bytes) opcode c h

  pub step-IsQueue :
      (e : Event) (c : WsConnection) (r : WsConnection × List Output)
      → IsQueue sent all c
      → step e c ≡ some r
      → Gives (offered e c) r
  unfolding step offered
  step-IsQueue (post frame) c r h e =
      subst (Gives (frame ∷ [])) (some-injective (enqueue frame c) r e)
        (enqueue-IsQueue sent all frame c h)
  step-IsQueue (written ok) c r h e = silent r (on_written-IsQueue sent all ok c r h e)
  step-IsQueue (received bytes) c r h e =
      subst (Gives (answered c.reading bytes)) (some-injective (on_read c.reading bytes c) r e)
        (on_read-IsQueue c.reading bytes c h)
  step-IsQueue read_failed c r h e =
      silent r
        (subst (After sent all) (some-injective (close_reading c) r e) (close_reading-IsQueue c h))
