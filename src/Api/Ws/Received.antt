-- ===== src/Api/Ws/Received.antt =====
-- src/api/ws_server.cpp: a whole frame of a client, from its header to `handle_frame`.
use ironpulse.Prelude.{
  ℕ, suc, ◌≤◌, ◌<◌, min, ◌≡◌, refl, ap, ap₂, ◌∙◌, true, not, leb, ◌==◌, both_cases, List, [], ◌∷◌,
  ◌++◌, append_assoc, length, take, All, arith,
}
use ironpulse.Prelude.Bytes.{IsByte}
use ironpulse.Prelude.Pieces.{take-append, drop-append}
use ironpulse.Api.Ws.{
  op_close, op_ping, op_pong, make_frame, Reading, header, mask_key, payload, WsConnection, Output,
  close, write_front, write_next, enqueue, handle_frame, read_frame_header, finish_with_length,
  unmask, on_mask_key, on_read, wanted, max_queued_frames, max_incoming_payload,
}
use ironpulse.Api.Ws.Masks.{mask, length-mask, unmask-mask}
use ironpulse.Api.Ws.Frames.{
  and_then, receive, hand_on, client_header, header_reads, header-Goes, no_more,
}

module _ (r : Reading) where
  abbrev SameFrom : WsConnection × List Output → WsConnection × List Output → Type 0
  SameFrom x y = read_frame_header x ≡ read_frame_header y

  close-SameFrom : (c : WsConnection) → SameFrom (close (record c { reading = r })) (close c)
  unfolding close read_frame_header
  close-SameFrom c = both_cases SameFrom c.closed (λ _. refl) λ _. refl

  front-SameFrom :
      (frames : List (List ℕ)) (c : WsConnection)
      → SameFrom (write_front frames (record c { reading = r })) (write_front frames c)
  unfolding write_front read_frame_header
  front-SameFrom [] c = refl
  front-SameFrom (frame ∷ frames) c = refl

  next-SameFrom :
      (c : WsConnection) → SameFrom (write_next (record c { reading = r })) (write_next c)
  unfolding write_next read_frame_header
  next-SameFrom c = both_cases SameFrom c.closed (λ _. refl) λ _. front-SameFrom c.outbox c

  enqueue-SameFrom :
      (frame : List ℕ) (c : WsConnection)
      → SameFrom (enqueue frame (record c { reading = r })) (enqueue frame c)
  unfolding enqueue read_frame_header
  enqueue-SameFrom frame c =
      both_cases SameFrom c.closed (λ _. refl)
        λ _.
          both_cases SameFrom (leb max_queued_frames (length c.outbox)) (λ _. close-SameFrom c)
            λ _.
              both_cases SameFrom (not c.writing)
                (λ _. next-SameFrom (record c { outbox = c.outbox ++ frame ∷ [] })) λ _. refl

  handle_frame-SameFrom :
      (bytes : List ℕ) (opcode : ℕ) (c : WsConnection)
      → SameFrom
          (handle_frame bytes opcode (record c { reading = r }))
          (handle_frame bytes opcode c)
  unfolding handle_frame read_frame_header
  handle_frame-SameFrom bytes opcode c =
      both_cases SameFrom (opcode == op_close) (λ _. close-SameFrom c)
        λ _.
          both_cases SameFrom (opcode == op_ping)
            (λ _. enqueue-SameFrom (make_frame op_pong (take (min (length bytes) 125) bytes)) c)
            λ _. refl

-- The reads after the header: the key, and the payload when there is one.
unfoldable pub payload_reads : List ℕ → ℕ
payload_reads [] = 1
payload_reads (b ∷ bytes) = 2

unfoldable pub client_frame : ℕ → ℕ → ℕ → ℕ → ℕ → List ℕ → List ℕ
client_frame opcode k0 k1 k2 k3 bytes =
    client_header opcode true (length bytes) ++ k0 ∷ k1 ∷ k2 ∷ k3 ∷ mask k0 k1 k2 k3 bytes

unfoldable pub frame_reads : List ℕ → ℕ
frame_reads bytes = header_reads (length bytes) (payload_reads bytes)

module _ (opcode k0 k1 k2 k3 : ℕ) (rest : List ℕ) (c : WsConnection) where
  accepts :
      (len : ℕ)
      → len ≤ max_incoming_payload
      → finish_with_length opcode true len c ≡ (record c { reading = mask_key opcode len }, [])
  unfolding finish_with_length
  accepts len h = ground (arith, h)

  last_read :
      (key masked : List ℕ) (len : ℕ)
      → length masked ≡ len
      → receive 1 (masked ++ rest) (record c { reading = payload opcode len key })
        ≡ (read_frame_header (handle_frame (unmask 0 key masked) opcode c), rest)
  unfolding receive wanted on_read
  last_read key masked len e =
      ap₂
        (λ bytes left.
          and_then (receive 0 left)
            (read_frame_header (handle_frame (unmask 0 key bytes) opcode now)))
        (take-append len masked rest e) (drop-append len masked rest e)
      ∙ no_more rest (read_frame_header (handle_frame (unmask 0 key masked) opcode now))
      ∙ ap (λ r. (r, rest))
          (handle_frame-SameFrom (payload opcode len key) (unmask 0 key masked) opcode c)
    where
      now : WsConnection
      now = record c { reading = payload opcode len key }

  keyed :
      (key : List ℕ) (n : ℕ)
      → on_mask_key opcode (suc n) key (record c { reading = mask_key opcode (suc n) })
        ≡ (record c { reading = payload opcode (suc n) key }, [])
  unfolding on_mask_key
  keyed key n = ground arith

  payload-receive :
      (bytes : List ℕ)
      → All IsByte bytes
      → receive
          (payload_reads bytes)
          (k0 ∷ k1 ∷ k2 ∷ k3 ∷ mask k0 k1 k2 k3 bytes ++ rest)
          (record c { reading = mask_key opcode (length bytes) })
        ≡ (read_frame_header (handle_frame bytes opcode c), rest)
  unfolding payload_reads receive wanted on_read on_mask_key mask and_then hand_on
  payload-receive [] small =
      no_more rest
        (read_frame_header (handle_frame [] opcode (record c { reading = mask_key opcode 0 })))
      ∙ ap (λ r. (r, rest)) (handle_frame-SameFrom (mask_key opcode 0) [] opcode c)
  payload-receive (b ∷ bytes) small =
      ap (and_then (receive 1 (mask k0 k1 k2 k3 (b ∷ bytes) ++ rest)))
        (keyed (k0 ∷ k1 ∷ k2 ∷ k3 ∷ []) (length bytes))
      ∙ last_read (k0 ∷ k1 ∷ k2 ∷ k3 ∷ []) (mask k0 k1 k2 k3 (b ∷ bytes)) (length (b ∷ bytes))
          (length-mask k0 k1 k2 k3 (b ∷ bytes))
      ∙ ap (λ t. (read_frame_header (handle_frame t opcode c), rest))
          (unmask-mask (k0 ∷ k1 ∷ k2 ∷ k3 ∷ []) (b ∷ bytes) 0 k0 k1 k2 k3 small refl refl refl refl)

-- A masked frame of at most 64 KiB, whatever its opcode, key and bytes, reaches `handle_frame` with the
-- bytes the client masked, after which the next header is read from what follows it.
pub receive-client_frame :
    (opcode k0 k1 k2 k3 : ℕ) (bytes rest : List ℕ) (c : WsConnection)
    → opcode < 16
    → All IsByte bytes
    → length bytes ≤ max_incoming_payload
    → receive
        (frame_reads bytes)
        (client_frame opcode k0 k1 k2 k3 bytes ++ rest)
        (record c { reading = header })
      ≡ (read_frame_header (handle_frame bytes opcode c), rest)
unfolding frame_reads client_frame and_then hand_on
receive-client_frame opcode k0 k1 k2 k3 bytes rest c small octets h =
    ap
      (λ stream.
        receive (header_reads (length bytes) (payload_reads bytes)) stream
          (record c { reading = header }))
      (append_assoc (client_header opcode true (length bytes))
        (k0 ∷ k1 ∷ k2 ∷ k3 ∷ mask k0 k1 k2 k3 bytes) rest)
    ∙ header-Goes opcode true small (payload_reads bytes) after c (length bytes) (omega (arith, h))
    ∙ ap (and_then (receive (payload_reads bytes) after))
        (accepts opcode k0 k1 k2 k3 rest c (length bytes) h)
    ∙ payload-receive opcode k0 k1 k2 k3 rest c bytes octets
  where
    after : List ℕ
    after = k0 ∷ k1 ∷ k2 ∷ k3 ∷ mask k0 k1 k2 k3 bytes ++ rest
