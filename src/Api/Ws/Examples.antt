-- ===== src/Api/Ws/Examples.antt =====
-- src/api/ws_server.cpp: two broadcasts, a lost client, a ping and a frame that is too long.
use ironpulse.Prelude.{
  ℕ, ◌≡◌, refl, true, false, List, [], ◌∷◌, ◌++◌, none, some, length, replicate, arith,
}
use ironpulse.Api.Ws.{
  stopped, header, WsConnection, write, on_closed, opened, close, write_front, write_next, enqueue,
  pop_front, on_written, handle_frame, read_frame_header, close_reading, Event, post, written,
  read_failed, step, join, then_run, run, send_text, make_frame, length_bytes,
}
use ironpulse.Api.Ws.Queue.{writes, offers, IsQueue}
use ironpulse.Api.Ws.Sending.{opened-run}
use ironpulse.Api.Ws.Drained.{written_out, completion_finds}
use ironpulse.Api.Ws.Frames.{receive, client_header, header_reads, receive-client_header}
use ironpulse.Api.Ws.Received.{frame_reads, client_frame, receive-client_frame}

abbrev first : List ℕ
first = 0x81 ∷ 1 ∷ 97 ∷ []

abbrev second : List ℕ
second = 0x81 ∷ 1 ∷ 98 ∷ []

abbrev two_posts : List Event
two_posts = post first ∷ post second ∷ []

abbrev lost_client : List Event
lost_client = post first ∷ post second ∷ read_failed ∷ []

abbrev both_queued : WsConnection
both_queued = record {
  is_open = true;
  closed = false;
  writing = true;
  outbox = first ∷ second ∷ [];
  reading = header;
}

abbrev dropped : WsConnection
dropped = record { is_open = false; closed = true; writing = true; outbox = []; reading = stopped }

sent_text : send_text (97 ∷ []) opened ≡ some (post first)
unfolding send_text make_frame length_bytes
sent_text = refl

run-both_queued : run two_posts opened ≡ some (both_queued, write first ∷ [])
unfolding run then_run join step enqueue write_next write_front
run-both_queued = refl

run-dropped : run lost_client opened ≡ some (dropped, write first ∷ on_closed ∷ [])
unfolding run then_run join step enqueue write_next write_front close_reading close
run-dropped = refl

opened-run_example : IsQueue (writes (write first ∷ [])) (offers two_posts opened) both_queued
opened-run_example = opened-run two_posts both_queued (write first ∷ []) run-both_queued

completion_finds_example :
    (both_queued.closed ≡ false
      → run (replicate (length both_queued.outbox) (written true)) both_queued
        ≡ some (record both_queued { outbox = []; writing = false }, written_out (second ∷ [])))
    × (both_queued.closed ≡ true → on_written true both_queued ≡ none)
completion_finds_example = completion_finds two_posts both_queued (write first ∷ []) run-both_queued

-- A connection that fails just as a frame has been written.
pops_nothing : on_written true dropped ≡ none
unfolding on_written pop_front
pops_nothing = refl

receive-client_header_example :
    receive (header_reads 65537 0) (client_header 1 true 65537 ++ 5 ∷ []) opened
    ≡ (close_reading opened, 5 ∷ [])
receive-client_header_example =
    receive-client_header 1 true 65537 (5 ∷ []) opened (omega arith) (omega arith) refl

receive-client_frame_example :
    receive
      (frame_reads (72 ∷ 105 ∷ []))
      (client_frame 9 1 2 3 4 (72 ∷ 105 ∷ []) ++ 0x88 ∷ [])
      opened
    ≡ (read_frame_header (handle_frame (72 ∷ 105 ∷ []) 9 opened), 0x88 ∷ [])
receive-client_frame_example =
    receive-client_frame 9 1 2 3 4 (72 ∷ 105 ∷ []) (0x88 ∷ []) opened (omega arith)
      (omega arith, (omega arith, tt)) (omega arith)
