-- ===== src/Api/Ws/Drained.antt =====
-- src/api/ws_server.cpp: what waits in the queue is written in the end.
use ironpulse.Prelude.{
  ℕ, ◌≡◌, refl, sym, ap, ◌∙◌, inl, inr, true, false, if_cases, true_ne_false, List, [], ◌∷◌, ◌++◌,
  none, some, length, take, drop, replicate,
}
use ironpulse.Api.Ws.{
  WsConnection, Output, write, opened, write_front, write_next, pop_front, on_written, Event,
  written, step, join, then_run, run,
}
use ironpulse.Api.Ws.Queue.{shut_pop, writes, offers, has_frame, IsQueue}
use ironpulse.Api.Ws.Sending.{opened-run}

-- What is left to begin.
unfoldable pub written_out : List (List ℕ) → List Output
written_out [] = []
written_out (frame ∷ frames) = write frame ∷ written_out frames

splits :
    (frames : List (List ℕ))
    → written_out (take 1 frames) ++ written_out (drop 1 frames) ≡ written_out frames
unfolding written_out
splits [] = refl
splits (frame ∷ frames) = refl

begins :
    (frames : List (List ℕ)) (c : WsConnection)
    → write_front frames (record c { outbox = frames; writing = true })
      ≡ (record c { outbox = frames; writing = has_frame frames }, written_out (take 1 frames))
unfolding write_front written_out
begins [] c = refl
begins (frame ∷ frames) c = refl

goes_on :
    (frames : List (List ℕ)) (c : WsConnection)
    → c.closed ≡ false
    → write_next (record c { outbox = frames; writing = true })
      ≡ (record c { outbox = frames; writing = has_frame frames }, written_out (take 1 frames))
unfolding write_next
goes_on frames c is_open =
    if_cases
      (λ r.
        r ≡ (record c { outbox = frames; writing = has_frame frames }, written_out (take 1 frames)))
      c.closed (λ shut. absurd (true_ne_false (sym shut ∙ is_open))) λ _. begins frames c

drains :
    (frames : List (List ℕ)) (c : WsConnection)
    → c.closed ≡ false
    → run
        (replicate (length frames) (written true))
        (record c { outbox = frames; writing = has_frame frames })
      ≡ some (record c { outbox = []; writing = false }, written_out (drop 1 frames))
unfolding run written_out step on_written pop_front then_run join
drains [] c is_open = refl
drains (frame ∷ frames) c is_open =
    ap (λ r. then_run (run (replicate (length frames) (written true))) (some r))
      (goes_on frames c is_open)
    ∙ ap (join (written_out (take 1 frames))) (drains frames c is_open)
    ∙ ap (λ t. some (record c { outbox = []; writing = false }, t)) (splits frames)

served_drains :
    (sent all : List (List ℕ)) (c : WsConnection)
    → IsQueue sent all c
    → c.closed ≡ false
    → run (replicate (length c.outbox) (written true)) c
      ≡ some (record c { outbox = []; writing = false }, written_out (drop 1 c.outbox))
served_drains sent all c (inl h) is_open =
    ap (λ w. run (replicate (length c.outbox) (written true)) (record c { writing = w })) h.2
    ∙ drains c.outbox c is_open
served_drains sent all c (inr h) is_open = absurd (true_ne_false (sym h.0 ∙ is_open))

closed_pop :
    (sent all : List (List ℕ)) (c : WsConnection)
    → IsQueue sent all c
    → c.closed ≡ true
    → on_written true c ≡ none
unfolding on_written
closed_pop sent all c (inl h) shut = absurd (true_ne_false (sym shut ∙ h.0))
closed_pop sent all c (inr h) shut = shut_pop c.outbox c h.1

-- After every run: when the connection is open, one success for each queued frame begins the writes of
-- all that waited, in order, and leaves the queue empty with no write in flight; when it is closed,
-- the success of a write that was still in flight is undefined.
pub completion_finds :
    (events : List Event) (c : WsConnection) (outputs : List Output)
    → run events opened ≡ some (c, outputs)
    → (c.closed ≡ false
        → run (replicate (length c.outbox) (written true)) c
          ≡ some (record c { outbox = []; writing = false }, written_out (drop 1 c.outbox)))
      × (c.closed ≡ true → on_written true c ≡ none)
completion_finds events c outputs e = (
  served_drains (writes outputs) (offers events opened) c (opened-run events c outputs e),
  closed_pop (writes outputs) (offers events opened) c (opened-run events c outputs e),
)
