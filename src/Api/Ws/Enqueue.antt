-- ===== src/Api/Ws/Enqueue.antt =====
-- src/api/ws_server.cpp: `enqueue` keeps the queue.
use ironpulse.Prelude.{
  ℕ, ◌≤◌, ◌≡◌, sym, ap, ◌∙◌, inl, inr, Bool, true, false, not, leb, if_cases, true_ne_false,
  not_leb→lt, List, [], ◌∷◌, ◌++◌, length, length-append, drop, arith,
}
use ironpulse.Api.Ws.{WsConnection, Output, enqueue, max_queued_frames}
use ironpulse.Api.Ws.Queue.{
  IsServed, IsQueue, After, append_prefix, idle_drop, busy_drop, busy_append, has_rest, rest_more,
  quiet, shuts, write_next-IsQueue,
}

room_left :
    (frames : List (List ℕ)) (frame : List ℕ)
    → leb max_queued_frames (length frames) ≡ false
    → length (frames ++ frame ∷ []) ≤ max_queued_frames
room_left frames frame room =
    omega
      (arith, length-append frames (frame ∷ []), not_leb→lt max_queued_frames (length frames) room)

not-true : (b : Bool) → not b ≡ true → b ≡ false
not-true b e = ground (arith, e)

not-false : (b : Bool) → not b ≡ false → b ≡ true
not-false b e = ground (arith, e)

module _ (sent all : List (List ℕ)) (frame : List ℕ) where
  abbrev Brought : WsConnection × List Output → Type 0
  Brought r = After sent (all ++ frame ∷ []) r

  enqueue_open : (c : WsConnection) → IsServed sent all c → Brought (enqueue frame c)
  unfolding enqueue
  enqueue_open c h =
      if_cases Brought c.closed (λ shut. absurd (true_ne_false (sym shut ∙ h.0)))
        λ _.
          if_cases Brought (leb max_queued_frames (length c.outbox))
            (λ full.
              shuts sent (all ++ frame ∷ []) c h.0
                (rest_more sent all (frame ∷ []) (has_rest sent all c (inl h))))
            λ room.
              if_cases Brought (not c.writing)
                (λ idle.
                  write_next-IsQueue sent (all ++ frame ∷ []) queued h.0
                    (append_prefix sent c.outbox (frame ∷ []) all (
                      ap (λ t. sent ++ t)
                        (sym (idle_drop c.outbox (sym h.2 ∙ not-true c.writing idle)))
                      ∙ h.1))
                    (room_left c.outbox frame room))
                λ busy. quiet sent (all ++ frame ∷ []) queued (
                  inl (
                    h.0,
                    ap (λ t. sent ++ t)
                          (busy_drop c.outbox (frame ∷ []) (sym h.2 ∙ not-false c.writing busy))
                        ∙ append_prefix sent (drop 1 c.outbox) (frame ∷ []) all h.1,
                    not-false c.writing busy
                        ∙ busy_append c.outbox (frame ∷ []) (sym h.2 ∙ not-false c.writing busy),
                    room_left c.outbox frame room,
                  ))
    where
      queued : WsConnection
      queued = record c { outbox = c.outbox ++ frame ∷ [] }

  pub enqueue-IsQueue : (c : WsConnection) → IsQueue sent all c → Brought (enqueue frame c)
  unfolding enqueue
  enqueue-IsQueue c (inl h) = enqueue_open c h
  enqueue-IsQueue c (inr h) =
      if_cases Brought c.closed
        (λ shut.
          quiet sent (all ++ frame ∷ []) c (inr (h.0, h.1, rest_more sent all (frame ∷ []) h.2)))
        λ is_open. absurd (true_ne_false (sym h.0 ∙ is_open))
