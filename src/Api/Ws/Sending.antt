-- ===== src/Api/Ws/Sending.antt =====
-- src/api/ws_server.cpp: what a connection writes over all its handlers.
use mathlib.Core.Option.{some-injective, none-ne-some}
use ironpulse.Prelude.{
  ℕ, ◌≡◌, refl, sym, ap, subst, ◌∙◌, inl, List, [], ◌∷◌, ◌++◌, append_assoc, Option, none, some,
  arith,
}
use ironpulse.Api.Ws.{WsConnection, Output, opened, Event, step, join, then_run, run}
use ironpulse.Api.Ws.Queue.{
  writes, writes-append, offered, next_offers, offers, IsQueue, After, quiet,
}
use ironpulse.Api.Ws.Handlers.{silent, step-IsQueue}

module _ (events : List Event) where
  -- What a run does from every state, as far as it is known.
  abbrev RunIsQueue : Type 0
  RunIsQueue =
      (sent all : List (List ℕ)) (c : WsConnection) (r : WsConnection × List Output)
      → IsQueue sent all c
      → run events c ≡ some r
      → After sent (all ++ offers events c) r

  joined :
      RunIsQueue
      → (sent all brought : List (List ℕ)) (c : WsConnection) (first : List Output)
      → After sent (all ++ brought) (c, first)
      → (t : Option (WsConnection × List Output)) (r : WsConnection × List Output)
      → run events c ≡ t
      → join first t ≡ some r
      → After sent (all ++ (brought ++ offers events c)) r
  unfolding join
  joined rest sent all brought c first h none r e f = absurd (none-ne-some r f)
  joined rest sent all brought c first h (some (d, more)) r e f =
      subst (After sent (all ++ (brought ++ offers events c)))
        (some-injective (d, first ++ more) r f)
        (subst (λ t. IsQueue t (all ++ (brought ++ offers events c)) d) wrote
          (subst (λ t. IsQueue ((sent ++ writes first) ++ writes more) t d)
            (append_assoc all brought (offers events c))
            (rest (sent ++ writes first) (all ++ brought) c (d, more) h e)))
    where
      wrote : (sent ++ writes first) ++ writes more ≡ sent ++ writes (first ++ more)
      wrote =
          append_assoc sent (writes first) (writes more)
          ∙ ap (λ t. sent ++ t) (sym (writes-append first more))

  continues :
      RunIsQueue
      → (sent all : List (List ℕ)) (e : Event) (c : WsConnection) → IsQueue sent all c
      → (s : Option (WsConnection × List Output)) (r : WsConnection × List Output) → step e c ≡ s
      → then_run (run events) s ≡ some r
      → After sent (all ++ (offered e c ++ next_offers (offers events) s)) r
  unfolding then_run next_offers
  continues rest sent all e c h none r f g = absurd (none-ne-some r g)
  continues rest sent all e c h (some (d, first)) r f g =
      joined rest sent all (offered e c) d first (step-IsQueue sent all e c (d, first) h f)
        (run events d) r refl g

run-IsQueue : (events : List Event) → RunIsQueue events
unfolding run offers
run-IsQueue [] sent all c r h e =
    subst (After sent (all ++ [])) (some-injective (c, []) r e)
      (silent sent all (c, []) (quiet sent all c h))
run-IsQueue (e ∷ events) sent all c r h f =
    continues events (run-IsQueue events) sent all e c h (step e c) r refl f

-- In every run from a new connection: as long as it is open, the frames written and those that wait
-- are all the frames brought, in their order, with one write in flight when there are any and at most
-- 512 queued; once it is closed nothing waits, and what was written is the beginning of what was
-- brought.
pub opened-run :
    (events : List Event) (c : WsConnection) (outputs : List Output)
    → run events opened ≡ some (c, outputs)
    → IsQueue (writes outputs) (offers events opened) c
opened-run events c outputs e =
    run-IsQueue events [] [] opened (c, outputs) (inl (refl, refl, refl, omega arith)) e
