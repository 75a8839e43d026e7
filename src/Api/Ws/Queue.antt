-- ===== src/Api/Ws/Queue.antt =====
-- src/api/ws_server.cpp: the queue of frames that go out, in `enqueue`, `write_next` and `close`.
use mathlib.Core.Option.{some-injective, none-ne-some}
use ironpulse.Prelude.{
  ℕ, ◌≤◌, min, ◌≡◌, refl, sym, ap, subst, ◌∙◌, ◌⊎◌, inl, inr, Bool, true, false, ◌==◌,
  if◌then◌else◌, if_cases, true_ne_false, List, [], ◌∷◌, ◌++◌, append-nil, append_assoc, Option,
  none, some, length, take, drop, arith,
}
use ironpulse.Api.Ws.{
  op_close, op_ping, op_pong, make_frame, Reading, mask_key, payload, WsConnection, Output, write,
  on_closed, close, write_front, write_next, pop_front, on_written, unmask, Event, post, received,
  step, max_queued_frames,
}

-- The frames whose writes began.
unfoldable pub writes : List Output → List (List ℕ)
writes [] = []
writes (write frame ∷ outputs) = frame ∷ writes outputs
writes (on_closed ∷ outputs) = writes outputs

pub writes-append : (a b : List Output) → writes (a ++ b) ≡ writes a ++ writes b
unfolding writes
writes-append [] b = refl
writes-append (write frame ∷ a) b = ap (λ t. frame ∷ t) (writes-append a b)
writes-append (on_closed ∷ a) b = writes-append a b

-- The pong that a client's frame asks for.
unfoldable pub pongs : List ℕ → ℕ → List (List ℕ)
pongs bytes opcode =
    if opcode == op_close
    then []
    else if opcode == op_ping
    then make_frame op_pong (take (min (length bytes) 125) bytes) ∷ []
    else []

unfoldable pub answered : Reading → List ℕ → List (List ℕ)
answered (mask_key opcode len) bytes = if len == 0 then pongs [] opcode else []
answered (payload opcode len key) bytes = pongs (unmask 0 key bytes) opcode
answered r bytes = []

-- The frames that an event brings: a posted one, or a pong.
unfoldable pub offered : Event → WsConnection → List (List ℕ)
offered (post frame) c = frame ∷ []
offered (received bytes) c = answered c.reading bytes
offered e c = []

unfoldable pub next_offers :
    (WsConnection → List (List ℕ)) → Option (WsConnection × List Output) → List (List ℕ)
next_offers rest none = []
next_offers rest (some (c, outputs)) = rest c

unfoldable pub offers : List Event → WsConnection → List (List ℕ)
offers [] c = []
offers (e ∷ events) c = offered e c ++ next_offers (offers events) (step e c)

-- Whether there is one.
abbrev pub has_frame : List (List ℕ) → Bool
has_frame [] = false
has_frame (frame ∷ frames) = true

-- What was written and what was brought, of an open connection: the first queued frame is in flight,
-- and the others wait for it, at most 512 in all.
abbrev pub IsServed : List (List ℕ) → List (List ℕ) → WsConnection → Type 0
IsServed sent all c =
    (c.closed ≡ false)
    × (sent ++ drop 1 c.outbox ≡ all)
    × (c.writing ≡ has_frame c.outbox)
    × (length c.outbox ≤ max_queued_frames)

-- Of a closed one: nothing waits, and what was written came first.
abbrev pub IsClosed : List (List ℕ) → List (List ℕ) → WsConnection → Type 0
IsClosed sent all c =
    (c.closed ≡ true) × (c.outbox ≡ []) × ((rest : List (List ℕ)) × (sent ++ rest ≡ all))

abbrev pub IsQueue : List (List ℕ) → List (List ℕ) → WsConnection → Type 0
IsQueue sent all c = IsServed sent all c ⊎ IsClosed sent all c

-- After what a handler wrote.
abbrev pub After : List (List ℕ) → List (List ℕ) → WsConnection × List Output → Type 0
After sent all r = IsQueue (sent ++ writes r.1) all r.0

pub append_prefix :
    (sent rest more all : List (List ℕ)) → sent ++ rest ≡ all → sent ++ (rest ++ more) ≡ all ++ more
append_prefix sent rest more all e = sym (append_assoc sent rest more) ∙ ap (λ t. t ++ more) e

pub idle_drop : (frames : List (List ℕ)) → has_frame frames ≡ false → drop 1 frames ≡ frames
idle_drop [] e = refl
idle_drop (frame ∷ frames) e = absurd (true_ne_false e)

pub busy_drop :
    (frames more : List (List ℕ))
    → has_frame frames ≡ true
    → drop 1 (frames ++ more) ≡ drop 1 frames ++ more
busy_drop [] more e = absurd (true_ne_false (sym e))
busy_drop (frame ∷ frames) more e = refl

pub busy_append :
    (frames more : List (List ℕ)) → has_frame frames ≡ true → true ≡ has_frame (frames ++ more)
busy_append [] more e = absurd (true_ne_false (sym e))
busy_append (frame ∷ frames) more e = refl

abbrev HasRest : List (List ℕ) → List (List ℕ) → Type 0
HasRest sent all = (rest : List (List ℕ)) × (sent ++ rest ≡ all)

pub has_rest : (sent all : List (List ℕ)) (c : WsConnection) → IsQueue sent all c → HasRest sent all
has_rest sent all c (inl h) = (drop 1 c.outbox, h.1)
has_rest sent all c (inr h) = h.2

pub rest_more : (sent all more : List (List ℕ)) → HasRest sent all → HasRest sent (all ++ more)
rest_more sent all more h = (h.0 ++ more, append_prefix sent h.0 more all h.1)

pub shut_pop : (frames : List (List ℕ)) (c : WsConnection) → frames ≡ [] → pop_front frames c ≡ none
unfolding pop_front
shut_pop frames c e = ap (λ t. pop_front t c) e

module _ (sent all : List (List ℕ)) where
  pub quiet : (c : WsConnection) → IsQueue sent all c → After sent all (c, [])
  unfolding writes
  quiet c h = subst (λ t. IsQueue t all c) (sym (append-nil sent)) h

  pub close-IsQueue : (c : WsConnection) → IsQueue sent all c → After sent all (close c)
  unfolding close writes
  close-IsQueue c h =
      if_cases (After sent all) c.closed (λ shut. quiet c h)
        λ is_open.
          inr
            (refl, refl, subst (λ t. HasRest t all) (sym (append-nil sent)) (has_rest sent all c h))

  pub shuts : (c : WsConnection) → c.closed ≡ false → HasRest sent all → After sent all (close c)
  unfolding close writes
  shuts c is_open h =
      if_cases (After sent all) c.closed (λ shut. absurd (true_ne_false (sym shut ∙ is_open)))
        λ _. inr (refl, refl, subst (λ t. HasRest t all) (sym (append-nil sent)) h)

  write_front-IsQueue :
      (frames : List (List ℕ)) (c : WsConnection)
      → c.closed ≡ false
      → c.outbox ≡ frames
      → sent ++ frames ≡ all
      → length frames ≤ max_queued_frames
      → After sent all (write_front frames c)
  unfolding write_front writes
  write_front-IsQueue [] c is_open e h small = inl (
    is_open,
    ap (λ t. (sent ++ []) ++ drop 1 t) e ∙ append-nil (sent ++ []) ∙ h,
    ap has_frame (sym e),
    subst (λ t. length t ≤ max_queued_frames) (sym e) small,
  )
  write_front-IsQueue (frame ∷ frames) c is_open e h small = inl (
    is_open,
    ap (λ t. (sent ++ frame ∷ []) ++ drop 1 t) e ∙ append_assoc sent (frame ∷ []) frames ∙ h,
    ap has_frame (sym e),
    subst (λ t. length t ≤ max_queued_frames) (sym e) small,
  )

  pub write_next-IsQueue :
      (c : WsConnection)
      → c.closed ≡ false
      → sent ++ c.outbox ≡ all
      → length c.outbox ≤ max_queued_frames
      → After sent all (write_next c)
  unfolding write_next
  write_next-IsQueue c is_open h small =
      if_cases (After sent all) c.closed (λ shut. absurd (true_ne_false (sym shut ∙ is_open)))
        λ _. write_front-IsQueue c.outbox c is_open refl h small

  pop_front-IsQueue :
      (frames : List (List ℕ)) (c : WsConnection) (r : WsConnection × List Output)
      → c.closed ≡ false
      → sent ++ drop 1 frames ≡ all
      → length frames ≤ max_queued_frames
      → pop_front frames c ≡ some r
      → After sent all r
  unfolding pop_front
  pop_front-IsQueue [] c r is_open h small e = absurd (none-ne-some r e)
  pop_front-IsQueue (frame ∷ frames) c r is_open h small e =
      subst (After sent all) (some-injective _ r e)
        (write_next-IsQueue (record c { outbox = frames }) is_open h (omega (arith, small)))

  pub on_written-IsQueue :
      (ok : Bool) (c : WsConnection) (r : WsConnection × List Output)
      → IsQueue sent all c
      → on_written ok c ≡ some r
      → After sent all r
  unfolding on_written
  on_written-IsQueue false c r h e =
      subst (After sent all) (some-injective _ r e) (close-IsQueue c h)
  on_written-IsQueue true c r (inl h) e = pop_front-IsQueue c.outbox c r h.0 h.1 h.3 e
  on_written-IsQueue true c r (inr h) e =
      absurd (none-ne-some r (sym (shut_pop c.outbox c h.1) ∙ e))
