-- ===== src/Ingest/Spsc/Fifo.antt =====
-- include/ironpulse/ingest/ring_buffer.hpp: what the queue promises, in every interleaving.
use ironpulse.Prelude.{
  ℕ, zero, suc, ◌+◌, ◌-◌, ◌%◌, ◌^◌, ◌<◌, ◌≤◌, ◌≡◌, ◌≢◌, refl, sym, ap, ap₂, subst, ◌∙◌, Bool, true,
  false, ◌==◌, ==_iff, leb, if◌then◌else◌, List, [], ◌∷◌, Option, none, some, map, length, take,
  drop, get_or, arith, dec_lt,
}
use ironpulse.Ingest.Spsc.{
  SpscRingBuffer, Producer, Consumer, Machine, Event, producer_step, destroy_loop, destroyed, place,
  make_buffer, start, reload_head, looks_full, advance_producer, step, run,
}
use ironpulse.Ingest.Spsc.Numbers.{
  get_elem?-append_lt, get_elem?-some, drop-some, drop-length, different, next_index,
}
use ironpulse.Ingest.Spsc.Invariant.{Inv, ConsumerAt}
use ironpulse.Ingest.Spsc.Moves.{reloaded, looks_full_eq}
use ironpulse.Ingest.Spsc.Sound.{made-IsSound, run-capacity}

full_test : (n capacity : ℕ) → n ≤ capacity → leb capacity n ≡ (n == capacity)
full_test n capacity h = ground arith

module _ {A : Type 0} where
  -- What was received is the first part of what was sent, in order; no more than the capacity is
  -- between the two; and no slot without an element was read.
  pub record IsFifo (capacity : ℕ) (m : Machine A) : Type 0 where
    pub order : take (length m.received) m.sent ≡ m.received
    pub bounded : length m.sent ≤ length m.received + capacity
    pub defined : m.consumer ≢ Consumer.undefined

  never_undefined :
      (c : Consumer A) (sent : List A) (done seen : ℕ)
      → ConsumerAt sent done seen c
      → c ≢ Consumer.undefined
  never_undefined c sent done seen at e = subst (ConsumerAt sent done seen) e at

  -- From the `j`-th element on, the loop gives the slots of those that were sent.
  destroy_loop_lem :
      (b : SpscRingBuffer A) (sent received : List A)
      → Inv b Producer.outside Consumer.outside sent received
      → (fuel j : ℕ) → length received ≤ j
      → j ≤ length sent
      → length sent ≤ j + fuel
      → destroy_loop b fuel (j % 2 ^ 64) ≡ map some (drop j sent)
  unfolding destroy_loop
  destroy_loop_lem b sent received i zero j from within enough = sym (
      ap (λ (n : ℕ). map some (drop n sent)) (omega (arith, within, enough))
      ∙ ap (map some) (drop-length sent))
  destroy_loop_lem b sent received i (suc fuel) j from within enough =
      elim (dec_lt j (length sent)) [
        | yes before ↦
            (let next = get_elem?-some sent j before in
              let rest =
                destroy_loop_lem b sent received i fuel (suc j) (omega (arith, from))
                  (omega (arith, before)) (omega (arith, enough)) in
              let more : (j % 2 ^ 64 == b.tail) ≡ false =
                ap (λ (t : ℕ). j % 2 ^ 64 == t) i.indices.tail_eq
                ∙ different j (length sent) before (
                    omega (
                      arith, from, i.indices.room, i.indices.seen_head_le,
                      i.indices.capacity_ok.half_le,
                    )) in
              let slot : get_or b.slots (place b (j % 2 ^ 64)) none ≡ some next.0 =
                ap (λ (t : ℕ). get_or b.slots t none) (i.indices.capacity_ok.place_eq j)
                ∙ i.window j from (omega (arith, before, i.indices.room, i.indices.seen_head_le))
                ∙ get_elem?-append_lt sent [] j before
                ∙ next.1 in
              rw more (
                ap₂ (λ (x : Option A) (xs : List (Option A)). x ∷ xs) slot
                  (ap (destroy_loop b fuel) (next_index j) ∙ rest)
                ∙ sym (ap (map some) (drop-some sent j next.0 next.1))))
        | no past ↦
            (let at_end : j ≡ length sent = omega (arith, within, past) in
              let done : (j % 2 ^ 64 == b.tail) ≡ true =
                (==_iff (j % 2 ^ 64) b.tail).1
                  (ap (λ (n : ℕ). n % 2 ^ 64) at_end ∙ sym i.indices.tail_eq) in
              rw done (
                sym (
                  ap (λ (n : ℕ). map some (drop n sent)) at_end
                  ∙ ap (map some) (drop-length sent))))
      ]

  producer_if :
      (t : Bool) (x y : Machine A)
      → (if t then x else y).producer ≡ (if t then x.producer else y.producer)
  producer_if true x y = refl
  producer_if false x y = refl

  refused :
      (item : A) (tail : ℕ) (m : Machine A)
      → Inv m.buffer (Producer.reloading item tail) m.consumer m.sent m.received
      → (reload_head item tail m).producer ≡ (
          if length m.sent - length m.received == m.buffer.capacity
          then Producer.outside
          else Producer.constructing item tail)
  unfolding reload_head reloaded
  refused item tail m i =
      producer_if (looks_full b tail) _ _
      ∙ ap (λ (t : Bool). if t then Producer.outside else Producer.constructing item tail) test
    where
      b : SpscRingBuffer A
      b = record m.buffer { head_cached = m.buffer.head }

      test : looks_full b tail ≡ (length m.sent - length m.received == m.buffer.capacity)
      test =
          ap (looks_full b) i.producer_ok
          ∙ looks_full_eq b m.sent m.received (reloaded m.buffer m.sent m.received i.indices)
          ∙ full_test (length m.sent - length m.received) m.buffer.capacity
              (omega (arith, i.indices.room, i.indices.seen_head_le))

  module _ (capacity : ℕ) (b : SpscRingBuffer A) (below : capacity < 2 ^ 64)
      (made : make_buffer capacity ≡ some b) where
    -- In every interleaving of the steps of one producer and one consumer on a buffer that the
    -- constructor made, the received elements are the first of those sent, in order, there are at
    -- most capacity others, and no slot is read that holds no element.
    pub run-IsFifo : (events : List (Event A)) → IsFifo b.capacity (run events (start b))
    run-IsFifo events =
        let i = made-IsSound capacity b below made events in
        record {
          order = i.indices.prefix_eq;
          bounded =
              omega (arith, i.indices.room, i.indices.seen_head_le, run-capacity events (start b));
          defined =
              never_undefined _ _ (length (run events (start b)).received) i.indices.seen_tail
                i.consumer_ok;
        }

    -- When a call of emplace reloads the head it returns false if just then the elements sent and not
    -- received are as many as the capacity, and goes on to construct otherwise.
    pub emplace_refusal :
        (events : List (Event A)) (item : A) (tail : ℕ)
        → (run events (start b)).producer ≡ Producer.reloading item tail
        → (step producer_step (run events (start b))).producer ≡ (
            if length (run events (start b)).sent - length (run events (start b)).received
              == b.capacity
            then Producer.outside
            else Producer.constructing item tail)
    unfolding step advance_producer
    emplace_refusal events item tail at =
        subst (λ (p : Producer A). (advance_producer p m).producer ≡ verdict m.buffer.capacity)
          (sym at) (refused item tail m i)
        ∙ ap verdict (run-capacity events (start b))
      where
        m : Machine A
        m = run events (start b)

        verdict : ℕ → Producer A
        verdict capacity =
            if length m.sent - length m.received == capacity
            then Producer.outside
            else Producer.constructing item tail

        i : Inv m.buffer (Producer.reloading item tail) m.consumer m.sent m.received
        i =
            subst (λ (p : Producer A). Inv m.buffer p m.consumer m.sent m.received) at
              (made-IsSound capacity b below made events)

    -- After every run that leaves both threads outside of their calls, the destructor destroys just the
    -- elements that were sent and not received, and reads no other slot.
    pub destroyed_lem :
        (events : List (Event A))
        → (run events (start b)).producer ≡ Producer.outside
        → (run events (start b)).consumer ≡ Consumer.outside
        → destroyed (run events (start b)).buffer
          ≡ map some (drop (length (run events (start b)).received) (run events (start b)).sent)
    unfolding destroyed
    destroyed_lem events p c =
        let i = made-IsSound capacity b below made events in
        let quiet : Inv m.buffer Producer.outside Consumer.outside m.sent m.received =
          subst (λ (q : Producer A). Inv m.buffer q Consumer.outside m.sent m.received) p
            (subst (λ (r : Consumer A). Inv m.buffer m.producer r m.sent m.received) c i) in
        ap (destroy_loop m.buffer m.buffer.capacity) i.indices.head_eq
        ∙ destroy_loop_lem m.buffer m.sent m.received quiet m.buffer.capacity (length m.received)
            (omega arith) (omega (arith, i.indices.received_le, i.indices.seen_tail_le))
            (omega (arith, i.indices.room, i.indices.seen_head_le))
      where
        m : Machine A
        m = run events (start b)
