-- ===== src/Ingest/Spsc/WaitFree.antt =====
-- include/ironpulse/ingest/ring_buffer.hpp: no call waits for the other thread.
use ironpulse.Prelude.{
  ℕ, ◌-◌, ◌≤◌, ◌≡◌, refl, ap, Bool, true, false, if_cases, List, [], ◌∷◌, length, keep, All, arith,
  Option, none, some, get_or, ◌==◌,
}
use ironpulse.Ingest.Spsc.{
  Producer, Consumer, Machine, Event, call_emplace, producer_step, call_pop, consumer_step,
  looks_full, place, begin_pop, reload_head, construct_slot, store_tail, reload_tail, move_from,
  move_slot, store_head, advance_producer, advance_consumer, start_pop, step, run,
}

module _ {A : Type 0} where
  abbrev pub is_producer_step : Event A → Bool
  is_producer_step producer_step = true
  is_producer_step e = false

  abbrev pub IsNoEmplace : Event A → Type 0
  IsNoEmplace (call_emplace item) = ⊥
  IsNoEmplace e = Unit

  -- The steps that a call of `emplace` has left at most.
  left : Producer A → ℕ
  left Producer.outside = 0
  left (Producer.publishing item tail) = 1
  left (Producer.constructing item tail) = 2
  left (Producer.reloading item tail) = 3

  left-advance :
      (p : Producer A) (m : Machine A)
      → m.producer ≡ p
      → left (advance_producer p m).producer ≤ left p - 1
  unfolding advance_producer reload_head construct_slot store_tail left
  left-advance Producer.outside m e = rw e (omega arith)
  left-advance (Producer.reloading item tail) m e =
      if_cases (λ (r : Machine A). left r.producer ≤ 2)
        (looks_full (record m.buffer { head_cached = m.buffer.head }) tail) (λ full. omega arith)
        (λ free. omega arith)
  left-advance (Producer.constructing item tail) m e = omega arith
  left-advance (Producer.publishing item tail) m e = omega arith

  -- The consumer does not move the producer.
  move_from-producer :
      (slot : Option A) (head : ℕ) (m : Machine A) → (move_from slot head m).producer ≡ m.producer
  unfolding move_from
  move_from-producer none head m = refl
  move_from-producer (some item) head m = refl

  consumer-producer :
      (c : Consumer A) (m : Machine A) → (advance_consumer c m).producer ≡ m.producer
  unfolding advance_consumer reload_tail move_slot store_head
  consumer-producer Consumer.outside m = refl
  consumer-producer (Consumer.reloading head) m =
      if_cases (λ (r : Machine A). r.producer ≡ m.producer) (head == m.buffer.tail) (λ e. refl)
        (λ e. refl)
  consumer-producer (Consumer.moving head) m =
      move_from-producer (get_or m.buffer.slots (place m.buffer head) none) head m
  consumer-producer (Consumer.vacating item head) m = refl
  consumer-producer Consumer.undefined m = refl

  pop-producer : (c : Consumer A) (m : Machine A) → (start_pop c m).producer ≡ m.producer
  unfolding start_pop begin_pop
  pop-producer Consumer.outside m =
      if_cases (λ (r : Machine A). r.producer ≡ m.producer) (m.buffer.head == m.buffer.tail_cached)
        (λ e. refl) (λ e. refl)
  pop-producer (Consumer.reloading head) m = refl
  pop-producer (Consumer.moving head) m = refl
  pop-producer (Consumer.vacating item head) m = refl
  pop-producer Consumer.undefined m = refl

  none_left : (p : Producer A) → left p ≡ 0 → p ≡ Producer.outside
  unfolding left
  none_left Producer.outside e = refl
  none_left (Producer.reloading item tail) e = absurd (omega (arith, e))
  none_left (Producer.constructing item tail) e = absurd (omega (arith, e))
  none_left (Producer.publishing item tail) e = absurd (omega (arith, e))

  left_le : (p : Producer A) → left p ≤ 3
  unfolding left
  left_le Producer.outside = omega arith
  left_le (Producer.reloading item tail) = omega arith
  left_le (Producer.constructing item tail) = omega arith
  left_le (Producer.publishing item tail) = omega arith

  enough_steps :
      (events : List (Event A)) (m : Machine A)
      → All IsNoEmplace events
      → left m.producer ≤ length (keep is_producer_step events)
      → (run events m).producer ≡ Producer.outside
  unfolding run step
  enough_steps [] m none_begins h = none_left m.producer (omega (arith, h))
  enough_steps (call_emplace item ∷ events) m none_begins h = absurd none_begins.0
  enough_steps (producer_step ∷ events) m none_begins h =
      enough_steps events (advance_producer m.producer m) none_begins.1
        (omega (arith, left-advance m.producer m refl, h))
  enough_steps (call_pop ∷ events) m none_begins h =
      enough_steps events (start_pop m.consumer m) none_begins.1
        (omega (arith, ap left (pop-producer m.consumer m), h))
  enough_steps (consumer_step ∷ events) m none_begins h =
      enough_steps events (advance_consumer m.consumer m) none_begins.1
        (omega (arith, ap left (consumer-producer m.consumer m), h))

  -- Wherever the producer is, three steps of it end its call, whatever the consumer does between
  -- them, if it begins no other.
  pub emplace_ends :
      (events : List (Event A)) (m : Machine A)
      → All IsNoEmplace events
      → 3 ≤ length (keep is_producer_step events)
      → (run events m).producer ≡ Producer.outside
  emplace_ends events m none_begins h =
      enough_steps events m none_begins (omega (arith, left_le m.producer, h))
