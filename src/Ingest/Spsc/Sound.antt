-- ===== src/Ingest/Spsc/Sound.antt =====
-- include/ironpulse/ingest/ring_buffer.hpp: every interleaving keeps the invariant.
use ironpulse.Prelude.{
  ℕ, zero, suc, ◌%◌, ◌^◌, ◌<◌, ◌≡◌, refl, sym, subst, ◌∙◌, ◌==◌, List, [], ◌∷◌, Option, none, some,
  replicate, get_or, arith, length-replicate, if_cases,
}
use ironpulse.Ingest.Spsc.{
  SpscRingBuffer, Producer, Consumer, Machine, Event, call_emplace, producer_step, call_pop,
  consumer_step, empty_buffer, make_buffer, start, begin_emplace, reload_head, construct_slot,
  store_tail, begin_pop, reload_tail, move_from, move_slot, store_head, advance_producer,
  advance_consumer, start_emplace, start_pop, step, run, looks_full, place,
}
use ironpulse.Ingest.Spsc.Capacity.{IsCapacity, make_buffer-IsCapacity}
use ironpulse.Ingest.Spsc.Invariant.{Inv, IsSound}
use ironpulse.Ingest.Spsc.Emplace.{
  begin_emplace-IsSound, reload_head-IsSound, construct_slot-IsSound, store_tail-IsSound,
}
use ironpulse.Ingest.Spsc.Pop.{
  begin_pop-IsSound, reload_tail-IsSound, move_slot-IsSound, store_head-IsSound,
}

module _ {A : Type 0} where
  -- Every slot of the new buffer is raw storage.
  empty_slot : (n i : ℕ) → get_or (replicate {A = Option A} n none) i none ≡ none
  empty_slot zero i = refl
  empty_slot (suc n) zero = refl
  empty_slot (suc n) (suc i) = empty_slot n i

  start-IsSound :
      (capacity : ℕ) → IsCapacity capacity → IsSound {A = A} (start (empty_buffer capacity))
  start-IsSound capacity k = record {
    indices = record {
      seen_head = 0;
      seen_tail = 0;
      capacity_ok = k;
      slots_eq = length-replicate capacity none;
      tail_eq = refl;
      head_eq = refl;
      head_cached_eq = refl;
      tail_cached_eq = refl;
      seen_head_le = omega arith;
      room = omega arith;
      received_le = omega arith;
      seen_tail_le = omega arith;
      prefix_eq = refl;
    };
    producer_ok = tt;
    consumer_ok = tt;
    window = λ n from below. empty_slot capacity (n % capacity);
  }

  module _ (b : SpscRingBuffer A) (sent received : List A) where
    producer-IsSound :
        (p : Producer A) (c : Consumer A)
        → Inv b p c sent received
        → IsSound (
            advance_producer p
              record { buffer = b; producer = p; consumer = c; sent = sent; received = received })
    unfolding advance_producer
    producer-IsSound Producer.outside c i = i
    producer-IsSound (Producer.reloading item tail) c i =
        reload_head-IsSound item b c sent received tail i
    producer-IsSound (Producer.constructing item tail) c i =
        construct_slot-IsSound item b c sent received tail i
    producer-IsSound (Producer.publishing item tail) c i =
        store_tail-IsSound item b c sent received tail i

    consumer-IsSound :
        (p : Producer A) (c : Consumer A)
        → Inv b p c sent received
        → IsSound (
            advance_consumer c
              record { buffer = b; producer = p; consumer = c; sent = sent; received = received })
    unfolding advance_consumer
    consumer-IsSound p Consumer.outside i = i
    consumer-IsSound p (Consumer.reloading head) i = reload_tail-IsSound b p sent received head i
    consumer-IsSound p (Consumer.moving head) i = move_slot-IsSound b p sent received head i
    consumer-IsSound p (Consumer.vacating item head) i =
        store_head-IsSound b p sent received item head i
    consumer-IsSound p Consumer.undefined i = i

    emplace-IsSound :
        (item : A) (p : Producer A) (c : Consumer A)
        → Inv b p c sent received
        → IsSound (
            start_emplace item p
              record { buffer = b; producer = p; consumer = c; sent = sent; received = received })
    unfolding start_emplace
    emplace-IsSound item Producer.outside c i = begin_emplace-IsSound item b c sent received i
    emplace-IsSound item (Producer.reloading x tail) c i = i
    emplace-IsSound item (Producer.constructing x tail) c i = i
    emplace-IsSound item (Producer.publishing x tail) c i = i

    pop-IsSound :
        (p : Producer A) (c : Consumer A)
        → Inv b p c sent received
        → IsSound (
            start_pop c
              record { buffer = b; producer = p; consumer = c; sent = sent; received = received })
    unfolding start_pop
    pop-IsSound p Consumer.outside i = begin_pop-IsSound b p sent received i
    pop-IsSound p (Consumer.reloading head) i = i
    pop-IsSound p (Consumer.moving head) i = i
    pop-IsSound p (Consumer.vacating item head) i = i
    pop-IsSound p Consumer.undefined i = i

  step-IsSound : (e : Event A) (m : Machine A) → IsSound m → IsSound (step e m)
  unfolding step
  step-IsSound (call_emplace item) m i =
      emplace-IsSound m.buffer m.sent m.received item m.producer m.consumer i
  step-IsSound producer_step m i =
      producer-IsSound m.buffer m.sent m.received m.producer m.consumer i
  step-IsSound call_pop m i = pop-IsSound m.buffer m.sent m.received m.producer m.consumer i
  step-IsSound consumer_step m i =
      consumer-IsSound m.buffer m.sent m.received m.producer m.consumer i

  run-IsSound : (events : List (Event A)) (m : Machine A) → IsSound m → IsSound (run events m)
  unfolding run
  run-IsSound [] m i = i
  run-IsSound (e ∷ events) m i = run-IsSound events (step e m) (step-IsSound e m i)

  pub made-IsSound :
      (capacity : ℕ) (b : SpscRingBuffer A)
      → capacity < 2 ^ 64
      → make_buffer capacity ≡ some b
      → (events : List (Event A)) → IsSound (run events (start b))
  made-IsSound capacity b below made events =
      let c = make_buffer-IsCapacity capacity b below made in
      subst (λ (x : SpscRingBuffer A). IsSound (run events (start x))) (sym c.1)
        (run-IsSound events (start (empty_buffer capacity)) (start-IsSound capacity c.0))

  -- No step changes the capacity.
  producer-capacity :
      (p : Producer A) (m : Machine A) → (advance_producer p m).buffer.capacity ≡ m.buffer.capacity
  unfolding advance_producer reload_head construct_slot store_tail
  producer-capacity Producer.outside m = refl
  producer-capacity (Producer.reloading item tail) m =
      if_cases (λ (r : Machine A). r.buffer.capacity ≡ m.buffer.capacity)
        (looks_full (record m.buffer { head_cached = m.buffer.head }) tail) (λ e. refl) (λ e. refl)
  producer-capacity (Producer.constructing item tail) m = refl
  producer-capacity (Producer.publishing item tail) m = refl

  move_from-capacity :
      (slot : Option A) (head : ℕ) (m : Machine A)
      → (move_from slot head m).buffer.capacity ≡ m.buffer.capacity
  unfolding move_from
  move_from-capacity none head m = refl
  move_from-capacity (some item) head m = refl

  consumer-capacity :
      (c : Consumer A) (m : Machine A) → (advance_consumer c m).buffer.capacity ≡ m.buffer.capacity
  unfolding advance_consumer reload_tail move_slot store_head
  consumer-capacity Consumer.outside m = refl
  consumer-capacity (Consumer.reloading head) m =
      if_cases (λ (r : Machine A). r.buffer.capacity ≡ m.buffer.capacity) (head == m.buffer.tail)
        (λ e. refl) (λ e. refl)
  consumer-capacity (Consumer.moving head) m =
      move_from-capacity (get_or m.buffer.slots (place m.buffer head) none) head m
  consumer-capacity (Consumer.vacating item head) m = refl
  consumer-capacity Consumer.undefined m = refl

  emplace-capacity :
      (item : A) (p : Producer A) (m : Machine A)
      → (start_emplace item p m).buffer.capacity ≡ m.buffer.capacity
  unfolding start_emplace begin_emplace
  emplace-capacity item Producer.outside m =
      if_cases (λ (r : Machine A). r.buffer.capacity ≡ m.buffer.capacity)
        (looks_full m.buffer m.buffer.tail) (λ e. refl) (λ e. refl)
  emplace-capacity item (Producer.reloading x tail) m = refl
  emplace-capacity item (Producer.constructing x tail) m = refl
  emplace-capacity item (Producer.publishing x tail) m = refl

  pop-capacity :
      (c : Consumer A) (m : Machine A) → (start_pop c m).buffer.capacity ≡ m.buffer.capacity
  unfolding start_pop begin_pop
  pop-capacity Consumer.outside m =
      if_cases (λ (r : Machine A). r.buffer.capacity ≡ m.buffer.capacity)
        (m.buffer.head == m.buffer.tail_cached) (λ e. refl) (λ e. refl)
  pop-capacity (Consumer.reloading head) m = refl
  pop-capacity (Consumer.moving head) m = refl
  pop-capacity (Consumer.vacating item head) m = refl
  pop-capacity Consumer.undefined m = refl

  step-capacity : (e : Event A) (m : Machine A) → (step e m).buffer.capacity ≡ m.buffer.capacity
  unfolding step
  step-capacity (call_emplace item) m = emplace-capacity item m.producer m
  step-capacity producer_step m = producer-capacity m.producer m
  step-capacity call_pop m = pop-capacity m.consumer m
  step-capacity consumer_step m = consumer-capacity m.consumer m

  pub run-capacity :
      (events : List (Event A)) (m : Machine A) → (run events m).buffer.capacity ≡ m.buffer.capacity
  unfolding run
  run-capacity [] m = refl
  run-capacity (e ∷ events) m = run-capacity events (step e m) ∙ step-capacity e m
