-- ===== src/Ingest/Spsc/Examples.antt =====
-- Runs of the queue under a schedule, and instances of its theorems.
use ironpulse.Prelude.{
  ℕ, ◌-◌, ◌≡◌, refl, ◌==◌, if◌then◌else◌, List, [], ◌∷◌, ◌++◌, Option, none, some, map, length,
  drop, arith,
}
use ironpulse.Prelude.Bits.{bit_and}
use ironpulse.Ingest.Spsc.{
  SpscRingBuffer, Producer, Consumer, Event, call_emplace, producer_step, call_pop, consumer_step,
  empty_buffer, make_buffer, start, begin_emplace, reload_head, construct_slot, store_tail,
  begin_pop, reload_tail, move_from, move_slot, store_head, advance_producer, advance_consumer,
  start_emplace, start_pop, step, run, destroyed,
}
use ironpulse.Ingest.Spsc.Fifo.{IsFifo, run-IsFifo, emplace_refusal, destroyed_lem}
use ironpulse.Ingest.Spsc.WaitFree.{emplace_ends}

abbrev small : SpscRingBuffer ℕ
small = empty_buffer 2

made : make_buffer 2 ≡ some small
unfolding make_buffer bit_and
made = refl

refused_capacity : ◌≡◌ {A = Option (SpscRingBuffer ℕ)} (make_buffer 6) none
unfolding make_buffer bit_and
refused_capacity = refl

-- Two elements sent; the consumer in the middle of taking the first; a third refused at its test.
abbrev two_sent : List (Event ℕ)
two_sent =
    call_emplace 7
    ∷ producer_step
    ∷ call_pop
    ∷ producer_step
    ∷ consumer_step
    ∷ call_emplace 8
    ∷ producer_step
    ∷ producer_step
    ∷ consumer_step
    ∷ call_emplace 9
    ∷ []

at_test : (run two_sent (start small)).producer ≡ Producer.reloading 9 2
unfolding run step start_emplace begin_emplace start_pop begin_pop advance_producer advance_consumer
    reload_head construct_slot store_tail reload_tail move_slot move_from store_head bit_and
at_test = refl

run-IsFifo_example : IsFifo 2 (run two_sent (start small))
run-IsFifo_example = run-IsFifo 2 small (omega arith) made two_sent

emplace_refusal_example : (step producer_step (run two_sent (start small))).producer ≡ (
    if length (run two_sent (start small)).sent - length (run two_sent (start small)).received == 2
    then Producer.outside
    else Producer.constructing 9 2)
emplace_refusal_example = emplace_refusal 2 small (omega arith) made two_sent 9 2 at_test

abbrev one_taken : List (Event ℕ)
one_taken = two_sent ++ (producer_step ∷ consumer_step ∷ [])

producer_quiet : (run one_taken (start small)).producer ≡ Producer.outside
unfolding run step start_emplace begin_emplace start_pop begin_pop advance_producer advance_consumer
    reload_head construct_slot store_tail reload_tail move_slot move_from store_head bit_and
producer_quiet = refl

consumer_quiet : (run one_taken (start small)).consumer ≡ Consumer.outside
unfolding run step start_emplace begin_emplace start_pop begin_pop advance_producer advance_consumer
    reload_head construct_slot store_tail reload_tail move_slot move_from store_head bit_and
consumer_quiet = refl

destroyed_lem_example :
    destroyed (run one_taken (start small)).buffer
    ≡ map some
        (drop (length (run one_taken (start small)).received) (run one_taken (start small)).sent)
destroyed_lem_example =
    destroyed_lem 2 small (omega arith) made one_taken producer_quiet consumer_quiet

emplace_ends_example :
    (run
      (producer_step ∷ call_pop ∷ producer_step ∷ consumer_step ∷ producer_step ∷ [])
      (run two_sent (start small))).producer
    ≡ Producer.outside
emplace_ends_example =
    emplace_ends (producer_step ∷ call_pop ∷ producer_step ∷ consumer_step ∷ producer_step ∷ [])
      (run two_sent (start small)) (tt, (tt, (tt, (tt, (tt, tt))))) (omega arith)
