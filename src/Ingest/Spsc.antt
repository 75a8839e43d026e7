-- ===== src/Ingest/Spsc.antt =====
-- include/ironpulse/ingest/ring_buffer.hpp: the queue between one producer and one consumer thread.
-- A thread's place in `emplace` or `pop` is data, and each step makes one access that the other
-- thread can see: a load, a store, or the use of a slot.
pub mod Capacity
pub mod Numbers
pub mod Invariant
pub mod Moves
pub mod Emplace
pub mod Pop
pub mod Sound
pub mod Fifo
pub mod WaitFree
mod Examples
use ironpulse.Prelude.{
  ℕ, zero, suc, ◌+◌, ◌-◌, ◌%◌, ◌^◌, Bool, true, false, not, ltb, leb, ◌==◌, ◌||◌, if◌then◌else◌,
  List, [], ◌∷◌, ◌++◌, Option, none, some, replicate, set, get_or,
}
use ironpulse.Prelude.Bits.{bit_and}

-- A slot holds an element or is raw storage.
pub record SpscRingBuffer (A : Type 0) : Type 0 where
  pub capacity : ℕ
  pub slots : List (Option A)
  pub tail : ℕ
  pub head_cached : ℕ
  pub head : ℕ
  pub tail_cached : ℕ

-- The difference of two numbers in `size_t`.
abbrev pub minus : ℕ → ℕ → ℕ
minus a b = (a + 2 ^ 64 - b) % 2 ^ 64

module _ {A : Type 0} where
  -- What the constructor makes.
  abbrev pub empty_buffer : ℕ → SpscRingBuffer A
  empty_buffer capacity = record {
    capacity = capacity;
    slots = replicate capacity none;
    tail = 0;
    head_cached = 0;
    head = 0;
    tail_cached = 0;
  }

  -- It throws for any capacity that is less than 2 or no power of two.
  unfoldable pub make_buffer : ℕ → Option (SpscRingBuffer A)
  make_buffer capacity =
      if ltb capacity 2 || not (bit_and 64 capacity (capacity - 1) == 0)
      then none
      else some (empty_buffer capacity)

  abbrev pub mask : SpscRingBuffer A → ℕ
  mask b = b.capacity - 1

  -- The slot of an index.
  abbrev pub place : SpscRingBuffer A → ℕ → ℕ
  place b index = bit_and 64 index (mask b)

  abbrev pub looks_full : SpscRingBuffer A → ℕ → Bool
  looks_full b tail = leb b.capacity (minus tail b.head_cached)

  unfoldable pub size : SpscRingBuffer A → ℕ
  size b = minus b.tail b.head

  -- The loop of the destructor, which gives the slots whose elements it destroys; no thread is running
  -- then. There are at most as many as the capacity, so that is fuel enough.
  unfoldable pub destroy_loop : SpscRingBuffer A → ℕ → ℕ → List (Option A)
  destroy_loop b zero head = []
  destroy_loop b (suc fuel) head =
      let rest = destroy_loop b fuel ((head + 1) % 2 ^ 64) in
      if head == b.tail then [] else get_or b.slots (place b head) none ∷ rest

  unfoldable pub destroyed : SpscRingBuffer A → List (Option A)
  destroyed b = destroy_loop b b.capacity b.head

-- Where the producer is: outside of `emplace`, or before the next access in it.
pub data Producer (A : Type 0) : Type 0 where
  outside : Producer A
  reloading : A → ℕ → Producer A
  constructing : A → ℕ → Producer A
  publishing : A → ℕ → Producer A

-- Where the consumer is; `undefined` after it has read a slot that holds no element.
pub data Consumer (A : Type 0) : Type 0 where
  outside : Consumer A
  reloading : ℕ → Consumer A
  moving : ℕ → Consumer A
  vacating : A → ℕ → Consumer A
  undefined : Consumer A

-- The two threads, the arguments of the calls of `emplace` that returned true, and the elements
-- that calls of `pop` returned, both in their order.
pub record Machine (A : Type 0) : Type 0 where
  pub buffer : SpscRingBuffer A
  pub producer : Producer A
  pub consumer : Consumer A
  pub sent : List A
  pub received : List A

pub data Event (A : Type 0) : Type 0 where
  call_emplace : A → Event A
  producer_step : Event A
  call_pop : Event A
  consumer_step : Event A

module _ {A : Type 0} where
  abbrev pub start : SpscRingBuffer A → Machine A
  start b = record {
    buffer = b;
    producer = Producer.outside;
    consumer = Consumer.outside;
    sent = [];
    received = [];
  }

  -- `emplace` up to its first test: it reads only what the producer writes.
  unfoldable pub begin_emplace : A → Machine A → Machine A
  begin_emplace item m =
      let tail = m.buffer.tail in
      if looks_full m.buffer tail
      then record m { producer = Producer.reloading item tail }
      else record m { producer = Producer.constructing item tail }

  unfoldable pub reload_head : A → ℕ → Machine A → Machine A
  reload_head item tail m =
      let b = record m.buffer { head_cached = m.buffer.head } in
      if looks_full b tail
      then record m { buffer = b; producer = Producer.outside }
      else record m { buffer = b; producer = Producer.constructing item tail }

  unfoldable pub construct_slot : A → ℕ → Machine A → Machine A
  construct_slot item tail m = record m {
    buffer = record m.buffer { slots = set m.buffer.slots (place m.buffer tail) (some item) };
    producer = Producer.publishing item tail;
  }

  unfoldable pub store_tail : A → ℕ → Machine A → Machine A
  store_tail item tail m = record m {
    buffer = record m.buffer { tail = (tail + 1) % 2 ^ 64 };
    producer = Producer.outside;
    sent = m.sent ++ (item ∷ []);
  }

  -- `pop` up to its first test.
  unfoldable pub begin_pop : Machine A → Machine A
  begin_pop m =
      let head = m.buffer.head in
      if head == m.buffer.tail_cached
      then record m { consumer = Consumer.reloading head }
      else record m { consumer = Consumer.moving head }

  unfoldable pub reload_tail : ℕ → Machine A → Machine A
  reload_tail head m =
      let b = record m.buffer { tail_cached = m.buffer.tail } in
      if head == b.tail_cached
      then record m { buffer = b; consumer = Consumer.outside }
      else record m { buffer = b; consumer = Consumer.moving head }

  -- The element is moved out and destroyed, from the slot that holds it.
  unfoldable pub move_from : Option A → ℕ → Machine A → Machine A
  move_from none head m = record m { consumer = Consumer.undefined }
  move_from (some item) head m = record m {
    buffer = record m.buffer { slots = set m.buffer.slots (place m.buffer head) none };
    consumer = Consumer.vacating item head;
  }

  unfoldable pub move_slot : ℕ → Machine A → Machine A
  move_slot head m = move_from (get_or m.buffer.slots (place m.buffer head) none) head m

  unfoldable pub store_head : A → ℕ → Machine A → Machine A
  store_head item head m = record m {
    buffer = record m.buffer { head = (head + 1) % 2 ^ 64 };
    consumer = Consumer.outside;
    received = m.received ++ (item ∷ []);
  }

  -- A thread in a call goes on; one outside of all calls has nothing to do.
  unfoldable pub advance_producer : Producer A → Machine A → Machine A
  advance_producer outside m = m
  advance_producer (reloading item tail) m = reload_head item tail m
  advance_producer (constructing item tail) m = construct_slot item tail m
  advance_producer (publishing item tail) m = store_tail item tail m

  unfoldable pub advance_consumer : Consumer A → Machine A → Machine A
  advance_consumer outside m = m
  advance_consumer (reloading head) m = reload_tail head m
  advance_consumer (moving head) m = move_slot head m
  advance_consumer (vacating item head) m = store_head item head m
  advance_consumer undefined m = m

  -- A thread makes one call at a time.
  unfoldable pub start_emplace : A → Producer A → Machine A → Machine A
  start_emplace item outside m = begin_emplace item m
  start_emplace item busy m = m

  unfoldable pub start_pop : Consumer A → Machine A → Machine A
  start_pop outside m = begin_pop m
  start_pop busy m = m

  unfoldable pub step : Event A → Machine A → Machine A
  step (call_emplace item) m = start_emplace item m.producer m
  step producer_step m = advance_producer m.producer m
  step call_pop m = start_pop m.consumer m
  step consumer_step m = advance_consumer m.consumer m

  unfoldable pub run : List (Event A) → Machine A → Machine A
  run [] m = m
  run (e ∷ events) m = run events (step e m)
