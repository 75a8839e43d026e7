-- ===== src/Ingest/Spsc/Invariant.antt =====
-- include/ironpulse/ingest/ring_buffer.hpp: what holds between any two steps of the two threads.
use ironpulse.Prelude.{
  ℕ, ◌+◌, ◌%◌, ◌^◌, ◌<◌, ◌≤◌, ◌≡◌, Bool, false, ◌==◌, if◌then◌else◌, List, [], ◌∷◌, ◌++◌, Option,
  none, some, length, take, get_or, get_elem?,
}
use ironpulse.Ingest.Spsc.{SpscRingBuffer, Producer, Consumer, Machine}
use ironpulse.Ingest.Spsc.Capacity.{IsCapacity}

module _ {A : Type 0} where
  -- The element that stands in its slot, but whose tail is not stored yet.
  abbrev pub pending : Producer A → List A
  pending (Producer.publishing item tail) = item ∷ []
  pending p = []

  -- The oldest element has left its slot, but its head is not stored yet.
  abbrev pub is_gone : Consumer A → ℕ → ℕ → Bool
  is_gone (Consumer.vacating item head) done n = n == done
  is_gone c done n = false

  -- With `there` elements sent and `seen_head` the number of received ones that the cache knows of.
  abbrev pub ProducerAt : ℕ → ℕ → ℕ → Producer A → Type 0
  ProducerAt there seen_head capacity Producer.outside = Unit
  ProducerAt there seen_head capacity (Producer.reloading item tail) = tail ≡ there % 2 ^ 64
  ProducerAt there seen_head capacity (Producer.constructing item tail) =
      (tail ≡ there % 2 ^ 64) × (there < seen_head + capacity)
  ProducerAt there seen_head capacity (Producer.publishing item tail) =
      (tail ≡ there % 2 ^ 64) × (there < seen_head + capacity)

  abbrev pub ConsumerAt : List A → ℕ → ℕ → Consumer A → Type 0
  ConsumerAt sent done seen_tail Consumer.outside = Unit
  ConsumerAt sent done seen_tail (Consumer.reloading head) = head ≡ done % 2 ^ 64
  ConsumerAt sent done seen_tail (Consumer.moving head) =
      (head ≡ done % 2 ^ 64) × (done < seen_tail)
  ConsumerAt sent done seen_tail (Consumer.vacating item head) =
      (head ≡ done % 2 ^ 64) × (done < seen_tail) × (get_elem? sent done ≡ some item)
  ConsumerAt sent done seen_tail Consumer.undefined = ⊥

  -- The indices are the numbers of elements sent and received, and a cached one is such a number
  -- of before.
  pub record Indices (b : SpscRingBuffer A) (sent received : List A) : Type 0 where
    pub seen_head : ℕ
    pub seen_tail : ℕ
    pub capacity_ok : IsCapacity b.capacity
    pub slots_eq : length b.slots ≡ b.capacity
    pub tail_eq : b.tail ≡ length sent % 2 ^ 64
    pub head_eq : b.head ≡ length received % 2 ^ 64
    pub head_cached_eq : b.head_cached ≡ seen_head % 2 ^ 64
    pub tail_cached_eq : b.tail_cached ≡ seen_tail % 2 ^ 64
    pub seen_head_le : seen_head ≤ length received
    pub room : length sent ≤ seen_head + b.capacity
    pub received_le : length received ≤ seen_tail
    pub seen_tail_le : seen_tail ≤ length sent
    pub prefix_eq : take (length received) sent ≡ received

  -- What the slot of the index `n` holds.
  abbrev pub expected : Producer A → Consumer A → List A → List A → ℕ → Option A
  expected p c sent received n =
      if is_gone c (length received) n then none else get_elem? (sent ++ pending p) n

  pub record Inv (b : SpscRingBuffer A) (p : Producer A) (c : Consumer A) (sent received : List A)
      : Type 0 where
    pub indices : Indices b sent received
    pub producer_ok : ProducerAt (length sent) indices.seen_head b.capacity p
    pub consumer_ok : ConsumerAt sent (length received) indices.seen_tail c
    pub window :
        (n : ℕ)
        → length received ≤ n
        → n < length received + b.capacity
        → get_or b.slots (n % b.capacity) none ≡ expected p c sent received n

  abbrev pub IsSound : Machine A → Type 0
  IsSound m = Inv m.buffer m.producer m.consumer m.sent m.received
