-- ===== src/Ingest/Spsc/Moves.antt =====
-- include/ironpulse/ingest/ring_buffer.hpp: how the indices move.
use ironpulse.Prelude.{
  ℕ, suc, ◌+◌, ◌-◌, ◌%◌, ◌^◌, ◌<◌, ◌≡◌, sym, ap, ◌∙◌, false, leb, List, [], ◌∷◌, ◌++◌, Option, some,
  length, take, set, get_elem?, arith, length-append, length-set, not_leb→lt,
}
use ironpulse.Ingest.Spsc.{SpscRingBuffer, minus, looks_full}
use ironpulse.Ingest.Spsc.Numbers.{minus_eq, next_index, take-append_le, take-suc-some}
use ironpulse.Ingest.Spsc.Invariant.{Indices}

module _ {A : Type 0} (b : SpscRingBuffer A) (sent received : List A) where
  -- What the test of `emplace` compares.
  pub looks_full_eq :
      (k : Indices b sent received)
      → looks_full b (length sent % 2 ^ 64) ≡ leb b.capacity (length sent - k.seen_head)
  looks_full_eq k = ap (leb b.capacity) (
      ap (minus (length sent % 2 ^ 64)) k.head_cached_eq
      ∙ minus_eq (length sent) k.seen_head
          (omega (arith, k.seen_head_le, k.received_le, k.seen_tail_le))
          (omega (arith, k.room, k.capacity_ok.half_le)))

  pub has_room :
      (k : Indices b sent received)
      → looks_full b (length sent % 2 ^ 64) ≡ false
      → length sent < k.seen_head + b.capacity
  has_room k free = omega (
    arith,
    not_leb→lt b.capacity (length sent - k.seen_head) (sym (looks_full_eq k) ∙ free),
    k.seen_head_le,
    k.received_le,
    k.seen_tail_le,
  )

  -- After the reload the cache knows of all received elements.
  unfoldable pub reloaded :
      Indices b sent received → Indices (record b { head_cached = b.head }) sent received
  reloaded k = record {
    seen_head = length received;
    seen_tail = k.seen_tail;
    capacity_ok = k.capacity_ok;
    slots_eq = k.slots_eq;
    tail_eq = k.tail_eq;
    head_eq = k.head_eq;
    head_cached_eq = k.head_eq;
    tail_cached_eq = k.tail_cached_eq;
    seen_head_le = omega arith;
    room = omega (arith, k.room, k.seen_head_le);
    received_le = k.received_le;
    seen_tail_le = k.seen_tail_le;
    prefix_eq = k.prefix_eq;
  }

  -- A write to a slot leaves the indices.
  unfoldable pub written :
      (i : ℕ) (v : Option A)
      → Indices b sent received
      → Indices (record b { slots = set b.slots i v }) sent received
  written i v k = record {
    seen_head = k.seen_head;
    seen_tail = k.seen_tail;
    capacity_ok = k.capacity_ok;
    slots_eq = length-set b.slots i v ∙ k.slots_eq;
    tail_eq = k.tail_eq;
    head_eq = k.head_eq;
    head_cached_eq = k.head_cached_eq;
    tail_cached_eq = k.tail_cached_eq;
    seen_head_le = k.seen_head_le;
    room = k.room;
    received_le = k.received_le;
    seen_tail_le = k.seen_tail_le;
    prefix_eq = k.prefix_eq;
  }

  -- One more element is sent.
  unfoldable pub published :
      (item : A) (k : Indices b sent received)
      → length sent < k.seen_head + b.capacity
      → Indices
          (record b { tail = (length sent % 2 ^ 64 + 1) % 2 ^ 64 })
          (sent ++ (item ∷ []))
          received
  published item k free = record {
    seen_head = k.seen_head;
    seen_tail = k.seen_tail;
    capacity_ok = k.capacity_ok;
    slots_eq = k.slots_eq;
    tail_eq = next_index (length sent) ∙ ap (λ (n : ℕ). n % 2 ^ 64) one_more;
    head_eq = k.head_eq;
    head_cached_eq = k.head_cached_eq;
    tail_cached_eq = k.tail_cached_eq;
    seen_head_le = k.seen_head_le;
    room = omega (arith, one_more, free);
    received_le = k.received_le;
    seen_tail_le = omega (arith, one_more, k.seen_tail_le);
    prefix_eq =
        take-append_le (length received) sent (item ∷ [])
          (omega (arith, k.received_le, k.seen_tail_le))
        ∙ k.prefix_eq;
  }
    where
      one_more : suc (length sent) ≡ length (sent ++ (item ∷ []))
      one_more = omega (arith, length-append sent (item ∷ []))

  -- After the other reload the cache knows of all sent elements.
  unfoldable pub reloaded_tail :
      Indices b sent received → Indices (record b { tail_cached = b.tail }) sent received
  reloaded_tail k = record {
    seen_head = k.seen_head;
    seen_tail = length sent;
    capacity_ok = k.capacity_ok;
    slots_eq = k.slots_eq;
    tail_eq = k.tail_eq;
    head_eq = k.head_eq;
    head_cached_eq = k.head_cached_eq;
    tail_cached_eq = k.tail_eq;
    seen_head_le = k.seen_head_le;
    room = k.room;
    received_le = omega (arith, k.received_le, k.seen_tail_le);
    seen_tail_le = omega arith;
    prefix_eq = k.prefix_eq;
  }

  -- One more element is received.
  unfoldable pub vacated :
      (item : A) (k : Indices b sent received)
      → length received < k.seen_tail
      → get_elem? sent (length received) ≡ some item
      → Indices
          (record b { head = (length received % 2 ^ 64 + 1) % 2 ^ 64 })
          sent
          (received ++ (item ∷ []))
  vacated item k ready here = record {
    seen_head = k.seen_head;
    seen_tail = k.seen_tail;
    capacity_ok = k.capacity_ok;
    slots_eq = k.slots_eq;
    tail_eq = k.tail_eq;
    head_eq = next_index (length received) ∙ ap (λ (n : ℕ). n % 2 ^ 64) one_more;
    head_cached_eq = k.head_cached_eq;
    tail_cached_eq = k.tail_cached_eq;
    seen_head_le = omega (arith, one_more, k.seen_head_le);
    room = k.room;
    received_le = omega (arith, one_more, ready);
    seen_tail_le = k.seen_tail_le;
    prefix_eq =
        ap (λ (n : ℕ). take n sent) (sym one_more)
        ∙ take-suc-some sent (length received) item here
        ∙ ap (λ (xs : List A). xs ++ (item ∷ [])) k.prefix_eq;
  }
    where
      one_more : suc (length received) ≡ length (received ++ (item ∷ []))
      one_more = omega (arith, length-append received (item ∷ []))
