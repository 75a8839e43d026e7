-- ===== src/Ingest/Spsc/Pop.antt =====
-- include/ironpulse/ingest/ring_buffer.hpp: the steps of `pop` keep the invariant.
use native.Mathlib.Decide.{ℕ_discrete}
use native.Mathlib.Nat.{add-mod_right}
use ironpulse.Prelude.{
  ℕ, suc, ◌+◌, ◌-◌, ◌%◌, ◌^◌, ◌<◌, ◌≤◌, ◌≡◌, ◌≢◌, refl, sym, ap, ap₂, subst, ◌∙◌, true, false, ◌==◌,
  ==_iff, List, [], ◌∷◌, ◌++◌, Option, none, some, length, set, get_or, get_elem?, arith,
  length-append, if_cases, dec_lt,
}
use ironpulse.Prelude.Bits.{bit_and}
use ironpulse.Ingest.Spsc.{
  SpscRingBuffer, Producer, Consumer, place, begin_pop, reload_tail, move_from, move_slot,
  store_head,
}
use ironpulse.Ingest.Spsc.Numbers.{
  other_index, get_elem?-append_lt, get_elem?-past, get_elem?-some, set_here, set_elsewhere,
}
use ironpulse.Ingest.Spsc.Moves.{reloaded_tail, written, vacated}
use ironpulse.Ingest.Spsc.Invariant.{Indices, Inv, IsSound, ProducerAt, expected, pending}

self_test : (n : ℕ) → (n == n) ≡ true
self_test n = (==_iff n n).1 refl

other_test : (n m : ℕ) → n ≢ m → (n == m) ≡ false
other_test n m ne = ground (arith, ==_iff n m, ne)

module _ {A : Type 0} where
  pending_fits :
      (p : Producer A) (sent : List A) (seen capacity : ℕ)
      → ProducerAt (length sent) seen capacity p
      → length sent ≤ seen + capacity
      → length (sent ++ pending p) ≤ seen + capacity
  pending_fits Producer.outside sent seen capacity at le = omega (arith, length-append sent [], le)
  pending_fits (Producer.reloading x t) sent seen capacity at le =
      omega (arith, length-append sent [], le)
  pending_fits (Producer.constructing x t) sent seen capacity at le =
      omega (arith, length-append sent [], le)
  pending_fits (Producer.publishing x t) sent seen capacity at le =
      omega (arith, length-append sent (x ∷ []), at.1)

module _ {A : Type 0} (b : SpscRingBuffer A) (p : Producer A) (sent received : List A) where
  pub begin_pop-IsSound :
      Inv b p Consumer.outside sent received
      → IsSound (
          begin_pop record {
            buffer = b;
            producer = p;
            consumer = Consumer.outside;
            sent = sent;
            received = received;
          })
  unfolding begin_pop
  begin_pop-IsSound i =
      if_cases IsSound (b.head == b.tail_cached)
        (λ same. record {
          indices = i.indices;
          producer_ok = i.producer_ok;
          consumer_ok = i.indices.head_eq;
          window = i.window;
        })
        (λ other. record {
          indices = i.indices;
          producer_ok = i.producer_ok;
          consumer_ok = (
            i.indices.head_eq,
            other_index (length received) i.indices.seen_tail i.indices.received_le (
                sym (ap₂ (λ (x y : ℕ). x == y) i.indices.head_eq i.indices.tail_cached_eq) ∙ other),
          );
          window = i.window;
        })

  pub reload_tail-IsSound :
      (head : ℕ)
      → Inv b p (Consumer.reloading head) sent received
      → IsSound (
          reload_tail head record {
            buffer = b;
            producer = p;
            consumer = Consumer.reloading head;
            sent = sent;
            received = received;
          })
  unfolding reload_tail reloaded_tail
  reload_tail-IsSound head i =
      if_cases IsSound (head == b.tail)
        (λ same. record {
          indices = reloaded_tail b sent received i.indices;
          producer_ok = i.producer_ok;
          consumer_ok = tt;
          window = i.window;
        })
        (λ other. record {
          indices = reloaded_tail b sent received i.indices;
          producer_ok = i.producer_ok;
          consumer_ok = (
            i.consumer_ok,
            other_index (length received) (length sent)
                (omega (arith, i.indices.received_le, i.indices.seen_tail_le))
                (sym (ap₂ (λ (x y : ℕ). x == y) i.consumer_ok i.indices.tail_eq) ∙ other),
          );
          window = i.window;
        })

  -- The slot of the head holds the next element.
  pub next_slot :
      (head : ℕ)
      → Inv b p (Consumer.moving head) sent received
      → (item : A) × (get_elem? sent (length received) ≡ some item)
        × (get_or b.slots (place b head) none ≡ some item)
  next_slot head i =
      let there : length received < length sent =
        omega (arith, i.consumer_ok.1, i.indices.seen_tail_le) in
      let next = get_elem?-some sent (length received) there in
      let spot : place b head ≡ length received % b.capacity =
        ap (λ (t : ℕ). bit_and 64 t (b.capacity - 1)) i.consumer_ok.0
        ∙ i.indices.capacity_ok.place_eq (length received) in
      (
        next.0,
        next.1,
        ap (λ (t : ℕ). get_or b.slots t none) spot
            ∙ i.window (length received) (omega arith) (omega (arith, i.indices.capacity_ok.two_le))
            ∙ get_elem?-append_lt sent (pending p) (length received) there
            ∙ next.1,
      )

  moved :
      (item : A) (head : ℕ)
      → get_elem? sent (length received) ≡ some item
      → Inv b p (Consumer.moving head) sent received
      → IsSound (
          move_from (some item) head record {
            buffer = b;
            producer = p;
            consumer = Consumer.moving head;
            sent = sent;
            received = received;
          })
  unfolding move_from written
  moved item head here i = record {
    indices = written b sent received (place b head) none k;
    producer_ok = i.producer_ok;
    consumer_ok = (i.consumer_ok.0, i.consumer_ok.1, here);
    window = λ n from below.
        ap (λ (t : ℕ). get_or (set b.slots t none) (n % b.capacity) none) spot
        ∙ after n from below (ℕ_discrete n (length received));
  }
    where
      k : Indices b sent received
      k = i.indices

      spot : place b head ≡ length received % b.capacity
      spot =
          ap (λ (t : ℕ). bit_and 64 t (b.capacity - 1)) i.consumer_ok.0
          ∙ k.capacity_ok.place_eq (length received)

      after :
          (n : ℕ)
          → length received ≤ n
          → n < length received + b.capacity
          → Dec (n ≡ length received)
          → get_or (set b.slots (length received % b.capacity) none) (n % b.capacity) none
            ≡ expected p (Consumer.vacating item head) sent received n
      after n from below (yes e) =
          subst
            (λ (j : ℕ).
              get_or (set b.slots (length received % b.capacity) none) (j % b.capacity) none
              ≡ expected p (Consumer.vacating item head) sent received j)
            (sym e)
            (set_here b.slots b.capacity (omega (arith, k.capacity_ok.two_le)) k.slots_eq
                (length received) none none
              ∙ rw (self_test (length received)) refl)
      after n from below (no ne) =
          set_elsewhere b.slots b.capacity (omega (arith, k.capacity_ok.two_le)) k.slots_eq
            (length received) n none none (λ e. ne (sym e)) (omega (arith, k.capacity_ok.two_le))
            below
          ∙ i.window n from below
          ∙ rw (other_test n (length received) ne) refl

  pub move_slot-IsSound :
      (head : ℕ)
      → Inv b p (Consumer.moving head) sent received
      → IsSound (
          move_slot head record {
            buffer = b;
            producer = p;
            consumer = Consumer.moving head;
            sent = sent;
            received = received;
          })
  unfolding move_slot
  move_slot-IsSound head i =
      let next = next_slot head i in
      subst
        (λ (slot : Option A). IsSound (
          move_from slot head record {
            buffer = b;
            producer = p;
            consumer = Consumer.moving head;
            sent = sent;
            received = received;
          }))
        (sym next.2) (moved next.0 head next.1 i)

  pub store_head-IsSound :
      (item : A) (head : ℕ)
      → Inv b p (Consumer.vacating item head) sent received
      → IsSound (
          store_head item head record {
            buffer = b;
            producer = p;
            consumer = Consumer.vacating item head;
            sent = sent;
            received = received;
          })
  unfolding store_head vacated
  store_head-IsSound item head i =
      subst
        (λ (h : ℕ).
          Inv (record b { head = (h + 1) % 2 ^ 64 }) p Consumer.outside sent
            (received ++ (item ∷ [])))
        (sym i.consumer_ok.0)
        record {
          indices = vacated b sent received item k i.consumer_ok.1 i.consumer_ok.2;
          producer_ok = i.producer_ok;
          consumer_ok = tt;
          window = λ n from below.
              after n (omega (arith, from, one_more)) (omega (arith, below, one_more))
                (dec_lt n (length received + b.capacity));
        }
    where
      k : Indices b sent received
      k = i.indices

      one_more : suc (length received) ≡ length (received ++ (item ∷ []))
      one_more = omega (arith, length-append received (item ∷ []))

      -- The slot that was vacated serves the index one capacity on.
      last :
          get_or b.slots ((length received + b.capacity) % b.capacity) none
          ≡ get_elem? (sent ++ pending p) (length received + b.capacity)
      last =
          ap (λ (t : ℕ). get_or b.slots t none) (add-mod_right (length received) b.capacity)
          ∙ i.window (length received) (omega arith) (omega (arith, k.capacity_ok.two_le))
          ∙ rw (self_test (length received)) (
              sym (
                get_elem?-past (sent ++ pending p) (length received + b.capacity) (
                  omega (
                    arith,
                    pending_fits p sent k.seen_head b.capacity i.producer_ok k.room,
                    k.seen_head_le,
                  ))))

      after :
          (n : ℕ)
          → suc (length received) ≤ n
          → n < suc (length received) + b.capacity
          → Dec (n < length received + b.capacity)
          → get_or b.slots (n % b.capacity) none ≡ get_elem? (sent ++ pending p) n
      after n from below (yes within) =
          i.window n (omega (arith, from)) within
          ∙ rw (other_test n (length received) (omega (arith, from))) refl
      after n from below (no beyond) =
          subst (λ (j : ℕ). get_or b.slots (j % b.capacity) none ≡ get_elem? (sent ++ pending p) j)
            (omega (arith, below, beyond)) last
