-- ===== src/Ingest/Spsc/Emplace.antt =====
-- include/ironpulse/ingest/ring_buffer.hpp: the steps of `emplace` keep the invariant.
use ironpulse.Prelude.{
  ℕ, ◌+◌, ◌-◌, ◌%◌, ◌^◌, ◌<◌, ◌≤◌, ◌≡◌, ◌≢◌, refl, sym, ap, subst, ◌∙◌, false, if◌then◌else◌, List,
  [], ◌∷◌, ◌++◌, append-nil, Option, none, some, length, set, get_or, get_elem?, arith,
  length-append, if_cases, dec_lt,
}
use native.Mathlib.Decide.{ℕ_discrete}
use ironpulse.Prelude.Bits.{bit_and}
use ironpulse.Ingest.Spsc.{
  SpscRingBuffer, Producer, Consumer, looks_full, begin_emplace, reload_head, construct_slot,
  store_tail, place,
}
use ironpulse.Ingest.Spsc.Numbers.{
  get_elem?-append_lt, get_elem?-append_last, get_elem?-past, set_here, set_elsewhere,
}
use ironpulse.Ingest.Spsc.Moves.{has_room, reloaded, written, published}
use ironpulse.Ingest.Spsc.Invariant.{Indices, Inv, IsSound, ConsumerAt, expected, is_gone}

module _ {A : Type 0} where
  elsewhere :
      (sent : List A) (item : A) (n : ℕ)
      → n ≢ length sent
      → get_elem? (sent ++ (item ∷ [])) n ≡ get_elem? (sent ++ []) n
  elsewhere sent item n ne = elim (dec_lt n (length sent)) [
    | yes before ↦
        get_elem?-append_lt sent (item ∷ []) n before ∙ sym (get_elem?-append_lt sent [] n before)
    | no past ↦
        get_elem?-past (sent ++ (item ∷ [])) n (omega (arith, length-append sent (item ∷ []), ne))
        ∙ sym (get_elem?-past (sent ++ []) n (omega (arith, length-append sent [])))
  ]

  -- What is not sent is not taken out.
  not_gone :
      (c : Consumer A) (sent : List A) (done seen : ℕ)
      → ConsumerAt sent done seen c
      → seen ≤ length sent
      → is_gone c done (length sent) ≡ false
  not_gone Consumer.outside sent done seen at le = refl
  not_gone (Consumer.reloading head) sent done seen at le = refl
  not_gone (Consumer.moving head) sent done seen at le = refl
  not_gone (Consumer.vacating x head) sent done seen at le = ground (arith, at.1, le)
  not_gone Consumer.undefined sent done seen at le = absurd at

  grown :
      (c : Consumer A) (sent ys : List A) (done seen : ℕ)
      → ConsumerAt sent done seen c
      → seen ≤ length sent
      → ConsumerAt (sent ++ ys) done seen c
  grown Consumer.outside sent ys done seen at le = tt
  grown (Consumer.reloading head) sent ys done seen at le = at
  grown (Consumer.moving head) sent ys done seen at le = at
  grown (Consumer.vacating x head) sent ys done seen at le =
      (at.0, at.1, get_elem?-append_lt sent ys done (omega (arith, at.1, le)) ∙ at.2)
  grown Consumer.undefined sent ys done seen at le = absurd at

module _ {A : Type 0} (item : A) (b : SpscRingBuffer A) (c : Consumer A)
    (sent received : List A) where
  pub begin_emplace-IsSound :
      Inv b Producer.outside c sent received
      → IsSound (
          begin_emplace item record {
            buffer = b;
            producer = Producer.outside;
            consumer = c;
            sent = sent;
            received = received;
          })
  unfolding begin_emplace
  begin_emplace-IsSound i =
      if_cases IsSound (looks_full b b.tail)
        (λ full. record {
          indices = i.indices;
          producer_ok = i.indices.tail_eq;
          consumer_ok = i.consumer_ok;
          window = i.window;
        })
        (λ free. record {
          indices = i.indices;
          producer_ok = (
            i.indices.tail_eq,
            has_room b sent received i.indices (ap (looks_full b) (sym i.indices.tail_eq) ∙ free),
          );
          consumer_ok = i.consumer_ok;
          window = i.window;
        })

  pub reload_head-IsSound :
      (tail : ℕ)
      → Inv b (Producer.reloading item tail) c sent received
      → IsSound (
          reload_head item tail record {
            buffer = b;
            producer = Producer.reloading item tail;
            consumer = c;
            sent = sent;
            received = received;
          })
  unfolding reload_head reloaded
  reload_head-IsSound tail i =
      if_cases IsSound (looks_full (record b { head_cached = b.head }) tail)
        (λ full. record {
          indices = reloaded b sent received i.indices;
          producer_ok = tt;
          consumer_ok = i.consumer_ok;
          window = i.window;
        })
        (λ free. record {
          indices = reloaded b sent received i.indices;
          producer_ok = (
            i.producer_ok,
            has_room (record b { head_cached = b.head }) sent received
                (reloaded b sent received i.indices)
                (ap (looks_full (record b { head_cached = b.head })) (sym i.producer_ok) ∙ free),
          );
          consumer_ok = i.consumer_ok;
          window = i.window;
        })

  pub construct_slot-IsSound :
      (tail : ℕ)
      → Inv b (Producer.constructing item tail) c sent received
      → IsSound (
          construct_slot item tail record {
            buffer = b;
            producer = Producer.constructing item tail;
            consumer = c;
            sent = sent;
            received = received;
          })
  unfolding construct_slot written
  construct_slot-IsSound tail i = record {
    indices = written b sent received (place b tail) (some item) i.indices;
    producer_ok = i.producer_ok;
    consumer_ok = i.consumer_ok;
    window = λ n from below.
        ap (λ (t : ℕ). get_or (set b.slots t (some item)) (n % b.capacity) none) spot
        ∙ after n from below (ℕ_discrete n (length sent));
  }
    where
      k : Indices b sent received
      k = i.indices

      spot : place b tail ≡ length sent % b.capacity
      spot =
          ap (λ (t : ℕ). bit_and 64 t (b.capacity - 1)) i.producer_ok.0
          ∙ k.capacity_ok.place_eq (length sent)

      after :
          (n : ℕ)
          → length received ≤ n
          → n < length received + b.capacity
          → Dec (n ≡ length sent)
          → get_or (set b.slots (length sent % b.capacity) (some item)) (n % b.capacity) none
            ≡ expected (Producer.publishing item tail) c sent received n
      after n from below (yes e) =
          subst
            (λ (j : ℕ).
              get_or (set b.slots (length sent % b.capacity) (some item)) (j % b.capacity) none
              ≡ expected (Producer.publishing item tail) c sent received j)
            (sym e)
            (set_here b.slots b.capacity (omega (arith, k.capacity_ok.two_le)) k.slots_eq
                (length sent) (some item) none
              ∙ rw (not_gone c sent (length received) k.seen_tail i.consumer_ok k.seen_tail_le)
                  (sym (get_elem?-append_last sent item)))
      after n from below (no ne) =
          set_elsewhere b.slots b.capacity (omega (arith, k.capacity_ok.two_le)) k.slots_eq
            (length sent) n (some item) none (λ e. ne (sym e))
            (omega (arith, k.room, k.seen_head_le, i.producer_ok.1))
            (omega (arith, k.received_le, k.seen_tail_le))
          ∙ i.window n from below
          ∙ ap (λ (o : Option A). if is_gone c (length received) n then none else o)
              (sym (elsewhere sent item n ne))

  pub store_tail-IsSound :
      (tail : ℕ)
      → Inv b (Producer.publishing item tail) c sent received
      → IsSound (
          store_tail item tail record {
            buffer = b;
            producer = Producer.publishing item tail;
            consumer = c;
            sent = sent;
            received = received;
          })
  unfolding store_tail published
  store_tail-IsSound tail i =
      subst
        (λ (t : ℕ).
          Inv (record b { tail = (t + 1) % 2 ^ 64 }) Producer.outside c (sent ++ (item ∷ []))
            received)
        (sym i.producer_ok.0)
        record {
          indices = published b sent received item i.indices i.producer_ok.1;
          producer_ok = tt;
          consumer_ok =
              grown c sent (item ∷ []) (length received) i.indices.seen_tail i.consumer_ok
                i.indices.seen_tail_le;
          window = λ n from below.
              i.window n from below
              ∙ ap (λ (xs : List A). if is_gone c (length received) n then none else get_elem? xs n)
                  (sym (append-nil (sent ++ (item ∷ []))));
        }
