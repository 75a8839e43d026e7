-- ===== src/Ingest/Segment/Batches.antt =====
-- src/ingest/segment.cpp: batches that were appended to a file are delivered, also before a torn one.
use ironpulse.Prelude.{
  ℕ, zero, suc, ◌+◌, ◌-◌, ◌*◌, ◌^◌, ◌<◌, ◌≤◌, ◌≡◌, refl, sym, ap, ◌∙◌, Bool, true, false, ltb,
  ==_iff, if◌then◌else◌, List, [], ◌∷◌, ◌++◌, append-nil, append_assoc, Option, some, length, take,
  drop, All, arith, le→leb, ltb→lt, not_ltb→le, le→not_ltb, lt→ltb, lt→not_leb, length-append,
  Bool-cases, inl, inr, length-take, drop-drop,
}
use ironpulse.Prelude.Pieces.{take-append, drop-append, take-append_ge}
use ironpulse.Ingest.Crc.{Cpu, IsCpu, crc32c}
use ironpulse.Ingest.Serializer.{
  TelemetrySample, BatchHeader, ok, truncated, max_uint32, header_size, no_header, header_bytes,
  samples_bytes, header_for,
}
use ironpulse.Ingest.Serializer.Headers.{length-header_bytes}
use ironpulse.Ingest.Serializer.Layout.{
  IsSample, batch, length-batch, length-samples_bytes, header_for_count, peek-header,
}
use ironpulse.Ingest.Serializer.RoundTrip.{same_crc, decoded}
use ironpulse.Ingest.Segment.{Tally, cut_short, take_batch, read_batch, read_batches}

plus_nothing : (n : ℕ) → n ≡ n + 0
plus_nothing n = omega arith

plus_one : (n m : ℕ) → n + 1 + m ≡ n + suc m
plus_one n m = omega arith

plus_both : (n m k : ℕ) → n + m + k ≡ n + (m + k)
plus_both n m k = omega arith

module _ {D : Type 0} (to_bits : D → ℕ) (of_bits : ℕ → D) where
  -- The batches of a file, one behind the other.
  abbrev pub batches_bytes : Cpu → List (List (TelemetrySample D)) → List ℕ
  batches_bytes writer [] = []
  batches_bytes writer (b ∷ bs) = batch to_bits of_bits writer b ++ batches_bytes writer bs

  abbrev pub total : List (List (TelemetrySample D)) → ℕ
  total [] = 0
  total (b ∷ bs) = length b + total bs

  pub record IsBatch (b : List (TelemetrySample D)) : Type 0 where
    pub few : length b ≤ max_uint32
    pub good : All (IsSample to_bits of_bits) b

  -- The tally of a file that is read whole.
  abbrev pub add_all : Bool → List (List (TelemetrySample D)) → Tally D → Tally D
  add_all torn bs t = record {
    batches = t.batches + length bs;
    samples = t.samples + total bs;
    corrupt_batches = t.corrupt_batches;
    truncated_tail = if torn then true else t.truncated_tail;
    delivered = t.delivered ++ bs;
  }

  same_tally :
      (torn : Bool) (t : Tally D)
      → record t { truncated_tail = if torn then true else t.truncated_tail } ≡ add_all torn [] t
  same_tally torn t = λ i. record {
    batches = plus_nothing t.batches i;
    samples = plus_nothing t.samples i;
    corrupt_batches = t.corrupt_batches;
    truncated_tail = if torn then true else t.truncated_tail;
    delivered = sym (append-nil t.delivered) i;
  }

  one_more_tally :
      (b : List (TelemetrySample D)) (bs : List (List (TelemetrySample D))) (torn : Bool)
      (t : Tally D)
      → add_all torn bs record t {
        batches = t.batches + 1;
        samples = t.samples + length b;
        delivered = t.delivered ++ (b ∷ []);
      }
        ≡ add_all torn (b ∷ bs) t
  one_more_tally b bs torn t = λ i. record {
    batches = plus_one t.batches (length bs) i;
    samples = plus_both t.samples (length b) (total bs) i;
    corrupt_batches = t.corrupt_batches;
    truncated_tail = if torn then true else t.truncated_tail;
    delivered = append_assoc t.delivered (b ∷ []) bs i;
  }

  module _ (writer reader : Cpu) (w : IsCpu writer) (r : IsCpu reader)
      (of_bits-to_bits : (d : D) → of_bits (to_bits d) ≡ d)
      (to_bits_lt : (d : D) → to_bits d < 2 ^ 64) where
    take_batch_good :
        (b : List (TelemetrySample D)) (t : Tally D)
        → IsBatch b
        → take_batch to_bits of_bits reader
            (header_for to_bits of_bits writer b)
            (samples_bytes to_bits of_bits b)
            t
          ≡ record t {
            batches = t.batches + 1;
            samples = t.samples + length b;
            delivered = t.delivered ++ (b ∷ []);
          }
    unfolding take_batch
    take_batch_good b t i =
        rw
          ((==_iff (crc32c reader (samples_bytes to_bits of_bits b))
              (header_for to_bits of_bits writer b).payload_crc32c).1
            (same_crc to_bits of_bits writer reader w r b))
          (rw (header_for_count to_bits of_bits writer b i.few) (
            rw (decoded to_bits of_bits writer reader w r of_bits-to_bits to_bits_lt b i.good)
              refl))

    module _ (b : List (TelemetrySample D)) (i : IsBatch b) (file : List ℕ) (pos : ℕ)
        (t : Tally D) where
      abbrev header : BatchHeader
      header = header_for to_bits of_bits writer b

      -- Whether the header alone is all of the batch, the round is the same.
      either_status :
          (next : ℕ → Tally D → Option (Tally D)) (cut : Bool) (n : ℕ)
          → read_batch to_bits of_bits reader next file pos t
              (if cut then truncated else ok, header, n)
            ≡ (if ltb (length file) (pos + n)
                then some (cut_short to_bits of_bits reader t)
                else next (pos + n) (
                    take_batch to_bits of_bits reader header
                      (take (n - header_size) (drop (pos + header_size) file))
                      t))
      unfolding read_batch
      either_status next true n = refl
      either_status next false n = refl

      -- A round at a place where this header stands.
      round :
          (fuel : ℕ)
          → take 16 (drop pos file) ≡ header_bytes header
          → pos + 16 ≤ length file
          → read_batches to_bits of_bits reader (suc fuel) file pos t ≡ (
              if ltb (length file) (pos + (16 + 24 * length b))
              then some (cut_short to_bits of_bits reader t)
              else read_batches to_bits of_bits reader fuel file (pos + (16 + 24 * length b)) (
                  take_batch to_bits of_bits reader header
                    (take (16 + 24 * length b - header_size) (drop (pos + header_size) file))
                    t))
      unfolding read_batches
      round fuel there fits = rw (lt→not_leb (length file) pos (omega (arith, fits))) (
          rw (le→not_ltb (length file - pos) header_size (omega (arith, fits))) (
            rw (there) (
              rw (peek-header to_bits of_bits writer w b no_header 0 i.few) (
                either_status (read_batches to_bits of_bits reader fuel file)
                  (ltb 16 (16 + 24 * length b)) (16 + 24 * length b)))))

      nothing_left :
          (fuel : ℕ)
          → length file ≤ pos
          → read_batches to_bits of_bits reader (suc fuel) file pos t ≡ some t
      unfolding read_batches
      nothing_left fuel h = rw (le→leb (length file) pos h) refl

      too_little :
          (fuel : ℕ)
          → pos < length file
          → length file < pos + 16
          → read_batches to_bits of_bits reader (suc fuel) file pos t
            ≡ some (cut_short to_bits of_bits reader t)
      unfolding read_batches
      too_little fuel h k =
          rw (lt→not_leb (length file) pos h)
            (rw (lt→ltb (length file - pos) header_size (omega (arith, h, k))) refl)

      whole_round :
          (fuel : ℕ) (rest : List ℕ)
          → drop pos file ≡ batch to_bits of_bits writer b ++ rest
          → length file ≡ pos + (16 + 24 * length b + length rest)
          → read_batches to_bits of_bits reader (suc fuel) file pos t
            ≡ read_batches to_bits of_bits reader fuel file (pos + (16 + 24 * length b)) record t {
              batches = t.batches + 1;
              samples = t.samples + length b;
              delivered = t.delivered ++ (b ∷ []);
            }
      whole_round fuel rest here size =
          round fuel
            (ap (take 16) split
              ∙ take-append 16 (header_bytes header) (payload ++ rest) (length-header_bytes header))
            (omega (arith, size))
          ∙ rw (le→not_ltb (length file) (pos + (16 + 24 * length b)) (omega (arith, size))) (
              rw (found) (
                ap (read_batches to_bits of_bits reader fuel file (pos + (16 + 24 * length b)))
                  (take_batch_good b t i)))
        where
          payload : List ℕ
          payload = samples_bytes to_bits of_bits b

          split : drop pos file ≡ header_bytes header ++ (payload ++ rest)
          split = here ∙ append_assoc (header_bytes header) payload rest

          found : take (16 + 24 * length b - header_size) (drop (pos + header_size) file) ≡ payload
          found =
              ap (take (16 + 24 * length b - header_size)) (
                sym (drop-drop header_size pos file)
                ∙ ap (drop 16) split
                ∙ drop-append 16 (header_bytes header) (payload ++ rest)
                    (length-header_bytes header))
              ∙ take-append (16 + 24 * length b - header_size) payload rest
                  (omega (arith, length-samples_bytes to_bits of_bits b))

      torn_round :
          (fuel k : ℕ)
          → drop pos file ≡ take k (batch to_bits of_bits writer b)
          → length file ≡ pos + k
          → k < 16 + 24 * length b
          → read_batches to_bits of_bits reader (suc fuel) file pos t
            ≡ some record t { truncated_tail = if ltb 0 k then true else t.truncated_tail }
      torn_round fuel zero here size short = nothing_left fuel (omega (arith, size))
      torn_round fuel (suc k) here size short = elim (Bool-cases (ltb (suc k) 16)) [
        | inl e ↦
            rw (lt→ltb 0 (suc k) (omega arith))
              (too_little fuel (omega (arith, size)) (omega (arith, size, ltb→lt (suc k) 16 e)))
        | inr e ↦
            (let enough : 16 ≤ suc k = not_ltb→le (suc k) 16 e in
              let start : take 16 (drop pos file) ≡ header_bytes header =
                ap (take 16) (
                  here
                  ∙ take-append_ge (suc k) (header_bytes header) (samples_bytes to_bits of_bits b)
                      (omega (arith, enough, length-header_bytes header)))
                ∙ take-append 16 (header_bytes header) _ (length-header_bytes header) in
              rw (lt→ltb 0 (suc k) (omega arith)) (
                round fuel start (omega (arith, enough, size))
                ∙ rw
                    (lt→ltb (length file) (pos + (16 + 24 * length b)) (omega (arith, size, short)))
                    refl))
      ]

    -- Where `bs` were appended and then the first `k` bytes of one more batch.
    pub read_batches-batches_bytes :
        (bs : List (List (TelemetrySample D))) (last : List (TelemetrySample D)) (k fuel : ℕ)
        (file : List ℕ) (pos : ℕ) (t : Tally D)
        → All IsBatch bs
        → IsBatch last
        → k < 16 + 24 * length last
        → drop pos file ≡ batches_bytes writer bs ++ take k (batch to_bits of_bits writer last)
        → length file ≡ pos + (length (batches_bytes writer bs) + k)
        → length bs < fuel
        → read_batches to_bits of_bits reader fuel file pos t ≡ some (add_all (ltb 0 k) bs t)
    read_batches-batches_bytes bs last k zero file pos t good last_good short here size enough =
        absurd (omega arith)
    read_batches-batches_bytes [] last k (suc fuel) file pos t good last_good short here size
          enough =
        torn_round last last_good file pos t fuel k here (omega (arith, size)) short
        ∙ ap some (same_tally (ltb 0 k) t)
    read_batches-batches_bytes (b ∷ bs) last k (suc fuel) file pos t good last_good short here size
          enough =
        let torn = take k (batch to_bits of_bits writer last) in
        let rest = batches_bytes writer bs ++ torn in
        let split : drop pos file ≡ batch to_bits of_bits writer b ++ rest =
          here ∙ append_assoc (batch to_bits of_bits writer b) (batches_bytes writer bs) torn in
        let cut : length torn ≡ k = omega (
          arith,
          length-take k (batch to_bits of_bits writer last),
          length-batch to_bits of_bits writer last,
          short,
        ) in
        let whole : length file ≡ pos + (16 + 24 * length b + length rest) = omega (
          arith,
          size,
          length-append (batch to_bits of_bits writer b) (batches_bytes writer bs),
          length-batch to_bits of_bits writer b,
          length-append (batches_bytes writer bs) torn,
          cut,
        ) in
        let after : drop (pos + (16 + 24 * length b)) file ≡ rest =
          sym (drop-drop (16 + 24 * length b) pos file)
          ∙ ap (drop (16 + 24 * length b)) split
          ∙ drop-append (16 + 24 * length b) (batch to_bits of_bits writer b) rest
              (length-batch to_bits of_bits writer b) in
        let others =
          read_batches-batches_bytes bs last k fuel file (pos + (16 + 24 * length b))
            record t {
              batches = t.batches + 1;
              samples = t.samples + length b;
              delivered = t.delivered ++ (b ∷ []);
            }
            good.1 last_good short after
            (omega (arith, whole, length-append (batches_bytes writer bs) torn, cut))
            (omega (arith, enough)) in
        whole_round b good.0 file pos t fuel rest split whole
        ∙ others
        ∙ ap some (one_more_tally b bs (ltb 0 k) t)
