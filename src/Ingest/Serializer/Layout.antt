-- ===== src/Ingest/Serializer/Layout.antt =====
-- include/ironpulse/ingest/serializer.hpp: the bytes of a batch and its header.
use ironpulse.Prelude.{
  ℕ, ◌+◌, ◌*◌, ◌^◌, ◌<◌, ◌≤◌, ◌≡◌, refl, sym, ap, ap₂, ◌∙◌, ltb, if◌then◌else◌, List, [], ◌∷◌, ◌++◌,
  append_assoc, append-nil, length, take, drop, length-append, All, All-append, le→not_ltb, lt→ltb,
  arith,
}
use ironpulse.Prelude.Bytes.{le_bytes, of_le-le_bytes, IsByte, IsByte-le_bytes}
use ironpulse.Prelude.Pieces.{take-append, drop-append}
use ironpulse.Prelude.Bits.{bit_xor-lt}
use ironpulse.Ingest.Crc.{Cpu, IsCpu, crc32c_software, table_loop, all_ones}
use ironpulse.Ingest.Crc.Agree.{crc32c_agrees}
use ironpulse.Ingest.Serializer.{
  TelemetrySample, BatchHeader, ok, truncated, batch_magic, format_version, sample_size, max_uint32,
  required_buffer_size, header_bytes, peek, sample_bytes, sample_of, samples_bytes, samples_of,
  header_for, serialize,
}
use ironpulse.Ingest.Serializer.Headers.{IsHeader, length-header_bytes, peek-header_bytes}

-- The fields fit in their widths.
module _ {D : Type 0} (to_bits : D → ℕ) (of_bits : ℕ → D) where
  pub record IsSample (s : TelemetrySample D) : Type 0 where
    pub time_lt : s.timestamp_ms < 2 ^ 64
    pub tag_lt : s.tag_id < 2 ^ 32
    pub quality_lt : s.quality < 2 ^ 8
    pub reserved_lt : s.reserved < 2 ^ 24

  pub length-sample_bytes : (s : TelemetrySample D) → length (sample_bytes to_bits of_bits s) ≡ 24
  unfolding sample_bytes le_bytes
  length-sample_bytes s = refl

  pub length-samples_bytes :
      (samples : List (TelemetrySample D))
      → length (samples_bytes to_bits of_bits samples) ≡ 24 * length samples
  unfolding samples_bytes
  length-samples_bytes [] = refl
  length-samples_bytes (s ∷ samples) = omega (
    arith,
    length-append (sample_bytes to_bits of_bits s) (samples_bytes to_bits of_bits samples),
    length-sample_bytes s,
    length-samples_bytes samples,
  )

  sample_bytes-IsByte : (s : TelemetrySample D) → All IsByte (sample_bytes to_bits of_bits s)
  unfolding sample_bytes
  sample_bytes-IsByte s =
      All-append IsByte (le_bytes 8 s.timestamp_ms) _ (IsByte-le_bytes 8 s.timestamp_ms) (
        All-append IsByte (le_bytes 8 (to_bits s.value)) _ (IsByte-le_bytes 8 (to_bits s.value)) (
          All-append IsByte (le_bytes 4 s.tag_id) _ (IsByte-le_bytes 4 s.tag_id) (
            All-append IsByte (le_bytes 1 s.quality) _ (IsByte-le_bytes 1 s.quality)
              (IsByte-le_bytes 3 s.reserved))))

  pub samples_bytes-IsByte :
      (samples : List (TelemetrySample D)) → All IsByte (samples_bytes to_bits of_bits samples)
  unfolding samples_bytes
  samples_bytes-IsByte [] = tt
  samples_bytes-IsByte (s ∷ samples) =
      All-append IsByte (sample_bytes to_bits of_bits s) (samples_bytes to_bits of_bits samples)
        (sample_bytes-IsByte s) (samples_bytes-IsByte samples)

  module _ (of_bits-to_bits : (d : D) → of_bits (to_bits d) ≡ d)
      (to_bits_lt : (d : D) → to_bits d < 2 ^ 64) where
    pub sample_of-sample_bytes :
        (s : TelemetrySample D)
        → IsSample s
        → sample_of to_bits of_bits (sample_bytes to_bits of_bits s) ≡ s
    unfolding sample_of sample_bytes le_bytes
    sample_of-sample_bytes s p = λ i. record {
      timestamp_ms = of_le-le_bytes 8 s.timestamp_ms p.time_lt i;
      value =
          (ap of_bits (of_le-le_bytes 8 (to_bits s.value) (to_bits_lt s.value))
              ∙ of_bits-to_bits s.value)
            i;
      tag_id = of_le-le_bytes 4 s.tag_id p.tag_lt i;
      quality = of_le-le_bytes 1 s.quality p.quality_lt i;
      reserved = of_le-le_bytes 3 s.reserved p.reserved_lt i;
    }

    pub samples_of-samples_bytes :
        (samples : List (TelemetrySample D)) (rest : List ℕ)
        → All IsSample samples
        → samples_of to_bits of_bits
            (length samples)
            (samples_bytes to_bits of_bits samples ++ rest)
          ≡ samples
    unfolding samples_of samples_bytes
    samples_of-samples_bytes [] rest p = refl
    samples_of-samples_bytes (s ∷ samples) rest p =
        rw
          (append_assoc (sample_bytes to_bits of_bits s) (samples_bytes to_bits of_bits samples)
            rest)
          (ap₂ (λ (x : TelemetrySample D) (xs : List (TelemetrySample D)). x ∷ xs) first
            (later ∙ samples_of-samples_bytes samples rest p.1))
      where
        tail : List ℕ
        tail = samples_bytes to_bits of_bits samples ++ rest

        first :
            sample_of to_bits of_bits (take sample_size (sample_bytes to_bits of_bits s ++ tail))
            ≡ s
        first =
            ap (sample_of to_bits of_bits)
              (take-append 24 (sample_bytes to_bits of_bits s) tail (length-sample_bytes s))
            ∙ sample_of-sample_bytes s p.0

        later :
            samples_of to_bits of_bits
              (length samples)
              (drop sample_size (sample_bytes to_bits of_bits s ++ tail))
            ≡ samples_of to_bits of_bits (length samples) tail
        later =
            ap (samples_of to_bits of_bits (length samples))
              (drop-append 24 (sample_bytes to_bits of_bits s) tail (length-sample_bytes s))

  module _ (cpu : Cpu) where
    -- What stands in the buffer for one batch.
    abbrev pub batch : List (TelemetrySample D) → List ℕ
    batch samples =
        header_bytes (header_for to_bits of_bits cpu samples)
        ++ samples_bytes to_bits of_bits samples

    pub length-batch :
        (samples : List (TelemetrySample D)) → length (batch samples) ≡ 16 + 24 * length samples
    length-batch samples = omega (
      arith,
      length-append (header_bytes (header_for to_bits of_bits cpu samples))
          (samples_bytes to_bits of_bits samples),
      length-header_bytes (header_for to_bits of_bits cpu samples),
      length-samples_bytes samples,
    )

    pub required_size : (n : ℕ) → n ≤ max_uint32 → required_buffer_size n ≡ 16 + 24 * n
    unfolding required_buffer_size
    required_size n h = omega arith

    pub serialize_fits :
        (samples : List (TelemetrySample D)) (out : List ℕ)
        → length samples ≤ max_uint32
        → 16 + 24 * length samples ≤ length out
        → serialize to_bits of_bits cpu samples out
          ≡ (16 + 24 * length samples, batch samples ++ drop (16 + 24 * length samples) out)
    unfolding serialize
    serialize_fits samples out few fits = rw (required_size (length samples) few) (
        rw (le→not_ltb (length out) (16 + 24 * length samples) fits) (
          rw (le→not_ltb max_uint32 (length samples) few) (
            ap (λ (bytes : List ℕ). (16 + 24 * length samples, bytes))
              (sym (
                append_assoc (header_bytes (header_for to_bits of_bits cpu samples))
                  (samples_bytes to_bits of_bits samples) (drop (16 + 24 * length samples) out))))))

    header_for_fields :
        (samples : List (TelemetrySample D))
        → ((header_for to_bits of_bits cpu samples).magic ≡ batch_magic)
          × ((header_for to_bits of_bits cpu samples).version ≡ format_version)
    unfolding header_for
    header_for_fields samples = (refl, refl)

    pub header_for_count :
        (samples : List (TelemetrySample D))
        → length samples ≤ max_uint32
        → (header_for to_bits of_bits cpu samples).count ≡ length samples
    unfolding header_for
    header_for_count samples few = omega arith

    counted :
        (samples : List (TelemetrySample D))
        → length samples ≤ max_uint32
        → required_buffer_size (header_for to_bits of_bits cpu samples).count
          ≡ 16 + 24 * length samples
    counted samples few =
        ap required_buffer_size (header_for_count samples few) ∙ required_size (length samples) few

    module _ (c : IsCpu cpu) where
      header_for-IsHeader :
          (samples : List (TelemetrySample D)) → IsHeader (header_for to_bits of_bits cpu samples)
      unfolding header_for crc32c_software
      header_for-IsHeader samples = record {
        magic_lt = omega arith;
        version_lt = omega arith;
        flags_lt = omega arith;
        count_lt = omega arith;
        crc_lt = omega (
          arith,
          crc32c_agrees cpu c (samples_bytes to_bits of_bits samples)
              (samples_bytes-IsByte samples),
          bit_xor-lt 32 (table_loop all_ones (samples_bytes to_bits of_bits samples)) all_ones,
        );
      }

      -- What `peek` finds in the bytes of a header alone.
      pub peek-header :
          (samples : List (TelemetrySample D)) (before : BatchHeader) (n : ℕ)
          → length samples ≤ max_uint32
          → peek (header_bytes (header_for to_bits of_bits cpu samples)) before n ≡ (
            if ltb 16 (16 + 24 * length samples) then truncated else ok,
            header_for to_bits of_bits cpu samples,
            16 + 24 * length samples,
          )
      peek-header samples before n few =
          ap (λ (bytes : List ℕ). peek bytes before n)
            (sym (append-nil (header_bytes (header_for to_bits of_bits cpu samples))))
          ∙ peek-header_bytes (header_for to_bits of_bits cpu samples) [] before n
              (header_for-IsHeader samples) (header_for_fields samples).0
              (header_for_fields samples).1
          ∙ rw (counted samples few) refl

      -- The header is whole, and bytes of the payload are missing.
      pub peek-cut :
          (samples : List (TelemetrySample D)) (some_bytes : List ℕ) (before : BatchHeader) (n : ℕ)
          → length samples ≤ max_uint32
          → length some_bytes < 24 * length samples
          → peek (header_bytes (header_for to_bits of_bits cpu samples) ++ some_bytes) before n
            ≡ (truncated, header_for to_bits of_bits cpu samples, 16 + 24 * length samples)
      peek-cut samples some_bytes before n few short =
          peek-header_bytes (header_for to_bits of_bits cpu samples) some_bytes before n
            (header_for-IsHeader samples) (header_for_fields samples).0
            (header_for_fields samples).1
          ∙ rw (counted samples few)
              (rw (lt→ltb (16 + length some_bytes) (16 + 24 * length samples) (omega arith)) refl)

      pub peek-batch :
          (samples : List (TelemetrySample D)) (rest : List ℕ) (before : BatchHeader) (n : ℕ)
          → length samples ≤ max_uint32
          → peek (batch samples ++ rest) before n
            ≡ (ok, header_for to_bits of_bits cpu samples, 16 + 24 * length samples)
      peek-batch samples rest before n few = rw (append_assoc (header_bytes h) payload rest) (
          peek-header_bytes h (payload ++ rest) before n (header_for-IsHeader samples)
            (header_for_fields samples).0 (header_for_fields samples).1
          ∙ rw (counted samples few) (
              rw (le→not_ltb (16 + length (payload ++ rest)) (16 + 24 * length samples) long) refl))
        where
          h : BatchHeader
          h = header_for to_bits of_bits cpu samples

          payload : List ℕ
          payload = samples_bytes to_bits of_bits samples

          long : 16 + 24 * length samples ≤ 16 + length (payload ++ rest)
          long = omega (arith, length-append payload rest, length-samples_bytes samples)
