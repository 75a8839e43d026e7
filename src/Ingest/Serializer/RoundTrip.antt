-- ===== src/Ingest/Serializer/RoundTrip.antt =====
-- include/ironpulse/ingest/serializer.hpp: what is serialized is decoded.
use ironpulse.Prelude.{
  ℕ, ◌+◌, ◌-◌, ◌*◌, ◌^◌, ◌<◌, ◌≤◌, ◌≡◌, refl, sym, ap, ◌∙◌, List, [], ◌++◌, append_assoc,
  append-nil, length, take, drop, All, ==_iff, arith,
}
use ironpulse.Prelude.Pieces.{take-append, drop-append}
use ironpulse.Ingest.Crc.{Cpu, IsCpu, crc32c}
use ironpulse.Ingest.Crc.Agree.{crc32c_agrees}
use ironpulse.Ingest.Serializer.{
  TelemetrySample, BatchHeader, ok, max_uint32, header_size, no_header, header_bytes, samples_bytes,
  samples_of, header_for, serialize, payload_of, check_payload, copy_payload, decode_copy,
}
use ironpulse.Ingest.Serializer.Headers.{length-header_bytes}
use ironpulse.Ingest.Serializer.Layout.{
  IsSample, batch, length-samples_bytes, samples_bytes-IsByte, samples_of-samples_bytes,
  serialize_fits, header_for_count, peek-batch,
}

module _ {D : Type 0} (to_bits : D → ℕ) (of_bits : ℕ → D) where
  module _ (writer reader : Cpu) where
    payload_of-batch :
        (samples : List (TelemetrySample D)) (rest : List ℕ)
        → payload_of to_bits of_bits reader
            (batch to_bits of_bits writer samples ++ rest)
            (16 + 24 * length samples)
          ≡ samples_bytes to_bits of_bits samples
    unfolding payload_of
    payload_of-batch samples rest = rw (append_assoc (header_bytes h) payload rest) (
        ap (take (16 + 24 * length samples - header_size))
          (drop-append 16 (header_bytes h) (payload ++ rest) (length-header_bytes h))
        ∙ take-append (16 + 24 * length samples - header_size) payload rest
            (omega (arith, length-samples_bytes to_bits of_bits samples)))
      where
        h : BatchHeader
        h = header_for to_bits of_bits writer samples

        payload : List ℕ
        payload = samples_bytes to_bits of_bits samples

    module _ (w : IsCpu writer) (r : IsCpu reader) where
      pub same_crc :
          (samples : List (TelemetrySample D))
          → crc32c reader (samples_bytes to_bits of_bits samples)
            ≡ (header_for to_bits of_bits writer samples).payload_crc32c
      unfolding header_for
      same_crc samples =
          crc32c_agrees reader r (samples_bytes to_bits of_bits samples)
            (samples_bytes-IsByte to_bits of_bits samples)
          ∙ sym (
              crc32c_agrees writer w (samples_bytes to_bits of_bits samples)
                (samples_bytes-IsByte to_bits of_bits samples))

      pub check_payload-batch :
          (samples : List (TelemetrySample D)) (rest : List ℕ)
          → check_payload to_bits of_bits reader
              (batch to_bits of_bits writer samples ++ rest)
              (ok, header_for to_bits of_bits writer samples, 16 + 24 * length samples)
            ≡ ok
      unfolding check_payload
      check_payload-batch samples rest = rw (payload_of-batch samples rest) (
          rw
            ((==_iff (crc32c reader (samples_bytes to_bits of_bits samples))
                (header_for to_bits of_bits writer samples).payload_crc32c).1
              (same_crc samples))
            refl)

      module _ (of_bits-to_bits : (d : D) → of_bits (to_bits d) ≡ d)
          (to_bits_lt : (d : D) → to_bits d < 2 ^ 64) where
        pub decoded :
            (samples : List (TelemetrySample D))
            → All (IsSample to_bits of_bits) samples
            → samples_of to_bits of_bits (length samples) (samples_bytes to_bits of_bits samples)
              ≡ samples
        decoded samples good =
            ap (samples_of to_bits of_bits (length samples))
              (sym (append-nil (samples_bytes to_bits of_bits samples)))
            ∙ samples_of-samples_bytes to_bits of_bits of_bits-to_bits to_bits_lt samples [] good

        pub decode_copy-batch :
            (samples : List (TelemetrySample D)) (rest : List ℕ) (before : List (TelemetrySample D))
            → length samples ≤ max_uint32
            → All (IsSample to_bits of_bits) samples
            → decode_copy to_bits of_bits reader
                (batch to_bits of_bits writer samples ++ rest)
                before
              ≡ (ok, before ++ samples)
        unfolding decode_copy copy_payload
        decode_copy-batch samples rest before few good =
            rw (peek-batch to_bits of_bits writer w samples rest no_header 0 few) (
              rw (check_payload-batch samples rest) (
                rw (payload_of-batch samples rest) (
                  rw (header_for_count to_bits of_bits writer samples few) (
                    ap (λ (got : List (TelemetrySample D)). (ok, before ++ got))
                      (decoded samples good)))))

        -- Where the buffer has room and there are at most 2 ^ 32 - 1 samples, one processor writes 16
        -- bytes and 24 for each sample, and any other decodes the buffer, whatever follows in it, to
        -- just these samples, appended to those before.
        pub decode_copy-serialize :
            (samples : List (TelemetrySample D)) (out rest : List ℕ)
            (before : List (TelemetrySample D))
            → length samples ≤ max_uint32
            → 16 + 24 * length samples ≤ length out
            → All (IsSample to_bits of_bits) samples
            → ((serialize to_bits of_bits writer samples out).0 ≡ 16 + 24 * length samples)
              × (decode_copy to_bits of_bits reader
                    ((serialize to_bits of_bits writer samples out).1 ++ rest)
                    before
                  ≡ (ok, before ++ samples))
        decode_copy-serialize samples out rest before few fits good =
            rw (serialize_fits to_bits of_bits writer samples out few fits) (
              refl,
              rw
                  (append_assoc (batch to_bits of_bits writer samples)
                    (drop (16 + 24 * length samples) out) rest)
                  (decode_copy-batch samples (drop (16 + 24 * length samples) out ++ rest) before
                    few good),
            )
