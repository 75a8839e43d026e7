-- ===== src/Ingest/Serializer/Damage.antt =====
-- include/ironpulse/ingest/serializer.hpp: cut batches, and the two decoders against each other.
use ironpulse.Prelude.{
  ℕ, ◌+◌, ◌-◌, ◌*◌, ◌%◌, ◌<◌, ◌≤◌, ◌≡◌, refl, ap, ◌∙◌, List, [], ◌++◌, length, take, ltb, ◌==◌,
  ==_iff, arith, if◌then◌else◌, Bool-cases, inl, inr, lt→ltb, ltb→lt, not_ltb→le, length-take,
}
use ironpulse.Ingest.Crc.{Cpu, IsCpu}
use ironpulse.Ingest.Serializer.{
  TelemetrySample, BatchHeader, DecodeStatus, ok, too_short, truncated, bad_magic,
  unsupported_version, crc_mismatch, misaligned, max_uint32, no_header, peek, header_bytes,
  samples_bytes, header_for, check_payload, copy_payload, decode_copy, view_payload, decode_view,
}
use ironpulse.Ingest.Serializer.Headers.{length-header_bytes}
use ironpulse.Ingest.Serializer.Layout.{batch, length-samples_bytes, peek-cut}
use ironpulse.Prelude.Pieces.{take-append_ge}

-- The status of a view that is not aligned.
abbrev pub unaligned : DecodeStatus → DecodeStatus
unaligned ok = misaligned
unaligned status = status

module _ {D : Type 0} (to_bits : D → ℕ) (of_bits : ℕ → D) (cpu : Cpu) where
  shorter_than_header :
      (bytes : List ℕ) (before : List (TelemetrySample D))
      → length bytes < 16
      → decode_copy to_bits of_bits cpu bytes before ≡ (too_short, before)
  unfolding decode_copy copy_payload check_payload peek
  shorter_than_header bytes before h = rw (lt→ltb (length bytes) 16 h) refl

  shorter_than_payload :
      IsCpu cpu
      → (samples : List (TelemetrySample D)) (some_bytes : List ℕ)
        (before : List (TelemetrySample D))
      → length samples ≤ max_uint32
      → length some_bytes < 24 * length samples
      → decode_copy to_bits of_bits cpu
          (header_bytes (header_for to_bits of_bits cpu samples) ++ some_bytes)
          before
        ≡ (truncated, before)
  unfolding decode_copy copy_payload check_payload
  shorter_than_payload c samples some_bytes before few short =
      rw (peek-cut to_bits of_bits cpu c samples some_bytes no_header 0 few short) refl

  -- A batch whose last bytes are missing is refused, as too short where the header is not whole and
  -- else as truncated, and the vector is left as it was.
  pub decode_copy_cut :
      IsCpu cpu
      → (samples : List (TelemetrySample D)) (k : ℕ) (before : List (TelemetrySample D))
      → length samples ≤ max_uint32
      → k < 16 + 24 * length samples
      → decode_copy to_bits of_bits cpu (take k (batch to_bits of_bits cpu samples)) before
        ≡ (if ltb k 16 then too_short else truncated, before)
  decode_copy_cut c samples k before few short = elim (Bool-cases (ltb k 16)) [
    | inl e ↦ rw e (
        shorter_than_header (take k (batch to_bits of_bits cpu samples)) before
          (omega (arith, length-take k (batch to_bits of_bits cpu samples), ltb→lt k 16 e)))
    | inr e ↦ rw e (
        let h : List ℕ = header_bytes (header_for to_bits of_bits cpu samples) in
        let payload : List ℕ = samples_bytes to_bits of_bits samples in
        let whole : take k (h ++ payload) ≡ h ++ take (k - 16) payload =
          take-append_ge k h payload (
            omega (
              arith,
              length-header_bytes (header_for to_bits of_bits cpu samples),
              not_ltb→le k 16 e,
            ))
          ∙ ap (λ (n : ℕ). h ++ take (k - n) payload)
              (length-header_bytes (header_for to_bits of_bits cpu samples)) in
        rw whole (
          shorter_than_payload c samples (take (k - 16) payload) before few (
            omega (
              arith,
              length-take (k - 16) payload,
              length-samples_bytes to_bits of_bits samples,
              not_ltb→le k 16 e,
            ))))
  ]

  view-copy :
      (address : ℕ) (bytes : List ℕ) (header : BatchHeader) (n : ℕ) (status : DecodeStatus)
      → view_payload to_bits of_bits cpu address bytes header n [] status ≡ (
          if address % 8 == 0
          then copy_payload to_bits of_bits cpu bytes header n [] status
          else (unaligned (copy_payload to_bits of_bits cpu bytes header n [] status).0, []))
  unfolding view_payload copy_payload
  view-copy address bytes header n ok =
      ground (arith, ==_iff (address % 8) 0, ==_iff ((address + 16) % 8) 0)
  view-copy address bytes header n too_short = ground arith
  view-copy address bytes header n bad_magic = ground arith
  view-copy address bytes header n unsupported_version = ground arith
  view-copy address bytes header n truncated = ground arith
  view-copy address bytes header n crc_mismatch = ground arith
  view-copy address bytes header n misaligned = ground arith

  -- At an address that is a multiple of 8 decode_view gives for all bytes what decode_copy gives
  -- into an empty vector; at any other it shows no sample, and its status is misaligned where
  -- decode_copy accepts the bytes, and else the same.
  pub decode_view-decode_copy :
      (address : ℕ) (bytes : List ℕ)
      → decode_view to_bits of_bits cpu address bytes [] ≡ (
          if address % 8 == 0
          then decode_copy to_bits of_bits cpu bytes []
          else (unaligned (decode_copy to_bits of_bits cpu bytes []).0, []))
  unfolding decode_view decode_copy
  decode_view-decode_copy address bytes =
      let peeked = peek bytes no_header 0 in
      view-copy address bytes peeked.1 peeked.2 (check_payload to_bits of_bits cpu bytes peeked)
