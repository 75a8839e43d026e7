-- ===== src/Ingest/Serializer/Examples.antt =====
-- Runs of the serializer, and instances of its theorems.
use ironpulse.Prelude.{
  ℕ, ◌+◌, ◌^◌, ◌<◌, ◌≡◌, refl, Bool, true, false, List, [], ◌∷◌, ◌++◌, replicate, take, All, ◌==◌,
  arith,
}
use ironpulse.Ingest.Crc.Machines.{sse_cpu, sse_cpu-IsCpu, plain_cpu, plain_cpu-IsCpu}
use ironpulse.Ingest.Serializer.{
  TelemetrySample, ok, truncated, serialize, decode_copy, decode_view,
}
use ironpulse.Ingest.Serializer.Layout.{IsSample, batch}
use ironpulse.Ingest.Serializer.RoundTrip.{decode_copy-serialize}
use ironpulse.Ingest.Serializer.Damage.{unaligned, decode_copy_cut, decode_view-decode_copy}

abbrev to_bits : Bool → ℕ
to_bits true = 1
to_bits false = 0

abbrev of_bits : ℕ → Bool
of_bits n = n == 1

of_bits-to_bits : (b : Bool) → of_bits (to_bits b) ≡ b
of_bits-to_bits true = refl
of_bits-to_bits false = refl

to_bits_lt : (b : Bool) → to_bits b < 2 ^ 64
to_bits_lt true = omega arith
to_bits_lt false = omega arith

abbrev sample : ℕ → TelemetrySample Bool
sample n = record { timestamp_ms = 1000 + n; value = true; tag_id = n; quality = 0; reserved = 0 }

abbrev two : List (TelemetrySample Bool)
two = sample 1 ∷ sample 2 ∷ []

abbrev two_good : All (IsSample to_bits of_bits) two
two_good = (
  record {
    time_lt = omega arith;
    tag_lt = omega arith;
    quality_lt = omega arith;
    reserved_lt = omega arith;
  },
  (
    record {
      time_lt = omega arith;
      tag_lt = omega arith;
      quality_lt = omega arith;
      reserved_lt = omega arith;
    },
    tt,
  ),
)

abbrev buffer : List ℕ
buffer = replicate 70 7

decode_copy-serialize_example :
    ((serialize to_bits of_bits sse_cpu two buffer).0 ≡ 64)
    × (decode_copy to_bits of_bits plain_cpu
          ((serialize to_bits of_bits sse_cpu two buffer).1 ++ buffer)
          (sample 9 ∷ [])
        ≡ (ok, sample 9 ∷ two))
decode_copy-serialize_example =
    decode_copy-serialize to_bits of_bits sse_cpu plain_cpu sse_cpu-IsCpu plain_cpu-IsCpu
      of_bits-to_bits to_bits_lt two buffer buffer (sample 9 ∷ []) (omega arith) (omega arith)
      two_good

decode_copy_cut_example :
    decode_copy to_bits of_bits sse_cpu (take 40 (batch to_bits of_bits sse_cpu two)) two
    ≡ (truncated, two)
decode_copy_cut_example =
    decode_copy_cut to_bits of_bits sse_cpu sse_cpu-IsCpu two 40 two (omega arith) (omega arith)

decode_view-decode_copy_example :
    decode_view to_bits of_bits sse_cpu 4 buffer []
    ≡ (unaligned (decode_copy to_bits of_bits sse_cpu buffer []).0, [])
decode_view-decode_copy_example = decode_view-decode_copy to_bits of_bits sse_cpu 4 buffer
