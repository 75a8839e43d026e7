-- ===== src/Ingest/Segment/Examples.antt =====
-- Instances of the theorems on segment files.
use ironpulse.Prelude.{
  ℕ, ◌+◌, ◌^◌, ◌<◌, ◌≡◌, refl, Bool, true, false, List, [], ◌∷◌, ◌++◌, Option, none, some, take,
  ◌==◌, replicate, arith,
}
use ironpulse.Ingest.Crc.Machines.{sse_cpu, sse_cpu-IsCpu, plain_cpu, plain_cpu-IsCpu}
use ironpulse.Ingest.Serializer.{TelemetrySample}
use ironpulse.Ingest.Serializer.Layout.{batch}
use ironpulse.Ingest.Segment.{segment_prefix, read_segment, readable, no_tally}
use ironpulse.Ingest.Segment.Ends.{IsSome, read_segment_ends}
use ironpulse.Ingest.Segment.Batches.{IsBatch, batches_bytes, add_all}
use ironpulse.Ingest.Segment.Recovered.{read_segment_recovers}

abbrev to_bits : Bool → ℕ
to_bits true = 1
to_bits false = 0

abbrev of_bits : ℕ → Bool
of_bits n = n == 1

of_bits-to_bits : (b : Bool) → of_bits (to_bits b) ≡ b
of_bits-to_bits true = refl
of_bits-to_bits false = refl

to_bits_lt : (b : Bool) → to_bits b < 2 ^ 64
to_bits_lt true = omega arith
to_bits_lt false = omega arith

abbrev sample : ℕ → TelemetrySample Bool
sample n = record { timestamp_ms = 1000 + n; value = true; tag_id = n; quality = 0; reserved = 0 }

abbrev one : List (TelemetrySample Bool)
one = sample 1 ∷ []

one-IsBatch : IsBatch to_bits of_bits one
one-IsBatch = record {
  few = omega arith;
  good = (
    record {
      time_lt = omega arith;
      tag_lt = omega arith;
      quality_lt = omega arith;
      reserved_lt = omega arith;
    },
    tt,
  );
}

abbrev decode_table : List ℕ → Option (List ℕ)
decode_table bytes = some bytes

abbrev table : List ℕ
table = 123 ∷ 125 ∷ []

read_segment_recovers_example :
    read_segment to_bits of_bits plain_cpu decode_table (
      readable (
        segment_prefix sse_cpu 77 table
        ++ (batches_bytes to_bits of_bits sse_cpu (one ∷ one ∷ [])
            ++ take 20 (batch to_bits of_bits sse_cpu one))))
    ≡ some record {
      tags = table;
      created_ms = 77;
      tally = add_all to_bits of_bits true (one ∷ one ∷ []) no_tally;
      error = none;
    }
read_segment_recovers_example =
    read_segment_recovers to_bits of_bits sse_cpu plain_cpu sse_cpu-IsCpu plain_cpu-IsCpu
      of_bits-to_bits to_bits_lt decode_table table 77 table (omega arith) (omega arith)
      (omega arith) refl (one ∷ one ∷ []) one 20 (one-IsBatch, (one-IsBatch, tt)) one-IsBatch
      (omega arith)

abbrev noise : List ℕ
noise = replicate 50 73

read_segment_ends_example :
    IsSome (read_segment to_bits of_bits plain_cpu decode_table (readable noise))
read_segment_ends_example =
    read_segment_ends to_bits of_bits plain_cpu decode_table (readable noise) (omega arith)
