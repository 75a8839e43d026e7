-- ===== src/Storage/Wal/Examples.antt =====
-- Tests of the write-ahead log, and its theorems at a concrete sequence of calls.
use ironpulse.Prelude.{
  ℕ, zero, suc, ◌+◌, ◌*◌, ◌^◌, ◌<◌, ◌≡◌, refl, Bool, true, false, List, [], ◌∷◌, ◌++◌, arith, map,
  keep,
}
use ironpulse.Prelude.Bytes.{le_bytes, of_le}
use ironpulse.Storage.Wal.{
  WalRecord, records_bytes, read_all, read_since, read_records, record_bytes, record_of, is_recent,
  sample_of, ticks_per_ms,
}
use ironpulse.Storage.Wal.Records.{read_all_torn}
use ironpulse.Storage.Wal.Refine.{
  Call, appended, pruned, open_writer, call_all, expected_all, wal_refines,
}

-- Two values, with the numbers 1 and 0 as their memory.
abbrev to_bits : Bool → ℕ
to_bits true = 1
to_bits false = 0

abbrev of_bits : ℕ → Bool
of_bits zero = false
of_bits (suc n) = true

of_bits-to_bits : (b : Bool) → of_bits (to_bits b) ≡ b
of_bits-to_bits true = refl
of_bits-to_bits false = refl

to_bits_lt : (b : Bool) → to_bits b < 2 ^ 64
to_bits_lt true = omega arith
to_bits_lt false = omega arith

abbrev two_records : List (WalRecord Bool)
two_records =
    record { timestamp_ms = 1000; value = true }
    ∷ record { timestamp_ms = 70000; value = false }
    ∷ []

read_all_torn_example :
    read_all to_bits of_bits (records_bytes to_bits of_bits two_records ++ (7 ∷ 0 ∷ 0 ∷ []))
    ≡ two_records
read_all_torn_example =
    read_all_torn to_bits of_bits of_bits-to_bits to_bits_lt two_records (7 ∷ 0 ∷ 0 ∷ [])
      (omega arith, (omega arith, tt)) (omega arith)

-- Batches of two records; the pruning drops what is older than 5 ms at 8 ms.
abbrev calls : List (Call Bool)
calls =
    appended "a" true (2 * ticks_per_ms)
    ∷ appended "b" false (3 * ticks_per_ms)
    ∷ appended "a" false (4 * ticks_per_ms)
    ∷ pruned (λ s. true) (λ s. true) (8 * ticks_per_ms) 5
    ∷ appended "a" true (9 * ticks_per_ms)
    ∷ []

expected_a :
    expected_all to_bits of_bits (λ s. []) calls "a"
    ≡ record { timestamp_ms = 4; value = false } ∷ record { timestamp_ms = 9; value = true } ∷ []
unfolding expected_all
expected_a = refl

wal_refines_example :
    (read_since to_bits of_bits
      (call_all to_bits of_bits (open_writer to_bits of_bits 2) calls)
      "a"
      0).1
    ≡ map
        (sample_of to_bits of_bits)
        (keep (is_recent to_bits of_bits 0) (expected_all to_bits of_bits (λ s. []) calls "a"))
wal_refines_example =
    wal_refines to_bits of_bits of_bits-to_bits to_bits_lt 2 calls "a" 0
      (omega arith, (omega arith, (omega arith, (tt, (omega arith, tt)))))

-- A record that a crash has cut short is never removed, so the records after it are misread.
misread :
    read_all to_bits of_bits (
      (7 ∷ 0 ∷ 0 ∷ [])
      ++ records_bytes to_bits of_bits (record { timestamp_ms = 1; value = true } ∷ []))
    ≡ record { timestamp_ms = 7 + 2 ^ 24; value = true } ∷ []
unfolding read_all records_bytes read_records record_bytes le_bytes record_of of_le
misread = refl
