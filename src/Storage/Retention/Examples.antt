-- ===== src/Storage/Retention/Examples.antt =====
-- The pruning of a file at concrete records.
use ironpulse.Prelude.{ℕ, ◌*◌, ◌≡◌, true, List, [], ◌∷◌, arith, All, refl}
use ironpulse.Storage.Wal.{WalRecord, records_bytes, is_recent, ticks_per_ms}
use ironpulse.Storage.Retention.{prune, prune-records_bytes}

-- A value with one possible memory, the number 0.
abbrev to_bits : Unit {0} → ℕ
to_bits _ = 0

abbrev of_bits : ℕ → Unit {0}
of_bits _ = tt

abbrev records : List (WalRecord (Unit {0}))
records = record { timestamp_ms = 10; value = tt } ∷ record { timestamp_ms = 40; value = tt } ∷ []

prune-records_bytes_example :
    (prune to_bits of_bits 20 (50 * ticks_per_ms) (records_bytes to_bits of_bits records)
      ≡ (records_bytes to_bits of_bits (record { timestamp_ms = 40; value = tt } ∷ []), 1))
    × All
        (λ r. is_recent to_bits of_bits 30 r ≡ true)
        (record { timestamp_ms = 40; value = tt } ∷ [])
prune-records_bytes_example =
    prune-records_bytes to_bits of_bits (λ d. refl) (λ d. omega arith) 20 (50 * ticks_per_ms)
      records (omega arith, (omega arith, tt))
