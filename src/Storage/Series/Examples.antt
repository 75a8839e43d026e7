-- ===== src/Storage/Series/Examples.antt =====
-- The series of a sensor over a restart, at concrete calls.
use Prim.Native.String.{String}
use ironpulse.Prelude.{
  ℕ, zero, suc, ◌^◌, ◌<◌, ◌≡◌, refl, Bool, true, false, List, [], ◌∷◌, ◌++◌, some, arith, last_n,
}
use ironpulse.Storage.Wal.{Sample, flush_all}
use ironpulse.Storage.Wal.Refine.{Call, appended, open_writer, call_all, expected_all}
use ironpulse.Storage.Series.{recent, latest}
use ironpulse.Storage.Series.Restart.{record_all}
use ironpulse.Storage.Series.Life.{restart, series_restarts}

abbrev to_bits : Bool → ℕ
to_bits true = 1
to_bits false = 0

abbrev of_bits : ℕ → Bool
of_bits zero = false
of_bits (suc n) = true

of_bits-to_bits : (b : Bool) → of_bits (to_bits b) ≡ b
of_bits-to_bits true = refl
of_bits-to_bits false = refl

to_bits_lt : (b : Bool) → to_bits b < 2 ^ 64
to_bits_lt true = omega arith
to_bits_lt false = omega arith

abbrev blank : Sample Bool
blank = record { timestamp = 0; value = false }

abbrev earlier : List (Call Bool)
earlier = appended "a" true 1500000 ∷ appended "b" true 2000000 ∷ appended "a" false 9000000 ∷ []

abbrev before_a : List (String × Bool × ℕ × ℕ)
before_a = ("b", true, 10000000, 10000000) ∷ []

abbrev after_a : List (String × Bool × ℕ × ℕ)
after_a = ("b", false, 12000000, 12000000) ∷ ("a", true, 13500000, 13500000) ∷ []

-- The first sample of "a" in the new run comes at 11 ms, with a replay of the last 9 ms.
abbrev samples_a : List (Sample Bool)
samples_a =
    record { timestamp = 9000000; value = false }
    ∷ record { timestamp = 11000000; value = false }
    ∷ record { timestamp = 13500000; value = true }
    ∷ []

series_restarts_example :
    (recent to_bits of_bits blank
        (record_all to_bits of_bits blank
          (restart to_bits of_bits blank 100
            (flush_all to_bits of_bits
              (call_all to_bits of_bits (open_writer to_bits of_bits 2) earlier))
            (some 9))
          (before_a ++ (("a", false, 11000000, 11000000) ∷ after_a)))
        "a"
        2
      ≡ last_n 2 samples_a)
    × (latest to_bits of_bits blank
          (record_all to_bits of_bits blank
            (restart to_bits of_bits blank 100
              (flush_all to_bits of_bits
                (call_all to_bits of_bits (open_writer to_bits of_bits 2) earlier))
              (some 9))
            (before_a ++ (("a", false, 11000000, 11000000) ∷ after_a)))
          "a"
        ≡ some (record { timestamp = 13500000; value = true }))
unfolding expected_all
series_restarts_example =
    series_restarts to_bits of_bits blank of_bits-to_bits to_bits_lt 2 100 2 (some 9) earlier
      before_a after_a "a" false 11000000 11000000 (omega arith) (omega arith)
      (omega arith, (omega arith, (omega arith, tt))) (refl, tt)
