-- ===== src/Ingest/Crc/Examples.antt =====
-- Runs of the checksum, and instances of its theorem.
use ironpulse.Prelude.{ℕ, ◌≡◌, refl, List, [], ◌∷◌, arith}
use ironpulse.Prelude.Bits.{bit_and, bit_xor}
use ironpulse.Ingest.Crc.{
  crc_bit, crc_bits, table_from, crc32c_table, table_round, table_loop, crc32c_software, crc32c,
}
use ironpulse.Ingest.Crc.Machines.{sse_cpu, sse_cpu-IsCpu}
use ironpulse.Ingest.Crc.Agree.{crc32c_agrees}

-- The text "123456789".
abbrev digits : List ℕ
digits = 49 ∷ 50 ∷ 51 ∷ 52 ∷ 53 ∷ 54 ∷ 55 ∷ 56 ∷ 57 ∷ []

check_value : crc32c_software digits ≡ 0xE3069283
unfolding crc32c_software table_loop table_round crc32c_table table_from crc_bits crc_bit bit_and
    bit_xor
check_value = refl

crc32c_agrees_example : crc32c sse_cpu digits ≡ crc32c_software digits
crc32c_agrees_example = crc32c_agrees sse_cpu sse_cpu-IsCpu digits (omega arith)
