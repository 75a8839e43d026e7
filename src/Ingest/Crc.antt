-- ===== src/Ingest/Crc.antt =====
-- include/ironpulse/ingest/serializer.hpp: the checksum CRC-32C, by a table and by instructions.
pub mod Rounds
pub mod Agree
pub mod Machines
mod Examples
use ironpulse.Prelude.{
  ℕ, zero, suc, ◌+◌, ◌/◌, ◌%◌, ◌^◌, ◌<◌, ◌≡◌, Bool, true, false, leb, ◌==◌, if◌then◌else◌, List, [],
  ◌∷◌, length, take, drop, get_or,
}
use ironpulse.Prelude.Bits.{bit_and, bit_xor}
use ironpulse.Prelude.Bytes.{of_le, le_bytes}

abbrev pub crc32c_polynomial : ℕ
crc32c_polynomial = 0x82F63B78

abbrev pub all_ones : ℕ
all_ones = 0xFFFFFFFF

-- One round of the inner loop of `make_crc32c_table`, and that many rounds.
unfoldable pub crc_bit : ℕ → ℕ
crc_bit crc = if bit_and 32 crc 1 == 0 then crc / 2 else bit_xor 32 (crc / 2) crc32c_polynomial

unfoldable pub crc_bits : ℕ → ℕ → ℕ
crc_bits zero crc = crc
crc_bits (suc rounds) crc = crc_bits rounds (crc_bit crc)

-- The outer loop, for that many entries from `i` on.
unfoldable pub table_from : ℕ → ℕ → List ℕ
table_from zero i = []
table_from (suc entries) i = crc_bits 8 i ∷ table_from entries (suc i)

unfoldable pub crc32c_table : List ℕ
crc32c_table = table_from 256 0

-- One round of `crc32c_software`, and its loop.
unfoldable pub table_round : ℕ → ℕ → ℕ
table_round crc byte =
    bit_xor 32 (get_or crc32c_table (bit_and 32 (bit_xor 32 crc byte) 0xFF) 0) (crc / 2 ^ 8)

unfoldable pub table_loop : ℕ → List ℕ → ℕ
table_loop crc [] = crc
table_loop crc (b ∷ bytes) = table_loop (table_round crc b) bytes

unfoldable pub crc32c_software : List ℕ → ℕ
crc32c_software bytes = bit_xor 32 (table_loop all_ones bytes) all_ones

-- What differs between processors: whether they have the instructions, and what `_mm_crc32_u8` and
-- `_mm_crc32_u64` compute.
pub record Cpu : Type 0 where
  pub has_sse42 : Bool
  pub crc32_u8 : ℕ → ℕ → ℕ
  pub crc32_u64 : ℕ → ℕ → ℕ

module _ (cpu : Cpu) where
  -- The loop over single bytes.
  unfoldable pub byte_loop : ℕ → List ℕ → ℕ
  byte_loop crc [] = crc
  byte_loop crc (b ∷ bytes) = byte_loop (cpu.crc32_u8 crc b) bytes

  -- The loop over chunks of eight bytes, and the rest of the function after it.
  unfoldable pub chunk_loop : ℕ → ℕ → List ℕ → ℕ
  chunk_loop zero crc bytes = byte_loop (crc % 2 ^ 32) bytes
  chunk_loop (suc fuel) crc bytes =
      let next = chunk_loop fuel (cpu.crc32_u64 crc (of_le (take 8 bytes))) (drop 8 bytes) in
      if leb 8 (length bytes) then next else byte_loop (crc % 2 ^ 32) bytes

  -- Each chunk takes eight bytes, so the length is fuel enough.
  unfoldable pub crc32c_sse42 : List ℕ → ℕ
  crc32c_sse42 bytes = bit_xor 32 (chunk_loop (length bytes) all_ones bytes) all_ones

  unfoldable pub crc32c : List ℕ → ℕ
  crc32c bytes = if cpu.has_sse42 then crc32c_sse42 bytes else crc32c_software bytes

  -- The documented meaning of the instructions: eight rounds by bits for each byte, the low one first.
  pub record IsCpu : Type 0 where
    pub u8_bits :
        (crc b : ℕ) → crc < 2 ^ 32 → b < 256 → cpu.crc32_u8 crc b ≡ crc_bits 8 (bit_xor 32 crc b)
    pub u64_bytes :
        (crc chunk : ℕ) → crc < 2 ^ 32 → cpu.crc32_u64 crc chunk ≡ byte_loop crc (le_bytes 8 chunk)
