-- ===== src/Ingest/Crc/Machines.antt =====
-- include/ironpulse/ingest/serializer.hpp: two concrete processors.
use ironpulse.Prelude.{ℕ, ◌≡◌, refl, ◌∙◌, true, false, List, [], ◌∷◌}
use ironpulse.Prelude.Bits.{bit_xor}
use ironpulse.Prelude.Bytes.{le_bytes}
use ironpulse.Ingest.Crc.{Cpu, IsCpu, crc_bits, byte_loop}

abbrev pub by_bits : ℕ → ℕ → ℕ
by_bits crc b = crc_bits 8 (bit_xor 32 crc b)

abbrev pub byte_cpu : Cpu
byte_cpu = record { has_sse42 = true; crc32_u8 = by_bits; crc32_u64 = by_bits }

abbrev pub sse_cpu : Cpu
sse_cpu = record {
  has_sse42 = true;
  crc32_u8 = by_bits;
  crc32_u64 = λ crc chunk. byte_loop byte_cpu crc (le_bytes 8 chunk);
}

same_loop : (crc : ℕ) (bytes : List ℕ) → byte_loop byte_cpu crc bytes ≡ byte_loop sse_cpu crc bytes
unfolding byte_loop
same_loop crc [] = refl
same_loop crc (b ∷ bytes) = same_loop (by_bits crc b) bytes

pub sse_cpu-IsCpu : IsCpu sse_cpu
sse_cpu-IsCpu = record {
  u8_bits = λ crc b p q. refl;
  u64_bytes = λ crc chunk p. same_loop crc (le_bytes 8 chunk);
}

-- A processor that has no such instructions: what they would compute is never asked for.
abbrev pub plain_cpu : Cpu
plain_cpu = record { has_sse42 = false; crc32_u8 = by_bits; crc32_u64 = sse_cpu.crc32_u64 }

plain_loop :
    (crc : ℕ) (bytes : List ℕ) → byte_loop sse_cpu crc bytes ≡ byte_loop plain_cpu crc bytes
unfolding byte_loop
plain_loop crc [] = refl
plain_loop crc (b ∷ bytes) = plain_loop (by_bits crc b) bytes

pub plain_cpu-IsCpu : IsCpu plain_cpu
plain_cpu-IsCpu = record {
  u8_bits = λ crc b p q. refl;
  u64_bytes = λ crc chunk p. same_loop crc (le_bytes 8 chunk) ∙ plain_loop crc (le_bytes 8 chunk);
}
