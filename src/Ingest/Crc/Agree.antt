-- ===== src/Ingest/Crc/Agree.antt =====
-- include/ironpulse/ingest/serializer.hpp: the two implementations of `crc32c`.
use native.Mathlib.Nat.{mod-eq_of_lt}
use ironpulse.Prelude.{
  ℕ, zero, suc, ◌+◌, ◌/◌, ◌%◌, ◌^◌, ◌<◌, ◌≤◌, ◌≡◌, refl, sym, ap, ◌∙◌, Bool, true, false, leb, List,
  [], ◌∷◌, ◌++◌, length, take, drop, get_or, All, Bool-cases, inl, inr, leb→le, take-append-drop,
  length-take, length-drop, arith, if◌then◌else◌,
}
use ironpulse.Prelude.Bits.{bit_xor, bit_and_mask, bit_xor-lt, bit_xor_byte, bit_xor-zero}
use ironpulse.Prelude.Bytes.{of_le, le_bytes, IsByte, le_bytes-of_le}
use ironpulse.Prelude.Pieces.{All-take, All-drop}
use ironpulse.Ingest.Crc.{
  Cpu, IsCpu, all_ones, crc_bits, table_from, crc32c_table, table_round, table_loop,
  crc32c_software, byte_loop, chunk_loop, crc32c_sse42, crc32c,
}
use ironpulse.Ingest.Crc.Rounds.{crc_byte}

get_or-table_from : (n i j : ℕ) → j < n → get_or (table_from n i) j 0 ≡ crc_bits 8 (i + j)
unfolding table_from
get_or-table_from zero i j h = absurd (omega arith)
get_or-table_from (suc n) i zero h = ap (crc_bits 8) (omega arith)
get_or-table_from (suc n) i (suc j) h =
    get_or-table_from n (suc i) j (omega arith) ∙ ap (crc_bits 8) (omega arith)

entry : (j : ℕ) → j < 256 → get_or (table_from 256 0) j 0 ≡ crc_bits 8 j
entry j h = get_or-table_from 256 0 j h ∙ ap (crc_bits 8) (omega arith)

-- The bits above a byte are not touched by a byte.
xor_above : (crc b : ℕ) → crc < 2 ^ 32 → b < 256 → bit_xor 32 crc b / 256 ≡ crc / 256
xor_above crc b p q = above_all ∙ bit_xor-zero 24 (crc / 256) (omega (arith, p))
  where
    none_left : b / 256 ≡ 0
    none_left = omega (arith, q)

    above_all : bit_xor 32 crc b / 256 ≡ bit_xor 24 (crc / 256) 0
    above_all = bit_xor_byte 24 crc b ∙ ap (bit_xor 24 (crc / 256)) none_left

-- A round by the table is eight rounds by bits.
table_round_bits :
    (crc b : ℕ) → crc < 2 ^ 32 → b < 256 → table_round crc b ≡ crc_bits 8 (bit_xor 32 crc b)
unfolding table_round crc32c_table
table_round_bits crc b p q = rw (bit_and_mask 32 8 (bit_xor 32 crc b) (omega arith)) (
    rw (entry (bit_xor 32 crc b % 2 ^ 8) (omega arith))
      (rw (sym (xor_above crc b p q)) (sym (crc_byte (bit_xor 32 crc b) (bit_xor-lt 32 crc b)))))

table_loop-lt : (crc : ℕ) (bytes : List ℕ) → crc < 2 ^ 32 → table_loop crc bytes < 2 ^ 32
unfolding table_loop table_round
table_loop-lt crc [] h = h
table_loop-lt crc (b ∷ bytes) h =
    table_loop-lt (table_round crc b) bytes (bit_xor-lt 32 _ (crc / 2 ^ 8))

module _ (cpu : Cpu) (c : IsCpu cpu) where
  byte_loop-table_loop :
      (crc : ℕ) (bytes : List ℕ)
      → crc < 2 ^ 32
      → All IsByte bytes
      → byte_loop cpu crc bytes ≡ table_loop crc bytes
  unfolding byte_loop table_loop
  byte_loop-table_loop crc [] p q = refl
  byte_loop-table_loop crc (b ∷ bytes) p q =
      ap (λ (r : ℕ). byte_loop cpu r bytes) same
      ∙ byte_loop-table_loop (table_round crc b) bytes (table_loop-lt crc (b ∷ []) p) q.1
    where
      same : cpu.crc32_u8 crc b ≡ table_round crc b
      same = c.u8_bits crc b p q.0 ∙ sym (table_round_bits crc b p q.0)

  byte_loop-append :
      (crc : ℕ) (xs ys : List ℕ)
      → byte_loop cpu crc (xs ++ ys) ≡ byte_loop cpu (byte_loop cpu crc xs) ys
  unfolding byte_loop
  byte_loop-append crc [] ys = refl
  byte_loop-append crc (x ∷ xs) ys = byte_loop-append (cpu.crc32_u8 crc x) xs ys

  -- One instruction on a chunk does what eight do on its bytes.
  chunk_bytes :
      (crc : ℕ) (chunk : List ℕ)
      → length chunk ≡ 8
      → crc < 2 ^ 32
      → All IsByte chunk
      → cpu.crc32_u64 crc (of_le chunk) ≡ byte_loop cpu crc chunk
  chunk_bytes crc chunk eight p q =
      c.u64_bytes crc (of_le chunk) p
      ∙ ap (byte_loop cpu crc)
          (ap (λ (n : ℕ). le_bytes n (of_le chunk)) (sym eight) ∙ le_bytes-of_le chunk q)

  chunk_loop-byte_loop :
      (fuel crc : ℕ) (bytes : List ℕ)
      → length bytes ≤ fuel
      → crc < 2 ^ 32
      → All IsByte bytes
      → chunk_loop cpu fuel crc bytes ≡ byte_loop cpu crc bytes
  unfolding chunk_loop
  chunk_loop-byte_loop zero crc bytes h p q = ap (λ (r : ℕ). byte_loop cpu r bytes) (mod-eq_of_lt p)
  chunk_loop-byte_loop (suc fuel) crc bytes h p q = elim (Bool-cases (leb 8 (length bytes))) [
    | inl e ↦ rw e (
        let many : 8 ≤ length bytes = leb→le 8 (length bytes) e in
        let eight : length (take 8 bytes) ≡ 8 = omega (arith, length-take 8 bytes) in
        let chunk = chunk_bytes crc (take 8 bytes) eight p (All-take IsByte 8 bytes q) in
        let after = chunk ∙ byte_loop-table_loop crc (take 8 bytes) p (All-take IsByte 8 bytes q) in
        let small : cpu.crc32_u64 crc (of_le (take 8 bytes)) < 2 ^ 32 =
          omega (arith, after, table_loop-lt crc (take 8 bytes) p) in
        chunk_loop-byte_loop fuel (cpu.crc32_u64 crc (of_le (take 8 bytes))) (drop 8 bytes)
          (omega (arith, length-drop 8 bytes)) small (All-drop IsByte 8 bytes q)
        ∙ ap (λ (r : ℕ). byte_loop cpu r (drop 8 bytes)) chunk
        ∙ sym (byte_loop-append crc (take 8 bytes) (drop 8 bytes))
        ∙ ap (byte_loop cpu crc) (take-append-drop 8 bytes))
    | inr e ↦ rw e (ap (λ (r : ℕ). byte_loop cpu r bytes) (mod-eq_of_lt p))
  ]

  -- Whatever the processor, `crc32c` of some bytes is what the table gives.
  pub crc32c_agrees : (bytes : List ℕ) → All IsByte bytes → crc32c cpu bytes ≡ crc32c_software bytes
  unfolding crc32c crc32c_sse42 crc32c_software
  crc32c_agrees bytes q = either_way cpu.has_sse42 (
      ap (λ (r : ℕ). bit_xor 32 r all_ones)
        (chunk_loop-byte_loop (length bytes) all_ones bytes (omega arith) (omega arith) q
          ∙ byte_loop-table_loop all_ones bytes (omega arith) q))
    where
      either_way : (b : Bool) {x y : ℕ} → x ≡ y → (if b then x else y) ≡ y
      either_way true e = e
      either_way false e = refl
