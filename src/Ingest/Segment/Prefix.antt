-- ===== src/Ingest/Segment/Prefix.antt =====
-- src/ingest/segment.cpp: the bytes in front of the batches.
use ironpulse.Prelude.{
  ℕ, ◌+◌, ◌-◌, ◌^◌, ◌<◌, ◌≤◌, ◌≡◌, refl, ap, ◌∙◌, List, ◌++◌, append_assoc, length, replicate, All,
  arith, length-append, length-replicate,
}
use ironpulse.Prelude.Bits.{bit_xor-lt}
use ironpulse.Prelude.Bytes.{le_bytes, of_le-le_bytes, IsByte}
use ironpulse.Ingest.Crc.{Cpu, IsCpu, crc32c, crc32c_software, table_loop, all_ones}
use ironpulse.Ingest.Crc.Agree.{crc32c_agrees}
use ironpulse.Ingest.Segment.{
  SegmentHeader, segment_magic, segment_version, align8, segment_header_bytes, segment_header_of,
  segment_header_for, segment_prefix,
}

pub record IsSegmentHeader (h : SegmentHeader) : Type 0 where
  pub magic_lt : h.magic < 256 ^ 4
  pub version_lt : h.version < 256 ^ 2
  pub flags_lt : h.flags < 256 ^ 2
  pub created_lt : h.created_ms < 256 ^ 8
  pub bytes_lt : h.tag_table_bytes < 256 ^ 4
  pub crc_lt : h.tag_table_crc32c < 256 ^ 4
  pub reserved_lt : h.reserved < 256 ^ 8

pub length-segment_header_bytes : (h : SegmentHeader) → length (segment_header_bytes h) ≡ 32
unfolding segment_header_bytes le_bytes
length-segment_header_bytes h = refl

pub header_back :
    (h : SegmentHeader) → IsSegmentHeader h → segment_header_of (segment_header_bytes h) ≡ h
unfolding segment_header_bytes segment_header_of le_bytes
header_back h p = λ i. record {
  magic = of_le-le_bytes 4 h.magic p.magic_lt i;
  version = of_le-le_bytes 2 h.version p.version_lt i;
  flags = of_le-le_bytes 2 h.flags p.flags_lt i;
  created_ms = of_le-le_bytes 8 h.created_ms p.created_lt i;
  tag_table_bytes = of_le-le_bytes 4 h.tag_table_bytes p.bytes_lt i;
  tag_table_crc32c = of_le-le_bytes 4 h.tag_table_crc32c p.crc_lt i;
  reserved = of_le-le_bytes 8 h.reserved p.reserved_lt i;
}

pub align8_ge : (n : ℕ) → n < 2 ^ 33 → n ≤ align8 n
unfolding align8
align8_ge n h = omega (arith, h)

module _ (cpu : Cpu) (c : IsCpu cpu) (created : ℕ) (table : List ℕ) (created_lt : created < 2 ^ 64)
    (small : length table < 2 ^ 32) (bytes : All IsByte table) where
  pub for-IsSegmentHeader : IsSegmentHeader (segment_header_for cpu created table)
  unfolding segment_header_for crc32c_software
  for-IsSegmentHeader = record {
    magic_lt = omega arith;
    version_lt = omega arith;
    flags_lt = omega arith;
    created_lt = created_lt;
    bytes_lt = omega arith;
    crc_lt = omega (
      arith,
      crc32c_agrees cpu c table bytes,
      bit_xor-lt 32 (table_loop all_ones table) all_ones,
    );
    reserved_lt = omega arith;
  }

  pub fields :
      ((segment_header_for cpu created table).magic ≡ segment_magic)
      × ((segment_header_for cpu created table).version ≡ segment_version)
      × ((segment_header_for cpu created table).tag_table_bytes ≡ length table)
      × ((segment_header_for cpu created table).tag_table_crc32c ≡ crc32c cpu table)
      × ((segment_header_for cpu created table).created_ms ≡ created)
  unfolding segment_header_for
  fields = (refl, refl, omega (arith, small), refl, refl)

  pub length-segment_prefix : length (segment_prefix cpu created table) ≡ align8 (32 + length table)
  unfolding segment_prefix
  length-segment_prefix = omega (
    arith,
    length-append (segment_header_bytes (segment_header_for cpu created table))
        (table ++ replicate (align8 (32 + length table) - (32 + length table)) 0),
    length-append table (replicate (align8 (32 + length table) - (32 + length table)) 0),
    length-replicate {A = ℕ} (align8 (32 + length table) - (32 + length table)) 0,
    length-segment_header_bytes (segment_header_for cpu created table),
    align8_ge (32 + length table) (omega (arith, small)),
  )

pub prefix_split :
    (cpu : Cpu) (created : ℕ) (table body : List ℕ)
    → segment_prefix cpu created table ++ body
      ≡ segment_header_bytes (segment_header_for cpu created table)
        ++ (table ++ (replicate (align8 (32 + length table) - (32 + length table)) 0 ++ body))
unfolding segment_prefix
prefix_split cpu created table body =
    let zeros : List ℕ = replicate (align8 (32 + length table) - (32 + length table)) 0 in
    append_assoc (segment_header_bytes (segment_header_for cpu created table)) (table ++ zeros) body
    ∙ ap (λ (xs : List ℕ). segment_header_bytes (segment_header_for cpu created table) ++ xs)
        (append_assoc table zeros body)
