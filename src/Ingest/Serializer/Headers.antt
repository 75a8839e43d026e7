-- ===== src/Ingest/Serializer/Headers.antt =====
-- include/ironpulse/ingest/serializer.hpp: the bytes of a batch header.
use ironpulse.Prelude.{
  ℕ, ◌+◌, ◌^◌, ◌<◌, ◌≡◌, refl, ap, ◌∙◌, ltb, ==_iff, if◌then◌else◌, List, ◌++◌, length, take,
  length-append, le→not_ltb, arith,
}
use ironpulse.Prelude.Bytes.{le_bytes, of_le-le_bytes}
use ironpulse.Prelude.Pieces.{take-append}
use ironpulse.Ingest.Serializer.{
  BatchHeader, ok, truncated, batch_magic, format_version, header_size, required_buffer_size,
  header_bytes, header_of, peek_header, peek,
}

pub record IsHeader (h : BatchHeader) : Type 0 where
  pub magic_lt : h.magic < 256 ^ 4
  pub version_lt : h.version < 256 ^ 2
  pub flags_lt : h.flags < 256 ^ 2
  pub count_lt : h.count < 256 ^ 4
  pub crc_lt : h.payload_crc32c < 256 ^ 4

pub length-header_bytes : (h : BatchHeader) → length (header_bytes h) ≡ 16
unfolding header_bytes le_bytes
length-header_bytes h = refl

pub header_of-header_bytes : (h : BatchHeader) → IsHeader h → header_of (header_bytes h) ≡ h
unfolding header_bytes header_of le_bytes
header_of-header_bytes h p = λ i. record {
  magic = of_le-le_bytes 4 h.magic p.magic_lt i;
  version = of_le-le_bytes 2 h.version p.version_lt i;
  flags = of_le-le_bytes 2 h.flags p.flags_lt i;
  count = of_le-le_bytes 4 h.count p.count_lt i;
  payload_crc32c = of_le-le_bytes 4 h.payload_crc32c p.crc_lt i;
}

peek_header_good :
    (size : ℕ) (h : BatchHeader) (n : ℕ)
    → h.magic ≡ batch_magic
    → h.version ≡ format_version
    → peek_header size h n ≡ (
      if ltb size (required_buffer_size h.count) then truncated else ok,
      h,
      required_buffer_size h.count,
    )
unfolding peek_header
peek_header_good size h n m v =
    ground (arith, ==_iff h.magic batch_magic, ==_iff h.version format_version)

-- What `peek` finds at the start of a header laid out in bytes.
pub peek-header_bytes :
    (h : BatchHeader) (rest : List ℕ) (before : BatchHeader) (n : ℕ)
    → IsHeader h
    → h.magic ≡ batch_magic
    → h.version ≡ format_version
    → peek (header_bytes h ++ rest) before n ≡ (
      if ltb (16 + length rest) (required_buffer_size h.count) then truncated else ok,
      h,
      required_buffer_size h.count,
    )
unfolding peek
peek-header_bytes h rest before n p m v = rw long (
    rw (le→not_ltb (16 + length rest) 16 (omega arith))
      (rw found (peek_header_good (16 + length rest) h n m v)))
  where
    long : length (header_bytes h ++ rest) ≡ 16 + length rest
    long = omega (arith, length-append (header_bytes h) rest, length-header_bytes h)

    found : header_of (take header_size (header_bytes h ++ rest)) ≡ h
    found =
        ap header_of (take-append 16 (header_bytes h) rest (length-header_bytes h))
        ∙ header_of-header_bytes h p
