-- ===== src/Ingest/Serializer.antt =====
-- include/ironpulse/ingest/serializer.hpp: batches of samples as bytes.
pub mod Layout
pub mod Headers
pub mod RoundTrip
pub mod Damage
mod Examples
use ironpulse.Prelude.{
  ℕ, zero, suc, ◌+◌, ◌-◌, ◌*◌, ◌%◌, ◌^◌, Bool, true, false, ltb, ◌==◌, not, ◌||◌, if◌then◌else◌,
  List, [], ◌∷◌, ◌++◌, length, take, drop, replicate,
}
use ironpulse.Prelude.Bytes.{le_bytes, of_le}
use ironpulse.Ingest.Crc.{Cpu, crc32c}

pub record TelemetrySample (D : Type 0) : Type 0 where
  pub timestamp_ms : ℕ
  pub value : D
  pub tag_id : ℕ
  pub quality : ℕ
  -- three bytes, as one number
  pub reserved : ℕ

pub record BatchHeader : Type 0 where
  pub magic : ℕ
  pub version : ℕ
  pub flags : ℕ
  pub count : ℕ
  pub payload_crc32c : ℕ

pub data DecodeStatus : Type 0 where
  ok : DecodeStatus
  too_short : DecodeStatus
  bad_magic : DecodeStatus
  unsupported_version : DecodeStatus
  truncated : DecodeStatus
  crc_mismatch : DecodeStatus
  misaligned : DecodeStatus

abbrev pub batch_magic : ℕ
batch_magic = 0x434C5041

abbrev pub format_version : ℕ
format_version = 2

-- `sizeof(BatchHeader)` and `sizeof(TelemetrySample)`
abbrev pub header_size : ℕ
header_size = 16

abbrev pub sample_size : ℕ
sample_size = 24

abbrev pub max_uint32 : ℕ
max_uint32 = 0xFFFFFFFF

-- In `size_t`.
unfoldable pub required_buffer_size : ℕ → ℕ
required_buffer_size sample_count = (header_size + sample_count * sample_size) % 2 ^ 64

-- The memory of a header, and a header from memory.
unfoldable pub header_bytes : BatchHeader → List ℕ
header_bytes h =
    le_bytes 4 h.magic
    ++ (le_bytes 2 h.version
        ++ (le_bytes 2 h.flags ++ (le_bytes 4 h.count ++ le_bytes 4 h.payload_crc32c)))

unfoldable pub header_of : List ℕ → BatchHeader
header_of bytes = record {
  magic = of_le (take 4 bytes);
  version = of_le (take 2 (drop 4 bytes));
  flags = of_le (take 2 (drop 6 bytes));
  count = of_le (take 4 (drop 8 bytes));
  payload_crc32c = of_le (take 4 (drop 12 bytes));
}

abbrev pub no_header : BatchHeader
no_header = record { magic = 0; version = 0; flags = 0; count = 0; payload_crc32c = 0 }

-- `peek`, with its two output parameters: what they hold before, and after. The checks of a header
-- that was read from a span of `size` bytes come first.
unfoldable pub peek_header : ℕ → BatchHeader → ℕ → DecodeStatus × BatchHeader × ℕ
peek_header size header batch_bytes =
    let total = required_buffer_size header.count in
    if not (header.magic == batch_magic)
    then (bad_magic, header, batch_bytes)
    else if not (header.version == format_version)
    then (unsupported_version, header, batch_bytes)
    else (if ltb size total then truncated else ok, header, total)

unfoldable pub peek : List ℕ → BatchHeader → ℕ → DecodeStatus × BatchHeader × ℕ
peek bytes header batch_bytes =
    if ltb (length bytes) header_size
    then (too_short, header, batch_bytes)
    else peek_header (length bytes) (header_of (take header_size bytes)) batch_bytes

-- The memory of a `double` is the 64-bit number `to_bits`.
module _ {D : Type 0} (to_bits : D → ℕ) (of_bits : ℕ → D) where
  unfoldable pub sample_bytes : TelemetrySample D → List ℕ
  sample_bytes s =
      le_bytes 8 s.timestamp_ms
      ++ (le_bytes 8 (to_bits s.value)
          ++ (le_bytes 4 s.tag_id ++ (le_bytes 1 s.quality ++ le_bytes 3 s.reserved)))

  unfoldable pub sample_of : List ℕ → TelemetrySample D
  sample_of bytes = record {
    timestamp_ms = of_le (take 8 bytes);
    value = of_bits (of_le (take 8 (drop 8 bytes)));
    tag_id = of_le (take 4 (drop 16 bytes));
    quality = of_le (take 1 (drop 20 bytes));
    reserved = of_le (take 3 (drop 21 bytes));
  }

  -- An array of samples in memory, and that many samples from memory.
  unfoldable pub samples_bytes : List (TelemetrySample D) → List ℕ
  samples_bytes [] = []
  samples_bytes (s ∷ samples) = sample_bytes s ++ samples_bytes samples

  unfoldable pub samples_of : ℕ → List ℕ → List (TelemetrySample D)
  samples_of zero bytes = []
  samples_of (suc count) bytes =
      sample_of (take sample_size bytes) ∷ samples_of count (drop sample_size bytes)

  module _ (cpu : Cpu) where
    unfoldable pub header_for : List (TelemetrySample D) → BatchHeader
    header_for samples = record {
      magic = batch_magic;
      version = format_version;
      flags = 0;
      count = length samples % 2 ^ 32;
      payload_crc32c = crc32c cpu (samples_bytes samples);
    }

    -- The number of bytes written, and the buffer after.
    unfoldable pub serialize : List (TelemetrySample D) → List ℕ → ℕ × List ℕ
    serialize samples out =
        let total = required_buffer_size (length samples) in
        if ltb (length out) total || ltb max_uint32 (length samples)
        then (0, out)
        else (total, header_bytes (header_for samples) ++ (samples_bytes samples ++ drop total out))

    unfoldable pub serialize_new : List (TelemetrySample D) → List ℕ
    serialize_new samples =
        (serialize samples (replicate (required_buffer_size (length samples)) 0)).1

    unfoldable pub payload_of : List ℕ → ℕ → List ℕ
    payload_of bytes batch_bytes = take (batch_bytes - header_size) (drop header_size bytes)

    -- How `decode_view` and `decode_copy` begin, from the result of `peek` on: the status of the
    -- header, or the check of the samples.
    unfoldable pub check_payload : List ℕ → DecodeStatus × BatchHeader × ℕ → DecodeStatus
    check_payload bytes (ok, header, batch_bytes) =
        if not (crc32c cpu (payload_of bytes batch_bytes) == header.payload_crc32c)
        then crc_mismatch
        else ok
    check_payload bytes (status, header, batch_bytes) = status

    -- How they end: the span of the samples in place, and the vector with the samples appended.
    unfoldable pub view_payload :
        ℕ
        → List ℕ
        → BatchHeader
        → ℕ
        → List (TelemetrySample D)
        → DecodeStatus
        → DecodeStatus × List (TelemetrySample D)
    view_payload address bytes header batch_bytes samples ok =
        if not ((address + header_size) % 8 == 0)
        then (misaligned, samples)
        else (ok, samples_of header.count (payload_of bytes batch_bytes))
    view_payload address bytes header batch_bytes samples status = (status, samples)

    unfoldable pub copy_payload :
        List ℕ
        → BatchHeader
        → ℕ
        → List (TelemetrySample D)
        → DecodeStatus
        → DecodeStatus × List (TelemetrySample D)
    copy_payload bytes header batch_bytes out ok =
        (ok, out ++ samples_of header.count (payload_of bytes batch_bytes))
    copy_payload bytes header batch_bytes out status = (status, out)

    -- `address` is the place of the first byte in memory; the samples are what the span shows.
    unfoldable pub decode_view :
        ℕ → List ℕ → List (TelemetrySample D) → DecodeStatus × List (TelemetrySample D)
    decode_view address bytes samples =
        let peeked = peek bytes no_header 0 in
        view_payload address bytes peeked.1 peeked.2 samples (check_payload bytes peeked)

    unfoldable pub decode_copy :
        List ℕ → List (TelemetrySample D) → DecodeStatus × List (TelemetrySample D)
    decode_copy bytes out =
        let peeked = peek bytes no_header 0 in
        copy_payload bytes peeked.1 peeked.2 out (check_payload bytes peeked)
