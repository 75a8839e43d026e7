-- ===== src/Ingest/Segment.antt =====
-- src/ingest/segment.cpp, `read_segment`: a segment file is the list of its bytes.
pub mod Writer
pub mod Ends
pub mod Batches
pub mod Recovered
pub mod Prefix
mod Examples
use ironpulse.Prelude.{
  ◌>>=◌, ℕ, zero, suc, ◌+◌, ◌-◌, ◌*◌, ◌/◌, ◌%◌, ◌^◌, Bool, true, false, not, ltb, leb, ◌==◌, ◌||◌,
  if◌then◌else◌, List, [], ◌∷◌, ◌++◌, Option, none, some, length, take, drop, replicate,
}
use mathlib.Core.Option.{map}
use ironpulse.Prelude.Bytes.{le_bytes, of_le}
use ironpulse.Ingest.Crc.{Cpu, crc32c}
use ironpulse.Ingest.Serializer.{
  TelemetrySample, BatchHeader, DecodeStatus, ok, too_short, bad_magic, unsupported_version,
  truncated, crc_mismatch, misaligned, batch_magic, header_size, no_header, peek, samples_of,
}

pub record SegmentHeader : Type 0 where
  pub magic : ℕ
  pub version : ℕ
  pub flags : ℕ
  -- as a 64-bit pattern
  pub created_ms : ℕ
  pub tag_table_bytes : ℕ
  pub tag_table_crc32c : ℕ
  pub reserved : ℕ

abbrev pub segment_magic : ℕ
segment_magic = 0x47535049

abbrev pub segment_version : ℕ
segment_version = 1

-- `sizeof(SegmentHeader)`
abbrev pub segment_header_size : ℕ
segment_header_size = 32

unfoldable pub align8 : ℕ → ℕ
align8 n = (n + 7) % 2 ^ 64 / 8 * 8

unfoldable pub segment_header_bytes : SegmentHeader → List ℕ
segment_header_bytes h =
    le_bytes 4 h.magic
    ++ (le_bytes 2 h.version
        ++ (le_bytes 2 h.flags
            ++ (le_bytes 8 h.created_ms
                ++ (le_bytes 4 h.tag_table_bytes
                    ++ (le_bytes 4 h.tag_table_crc32c ++ le_bytes 8 h.reserved)))))

unfoldable pub segment_header_of : List ℕ → SegmentHeader
segment_header_of bytes = record {
  magic = of_le (take 4 bytes);
  version = of_le (take 2 (drop 4 bytes));
  flags = of_le (take 2 (drop 6 bytes));
  created_ms = of_le (take 8 (drop 8 bytes));
  tag_table_bytes = of_le (take 4 (drop 16 bytes));
  tag_table_crc32c = of_le (take 4 (drop 20 bytes));
  reserved = of_le (take 8 (drop 24 bytes));
}

pub data SegmentError : Type 0 where
  cannot_open cannot_stat file_too_short bad_segment_magic bad_segment_version : SegmentError
  table_past_end damaged_table malformed_table : SegmentError

-- What the file system gives for a path: no stream, a stream but no size, or the bytes of a file.
pub data OpenedFile : Type 0 where
  unopened without_size : OpenedFile
  readable : List ℕ → OpenedFile

-- The counts of the batches, and the samples that `on_batch` is called with.
pub record Tally (D : Type 0) : Type 0 where
  pub batches : ℕ
  pub samples : ℕ
  pub corrupt_batches : ℕ
  pub truncated_tail : Bool
  pub delivered : List (List (TelemetrySample D))

pub record SegmentReadResult (T D : Type 0) : Type 0 where
  pub tags : List T
  pub created_ms : ℕ
  pub tally : Tally D
  pub error : Option SegmentError

abbrev pub no_tally : {D : Type 0} → Tally D
no_tally = record {
  batches = 0;
  samples = 0;
  corrupt_batches = 0;
  truncated_tail = false;
  delivered = [];
}

-- The inner loop: on from `pos`, in steps of 8, to the next place where a batch may begin, or to
-- the first one where no header fits; none stands for fuel that did not suffice.
unfoldable pub find_batch : ℕ → List ℕ → ℕ → Option ℕ
find_batch zero file pos = none
find_batch (suc fuel) file pos =
    let next = find_batch fuel file (pos + 8) in
    if leb (pos + header_size) (length file)
    then (if of_le (take 4 (drop pos file)) == batch_magic then some pos else next)
    else some pos

-- What `open_segment` writes before the first batch, for a tag table and a time.
unfoldable pub segment_header_for : Cpu → ℕ → List ℕ → SegmentHeader
segment_header_for cpu created tag_table = record {
  magic = segment_magic;
  version = segment_version;
  flags = 0;
  created_ms = created;
  tag_table_bytes = length tag_table % 2 ^ 32;
  tag_table_crc32c = crc32c cpu tag_table;
  reserved = 0;
}

unfoldable pub segment_prefix : Cpu → ℕ → List ℕ → List ℕ
segment_prefix cpu created tag_table =
    let prefix = segment_header_size + length tag_table in
    segment_header_bytes (segment_header_for cpu created tag_table)
    ++ (tag_table ++ replicate (align8 prefix - prefix) 0)

module _ {D : Type 0} (to_bits : D → ℕ) (of_bits : ℕ → D) (cpu : Cpu) where
  -- What a round does with a batch that lies in the file whole.
  unfoldable pub take_batch : BatchHeader → List ℕ → Tally D → Tally D
  take_batch header payload t =
      if crc32c cpu payload == header.payload_crc32c
      then record t {
        batches = t.batches + 1;
        samples = t.samples + header.count;
        delivered = t.delivered ++ (samples_of to_bits of_bits header.count payload ∷ []);
      }
      else record t { corrupt_batches = t.corrupt_batches + 1 }

  abbrev pub cut_short : Tally D → Tally D
  cut_short t = record t { truncated_tail = true }

  -- A round from the result of `peek` on: it goes on by `next`, or ends.
  unfoldable pub read_batch :
      (ℕ → Tally D → Option (Tally D))
      → List ℕ
      → ℕ
      → Tally D
      → DecodeStatus × BatchHeader × ℕ
      → Option (Tally D)
  read_batch next file pos t (bad_magic, header, batch_bytes) =
      find_batch (length file) file (pos + 8) >>= λ q.
      next q record t { corrupt_batches = t.corrupt_batches + 1 }
  read_batch next file pos t (unsupported_version, header, batch_bytes) =
      find_batch (length file) file (pos + 8) >>= λ q.
      next q record t { corrupt_batches = t.corrupt_batches + 1 }
  read_batch next file pos t (status, header, batch_bytes) =
      if ltb (length file) (pos + batch_bytes)
      then some (cut_short t)
      else next (pos + batch_bytes)
          (take_batch header (take (batch_bytes - header_size) (drop (pos + header_size) file)) t)

  -- The loop over the batches; none stands for fuel that did not suffice.
  unfoldable pub read_batches : ℕ → List ℕ → ℕ → Tally D → Option (Tally D)
  read_batches zero file pos t = none
  read_batches (suc fuel) file pos t =
      let rest =
        read_batch (read_batches fuel file) file pos t
          (peek (take header_size (drop pos file)) no_header 0) in
      if leb (length file) pos
      then some t
      else if ltb (length file - pos) header_size
      then some (cut_short t)
      else rest

  -- `decode_tag_table` is a parameter, with none for its exception.
  module _ {T : Type 0} (decode_tag_table : List ℕ → Option (List T)) where
    abbrev pub fails : SegmentError → SegmentReadResult T D
    fails e = record { tags = []; created_ms = 0; tally = no_tally; error = some e }

    unfoldable pub with_tags :
        SegmentHeader → Option (List T) → List ℕ → Option (SegmentReadResult T D)
    with_tags header none file = some (fails malformed_table)
    with_tags header (some tags) file =
        map
          (λ tally. record {
            tags = tags;
            created_ms = header.created_ms;
            tally = tally;
            error = none;
          })
          (read_batches (suc (length file)) file
            (align8 (segment_header_size + header.tag_table_bytes)) no_tally)

    unfoldable pub with_header : SegmentHeader → List ℕ → Option (SegmentReadResult T D)
    with_header header file =
        let table = take header.tag_table_bytes (drop segment_header_size file) in
        if not (header.magic == segment_magic)
        then some (fails bad_segment_magic)
        else if not (header.version == segment_version)
        then some (fails bad_segment_version)
        else if ltb (length file) (segment_header_size + header.tag_table_bytes)
        then some (fails table_past_end)
        else if not (crc32c cpu table == header.tag_table_crc32c)
        then some (fails damaged_table)
        else with_tags header (decode_tag_table table) file

    -- Each round of the loops takes at least 8 bytes, so the length is fuel enough.
    unfoldable pub read_segment : OpenedFile → Option (SegmentReadResult T D)
    read_segment unopened = some (fails cannot_open)
    read_segment without_size = some (fails cannot_stat)
    read_segment (readable file) =
        if ltb (length file) segment_header_size
        then some (fails file_too_short)
        else with_header (segment_header_of (take segment_header_size file)) file
