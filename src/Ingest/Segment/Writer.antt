-- ===== src/Ingest/Segment/Writer.antt =====
-- src/ingest/segment.cpp: the writer of segments, its rotation and its limit on the disk. The name of
-- a new segment, which `open_segment` looks for until it is free, is given with each call.
pub mod Budget
pub mod Deleting
pub mod Calls
mod Examples
use ironpulse.Prelude.{
  ℕ, ◌+◌, ◌-◌, ◌%◌, ◌^◌, Bool, true, false, not, ltb, leb, ◌==◌, if◌then◌else◌, List, [], ◌∷◌, ◌++◌,
  Option, none, some, length, take,
}
use ironpulse.Ingest.Crc.{Cpu}
use ironpulse.Ingest.Segment.{segment_prefix}

pub record SegmentWriterOptions : Type 0 where
  pub max_segment_bytes : ℕ
  pub max_total_bytes : ℕ

-- A file by its name, as its place in the order of names.
pub record SegmentFile : Type 0 where
  pub path : ℕ
  pub content : List ℕ

-- The directory holds the finished segments in the order of their names, the one that `out` writes,
-- and those that could not be renamed.
pub record SegmentWriter : Type 0 where
  pub finished : List SegmentFile
  pub partial : List SegmentFile
  pub out : Option SegmentFile
  pub segment_bytes : ℕ
  pub bytes_written : ℕ
  pub segments_completed : ℕ
  pub segments_deleted : ℕ

-- What the file system answers during a call: whether a file opens, takes the header, takes the batch
-- and can be renamed, how many bytes of a write that failed reach it, and which files it removes.
pub record Disk : Type 0 where
  pub opens : Bool
  pub takes_header : Bool
  pub takes_batch : Bool
  pub renames : Bool
  pub reached : ℕ
  pub removes : SegmentFile → Bool

unfoldable pub add_file : SegmentFile → List SegmentFile → List SegmentFile
add_file f [] = f ∷ []
add_file f (g ∷ files) =
    let rest = add_file f files in if leb f.path g.path then f ∷ g ∷ files else g ∷ rest

unfoldable pub move_file : Bool → SegmentFile → SegmentWriter → SegmentWriter
move_file ok f w =
    if ok
    then record w { finished = add_file f w.finished }
    else record w { partial = f ∷ w.partial }

unfoldable pub finish_file : Disk → Option SegmentFile → SegmentWriter → SegmentWriter
finish_file disk none w = w
finish_file disk (some f) w = record (move_file disk.renames f w) {
  out = none;
  segments_completed = (w.segments_completed + 1) % 2 ^ 64;
  segment_bytes = 0;
}

unfoldable pub finish_segment : Disk → SegmentWriter → SegmentWriter
finish_segment disk w = finish_file disk w.out w

unfoldable pub total_bytes : ℕ → List SegmentFile → ℕ
total_bytes total [] = total
total_bytes total (f ∷ files) = total_bytes ((total + length f.content) % 2 ^ 64) files

-- The loop over the finished segments, which gives those that stay and how many were deleted.
unfoldable pub delete_oldest : Disk → ℕ → ℕ → ℕ → List SegmentFile → List SegmentFile × ℕ
delete_oldest disk limit reserve total [] = ([], 0)
delete_oldest disk limit reserve total (f ∷ files) =
    let less =
      delete_oldest disk limit reserve ((total + 2 ^ 64 - length f.content) % 2 ^ 64) files in
    let same = delete_oldest disk limit reserve total files in
    if leb ((total + reserve) % 2 ^ 64) limit
    then (f ∷ files, 0)
    else if disk.removes f
    then (less.0, less.1 + 1)
    else (f ∷ same.0, same.1)

module _ (options : SegmentWriterOptions) where
  unfoldable pub enforce_total_limit : Disk → ℕ → SegmentWriter → SegmentWriter
  enforce_total_limit disk reserve w =
      let r =
        delete_oldest disk options.max_total_bytes reserve (total_bytes w.segment_bytes w.finished)
          w.finished in
      if options.max_total_bytes == 0
      then w
      else record w { finished = r.0; segments_deleted = (w.segments_deleted + r.1) % 2 ^ 64 }

  -- What the constructor makes of the segments it finds, those of a crash among them.
  unfoldable pub new_writer : Disk → List SegmentFile → SegmentWriter
  new_writer disk found = enforce_total_limit disk 0 record {
    finished = found;
    partial = [];
    out = none;
    segment_bytes = 0;
    bytes_written = 0;
    segments_completed = 0;
    segments_deleted = 0;
  }

  module _ (cpu : Cpu) (tag_table : List ℕ) where
    -- A result is false for an exception.
    unfoldable pub open_segment : Disk → ℕ → ℕ → SegmentWriter → SegmentWriter × Bool
    open_segment disk path created w =
        let prefix = segment_prefix cpu created tag_table in
        if not disk.opens
        then (w, false)
        else if not disk.takes_header
        then (
          finish_segment disk
              record w { out = some record { path = path; content = take disk.reached prefix } },
          false,
        )
        else (
          record w {
            out = some record { path = path; content = prefix };
            segment_bytes = length prefix;
            bytes_written = (w.bytes_written + length prefix) % 2 ^ 64;
          },
          true,
        )

    unfoldable pub append_batch :
        Disk → List ℕ → Option SegmentFile → SegmentWriter → SegmentWriter × Bool
    append_batch disk batch none w = (w, false)
    append_batch disk batch (some f) w =
        if not disk.takes_batch
        then (
          finish_segment disk
              record w { out = some record f { content = f.content ++ take disk.reached batch } },
          false,
        )
        else (
          record w {
            out = some record f { content = f.content ++ batch };
            segment_bytes = (w.segment_bytes + length batch) % 2 ^ 64;
            bytes_written = (w.bytes_written + length batch) % 2 ^ 64;
          },
          true,
        )

    -- With the bytes of the segment that the batch goes to, once it is open.
    unfoldable pub when_open : Disk → List ℕ → SegmentWriter × Bool → SegmentWriter × Bool
    when_open disk batch (w, false) = (w, false)
    when_open disk batch (w, true) = append_batch disk batch w.out w

    unfoldable pub fresh_segment : Disk → ℕ → ℕ → SegmentWriter → SegmentWriter × Bool
    fresh_segment disk path created w =
        open_segment disk path created
          (enforce_total_limit disk options.max_segment_bytes (finish_segment disk w))

    unfoldable pub ready_segment :
        Disk → ℕ → ℕ → List ℕ → Option SegmentFile → SegmentWriter → SegmentWriter × Bool
    ready_segment disk path created batch none w =
        open_segment disk path created (enforce_total_limit disk options.max_segment_bytes w)
    ready_segment disk path created batch (some f) w =
        if ltb options.max_segment_bytes ((w.segment_bytes + length batch) % 2 ^ 64)
        then fresh_segment disk path created w
        else (w, true)

    unfoldable pub write_batch : Disk → ℕ → ℕ → List ℕ → SegmentWriter → SegmentWriter × Bool
    write_batch disk path created batch w =
        when_open disk batch (ready_segment disk path created batch w.out w)

pub data Call : Type 0 where
  batch : Disk → ℕ → ℕ → List ℕ → Call
  close : Disk → Call

module _ (options : SegmentWriterOptions) (cpu : Cpu) (tag_table : List ℕ) where
  unfoldable pub step : Call → SegmentWriter → SegmentWriter
  step (batch disk path created bytes) w =
      (write_batch options cpu tag_table disk path created bytes w).0
  step (close disk) w = finish_segment disk w

  unfoldable pub run : List Call → SegmentWriter → SegmentWriter
  run [] w = w
  run (call ∷ calls) w = run calls (step call w)
