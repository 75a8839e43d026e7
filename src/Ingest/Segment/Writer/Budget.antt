-- ===== src/Ingest/Segment/Writer/Budget.antt =====
-- src/ingest/segment.cpp: the directory stays within the limit on its bytes.
use ironpulse.Prelude.{
  ℕ, ◌+◌, ◌^◌, ◌≤◌, ◌<◌, ◌≡◌, refl, ap, List, [], ◌∷◌, Option, none, some, length, All, arith,
}
use ironpulse.Ingest.Crc.{Cpu}
use ironpulse.Ingest.Segment.{segment_prefix}
use ironpulse.Ingest.Segment.Writer.{
  SegmentWriterOptions, SegmentFile, SegmentWriter, Disk, finish_file, finish_segment,
  enforce_total_limit, new_writer, Call, batch, close, step, run,
}
use ironpulse.Ingest.Segment.Writer.Calls.{
  FitsWith, Fits, empty-Fits, finish_file-HasRoom, enforce-HasRoom, write_batch-Fits,
}
use ironpulse.Ingest.Segment.Writer.Deleting.{bytes_of, Works}

close-Fits :
    (options : SegmentWriterOptions) (disk : Disk) (o : Option SegmentFile) (w : SegmentWriter)
    → Works disk
    → w.out ≡ o
    → FitsWith options o w
    → Fits options (finish_file disk o w)
unfolding finish_file
close-Fits options disk none w works e h = empty-Fits options w h
close-Fits options disk (some f) w works e h =
    empty-Fits options (finish_file disk (some f) w)
      (finish_file-HasRoom options disk f w works.0 (omega (arith, h.0, h.1)) h.2 h.3)

-- All bytes in the directory.
abbrev pub open_bytes : Option SegmentFile → ℕ
open_bytes none = 0
open_bytes (some f) = length f.content

abbrev pub directory_bytes : SegmentWriter → ℕ
directory_bytes w = bytes_of w.finished + bytes_of w.partial + open_bytes w.out

module _ (options : SegmentWriterOptions) (cpu : Cpu) (tag_table : List ℕ) where
  -- A batch fits into a segment of its own.
  abbrev pub IsCall : Call → Type 0
  IsCall (batch disk path created bytes) =
      Works disk
      × (length (segment_prefix cpu created tag_table) + length bytes ≤ options.max_segment_bytes)
  IsCall (close disk) = Works disk

  within_limit :
      (o : Option SegmentFile) (w : SegmentWriter)
      → FitsWith options o w
      → bytes_of w.finished + bytes_of w.partial + open_bytes o ≤ options.max_total_bytes
  unfolding bytes_of
  within_limit none w h = omega (arith, h.3, ap bytes_of h.2)
  within_limit (some f) w h = omega (arith, h.0, h.1, h.3, ap bytes_of h.2)

  module _ (positive : 0 < options.max_total_bytes)
      (total_small : options.max_total_bytes + options.max_segment_bytes < 2 ^ 64)
      (segment_small : options.max_segment_bytes ≤ options.max_total_bytes) where
    step-Fits :
        (call : Call) (w : SegmentWriter)
        → IsCall call
        → Fits options w
        → Fits options (step options cpu tag_table call w)
    unfolding step finish_segment
    step-Fits (batch disk path created bytes) w p h =
        write_batch-Fits options positive cpu tag_table bytes path created disk p.0 total_small
          segment_small p.1 w h
    step-Fits (close disk) w p h = close-Fits options disk w.out w p refl h

    run-Fits :
        (calls : List Call) (w : SegmentWriter)
        → All IsCall calls
        → Fits options w
        → Fits options (run options cpu tag_table calls w)
    unfolding run
    run-Fits [] w p h = h
    run-Fits (call ∷ calls) w p h =
        run-Fits calls (step options cpu tag_table call w) p.1 (step-Fits call w p.0 h)

-- A writer with a limit of at least one segment, whatever it finds in the directory when it starts,
-- keeps the directory within the limit after every sequence of calls of write_batch and close in
-- which each batch fits into a segment of its own, also where files cannot be opened or written, if
-- files can be renamed and removed.
pub directory_bytes-run :
    (options : SegmentWriterOptions) (cpu : Cpu) (tag_table : List ℕ) (disk : Disk)
    (found : List SegmentFile) (calls : List Call)
    → 0 < options.max_total_bytes
    → options.max_total_bytes + options.max_segment_bytes < 2 ^ 64
    → options.max_segment_bytes ≤ options.max_total_bytes
    → bytes_of found < 2 ^ 64
    → Works disk
    → All (IsCall options cpu tag_table) calls
    → directory_bytes (run options cpu tag_table calls (new_writer options disk found))
      ≤ options.max_total_bytes
unfolding new_writer
directory_bytes-run options cpu tag_table disk found calls positive total_small segment_small small
      works p =
    within_limit options cpu tag_table w.out w (
      run-Fits options cpu tag_table positive total_small segment_small calls started p (
        empty-Fits options started (
          enforce-HasRoom options positive disk 0 empty works (omega arith) refl refl refl
            (omega (arith, small)))))
  where
    empty : SegmentWriter
    empty = record {
      finished = found;
      partial = [];
      out = none;
      segment_bytes = 0;
      bytes_written = 0;
      segments_completed = 0;
      segments_deleted = 0;
    }

    started : SegmentWriter
    started = enforce_total_limit options disk 0 empty

    w : SegmentWriter
    w = run options cpu tag_table calls started
