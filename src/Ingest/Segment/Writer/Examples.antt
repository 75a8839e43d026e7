-- ===== src/Ingest/Segment/Writer/Examples.antt =====
-- src/ingest/segment.cpp: segments of 64 bytes in a directory of 128.
use ironpulse.Prelude.{
  ℕ, ◌+◌, ◌^◌, ◌<◌, ◌≤◌, ◌≡◌, refl, true, List, [], ◌∷◌, length, map, replicate, arith,
}
use ironpulse.Prelude.Bytes.{le_bytes}
use ironpulse.Ingest.Crc.Machines.{plain_cpu}
use ironpulse.Ingest.Segment.{segment_prefix, segment_header_bytes, align8}
use ironpulse.Ingest.Segment.Writer.{
  SegmentWriterOptions, SegmentFile, Disk, add_file, move_file, finish_file, finish_segment,
  total_bytes, delete_oldest, enforce_total_limit, new_writer, open_segment, append_batch,
  when_open, fresh_segment, ready_segment, write_batch, Call, batch, close, step, run,
}
use ironpulse.Ingest.Segment.Writer.Deleting.{bytes_of}
use ironpulse.Ingest.Segment.Writer.Budget.{directory_bytes, directory_bytes-run}

abbrev options : SegmentWriterOptions
options = record { max_segment_bytes = 64; max_total_bytes = 128 }

abbrev disk : Disk
disk = record {
  opens = true;
  takes_header = true;
  takes_batch = true;
  renames = true;
  reached = 0;
  removes = λ _. true;
}

abbrev zeros : List ℕ
zeros = replicate 24 0

abbrev call : ℕ → Call
call path = batch disk path 77 zeros

abbrev calls : List Call
calls = call 1 ∷ call 2 ∷ call 3 ∷ close disk ∷ []

abbrev found : List SegmentFile
found = record { path = 0; content = replicate 100 0 } ∷ []

-- Each batch has a segment of its own, and the oldest two were deleted.
kept_paths :
    map (λ f. f.path) (run options plain_cpu [] calls (new_writer options disk found)).finished
    ≡ 2 ∷ 3 ∷ []
unfolding run step write_batch ready_segment fresh_segment when_open append_batch open_segment
    new_writer enforce_total_limit delete_oldest total_bytes finish_segment finish_file move_file
    add_file segment_prefix segment_header_bytes le_bytes align8
kept_paths = refl

alone_small : length (segment_prefix plain_cpu 77 []) + length zeros ≤ 64
unfolding segment_prefix segment_header_bytes le_bytes align8
alone_small = omega arith

found_small : bytes_of found < 2 ^ 64
unfolding bytes_of
found_small = omega arith

directory_bytes-run_example :
    directory_bytes (run options plain_cpu [] calls (new_writer options disk found)) ≤ 128
directory_bytes-run_example =
    directory_bytes-run options plain_cpu [] disk found calls (omega arith) (omega arith)
      (omega arith) found_small (refl, λ _. refl)
      (
        ((refl, λ _. refl), alone_small),
        (
          ((refl, λ _. refl), alone_small),
          (((refl, λ _. refl), alone_small), ((refl, λ _. refl), tt)),
        ),
      )
