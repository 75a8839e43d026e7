-- ===== src/Ingest/Segment/Writer/Calls.antt =====
-- src/ingest/segment.cpp: each call of the writer keeps to the limit.
use ironpulse.Prelude.{
  ℕ, ◌+◌, ◌%◌, ◌^◌, ◌≤◌, ◌<◌, ◌≡◌, refl, sym, ap, subst, ◌∙◌, Bool, true, not, ltb, ◌==◌, ==_iff,
  if_cases, not_ltb→le, true_ne_false, List, [], ◌++◌, Option, none, some, length, length-append,
  length-take, take, arith,
}
use ironpulse.Ingest.Crc.{Cpu}
use ironpulse.Ingest.Segment.{segment_prefix}
use ironpulse.Ingest.Segment.Writer.{
  SegmentWriterOptions, SegmentFile, SegmentWriter, Disk, move_file, finish_file, finish_segment,
  total_bytes, delete_oldest, enforce_total_limit, open_segment, append_batch, when_open,
  fresh_segment, ready_segment, write_batch,
}
use ironpulse.Ingest.Segment.Writer.Deleting.{
  bytes_of, Works, bytes_of-add_file, total_bytes_lem, delete_oldest-Leaves,
}

module _ (options : SegmentWriterOptions) where
  -- With no segment open, and that many bytes left for one.
  abbrev HasRoom : ℕ → SegmentWriter → Type 0
  HasRoom n w =
      (w.out ≡ none)
      × (w.segment_bytes ≡ 0)
      × (w.partial ≡ [])
      × (bytes_of w.finished + n ≤ options.max_total_bytes)

  -- With that file open.
  abbrev Opened : SegmentFile → SegmentWriter → Type 0
  Opened f w =
      (length f.content ≡ w.segment_bytes)
      × (w.segment_bytes ≤ options.max_segment_bytes)
      × (w.partial ≡ [])
      × (bytes_of w.finished + options.max_segment_bytes ≤ options.max_total_bytes)

  abbrev pub FitsWith : Option SegmentFile → SegmentWriter → Type 0
  FitsWith none w = HasRoom 0 w
  FitsWith (some f) w = Opened f w

  abbrev pub Fits : SegmentWriter → Type 0
  Fits w = FitsWith w.out w

  pub empty-Fits : (w : SegmentWriter) → HasRoom 0 w → Fits w
  empty-Fits w h = subst (λ o. FitsWith o w) (sym h.0) h

  pub finish_file-HasRoom :
      (disk : Disk) (f : SegmentFile) (w : SegmentWriter)
      → disk.renames ≡ true
      → length f.content ≤ options.max_segment_bytes
      → w.partial ≡ []
      → bytes_of w.finished + options.max_segment_bytes ≤ options.max_total_bytes
      → HasRoom 0 (finish_file disk (some f) w)
  unfolding finish_file move_file
  finish_file-HasRoom disk f w renames small none_left h = (
    refl,
    refl,
    if_cases (λ (v : SegmentWriter). v.partial ≡ []) disk.renames (λ _. none_left)
        λ e. absurd (true_ne_false (sym renames ∙ e)),
    if_cases (λ (v : SegmentWriter). bytes_of v.finished + 0 ≤ options.max_total_bytes) disk.renames
        (λ _. omega (arith, small, h, bytes_of-add_file f w.finished))
        λ e. absurd (true_ne_false (sym renames ∙ e)),
  )

  module _ (positive : 0 < options.max_total_bytes) where
    pub enforce-HasRoom :
        (disk : Disk) (reserve : ℕ) (w : SegmentWriter)
        → Works disk
        → reserve ≤ options.max_total_bytes
        → w.out ≡ none
        → w.segment_bytes ≡ 0
        → w.partial ≡ []
        → bytes_of w.finished + reserve < 2 ^ 64
        → HasRoom reserve (enforce_total_limit options disk reserve w)
    unfolding enforce_total_limit
    enforce-HasRoom disk reserve w works room shut no_bytes none_left small =
        if_cases (HasRoom reserve) (options.max_total_bytes == 0)
          (λ e. absurd (omega (arith, positive, (==_iff options.max_total_bytes 0).0 e)))
          λ _. (
            shut,
            no_bytes,
            none_left,
            subst
                (λ t.
                  bytes_of (delete_oldest disk options.max_total_bytes reserve t w.finished).0
                    + reserve
                  ≤ options.max_total_bytes)
                (sym (
                  ap (λ b. total_bytes b w.finished) no_bytes
                  ∙ total_bytes_lem 0 w.finished (omega (arith, small))
                  ∙ zero_plus (bytes_of w.finished)))
                (delete_oldest-Leaves disk options.max_total_bytes reserve works room w.finished
                  small),
          )
      where
        zero_plus : (n : ℕ) → 0 + n ≡ n
        zero_plus n = omega arith

    module _ (cpu : Cpu) (tag_table bytes : List ℕ) (path created : ℕ) (disk : Disk)
        (works : Works disk)
        (total_small : options.max_total_bytes + options.max_segment_bytes < 2 ^ 64)
        (segment_small : options.max_segment_bytes ≤ options.max_total_bytes)
        (batch_small : length (segment_prefix cpu created tag_table) + length bytes
          ≤ options.max_segment_bytes) where
      taken : (n : ℕ) (xs : List ℕ) → length (take n xs) ≤ length xs
      taken n xs = omega (arith, length-take n xs)

      append-Fits :
          (f : SegmentFile) (w : SegmentWriter)
          → Opened f w
          → w.segment_bytes + length bytes ≤ options.max_segment_bytes
          → Fits (append_batch options cpu tag_table disk bytes (some f) w).0
      unfolding append_batch finish_segment
      append-Fits f w h small =
          if_cases (λ (r : SegmentWriter × Bool). Fits r.0) (not disk.takes_batch)
            (λ _. empty-Fits failed (
              finish_file-HasRoom disk torn (record w { out = some torn }) works.0
                (omega (
                  arith,
                  h.0,
                  small,
                  length-append f.content (take disk.reached bytes),
                  taken disk.reached bytes,
                ))
                h.2 h.3))
            λ _. (
              omega (arith, h.0, small, total_small, segment_small, length-append f.content bytes),
              omega (arith, small, total_small, segment_small),
              h.2,
              h.3,
            )
        where
          torn : SegmentFile
          torn = record f { content = f.content ++ take disk.reached bytes }

          failed : SegmentWriter
          failed = finish_file disk (some torn) record w { out = some torn }

      open_segment-Fits :
          (w : SegmentWriter)
          → HasRoom options.max_segment_bytes w
          → Fits
              (when_open options cpu tag_table disk bytes
                (open_segment options cpu tag_table disk path created w)).0
      unfolding open_segment when_open finish_segment
      open_segment-Fits w h =
          if_cases Goal (not disk.opens) (λ _. empty-Fits w (h.0, h.1, h.2, omega (arith, h.3)))
            λ _.
              if_cases Goal (not disk.takes_header)
                (λ _. empty-Fits (finish_file disk (some torn) record w { out = some torn }) (
                  finish_file-HasRoom disk torn (record w { out = some torn }) works.0
                    (omega (arith, batch_small, taken disk.reached prefix)) h.2 h.3))
                λ _.
                  append-Fits (record { path = path; content = prefix }) started
                    (refl, omega (arith, batch_small), h.2, h.3) batch_small
        where
          prefix : List ℕ
          prefix = segment_prefix cpu created tag_table

          torn : SegmentFile
          torn = record { path = path; content = take disk.reached prefix }

          started : SegmentWriter
          started = record w {
            out = some record { path = path; content = prefix };
            segment_bytes = length prefix;
            bytes_written = (w.bytes_written + length prefix) % 2 ^ 64;
          }

          Goal : SegmentWriter × Bool → Type 0
          Goal r = Fits (when_open options cpu tag_table disk bytes r).0

      enforced-Fits :
          (w : SegmentWriter)
          → HasRoom 0 w
          → Fits
              (when_open options cpu tag_table disk bytes (
                open_segment options cpu tag_table disk path created
                  (enforce_total_limit options disk options.max_segment_bytes w))).0
      enforced-Fits w h =
          open_segment-Fits (enforce_total_limit options disk options.max_segment_bytes w) (
            enforce-HasRoom disk options.max_segment_bytes w works segment_small h.0 h.1 h.2
              (omega (arith, h.3, total_small)))

      finish_segment-HasRoom :
          (f : SegmentFile) (w : SegmentWriter)
          → w.out ≡ some f
          → Opened f w
          → HasRoom 0 (finish_segment disk w)
      unfolding finish_segment
      finish_segment-HasRoom f w e h =
          subst (λ o. HasRoom 0 (finish_file disk o w)) (sym e)
            (finish_file-HasRoom disk f w works.0 (omega (arith, h.0, h.1)) h.2 h.3)

      ready_segment-Fits :
          (o : Option SegmentFile) (w : SegmentWriter)
          → w.out ≡ o
          → FitsWith o w
          → Fits
              (when_open options cpu tag_table disk bytes
                (ready_segment options cpu tag_table disk path created bytes o w)).0
      unfolding ready_segment fresh_segment when_open
      ready_segment-Fits none w e h = enforced-Fits w h
      ready_segment-Fits (some f) w e h =
          if_cases
            (λ (r : SegmentWriter × Bool). Fits (when_open options cpu tag_table disk bytes r).0)
            (ltb options.max_segment_bytes ((w.segment_bytes + length bytes) % 2 ^ 64))
            (λ _. enforced-Fits (finish_segment disk w) (finish_segment-HasRoom f w e h))
            λ full.
              subst (λ o. Fits (append_batch options cpu tag_table disk bytes o w).0) (sym e)
                (append-Fits f w h (
                  omega (
                    arith,
                    batch_small,
                    h.1,
                    total_small,
                    segment_small,
                    not_ltb→le options.max_segment_bytes ((w.segment_bytes + length bytes) % 2 ^ 64)
                        full,
                  )))

      pub write_batch-Fits :
          (w : SegmentWriter)
          → Fits w
          → Fits (write_batch options cpu tag_table disk path created bytes w).0
      unfolding write_batch
      write_batch-Fits w h = ready_segment-Fits w.out w refl h
