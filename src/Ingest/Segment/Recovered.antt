-- ===== src/Ingest/Segment/Recovered.antt =====
-- src/ingest/segment.cpp: a segment file is read back, also where its last batch was cut off.
use mathlib.Core.Option.{map}
use ironpulse.Prelude.{
  ℕ, suc, ◌+◌, ◌-◌, ◌*◌, ◌^◌, ◌<◌, ◌≤◌, ◌≡◌, refl, sym, ap, subst, ◌∙◌, ltb, ==_iff, List, [], ◌∷◌,
  ◌++◌, Option, none, some, length, take, drop, replicate, All, arith, le→not_ltb, length-append,
  length-take,
}
use ironpulse.Prelude.Bytes.{IsByte}
use ironpulse.Prelude.Pieces.{take-append, drop-append}
use ironpulse.Ingest.Crc.{Cpu, IsCpu, crc32c}
use ironpulse.Ingest.Crc.Agree.{crc32c_agrees}
use ironpulse.Ingest.Serializer.{TelemetrySample}
use ironpulse.Ingest.Serializer.Layout.{batch, length-batch}
use ironpulse.Ingest.Segment.{
  SegmentHeader, segment_header_size, segment_magic, segment_version, align8, segment_header_bytes,
  segment_header_of, segment_header_for, segment_prefix, no_tally, with_tags, with_header,
  read_batches, read_segment, readable,
}
use ironpulse.Ingest.Segment.Batches.{batches_bytes, IsBatch, add_all, read_batches-batches_bytes}
use ironpulse.Ingest.Segment.Prefix.{
  length-segment_header_bytes, header_back, align8_ge, for-IsSegmentHeader, length-segment_prefix,
  prefix_split, fields,
}

module _ {D : Type 0} (to_bits : D → ℕ) (of_bits : ℕ → D) where
  batches_length :
      (writer : Cpu) (bs : List (List (TelemetrySample D)))
      → length bs ≤ length (batches_bytes to_bits of_bits writer bs)
  batches_length writer [] = omega arith
  batches_length writer (b ∷ bs) = omega (
    arith,
    length-append (batch to_bits of_bits writer b) (batches_bytes to_bits of_bits writer bs),
    length-batch to_bits of_bits writer b,
    batches_length writer bs,
  )

  module _ (writer reader : Cpu) (w : IsCpu writer) (r : IsCpu reader)
      (of_bits-to_bits : (d : D) → of_bits (to_bits d) ≡ d)
      (to_bits_lt : (d : D) → to_bits d < 2 ^ 64) {T : Type 0}
      (decode_tag_table : List ℕ → Option (List T)) (tags : List T) (created : ℕ) (table : List ℕ)
      (created_lt : created < 2 ^ 64) (small : length table < 2 ^ 32) (bytes : All IsByte table)
      (decodes : decode_tag_table table ≡ some tags) where
    headed :
        (rest : List ℕ)
        → with_header to_bits of_bits reader decode_tag_table
            (segment_header_for writer created table)
            (segment_header_bytes (segment_header_for writer created table) ++ (table ++ rest))
          ≡ with_tags to_bits of_bits reader decode_tag_table
              (segment_header_for writer created table)
              (some tags)
              (segment_header_bytes (segment_header_for writer created table) ++ (table ++ rest))
    unfolding with_header
    headed rest =
        let f = fields writer w created table created_lt small bytes in
        let header = segment_header_for writer created table in
        let file = segment_header_bytes header ++ (table ++ rest) in
        let here : take header.tag_table_bytes (drop segment_header_size file) ≡ table =
          ap (take header.tag_table_bytes) (
            drop-append 32 (segment_header_bytes header) (table ++ rest)
              (length-segment_header_bytes header))
          ∙ take-append header.tag_table_bytes table rest (sym f.2) in
        let crc_eq : crc32c reader table ≡ header.tag_table_crc32c =
          crc32c_agrees reader r table bytes ∙ sym (crc32c_agrees writer w table bytes) ∙ sym f.3 in
        rw ((==_iff header.magic segment_magic).1 f.0) (
          rw ((==_iff header.version segment_version).1 f.1) (
            rw
              (le→not_ltb (length file) (segment_header_size + header.tag_table_bytes) (
                omega (
                  arith,
                  f.2,
                  length-append (segment_header_bytes header) (table ++ rest),
                  length-append table rest,
                  length-segment_header_bytes header,
                )))
              (rw (here) (
                rw ((==_iff (crc32c reader table) header.tag_table_crc32c).1 crc_eq)
                  (rw (decodes) refl)))))

    -- A segment file that one processor wrote, with a tag table that can be decoded, any batches, and
    -- the first bytes of one more, is read by any other: with the tags and the time of the file, just
    -- these batches in order, no batch called corrupt, and a truncated tail where there are such bytes.
    pub read_segment_recovers :
        (bs : List (List (TelemetrySample D))) (last : List (TelemetrySample D)) (k : ℕ)
        → All (IsBatch to_bits of_bits) bs
        → IsBatch to_bits of_bits last
        → k < 16 + 24 * length last
        → read_segment to_bits of_bits reader decode_tag_table (
            readable (
              segment_prefix writer created table
              ++ (batches_bytes to_bits of_bits writer bs
                  ++ take k (batch to_bits of_bits writer last))))
          ≡ some record {
            tags = tags;
            created_ms = created;
            tally = add_all to_bits of_bits (ltb 0 k) bs no_tally;
            error = none;
          }
    unfolding read_segment with_tags
    read_segment_recovers bs last k good last_good short =
        rw
          (le→not_ltb (length file) segment_header_size
            (omega (arith, size, align8_ge (32 + length table) (omega (arith, small)))))
          (ap (λ (x : SegmentHeader). with_header to_bits of_bits reader decode_tag_table x file)
              (start
                ∙ header_back header
                    (for-IsSegmentHeader writer w created table created_lt small bytes))
            ∙ subst
                (λ (f : List ℕ).
                  with_header to_bits of_bits reader decode_tag_table header f
                  ≡ with_tags to_bits of_bits reader decode_tag_table header (some tags) f)
                (sym laid) (headed (zeros ++ body))
            ∙ ap
                (map (λ tally. record {
                  tags = tags;
                  created_ms = header.created_ms;
                  tally = tally;
                  error = none;
                }))
                loop
            ∙ ap
                (λ (ms : ℕ). some record {
                  tags = tags;
                  created_ms = ms;
                  tally = add_all to_bits of_bits (ltb 0 k) bs no_tally;
                  error = none;
                })
                f.4)
      where
        header : SegmentHeader
        header = segment_header_for writer created table

        body : List ℕ
        body = batches_bytes to_bits of_bits writer bs ++ take k (batch to_bits of_bits writer last)

        zeros : List ℕ
        zeros = replicate (align8 (32 + length table) - (32 + length table)) 0

        file : List ℕ
        file = segment_prefix writer created table ++ body

        f :
            (header.magic ≡ segment_magic)
            × (header.version ≡ segment_version)
            × (header.tag_table_bytes ≡ length table)
            × (header.tag_table_crc32c ≡ crc32c writer table)
            × (header.created_ms ≡ created)
        f = fields writer w created table created_lt small bytes

        size : length file ≡ align8 (32 + length table) + length body
        size = omega (
          arith,
          length-append (segment_prefix writer created table) body,
          length-segment_prefix writer w created table created_lt small bytes,
        )

        laid : file ≡ segment_header_bytes header ++ (table ++ (zeros ++ body))
        laid = prefix_split writer created table body

        start :
            segment_header_of (take segment_header_size file)
            ≡ segment_header_of (segment_header_bytes header)
        start = ap segment_header_of (
            ap (take 32) laid
            ∙ take-append 32 (segment_header_bytes header) (table ++ (zeros ++ body))
                (length-segment_header_bytes header))

        cut : length (take k (batch to_bits of_bits writer last)) ≡ k
        cut = omega (
          arith,
          length-take k (batch to_bits of_bits writer last),
          length-batch to_bits of_bits writer last,
          short,
        )

        loop :
            read_batches to_bits of_bits reader
              (suc (length file))
              file
              (align8 (segment_header_size + header.tag_table_bytes))
              no_tally
            ≡ some (add_all to_bits of_bits (ltb 0 k) bs no_tally)
        loop =
            ap
              (λ (n : ℕ).
                read_batches to_bits of_bits reader (suc (length file)) file
                  (align8 (segment_header_size + n)) no_tally)
              f.2
            ∙ read_batches-batches_bytes to_bits of_bits writer reader w r of_bits-to_bits
                to_bits_lt bs last k (suc (length file)) file (align8 (32 + length table)) no_tally
                good last_good short
                (drop-append (align8 (32 + length table)) (segment_prefix writer created table) body
                  (length-segment_prefix writer w created table created_lt small bytes))
                (omega (
                  arith,
                  size,
                  cut,
                  length-append (batches_bytes to_bits of_bits writer bs)
                      (take k (batch to_bits of_bits writer last)),
                ))
                (omega (
                  arith,
                  size,
                  batches_length writer bs,
                  length-append (batches_bytes to_bits of_bits writer bs)
                      (take k (batch to_bits of_bits writer last)),
                ))
