-- ===== src/Ingest/Segment/Ends.antt =====
-- src/ingest/segment.cpp: the reader comes to an end on every file.
use mathlib.Core.Option.{map}
use native.Mathlib.Nat.{pow-le-pow_right}
use ironpulse.Prelude.{
  ℕ, zero, suc, ◌+◌, ◌-◌, ◌^◌, ◌<◌, ◌≤◌, ◌≡◌, refl, ap, Bool, true, false, not, ltb, leb, ◌==◌,
  if◌then◌else◌, if_cases, ◌>>=◌, [], List, Option, none, some, length, take, drop, arith, leb→le,
  not_ltb→le, le→not_ltb, length-take, All, length-drop,
}
use ironpulse.Prelude.Bytes.{of_le, IsByte, of_le-lt}
use ironpulse.Prelude.Pieces.{All-take, All-drop}
use ironpulse.Ingest.Crc.{Cpu, crc32c}
use ironpulse.Ingest.Serializer.{
  BatchHeader, DecodeStatus, ok, too_short, bad_magic, unsupported_version, truncated, crc_mismatch,
  misaligned, batch_magic, format_version, header_size, no_header, required_buffer_size, peek,
  peek_header, header_of,
}
use ironpulse.Ingest.Segment.{
  Tally, no_tally, cut_short, find_batch, take_batch, read_batch, read_batches, SegmentHeader,
  segment_header_of, segment_header_size, segment_magic, segment_version, with_tags, with_header,
  read_segment, align8, OpenedFile, unopened, without_size, readable,
}

-- A result is there.
abbrev pub IsSome {ℓ} : {A : Type ℓ} → Option A → Type ℓ
IsSome {A} o = (a : A) × (o ≡ some a)

abbrev pub contents : OpenedFile → List ℕ
contents (readable file) = file
contents _ = []

-- A place to go on from, no less than `pos` and in the file.
abbrev Found : List ℕ → ℕ → Option ℕ → Type 0
Found file pos o = (q : ℕ) × (o ≡ some q) × (pos ≤ q) × (q ≤ length file)

find_batch-Found :
    (fuel : ℕ) (file : List ℕ) (pos : ℕ)
    → 1 ≤ fuel
    → length file < pos + fuel
    → pos ≤ length file
    → Found file pos (find_batch fuel file pos)
unfolding find_batch
find_batch-Found zero file pos one enough h = absurd (omega arith)
find_batch-Found (suc fuel) file pos one enough h =
    if_cases (Found file pos) (leb (pos + header_size) (length file))
      (λ e.
        if_cases (Found file pos) (of_le (take 4 (drop pos file)) == batch_magic)
          (λ f. (pos, refl, omega arith, h))
          (λ f.
            let fits = leb→le (pos + header_size) (length file) e in
            let (q, found, ge, le) =
              find_batch-Found fuel file (pos + 8) (omega (arith, fits, enough))
                (omega (arith, enough)) (omega (arith, fits)) in
            (q, found, omega (arith, ge), le)))
      (λ e. (pos, refl, omega arith, h))

-- What `peek` finds at a place where a header fits: no batch, or one that has at least its header.
abbrev Progress : DecodeStatus × BatchHeader × ℕ → Type 0
Progress (bad_magic, h, n) = Unit
Progress (unsupported_version, h, n) = Unit
Progress (status, h, n) = 16 ≤ n

whole_or_cut :
    (cut : Bool) (h : BatchHeader) (n : ℕ) → 16 ≤ n → Progress (if cut then truncated else ok, h, n)
whole_or_cut true h n le = le
whole_or_cut false h n le = le

required_ge : (n : ℕ) → n < 256 ^ 4 → 16 ≤ required_buffer_size n
unfolding required_buffer_size
required_ge n h = omega (arith, h)

count_small : (bytes : List ℕ) → All IsByte bytes → (header_of bytes).count < 256 ^ 4
unfolding header_of
count_small bytes h = omega (
  arith,
  of_le-lt (take 4 (drop 8 bytes)) (All-take IsByte 4 (drop 8 bytes) (All-drop IsByte 8 bytes h)),
  pow-le-pow_right {n = 256} (omega arith) {i = length (take 4 (drop 8 bytes))} {j = 4}
      (omega (arith, length-take 4 (drop 8 bytes))),
)

peek-Progress :
    (bytes : List ℕ) → All IsByte bytes → 16 ≤ length bytes → Progress (peek bytes no_header 0)
unfolding peek peek_header
peek-Progress bytes h long =
    let header = header_of (take 16 bytes) in
    let enough : 16 ≤ required_buffer_size header.count =
      required_ge header.count (count_small (take 16 bytes) (All-take IsByte 16 bytes h)) in
    rw (le→not_ltb (length bytes) 16 long) (
      if_cases Progress (not (header.magic == batch_magic)) (λ e. tt)
        (λ e.
          if_cases Progress (not (header.version == format_version)) (λ f. tt)
            (λ f.
              whole_or_cut (ltb (length bytes) (required_buffer_size header.count)) header
                (required_buffer_size header.count) enough)))

module _ {D : Type 0} (to_bits : D → ℕ) (of_bits : ℕ → D) (cpu : Cpu) where
  module _ (next : ℕ → Tally D → Option (Tally D)) (file : List ℕ) (pos : ℕ)
      (next_ends : (q : ℕ) (t : Tally D) → pos + 8 ≤ q → q ≤ length file → IsSome (next q t))
      (within : pos + 8 ≤ length file) where
    batch_ends :
        (t : Tally D) (header : BatchHeader) (n : ℕ)
        → 16 ≤ n
        → IsSome (
            if ltb (length file) (pos + n)
            then some (cut_short to_bits of_bits cpu t)
            else next (pos + n) (
                take_batch to_bits of_bits cpu header
                  (take (n - header_size) (drop (pos + header_size) file))
                  t))
    batch_ends t header n le =
        if_cases IsSome (ltb (length file) (pos + n)) (λ e. (_, refl))
          (λ e. next_ends (pos + n) _ (omega (arith, le)) (not_ltb→le (length file) (pos + n) e))

    search_ends : (t : Tally D) → IsSome (find_batch (length file) file (pos + 8) >>= λ q. next q t)
    search_ends t =
        let (q, found, ge, le) =
          find_batch-Found (length file) file (pos + 8) (omega (arith, within))
            (omega (arith, within)) within in
        rw found (next_ends q t ge le)

    read_batch_ends :
        (t : Tally D) (r : DecodeStatus × BatchHeader × ℕ)
        → Progress r
        → IsSome (read_batch to_bits of_bits cpu next file pos t r)
    unfolding read_batch
    read_batch_ends t (bad_magic, header, n) p =
        search_ends (record t { corrupt_batches = t.corrupt_batches + 1 })
    read_batch_ends t (unsupported_version, header, n) p =
        search_ends (record t { corrupt_batches = t.corrupt_batches + 1 })
    read_batch_ends t (ok, header, n) p = batch_ends t header n p
    read_batch_ends t (too_short, header, n) p = batch_ends t header n p
    read_batch_ends t (truncated, header, n) p = batch_ends t header n p
    read_batch_ends t (crc_mismatch, header, n) p = batch_ends t header n p
    read_batch_ends t (misaligned, header, n) p = batch_ends t header n p

  read_batches_ends :
      (fuel : ℕ) (file : List ℕ) (pos : ℕ) (t : Tally D)
      → All IsByte file
      → 1 ≤ fuel
      → length file < pos + fuel
      → IsSome (read_batches to_bits of_bits cpu fuel file pos t)
  unfolding read_batches
  read_batches_ends zero file pos t h one enough = absurd (omega arith)
  read_batches_ends (suc fuel) file pos t h one enough =
      if_cases IsSome (leb (length file) pos) (λ e. (_, refl))
        (λ e.
          if_cases IsSome (ltb (length file - pos) header_size) (λ f. (_, refl))
            (λ f.
              read_batch_ends (read_batches to_bits of_bits cpu fuel file) file pos
                (λ q u le in_file.
                  read_batches_ends fuel file q u h (omega (arith, enough, le, in_file))
                    (omega (arith, enough, le)))
                (omega (arith, not_ltb→le (length file - pos) header_size f)) t
                (peek (take header_size (drop pos file)) no_header 0)
                (peek-Progress (take header_size (drop pos file))
                  (All-take IsByte header_size (drop pos file) (All-drop IsByte pos file h))
                  (omega (
                    arith,
                    length-take header_size (drop pos file),
                    length-drop pos file,
                    not_ltb→le (length file - pos) header_size f,
                  )))))

  module _ {T : Type 0} (decode_tag_table : List ℕ → Option (List T)) where
    with_tags_ends :
        (header : SegmentHeader) (tags : Option (List T)) (file : List ℕ)
        → All IsByte file
        → IsSome (with_tags to_bits of_bits cpu decode_tag_table header tags file)
    unfolding with_tags
    with_tags_ends header none file h = (_, refl)
    with_tags_ends header (some tags) file h =
        let read =
          read_batches_ends (suc (length file)) file
            (align8 (segment_header_size + header.tag_table_bytes)) no_tally h (omega arith)
            (omega arith) in
        (_, ap (map _) read.1)

    readable_ends :
        (file : List ℕ)
        → All IsByte file
        → IsSome (read_segment to_bits of_bits cpu decode_tag_table (readable file))
    unfolding read_segment with_header
    readable_ends file h =
        let header = segment_header_of (take segment_header_size file) in
        if_cases IsSome (ltb (length file) segment_header_size) (λ e. (_, refl))
          (λ e.
            if_cases IsSome (not (header.magic == segment_magic)) (λ f. (_, refl))
              (λ f.
                if_cases IsSome (not (header.version == segment_version)) (λ f. (_, refl))
                  (λ f.
                    if_cases IsSome
                      (ltb (length file) (segment_header_size + header.tag_table_bytes))
                      (λ f. (_, refl))
                      (λ f.
                        if_cases IsSome
                          (not (
                            crc32c cpu (take header.tag_table_bytes (drop segment_header_size file))
                            == header.tag_table_crc32c))
                          (λ f. (_, refl))
                          (λ f.
                            with_tags_ends header
                              (decode_tag_table
                                (take header.tag_table_bytes (drop segment_header_size file)))
                              file h)))))

    -- Whatever bytes a file has, damaged or not, and also where it cannot be opened or has no size,
    -- the loop over the batches and each search for the next batch within it come to an end, and
    -- read_segment gives a result.
    pub read_segment_ends :
        (file : OpenedFile)
        → All IsByte (contents file)
        → IsSome (read_segment to_bits of_bits cpu decode_tag_table file)
    unfolding read_segment
    read_segment_ends unopened h = (_, refl)
    read_segment_ends without_size h = (_, refl)
    read_segment_ends (readable file) h = readable_ends file h
