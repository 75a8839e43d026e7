-- ===== src/Ingest/Segment/Writer/Deleting.antt =====
-- src/ingest/segment.cpp: the oldest segments make room.
use ironpulse.Prelude.{
  ℕ, ◌+◌, ◌-◌, ◌%◌, ◌^◌, ◌≤◌, ◌<◌, ◌≡◌, refl, sym, ap, subst, ◌∙◌, true, leb, if_cases, leb→le,
  true_ne_false, List, [], ◌∷◌, length, arith,
}
use ironpulse.Ingest.Segment.Writer.{SegmentFile, Disk, add_file, total_bytes, delete_oldest}

unfoldable pub bytes_of : List SegmentFile → ℕ
bytes_of [] = 0
bytes_of (f ∷ files) = length f.content + bytes_of files

-- Renames and removals succeed; any other operation may fail.
abbrev pub Works : Disk → Type 0
Works disk = (disk.renames ≡ true) × ((f : SegmentFile) → disk.removes f ≡ true)

pub bytes_of-add_file :
    (f : SegmentFile) (files : List SegmentFile)
    → bytes_of (add_file f files) ≡ length f.content + bytes_of files
unfolding bytes_of add_file
bytes_of-add_file f [] = refl
bytes_of-add_file f (g ∷ files) =
    if_cases (λ r. bytes_of r ≡ length f.content + (length g.content + bytes_of files))
      (leb f.path g.path) (λ _. refl) λ _. omega (arith, bytes_of-add_file f files)

pub total_bytes_lem :
    (total : ℕ) (files : List SegmentFile)
    → total + bytes_of files < 2 ^ 64
    → total_bytes total files ≡ total + bytes_of files
unfolding bytes_of total_bytes
total_bytes_lem total [] h = omega arith
total_bytes_lem total (f ∷ files) h =
    ap (λ t. total_bytes t files) (no_wrap (length f.content) h)
    ∙ total_bytes_lem (total + length f.content) files (omega (arith, h))
    ∙ regroup (length f.content)
  where
    no_wrap : (n : ℕ) → total + (n + bytes_of files) < 2 ^ 64 → (total + n) % 2 ^ 64 ≡ total + n
    no_wrap n h = omega (arith, h)

    regroup : (n : ℕ) → total + n + bytes_of files ≡ total + (n + bytes_of files)
    regroup n = omega arith

module _ (disk : Disk) (limit reserve : ℕ) (works : Works disk) (room : reserve ≤ limit) where
  less : (n m : ℕ) → n + m < 2 ^ 64 → (n + m + 2 ^ 64 - n) % 2 ^ 64 ≡ m
  less n m h = omega (arith, h)

  abbrev Leaves : List SegmentFile × ℕ → Type 0
  Leaves r = bytes_of r.0 + reserve ≤ limit

  pub delete_oldest-Leaves :
      (files : List SegmentFile)
      → bytes_of files + reserve < 2 ^ 64
      → bytes_of (delete_oldest disk limit reserve (bytes_of files) files).0 + reserve ≤ limit
  unfolding bytes_of delete_oldest
  delete_oldest-Leaves [] h = omega (arith, room)
  delete_oldest-Leaves (f ∷ files) h =
      if_cases Leaves (leb ((length f.content + bytes_of files + reserve) % 2 ^ 64) limit)
        (λ e.
          omega (arith, h, leb→le ((length f.content + bytes_of files + reserve) % 2 ^ 64) limit e))
        λ _.
          if_cases Leaves (disk.removes f)
            (λ _.
              subst (λ t. bytes_of (delete_oldest disk limit reserve t files).0 + reserve ≤ limit)
                (sym (less (length f.content) (bytes_of files) (omega (arith, h))))
                (delete_oldest-Leaves files (omega (arith, h))))
            λ e. absurd (true_ne_false (sym (works.1 f) ∙ e))
