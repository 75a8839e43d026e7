-- ===== src/Storage/Wal/Records.antt =====
-- `WalReader::read_all` against the bytes that the writer appends, a torn record at the end included.
use ironpulse.Prelude.{
  ℕ, zero, suc, ◌*◌, ◌^◌, ◌≤◌, ◌<◌, ◌≡◌, refl, ap, ap₂, sym, ◌∙◌, List, [], ◌∷◌, ◌++◌, length, take,
  drop, All, arith, length-append, length-drop, drop-append_le, append-nil, take-length-append,
  take_of_length_le, drop-length-append, lt→ltb,
}
use ironpulse.Prelude.Bytes.{le_bytes, of_le, length-le_bytes, of_le-le_bytes}
use ironpulse.Storage.Wal.{
  WalRecord, record_bytes, records_bytes, record_of, read_records, read_all, record_size,
}

take-append_le :
    {A : Type 0} (n : ℕ) (xs ys : List A) → n ≤ length xs → take n (xs ++ ys) ≡ take n xs
take-append_le zero xs ys h = refl
take-append_le (suc n) [] ys h = absurd (omega arith)
take-append_le (suc n) (x ∷ xs) ys h = ap (λ t. x ∷ t) (take-append_le n xs ys (omega arith))

take_exact : {A : Type 0} (n : ℕ) (xs ys : List A) → length xs ≡ n → take n (xs ++ ys) ≡ xs
take_exact n xs ys h = ap (λ k. take k (xs ++ ys)) (sym h) ∙ take-length-append xs ys

drop_exact : {A : Type 0} (n : ℕ) (xs ys : List A) → length xs ≡ n → drop n (xs ++ ys) ≡ ys
drop_exact n xs ys h = ap (λ k. drop k (xs ++ ys)) (sym h) ∙ drop-length-append xs ys

module _ {D : Type 0} (to_bits : D → ℕ) (of_bits : ℕ → D) where
  -- A timestamp fits its field; the value does in any case.
  abbrev pub IsRecord : WalRecord D → Type 0
  IsRecord r = r.timestamp_ms < 2 ^ 63

  pub length-record_bytes :
      (r : WalRecord D) → length (record_bytes to_bits of_bits r) ≡ record_size
  unfolding record_bytes
  length-record_bytes r = omega (
    arith,
    length-append (le_bytes 8 r.timestamp_ms) (le_bytes 8 (to_bits r.value)),
    length-le_bytes 8 r.timestamp_ms,
    length-le_bytes 8 (to_bits r.value),
  )

  pub length-records_bytes :
      (rs : List (WalRecord D))
      → length (records_bytes to_bits of_bits rs) ≡ length rs * record_size
  unfolding records_bytes
  length-records_bytes [] = refl
  length-records_bytes (r ∷ rs) = omega (
    arith,
    length-append (record_bytes to_bits of_bits r) (records_bytes to_bits of_bits rs),
    length-record_bytes r,
    length-records_bytes rs,
  )

  read_fuel :
      (f g : ℕ) (bytes : List ℕ)
      → length bytes ≤ f
      → length bytes ≤ g
      → read_records to_bits of_bits f bytes ≡ read_records to_bits of_bits g bytes
  unfolding read_records
  read_fuel zero zero bytes h k = refl
  read_fuel zero (suc g) bytes h k = ground (arith, lt→ltb (length bytes) 16)
  read_fuel (suc f) zero bytes h k = ground (arith, lt→ltb (length bytes) 16)
  read_fuel (suc f) (suc g) [] h k = refl
  read_fuel (suc f) (suc g) (b ∷ bytes) h k = ground (
    arith,
    read_fuel f g (drop record_size (b ∷ bytes))
        (omega (arith, length-drop record_size (b ∷ bytes)))
        (omega (arith, length-drop record_size (b ∷ bytes))),
  )

  read_short : (bytes : List ℕ) → length bytes < record_size → read_all to_bits of_bits bytes ≡ []
  unfolding read_all read_records
  read_short [] h = refl
  read_short (b ∷ bytes) h = ground (arith, lt→ltb (length (b ∷ bytes)) 16)

  read_step :
      (bytes : List ℕ)
      → record_size ≤ length bytes
      → read_all to_bits of_bits bytes
        ≡ record_of to_bits of_bits (take record_size bytes)
          ∷ read_all to_bits of_bits (drop record_size bytes)
  unfolding read_all read_records
  read_step [] h = absurd (omega arith)
  read_step (b ∷ bytes) h = ground (
    arith,
    read_fuel (length bytes) (length (drop record_size (b ∷ bytes))) (drop record_size (b ∷ bytes))
        (omega (arith, length-drop record_size (b ∷ bytes))) (omega arith),
  )

  -- A file of whole records, and what comes after it.
  pub read_all-append :
      (n : ℕ) (a b : List ℕ)
      → length a ≡ n * record_size
      → read_all to_bits of_bits (a ++ b) ≡ read_all to_bits of_bits a ++ read_all to_bits of_bits b
  read_all-append zero [] b h = rw (read_short [] (omega arith)) refl
  read_all-append zero (x ∷ a) b h = absurd (omega (arith, h))
  read_all-append (suc n) a b h =
      read_step (a ++ b) (omega (arith, h, length-append a b))
      ∙ ap₂ (λ bytes more. record_of to_bits of_bits bytes ∷ read_all to_bits of_bits more)
          (take-append_le record_size a b (omega (arith, h)))
          (drop-append_le record_size a b (omega (arith, h)))
      ∙ ap (λ more. record_of to_bits of_bits (take record_size a) ∷ more)
          (read_all-append n (drop record_size a) b (omega (arith, h, length-drop record_size a)))
      ∙ ap (λ records. records ++ read_all to_bits of_bits b) (sym (read_step a (omega (arith, h))))

  module _ (of_bits-to_bits : (d : D) → of_bits (to_bits d) ≡ d)
      (to_bits_lt : (d : D) → to_bits d < 2 ^ 64) where
    record_of-record_bytes :
        (r : WalRecord D)
        → IsRecord r
        → record_of to_bits of_bits (record_bytes to_bits of_bits r) ≡ r
    unfolding record_of record_bytes
    record_of-record_bytes r small =
        ap₂ (λ t v. record { timestamp_ms = t; value = v })
          (ap of_le (
              take_exact 8 (le_bytes 8 r.timestamp_ms) (le_bytes 8 (to_bits r.value))
                (length-le_bytes 8 r.timestamp_ms))
            ∙ of_le-le_bytes 8 r.timestamp_ms (omega (arith, small)))
          (ap (λ bytes. of_bits (of_le bytes))
              (drop_exact 8 (le_bytes 8 r.timestamp_ms) (le_bytes 8 (to_bits r.value))
                (length-le_bytes 8 r.timestamp_ms))
            ∙ ap of_bits (of_le-le_bytes 8 (to_bits r.value) (to_bits_lt r.value))
            ∙ of_bits-to_bits r.value)

    one_record :
        (r : WalRecord D)
        → IsRecord r
        → read_all to_bits of_bits (record_bytes to_bits of_bits r) ≡ r ∷ []
    one_record r small =
        read_step (record_bytes to_bits of_bits r) (omega (arith, length-record_bytes r))
        ∙ ap₂ (λ x xs. x ∷ xs)
            (ap (record_of to_bits of_bits) (
                take_of_length_le record_size (record_bytes to_bits of_bits r)
                  (omega (arith, length-record_bytes r)))
              ∙ record_of-record_bytes r small)
            (read_short (drop record_size (record_bytes to_bits of_bits r)) (
              omega (
                arith,
                length-record_bytes r,
                length-drop record_size (record_bytes to_bits of_bits r),
              )))

    pub read_all-records_bytes :
        (rs : List (WalRecord D))
        → All IsRecord rs
        → read_all to_bits of_bits (records_bytes to_bits of_bits rs) ≡ rs
    unfolding records_bytes
    read_all-records_bytes [] small = read_short [] (omega arith)
    read_all-records_bytes (r ∷ rs) (small, others) =
        read_all-append 1 (record_bytes to_bits of_bits r) (records_bytes to_bits of_bits rs)
          (omega (arith, length-record_bytes r))
        ∙ ap₂ (λ xs ys. xs ++ ys) (one_record r small) (read_all-records_bytes rs others)

    -- The records that were written to a file are read back, in order, also where a crash has left
    -- up to 15 bytes of one more record at its end. It is assumed that the memory of a double is a
    -- 64-bit number from which the double comes back; timestamps are below 2 ^ 63.
    pub read_all_torn :
        (rs : List (WalRecord D)) (torn : List ℕ)
        → All IsRecord rs
        → length torn < record_size
        → read_all to_bits of_bits (records_bytes to_bits of_bits rs ++ torn) ≡ rs
    read_all_torn rs torn small short =
        read_all-append (length rs) (records_bytes to_bits of_bits rs) torn
          (length-records_bytes rs)
        ∙ ap₂ (λ xs ys. xs ++ ys) (read_all-records_bytes rs small) (read_short torn short)
        ∙ append-nil rs
