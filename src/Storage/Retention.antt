-- ===== src/Storage/Retention.antt =====
-- include/ironpulse/storage/retention_policy.hpp: the pruning of one file that no writer appends to.
mod Examples
use ironpulse.Prelude.{
  ℕ, ◌+◌, ◌-◌, ◌*◌, ◌/◌, ◌^◌, ◌<◌, ◌≤◌, ◌≡◌, refl, ap, ap₂, sym, ◌∙◌, Bool, true, false, leb, ◌==◌,
  if◌then◌else◌, List, [], ◌∷◌, length, keep, All, arith, inl, inr, Bool-cases, ==_iff, le→leb,
  leb→le, keep_all, keep_cons, subst,
}
use ironpulse.Storage.Wal.{WalRecord, ticks_per_ms, records_bytes, read_all, is_recent}
use ironpulse.Storage.Wal.Records.{IsRecord, read_all-records_bytes}

module _ {D : Type 0} (to_bits : D → ℕ) (of_bits : ℕ → D) where
  -- `(now - ts) <= max_age_`, with `max_age` in milliseconds
  abbrev pub is_fresh : ℕ → ℕ → WalRecord D → Bool
  is_fresh max_age now r = leb now (r.timestamp_ms * ticks_per_ms + max_age * ticks_per_ms)

  -- The file after `prune`, and the number of records that it keeps.
  unfoldable pub prune : ℕ → ℕ → List ℕ → List ℕ × ℕ
  prune max_age now bytes =
      let records = read_all to_bits of_bits bytes in
      let kept = keep (is_fresh max_age now) records in
      if length kept == length records
      then (bytes, length kept)
      else (records_bytes to_bits of_bits kept, length kept)

  -- A record that the policy keeps is one that `prune_older_than` keeps at the same time and age;
  -- one that only the latter keeps is less than a millisecond too old.
  fresh-recent :
      (max_age now : ℕ) (r : WalRecord D)
      → (is_fresh max_age now r ≡ true
          → is_recent to_bits of_bits ((now - max_age * ticks_per_ms) / ticks_per_ms) r ≡ true)
        × (is_recent to_bits of_bits ((now - max_age * ticks_per_ms) / ticks_per_ms) r ≡ true
            → now < (r.timestamp_ms + 1) * ticks_per_ms + max_age * ticks_per_ms)
  fresh-recent max_age now r = (
    λ h.
        le→leb ((now - max_age * ticks_per_ms) / ticks_per_ms) r.timestamp_ms
          (omega (arith, leb→le now (r.timestamp_ms * ticks_per_ms + max_age * ticks_per_ms) h)),
    λ h. omega (arith, leb→le ((now - max_age * ticks_per_ms) / ticks_per_ms) r.timestamp_ms h),
  )

  -- A file of records is left with just those that are not older than the age, in order, and their
  -- number is returned; all of these are records that `prune_older_than` would keep as well. It is
  -- assumed that the memory of a double is a 64-bit number from which the double comes back, and
  -- that timestamps are below 2 ^ 63.
  pub prune-records_bytes :
      (of_bits-to_bits : (d : D) → of_bits (to_bits d) ≡ d)
      → (to_bits_lt : (d : D) → to_bits d < 2 ^ 64) → (max_age now : ℕ) (rs : List (WalRecord D))
      → All (IsRecord to_bits of_bits) rs
      → (prune max_age now (records_bytes to_bits of_bits rs) ≡ (
        records_bytes to_bits of_bits (keep (is_fresh max_age now) rs),
        length (keep (is_fresh max_age now) rs),
      ))
        × All
            (λ r.
              is_recent to_bits of_bits ((now - max_age * ticks_per_ms) / ticks_per_ms) r ≡ true)
            (keep (is_fresh max_age now) rs)
  unfolding prune
  prune-records_bytes back small max_age now rs ok = (
    subst
        (λ records.
          ◌≡◌ {A = List ℕ × ℕ}
            (if length (keep fresh records) == length records
              then (records_bytes to_bits of_bits rs, length (keep fresh records))
              else (
                records_bytes to_bits of_bits (keep fresh records),
                length (keep fresh records),
              ))
            (records_bytes to_bits of_bits (keep fresh rs), length (keep fresh rs)))
        (sym (read_all-records_bytes to_bits of_bits back small rs ok)) by_length,
    all_recent rs,
  )
    where
      fresh : WalRecord D → Bool
      fresh = is_fresh max_age now

      by_length :
          ◌≡◌ {A = List ℕ × ℕ}
            (if length (keep fresh rs) == length rs
              then (records_bytes to_bits of_bits rs, length (keep fresh rs))
              else (records_bytes to_bits of_bits (keep fresh rs), length (keep fresh rs)))
            (records_bytes to_bits of_bits (keep fresh rs), length (keep fresh rs))
      by_length = elim (Bool-cases (length (keep fresh rs) == length rs)) [
        | inl e ↦ rw e (
            ap (λ bytes. (bytes, length (keep fresh rs)))
              (ap (records_bytes to_bits of_bits)
                (sym (keep_all fresh rs ((==_iff (length (keep fresh rs)) (length rs)).0 e)))))
        | inr e ↦ rw e refl
      ]

      all_recent :
          (records : List (WalRecord D))
          → All
              (λ r.
                is_recent to_bits of_bits ((now - max_age * ticks_per_ms) / ticks_per_ms) r ≡ true)
              (keep fresh records)
      all_recent [] = tt
      all_recent (r ∷ records) = elim (Bool-cases (fresh r)) [
        | inl e ↦
            subst
              (All (λ r.
                is_recent to_bits of_bits ((now - max_age * ticks_per_ms) / ticks_per_ms) r ≡ true))
              (sym (keep_cons fresh r records true e))
              ((fresh-recent max_age now r).0 e, all_recent records)
        | inr e ↦
            subst
              (All (λ r.
                is_recent to_bits of_bits ((now - max_age * ticks_per_ms) / ticks_per_ms) r ≡ true))
              (sym (keep_cons fresh r records false e)) (all_recent records)
      ]
