-- ===== src/Storage/Series/Life.antt =====
-- The series of a sensor over a restart of the program with its log on disk.
use Prim.Native.String.{String}
use ironpulse.Prelude.{
  ℕ, ◌-◌, ◌^◌, ◌<◌, ◌≤◌, ◌≡◌, refl, subst, false, not, List, [], ◌∷◌, ◌++◌, Option, some, map, keep,
  All, length, last_n, min, get_elem?,
}
use ironpulse.Prelude.Dict.{at_key}
use ironpulse.Storage.Ring.{Ring}
use ironpulse.Storage.Ring.Window.{Holds}
use ironpulse.Storage.Ring.Refine.{recent-Holds, latest-Holds}
use ironpulse.Storage.Wal.{WalWriter, WalRecord, Sample, flush_all, file_of, read_all, sample_of}
use ironpulse.Storage.Wal.Prune.{flush_all-Holds, flush_all_empties}
use ironpulse.Storage.Wal.Refine.{
  Call, IsTimely, open_writer, call_all, expected_all, call_all-Holds, open-Holds, read_back,
}
use ironpulse.Storage.Series.{SeriesStore, too_old, replayed, log_file, latest, recent}
use ironpulse.Storage.Series.Restart.{Entry, of_entry, is_own, record_all, fresh_start}

module _ {D : Type 0} (to_bits : D → ℕ) (of_bits : ℕ → D) (blank : Sample D) where
  -- A store on the directory that an earlier run has left.
  unfoldable pub restart : ℕ → WalWriter D → Option ℕ → SeriesStore D
  restart capacity wal max_age = record {
    default_capacity = capacity;
    series = [];
    wal = some wal;
    replay_max_age = max_age;
  }

  seen :
      (store : SeriesStore D) (sensor_id : String) (c n : ℕ) (ring : Ring (Sample D))
      (h : List (Sample D))
      → at_key store.series sensor_id ≡ some ring
      → Holds blank c ring h
      → (recent to_bits of_bits blank store sensor_id n ≡ last_n (min n (min c (length h))) h)
        × (latest to_bits of_bits blank store sensor_id ≡ get_elem? h (length h - 1))
  unfolding recent latest
  seen store sensor_id c n ring h at v =
      (rw (at, recent) (recent-Holds blank n v), rw (at, latest) (latest-Holds blank v))

  -- An earlier run makes any calls of the log on an empty directory and flushes it. A new store then
  -- records samples of many sensors. After the first sample of a sensor, at the time `now`, the
  -- newest samples of that sensor are those of the log of the earlier run that are young enough at
  -- `now`, cut to milliseconds, and after them what the new store was given: `recent` returns the
  -- end of this sequence, as far as the capacity (1 to 2 ^ 63) reaches, and `latest` its last
  -- element. It is assumed that the memory of a double is a 64-bit number from which the double
  -- comes back, and that the times of the log are below 2 ^ 63 milliseconds.
  pub series_restarts :
      (of_bits-to_bits : (d : D) → of_bits (to_bits d) ≡ d)
      → (to_bits_lt : (d : D) → to_bits d < 2 ^ 64)
      → (flush_batch_size c n : ℕ) (max_age : Option ℕ) (calls : List (Call D))
        (before after : List (Entry to_bits of_bits blank)) (sensor_id : String) (value : D)
        (timestamp now : ℕ)
      → 0 < c
      → c ≤ 2 ^ 63
      → All IsTimely calls
      → All (λ e. is_own to_bits of_bits blank sensor_id e ≡ false) before
      → let w =
          flush_all to_bits of_bits
            (call_all to_bits of_bits (open_writer to_bits of_bits flush_batch_size) calls) in
        let store =
          record_all to_bits of_bits blank
            (restart c w max_age)
            (before ++ ((sensor_id, value, timestamp, now) ∷ after)) in
        let h =
          map (sample_of to_bits of_bits) (
            keep
              (λ r. not (too_old to_bits of_bits blank max_age now r))
              (expected_all to_bits of_bits (λ s. []) calls sensor_id))
          ++ (record { timestamp = timestamp; value = value }
              ∷ map
                  (of_entry to_bits of_bits blank)
                  (keep (is_own to_bits of_bits blank sensor_id) after)) in
        (recent to_bits of_bits blank store sensor_id n ≡ last_n (min n (min c (length h))) h)
        × (latest to_bits of_bits blank store sensor_id ≡ get_elem? h (length h - 1))
  unfolding restart log_file replayed at_key
  series_restarts back small batch c n max_age calls before after sensor_id value timestamp now pos
        fits timely foreign =
      let (ring, at, v) =
        fresh_start to_bits of_bits blank before after (restart c w max_age) sensor_id value
          timestamp now pos fits refl foreign in
      seen
        (record_all to_bits of_bits blank (restart c w max_age)
          (before ++ ((sensor_id, value, timestamp, now) ∷ after)))
        sensor_id c n ring (history logged) at
        (subst (λ records. Holds blank c ring (history records)) persisted v)
    where
      w : WalWriter D
      w =
          flush_all to_bits of_bits
            (call_all to_bits of_bits (open_writer to_bits of_bits batch) calls)

      logged : List (WalRecord D)
      logged = expected_all to_bits of_bits (λ s. []) calls sensor_id

      history : List (WalRecord D) → List (Sample D)
      history records =
          map (sample_of to_bits of_bits)
            (keep (λ r. not (too_old to_bits of_bits blank max_age now r)) records)
          ++ (record { timestamp = timestamp; value = value }
              ∷ map (of_entry to_bits of_bits blank)
                  (keep (is_own to_bits of_bits blank sensor_id) after))

      persisted : read_all to_bits of_bits (file_of to_bits of_bits w sensor_id) ≡ logged
      persisted =
          read_back to_bits of_bits back small w (expected_all to_bits of_bits (λ s. []) calls)
            sensor_id
            (flush_all_empties to_bits of_bits
              (call_all to_bits of_bits (open_writer to_bits of_bits batch) calls) sensor_id)
            (flush_all-Holds to_bits of_bits
              (call_all to_bits of_bits (open_writer to_bits of_bits batch) calls)
              (expected_all to_bits of_bits (λ s. []) calls)
              (call_all-Holds to_bits of_bits back small calls (open_writer to_bits of_bits batch)
                (λ s. []) timely (open-Holds to_bits of_bits batch)))
