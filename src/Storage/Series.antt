-- ===== src/Storage/Series.antt =====
-- include/ironpulse/storage/series_store.hpp: the in-memory series of each sensor in front of the
-- write-ahead log. The lock makes each call one step; `now` is the clock at that call.
pub mod Restart
pub mod Life
mod Examples
use Prim.Native.String.{String}
use ironpulse.Prelude.{
  ℕ, ◌+◌, ◌*◌, Bool, true, false, not, ltb, leb, List, [], ◌∷◌, Option, none, some, keep, map,
  if◌then◌else◌,
}
use mathlib.Core.List.{foldl}
use ironpulse.Prelude.Dict.{Dict, at_key, put}
use ironpulse.Storage.Ring.{Ring, make, push, latest as ring_latest, recent as ring_recent}
use ironpulse.Storage.Ring.Refine.{push_all}
use ironpulse.Storage.Wal.{
  WalRecord, WalWriter, Sample, append, read_all, file_of, sample_of, read_since, ticks_per_ms,
}

pub record SeriesStore (D : Type 0) : Type 0 where
  pub default_capacity : ℕ
  pub series : Dict (Ring (Sample D))
  pub wal : Option (WalWriter D)
  pub replay_max_age : Option ℕ

-- `blank` is the sample that a fresh vector of a ring buffer is filled with.
module _ {D : Type 0} (to_bits : D → ℕ) (of_bits : ℕ → D) (blank : Sample D) where
  abbrev pub too_old : Option ℕ → ℕ → WalRecord D → Bool
  too_old none now r = false
  too_old (some max_age) now r = ltb (r.timestamp_ms * ticks_per_ms + max_age * ticks_per_ms) now

  -- The samples that `WalReader::replay_into` pushes, of the records of a file.
  unfoldable pub replayed : Option ℕ → ℕ → List ℕ → List (Sample D)
  replayed max_age now bytes =
      map (sample_of to_bits of_bits)
        (keep (λ r. not (too_old max_age now r)) (read_all to_bits of_bits bytes))

  unfoldable pub replay_into : List ℕ → Ring (Sample D) → Option ℕ → ℕ → Ring (Sample D)
  unfolding replayed
  replay_into bytes buffer max_age now = push_all buffer (replayed max_age now bytes)

  -- The bytes of a sensor's log file, none without persistence or for a file that is not there.
  unfoldable pub log_file : SeriesStore D → String → List ℕ
  log_file store sensor_id = elim store.wal [
    | none ↦ []
    | some wal ↦ file_of to_bits of_bits wal sensor_id
  ]

  -- The buffer that a call works on. A file that is not there replays nothing.
  unfoldable pub get_or_create : SeriesStore D → String → ℕ → Ring (Sample D)
  unfolding replay_into log_file
  get_or_create store sensor_id now = elim (at_key store.series sensor_id) [
    | some buffer ↦ buffer
    | none ↦
        replay_into (log_file store sensor_id) (make blank store.default_capacity)
          store.replay_max_age now
  ]

  unfoldable pub record_wal : Option (WalWriter D) → String → D → ℕ → Option (WalWriter D)
  record_wal none sensor_id value timestamp = none
  record_wal (some wal) sensor_id value timestamp =
      some (append to_bits of_bits wal sensor_id value timestamp)

  -- `record`, under a name that is not a keyword here.
  unfoldable pub record_sample : SeriesStore D → String → D → ℕ → ℕ → SeriesStore D
  unfolding get_or_create record_wal
  record_sample store sensor_id value timestamp now = record store {
    series = put store.series sensor_id (
        push (get_or_create store sensor_id now) (record { timestamp = timestamp; value = value }));
    wal = record_wal store.wal sensor_id value timestamp;
  }

  unfoldable pub latest : SeriesStore D → String → Option (Sample D)
  latest store sensor_id = elim (at_key store.series sensor_id) [
    | none ↦ none
    | some buffer ↦ ring_latest buffer
  ]

  unfoldable pub recent : SeriesStore D → String → ℕ → List (Sample D)
  recent store sensor_id count = elim (at_key store.series sensor_id) [
    | none ↦ []
    | some buffer ↦ ring_recent blank buffer count
  ]

  -- The samples from a time on; the log is flushed on the way.
  unfoldable pub history : SeriesStore D → String → ℕ → SeriesStore D × List (Sample D)
  unfolding recent
  history store sensor_id since = elim store.wal [
    | some wal ↦
        let (wal', samples) = read_since to_bits of_bits wal sensor_id since in
        (record store { wal = some wal' }, samples)
    | none ↦
        (store, keep (λ s. leb since s.timestamp) (recent store sensor_id store.default_capacity))
  ]

  abbrev pub persistent : SeriesStore D → Bool
  persistent store = elim store.wal [ none ↦ false | some wal ↦ true ]

  unfoldable pub sensor_ids : SeriesStore D → List String
  sensor_ids store = map (λ entry. entry.0) store.series
