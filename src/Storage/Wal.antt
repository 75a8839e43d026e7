-- ===== src/Storage/Wal.antt =====
-- include/ironpulse/storage/wal_writer.hpp: the append-only log of each sensor. A file is its list of
-- bytes, kept under the id of its sensor; times are ticks of 10 ^ -9 seconds since the epoch.
pub mod Records
pub mod Log
pub mod Prune
pub mod Refine
mod Examples
use Prim.Native.String.{String}
use ironpulse.Prelude.{
  ℕ, zero, suc, ◌+◌, ◌-◌, ◌*◌, ◌/◌, ◌^◌, Bool, true, false, ltb, leb, ◌==◌, ◌&&◌, if◌then◌else◌,
  List, [], ◌∷◌, ◌++◌, Option, none, some, length, take, drop, keep, map,
}
use ironpulse.Prelude.Dict.{Dict, at_key, put}
use ironpulse.Prelude.Bytes.{le_bytes, of_le}

pub record WalRecord (D : Type 0) : Type 0 where
  pub timestamp_ms : ℕ
  pub value : D

pub record Sample (D : Type 0) : Type 0 where
  pub timestamp : ℕ
  pub value : D

pub record WalWriter (D : Type 0) : Type 0 where
  pub flush_batch_size : ℕ
  pub pending : Dict (List (WalRecord D))
  -- the directory
  pub files : Dict (List ℕ)

abbrev pub ticks_per_ms : ℕ
ticks_per_ms = 10 ^ 6

-- `sizeof(WalRecord)`
abbrev pub record_size : ℕ
record_size = 16

-- `map[key]` of a map of sequences, with the empty one for a key that is not there.
abbrev pub or_empty : {A : Type 0} → Option (List A) → List A
or_empty none = []
or_empty (some xs) = xs

-- The memory of a `double` is the 64-bit number `to_bits`.
module _ {D : Type 0} (to_bits : D → ℕ) (of_bits : ℕ → D) where
  abbrev pub pending_of : WalWriter D → String → List (WalRecord D)
  pending_of w sensor_id = or_empty (at_key w.pending sensor_id)

  abbrev pub file_of : WalWriter D → String → List ℕ
  file_of w sensor_id = or_empty (at_key w.files sensor_id)

  -- The bytes of one record and of an array of them, on a little-endian host.
  unfoldable pub record_bytes : WalRecord D → List ℕ
  record_bytes r = le_bytes 8 r.timestamp_ms ++ le_bytes 8 (to_bits r.value)

  unfoldable pub records_bytes : List (WalRecord D) → List ℕ
  records_bytes [] = []
  records_bytes (r ∷ rs) = record_bytes r ++ records_bytes rs

  unfoldable pub record_of : List ℕ → WalRecord D
  record_of bytes = record {
    timestamp_ms = of_le (take 8 bytes);
    value = of_bits (of_le (drop 8 bytes));
  }

  -- The loop of `read_all`: a read that comes up short ends it.
  unfoldable pub read_records : ℕ → List ℕ → List (WalRecord D)
  read_records zero bytes = []
  read_records (suc fuel) bytes =
      let rest = read_records fuel (drop record_size bytes) in
      if ltb (length bytes) record_size then [] else record_of (take record_size bytes) ∷ rest

  unfoldable pub read_all : List ℕ → List (WalRecord D)
  read_all bytes = read_records (length bytes) bytes

  unfoldable pub flush_locked : WalWriter D → String → WalWriter D
  unfolding records_bytes
  flush_locked w sensor_id = record w {
    pending = put w.pending sensor_id [];
    files = put w.files sensor_id (file_of w sensor_id ++ records_bytes (pending_of w sensor_id));
  }

  unfoldable pub append : WalWriter D → String → D → ℕ → WalWriter D
  unfolding flush_locked
  append w sensor_id value timestamp =
      let r : WalRecord D = record { timestamp_ms = timestamp / ticks_per_ms; value = value } in
      let buffer = pending_of w sensor_id ++ (r ∷ []) in
      let w' = record w { pending = put w.pending sensor_id buffer } in
      if leb w.flush_batch_size (length buffer) then flush_locked w' sensor_id else w'

  -- A buffer is flushed unless it is empty.
  unfoldable pub flush_pending : WalWriter D → String → WalWriter D
  unfolding flush_locked
  flush_pending w sensor_id =
      if length (pending_of w sensor_id) == 0 then w else flush_locked w sensor_id

  unfoldable pub flush_each : WalWriter D → Dict (List (WalRecord D)) → WalWriter D
  unfolding flush_pending
  flush_each w [] = w
  flush_each w ((sensor_id, buffer) ∷ more) = flush_each (flush_pending w sensor_id) more

  unfoldable pub flush_all : WalWriter D → WalWriter D
  unfolding flush_each
  flush_all w = flush_each w w.pending

  abbrev pub is_recent : ℕ → WalRecord D → Bool
  is_recent since_ms r = leb since_ms r.timestamp_ms

  abbrev pub sample_of : WalRecord D → Sample D
  sample_of r = record { timestamp = r.timestamp_ms * ticks_per_ms; value = r.value }

  unfoldable pub read_since : WalWriter D → String → ℕ → WalWriter D × List (Sample D)
  read_since w sensor_id since =
      let w' = flush_pending w sensor_id in
      (
        w',
        map sample_of (keep (is_recent (since / ticks_per_ms)) (read_all (file_of w' sensor_id))),
      )

  -- One file of `prune_older_than`. `written` and `renamed` say whether the file system wrote the
  -- temporary file and renamed it.
  unfoldable pub prune_file : (String → Bool) → (String → Bool) → ℕ → String → List ℕ → List ℕ × ℕ
  prune_file written renamed cutoff_ms sensor_id bytes =
      let records = read_all bytes in
      let kept = keep (is_recent cutoff_ms) records in
      if length kept == length records
      then (bytes, 0)
      else if written sensor_id && renamed sensor_id
      then (records_bytes kept, length records - length kept)
      else (bytes, 0)

  unfoldable pub prune_files :
      (String → Bool) → (String → Bool) → ℕ → Dict (List ℕ) → Dict (List ℕ) × ℕ
  prune_files written renamed cutoff_ms [] = ([], 0)
  prune_files written renamed cutoff_ms ((sensor_id, bytes) ∷ more) =
      let (bytes', removed) = prune_file written renamed cutoff_ms sensor_id bytes in
      let (more', others) = prune_files written renamed cutoff_ms more in
      ((sensor_id, bytes') ∷ more', removed + others)

  -- `max_age` in milliseconds; a cutoff before the epoch drops nothing, like the cutoff 0.
  unfoldable pub prune_older_than :
      (String → Bool) → (String → Bool) → WalWriter D → ℕ → ℕ → WalWriter D × ℕ
  prune_older_than written renamed w now max_age =
      let w' = flush_all w in
      let (files, removed) =
        prune_files written renamed ((now - max_age * ticks_per_ms) / ticks_per_ms) w'.files in
      (record w' { files = files }, removed)
