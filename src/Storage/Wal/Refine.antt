-- ===== src/Storage/Wal/Refine.antt =====
-- Any sequence of calls of the writer against a specification without files and buffers.
use Prim.Native.String.{String}
use ironpulse.Prelude.{
  ℕ, ◌-◌, ◌*◌, ◌/◌, ◌^◌, ◌<◌, ◌≡◌, refl, ap, sym, ◌∙◌, Bool, ◌&&◌, if◌then◌else◌, List, [], ◌∷◌,
  ◌++◌, map, keep, All, append-nil, inr,
}
use ironpulse.Prelude.Dict.{at_key, same_key, same_key_refl}
use ironpulse.Storage.Wal.{
  WalWriter, pending_of, file_of, records_bytes, read_all, append, flush_pending, flush_all,
  is_recent, sample_of, read_since, prune_older_than, ticks_per_ms,
}
use ironpulse.Storage.Wal.Records.{read_all-records_bytes}
use ironpulse.Storage.Wal.Log.{Logs, Holds, append-Holds, flush_pending-Holds}
use ironpulse.Storage.Wal.Prune.{flush_pending_empties, flush_all-Holds, prune_older_than-Holds}

-- The calls that change a writer. A pruning says of each sensor whether the file system wrote and
-- renamed the new file.
pub data Call (D : Type 0) : Type 0 where
  appended : String → D → ℕ → Call D
  flushed : Call D
  queried : String → ℕ → Call D
  pruned : (String → Bool) → (String → Bool) → ℕ → ℕ → Call D

-- The clock of an append stands below 2 ^ 63 milliseconds.
abbrev pub IsTimely : {D : Type 0} → Call D → Type 0
IsTimely (appended sensor_id value timestamp) = timestamp / ticks_per_ms < 2 ^ 63
IsTimely _ = Unit {0}

module _ {D : Type 0} (to_bits : D → ℕ) (of_bits : ℕ → D) where
  -- A writer on an empty directory.
  unfoldable pub open_writer : ℕ → WalWriter D
  open_writer flush_batch_size = record {
    flush_batch_size = flush_batch_size;
    pending = [];
    files = [];
  }

  unfoldable pub call : WalWriter D → Call D → WalWriter D
  call w (appended sensor_id value timestamp) = append to_bits of_bits w sensor_id value timestamp
  call w flushed = flush_all to_bits of_bits w
  call w (queried sensor_id since) = (read_since to_bits of_bits w sensor_id since).0
  call w (pruned written renamed now max_age) =
      (prune_older_than to_bits of_bits written renamed w now max_age).0

  unfoldable pub call_all : WalWriter D → List (Call D) → WalWriter D
  unfolding call
  call_all w [] = w
  call_all w (c ∷ cs) = call_all (call w c) cs

  -- What a call means for the log of each sensor: an append adds one record to one log, a pruning
  -- that succeeds for a sensor drops its old records, all else changes nothing.
  unfoldable pub expected : Logs to_bits of_bits → Call D → Logs to_bits of_bits
  expected logs (appended written value timestamp) sensor_id =
      logs sensor_id
      ++ (if same_key written sensor_id
          then record { timestamp_ms = timestamp / ticks_per_ms; value = value } ∷ []
          else [])
  expected logs flushed sensor_id = logs sensor_id
  expected logs (queried _ since) sensor_id = logs sensor_id
  expected logs (pruned written renamed now max_age) sensor_id =
      if written sensor_id && renamed sensor_id
      then keep (is_recent to_bits of_bits ((now - max_age * ticks_per_ms) / ticks_per_ms))
          (logs sensor_id)
      else logs sensor_id

  unfoldable pub expected_all : Logs to_bits of_bits → List (Call D) → Logs to_bits of_bits
  unfolding expected
  expected_all logs [] = logs
  expected_all logs (c ∷ cs) = expected_all (expected logs c) cs

  pub open-Holds :
      (flush_batch_size : ℕ) → Holds to_bits of_bits (open_writer flush_batch_size) (λ s. [])
  unfolding open_writer at_key records_bytes
  open-Holds flush_batch_size sensor_id = record {
    stored = [];
    bytes_eq = refl;
    stored_ok = tt;
    buffer_ok = tt;
    log_eq = refl;
  }

  module _ (of_bits-to_bits : (d : D) → of_bits (to_bits d) ≡ d)
      (to_bits_lt : (d : D) → to_bits d < 2 ^ 64) where
    call-Holds :
        (w : WalWriter D) (logs : Logs to_bits of_bits) (c : Call D)
        → IsTimely c
        → Holds to_bits of_bits w logs
        → Holds to_bits of_bits (call w c) (expected logs c)
    unfolding call expected read_since
    call-Holds w logs (appended sensor_id value timestamp) timely holds =
        append-Holds to_bits of_bits w logs sensor_id value timestamp timely holds
    call-Holds w logs flushed timely holds = flush_all-Holds to_bits of_bits w logs holds
    call-Holds w logs (queried sensor_id since) timely holds =
        flush_pending-Holds to_bits of_bits w logs sensor_id holds
    call-Holds w logs (pruned written renamed now max_age) timely holds =
        prune_older_than-Holds to_bits of_bits of_bits-to_bits to_bits_lt written renamed w logs now
          max_age holds

    pub call_all-Holds :
        (cs : List (Call D)) (w : WalWriter D) (logs : Logs to_bits of_bits)
        → All IsTimely cs
        → Holds to_bits of_bits w logs
        → Holds to_bits of_bits (call_all w cs) (expected_all logs cs)
    unfolding call_all expected_all
    call_all-Holds [] w logs timely holds = holds
    call_all-Holds (c ∷ cs) w logs (timely, others) holds =
        call_all-Holds cs (call w c) (expected logs c) others (call-Holds w logs c timely holds)

    pub read_back :
        (w : WalWriter D) (logs : Logs to_bits of_bits) (sensor_id : String)
        → pending_of to_bits of_bits w sensor_id ≡ []
        → Holds to_bits of_bits w logs
        → read_all to_bits of_bits (file_of to_bits of_bits w sensor_id) ≡ logs sensor_id
    read_back w logs sensor_id empty holds =
        let v = holds sensor_id in
        ap (read_all to_bits of_bits) v.bytes_eq
        ∙ read_all-records_bytes to_bits of_bits of_bits-to_bits to_bits_lt v.stored v.stored_ok
        ∙ sym (append-nil v.stored)
        ∙ ap (λ buffer. v.stored ++ buffer) (sym empty)
        ∙ sym v.log_eq

    -- After any calls on an empty directory, whatever the batch size, `read_since` returns the
    -- records of the sensor that were appended, in order, less those that a pruning dropped, from
    -- the asked time on, and each with its time cut to milliseconds. It is assumed that the memory
    -- of a double is a 64-bit number from which the double comes back, and that timestamps are
    -- below 2 ^ 63 milliseconds.
    pub wal_refines :
        (flush_batch_size : ℕ) (cs : List (Call D)) (sensor_id : String) (since : ℕ)
        → All IsTimely cs
        → (read_since to_bits of_bits
            (call_all (open_writer flush_batch_size) cs)
            sensor_id
            since).1
          ≡ map (sample_of to_bits of_bits) (
              keep
                (is_recent to_bits of_bits (since / ticks_per_ms))
                (expected_all (λ s. []) cs sensor_id))
    unfolding read_since
    wal_refines flush_batch_size cs sensor_id since timely =
        ap
          (λ records.
            map (sample_of to_bits of_bits)
              (keep (is_recent to_bits of_bits (since / ticks_per_ms)) records))
          (read_back (flush_pending to_bits of_bits w sensor_id) (expected_all (λ s. []) cs)
            sensor_id
            (flush_pending_empties to_bits of_bits w sensor_id sensor_id
              (inr (same_key_refl sensor_id)))
            (flush_pending-Holds to_bits of_bits w (expected_all (λ s. []) cs) sensor_id (
              call_all-Holds cs (open_writer flush_batch_size) (λ s. []) timely
                (open-Holds flush_batch_size))))
      where
        w : WalWriter D
        w = call_all (open_writer flush_batch_size) cs
