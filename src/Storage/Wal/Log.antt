-- ===== src/Storage/Wal/Log.antt =====
-- The write-ahead log as one sequence of records for each sensor: what is in the file and what is
-- still in memory, whatever order of calls has moved records from one to the other.
use Prim.Native.String.{String}
use ironpulse.Prelude.{
  ℕ, ◌/◌, ◌^◌, ◌<◌, ◌≡◌, refl, ap, sym, ◌∙◌, if◌then◌else◌, List, [], ◌∷◌, ◌++◌, length, All, arith,
  append-nil, append_assoc, inl, inr, Bool-cases, leb, ◌==◌, All-append,
}
use mathlib.Core.Path.{subst₂}
use ironpulse.Prelude.Dict.{Dict, at_key, put, same_key, at_key-put, same_key→eq}
use ironpulse.Storage.Wal.{
  WalRecord, WalWriter, or_empty, pending_of, file_of, record_bytes, records_bytes, flush_locked,
  append, flush_pending, flush_each, ticks_per_ms,
}
use ironpulse.Storage.Wal.Records.{IsRecord}

pub or_empty-put :
    {A : Type 0} (dict : Dict (List A)) (written key : String) (xs : List A)
    → or_empty (at_key (put dict written xs) key)
      ≡ (if same_key written key then xs else or_empty (at_key dict key))
or_empty-put dict written key xs = ground (arith, at_key-put dict written key xs)

module _ {D : Type 0} (to_bits : D → ℕ) (of_bits : ℕ → D) where
  -- The log of each sensor, oldest record first.
  abbrev pub Logs : Type 0
  Logs = String → List (WalRecord D)

  -- One sensor: the file holds a first part of the log, the buffer the rest.
  pub record Entry (bytes : List ℕ) (buffer log : List (WalRecord D)) : Type 0 where
    pub stored : List (WalRecord D)
    pub bytes_eq : bytes ≡ records_bytes to_bits of_bits stored
    pub stored_ok : All (IsRecord to_bits of_bits) stored
    pub buffer_ok : All (IsRecord to_bits of_bits) buffer
    pub log_eq : log ≡ stored ++ buffer

  abbrev pub Holds : WalWriter D → Logs → Type 0
  Holds w logs =
      (sensor_id : String)
      → Entry (file_of to_bits of_bits w sensor_id) (pending_of to_bits of_bits w sensor_id)
          (logs sensor_id)

  pub records_bytes-append :
      (a b : List (WalRecord D))
      → records_bytes to_bits of_bits (a ++ b)
        ≡ records_bytes to_bits of_bits a ++ records_bytes to_bits of_bits b
  unfolding records_bytes
  records_bytes-append [] b = refl
  records_bytes-append (r ∷ a) b =
      ap (λ bytes. record_bytes to_bits of_bits r ++ bytes) (records_bytes-append a b)
      ∙ sym (
          append_assoc (record_bytes to_bits of_bits r) (records_bytes to_bits of_bits a)
            (records_bytes to_bits of_bits b))

  flushed :
      {bytes : List ℕ} {buffer log : List (WalRecord D)}
      → Entry bytes buffer log
      → Entry (bytes ++ records_bytes to_bits of_bits buffer) [] log
  flushed {buffer} v = record {
    stored = v.stored ++ buffer;
    bytes_eq =
        ap (λ b. b ++ records_bytes to_bits of_bits buffer) v.bytes_eq
        ∙ sym (records_bytes-append v.stored buffer);
    stored_ok = All-append (IsRecord to_bits of_bits) v.stored buffer v.stored_ok v.buffer_ok;
    buffer_ok = tt;
    log_eq = v.log_eq ∙ sym (append-nil (v.stored ++ buffer));
  }

  pub flush_locked-Holds :
      (w : WalWriter D) (logs : Logs) (flushed_id : String)
      → Holds w logs
      → Holds (flush_locked to_bits of_bits w flushed_id) logs
  unfolding flush_locked
  flush_locked-Holds w logs flushed_id holds sensor_id =
      elim (Bool-cases (same_key flushed_id sensor_id)) [
        | inl e ↦
            subst₂ (λ bytes buffer. Entry bytes buffer (logs sensor_id))
              (sym (
                or_empty-put w.files flushed_id sensor_id _
                ∙ rw e (
                    ap
                      (λ s.
                        file_of to_bits of_bits w s
                        ++ records_bytes to_bits of_bits (pending_of to_bits of_bits w s))
                      (same_key→eq flushed_id sensor_id e))))
              (sym (or_empty-put w.pending flushed_id sensor_id [] ∙ rw e refl))
              (flushed (holds sensor_id))
        | inr e ↦
            subst₂ (λ bytes buffer. Entry bytes buffer (logs sensor_id))
              (sym (or_empty-put w.files flushed_id sensor_id _ ∙ rw e refl))
              (sym (or_empty-put w.pending flushed_id sensor_id [] ∙ rw e refl)) (holds sensor_id)
      ]

  pub flush_pending-Holds :
      (w : WalWriter D) (logs : Logs) (flushed_id : String)
      → Holds w logs
      → Holds (flush_pending to_bits of_bits w flushed_id) logs
  unfolding flush_pending
  flush_pending-Holds w logs flushed_id holds =
      elim (Bool-cases (length (pending_of to_bits of_bits w flushed_id) == 0)) [
        | inl e ↦ rw e holds
        | inr e ↦ rw e (flush_locked-Holds w logs flushed_id holds)
      ]

  pub flush_each-Holds :
      (entries : Dict (List (WalRecord D))) (w : WalWriter D) (logs : Logs)
      → Holds w logs
      → Holds (flush_each to_bits of_bits w entries) logs
  unfolding flush_each
  flush_each-Holds [] w logs holds = holds
  flush_each-Holds ((sensor_id, buffer) ∷ more) w logs holds =
      flush_each-Holds more (flush_pending to_bits of_bits w sensor_id) logs
        (flush_pending-Holds w logs sensor_id holds)

  pub append-Holds :
      (w : WalWriter D) (logs : Logs) (written : String) (value : D) (timestamp : ℕ)
      → timestamp / ticks_per_ms < 2 ^ 63
      → Holds w logs
      → Holds (append to_bits of_bits w written value timestamp) (λ sensor_id.
        logs sensor_id
        ++ (if same_key written sensor_id
            then record { timestamp_ms = timestamp / ticks_per_ms; value = value } ∷ []
            else []))
  unfolding append
  append-Holds w logs written value timestamp small holds =
      elim (Bool-cases (leb w.flush_batch_size (length buffer))) [
        | inl e ↦ rw e (flush_locked-Holds w' logs' written buffered)
        | inr e ↦ rw e buffered
      ]
    where
      r : WalRecord D
      r = record { timestamp_ms = timestamp / ticks_per_ms; value = value }

      buffer : List (WalRecord D)
      buffer = pending_of to_bits of_bits w written ++ (r ∷ [])

      w' : WalWriter D
      w' = record w { pending = put w.pending written buffer }

      logs' : Logs
      logs' sensor_id = logs sensor_id ++ (if same_key written sensor_id then r ∷ [] else [])

      more :
          {bytes : List ℕ} {held log : List (WalRecord D)}
          → Entry bytes held log
          → Entry bytes (held ++ (r ∷ [])) (log ++ (r ∷ []))
      more {held} v = record {
        stored = v.stored;
        bytes_eq = v.bytes_eq;
        stored_ok = v.stored_ok;
        buffer_ok = All-append (IsRecord to_bits of_bits) held (r ∷ []) v.buffer_ok (small, tt);
        log_eq = ap (λ l. l ++ (r ∷ [])) v.log_eq ∙ append_assoc v.stored held (r ∷ []);
      }

      buffered : Holds w' logs'
      buffered sensor_id = elim (Bool-cases (same_key written sensor_id)) [
        | inl e ↦
            subst₂ (λ held log. Entry (file_of to_bits of_bits w sensor_id) held log)
              (sym (
                or_empty-put w.pending written sensor_id buffer
                ∙ rw e (
                    ap (λ s. pending_of to_bits of_bits w s ++ (r ∷ []))
                      (same_key→eq written sensor_id e))))
              (rw e refl) (more (holds sensor_id))
        | inr e ↦
            subst₂ (λ held log. Entry (file_of to_bits of_bits w sensor_id) held log)
              (sym (or_empty-put w.pending written sensor_id buffer ∙ rw e refl))
              (sym (append-nil (logs sensor_id)) ∙ rw e refl) (holds sensor_id)
      ]
