-- ===== src/Storage/Wal/Prune.antt =====
-- `flush_all` and `prune_older_than` on the log of each sensor.
use Prim.Native.String.{String}
use ironpulse.Prelude.{
  ℕ, ◌-◌, ◌*◌, ◌/◌, ◌^◌, ◌<◌, ◌≡◌, refl, ap, sym, subst, ◌∙◌, Bool, true, false, ◌&&◌,
  if◌then◌else◌, List, [], ◌∷◌, some, length, keep, All, arith, keep_all, keep_cons, append-nil,
  ◌⊎◌, inl, inr, Bool-cases, Option-cases, ◌==◌, ==_iff,
}
use mathlib.Core.Path.{subst₂}
use ironpulse.Prelude.Dict.{Dict, at_key, same_key, at_key-other, at_key-found, same_key→eq}
use ironpulse.Storage.Wal.{
  WalRecord, WalWriter, or_empty, pending_of, file_of, read_all, flush_locked, flush_pending,
  flush_each, flush_all, is_recent, prune_file, prune_files, prune_older_than, ticks_per_ms,
  read_records,
}
use ironpulse.Storage.Wal.Records.{IsRecord, read_all-records_bytes}
use ironpulse.Storage.Wal.Log.{Logs, Entry, Holds, or_empty-put, flush_each-Holds}

module _ {D : Type 0} (to_bits : D → ℕ) (of_bits : ℕ → D) where
  length_zero : {A : Type 0} (xs : List A) → (length xs == 0) ≡ true → xs ≡ []
  length_zero [] h = refl
  length_zero (x ∷ xs) h = absurd (omega (arith, (==_iff (length (x ∷ xs)) 0).0 h))

  -- A buffer that was flushed is empty, and one that is empty stays so.
  pub flush_pending_empties :
      (w : WalWriter D) (flushed_id sensor_id : String)
      → (pending_of to_bits of_bits w sensor_id ≡ []) ⊎ (same_key flushed_id sensor_id ≡ true)
      → pending_of to_bits of_bits (flush_pending to_bits of_bits w flushed_id) sensor_id ≡ []
  unfolding flush_pending flush_locked
  flush_pending_empties w flushed_id sensor_id empty =
      elim (Bool-cases (length (pending_of to_bits of_bits w flushed_id) == 0)) [
        | inl e ↦ rw e (already e empty)
        | inr e ↦ rw e (or_empty-put w.pending flushed_id sensor_id [] ∙ cleared empty)
      ]
    where
      already :
          (length (pending_of to_bits of_bits w flushed_id) == 0) ≡ true
          → (pending_of to_bits of_bits w sensor_id ≡ []) ⊎ (same_key flushed_id sensor_id ≡ true)
          → pending_of to_bits of_bits w sensor_id ≡ []
      already e (inl k) = k
      already e (inr same) =
          subst (λ s. pending_of to_bits of_bits w s ≡ []) (same_key→eq flushed_id sensor_id same)
            (length_zero (pending_of to_bits of_bits w flushed_id) e)

      cleared :
          (pending_of to_bits of_bits w sensor_id ≡ []) ⊎ (same_key flushed_id sensor_id ≡ true)
          → (if same_key flushed_id sensor_id then [] else pending_of to_bits of_bits w sensor_id)
            ≡ []
      cleared (inl k) = ground (arith, k)
      cleared (inr same) = rw same refl

  flush_each_empties :
      (entries : Dict (List (WalRecord D))) (w : WalWriter D) (sensor_id : String)
      → (pending_of to_bits of_bits w sensor_id ≡ [])
        ⊎ ((buffer : List (WalRecord D)) × (at_key entries sensor_id ≡ some buffer))
      → pending_of to_bits of_bits (flush_each to_bits of_bits w entries) sensor_id ≡ []
  unfolding flush_each at_key
  flush_each_empties [] w sensor_id (inl k) = k
  flush_each_empties [] w sensor_id (inr (buffer, k)) = absurd (cc)
  flush_each_empties ((other, buffer) ∷ more) w sensor_id h =
      flush_each_empties more (flush_pending to_bits of_bits w other) sensor_id
        (elim (Bool-cases (same_key other sensor_id)) [
          | inl e ↦ inl (flush_pending_empties w other sensor_id (inr e))
          | inr e ↦ later e h
        ])
    where
      later :
          same_key other sensor_id ≡ false
          → (pending_of to_bits of_bits w sensor_id ≡ [])
            ⊎ ((found : List (WalRecord D)) × (at_key ((other, buffer) ∷ more) sensor_id
                  ≡ some found))
          → (pending_of to_bits of_bits (flush_pending to_bits of_bits w other) sensor_id ≡ [])
            ⊎ ((found : List (WalRecord D)) × (at_key more sensor_id ≡ some found))
      later e (inl k) = inl (flush_pending_empties w other sensor_id (inl k))
      later e (inr (found, k)) = inr (found, sym (at_key-other other sensor_id buffer more e) ∙ k)

  pub flush_all_empties :
      (w : WalWriter D) (sensor_id : String)
      → pending_of to_bits of_bits (flush_all to_bits of_bits w) sensor_id ≡ []
  unfolding flush_all
  flush_all_empties w sensor_id =
      flush_each_empties w.pending w sensor_id (elim (Option-cases (at_key w.pending sensor_id)) [
        | inl e ↦ inl (rw e refl)
        | inr found ↦ inr found
      ])

  pub flush_all-Holds :
      (w : WalWriter D) (logs : Logs to_bits of_bits)
      → Holds to_bits of_bits w logs
      → Holds to_bits of_bits (flush_all to_bits of_bits w) logs
  unfolding flush_all
  flush_all-Holds w logs holds = flush_each-Holds to_bits of_bits w.pending w logs holds

  All-keep :
      {A : Type 0} (P : A → Type 0) (p : A → Bool) (xs : List A) → All P xs → All P (keep p xs)
  All-keep P p [] h = tt
  All-keep P p (x ∷ xs) (here, h) = elim (Bool-cases (p x)) as (λ _. All P (keep p (x ∷ xs))) [
    | inl e ↦ subst (All P) (sym (keep_cons p x xs true e)) (here, All-keep P p xs h)
    | inr e ↦ subst (All P) (sym (keep_cons p x xs false e)) (All-keep P p xs h)
  ]

  -- One file after `prune_older_than`, where the buffers were flushed before it.
  pruned_entry :
      (of_bits-to_bits : (d : D) → of_bits (to_bits d) ≡ d)
      → (to_bits_lt : (d : D) → to_bits d < 2 ^ 64)
      → (written renamed : String → Bool) (cutoff_ms : ℕ) (sensor_id : String) {bytes : List ℕ}
        {log : List (WalRecord D)}
      → Entry to_bits of_bits bytes [] log
      → Entry to_bits of_bits
          (prune_file to_bits of_bits written renamed cutoff_ms sensor_id bytes).0
          []
          (if written sensor_id && renamed sensor_id
            then keep (is_recent to_bits of_bits cutoff_ms) log
            else log)
  unfolding prune_file
  pruned_entry back small written renamed cutoff_ms sensor_id {bytes} {log} v =
      elim (Bool-cases (length kept == length records)) [
        | inl e ↦
            rw e (unchanged (keep_all recent records ((==_iff (length kept) (length records)).0 e)))
        | inr e ↦ elim (Bool-cases (written sensor_id && renamed sensor_id)) [
          | inl ok ↦
              rw (e, ok)
                (record {
                  stored = kept;
                  bytes_eq = refl;
                  stored_ok =
                      All-keep (IsRecord to_bits of_bits) recent records
                        (subst (All (IsRecord to_bits of_bits)) (sym stored_read) v.stored_ok);
                  buffer_ok = tt;
                  log_eq = ap (keep recent) (sym decoded) ∙ sym (append-nil kept);
                })
          | inr failed ↦ rw (e, failed) v
        ]
      ]
    where
      recent : WalRecord D → Bool
      recent = is_recent to_bits of_bits cutoff_ms

      records : List (WalRecord D)
      records = read_all to_bits of_bits bytes

      kept : List (WalRecord D)
      kept = keep recent records

      stored_read : records ≡ v.stored
      stored_read =
          ap (read_all to_bits of_bits) v.bytes_eq
          ∙ read_all-records_bytes to_bits of_bits back small v.stored v.stored_ok

      decoded : records ≡ log
      decoded = stored_read ∙ sym (append-nil v.stored) ∙ sym v.log_eq

      unchanged :
          kept ≡ records
          → Entry to_bits of_bits bytes []
              (if written sensor_id && renamed sensor_id then keep recent log else log)
      unchanged same = elim (Bool-cases (written sensor_id && renamed sensor_id)) [
        | inl ok ↦ rw ok (
            subst (Entry to_bits of_bits bytes [])
              (sym decoded ∙ sym same ∙ ap (keep recent) decoded) v)
        | inr failed ↦ rw failed v
      ]

  prune_file-nil :
      (written renamed : String → Bool) (cutoff_ms : ℕ) (sensor_id : String)
      → [] ≡ (prune_file to_bits of_bits written renamed cutoff_ms sensor_id []).0
  unfolding prune_file read_all read_records
  prune_file-nil written renamed cutoff_ms sensor_id = refl

  prune_files-at :
      (written renamed : String → Bool) (cutoff_ms : ℕ) (entries : Dict (List ℕ))
      (sensor_id : String)
      → or_empty
          (at_key (prune_files to_bits of_bits written renamed cutoff_ms entries).0 sensor_id)
        ≡ (prune_file to_bits of_bits written renamed cutoff_ms sensor_id
            (or_empty (at_key entries sensor_id))).0
  unfolding prune_files at_key
  prune_files-at written renamed cutoff_ms [] sensor_id =
      prune_file-nil written renamed cutoff_ms sensor_id
  prune_files-at written renamed cutoff_ms ((other, bytes) ∷ more) sensor_id =
      elim (Bool-cases (same_key other sensor_id)) [
        | inl e ↦
            ap or_empty (at_key-found other sensor_id _ _ e)
            ∙ ap (λ s. (prune_file to_bits of_bits written renamed cutoff_ms s bytes).0)
                (same_key→eq other sensor_id e)
            ∙ sym (
                ap
                  (λ o.
                    (prune_file to_bits of_bits written renamed cutoff_ms sensor_id (or_empty o)).0)
                  (at_key-found other sensor_id bytes more e))
        | inr e ↦
            ap or_empty (at_key-other other sensor_id _ _ e)
            ∙ prune_files-at written renamed cutoff_ms more sensor_id
            ∙ sym (
                ap
                  (λ o.
                    (prune_file to_bits of_bits written renamed cutoff_ms sensor_id (or_empty o)).0)
                  (at_key-other other sensor_id bytes more e))
      ]

  pub prune_older_than-Holds :
      (of_bits-to_bits : (d : D) → of_bits (to_bits d) ≡ d)
      → (to_bits_lt : (d : D) → to_bits d < 2 ^ 64)
      → (written renamed : String → Bool) (w : WalWriter D) (logs : Logs to_bits of_bits)
        (now max_age : ℕ)
      → Holds to_bits of_bits w logs
      → Holds to_bits of_bits
          (prune_older_than to_bits of_bits written renamed w now max_age).0
          (λ sensor_id.
            if written sensor_id && renamed sensor_id
            then keep
                (is_recent to_bits of_bits ((now - max_age * ticks_per_ms) / ticks_per_ms))
                (logs sensor_id)
            else logs sensor_id)
  unfolding prune_older_than
  prune_older_than-Holds back small written renamed w logs now max_age holds sensor_id =
      subst₂
        (λ bytes buffer. Entry to_bits of_bits bytes buffer (
          if written sensor_id && renamed sensor_id
          then keep (is_recent to_bits of_bits ((now - max_age * ticks_per_ms) / ticks_per_ms))
              (logs sensor_id)
          else logs sensor_id))
        (sym (
          prune_files-at written renamed ((now - max_age * ticks_per_ms) / ticks_per_ms)
            (flush_all to_bits of_bits w).files sensor_id))
        (sym (flush_all_empties w sensor_id))
        (pruned_entry back small written renamed ((now - max_age * ticks_per_ms) / ticks_per_ms)
          sensor_id
          (subst
            (λ buffer.
              Entry to_bits of_bits
                (file_of to_bits of_bits (flush_all to_bits of_bits w) sensor_id) buffer
                (logs sensor_id))
            (flush_all_empties w sensor_id) (flush_all-Holds w logs holds sensor_id)))
