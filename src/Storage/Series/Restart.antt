-- ===== src/Storage/Series/Restart.antt =====
-- What a sensor's series holds after any calls of `record` for many sensors, with the replay of its
-- log at the first of them.
use Prim.Native.String.{String}
use ironpulse.Prelude.{
  ℕ, ◌/◌, ◌^◌, ◌<◌, ◌≤◌, ◌≡◌, refl, ap, sym, subst, ◌∙◌, Bool, true, false, List, [], ◌∷◌, ◌++◌,
  Option, none, some, map, keep, keep_cons, All, length, inl, inr, Bool-cases, append_assoc,
  append-nil, leb, if◌then◌else◌,
}
use ironpulse.Prelude.Dict.{at_key, same_key, same_key→eq, at_key-put, same_key_refl}
use ironpulse.Storage.Ring.{Ring, make, push}
use ironpulse.Storage.Ring.Window.{Holds, make-Holds, push-Holds}
use ironpulse.Storage.Ring.Refine.{push_all, push_all-Holds}
use ironpulse.Storage.Wal.{
  WalWriter, WalRecord, Sample, append, flush_locked, file_of, pending_of, ticks_per_ms,
}
use ironpulse.Storage.Wal.Log.{or_empty-put}
use ironpulse.Storage.Series.{
  SeriesStore, replayed, replay_into, log_file, get_or_create, record_wal, record_sample,
}

module _ {D : Type 0} (to_bits : D → ℕ) (of_bits : ℕ → D) (blank : Sample D) where
  -- A call of `record`: the sensor, the value, its time, and the clock at the call.
  abbrev pub Entry : Type 0
  Entry = String × D × ℕ × ℕ

  abbrev pub of_entry : Entry → Sample D
  of_entry (sensor_id, value, timestamp, now) = record { timestamp = timestamp; value = value }

  abbrev pub is_own : String → Entry → Bool
  is_own sensor_id entry = same_key entry.0 sensor_id

  unfoldable pub record_all : SeriesStore D → List Entry → SeriesStore D
  record_all store [] = store
  record_all store ((sensor_id, value, timestamp, now) ∷ entries) =
      record_all (record_sample to_bits of_bits blank store sensor_id value timestamp now) entries

  append_other :
      (w : WalWriter D) (other sensor_id : String) (value : D) (timestamp : ℕ)
      → same_key other sensor_id ≡ false
      → file_of to_bits of_bits (append to_bits of_bits w other value timestamp) sensor_id
        ≡ file_of to_bits of_bits w sensor_id
  unfolding append flush_locked
  append_other w other sensor_id value timestamp differ =
      elim (Bool-cases (leb w.flush_batch_size (length buffer))) [
        | inl e ↦ rw e (or_empty-put w.files other sensor_id _ ∙ rw differ refl)
        | inr e ↦ rw e refl
      ]
    where
      buffer : List (WalRecord D)
      buffer =
          pending_of to_bits of_bits w other
          ++ (record { timestamp_ms = timestamp / ticks_per_ms; value = value } ∷ [])

  series_other :
      (store : SeriesStore D) (other sensor_id : String) (value : D) (timestamp now : ℕ)
      → same_key other sensor_id ≡ false
      → at_key
          (record_sample to_bits of_bits blank store other value timestamp now).series
          sensor_id
        ≡ at_key store.series sensor_id
  unfolding record_sample
  series_other store other sensor_id value timestamp now differ =
      at_key-put store.series other sensor_id _ ∙ rw differ refl

  wal_other :
      (wal : Option (WalWriter D)) (store : SeriesStore D) (other sensor_id : String) (value : D)
      (timestamp : ℕ)
      → same_key other sensor_id ≡ false
      → log_file to_bits of_bits blank
          (record store { wal = record_wal to_bits of_bits blank wal other value timestamp })
          sensor_id
        ≡ log_file to_bits of_bits blank (record store { wal = wal }) sensor_id
  unfolding log_file record_wal
  wal_other none store other sensor_id value timestamp differ = refl
  wal_other (some w) store other sensor_id value timestamp differ =
      append_other w other sensor_id value timestamp differ

  log_other :
      (store : SeriesStore D) (other sensor_id : String) (value : D) (timestamp now : ℕ)
      → same_key other sensor_id ≡ false
      → log_file to_bits of_bits blank
          (record_sample to_bits of_bits blank store other value timestamp now)
          sensor_id
        ≡ log_file to_bits of_bits blank store sensor_id
  unfolding log_file record_sample
  log_other store other sensor_id value timestamp now differ =
      wal_other store.wal store other sensor_id value timestamp differ

  series_own :
      (store : SeriesStore D) (other sensor_id : String) (value : D) (timestamp now : ℕ)
      → same_key other sensor_id ≡ true
      → at_key
          (record_sample to_bits of_bits blank store other value timestamp now).series
          sensor_id
        ≡ some (
            push
              (get_or_create to_bits of_bits blank store sensor_id now)
              (record { timestamp = timestamp; value = value }))
  unfolding record_sample
  series_own store other sensor_id value timestamp now same =
      at_key-put store.series other sensor_id _
      ∙ rw same (
          ap
            (λ s. some (
              push (get_or_create to_bits of_bits blank store s now)
                (record { timestamp = timestamp; value = value })))
            (same_key→eq other sensor_id same))

  found :
      (store : SeriesStore D) (sensor_id : String) (now : ℕ) (ring : Ring (Sample D))
      → at_key store.series sensor_id ≡ some ring
      → get_or_create to_bits of_bits blank store sensor_id now ≡ ring
  unfolding get_or_create
  found store sensor_id now ring here = rw (here, get_or_create) refl

  not_found :
      (store : SeriesStore D) (sensor_id : String) (now : ℕ)
      → at_key store.series sensor_id ≡ none
      → get_or_create to_bits of_bits blank store sensor_id now
        ≡ push_all (make blank store.default_capacity) (
            replayed to_bits of_bits blank store.replay_max_age now
              (log_file to_bits of_bits blank store sensor_id))
  unfolding get_or_create replay_into
  not_found store sensor_id now absent = rw (absent, get_or_create) refl

  own_samples :
      (sensor_id : String) (entry : Entry) (entries : List Entry) (b : Bool)
      → is_own sensor_id entry ≡ b
      → map of_entry (keep (is_own sensor_id) (entry ∷ entries)) ≡ (
          if b
          then of_entry entry ∷ map of_entry (keep (is_own sensor_id) entries)
          else map of_entry (keep (is_own sensor_id) entries))
  own_samples sensor_id entry entries true e =
      ap (map of_entry) (keep_cons (is_own sensor_id) entry entries true e)
  own_samples sensor_id entry entries false e =
      ap (map of_entry) (keep_cons (is_own sensor_id) entry entries false e)

  -- From the first sample of a sensor on.
  started :
      (entries : List Entry) (store : SeriesStore D) (sensor_id : String) (c : ℕ)
      (ring : Ring (Sample D)) (h : List (Sample D))
      → at_key store.series sensor_id ≡ some ring
      → Holds blank c ring h
      → (ring' : Ring (Sample D)) × (at_key (record_all store entries).series sensor_id
          ≡ some ring')
        × Holds blank c ring' (h ++ map of_entry (keep (is_own sensor_id) entries))
  unfolding record_all
  started [] store sensor_id c ring h here holds =
      (ring, here, subst (Holds blank c ring) (sym (append-nil h)) holds)
  started ((other, value, timestamp, now) ∷ entries) store sensor_id c ring h here holds =
      elim (Bool-cases (same_key other sensor_id)) [
        | inl e ↦
            let (ring', at, v) =
              started entries store' sensor_id c (push ring s) (h ++ (s ∷ []))
                (series_own store other sensor_id value timestamp now e
                  ∙ ap (λ r. some (push r s)) (found store sensor_id now ring here))
                (push-Holds blank s holds) in
            (
              ring',
              at,
              subst (Holds blank c ring')
                  (append_assoc h (s ∷ []) (map of_entry (keep (is_own sensor_id) entries))
                    ∙ ap (λ xs. h ++ xs)
                        (sym (own_samples sensor_id (other, value, timestamp, now) entries true e)))
                  v,
            )
        | inr e ↦
            let (ring', at, v) =
              started entries store' sensor_id c ring h
                (series_other store other sensor_id value timestamp now e ∙ here) holds in
            (
              ring',
              at,
              subst (Holds blank c ring')
                  (ap (λ xs. h ++ xs)
                    (sym (own_samples sensor_id (other, value, timestamp, now) entries false e)))
                  v,
            )
      ]
    where
      s : Sample D
      s = record { timestamp = timestamp; value = value }

      store' : SeriesStore D
      store' = record_sample to_bits of_bits blank store other value timestamp now

  pub fresh_start :
      (before after : List Entry) (store : SeriesStore D) (sensor_id : String) (value : D)
      (timestamp now : ℕ)
      → 0 < store.default_capacity
      → store.default_capacity ≤ 2 ^ 63
      → at_key store.series sensor_id ≡ none
      → All (λ e. is_own sensor_id e ≡ false) before
      → (ring : Ring (Sample D)) × (at_key
            (record_all store (before ++ ((sensor_id, value, timestamp, now) ∷ after))).series
            sensor_id
          ≡ some ring)
        × Holds blank store.default_capacity ring (
            replayed to_bits of_bits blank store.replay_max_age now
              (log_file to_bits of_bits blank store sensor_id)
            ++ (record { timestamp = timestamp; value = value }
                ∷ map of_entry (keep (is_own sensor_id) after)))
  unfolding record_all record_sample
  fresh_start [] after store sensor_id value timestamp now pos small absent foreign =
      let (ring, at, v) =
        started after (record_sample to_bits of_bits blank store sensor_id value timestamp now)
          sensor_id store.default_capacity
          (push (get_or_create to_bits of_bits blank store sensor_id now) s) (h ++ (s ∷ []))
          (series_own store sensor_id sensor_id value timestamp now (same_key_refl sensor_id))
          (push-Holds blank s (
            subst (λ r. Holds blank store.default_capacity r h)
              (sym (not_found store sensor_id now absent))
              (push_all-Holds blank h (make-Holds blank store.default_capacity pos small)))) in
      (
        ring,
        at,
        subst (Holds blank store.default_capacity ring)
            (append_assoc h (s ∷ []) (map of_entry (keep (is_own sensor_id) after))) v,
      )
    where
      s : Sample D
      s = record { timestamp = timestamp; value = value }

      h : List (Sample D)
      h =
          replayed to_bits of_bits blank store.replay_max_age now
            (log_file to_bits of_bits blank store sensor_id)
  fresh_start ((other, v, t, n) ∷ before) after store sensor_id value timestamp now pos small absent
        (differ, foreign) =
      let (ring, at, holds) =
        fresh_start before after (record_sample to_bits of_bits blank store other v t n) sensor_id
          value timestamp now pos small (series_other store other sensor_id v t n differ ∙ absent)
          foreign in
      (
        ring,
        at,
        subst
            (λ bytes. Holds blank store.default_capacity ring (
              replayed to_bits of_bits blank store.replay_max_age now bytes
              ++ (record { timestamp = timestamp; value = value }
                  ∷ map of_entry (keep (is_own sensor_id) after))))
            (log_other store other sensor_id v t n differ) holds,
      )
