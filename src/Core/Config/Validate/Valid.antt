-- ===== src/Core/Config/Validate/Valid.antt =====
-- What a configuration that `validate` lets through satisfies.
use Prim.Native.String.{String}
use ironpulse.Prelude.Bits.{bit_and}
use ironpulse.Prelude.{
  ℕ, ◌+◌, ◌-◌, ◌*◌, ◌≤◌, ◌≡◌, ◌≢◌, refl, sym, subst, Bool, true, false, not, ltb, leb, ◌==◌, ◌&&◌,
  ◌||◌, List, [], ◌∷◌, ◌++◌, map, All, arith, ◌⊎◌, inl, inr, Bool-cases, leb→le, ==_iff,
}
use ironpulse.Core.Config.Types.{
  AppConfig, ExportConfig, NotificationChannelConfig, ModbusDeviceConfig, SensorConfig,
}
use ironpulse.Core.Config.Failure.{
  Part, join_path, done, bind_done, check_done, check_holds, then_done, done-injective, field,
  element, unknown_value, bad_port, same_port, bad_workers, no_retention, duplicate_device,
  duplicate_sensor, not_power_of_two, batch_above_queue, no_directory, no_segment_size,
  budget_too_small, ◌>>=◌,
}
use ironpulse.Core.Config.Text.{is_empty, one_of, is_supported_language}
use ironpulse.Core.Config.Validate.{
  channel_is_complete, log_levels, check_sensors, check_devices, check_export, complete_channels,
  validate,
}

-- The ids, read from the left, are not in `seen` and differ from each other.
abbrev pub AllNew : List String → List String → Type 0
AllNew seen [] = Unit {0}
AllNew seen (id ∷ ids) = (one_of id seen ≡ false) × AllNew (id ∷ seen) ids

abbrev onto : List String → List String → List String
onto seen [] = seen
onto seen (id ∷ ids) = onto (id ∷ seen) ids

abbrev pub sensor_ids : {D : Type 0} → List (SensorConfig D) → List String
sensor_ids = map (λ s. s.id)

-- The ids of all sensors of all devices.
abbrev pub all_sensor_ids : {D : Type 0} → List (ModbusDeviceConfig D) → List String
all_sensor_ids [] = []
all_sensor_ids (d ∷ devices) = sensor_ids d.sensors ++ all_sensor_ids devices

pub record IsValidExport (e : ExportConfig) : Type 0 where
  pub power_of_two : bit_and 64 e.queue_capacity (e.queue_capacity - 1) ≡ 0
  pub batch : e.batch_size ≤ e.queue_capacity
  pub directory : (e.enabled ≡ false) ⊎ (is_empty e.directory ≡ false)
  pub segment : 1 ≤ e.segment_max_mb
  pub budget : (e.max_total_mb ≡ 0) ⊎ (2 * e.segment_max_mb ≤ e.max_total_mb)

pub record IsValid {D : Type 0} (cfg : AppConfig D) : Type 0 where
  pub log_level : one_of cfg.log_level log_levels ≡ true
  pub http_port : 1 ≤ cfg.http_port
  pub ws_port : 1 ≤ cfg.ws_port
  pub ports_differ : cfg.http_port ≢ cfg.ws_port
  pub workers : (1 ≤ cfg.worker_threads) × (cfg.worker_threads ≤ 256)
  pub retention : 1 ≤ cfg.retention_hours
  pub device_ids : AllNew [] (map (λ d. d.id) cfg.devices)
  pub sensor_ids_new : AllNew [] (all_sensor_ids cfg.devices)
  pub language : is_supported_language cfg.notifications.language ≡ true
  pub export : IsValidExport cfg.export_config
  pub channels : All (λ c. channel_is_complete c ≡ true) cfg.notifications.channels

AllNew-append :
    (xs ys seen : List String) → AllNew seen xs → AllNew (onto seen xs) ys → AllNew seen (xs ++ ys)
AllNew-append [] ys seen h k = k
AllNew-append (x ∷ xs) ys seen (new, h) k = (new, AllNew-append xs ys (x ∷ seen) h k)

false_of_not : {b : Bool} → not b ≡ true → b ≡ false
false_of_not {b} h = ground arith

nonzero : (n : ℕ) → not (n == 0) ≡ true → 1 ≤ n
nonzero n h = ground arith

both_nonzero : (n m : ℕ) → not (n == 0 || m == 0) ≡ true → (1 ≤ n) × (1 ≤ m)
both_nonzero n m h = ground arith

differing : (n m : ℕ) → not (n == m) ≡ true → n ≢ m
differing n m h = ground arith

workers_bounds : (n : ℕ) → not (n == 0 || ltb 256 n) ≡ true → (1 ≤ n) × (n ≤ 256)
workers_bounds n h = ground arith

zero_or_le : (n m : ℕ) → (n == 0 || leb m n) ≡ true → (n ≡ 0) ⊎ (m ≤ n)
zero_or_le n m h = elim (Bool-cases (n == 0)) [
  | inl e ↦ inl ((==_iff n 0).0 e)
  | inr e ↦ inr (ground (arith, e))
]

either_false : (a b : Bool) → not (a && b) ≡ true → (a ≡ false) ⊎ (b ≡ false)
either_false true b h = inr (false_of_not h)
either_false false b h = inl refl

check_sensors-AllNew :
    {D : Type 0} (sensors : List (SensorConfig D)) (path : List Part) (seen after : List String)
    → check_sensors path seen sensors ≡ done after
    → AllNew seen (sensor_ids sensors) × (after ≡ onto seen (sensor_ids sensors))
unfolding check_sensors
check_sensors-AllNew [] path seen after h = (tt, sym (done-injective h))
check_sensors-AllNew (s ∷ sensors) path seen after h =
    let (new, more) =
      check_done (not (one_of s.id seen)) path (duplicate_sensor s.id)
        (check_sensors path (s.id ∷ seen) sensors) h in
    let (later, reached) = check_sensors-AllNew sensors path (s.id ∷ seen) after more in
    ((false_of_not new, later), reached)

check_devices-AllNew :
    {D : Type 0} (devices : List (ModbusDeviceConfig D)) (i : ℕ)
    (device_ids sensor_ids_seen : List String)
    → check_devices i device_ids sensor_ids_seen devices ≡ done tt
    → AllNew device_ids (map (λ d. d.id) devices) × AllNew sensor_ids_seen (all_sensor_ids devices)
unfolding check_devices
check_devices-AllNew [] i device_ids sensor_ids_seen h = (tt, tt)
check_devices-AllNew (d ∷ devices) i device_ids sensor_ids_seen h =
    let path : List Part = field "devices" ∷ element i ∷ [] in
    let (new, more) =
      check_done (not (one_of d.id device_ids)) (join_path path "id") (duplicate_device d.id)
        (check_sensors path sensor_ids_seen d.sensors >>= λ seen.
          check_devices (i + 1) (d.id ∷ device_ids) seen devices)
        h in
    let (seen, sensors, others) =
      bind_done (check_sensors path sensor_ids_seen d.sensors)
        (λ seen. check_devices (i + 1) (d.id ∷ device_ids) seen devices) more in
    let (own, after) = check_sensors-AllNew d.sensors path sensor_ids_seen seen sensors in
    let (devices_new, sensors_new) =
      check_devices-AllNew devices (i + 1) (d.id ∷ device_ids) seen others in
    (
      (false_of_not new, devices_new),
      AllNew-append (sensor_ids d.sensors) (all_sensor_ids devices) sensor_ids_seen own
          (subst (λ ids. AllNew ids (all_sensor_ids devices)) after sensors_new),
    )

complete_channels-All :
    (channels : List NotificationChannelConfig)
    → All (λ c. channel_is_complete c ≡ true) (complete_channels channels).0
unfolding complete_channels
complete_channels-All [] = tt
complete_channels-All (c ∷ channels) = elim (Bool-cases (channel_is_complete c)) [
  | inl e ↦ rw (e, All) (e, complete_channels-All channels)
  | inr e ↦ rw e (complete_channels-All channels)
]

check_export-IsValidExport : (e : ExportConfig) → check_export e ≡ done tt → IsValidExport e
unfolding check_export
check_export-IsValidExport e h =
    let path : List Part = field "export" ∷ [] in
    let (power, h1) =
      check_done (bit_and 64 e.queue_capacity (e.queue_capacity - 1) == 0)
        (join_path path "queue_capacity") not_power_of_two _ h in
    let (batch, h2) =
      check_done (leb e.batch_size e.queue_capacity) (join_path path "batch_size") batch_above_queue
        _ h1 in
    let (directory, h3) =
      check_done (not (e.enabled && is_empty e.directory)) (join_path path "directory") no_directory
        _ h2 in
    let (segment, h4) =
      check_done (not (e.segment_max_mb == 0)) (join_path path "segment_max_mb") no_segment_size _
        h3 in
    record {
      power_of_two = (==_iff (bit_and 64 e.queue_capacity (e.queue_capacity - 1)) 0).0 power;
      batch = leb→le e.batch_size e.queue_capacity batch;
      directory = either_false e.enabled (is_empty e.directory) directory;
      segment = nonzero e.segment_max_mb segment;
      budget = zero_or_le e.max_total_mb (2 * e.segment_max_mb) (
          check_holds (e.max_total_mb == 0 || leb (2 * e.segment_max_mb) e.max_total_mb)
            (join_path path "max_total_mb") budget_too_small h4);
    }

-- A configuration that `validate` returns has a known log level, two different ports that are not 0,
-- 1 to 256 workers and a retention; no two devices share an id, and no two sensors of any devices;
-- the language is supported; the export queue is a power of two that holds a batch, its budget is 0
-- or room for two segments, and an enabled export has a directory; and every channel that is left
-- has its credentials.
pub validate-IsValid :
    {D : Type 0} (cfg0 cfg : AppConfig D) → validate cfg0 ≡ done cfg → IsValid cfg
unfolding validate
validate-IsValid cfg0 cfg h =
    let (level, h1) =
      check_done (one_of cfg0.log_level log_levels) (field "log_level" ∷ [])
        (unknown_value cfg0.log_level) _ h in
    let (ports, h2) =
      check_done (not (cfg0.http_port == 0 || cfg0.ws_port == 0)) (field "http_port/ws_port" ∷ [])
        bad_port _ h1 in
    let (differ, h3) =
      check_done (not (cfg0.http_port == cfg0.ws_port)) (field "ws_port" ∷ []) same_port _ h2 in
    let (workers, h4) =
      check_done (not (cfg0.worker_threads == 0 || ltb 256 cfg0.worker_threads))
        (field "worker_threads" ∷ []) bad_workers _ h3 in
    let (retention, h5) =
      check_done (not (cfg0.retention_hours == 0)) (field "retention_hours" ∷ []) no_retention _
        h4 in
    let (devices, h6) = then_done (check_devices 0 [] [] cfg0.devices) _ h5 in
    let (language, h7) =
      check_done (is_supported_language cfg0.notifications.language)
        (field "notifications" ∷ field "language" ∷ []) (unknown_value cfg0.notifications.language)
        _ h6 in
    let (exported, h8) = then_done (check_export cfg0.export_config) _ h7 in
    let (device_ids, sensor_ids_new) = check_devices-AllNew cfg0.devices 0 [] [] devices in
    subst IsValid (done-injective h8) (record {
      log_level = level;
      http_port = (both_nonzero cfg0.http_port cfg0.ws_port ports).0;
      ws_port = (both_nonzero cfg0.http_port cfg0.ws_port ports).1;
      ports_differ = differing cfg0.http_port cfg0.ws_port differ;
      workers = (workers_bounds cfg0.worker_threads workers);
      retention = nonzero cfg0.retention_hours retention;
      device_ids = device_ids;
      sensor_ids_new = sensor_ids_new;
      language = language;
      export = check_export-IsValidExport cfg0.export_config exported;
      channels = complete_channels-All cfg0.notifications.channels;
    })
