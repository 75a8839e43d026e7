-- ===== src/Core/Config/Validate.antt =====
-- src/core/config.cpp, `validate`: the checks of the whole configuration.
pub mod Valid
use Prim.Native.String.{String}
use ironpulse.Prelude.{
  ℕ, zero, suc, ◌+◌, ◌-◌, ◌*◌, ◌/◌, ◌%◌, ◌^◌, Bool, true, false, not, ltb, leb, ◌==◌, ◌&&◌, ◌||◌,
  if◌then◌else◌, List, [], ◌∷◌, ◌++◌, Option, none, some,
}
use ironpulse.Prelude.Bits.{bit_and}
use ironpulse.Prelude.Dict.{Dict, at_key, same_key}
use ironpulse.Prelude.Double.{Double}
use ironpulse.Core.Config.Types.{
  AppConfig, ExportConfig, NotificationsConfig, NotificationChannelConfig, ModbusDeviceConfig,
  SensorConfig, Severity, warning, critical,
}
use ironpulse.Core.Config.Failure.{
  Part, field, element, Result, failed, done, ◌>>=◌, ◌>>◌, fail, check, join_path, expected_root,
  unknown_value, bad_port, same_port, bad_workers, no_retention, duplicate_device, duplicate_sensor,
  not_power_of_two, batch_above_queue, no_directory, no_segment_size, budget_too_small,
}
use ironpulse.Core.Config.Text.{
  is_empty, one_of, env, expand_env, parse_number_or, parse_bool, is_supported_language,
}
use ironpulse.Core.Config.Parser.{
  View, object, members, elements, get_int, get_string, get_bool, get_enum, parse_each,
}
use ironpulse.Core.Config.Devices.{parse_device, parse_channel, parse_export, default_export}

abbrev pub channel_is_complete : NotificationChannelConfig → Bool
channel_is_complete c =
    if same_key c.type "telegram"
    then not (is_empty c.bot_token) && not (is_empty c.chat_id)
    else not (is_empty c.url)

abbrev pub log_levels : List String
log_levels = "trace" ∷ "debug" ∷ "info" ∷ "warn" ∷ "error" ∷ "critical" ∷ []

-- The inner loop: the ids seen so far, and after the sensors of one device.
unfoldable pub check_sensors :
    {D : Type 0} → List Part → List String → List (SensorConfig D) → Result (List String)
check_sensors path seen [] = done seen
check_sensors path seen (s ∷ sensors) =
    check (not (one_of s.id seen)) path (duplicate_sensor s.id)
    >> check_sensors path (s.id ∷ seen) sensors

unfoldable pub check_devices :
    {D : Type 0} → ℕ → List String → List String → List (ModbusDeviceConfig D) → Result (Unit {0})
unfolding check_sensors
check_devices i device_ids sensor_ids [] = done tt
check_devices i device_ids sensor_ids (d ∷ devices) = do
  let path = field "devices" ∷ element i ∷ []
  check (not (one_of d.id device_ids)) (join_path path "id") (duplicate_device d.id)
  seen ← check_sensors path sensor_ids d.sensors
  check_devices (i + 1) (d.id ∷ device_ids) seen devices

unfoldable pub check_export : ExportConfig → Result (Unit {0})
unfolding bit_and
check_export e = do
  let path = field "export" ∷ []
  check (bit_and 64 e.queue_capacity (e.queue_capacity - 1) == 0) (join_path path "queue_capacity")
      not_power_of_two
  check (leb e.batch_size e.queue_capacity) (join_path path "batch_size") batch_above_queue
  check (not (e.enabled && is_empty e.directory)) (join_path path "directory") no_directory
  check (not (e.segment_max_mb == 0)) (join_path path "segment_max_mb") no_segment_size
  check (e.max_total_mb == 0 || leb (2 * e.segment_max_mb) e.max_total_mb)
      (join_path path "max_total_mb") budget_too_small

-- The channels that stay, and the types of those that are dropped; a warning is kept as the type.
unfoldable pub complete_channels :
    List NotificationChannelConfig → List NotificationChannelConfig × List String
complete_channels [] = ([], [])
complete_channels (c ∷ channels) =
    let (kept, dropped) = complete_channels channels in
    if channel_is_complete c then (c ∷ kept, dropped) else (kept, c.type ∷ dropped)

unfoldable pub validate : {D : Type 0} → AppConfig D → Result (AppConfig D)
unfolding check_devices check_export complete_channels
validate cfg = do
  check (one_of cfg.log_level log_levels) (field "log_level" ∷ []) (unknown_value cfg.log_level)
  check (not (cfg.http_port == 0 || cfg.ws_port == 0)) (field "http_port/ws_port" ∷ []) bad_port
  check (not (cfg.http_port == cfg.ws_port)) (field "ws_port" ∷ []) same_port
  check (not (cfg.worker_threads == 0 || ltb 256 cfg.worker_threads)) (field "worker_threads" ∷ [])
      bad_workers
  check (not (cfg.retention_hours == 0)) (field "retention_hours" ∷ []) no_retention
  check_devices 0 [] [] cfg.devices
  check (is_supported_language cfg.notifications.language)
      (field "notifications" ∷ field "language" ∷ []) (unknown_value cfg.notifications.language)
  check_export cfg.export_config
  let (kept, dropped) = complete_channels cfg.notifications.channels
  done (record cfg {
    notifications = record cfg.notifications { channels = kept };
    warnings = cfg.warnings ++ dropped;
  })
