-- ===== src/Core/Config/Load.antt =====
-- src/core/config.cpp, `parse`: from a JSON document and the environment to a checked configuration.
pub mod Loaded
mod Examples
use Prim.Native.String.{String}
use ironpulse.Prelude.{
  ℕ, zero, suc, ◌+◌, ◌-◌, ◌*◌, ◌/◌, ◌%◌, ◌^◌, Bool, true, false, not, ltb, leb, ◌==◌, ◌&&◌, ◌||◌,
  if◌then◌else◌, List, [], ◌∷◌, ◌++◌, Option, none, some,
}
use ironpulse.Prelude.Dict.{Dict, at_key, same_key}
use ironpulse.Prelude.Double.{Double}
use ironpulse.Core.Config.Types.{
  AppConfig, ExportConfig, NotificationsConfig, NotificationChannelConfig, ModbusDeviceConfig,
  SensorConfig, Severity, warning, critical,
}
use ironpulse.Core.Config.Failure.{
  Part, field, element, Result, failed, done, ◌>>=◌, ◌>>◌, fail, check, expected_root,
  unknown_value, bad_port, same_port, bad_workers, no_retention, duplicate_device, duplicate_sensor,
  not_power_of_two, batch_above_queue, no_directory, no_segment_size, budget_too_small,
}
use ironpulse.Core.Config.Text.{
  is_empty, one_of, env, expand_env, parse_number_or, parse_bool, is_supported_language,
}
use ironpulse.Core.Config.Parser.{
  View, object, members, elements, get_int, get_string, get_bool, get_enum, parse_each,
}
use ironpulse.Core.Config.Devices.{parse_device, parse_channel, parse_export, default_export}
use ironpulse.Core.Config.Overrides.{apply_env_overrides}
use ironpulse.Core.Config.Validate.{validate}

module _ (F : Double) {J : Type 0} (view : J → View J F.D) (getenv : String → Option String) where
  open F use {D}

  abbrev pub severities : List (String × Severity)
  severities = ("warning", warning) ∷ ("critical", critical) ∷ []

  unfoldable pub parse_devices : Dict J → Result (List (ModbusDeviceConfig D))
  parse_devices j = elim (at_key j "devices") [
    | none ↦ done []
    | some value ↦ elements F view getenv (view value) (field "devices" ∷ []) >>= λ list.
        parse_each F view getenv (parse_device F view getenv) (field "devices" ∷ []) 0 list
  ]

  unfoldable pub parse_channels : Dict J → List Part → Result (List NotificationChannelConfig)
  parse_channels n path = elim (at_key n "channels") [
    | none ↦ done []
    | some value ↦ elements F view getenv (view value) path >>= λ list.
        parse_each F view getenv (parse_channel F view getenv) path 0 list
  ]

  unfoldable pub parse_notifications : Dict J → Result NotificationsConfig
  unfolding parse_channels
  parse_notifications j = elim (at_key j "notifications") [
    | none ↦
        done (record { language = "ru"; min_severity = warning; dashboard_url = ""; channels = [] })
    | some value ↦ do
      let path = field "notifications" ∷ []
      n ← members F view getenv (view value) path
      language ← get_string F view getenv n "language" "ru" path
      dashboard_url ← get_string F view getenv n "dashboard_url" "" path
      min_severity ← get_enum F view getenv n "min_severity" warning path severities
      channels ← parse_channels n (path ++ (field "channels" ∷ []))
      done (record {
        language = language;
        min_severity = min_severity;
        dashboard_url = expand_env getenv dashboard_url;
        channels = channels;
      })
  ]

  unfoldable pub parse_optional_export : Dict J → Result ExportConfig
  parse_optional_export j = elim (at_key j "export") [
    | none ↦ done (default_export F view getenv)
    | some value ↦ parse_export F view getenv value
  ]

  abbrev pub root_members : View J D → Result (Dict J)
  root_members (object fields) = done fields
  root_members _ = fail (field "(root)" ∷ []) expected_root

  -- `parse` up to the environment: what the document says, with the default values.
  unfoldable pub parse_document : J → Result (AppConfig D)
  unfolding parse_devices parse_notifications parse_optional_export
  parse_document value = do
    j ← root_members (view value)
    app_name ← get_string F view getenv j "app_name" "ironpulse" []
    log_level ← get_string F view getenv j "log_level" "info" []
    log_file ← get_string F view getenv j "log_file" "" []
    http_port ← get_int F view getenv j "http_port" 8080 [] 1 65535
    ws_port ← get_int F view getenv j "ws_port" 8081 [] 1 65535
    worker_threads ← get_int F view getenv j "worker_threads" 4 [] 1 256
    web_root ← get_string F view getenv j "web_root" "web" []
    data_dir ← get_string F view getenv j "data_dir" "data" []
    persistence_enabled ← get_bool F view getenv j "persistence_enabled" false []
    retention_hours ← get_int F view getenv j "retention_hours" 168 [] 1 87600
    api_token ← get_string F view getenv j "api_token" "" []
    devices ← parse_devices j
    notifications ← parse_notifications j
    export_config ← parse_optional_export j
    done (record {
      app_name = app_name;
      log_level = log_level;
      log_file = log_file;
      http_port = http_port;
      ws_port = ws_port;
      worker_threads = worker_threads;
      web_root = web_root;
      data_dir = data_dir;
      persistence_enabled = persistence_enabled;
      retention_hours = retention_hours;
      api_token = expand_env getenv api_token;
      devices = devices;
      notifications = notifications;
      export_config = export_config;
      warnings = [];
    })

  unfoldable pub parse : J → Result (AppConfig D)
  parse value = parse_document value >>= λ cfg. validate (apply_env_overrides getenv cfg)
