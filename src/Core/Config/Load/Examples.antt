-- ===== src/Core/Config/Load/Examples.antt =====
-- A configuration with one device and a channel without its URL, loaded.
use Prim.Native.String.{String}
use ironpulse.Prelude.{ℕ, false, List, [], ◌∷◌, Option, none, some, get_or, if◌then◌else◌}
use ironpulse.Prelude.Dict.{same_key}
use ironpulse.Prelude.Double.{billionths}
use ironpulse.Core.Config.Types.{AppConfig, warning}
use ironpulse.Core.Config.Parser.{View, null, integer, text, array, object}
use ironpulse.Core.Config.Devices.{default_sensor, default_export}

-- A document by the numbers of its values.
abbrev values : List (View ℕ ℕ)
values =
    object (("devices", 1) ∷ ("notifications", 5) ∷ ("http_port", 9) ∷ [])
    ∷ array (2 ∷ [])
    ∷ object (("id", 3) ∷ ("host", 4) ∷ [])
    ∷ text "press-1"
    ∷ text "${HOST}"
    ∷ object (("channels", 6) ∷ [])
    ∷ array (7 ∷ [])
    ∷ object (("type", 8) ∷ [])
    ∷ text "slack"
    ∷ integer 9090
    ∷ []

abbrev view : ℕ → View ℕ ℕ
view j = get_or values j null

abbrev getenv : String → Option String
getenv name =
    if same_key name "HOST"
    then some "plc.local"
    else if same_key name "IRONPULSE_WS_PORT"
    then some "9091"
    else none

abbrev loaded : AppConfig ℕ
loaded = record {
  app_name = "ironpulse";
  log_level = "info";
  log_file = "";
  http_port = 9090;
  ws_port = 9091;
  worker_threads = 4;
  web_root = "web";
  data_dir = "data";
  persistence_enabled = false;
  retention_hours = 168;
  api_token = "";
  devices =
      record {
        id = "press-1";
        host = "plc.local";
        port = 502;
        unit_id = 1;
        poll_interval_ms = 1000;
        timeout_ms = 3000;
        sensors = default_sensor billionths view getenv "press-1" ∷ [];
      }
      ∷ [];
  notifications = record {
    language = "ru";
    min_severity = warning;
    dashboard_url = "";
    channels = [];
  };
  export_config = default_export billionths view getenv;
  warnings = "slack" ∷ [];
}
