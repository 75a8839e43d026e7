-- ===== src/Core/Config/Devices.antt =====
-- src/core/config.cpp: `parse_sensor`, `parse_device`, `parse_channel` and `parse_export`.
pub mod Numbers
pub mod Sound
pub mod Detectors
pub mod Accepted
use Prim.Native.String.{String}
use ironpulse.Prelude.{
  ℕ, suc, ◌+◌, ◌^◌, max, Bool, true, false, not, ltb, leb, ◌==◌, ◌&&◌, ◌||◌, if◌then◌else◌, List,
  [], ◌∷◌, ◌++◌, Option, none, some, length,
}
use ironpulse.Prelude.Dict.{Dict, at_key, put, same_key}
use ironpulse.Prelude.Double.{Double, zero_point, one_point}
use ironpulse.Core.Config.Types.{
  RegisterType, holding, input, DataType, uint16, int16, uint32, int32, float32, WordOrder, big,
  little, register_count, DetectionConfig, Limits, SensorConfig, ModbusDeviceConfig,
  NotificationChannelConfig, ExportConfig,
}
use ironpulse.Core.Config.Failure.{
  Part, field, element, Result, failed, done, ◌>>=◌, ◌>>◌, fail, check, join_path, expected_string,
  expected_entries, unknown_value, invalid_id, is_zero, low_not_below_high, past_last_register,
  is_required,
}
use ironpulse.Core.Config.Text.{is_empty, is_valid_id, expand_env, one_of}
use ironpulse.Core.Config.Parser.{
  View, text, Object, members, elements, get_int, get_number, get_optional_number, get_string,
  get_bool, get_enum, parse_each, default_detection, parse_detection, at_most, string_of,
}

module _ (F : Double) {J : Type 0} (view : J → View J F.D) (getenv : String → Option String) where
  open F use {D, below, equal, literal}

  -- `*low >= *high` where both are given
  abbrev pub limits_ok : Option D → Option D → Bool
  limits_ok (some low) (some high) = not (at_most F view getenv high low)
  limits_ok _ _ = true

  unfoldable pub parse_limits : Dict J → List Part → Result (Limits D)
  parse_limits j path = elim (at_key j "limits") [
    | none ↦ done (record { low = none; high = none })
    | some value ↦ do
      limits ← members F view getenv (view value) (join_path path "limits")
      low ← get_optional_number F view getenv limits "low" (join_path path "limits")
      high ← get_optional_number F view getenv limits "high" (join_path path "limits")
      check (limits_ok low high) (join_path path "limits") low_not_below_high
      done (record { low = low; high = high })
  ]

  unfoldable pub parse_optional_detection : Dict J → List Part → Result (DetectionConfig D)
  parse_optional_detection j path = elim (at_key j "detection") [
    | none ↦ done (default_detection F view getenv)
    | some value ↦ parse_detection F view getenv value (join_path path "detection")
  ]

  abbrev pub register_types : List (String × RegisterType)
  register_types = ("holding", holding) ∷ ("input", input) ∷ []

  abbrev pub data_types : List (String × DataType)
  data_types =
      ("uint16", uint16)
      ∷ ("int16", int16)
      ∷ ("uint32", uint32)
      ∷ ("int32", int32)
      ∷ ("float32", float32)
      ∷ []

  abbrev pub word_orders : List (String × WordOrder)
  word_orders = ("big", big) ∷ ("little", little) ∷ []

  unfoldable pub parse_sensor : J → List Part → Result (SensorConfig D)
  unfolding parse_limits parse_optional_detection
  parse_sensor value path = do
    j ← members F view getenv (view value) path
    id ← get_string F view getenv j "id" "" path
    check (is_valid_id id) (join_path path "id") (invalid_id id)
    name ← get_string F view getenv j "name" id path
    unit ← get_string F view getenv j "unit" "" path
    register_type ← get_enum F view getenv j "register_type" holding path register_types
    data_type ← get_enum F view getenv j "data_type" uint16 path data_types
    word_order ← get_enum F view getenv j "word_order" big path word_orders
    address ← get_int F view getenv j "address" 0 path 0 65535
    check (leb (address + register_count data_type) 65536) (join_path path "address")
        past_last_register
    scale ← get_number F view getenv j "scale" (one_point F) path
    offset ← get_number F view getenv j "offset" (zero_point F) path
    check (not (equal scale (zero_point F))) (join_path path "scale") is_zero
    limits ← parse_limits j path
    detection ← parse_optional_detection j path
    done (record {
      id = id;
      name = name;
      unit = unit;
      register_type = register_type;
      address = address;
      data_type = data_type;
      word_order = word_order;
      scale = scale;
      offset = offset;
      limits = limits;
      detection = detection;
    })

  -- The sensor of a device without a list of sensors.
  abbrev pub default_sensor : String → SensorConfig D
  default_sensor id = record {
    id = id;
    name = id;
    unit = "";
    register_type = holding;
    address = 0;
    data_type = uint16;
    word_order = big;
    scale = one_point F;
    offset = zero_point F;
    limits = record { low = none; high = none };
    detection = default_detection F view getenv;
  }

  abbrev pub not_empty : {A : Type 0} → List A → Bool
  not_empty [] = false
  not_empty (a ∷ more) = true

  unfoldable pub parse_sensors : Dict J → String → List Part → Result (List (SensorConfig D))
  unfolding parse_sensor
  parse_sensors d id path = elim (at_key d "sensors") [
    | none ↦ done (default_sensor id ∷ [])
    | some value ↦ do
      list ← elements F view getenv (view value) (join_path path "sensors")
      check (not_empty list) (join_path path "sensors") expected_entries
      parse_each F view getenv parse_sensor (join_path path "sensors") 0 list
  ]

  unfoldable pub parse_device : J → List Part → Result (ModbusDeviceConfig D)
  unfolding parse_sensors
  parse_device value path = do
    d ← members F view getenv (view value) path
    id ← get_string F view getenv d "id" "" path
    check (is_valid_id id) (join_path path "id") (invalid_id id)
    raw_host ← get_string F view getenv d "host" "" path
    let host = expand_env getenv raw_host
    check (not (is_empty host)) (join_path path "host") is_required
    port ← get_int F view getenv d "port" 502 path 1 65535
    unit_id ← get_int F view getenv d "unit_id" 1 path 0 255
    poll_interval_ms ← get_int F view getenv d "poll_interval_ms" 1000 path 50 86400000
    timeout_ms ← get_int F view getenv d "timeout_ms" 3000 path 100 60000
    sensors ← parse_sensors d id path
    done (record {
      id = id;
      host = host;
      port = port;
      unit_id = unit_id;
      poll_interval_ms = poll_interval_ms;
      timeout_ms = timeout_ms;
      sensors = sensors;
    })

  -- `headers[name] = expand_env(value)` for each member in turn.
  unfoldable pub parse_headers : Dict J → List Part → Dict String → Result (Dict String)
  parse_headers [] path headers = done headers
  parse_headers ((name, value) ∷ more) path headers =
      string_of F view getenv (join_path path name) (view value) >>= λ t.
      parse_headers more path (put headers name (expand_env getenv t))

  unfoldable pub parse_channel : J → List Part → Result NotificationChannelConfig
  unfolding parse_headers
  parse_channel value path = do
    j ← members F view getenv (view value) path
    type ← get_string F view getenv j "type" "" path
    check (one_of type ("telegram" ∷ "slack" ∷ "webhook" ∷ [])) (join_path path "type")
        (unknown_value type)
    url ← get_string F view getenv j "url" "" path
    bot_token ← get_string F view getenv j "bot_token" "" path
    chat_id ← get_string F view getenv j "chat_id" "" path
    headers ← elim (at_key j "headers") as (λ _. Result (Dict String)) [
      | none ↦ done []
      | some h ↦ do
        fields ← members F view getenv (view h) (join_path path "headers")
        parse_headers fields (join_path path "headers") []
    ]
    done (record {
      type = type;
      url = expand_env getenv url;
      bot_token = expand_env getenv bot_token;
      chat_id = expand_env getenv chat_id;
      headers = headers;
    })

  abbrev pub default_export : ExportConfig
  default_export = record {
    enabled = false;
    directory = "export";
    queue_capacity = 65536;
    batch_size = 1000;
    flush_interval_ms = 1000;
    segment_max_mb = 64;
    max_total_mb = 1024;
  }

  unfoldable pub parse_export : J → Result ExportConfig
  parse_export value = do
    let path = field "export" ∷ []
    j ← members F view getenv (view value) path
    enabled ← get_bool F view getenv j "enabled" false path
    directory ← get_string F view getenv j "directory" "export" path
    queue_capacity ← get_int F view getenv j "queue_capacity" 65536 path 16 (2 ^ 24)
    batch_size ← get_int F view getenv j "batch_size" 1000 path 1 (2 ^ 20)
    flush_interval_ms ← get_int F view getenv j "flush_interval_ms" 1000 path 10 3600000
    segment_max_mb ← get_int F view getenv j "segment_max_mb" 64 path 1 65536
    max_total_mb ← get_int F view getenv j "max_total_mb" 1024 path 0 (2 ^ 24)
    done (record {
      enabled = enabled;
      directory = directory;
      queue_capacity = queue_capacity;
      batch_size = batch_size;
      flush_interval_ms = flush_interval_ms;
      segment_max_mb = segment_max_mb;
      max_total_mb = max_total_mb;
    })
