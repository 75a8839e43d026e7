-- ===== src/Core/Config/Types.antt =====
-- include/ironpulse/core/config.hpp: the configuration structures. `D` stands for `double`.
use Prim.Native.String.{String}
use ironpulse.Prelude.{ℕ, Bool, List, Option}

pub data RegisterType : Type 0 where
  holding input : RegisterType

pub data DataType : Type 0 where
  uint16 int16 uint32 int32 float32 : DataType

pub data WordOrder : Type 0 where
  big little : WordOrder

-- Number of 16-bit registers that a value of this type occupies.
abbrev pub register_count : DataType → ℕ
register_count uint16 = 1
register_count int16 = 1
register_count uint32 = 2
register_count int32 = 2
register_count float32 = 2

pub data Severity : Type 0 where
  warning critical : Severity

pub record DetectorConfig (D : Type 0) : Type 0 where
  pub type : String
  pub window : ℕ
  pub alpha : D
  pub threshold : D
  pub mean : D
  pub stddev : D
  pub slack : D

pub record DetectionConfig (D : Type 0) : Type 0 where
  pub detectors : List (DetectorConfig D)
  pub votes_required : ℕ
  pub cooldown_seconds : ℕ

pub record Limits (D : Type 0) : Type 0 where
  pub low : Option D
  pub high : Option D

pub record SensorConfig (D : Type 0) : Type 0 where
  pub id : String
  pub name : String
  pub unit : String
  pub register_type : RegisterType
  pub address : ℕ
  pub data_type : DataType
  pub word_order : WordOrder
  pub scale : D
  pub offset : D
  pub limits : Limits D
  pub detection : DetectionConfig D

pub record ModbusDeviceConfig (D : Type 0) : Type 0 where
  pub id : String
  pub host : String
  pub port : ℕ
  pub unit_id : ℕ
  pub poll_interval_ms : ℕ
  pub timeout_ms : ℕ
  pub sensors : List (SensorConfig D)

pub record NotificationChannelConfig : Type 0 where
  pub type : String
  pub url : String
  pub bot_token : String
  pub chat_id : String
  pub headers : List (String × String)

pub record NotificationsConfig : Type 0 where
  pub language : String
  pub min_severity : Severity
  pub dashboard_url : String
  pub channels : List NotificationChannelConfig

pub record ExportConfig : Type 0 where
  pub enabled : Bool
  pub directory : String
  pub queue_capacity : ℕ
  pub batch_size : ℕ
  pub flush_interval_ms : ℕ
  pub segment_max_mb : ℕ
  pub max_total_mb : ℕ

pub record AppConfig (D : Type 0) : Type 0 where
  pub app_name : String
  pub log_level : String
  pub log_file : String
  pub http_port : ℕ
  pub ws_port : ℕ
  pub worker_threads : ℕ
  pub web_root : String
  pub data_dir : String
  pub persistence_enabled : Bool
  pub retention_hours : ℕ
  pub api_token : String
  pub devices : List (ModbusDeviceConfig D)
  pub notifications : NotificationsConfig
  pub export_config : ExportConfig
  pub warnings : List String
