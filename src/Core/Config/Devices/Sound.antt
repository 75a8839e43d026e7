-- ===== src/Core/Config/Devices/Sound.antt =====
-- What every detector and device satisfies that the parser accepts.
use Prim.Native.String.{String}
use ironpulse.Prelude.{
  ℕ, ◌+◌, ◌≤◌, ◌<◌, Bool, ◌≡◌, ◌≢◌, max, true, false, ◌||◌, List, [], ◌∷◌, Option, length, All,
}
use ironpulse.Prelude.Dict.{same_key}
use ironpulse.Prelude.Double.{Double, zero_point, one_point}
use ironpulse.Core.Config.Types.{
  register_count, DetectorConfig, DetectionConfig, SensorConfig, ModbusDeviceConfig,
}
use ironpulse.Core.Config.Text.{is_empty, is_valid_id, one_of}
use ironpulse.Core.Config.Parser.{View, at_most}
use ironpulse.Core.Config.Devices.{limits_ok}
use ironpulse.Core.Config.Devices.Numbers.{IsLimit}

-- What the defaults need of decimal literals: one digit is finite, 3 and 0.2 are above 0, 0.2 is not
-- above 1, and 1 is not 0.
pub record HasDefaults (F : Double) : Type 0 where
  pub digit_finite : (m e : ℕ) → m < 10 → F.is_finite (F.literal m e) ≡ true
  pub three_positive :
      (F.below (F.literal 3 0) (F.literal 0 0) || F.equal (F.literal 3 0) (F.literal 0 0)) ≡ false
  pub fifth_positive :
      (F.below (F.literal 2 1) (F.literal 0 0) || F.equal (F.literal 2 1) (F.literal 0 0)) ≡ false
  pub fifth_small : F.below (F.literal 1 0) (F.literal 2 1) ≡ false
  pub one_nonzero : F.equal (F.literal 1 0) (F.literal 0 0) ≡ false

module _ (F : Double) {J : Type 0} (view : J → View J F.D) (getenv : String → Option String) where
  open F use {D, below, equal, literal, is_finite}

  abbrev pub detector_types : List String
  detector_types = "zscore" ∷ "ewma" ∷ "cusum" ∷ []

  -- The settings that a type uses, by whether it is zscore or ewma.
  abbrev pub HasSettings : Bool → Bool → DetectorConfig D → Type 0
  HasSettings true _ c = (2 ≤ c.window) × (c.window ≤ 100000)
  HasSettings false true c =
      (at_most F view getenv c.alpha (zero_point F) ≡ false) × (below (one_point F) c.alpha ≡ false)
  HasSettings false false c =
      (at_most F view getenv c.stddev (zero_point F) ≡ false)
      × (below c.slack (zero_point F) ≡ false)

  abbrev pub IsTyped : DetectorConfig D → Type 0
  IsTyped c =
      (one_of c.type detector_types ≡ true)
      × HasSettings (same_key c.type "zscore") (same_key c.type "ewma") c
      × (is_finite c.threshold ≡ true)
      × (is_finite c.alpha ≡ true)
      × (is_finite c.mean ≡ true)
      × (is_finite c.stddev ≡ true)
      × (is_finite c.slack ≡ true)

  abbrev pub IsDetector : DetectorConfig D → Type 0
  IsDetector c = IsTyped c × (at_most F view getenv c.threshold (zero_point F) ≡ false)

  abbrev pub IsDetection : DetectionConfig D → Type 0
  IsDetection d =
      All IsDetector d.detectors
      × (1 ≤ d.votes_required)
      × (d.votes_required ≤ max 1 (length d.detectors))
      × (d.cooldown_seconds ≤ 86400)

  abbrev pub IsSensor : SensorConfig D → Type 0
  IsSensor s =
      (is_valid_id s.id ≡ true)
      × (s.address + register_count s.data_type ≤ 65536)
      × (equal s.scale (zero_point F) ≡ false)
      × (is_finite s.scale ≡ true)
      × (is_finite s.offset ≡ true)
      × (limits_ok F view getenv s.limits.low s.limits.high ≡ true)
      × IsLimit F view getenv s.limits.low
      × IsLimit F view getenv s.limits.high
      × IsDetection s.detection

  abbrev pub IsDevice : ModbusDeviceConfig D → Type 0
  IsDevice d =
      (is_valid_id d.id ≡ true)
      × (is_empty d.host ≡ false)
      × (1 ≤ d.port)
      × (d.port ≤ 65535)
      × (d.unit_id ≤ 255)
      × (50 ≤ d.poll_interval_ms)
      × (d.poll_interval_ms ≤ 86400000)
      × (100 ≤ d.timeout_ms)
      × (d.timeout_ms ≤ 60000)
      × (d.sensors ≢ [])
      × All IsSensor d.sensors
