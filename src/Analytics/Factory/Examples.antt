-- ===== src/Analytics/Factory/Examples.antt =====
-- A test of the building of rules, and its theorem at a concrete sensor.
use Prim.Native.String.{String}
use ironpulse.Prelude.{ℕ, ◌*◌, ◌≡◌, refl, [], ◌∷◌, none, some}
use ironpulse.Prelude.Dict.{at_key}
use ironpulse.Prelude.Double.{whole}
use ironpulse.Core.Config.Types.{DetectorConfig, SensorConfig, holding, uint16, big}
use ironpulse.Analytics.RuleEngine.{Rules, SensorRule, inside}
use ironpulse.Analytics.Factory.{
  register_sensor, register_sensor_known, AllBuilt, is_known, make_detector, ticks_per_second,
}

abbrev of_type : String → DetectorConfig ℕ
of_type type = record {
  type = type;
  window = 20;
  alpha = 1;
  threshold = 3;
  mean = 10;
  stddev = 2;
  slack = 1;
}

abbrev sensor : SensorConfig ℕ
sensor = record {
  id = "pump";
  name = "Pump";
  unit = "bar";
  register_type = holding;
  address = 7;
  data_type = uint16;
  word_order = big;
  scale = 1;
  offset = 0;
  limits = record { low = none; high = some 90 };
  detection = record {
    detectors = of_type "ewma" ∷ of_type "cusum" ∷ [];
    votes_required = 0;
    cooldown_seconds = 60;
  };
}

unknown_type : make_detector whole (of_type "median") ≡ none
unfolding make_detector
unknown_type = refl

register_sensor_known_example :
    (rules' : Rules ℕ) × (rule : SensorRule ℕ) × (register_sensor whole [] sensor ≡ some rules')
    × (at_key rules' "pump" ≡ some rule)
    × AllBuilt whole sensor.detection.detectors rule.strategies
    × (rule.votes_required ≡ 2)
    × (rule.cooldown ≡ 60 * ticks_per_second)
    × (rule.limits ≡ sensor.limits)
    × (rule.limit_state ≡ inside)
    × (rule.last_limit_alert ≡ none)
    × (rule.last_statistical_alert ≡ none)
unfolding is_known
register_sensor_known_example = register_sensor_known whole [] sensor "pump" (refl, (refl, tt))
