-- ===== src/Protocol/Plan/Examples.antt =====
-- Tests of the plan, and its theorem for a concrete device.
use ironpulse.Prelude.{ℕ, ◌≡◌, refl, List, [], ◌∷◌, none, arith, map}
use ironpulse.Core.Config.Types.{
  SensorConfig, RegisterType, holding, input, DataType, uint16, float32, big,
}
use ironpulse.Protocol.Plan.{plan_reads, span}
use ironpulse.Protocol.Plan.Coverage.{IsPlan, plan_reads-IsPlan}

abbrev sensor : RegisterType → ℕ → DataType → SensorConfig ℕ
sensor table address type = record {
  id = "s";
  name = "s";
  unit = "";
  register_type = table;
  address = address;
  data_type = type;
  word_order = big;
  scale = 1;
  offset = 0;
  limits = record { low = none; high = none };
  detection = record { detectors = []; votes_required = 1; cooldown_seconds = 30 };
}

-- Two neighbours out of order, an input register, and one too far away to be merged.
abbrev device : List (SensorConfig ℕ)
device =
    sensor holding 4 float32
    ∷ sensor holding 0 uint16
    ∷ sensor input 10 uint16
    ∷ sensor holding 200 uint16
    ∷ []

device_plan :
    plan_reads device 125 8
    ≡ record {
      register_type = holding;
      start_address = 0;
      quantity = 6;
      sensor_indices = 1 ∷ 0 ∷ [];
    }
      ∷ record {
        register_type = holding;
        start_address = 200;
        quantity = 1;
        sensor_indices = 3 ∷ [];
      }
      ∷ record { register_type = input; start_address = 10; quantity = 1; sensor_indices = 2 ∷ [] }
      ∷ []
unfolding plan_reads
device_plan = refl

plan_reads-IsPlan_example : IsPlan (map span device) 125 (plan_reads device 125 8)
plan_reads-IsPlan_example = plan_reads-IsPlan device 125 8 (omega arith) (omega arith) (omega arith)
