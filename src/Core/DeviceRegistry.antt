-- ===== src/Core/DeviceRegistry.antt =====
-- include/ironpulse/core/device_registry.hpp: the last reported status of each device.
use Prim.Native.String.{String}
use ironpulse.Prelude.{Bool, List, Option}
use ironpulse.Prelude.Dict.{Dict, at_key, put}

abbrev pub DeviceRegistry : Type 0
DeviceRegistry = Dict Bool

unfoldable pub set_status : DeviceRegistry → String → Bool → DeviceRegistry
set_status registry device_id online = put registry device_id online

unfoldable pub status : DeviceRegistry → String → Option Bool
status registry device_id = at_key registry device_id

-- `all`: the order of the map is unspecified; here it is that of the first reports.
abbrev pub all_statuses : DeviceRegistry → List (String × Bool)
all_statuses registry = registry
