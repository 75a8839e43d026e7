-- ===== src/Core/Config/Load/Loaded.antt =====
-- What a configuration satisfies that `parse` returns.
use Prim.Native.String.{String}
use ironpulse.Prelude.Dict.{Dict}
use ironpulse.Prelude.Double.{Double}
