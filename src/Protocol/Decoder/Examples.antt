-- ===== src/Protocol/Decoder/Examples.antt =====
-- Tests of the decoder, and its theorems at concrete registers.
use ironpulse.Prelude.{ℕ, ◌≡◌, refl, [], ◌∷◌, none, some, arith}
use ironpulse.Prelude.Double.{whole}
use ironpulse.Core.Config.Types.{SensorConfig, holding, int32, uint32, little}
use ironpulse.Protocol.Plan.{ReadBlock, span}
use ironpulse.Protocol.Plan.Blocks.{Serves}
use ironpulse.Protocol.Decoder.{decode_raw, extract_value}
use ironpulse.Protocol.Decoder.Bits.{natural, negative, decode_raw-registers_of}
use ironpulse.Protocol.Decoder.Extract.{extract_value-registers_of}

abbrev current : SensorConfig ℕ
current = record {
  id = "load_current";
  name = "load";
  unit = "A";
  register_type = holding;
  address = 20;
  data_type = uint32;
  word_order = little;
  scale = 3;
  offset = 5;
  limits = record { low = none; high = none };
  detection = record { detectors = []; votes_required = 1; cooldown_seconds = 30 };
}

abbrev block : ReadBlock
block = record {
  register_type = holding;
  start_address = 18;
  quantity = 5;
  sensor_indices = 0 ∷ [];
}

decode_little : decode_raw whole (2 ∷ 1 ∷ []) uint32 little ≡ 65538
unfolding decode_raw
decode_little = refl

too_short : extract_value whole block (0 ∷ 0 ∷ 2 ∷ []) current ≡ none
unfolding extract_value
too_short = refl

Serves-current : Serves block (span current)
Serves-current = record { table = refl; from_start = omega arith; to_end = omega arith }

decode_raw-registers_of_example : decode_raw whole (65533 ∷ 65535 ∷ []) int32 little ≡ 0
decode_raw-registers_of_example =
    decode_raw-registers_of whole int32 little (negative 2) (omega arith)

extract_value-registers_of_example :
    extract_value whole block (8 ∷ 9 ∷ 2 ∷ 1 ∷ 7 ∷ []) current ≡ some 196619
extract_value-registers_of_example =
    extract_value-registers_of whole block current (natural 65538) (8 ∷ 9 ∷ []) (7 ∷ [])
      Serves-current (omega arith) refl
