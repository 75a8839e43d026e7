-- ===== src/Protocol/Decoder.antt =====
-- src/protocol/register_decoder.cpp, `decode_raw` and `extract_value`, over the interface of
-- `double`. A register is a number below 65536.
pub mod Bits
pub mod Extract
mod Examples
use ironpulse.Prelude.{
  ℕ, zero, suc, ◌+◌, ◌-◌, ◌*◌, ◌^◌, Bool, true, false, ltb, ◌||◌, if◌then◌else◌, List, [], ◌∷◌,
  Option, none, some, get_or, length, take, drop,
}
use ironpulse.Prelude.Double.{Double}
use ironpulse.Core.Config.Types.{
  DataType, uint16, int16, uint32, int32, float32, WordOrder, big, little, SensorConfig,
  register_count,
}
use ironpulse.Protocol.Plan.{ReadBlock}

-- `(high << 16) | low`: the halves do not overlap.
unfoldable pub join_words : WordOrder → ℕ → ℕ → ℕ
join_words big first second = first * 65536 + second
join_words little first second = second * 65536 + first

module _ (F : Double) where
  open F use {D, add, mul, of_nat, of_negative, of_float_bits, literal, is_finite}

  -- `static_cast<double>` of the integer that `bits` stands for in two's complement.
  unfoldable pub of_signed : ℕ → ℕ → D
  of_signed half bits = if ltb bits half then of_nat bits else of_negative (2 * half - bits - 1)

  -- `registers[i]` of a span that is long enough.
  unfoldable pub decode_raw : List ℕ → DataType → WordOrder → D
  unfolding of_signed join_words
  decode_raw registers uint16 order = of_nat (get_or registers 0 0)
  decode_raw registers int16 order = of_signed (2 ^ 15) (get_or registers 0 0)
  decode_raw registers uint32 order =
      of_nat (join_words order (get_or registers 0 0) (get_or registers 1 0))
  decode_raw registers int32 order =
      of_signed (2 ^ 31) (join_words order (get_or registers 0 0) (get_or registers 1 0))
  decode_raw registers float32 order =
      of_float_bits (join_words order (get_or registers 0 0) (get_or registers 1 0))

  -- The offset is used only where `sensor.address` is not below the block's start.
  unfoldable pub extract_value : ReadBlock → List ℕ → SensorConfig D → Option D
  extract_value block registers sensor =
      let offset = sensor.address - block.start_address in
      let count = register_count sensor.data_type in
      if ltb sensor.address block.start_address || ltb (length registers) (offset + count)
      then none
      else let raw =
          decode_raw (take count (drop offset registers)) sensor.data_type sensor.word_order in
        let value = add (mul raw sensor.scale) sensor.offset in
        if is_finite value then some value else none
