-- ===== src/Protocol/Decoder/Extract.antt =====
-- `extract_value` on the blocks that `plan_reads` makes.
use ironpulse.Prelude.{
  ℕ, ◌+◌, ◌-◌, ◌≡◌, refl, false, ltb, if◌then◌else◌, arith, List, ◌++◌, length, take, drop, none,
  some, length-append, take-length-append, drop-length-append, ◌||◌,
}
use ironpulse.Prelude.Double.{Double}
use ironpulse.Core.Config.Types.{SensorConfig, register_count, DataType, WordOrder}
use ironpulse.Protocol.Plan.{ReadBlock, span}
use ironpulse.Protocol.Plan.Blocks.{Serves}
use ironpulse.Protocol.Decoder.{extract_value}
use ironpulse.Protocol.Decoder.Bits.{
  Quantity, Carries, registers_of, double_of, decode_raw-registers_of,
}

length-registers_of :
    (type : DataType) (order : WordOrder) (q : Quantity)
    → length (registers_of type order q) ≡ register_count type
length-registers_of DataType.uint16 order q = refl
length-registers_of DataType.int16 order q = refl
length-registers_of DataType.uint32 WordOrder.big q = refl
length-registers_of DataType.uint32 WordOrder.little q = refl
length-registers_of DataType.int32 WordOrder.big q = refl
length-registers_of DataType.int32 WordOrder.little q = refl
length-registers_of DataType.float32 WordOrder.big q = refl
length-registers_of DataType.float32 WordOrder.little q = refl

slice :
    (before sent after : List ℕ) {n k : ℕ}
    → length before ≡ n
    → length sent ≡ k
    → take k (drop n (before ++ (sent ++ after))) ≡ sent
slice before sent after e₁ e₂ =
    rw (← e₁, ← e₂, drop-length-append before (sent ++ after), take-length-append sent after)

module _ (F : Double) where
  open F use {D, add, mul, is_finite}

  -- A block that serves a sensor, answered with the registers `before ++ sent ++ after`, where `sent`
  -- are those in which the device lays out `q` at the sensor's place: the value is `q` scaled and
  -- offset, and it is dropped only if it is not finite.
  pub extract_value-registers_of :
      (block : ReadBlock) (sensor : SensorConfig D) (q : Quantity) (before after : List ℕ)
      → Serves block (span sensor)
      → Carries sensor.data_type q
      → length before ≡ sensor.address - block.start_address
      → extract_value F block
          (before ++ (registers_of sensor.data_type sensor.word_order q ++ after))
          sensor
        ≡ (let value = add (mul (double_of F q) sensor.scale) sensor.offset in
            if is_finite value then some value else none)
  unfolding extract_value
  extract_value-registers_of block sensor q before after v h e = rw (
    inside,
    slice before sent after e (length-registers_of sensor.data_type sensor.word_order q),
    decode_raw-registers_of F sensor.data_type sensor.word_order q h,
  )
    where
      sent : List ℕ
      sent = registers_of sensor.data_type sensor.word_order q

      inside :
          (ltb sensor.address block.start_address
            || ltb
                (length (before ++ (sent ++ after)))
                (sensor.address - block.start_address + register_count sensor.data_type))
          ≡ false
      inside = ground (
        arith,
        v.from_start,
        length-append before (sent ++ after),
        length-append sent after,
        length-registers_of sensor.data_type sensor.word_order q,
      )
