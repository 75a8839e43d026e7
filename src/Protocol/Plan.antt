-- ===== src/Protocol/Plan.antt =====
-- src/protocol/register_decoder.cpp, `plan_reads`: the read requests of a device. Addresses and
-- quantities are below 2 ^ 16, so no `std::uint32_t` sum or difference wraps.
pub mod Sorting
pub mod Blocks
pub mod Coverage
mod Examples
use ironpulse.Prelude.{
  ℕ, zero, suc, ◌+◌, ◌-◌, ◌%◌, max, Bool, true, false, ltb, leb, ◌&&◌, if◌then◌else◌, List, [], ◌∷◌,
  ◌++◌, Option, none, some, get_or, map,
}
use ironpulse.Core.Config.Types.{RegisterType, holding, input, SensorConfig, register_count}

pub record ReadBlock : Type 0 where
  pub register_type : RegisterType
  pub start_address : ℕ
  pub quantity : ℕ
  pub sensor_indices : List ℕ

abbrev pub same_type : RegisterType → RegisterType → Bool
same_type holding holding = true
same_type input input = true
same_type _ _ = false

-- What planning reads of a sensor: its table, its first register, and the one after its last.
pub record Span : Type 0 where
  pub register_type : RegisterType
  pub begin : ℕ
  pub end : ℕ

abbrev pub span : {D : Type 0} → SensorConfig D → Span
span s = record {
  register_type = s.register_type;
  begin = s.address;
  end = s.address + register_count s.data_type;
}

-- The indices of the sensors of one table, from index `i` on.
unfoldable pub indices_of : RegisterType → ℕ → List Span → List ℕ
indices_of type i [] = []
indices_of type i (s ∷ ss) =
    let rest = indices_of type (i + 1) ss in
    if same_type s.register_type type then i ∷ rest else rest

abbrev pub nowhere : Span
nowhere = record { register_type = holding; begin = 0; end = 0 }

-- `sensors[index]`; every index of `order` is in range.
abbrev pub at : List Span → ℕ → Span
at spans i = get_or spans i nowhere

-- `std::sort` by address. The order of sensors at one address is unspecified; here it is kept.
unfoldable pub insert_by : (ℕ → ℕ) → ℕ → List ℕ → List ℕ
insert_by key i [] = i ∷ []
insert_by key i (j ∷ js) = if leb (key i) (key j) then i ∷ j ∷ js else j ∷ insert_by key i js

unfoldable pub sort_by : (ℕ → ℕ) → List ℕ → List ℕ
unfolding insert_by
sort_by key [] = []
sort_by key (i ∷ is) = insert_by key i (sort_by key is)

unfoldable pub fresh_block : RegisterType → List Span → ℕ → ReadBlock
fresh_block type spans index = record {
  register_type = type;
  start_address = (at spans index).begin;
  quantity = ((at spans index).end - (at spans index).begin) % 65536;
  sensor_indices = index ∷ [];
}

-- One round of the loop at an open block: the block that is then open, and the block that the round
-- has closed, if any.
unfoldable pub extend :
    RegisterType → List Span → ℕ → ℕ → ReadBlock → ℕ → ReadBlock × List ReadBlock
unfolding fresh_block
extend type spans max_quantity max_gap current index =
    let block_end = current.start_address + current.quantity in
    let begin = (at spans index).begin in
    let gap = if ltb block_end begin then begin - block_end else 0 in
    let merged_end = max block_end (at spans index).end in
    if leb gap max_gap && leb (merged_end - current.start_address) max_quantity
    then (
      record current {
        quantity = (merged_end - current.start_address) % 65536;
        sensor_indices = current.sensor_indices ++ (index ∷ []);
      },
      [],
    )
    else (fresh_block type spans index, current ∷ [])

-- The loop over `order` with a block open, and the blocks that it appends.
unfoldable pub grow : RegisterType → List Span → ℕ → ℕ → ReadBlock → List ℕ → List ReadBlock
unfolding extend
grow type spans max_quantity max_gap current [] = current ∷ []
grow type spans max_quantity max_gap current (i ∷ order) =
    let (next, closed) = extend type spans max_quantity max_gap current i in
    closed ++ grow type spans max_quantity max_gap next order

unfoldable pub plan_order : RegisterType → List Span → ℕ → ℕ → List ℕ → List ReadBlock
unfolding grow fresh_block
plan_order type spans max_quantity max_gap [] = []
plan_order type spans max_quantity max_gap (i ∷ order) =
    grow type spans max_quantity max_gap (fresh_block type spans i) order

unfoldable pub plan_type : List Span → ℕ → ℕ → RegisterType → List ReadBlock
unfolding plan_order sort_by indices_of
plan_type spans max_quantity max_gap type =
    plan_order type spans max_quantity max_gap
      (sort_by (λ i. (at spans i).begin) (indices_of type 0 spans))

unfoldable pub plan_spans : List Span → ℕ → ℕ → List ReadBlock
unfolding plan_type
plan_spans spans max_quantity max_gap =
    plan_type spans max_quantity max_gap holding ++ plan_type spans max_quantity max_gap input

unfoldable pub plan_reads : {D : Type 0} → List (SensorConfig D) → ℕ → ℕ → List ReadBlock
unfolding plan_spans
plan_reads sensors max_quantity max_gap = plan_spans (map span sensors) max_quantity max_gap
