-- ===== src/Protocol/Plan/Blocks.antt =====
-- The loop of `plan_reads` over the sensors of one table.
use ironpulse.Prelude.{
  ℕ, ◌+◌, ◌-◌, ◌%◌, ◌≤◌, ◌<◌, ◌≡◌, refl, sym, ◌∙◌, List, [], ◌∷◌, ◌++◌, arith, All, All-append,
  count, count-append, leb, ltb, ◌&&◌, max, Bool, true, Bool-cases, inl, inr, if◌then◌else◌,
}
use ironpulse.Core.Config.Types.{RegisterType}
use ironpulse.Protocol.Plan.{ReadBlock, Span, at, extend, grow, fresh_block, plan_order}
use ironpulse.Protocol.Plan.Sorting.{Ordered}

-- The indices that a list of blocks serves, in order.
abbrev pub served : List ReadBlock → List ℕ
served [] = []
served (b ∷ bs) = b.sensor_indices ++ served bs

pub served-append :
    (bs cs : List ReadBlock) (a : ℕ)
    → count a (served (bs ++ cs)) ≡ count a (served bs) + count a (served cs)
served-append [] cs a = omega arith
served-append (b ∷ bs) cs a = omega (
  arith,
  count-append a b.sensor_indices (served (bs ++ cs)),
  count-append a b.sensor_indices (served bs),
  served-append bs cs a,
)

-- One or two registers below 65536.
pub record IsSpan (s : Span) : Type 0 where
  pub some_registers : s.begin < s.end
  pub few_registers : s.end ≤ s.begin + 2
  pub in_table : s.end ≤ 65536

-- The registers of `s` lie in the block.
pub record Serves (b : ReadBlock) (s : Span) : Type 0 where
  pub table : s.register_type ≡ b.register_type
  pub from_start : b.start_address ≤ s.begin
  pub to_end : s.end ≤ b.start_address + b.quantity

-- A block of one table that a request may ask for.
pub record IsBlock (spans : List Span) (max_quantity : ℕ) (type : RegisterType) (b : ReadBlock)
    : Type 0 where
  pub table : b.register_type ≡ type
  pub some_registers : 1 ≤ b.quantity
  pub at_most : b.quantity ≤ max_quantity
  pub in_table : b.start_address + b.quantity ≤ 65536
  pub serves : All (λ i. Serves b (at spans i)) b.sensor_indices

-- An index of the order: its span is sound, of the table at hand, and not before `start`.
pub record IsNext (spans : List Span) (type : RegisterType) (start i : ℕ) : Type 0 where
  pub sound : IsSpan (at spans i)
  pub table : (at spans i).register_type ≡ type
  pub later : start ≤ (at spans i).begin

-- The whole loop: sound blocks, and each index of the order in exactly as many as it stands there.
pub record Grown (spans : List Span) (max_quantity : ℕ) (type : RegisterType) (indices : List ℕ)
    (bs : List ReadBlock) : Type 0 where
  pub blocks : All (IsBlock spans max_quantity type) bs
  pub counted : (a : ℕ) → count a (served bs) ≡ count a indices

module _ (spans : List Span) (max_quantity max_gap : ℕ) (room : 2 ≤ max_quantity)
    (small : max_quantity ≤ 65535) where
  fresh-IsBlock :
      (type : RegisterType) (start i : ℕ)
      → IsNext spans type start i
      → IsBlock spans max_quantity type (fresh_block type spans i)
  unfolding fresh_block
  fresh-IsBlock type start i v = record {
    table = refl;
    some_registers = omega (arith, v.sound.some_registers, v.sound.few_registers);
    at_most = omega (arith, v.sound.few_registers);
    in_table = omega (arith, v.sound.some_registers, v.sound.few_registers, v.sound.in_table);
    serves = (
      record {
        table = v.table;
        from_start = omega arith;
        to_end = omega (arith, v.sound.some_registers, v.sound.few_registers);
      },
      tt,
    );
  }

  Serves-wider :
      (b : ReadBlock) (quantity : ℕ) (is js : List ℕ)
      → b.quantity ≤ quantity
      → All (λ i. Serves b (at spans i)) is
      → All (λ i. Serves (record b { quantity = quantity; sensor_indices = js }) (at spans i)) is
  Serves-wider b quantity [] js le h = tt
  Serves-wider b quantity (i ∷ is) js le h = (
    record { table = h.0.table; from_start = h.0.from_start; to_end = omega (arith, h.0.to_end) },
    Serves-wider b quantity is js le h.1,
  )

  record Extended (type : RegisterType) (i : ℕ) (current : ReadBlock)
      (out : ReadBlock × List ReadBlock) : Type 0 where
    opened : IsBlock spans max_quantity type out.0
    closed : All (IsBlock spans max_quantity type) out.1
    start : out.0.start_address ≤ (at spans i).begin
    counted :
        (a : ℕ)
        → count a (served out.1) + count a out.0.sensor_indices
          ≡ count a current.sensor_indices + count a (i ∷ [])

  extend-Extended :
      (type : RegisterType) (i : ℕ) (current : ReadBlock)
      → IsBlock spans max_quantity type current
      → IsNext spans type current.start_address i
      → Extended type i current (extend type spans max_quantity max_gap current i)
  unfolding extend
  extend-Extended type i current b v = elim (Bool-cases merges) [
    | inl e ↦ rw e (record {
      opened = record {
        table = b.table;
        some_registers = omega (arith, fits e, b.some_registers);
        at_most = omega (arith, fits e);
        in_table = omega (arith, fits e, b.in_table, v.sound.in_table, b.some_registers);
        serves =
            All-append (λ j. Serves merged (at spans j)) current.sensor_indices (i ∷ [])
              (Serves-wider current wide current.sensor_indices (current.sensor_indices ++ (i ∷ []))
                (omega (arith, fits e)) b.serves)
              (
                record {
                  table = v.table ∙ sym b.table;
                  from_start = v.later;
                  to_end = omega (arith, fits e);
                },
                tt,
              );
      };
      closed = tt;
      start = v.later;
      counted = λ a. omega (arith, count-append a current.sensor_indices (i ∷ []));
    })
    | inr e ↦ rw e (record {
      opened = fresh-IsBlock type current.start_address i v;
      closed = (b, tt);
      start = omega arith;
      counted = λ a. omega (arith, count-append a current.sensor_indices []);
    })
  ]
    where
      block_end : ℕ
      block_end = current.start_address + current.quantity

      merges : Bool
      merges =
          leb (if ltb block_end (at spans i).begin then (at spans i).begin - block_end else 0)
            max_gap
          && leb (max block_end (at spans i).end - current.start_address) max_quantity

      wide : ℕ
      wide = (max block_end (at spans i).end - current.start_address) % 65536

      merged : ReadBlock
      merged = record current {
        quantity = wide;
        sensor_indices = current.sensor_indices ++ (i ∷ []);
      }

      fits : merges ≡ true → max block_end (at spans i).end - current.start_address ≤ max_quantity
      fits e = ground arith

  IsNext-later :
      (type : RegisterType) (start start' : ℕ) (is : List ℕ)
      → All (λ j. start' ≤ (at spans j).begin) is
      → All (IsNext spans type start) is
      → All (IsNext spans type start') is
  IsNext-later type start start' [] h k = tt
  IsNext-later type start start' (i ∷ is) h k = (
    record { sound = k.0.sound; table = k.0.table; later = h.0 },
    IsNext-later type start start' is h.1 k.1,
  )

  from_start :
      (start n : ℕ) (is : List ℕ)
      → start ≤ n
      → All (λ j. n ≤ (at spans j).begin) is
      → All (λ j. start ≤ (at spans j).begin) is
  from_start start n [] le h = tt
  from_start start n (i ∷ is) le h = (omega arith, from_start start n is le h.1)

  pub grow-Grown :
      (type : RegisterType) (current : ReadBlock) (order : List ℕ)
      → IsBlock spans max_quantity type current
      → All (IsNext spans type current.start_address) order
      → Ordered (λ i. (at spans i).begin) order
      → Grown spans max_quantity type
          (current.sensor_indices ++ order)
          (grow type spans max_quantity max_gap current order)
  unfolding grow
  grow-Grown type current [] b h o = record { blocks = (b, tt); counted = λ a. refl }
  grow-Grown type current (i ∷ order) b h o =
      let step = extend-Extended type i current b h.0 in
      let out = extend type spans max_quantity max_gap current i in
      let rest =
        grow-Grown type out.0 order step.opened
          (IsNext-later type current.start_address out.0.start_address order
            (from_start out.0.start_address (at spans i).begin order step.start o.0) h.1)
          o.1 in
      record {
        blocks = All-append (IsBlock spans max_quantity type) out.1 _ step.closed rest.blocks;
        counted = λ a. omega (
          arith,
          served-append out.1 (grow type spans max_quantity max_gap out.0 order) a,
          rest.counted a,
          step.counted a,
          count-append a out.0.sensor_indices order,
          count-append a current.sensor_indices (i ∷ order),
        );
      }

  pub plan_order-Grown :
      (type : RegisterType) (order : List ℕ)
      → All (IsNext spans type 0) order
      → Ordered (λ i. (at spans i).begin) order
      → Grown spans max_quantity type order (plan_order type spans max_quantity max_gap order)
  unfolding plan_order fresh_block
  plan_order-Grown type [] h o = record { blocks = tt; counted = λ a. refl }
  plan_order-Grown type (i ∷ order) h o =
      grow-Grown type (fresh_block type spans i) order (fresh-IsBlock type 0 i h.0)
        (IsNext-later type 0 (at spans i).begin order o.0 h.1) o.1
