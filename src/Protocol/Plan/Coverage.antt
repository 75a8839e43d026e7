-- ===== src/Protocol/Plan/Coverage.antt =====
-- What the plan of a device serves.
use ironpulse.Prelude.{
  ℕ, zero, suc, ◌+◌, ◌≤◌, ◌<◌, ◌≡◌, refl, ap, ap₂, sym, subst, ◌∙◌, List, [], ◌∷◌, arith, All,
  All-append, count, length, map, ltb, if◌then◌else◌, true, Bool-cases, inl, inr,
}
use ironpulse.Core.Config.Types.{
  RegisterType, holding, input, SensorConfig, register_count, DataType,
}
use ironpulse.Protocol.Plan.{
  ReadBlock, Span, at, span, same_type, indices_of, sort_by, plan_type, plan_spans, plan_reads,
}
use ironpulse.Protocol.Plan.Sorting.{sort_by-Ordered, All-sort_by, count-sort_by}
use ironpulse.Protocol.Plan.Blocks.{
  served, served-append, IsSpan, Serves, IsBlock, IsNext, Grown, plan_order-Grown,
}

-- The element at an offset, seen from the front of the list.
Suffix : List Span → ℕ → List Span → Type 0
Suffix spans i ss = (j : ℕ) → at spans (i + j) ≡ at ss j

module _ (spans : List Span) (type : RegisterType) where
  next_suffix :
      (i : ℕ) (s : Span) (ss : List Span) → Suffix spans i (s ∷ ss) → Suffix spans (i + 1) ss
  unfolding Suffix
  next_suffix i s ss h j = ap (at spans) shift ∙ h (suc j)
    where
      shift : i + 1 + j ≡ i + suc j
      shift = omega arith

  first_of_suffix : (i : ℕ) (s : Span) (ss : List Span) → Suffix spans i (s ∷ ss) → at spans i ≡ s
  unfolding Suffix
  first_of_suffix i s ss h = ap (at spans) shift ∙ h 0
    where
      shift : i ≡ i + 0
      shift = omega arith

  same_type_eq : (a b : RegisterType) → same_type a b ≡ true → a ≡ b
  same_type_eq holding holding h = refl
  same_type_eq holding input h = cc
  same_type_eq input holding h = cc
  same_type_eq input input h = refl

  indices_of-IsNext :
      (i : ℕ) (ss : List Span)
      → Suffix spans i ss
      → All IsSpan ss
      → All (IsNext spans type 0) (indices_of type i ss)
  unfolding indices_of
  indices_of-IsNext i [] h v = tt
  indices_of-IsNext i (s ∷ ss) h v = elim (Bool-cases (same_type s.register_type type)) [
    | inl e ↦ rw e (next e, indices_of-IsNext (i + 1) ss (next_suffix i s ss h) v.1)
    | inr e ↦ rw e (indices_of-IsNext (i + 1) ss (next_suffix i s ss h) v.1)
  ]
    where
      here : at spans i ≡ s
      here = first_of_suffix i s ss h

      next : same_type s.register_type type ≡ true → IsNext spans type 0 i
      next e = record {
        sound = subst IsSpan (sym here) v.0;
        table = ap (λ (t : Span). t.register_type) here ∙ same_type_eq s.register_type type e;
        later = omega arith;
      }

  count_below : (k i : ℕ) (ss : List Span) → k < i → count k (indices_of type i ss) ≡ 0
  unfolding indices_of
  count_below k i [] lt = refl
  count_below k i (s ∷ ss) lt = ground (arith, count_below k (i + 1) ss)

count_head :
    (t : RegisterType) (a i : ℕ) (l m : List ℕ)
    → count a (if same_type t holding then i ∷ l else l)
        + count a (if same_type t input then i ∷ m else m)
      ≡ count a (i ∷ []) + (count a l + count a m)
count_head holding a i l m = omega arith
count_head input a i l m = omega arith

-- An index stands once among those of its own table, and in no other.
count-indices_of :
    (i j : ℕ) (ss : List Span)
    → count (i + j) (indices_of holding i ss) + count (i + j) (indices_of input i ss)
      ≡ (if ltb j (length ss) then 1 else 0)
unfolding indices_of
count-indices_of i j [] = ground arith
count-indices_of i zero (s ∷ ss) =
    count_head s.register_type (i + 0) i (indices_of holding (i + 1) ss)
      (indices_of input (i + 1) ss)
    ∙ ground (
      arith,
      count_below ss holding (i + 0) (i + 1) ss (omega arith),
      count_below ss input (i + 0) (i + 1) ss (omega arith),
    )
count-indices_of i (suc j) (s ∷ ss) =
    count_head s.register_type (i + suc j) i (indices_of holding (i + 1) ss)
      (indices_of input (i + 1) ss)
    ∙ ground (arith, shifted (count-indices_of (i + 1) j ss))
  where
    shift : i + 1 + j ≡ i + suc j
    shift = omega arith

    shifted :
        count (i + 1 + j) (indices_of holding (i + 1) ss)
            + count (i + 1 + j) (indices_of input (i + 1) ss)
          ≡ (if ltb j (length ss) then 1 else 0)
        → count (i + suc j) (indices_of holding (i + 1) ss)
            + count (i + suc j) (indices_of input (i + 1) ss)
          ≡ (if ltb j (length ss) then 1 else 0)
    shifted h =
        subst
          (λ k.
            count k (indices_of holding (i + 1) ss) + count k (indices_of input (i + 1) ss)
            ≡ (if ltb j (length ss) then 1 else 0))
          shift h

-- What a plan promises: requests that a device may be sent, each sensor inside the block that lists
-- it, and each sensor of the device listed by exactly one block.
pub record IsPlan (spans : List Span) (max_quantity : ℕ) (plan : List ReadBlock) : Type 0 where
  pub requests :
      All
        (λ b.
          (1 ≤ b.quantity) × (b.quantity ≤ max_quantity) × (b.start_address + b.quantity ≤ 65536))
        plan
  pub serves : All (λ b. All (λ i. Serves b (at spans i)) b.sensor_indices) plan
  pub once : (i : ℕ) → count i (served plan) ≡ (if ltb i (length spans) then 1 else 0)

module _ (spans : List Span) (max_quantity max_gap : ℕ) where
  plan_type-Grown :
      (type : RegisterType)
      → 2 ≤ max_quantity
      → max_quantity ≤ 65535
      → All IsSpan spans
      → Grown spans max_quantity type
          (sort_by (λ i. (at spans i).begin) (indices_of type 0 spans))
          (plan_type spans max_quantity max_gap type)
  unfolding plan_type Suffix
  plan_type-Grown type room small v =
      plan_order-Grown spans max_quantity max_gap room small type
        (sort_by (λ i. (at spans i).begin) (indices_of type 0 spans))
        (All-sort_by (λ i. (at spans i).begin) (IsNext spans type 0) (indices_of type 0 spans)
          (indices_of-IsNext spans type 0 spans (λ j. ap (at spans) (zero_add' j)) v))
        (sort_by-Ordered (λ i. (at spans i).begin) (indices_of type 0 spans))
    where
      zero_add' : (j : ℕ) → 0 + j ≡ j
      zero_add' j = omega arith

  requests_of :
      (type : RegisterType) (bs : List ReadBlock)
      → All (IsBlock spans max_quantity type) bs
      → All
          (λ b.
            (1 ≤ b.quantity) × (b.quantity ≤ max_quantity) × (b.start_address + b.quantity ≤ 65536))
          bs
  requests_of type [] h = tt
  requests_of type (b ∷ bs) h =
      ((h.0.some_registers, h.0.at_most, h.0.in_table), requests_of type bs h.1)

  Serves-of :
      (type : RegisterType) (bs : List ReadBlock)
      → All (IsBlock spans max_quantity type) bs
      → All (λ b. All (λ i. Serves b (at spans i)) b.sensor_indices) bs
  Serves-of type [] h = tt
  Serves-of type (b ∷ bs) h = (h.0.serves, Serves-of type bs h.1)

  pub plan_spans-IsPlan :
      2 ≤ max_quantity
      → max_quantity ≤ 65535
      → All IsSpan spans
      → IsPlan spans max_quantity (plan_spans spans max_quantity max_gap)
  unfolding plan_spans
  plan_spans-IsPlan room small v =
      let h = plan_type-Grown holding room small v in
      let k = plan_type-Grown input room small v in
      let hs = plan_type spans max_quantity max_gap holding in
      let ks = plan_type spans max_quantity max_gap input in
      record {
        requests =
            All-append _ hs ks (requests_of holding hs h.blocks) (requests_of input ks k.blocks);
        serves = All-append _ hs ks (Serves-of holding hs h.blocks) (Serves-of input ks k.blocks);
        once = λ i.
            served-append hs ks i
            ∙ ap₂ ◌+◌
                (h.counted i
                  ∙ count-sort_by (λ j. (at spans j).begin) i (indices_of holding 0 spans))
                (k.counted i ∙ count-sort_by (λ j. (at spans j).begin) i (indices_of input 0 spans))
            ∙ from_zero i;
      }
    where
      from_zero :
          (i : ℕ)
          → count i (indices_of holding 0 spans) + count i (indices_of input 0 spans)
            ≡ (if ltb i (length spans) then 1 else 0)
      from_zero i =
          subst
            (λ k.
              count k (indices_of holding 0 spans) + count k (indices_of input 0 spans)
              ≡ (if ltb i (length spans) then 1 else 0))
            (omega arith) (count-indices_of 0 i spans)

-- The configuration admits a sensor only so: it has one or two registers below 65536.
abbrev pub FitsTable : {D : Type 0} → SensorConfig D → Type 0
FitsTable s = s.address + register_count s.data_type ≤ 65536

spans_sound :
    {D : Type 0} (sensors : List (SensorConfig D))
    → All FitsTable sensors
    → All IsSpan (map span sensors)
spans_sound [] h = tt
spans_sound (s ∷ ss) h = (one_or_two s.data_type h.0, spans_sound ss h.1)
  where
    one_or_two :
        (t : DataType)
        → s.address + register_count t ≤ 65536
        → IsSpan (record {
          register_type = s.register_type;
          begin = s.address;
          end = s.address + register_count t;
        })
    one_or_two DataType.uint16 le = omega arith
    one_or_two DataType.int16 le = omega arith
    one_or_two _ le = omega arith

-- For a limit of 2 to 65535 registers in a request, and sensors whose registers lie below 65536, as
-- the loader checks, the plan of `plan_reads` asks for 1 to `max_quantity` registers below 65536 in
-- each request; every sensor index stands in exactly one block, which is of its table and covers all
-- its registers; and no other index stands in a block.
pub plan_reads-IsPlan :
    {D : Type 0} (sensors : List (SensorConfig D)) (max_quantity max_gap : ℕ)
    → 2 ≤ max_quantity
    → max_quantity ≤ 65535
    → All FitsTable sensors
    → IsPlan (map span sensors) max_quantity (plan_reads sensors max_quantity max_gap)
unfolding plan_reads
plan_reads-IsPlan sensors max_quantity max_gap room small h =
    plan_spans-IsPlan (map span sensors) max_quantity max_gap room small (spans_sound sensors h)
