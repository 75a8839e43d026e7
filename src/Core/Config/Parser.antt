-- ===== src/Core/Config/Parser.antt =====
-- src/core/config.cpp: from a JSON value to the configuration structures. The JSON library is a
-- parameter: `view` says of a value what its `is_...`, `get` and `at` say.
use Prim.Native.String.{String}
use ironpulse.Prelude.{
  ℕ, ◌+◌, max, Bool, true, false, not, leb, ◌&&◌, ◌||◌, if◌then◌else◌, List, [], ◌∷◌, ◌++◌, Option,
  none, some, length,
}
use ironpulse.Prelude.Dict.{Dict, at_key, same_key}
use ironpulse.Prelude.Double.{Double, zero_point, one_point}
use ironpulse.Core.Config.Types.{DetectorConfig, DetectionConfig}
use ironpulse.Core.Config.Failure.{
  Part, element, Result, done, ◌>>=◌, ◌>>◌, fail, check, join_path, expected_integer,
  expected_number, expected_finite, expected_string, expected_boolean, expected_object,
  expected_array, out_of_range, unknown_value, not_above_zero, is_negative, not_in_unit_interval,
  needs_mean_and_stddev,
}
use ironpulse.Core.Config.Text.{is_empty}

-- A JSON value: a number is a non-negative integer, the negative one `-(n + 1)`, or a `double`.
pub data View (J D : Type 0) : Type 0 where
  null : View J D
  boolean : Bool → View J D
  integer negative : ℕ → View J D
  floating : D → View J D
  text : String → View J D
  array : List J → View J D
  object : Dict J → View J D

module _ (F : Double) {J : Type 0} (view : J → View J F.D) (getenv : String → Option String) where
  open F use {D, below, equal, of_nat, of_negative, literal, is_finite}

  abbrev pub Object : Type 0
  Object = Dict J

  -- `if (!j.is_object()) fail(path, "expected an object");`, and the members.
  abbrev pub members : View J D → List Part → Result Object
  members (object fields) path = done fields
  members _ path = fail path expected_object

  abbrev pub elements : View J D → List Part → Result (List J)
  elements (array list) path = done list
  elements _ path = fail path expected_array

  abbrev pub contains : Object → String → Bool
  contains obj key = elim (at_key obj key) [ none ↦ false | some v ↦ true ]

  -- All ranges lie in the non-negative `int64_t`; a larger integer or a negative one is out of range.
  abbrev pub int_of : ℕ → ℕ → List Part → View J D → Result ℕ
  int_of min_value max_value where_ (integer n) =
      check (leb min_value n && leb n max_value) where_ (out_of_range min_value max_value) >> done n
  int_of min_value max_value where_ (negative n) = fail where_ (out_of_range min_value max_value)
  int_of min_value max_value where_ _ = fail where_ expected_integer

  unfoldable pub get_int : Object → String → ℕ → List Part → ℕ → ℕ → Result ℕ
  get_int obj key fallback path min_value max_value = elim (at_key obj key) [
    | none ↦ done fallback
    | some v ↦ int_of min_value max_value (join_path path key) (view v)
  ]

  abbrev pub finite : List Part → D → Result D
  finite where_ d = check (is_finite d) where_ expected_finite >> done d

  abbrev pub number_of : List Part → View J D → Result D
  number_of where_ (integer n) = finite where_ (of_nat n)
  number_of where_ (negative n) = finite where_ (of_negative n)
  number_of where_ (floating d) = finite where_ d
  number_of where_ _ = fail where_ expected_number

  unfoldable pub get_number : Object → String → D → List Part → Result D
  get_number obj key fallback path = elim (at_key obj key) [
    | none ↦ done fallback
    | some v ↦ number_of (join_path path key) (view v)
  ]

  abbrev pub optional_of : List Part → View J D → Result (Option D)
  optional_of where_ null = done none
  optional_of where_ v = number_of where_ v >>= λ d. done (some d)

  unfoldable pub get_optional_number : Object → String → List Part → Result (Option D)
  get_optional_number obj key path = elim (at_key obj key) [
    | none ↦ done none
    | some v ↦ optional_of (join_path path key) (view v)
  ]

  abbrev pub string_of : List Part → View J D → Result String
  string_of where_ (text t) = done t
  string_of where_ _ = fail where_ expected_string

  unfoldable pub get_string : Object → String → String → List Part → Result String
  get_string obj key fallback path = elim (at_key obj key) [
    | none ↦ done fallback
    | some v ↦ string_of (join_path path key) (view v)
  ]

  abbrev pub boolean_of : List Part → View J D → Result Bool
  boolean_of where_ (boolean b) = done b
  boolean_of where_ _ = fail where_ expected_boolean

  unfoldable pub get_bool : Object → String → Bool → List Part → Result Bool
  get_bool obj key fallback path = elim (at_key obj key) [
    | none ↦ done fallback
    | some v ↦ boolean_of (join_path path key) (view v)
  ]

  unfoldable pub option_named : {E : Type 0} → List (String × E) → String → List Part → Result E
  option_named [] raw where_ = fail where_ (unknown_value raw)
  option_named ((name, value) ∷ options) raw where_ =
      let rest = option_named options raw where_ in if same_key raw name then done value else rest

  unfoldable pub get_enum :
      {E : Type 0} → Object → String → E → List Part → List (String × E) → Result E
  unfolding option_named get_string
  get_enum obj key fallback path options = do
    raw ← get_string obj key "" path
    if is_empty raw then done fallback else option_named options raw (join_path path key)

  -- The loop over the elements of an array.
  unfoldable pub parse_each :
      {A : Type 0} → (J → List Part → Result A) → List Part → ℕ → List J → Result (List A)
  parse_each parse path i [] = done []
  parse_each parse path i (j ∷ list) = do
    first ← parse j (path ++ (element i ∷ []))
    rest ← parse_each parse path (i + 1) list
    done (first ∷ rest)

  -- `a <= b` of two doubles
  abbrev pub at_most : D → D → Bool
  at_most a b = below a b || equal a b

  abbrev pub default_detector : String → DetectorConfig D
  default_detector type = record {
    type = type;
    window = 60;
    alpha = literal 2 1;
    threshold = literal 3 0;
    mean = zero_point F;
    stddev = one_point F;
    slack = literal 5 1;
  }

  abbrev pub default_detection : DetectionConfig D
  default_detection = record {
    detectors = default_detector "zscore" ∷ default_detector "ewma" ∷ [];
    votes_required = 1;
    cooldown_seconds = 30;
  }

  unfoldable pub parse_zscore : Object → List Part → Result (DetectorConfig D)
  unfolding get_int get_number
  parse_zscore j path = do
    window ← get_int j "window" 60 path 2 100000
    threshold ← get_number j "threshold" (literal 3 0) path
    done (record (default_detector "zscore") { window = window; threshold = threshold })

  unfoldable pub parse_ewma : Object → List Part → Result (DetectorConfig D)
  unfolding get_number
  parse_ewma j path = do
    alpha ← get_number j "alpha" (literal 2 1) path
    threshold ← get_number j "threshold" (literal 3 0) path
    check (not (at_most alpha (zero_point F) || below (one_point F) alpha)) (join_path path "alpha")
        not_in_unit_interval
    done (record (default_detector "ewma") { alpha = alpha; threshold = threshold })

  unfoldable pub parse_cusum : Object → List Part → Result (DetectorConfig D)
  unfolding get_number
  parse_cusum j path = do
    check (contains j "mean" && contains j "stddev") path needs_mean_and_stddev
    mean ← get_number j "mean" (zero_point F) path
    stddev ← get_number j "stddev" (one_point F) path
    slack ← get_number j "slack" (literal 5 1) path
    threshold ← get_number j "threshold" (literal 5 0) path
    check (not (at_most stddev (zero_point F))) (join_path path "stddev") not_above_zero
    check (not (below slack (zero_point F))) (join_path path "slack") is_negative
    done (record (default_detector "cusum") {
      mean = mean;
      stddev = stddev;
      slack = slack;
      threshold = threshold;
    })

  unfoldable pub parse_of_type : String → Object → List Part → Result (DetectorConfig D)
  unfolding parse_zscore parse_ewma parse_cusum
  parse_of_type type j path =
      if same_key type "zscore"
      then parse_zscore j path
      else if same_key type "ewma"
      then parse_ewma j path
      else if same_key type "cusum"
      then parse_cusum j path
      else fail (join_path path "type") (unknown_value type)

  unfoldable pub parse_detector : J → List Part → Result (DetectorConfig D)
  unfolding get_string parse_of_type
  parse_detector value path = do
    j ← members (view value) path
    type ← get_string j "type" "" path
    d ← parse_of_type type j path
    check (not (at_most d.threshold (zero_point F))) (join_path path "threshold") not_above_zero
    done d

  unfoldable pub parse_detectors : Object → List Part → Result (List (DetectorConfig D))
  unfolding parse_each parse_detector
  parse_detectors j path = elim (at_key j "detectors") [
    | none ↦ done default_detection.detectors
    | some value ↦ elements (view value) (join_path path "detectors") >>= λ list.
        parse_each parse_detector (join_path path "detectors") 0 list
  ]

  unfoldable pub parse_detection : J → List Part → Result (DetectionConfig D)
  unfolding get_int parse_detectors
  parse_detection value path = do
    j ← members (view value) path
    detectors ← parse_detectors j path
    cooldown_seconds ← get_int j "cooldown_seconds" 30 path 0 86400
    votes_required ← get_int j "votes_required" 1 path 1 (max 1 (length detectors))
    done (record {
      detectors = detectors;
      votes_required = votes_required;
      cooldown_seconds = cooldown_seconds;
    })
