-- ===== src/Core/Config/Devices/Accepted.antt =====
-- `parse_sensor` and `parse_device`: what they let through.
use Prim.Native.String.{String}
use ironpulse.Prelude.{
  ℕ, ◌≤◌, ◌+◌, ◌≡◌, ◌≢◌, refl, sym, subst, Bool, true, false, not, leb, List, [], ◌∷◌, ◌++◌, Option,
  All, arith, leb→le, inl, inr, Option-cases, true_ne_false,
}
use ironpulse.Prelude.Dict.{Dict, at_key}
use ironpulse.Prelude.Double.{Double, zero_point, one_point}
use ironpulse.Core.Config.Types.{
  RegisterType, DataType, WordOrder, holding, uint16, big, register_count, DetectionConfig, Limits,
  SensorConfig, ModbusDeviceConfig,
}
use ironpulse.Core.Config.Failure.{
  Part, element, done, ◌>>=◌, ◌>>◌, check, join_path, bind_done, check_done, done-injective,
  invalid_id, is_zero, past_last_register, low_not_below_high, is_required, expected_entries,
}
use ironpulse.Core.Config.Text.{is_empty, is_valid_id, expand_env}
use ironpulse.Core.Config.Parser.{
  View, members, elements, get_int, get_number, get_optional_number, get_string, get_enum,
  parse_each,
}
use ironpulse.Core.Config.Devices.{
  limits_ok, parse_limits, parse_optional_detection, register_types, data_types, word_orders,
  parse_sensor, default_sensor, not_empty, parse_sensors, parse_device,
}
use ironpulse.Core.Config.Devices.Sound.{HasDefaults, IsDetection, IsSensor, IsDevice}
use ironpulse.Core.Config.Devices.Detectors.{
  parse_detection-IsDetection, default_detection-IsDetection,
}
use ironpulse.Core.Config.Devices.Numbers.{
  IsLimit, get_int_bounds, get_number_finite, get_optional_number-IsLimit, parse_each-All,
}

module _ (F : Double) {J : Type 0} (view : J → View J F.D) (getenv : String → Option String)
    (known : HasDefaults F) where
  open F use {D, below, equal, literal}

  false_of_not : {b : Bool} → not b ≡ true → b ≡ false
  false_of_not {b} k = ground arith

  abbrev HasLimits : Limits D → Type 0
  HasLimits l =
      (limits_ok F view getenv l.low l.high ≡ true)
      × IsLimit F view getenv l.low
      × IsLimit F view getenv l.high

  parse_limits-HasLimits :
      (j : Dict J) (path : List Part) (l : Limits D)
      → parse_limits F view getenv j path ≡ done l
      → HasLimits l
  unfolding parse_limits
  parse_limits-HasLimits j path l h = elim (Option-cases (at_key j "limits")) [
    | inl e ↦ subst HasLimits (done-injective (rw (e, parse_limits) at h)) (refl, tt, tt)
    | inr (value, e) ↦
        let where_ = join_path path "limits" in
        let (fields, e1, h1) =
          bind_done (members F view getenv (view value) where_) _ (rw (e, parse_limits) at h) in
        let (low, e2, h2) =
          bind_done (get_optional_number F view getenv fields "low" where_) _ h1 in
        let (high, e3, h3) =
          bind_done (get_optional_number F view getenv fields "high" where_) _ h2 in
        let (ok, h4) =
          check_done (limits_ok F view getenv low high) where_ low_not_below_high _ h3 in
        subst HasLimits (done-injective h4) (
          ok,
          get_optional_number-IsLimit F view getenv fields "low" where_ low e2,
          get_optional_number-IsLimit F view getenv fields "high" where_ high e3,
        )
  ]

  parse_optional_detection-IsDetection :
      (j : Dict J) (path : List Part) (d : DetectionConfig D)
      → parse_optional_detection F view getenv j path ≡ done d
      → IsDetection F view getenv d
  unfolding parse_optional_detection
  parse_optional_detection-IsDetection j path d h = elim (Option-cases (at_key j "detection")) [
    | inl e ↦
        subst (IsDetection F view getenv) (done-injective (rw (e, parse_optional_detection) at h))
          (default_detection-IsDetection F view getenv known)
    | inr (value, e) ↦
        parse_detection-IsDetection F view getenv known value (join_path path "detection") d
          (rw (e, parse_optional_detection) at h)
  ]

  -- From the scale on.
  parse_numbers-IsSensor :
      (j : Dict J) (path : List Part) (id name unit : String) (register_type : RegisterType)
      (data_type : DataType) (word_order : WordOrder) (address : ℕ) (s : SensorConfig D)
      → is_valid_id id ≡ true
      → address + register_count data_type ≤ 65536
      → (do
        scale ← get_number F view getenv j "scale" (one_point F) path
        offset ← get_number F view getenv j "offset" (zero_point F) path
        check (not (equal scale (zero_point F))) (join_path path "scale") is_zero
        limits ← parse_limits F view getenv j path
        detection ← parse_optional_detection F view getenv j path
        done (record {
          id = id;
          name = name;
          unit = unit;
          register_type = register_type;
          address = address;
          data_type = data_type;
          word_order = word_order;
          scale = scale;
          offset = offset;
          limits = limits;
          detection = detection;
        }))
        ≡ done s
      → IsSensor F view getenv s
  parse_numbers-IsSensor j path id name unit register_type data_type word_order address s valid fits
        h10 =
      let (scale, e11, h11) =
        bind_done (get_number F view getenv j "scale" (one_point F) path) _ h10 in
      let (offset, e12, h12) =
        bind_done (get_number F view getenv j "offset" (zero_point F) path) _ h11 in
      let (nonzero, h13) =
        check_done (not (equal scale (zero_point F))) (join_path path "scale") is_zero _ h12 in
      let (limits, e14, h14) = bind_done (parse_limits F view getenv j path) _ h13 in
      let (detection, e15, h15) = bind_done (parse_optional_detection F view getenv j path) _ h14 in
      let limits_good = parse_limits-HasLimits j path limits e14 in
      subst (IsSensor F view getenv) (done-injective h15) (
        valid,
        fits,
        false_of_not nonzero,
        get_number_finite F view getenv j "scale" (one_point F) path e11
            (known.digit_finite 1 0 (omega arith)),
        get_number_finite F view getenv j "offset" (zero_point F) path e12
            (known.digit_finite 0 0 (omega arith)),
        limits_good.0,
        limits_good.1,
        limits_good.2,
        parse_optional_detection-IsDetection j path detection e15,
      )

  pub parse_sensor-IsSensor :
      (value : J) (path : List Part) (s : SensorConfig D)
      → parse_sensor F view getenv value path ≡ done s
      → IsSensor F view getenv s
  unfolding parse_sensor
  parse_sensor-IsSensor value path s h =
      let (j, e1, h1) = bind_done (members F view getenv (view value) path) _ h in
      let (id, e2, h2) = bind_done (get_string F view getenv j "id" "" path) _ h1 in
      let (valid, h3) = check_done (is_valid_id id) (join_path path "id") (invalid_id id) _ h2 in
      let (name, e4, h4) = bind_done (get_string F view getenv j "name" id path) _ h3 in
      let (unit, e5, h5) = bind_done (get_string F view getenv j "unit" "" path) _ h4 in
      let (register_type, e6, h6) =
        bind_done
          (get_enum F view getenv j "register_type" holding path (register_types F view getenv)) _
          h5 in
      let (data_type, e7, h7) =
        bind_done (get_enum F view getenv j "data_type" uint16 path (data_types F view getenv)) _
          h6 in
      let (word_order, e8, h8) =
        bind_done (get_enum F view getenv j "word_order" big path (word_orders F view getenv)) _
          h7 in
      let (address, e9, h9) = bind_done (get_int F view getenv j "address" 0 path 0 65535) _ h8 in
      let (fits, h10) =
        check_done (leb (address + register_count data_type) 65536) (join_path path "address")
          past_last_register _ h9 in
      parse_numbers-IsSensor j path id name unit register_type data_type word_order address s valid
        (leb→le (address + register_count data_type) 65536 fits) h10

  default_sensor-IsSensor :
      (id : String)
      → is_valid_id id ≡ true
      → IsSensor F view getenv (default_sensor F view getenv id)
  default_sensor-IsSensor id valid = (
    valid,
    omega arith,
    known.one_nonzero,
    known.digit_finite 1 0 (omega arith),
    known.digit_finite 0 0 (omega arith),
    refl,
    tt,
    tt,
    default_detection-IsDetection F view getenv known,
  )

  parsed_some :
      (list : List J) (where_ : List Part) (parsed : List (SensorConfig D))
      → not_empty F view getenv list ≡ true
      → parse_each F view getenv (parse_sensor F view getenv) where_ 0 list ≡ done parsed
      → parsed ≢ []
  unfolding parse_each
  parsed_some [] where_ parsed ok h = absurd (true_ne_false (sym ok))
  parsed_some (j ∷ list) where_ parsed ok h =
      let (first, one, h1) =
        bind_done (parse_sensor F view getenv j (where_ ++ (element 0 ∷ []))) _ h in
      let (rest, more, h2) =
        bind_done (parse_each F view getenv (parse_sensor F view getenv) where_ 1 list) _ h1 in
      subst (λ xs. xs ≢ []) (done-injective h2) (λ k. cc)

  parse_sensors-All :
      (d : Dict J) (id : String) (path : List Part) (ss : List (SensorConfig D))
      → is_valid_id id ≡ true
      → parse_sensors F view getenv d id path ≡ done ss
      → (ss ≢ []) × All (IsSensor F view getenv) ss
  unfolding parse_sensors
  parse_sensors-All d id path ss valid h = elim (Option-cases (at_key d "sensors")) [
    | inl e ↦
        subst (λ (xs : List (SensorConfig D)). (xs ≢ []) × All (IsSensor F view getenv) xs)
          (done-injective (rw (e, parse_sensors) at h))
          ((λ k. cc), (default_sensor-IsSensor id valid, tt))
    | inr (value, e) ↦
        let where_ = join_path path "sensors" in
        let (list, e1, h1) =
          bind_done (elements F view getenv (view value) where_) _ (rw (e, parse_sensors) at h) in
        let (some_entry, h2) =
          check_done (not_empty F view getenv list) where_ expected_entries _ h1 in
        (
          parsed_some list where_ ss some_entry h2,
          parse_each-All F view getenv (IsSensor F view getenv) (parse_sensor F view getenv)
              parse_sensor-IsSensor list where_ 0 ss h2,
        )
  ]

  -- A device that is parsed without an error has a valid id, a host, a port from 1 to 65535, a unit of
  -- at most 255, intervals in their ranges and at least one sensor. Each of its sensors has a valid id,
  -- registers below 65536, a finite scale other than 0 and a finite offset, finite limits, in order
  -- where both are given, detectors of known types with finite settings in the ranges of their types,
  -- from one vote to the number of its detectors, and a cooldown of at most a day.
  pub parse_device-IsDevice :
      (value : J) (path : List Part) (d : ModbusDeviceConfig D)
      → parse_device F view getenv value path ≡ done d
      → IsDevice F view getenv d
  unfolding parse_device
  parse_device-IsDevice value path d h =
      let (j, e1, h1) = bind_done (members F view getenv (view value) path) _ h in
      let (id, e2, h2) = bind_done (get_string F view getenv j "id" "" path) _ h1 in
      let (valid, h3) = check_done (is_valid_id id) (join_path path "id") (invalid_id id) _ h2 in
      let (raw_host, e4, h4) = bind_done (get_string F view getenv j "host" "" path) _ h3 in
      let (hosted, h5) =
        check_done (not (is_empty (expand_env getenv raw_host))) (join_path path "host") is_required
          _ h4 in
      let (port, e6, h6) = bind_done (get_int F view getenv j "port" 502 path 1 65535) _ h5 in
      let (unit_id, e7, h7) = bind_done (get_int F view getenv j "unit_id" 1 path 0 255) _ h6 in
      let (poll, e8, h8) =
        bind_done (get_int F view getenv j "poll_interval_ms" 1000 path 50 86400000) _ h7 in
      let (timeout, e9, h9) =
        bind_done (get_int F view getenv j "timeout_ms" 3000 path 100 60000) _ h8 in
      let (sensors, e10, h10) = bind_done (parse_sensors F view getenv j id path) _ h9 in
      let (port_least, port_most) =
        get_int_bounds F view getenv j "port" 502 path 1 65535 e6 (omega arith) (omega arith) in
      let (unit_least, unit_most) =
        get_int_bounds F view getenv j "unit_id" 1 path 0 255 e7 (omega arith) (omega arith) in
      let (poll_least, poll_most) =
        get_int_bounds F view getenv j "poll_interval_ms" 1000 path 50 86400000 e8 (omega arith)
          (omega arith) in
      let (time_least, time_most) =
        get_int_bounds F view getenv j "timeout_ms" 3000 path 100 60000 e9 (omega arith)
          (omega arith) in
      let (some_sensor, sensors_ok) = parse_sensors-All j id path sensors valid e10 in
      subst (IsDevice F view getenv) (done-injective h10) (
        valid,
        false_of_not hosted,
        port_least,
        port_most,
        unit_most,
        poll_least,
        poll_most,
        time_least,
        time_most,
        some_sensor,
        sensors_ok,
      )
