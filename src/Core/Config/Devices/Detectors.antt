-- ===== src/Core/Config/Devices/Detectors.antt =====
-- `parse_detector` and `parse_detection`: what they let through.
use Prim.Native.String.{String}
use ironpulse.Prelude.{
  ℕ, ◌<◌, Bool, ◌≡◌, refl, subst, max, true, false, not, ◌&&◌, ◌||◌, List, Option, length, All,
  arith, inl, inr, Option-cases, Bool-cases,
}
use ironpulse.Prelude.Dict.{Dict, at_key, same_key}
use ironpulse.Prelude.Double.{Double, zero_point, one_point}
use ironpulse.Core.Config.Types.{DetectorConfig, DetectionConfig}
use ironpulse.Core.Config.Failure.{
  Part, done, join_path, bind_done, check_done, done-injective, failed_ne_done, not_above_zero,
  is_negative, not_in_unit_interval, needs_mean_and_stddev,
}
use ironpulse.Core.Config.Parser.{
  View, members, elements, contains, get_int, get_number, get_string, at_most, parse_zscore,
  parse_ewma, parse_cusum, parse_of_type, parse_detector, parse_detectors, parse_detection,
  default_detection,
}
use ironpulse.Core.Config.Devices.Numbers.{get_int_bounds, get_number_finite, parse_each-All}
use ironpulse.Core.Config.Devices.Sound.{HasDefaults, IsTyped, IsDetector, IsDetection}

module _ (F : Double) {J : Type 0} (view : J → View J F.D) (getenv : String → Option String)
    (known : HasDefaults F) where
  open F use {D, below, equal, literal, is_finite}

  digit : (m e : ℕ) → m < 10 → is_finite (literal m e) ≡ true
  digit = known.digit_finite

  false_of_not : {b : Bool} → not b ≡ true → b ≡ false
  false_of_not {b} k = ground arith

  neither : (a b : Bool) → not (a || b) ≡ true → (a ≡ false) × (b ≡ false)
  neither a b k = ground arith

  zscore-IsTyped :
      (j : Dict J) (path : List Part) (d : DetectorConfig D)
      → parse_zscore F view getenv j path ≡ done d
      → IsTyped F view getenv d
  unfolding parse_zscore
  zscore-IsTyped j path d h =
      let (window, e1, h1) = bind_done (get_int F view getenv j "window" 60 path 2 100000) _ h in
      let (threshold, e2, h2) =
        bind_done (get_number F view getenv j "threshold" (literal 3 0) path) _ h1 in
      subst (IsTyped F view getenv) (done-injective h2) (
        refl,
        get_int_bounds F view getenv j "window" 60 path 2 100000 e1 (omega arith) (omega arith),
        get_number_finite F view getenv j "threshold" (literal 3 0) path e2
            (digit 3 0 (omega arith)),
        digit 2 1 (omega arith),
        digit 0 0 (omega arith),
        digit 1 0 (omega arith),
        digit 5 1 (omega arith),
      )

  ewma-IsTyped :
      (j : Dict J) (path : List Part) (d : DetectorConfig D)
      → parse_ewma F view getenv j path ≡ done d
      → IsTyped F view getenv d
  unfolding parse_ewma
  ewma-IsTyped j path d h =
      let (alpha, e1, h1) = bind_done (get_number F view getenv j "alpha" (literal 2 1) path) _ h in
      let (threshold, e2, h2) =
        bind_done (get_number F view getenv j "threshold" (literal 3 0) path) _ h1 in
      let (ok, h3) =
        check_done (not (at_most F view getenv alpha (zero_point F) || below (one_point F) alpha))
          (join_path path "alpha") not_in_unit_interval _ h2 in
      subst (IsTyped F view getenv) (done-injective h3) (
        refl,
        neither (at_most F view getenv alpha (zero_point F)) (below (one_point F) alpha) ok,
        get_number_finite F view getenv j "threshold" (literal 3 0) path e2
            (digit 3 0 (omega arith)),
        get_number_finite F view getenv j "alpha" (literal 2 1) path e1 (digit 2 1 (omega arith)),
        digit 0 0 (omega arith),
        digit 1 0 (omega arith),
        digit 5 1 (omega arith),
      )

  cusum-IsTyped :
      (j : Dict J) (path : List Part) (d : DetectorConfig D)
      → parse_cusum F view getenv j path ≡ done d
      → IsTyped F view getenv d
  unfolding parse_cusum
  cusum-IsTyped j path d h =
      let (given, h0) =
        check_done (contains F view getenv j "mean" && contains F view getenv j "stddev") path
          needs_mean_and_stddev _ h in
      let (mean, e1, h1) = bind_done (get_number F view getenv j "mean" (zero_point F) path) _ h0 in
      let (stddev, e2, h2) =
        bind_done (get_number F view getenv j "stddev" (one_point F) path) _ h1 in
      let (slack, e3, h3) =
        bind_done (get_number F view getenv j "slack" (literal 5 1) path) _ h2 in
      let (threshold, e4, h4) =
        bind_done (get_number F view getenv j "threshold" (literal 5 0) path) _ h3 in
      let (positive, h5) =
        check_done (not (at_most F view getenv stddev (zero_point F))) (join_path path "stddev")
          not_above_zero _ h4 in
      let (no_less, h6) =
        check_done (not (below slack (zero_point F))) (join_path path "slack") is_negative _ h5 in
      subst (IsTyped F view getenv) (done-injective h6) (
        refl,
        (false_of_not positive, false_of_not no_less),
        get_number_finite F view getenv j "threshold" (literal 5 0) path e4
            (digit 5 0 (omega arith)),
        digit 2 1 (omega arith),
        get_number_finite F view getenv j "mean" (zero_point F) path e1 (digit 0 0 (omega arith)),
        get_number_finite F view getenv j "stddev" (one_point F) path e2 (digit 1 0 (omega arith)),
        get_number_finite F view getenv j "slack" (literal 5 1) path e3 (digit 5 1 (omega arith)),
      )

  of_type-IsTyped :
      (type : String) (j : Dict J) (path : List Part) (d : DetectorConfig D)
      → parse_of_type F view getenv type j path ≡ done d
      → IsTyped F view getenv d
  unfolding parse_of_type
  of_type-IsTyped type j path d h = elim (Bool-cases (same_key type "zscore")) [
    | inl e ↦ zscore-IsTyped j path d (rw e at h)
    | inr e ↦ elim (Bool-cases (same_key type "ewma")) [
      | inl e' ↦ ewma-IsTyped j path d (rw (e, e') at h)
      | inr e' ↦ elim (Bool-cases (same_key type "cusum")) [
        | inl e'' ↦ cusum-IsTyped j path d (rw (e, e', e'') at h)
        | inr e'' ↦ absurd (failed_ne_done (rw (e, e', e'') at h))
      ]
    ]
  ]

  parse_detector-IsDetector :
      (value : J) (path : List Part) (d : DetectorConfig D)
      → parse_detector F view getenv value path ≡ done d
      → IsDetector F view getenv d
  unfolding parse_detector
  parse_detector-IsDetector value path d h =
      let (j, e1, h1) = bind_done (members F view getenv (view value) path) _ h in
      let (type, e2, h2) = bind_done (get_string F view getenv j "type" "" path) _ h1 in
      let (c, e3, h3) = bind_done (parse_of_type F view getenv type j path) _ h2 in
      let (positive, h4) =
        check_done (not (at_most F view getenv c.threshold (zero_point F)))
          (join_path path "threshold") not_above_zero _ h3 in
      subst (IsDetector F view getenv) (done-injective h4)
        (of_type-IsTyped type j path c e3, false_of_not positive)

  default_detectors-All : All (IsDetector F view getenv) (default_detection F view getenv).detectors
  default_detectors-All =
      let three = digit 3 0 (omega arith) in
      let fifth = digit 2 1 (omega arith) in
      let zero_ = digit 0 0 (omega arith) in
      let one_ = digit 1 0 (omega arith) in
      let half = digit 5 1 (omega arith) in
      (
        ((refl, (omega arith, omega arith), three, fifth, zero_, one_, half), known.three_positive),
        (
          (
            (refl, (known.fifth_positive, known.fifth_small), three, fifth, zero_, one_, half),
            known.three_positive,
          ),
          tt,
        ),
      )

  parse_detectors-All :
      (j : Dict J) (path : List Part) (ds : List (DetectorConfig D))
      → parse_detectors F view getenv j path ≡ done ds
      → All (IsDetector F view getenv) ds
  unfolding parse_detectors
  parse_detectors-All j path ds h = elim (Option-cases (at_key j "detectors")) [
    | inl e ↦
        subst (All (IsDetector F view getenv)) (done-injective (rw (e, parse_detectors) at h))
          default_detectors-All
    | inr (value, e) ↦
        let (list, e1, h1) =
          bind_done (elements F view getenv (view value) (join_path path "detectors")) _
            (rw (e, parse_detectors) at h) in
        parse_each-All F view getenv (IsDetector F view getenv) (parse_detector F view getenv)
          parse_detector-IsDetector list (join_path path "detectors") 0 ds h1
  ]

  pub parse_detection-IsDetection :
      (value : J) (path : List Part) (d : DetectionConfig D)
      → parse_detection F view getenv value path ≡ done d
      → IsDetection F view getenv d
  unfolding parse_detection
  parse_detection-IsDetection value path d h =
      let (j, e1, h1) = bind_done (members F view getenv (view value) path) _ h in
      let (ds, e2, h2) = bind_done (parse_detectors F view getenv j path) _ h1 in
      let (cooldown, e3, h3) =
        bind_done (get_int F view getenv j "cooldown_seconds" 30 path 0 86400) _ h2 in
      let (votes, e4, h4) =
        bind_done (get_int F view getenv j "votes_required" 1 path 1 (max 1 (length ds))) _ h3 in
      let (least, most) =
        get_int_bounds F view getenv j "votes_required" 1 path 1 (max 1 (length ds)) e4
          (omega arith) (omega arith) in
      subst (IsDetection F view getenv) (done-injective h4) (
        parse_detectors-All j path ds e2,
        least,
        most,
        (get_int_bounds F view getenv j "cooldown_seconds" 30 path 0 86400 e3 (omega arith)
            (omega arith)).1,
      )

  pub default_detection-IsDetection : IsDetection F view getenv (default_detection F view getenv)
  default_detection-IsDetection = (default_detectors-All, omega arith, omega arith, omega arith)
