-- ===== src/Analytics/Factory.antt =====
-- include/ironpulse/analytics/detector_factory.hpp: from the configuration of a sensor to its rule.
-- `none` stands for the exception of an unknown type. One second is 10 ^ 9 ticks of the clock.
mod Examples
use Prim.Native.String.{String}
use ironpulse.Prelude.{
  ℕ, ◌*◌, ◌^◌, ◌≡◌, refl, ap, ap₂, sym, ◌∙◌, Bool, true, false, List, [], ◌∷◌, Option, none, some,
  map, if◌then◌else◌, ◌>>=◌, inl, inr, Bool-cases, All, arith, length, ◌==◌, suc, true_ne_false,
}
use ironpulse.Prelude.Dict.{at_key, same_key, same_key→eq, put, at_key-put, same_key_refl}
use ironpulse.Prelude.Double.{Double}
use ironpulse.Core.Config.Types.{DetectorConfig, SensorConfig}
use ironpulse.Analytics.Detector.{
  AnomalyDetector, zscore, ewma, cusum, make_zscore, make_ewma, make_cusum, name,
}
use ironpulse.Analytics.RuleEngine.{
  Rules, SensorRule, SensorRuleOptions, make_rule, register_sensor as register_rule, inside,
}

abbrev pub ticks_per_second : ℕ
ticks_per_second = 10 ^ 9

module _ (F : Double) where
  open F use {D}

  unfoldable pub make_detector : DetectorConfig D → Option (AnomalyDetector D)
  make_detector cfg =
      if same_key cfg.type "zscore"
      then some (zscore (make_zscore F cfg.window cfg.threshold))
      else if same_key cfg.type "ewma"
      then some (ewma (make_ewma F cfg.alpha cfg.threshold))
      else if same_key cfg.type "cusum"
      then some (cusum (make_cusum F cfg.mean cfg.stddev cfg.slack cfg.threshold))
      else none

  unfoldable pub make_detectors : List (DetectorConfig D) → Option (List (AnomalyDetector D))
  make_detectors [] = some []
  make_detectors (cfg ∷ detectors) = do
    strategy ← make_detector cfg
    strategies ← make_detectors detectors
    some (strategy ∷ strategies)

  unfoldable pub register_sensor : Rules D → SensorConfig D → Option (Rules D)
  unfolding make_detectors
  register_sensor rules sensor = do
    strategies ← make_detectors sensor.detection.detectors
    some (
        register_rule rules sensor.id strategies (record {
          votes_required = sensor.detection.votes_required;
          cooldown = sensor.detection.cooldown_seconds * ticks_per_second;
          limits = sensor.limits;
        }))

  -- The types that the loader of the configuration lets through.
  unfoldable pub is_known : DetectorConfig D → Bool
  is_known cfg =
      if same_key cfg.type "zscore"
      then true
      else if same_key cfg.type "ewma"
      then true
      else same_key cfg.type "cusum"

  -- A detector with the settings of a configuration, that has seen nothing yet. The deviation of a
  -- cusum detector is at least 1e-9.
  abbrev pub Built : DetectorConfig D → AnomalyDetector D → Type 0
  Built cfg (zscore d) =
      (cfg.type ≡ "zscore")
      × (d.window_size ≡ cfg.window)
      × (d.threshold_sigma ≡ cfg.threshold)
      × (d.window ≡ [])
  Built cfg (ewma d) =
      (cfg.type ≡ "ewma")
      × (d.alpha ≡ cfg.alpha)
      × (d.threshold_sigma ≡ cfg.threshold)
      × (d.samples ≡ 0)
      × (d.initialized ≡ false)
  Built cfg (cusum d) =
      (cfg.type ≡ "cusum")
      × (d.mean ≡ cfg.mean)
      × (d.stddev ≡ (if F.below cfg.stddev (F.literal 1 9) then F.literal 1 9 else cfg.stddev))
      × (d.slack ≡ cfg.slack)
      × (d.threshold ≡ cfg.threshold)
      × (d.cumulative_high ≡ F.literal 0 0)
      × (d.cumulative_low ≡ F.literal 0 0)

  -- One detector for each configuration, in order.
  abbrev pub AllBuilt : List (DetectorConfig D) → List (AnomalyDetector D) → Type 0
  AllBuilt [] [] = Unit
  AllBuilt (cfg ∷ detectors) (s ∷ strategies) = Built cfg s × AllBuilt detectors strategies
  AllBuilt _ _ = ⊥

  make_detector-Built :
      (cfg : DetectorConfig D)
      → is_known cfg ≡ true
      → (s : AnomalyDetector D) × (make_detector cfg ≡ some s) × Built cfg s
  unfolding is_known make_detector make_zscore make_ewma make_cusum
  make_detector-Built cfg known = elim (Bool-cases (same_key cfg.type "zscore")) [
    | inl e ↦ (
      zscore (make_zscore F cfg.window cfg.threshold),
      rw e refl,
      (same_key→eq cfg.type "zscore" e, refl, refl, refl),
    )
    | inr e ↦ elim (Bool-cases (same_key cfg.type "ewma")) [
      | inl e' ↦ (
        ewma (make_ewma F cfg.alpha cfg.threshold),
        rw (e, e') refl,
        (same_key→eq cfg.type "ewma" e', refl, refl, refl, refl),
      )
      | inr e' ↦ elim (Bool-cases (same_key cfg.type "cusum")) [
        | inl e'' ↦ (
          cusum (make_cusum F cfg.mean cfg.stddev cfg.slack cfg.threshold),
          rw (e, e', e'') refl,
          (same_key→eq cfg.type "cusum" e'', refl, refl, refl, refl, refl, refl),
        )
        | inr e'' ↦ absurd (true_ne_false (sym known ∙ rw (e, e', e'') refl))
      ]
    ]
  ]

  length-AllBuilt :
      (detectors : List (DetectorConfig D)) (strategies : List (AnomalyDetector D))
      → AllBuilt detectors strategies
      → length strategies ≡ length detectors
  length-AllBuilt [] [] h = refl
  length-AllBuilt [] (s ∷ strategies) h = absurd h
  length-AllBuilt (cfg ∷ detectors) [] h = absurd h
  length-AllBuilt (cfg ∷ detectors) (s ∷ strategies) h =
      ap suc (length-AllBuilt detectors strategies h.1)

  make_detectors-AllBuilt :
      (detectors : List (DetectorConfig D))
      → All (λ cfg. is_known cfg ≡ true) detectors
      → (strategies : List (AnomalyDetector D)) × (make_detectors detectors ≡ some strategies)
        × AllBuilt detectors strategies
  unfolding make_detectors
  make_detectors-AllBuilt [] known = ([], refl, tt)
  make_detectors-AllBuilt (cfg ∷ detectors) (known, others) =
      let (s, made, built) = make_detector-Built cfg known in
      let (strategies, all_made, all_built) = make_detectors-AllBuilt detectors others in
      (s ∷ strategies, rw (made, all_made) refl, (built, all_built))

  -- A sensor whose detectors all have a type that the loader lets through is registered without an
  -- exception. Its rule has a detector for each configuration, in that order, with the settings of
  -- that configuration and no reading seen, the vote that the configuration asks for (all detectors
  -- where it says 0), its cooldown and limits, no alert yet and no breach; it stands under the id of
  -- the sensor, and the rule of every other id is what it was.
  pub register_sensor_known :
      (rules : Rules D) (sensor : SensorConfig D) (id : String)
      → All (λ cfg. is_known cfg ≡ true) sensor.detection.detectors
      → (rules' : Rules D) × (rule : SensorRule D) × (register_sensor rules sensor ≡ some rules')
        × (at_key rules' id ≡ (if same_key sensor.id id then some rule else at_key rules id))
        × AllBuilt sensor.detection.detectors rule.strategies
        × (rule.votes_required ≡ (
            if sensor.detection.votes_required == 0
            then length sensor.detection.detectors
            else sensor.detection.votes_required))
        × (rule.cooldown ≡ sensor.detection.cooldown_seconds * ticks_per_second)
        × (rule.limits ≡ sensor.limits)
        × (rule.limit_state ≡ inside)
        × (rule.last_limit_alert ≡ none)
        × (rule.last_statistical_alert ≡ none)
  unfolding register_sensor register_rule make_rule
  register_sensor_known rules sensor id known =
      let (strategies, made, built) = make_detectors-AllBuilt sensor.detection.detectors known in
      let options : SensorRuleOptions D = record {
        votes_required = sensor.detection.votes_required;
        cooldown = sensor.detection.cooldown_seconds * ticks_per_second;
        limits = sensor.limits;
      } in
      (
        register_rule rules sensor.id strategies options,
        make_rule strategies options,
        rw made refl,
        at_key-put rules sensor.id id (make_rule strategies options),
        built,
        ap
            (λ n.
              if sensor.detection.votes_required == 0 then n else sensor.detection.votes_required)
            (length-AllBuilt sensor.detection.detectors strategies built),
        refl,
        refl,
        refl,
        refl,
        refl,
      )
