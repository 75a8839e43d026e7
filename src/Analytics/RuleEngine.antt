-- ===== src/Analytics/RuleEngine.antt =====
-- include/ironpulse/analytics/rule_engine.hpp: readings to alerts. Times are counts of clock ticks
-- since the epoch and do not wrap; the lock makes `observe` one step, and what it publishes is
-- returned in order.
pub mod Edges
pub mod Voters
pub mod Votes
pub mod Engine
mod Examples
use Prim.Native.String.{String}
use ironpulse.Prelude.{
  ℕ, ◌+◌, Bool, true, false, not, ltb, leb, ◌==◌, ◌&&◌, ◌||◌, if◌then◌else◌, List, [], ◌∷◌, ◌++◌,
  Option, none, some, length,
}
use mathlib.Core.List.{foldl}
use ironpulse.Prelude.Dict.{Dict, at_key, put}
use ironpulse.Prelude.Double.{Double, larger, zero_point, one_point}
use ironpulse.Core.Config.Types.{Limits, Severity, warning, critical}
use ironpulse.Analytics.Detector.{AnomalyDetector, AnomalyResult, observe as observe_detector, name}

pub data AlertKind : Type 0 where
  statistical limit : AlertKind

-- The text of an alert by its parts: the value, the side and the limit, or the votes and voters.
pub data Message : Type 0 where
  crossed : String → Bool → String → Message
  confirmed : ℕ → ℕ → Message

pub record AnomalyEvent (D : Type 0) : Type 0 where
  pub sensor_id : String
  -- the names that the source joins with a plus sign
  pub detector_name : List String
  pub message : Message
  pub score : D
  pub confidence : D
  pub timestamp : ℕ
  pub votes : ℕ
  pub detectors_total : ℕ
  pub kind : AlertKind
  pub severity : Severity
  pub value : D
  pub limit : Option D
  pub above_limit : Bool

pub record SensorRuleOptions (D : Type 0) : Type 0 where
  pub votes_required : ℕ
  pub cooldown : ℕ
  pub limits : Limits D

pub data LimitState : Type 0 where
  inside above below : LimitState

pub record SensorRule (D : Type 0) : Type 0 where
  pub strategies : List (AnomalyDetector D)
  pub votes_required : ℕ
  pub cooldown : ℕ
  pub limits : Limits D
  pub limit_state : LimitState
  pub last_limit_alert : Option ℕ
  pub last_statistical_alert : Option ℕ

-- The rules by sensor id.
abbrev pub Rules : Type 0 → Type 0
Rules D = Dict (SensorRule D)

abbrev pub same_state : LimitState → LimitState → Bool
same_state inside inside = true
same_state above above = true
same_state below below = true
same_state _ _ = false

-- `!last || now - *last >= cooldown`
abbrev pub cooled_down : Option ℕ → ℕ → ℕ → Bool
cooled_down none cooldown now = true
cooled_down (some last) cooldown now = leb (last + cooldown) now

unfoldable pub make_rule :
    {D : Type 0} → List (AnomalyDetector D) → SensorRuleOptions D → SensorRule D
make_rule strategies options = record {
  strategies = strategies;
  votes_required =
      if options.votes_required == 0 then length strategies else options.votes_required;
  cooldown = options.cooldown;
  limits = options.limits;
  limit_state = inside;
  last_limit_alert = none;
  last_statistical_alert = none;
}

unfoldable pub register_sensor :
    {D : Type 0} → Rules D → String → List (AnomalyDetector D) → SensorRuleOptions D → Rules D
unfolding make_rule
register_sensor rules sensor_id strategies options =
    put rules sensor_id (make_rule strategies options)

abbrev pub to_list : {A : Type 0} → Option A → List A
to_list none = []
to_list (some a) = a ∷ []

module _ (F : Double) where
  open F use {D, below as lower, sub, abs, two_decimals}

  -- The side on which a value lies, the high limit first.
  unfoldable pub classify : Limits D → D → LimitState
  classify limits value =
      let under : LimitState = elim limits.low [
        | none ↦ inside
        | some low ↦ if lower value low then below else inside
      ] in
      elim limits.high [ none ↦ under | some high ↦ if lower high value then above else under ]

  abbrev pub limit_of : Limits D → LimitState → Option D
  limit_of limits above = limits.high
  limit_of limits _ = limits.low

  abbrev pub is_above : LimitState → Bool
  is_above above = true
  is_above _ = false

  unfoldable pub limit_event : String → LimitState → D → D → ℕ → AnomalyEvent D
  limit_event sensor_id state value bound timestamp = record {
    sensor_id = sensor_id;
    detector_name = "limit" ∷ [];
    message = crossed (two_decimals value) (is_above state) (two_decimals bound);
    score = abs (sub value bound);
    confidence = one_point F;
    timestamp = timestamp;
    votes = 0;
    detectors_total = 0;
    kind = AlertKind.limit;
    severity = critical;
    value = value;
    limit = some bound;
    above_limit = is_above state;
  }

  -- A state outside comes from a limit that is set, so the last case is not met.
  unfoldable pub check_limits :
      String → SensorRule D → D → ℕ → SensorRule D × Option (AnomalyEvent D)
  unfolding limit_event
  check_limits sensor_id rule value timestamp =
      let state = classify rule.limits value in
      let entered_breach =
        not (same_state state inside) && not (same_state state rule.limit_state) in
      if not entered_breach || not (cooled_down rule.last_limit_alert rule.cooldown timestamp)
      then (record rule { limit_state = state }, none)
      else (
        record rule { limit_state = state; last_limit_alert = some timestamp },
        elim (limit_of rule.limits state) [
          | some bound ↦ some (limit_event sensor_id state value bound timestamp)
          | none ↦ none
        ],
      )

  -- Every strategy sees the value; the objects after it, and their results with their names.
  unfoldable pub observe_all :
      List (AnomalyDetector D) → D → List (AnomalyDetector D) × List (String × AnomalyResult D)
  observe_all [] value = ([], [])
  observe_all (s ∷ strategies) value =
      let (s', result) = observe_detector F s value in
      let (strategies', results) = observe_all strategies value in
      (s' ∷ strategies', (name s, result) ∷ results)

  unfoldable pub voters : List (String × AnomalyResult D) → List String
  voters [] = []
  voters ((who, result) ∷ results) =
      let rest = voters results in if result.is_anomaly then who ∷ rest else rest

  abbrev pub max_score : List (String × AnomalyResult D) → D
  max_score = foldl (λ m r. larger F m r.1.score) (zero_point F)

  abbrev pub max_confidence : List (String × AnomalyResult D) → D
  max_confidence = foldl (λ m r. larger F m r.1.confidence) (zero_point F)

  unfoldable pub vote_event : String → List (String × AnomalyResult D) → D → ℕ → AnomalyEvent D
  unfolding voters
  vote_event sensor_id results value timestamp = record {
    sensor_id = sensor_id;
    detector_name = voters results;
    message = confirmed (length (voters results)) (length results);
    score = max_score results;
    confidence = max_confidence results;
    timestamp = timestamp;
    votes = length (voters results);
    detectors_total = length results;
    kind = statistical;
    severity = warning;
    value = value;
    limit = none;
    above_limit = false;
  }

  unfoldable pub run_detectors :
      String → SensorRule D → D → ℕ → SensorRule D × Option (AnomalyEvent D)
  unfolding vote_event
  run_detectors sensor_id rule value timestamp =
      let (strategies, results) = observe_all rule.strategies value in
      if length rule.strategies == 0
      then (rule, none)
      else if ltb (length (voters results)) rule.votes_required
          || not (cooled_down rule.last_statistical_alert rule.cooldown timestamp)
      then (record rule { strategies = strategies }, none)
      else (
        record rule { strategies = strategies; last_statistical_alert = some timestamp },
        some (vote_event sensor_id results value timestamp),
      )

  -- What `observe` does with the rule of a registered sensor.
  unfoldable pub observe_rule : String → SensorRule D → D → ℕ → SensorRule D × List (AnomalyEvent D)
  observe_rule sensor_id rule value timestamp =
      let (checked, limit_alert) = check_limits sensor_id rule value timestamp in
      let (voted, vote_alert) = run_detectors sensor_id checked value timestamp in
      (voted, to_list limit_alert ++ to_list vote_alert)

  -- `observe` from the rule that was looked up, none for a sensor that is not registered
  unfoldable pub observe_found :
      Rules D → String → D → ℕ → Option (SensorRule D) → Rules D × List (AnomalyEvent D)
  unfolding observe_rule
  observe_found rules sensor_id value timestamp none = (rules, [])
  observe_found rules sensor_id value timestamp (some rule) =
      let (rule', alerts) = observe_rule sensor_id rule value timestamp in
      (put rules sensor_id rule', alerts)

  unfoldable pub observe : Rules D → String → D → ℕ → Rules D × List (AnomalyEvent D)
  unfolding observe_found
  observe rules sensor_id value timestamp =
      observe_found rules sensor_id value timestamp (at_key rules sensor_id)
