-- ===== src/Analytics/RuleEngine/Examples.antt =====
-- Tests of the rule engine, and its theorems at concrete readings.
use Prim.Native.String.{String}
use ironpulse.Prelude.{ℕ, ◌≡◌, refl, List, [], ◌∷◌, none, some, arith, map, keep}
use ironpulse.Prelude.Dict.{at_key, put}
use ironpulse.Prelude.Double.{whole}
use ironpulse.Analytics.Detector.{cusum, make_cusum}
use ironpulse.Analytics.RuleEngine.{
  SensorRule, AnomalyEvent, Rules, classify, check_limits, limit_event, make_rule,
}
use ironpulse.Analytics.RuleEngine.Edges.{
  Reading, limit_alerts, limit_alerts-Spaced, excursion_alerts, Spaced,
}
use ironpulse.Analytics.RuleEngine.Voters.{Backed, strategies_after}
use ironpulse.Analytics.RuleEngine.Votes.{vote_alerts, vote_alerts-Backed}
use ironpulse.Analytics.RuleEngine.Engine.{observe_many, observe_many_alone, alert_of}

-- One CUSUM detector, limits 10 and 20, cooldown 5.
abbrev rule : SensorRule ℕ
unfolding make_rule make_cusum
rule =
    make_rule (cusum (make_cusum whole 10 2 1 5) ∷ []) (record {
      votes_required = 0;
      cooldown = 5;
      limits = record { low = some 10; high = some 20 };
    })

abbrev readings : List (Reading ℕ)
readings = (30, 3) ∷ (15, 4) ∷ (5, 6) ∷ (15, 7) ∷ (25, 9) ∷ []

limit_alert_times :
    map (λ (e : AnomalyEvent ℕ). e.timestamp) (limit_alerts whole "s" rule readings) ≡ 3 ∷ 9 ∷ []
unfolding limit_alerts check_limits limit_event classify rule make_rule
limit_alert_times = refl

limit_alerts-Spaced_example : Spaced none 5 (limit_alerts whole "s" rule readings)
unfolding rule make_rule
limit_alerts-Spaced_example = limit_alerts-Spaced whole "s" rule readings

excursion_alerts_example :
    map
      (λ (e : AnomalyEvent ℕ). e.timestamp)
      (limit_alerts whole "s" rule ((30, 3) ∷ (40, 4) ∷ (50, 90) ∷ []))
    ≡ 3 ∷ []
unfolding rule make_rule classify
excursion_alerts_example =
    excursion_alerts whole "s" rule 30 3 ((40, 4) ∷ (50, 90) ∷ []) (ground arith) (ground arith)
      (refl, (refl, tt))

-- A breach within the cooldown of the last alert goes unreported, however long it lasts.
abbrev alerted : SensorRule ℕ
unfolding rule make_rule
alerted = record rule { last_limit_alert = some 3 }

breach_within_cooldown :
    map
      (λ (e : AnomalyEvent ℕ). e.timestamp)
      (limit_alerts whole "s" alerted ((30, 4) ∷ (40, 5) ∷ (50, 900) ∷ []))
    ≡ []
unfolding limit_alerts check_limits limit_event classify alerted rule make_rule
breach_within_cooldown = refl

vote_alerts-Backed_example :
    Backed whole 1 5 none rule.strategies readings (vote_alerts whole "s" rule readings).1
    × Spaced none 5 (vote_alerts whole "s" rule readings).1
    × ((vote_alerts whole "s" rule readings).0.strategies
        ≡ strategies_after whole rule.strategies readings)
unfolding rule make_rule
vote_alerts-Backed_example = vote_alerts-Backed whole "s" rule readings

abbrev rules : Rules ℕ
unfolding put rule
rules = put (put [] "a" rule) "b" rule

abbrev interleaved : List (String × ℕ × ℕ)
interleaved = ("a", 30, 3) ∷ ("b", 5, 4) ∷ ("c", 5, 4) ∷ ("a", 15, 5) ∷ ("a", 40, 9) ∷ []

observe_many_alone_example :
    (at_key (observe_many whole rules interleaved).0 "a"
      ≡ at_key
          (observe_many whole (put [] "a" rule) (("a", 30, 3) ∷ ("a", 15, 5) ∷ ("a", 40, 9) ∷ [])).0
          "a")
    × (keep (alert_of whole "a") (observe_many whole rules interleaved).1
        ≡ (observe_many whole
            (put [] "a" rule)
            (("a", 30, 3) ∷ ("a", 15, 5) ∷ ("a", 40, 9) ∷ [])).1)
unfolding rules put at_key
observe_many_alone_example = observe_many_alone whole interleaved "a" rules (put [] "a" rule) refl
