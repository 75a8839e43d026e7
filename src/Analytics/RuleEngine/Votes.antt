-- ===== src/Analytics/RuleEngine/Votes.antt =====
-- `run_detectors`: the vote behind a statistical alert, and what suppression leaves alone.
use Prim.Native.String.{String}
use ironpulse.Prelude.{
  ℕ, ◌≤◌, ◌<◌, ◌⊎◌, inl, inr, Bool, false, if_cases, not, ltb, ◌==◌, ==_iff, ◌≡◌, refl, ap, sym,
  ◌∙◌, true, List, [], ◌∷◌, ◌++◌, Option, none, some, arith, length, ◌||◌, subst,
}
use mathlib.Core.Option.{some-injective, none-ne-some, some-ne-none}
use mathlib.Core.Path.{subst₂}
use ironpulse.Prelude.Double.{Double}
use ironpulse.Analytics.Detector.{AnomalyDetector}
use ironpulse.Analytics.RuleEngine.{
  SensorRule, AnomalyEvent, cooled_down, observe_all, voters, run_detectors, vote_event, to_list,
}
use ironpulse.Analytics.RuleEngine.Edges.{Reading, Spaced}
use ironpulse.Analytics.RuleEngine.Voters.{
  length-observe_all, raisers, fed, fed_lem, voters-observe_all, count_voters, strategies_after,
  IsVote, IsQuiet, Backed,
}

module _ (F : Double) where
  open F use {D}

  module _ (sensor_id : String) where
    -- The rule after a sequence of readings, and the statistical alerts that it raised.
    unfoldable pub vote_alerts :
        SensorRule D → List (Reading D) → SensorRule D × List (AnomalyEvent D)
    vote_alerts rule [] = (rule, [])
    vote_alerts rule ((value, now) ∷ readings) =
        let (rule', alert) = run_detectors F sensor_id rule value now in
        let (last, alerts) = vote_alerts rule' readings in (last, to_list alert ++ alerts)

    -- What one vote does.
    record Voted (rule : SensorRule D) (value : D) (now : ℕ)
        (out : SensorRule D × Option (AnomalyEvent D)) : Type 0 where
      strategies : out.0.strategies ≡ fed F rule.strategies value
      cooldown : out.0.cooldown ≡ rule.cooldown
      required : out.0.votes_required ≡ rule.votes_required
      quiet :
          out.1 ≡ none
          → (out.0.last_statistical_alert ≡ rule.last_statistical_alert)
            × IsQuiet F rule.votes_required rule.cooldown rule.last_statistical_alert
                rule.strategies value now
      raised :
          (e : AnomalyEvent D)
          → out.1 ≡ some e
          → (out.0.last_statistical_alert ≡ some now)
            × IsVote F rule.votes_required rule.cooldown rule.last_statistical_alert rule.strategies
                value now e

    nothing : (strategies : List (AnomalyDetector D)) → length strategies ≡ 0 → strategies ≡ []
    nothing [] h = refl
    nothing (s ∷ strategies) h = absurd (omega (arith, h))

    too_few :
        (a b c : ℕ) (cooled : Bool)
        → a ≡ c
        → (ltb a b || not cooled) ≡ true
        → (c < b) ⊎ (cooled ≡ false)
    too_few a b c true same h = inl (ground (arith, h))
    too_few a b c false same h = inr refl

    enough : (a b : ℕ) (cooled : Bool) → (ltb a b || not cooled) ≡ false → (b ≤ a) × (cooled ≡ true)
    enough a b cooled h = ground (arith, h)

    module _ (rule : SensorRule D) (value : D) (now : ℕ) where
      without_detectors : rule.strategies ≡ [] → Voted rule value now (rule, none)
      without_detectors e = record {
        strategies = subst (λ t. t ≡ fed F t value) (sym e) refl;
        cooldown = refl;
        required = refl;
        quiet = λ h. (refl, inl e);
        raised = λ event h. absurd (none-ne-some event h);
      }

      suppressed :
          (length (raisers F rule.strategies value) < rule.votes_required)
            ⊎ (cooled_down rule.last_statistical_alert rule.cooldown now ≡ false)
          → Voted rule value now
              (record rule { strategies = (observe_all F rule.strategies value).0 }, none)
      suppressed why = record {
        strategies = fed_lem F rule.strategies value;
        cooldown = refl;
        required = refl;
        quiet = λ h. (refl, inr why);
        raised = λ event h. absurd (none-ne-some event h);
      }

      alerted :
          1 ≤ length rule.strategies
          → rule.votes_required ≤ length (voters F (observe_all F rule.strategies value).1)
          → cooled_down rule.last_statistical_alert rule.cooldown now ≡ true
          → Voted rule value now (
            record rule {
              strategies = (observe_all F rule.strategies value).0;
              last_statistical_alert = some now;
            },
            some (vote_event F sensor_id (observe_all F rule.strategies value).1 value now),
          )
      unfolding vote_event
      alerted some_detector votes cool = record {
        strategies = fed_lem F rule.strategies value;
        cooldown = refl;
        required = refl;
        quiet = λ h. absurd (some-ne-none _ h);
        raised = λ event h. (
          refl,
          subst
              (IsVote F rule.votes_required rule.cooldown rule.last_statistical_alert
                rule.strategies value now)
              (some-injective _ event h)
              (
                some_detector,
                omega (arith, votes, count_voters F rule.strategies value),
                count_voters F rule.strategies value,
                voters-observe_all F rule.strategies value,
                (length-observe_all F rule.strategies value).1,
                refl,
                cool,
              ),
        );
      }

      run-Voted : Voted rule value now (run_detectors F sensor_id rule value now)
      unfolding run_detectors
      run-Voted =
          if_cases (Voted rule value now) (length rule.strategies == 0)
            (λ e.
              without_detectors (nothing rule.strategies ((==_iff (length rule.strategies) 0).0 e)))
            λ e.
              if_cases (Voted rule value now)
                (ltb (length (voters F (observe_all F rule.strategies value).1)) rule.votes_required
                  || not (cooled_down rule.last_statistical_alert rule.cooldown now))
                (λ f. suppressed (
                  too_few (length (voters F (observe_all F rule.strategies value).1))
                    rule.votes_required (length (raisers F rule.strategies value))
                    (cooled_down rule.last_statistical_alert rule.cooldown now)
                    (count_voters F rule.strategies value) f))
                λ f.
                  let (votes, cool) =
                    enough (length (voters F (observe_all F rule.strategies value).1))
                      rule.votes_required
                      (cooled_down rule.last_statistical_alert rule.cooldown now) f in
                  alerted (ground (arith, e)) votes cool

    -- The statistical alerts of a sequence of readings are those of the readings that enough detectors
    -- call an anomaly, at the time of that reading and with the cooldown since the alert before over:
    -- each counts and names just the detectors that raise it, out of all, and every other reading has
    -- too few of them, comes too early, or finds no detector. They are at least the cooldown apart,
    -- and each detector has seen every reading, whether or not an alert was raised or suppressed.
    pub vote_alerts-Backed :
        (rule : SensorRule D) (readings : List (Reading D))
        → Backed F rule.votes_required rule.cooldown rule.last_statistical_alert rule.strategies
            readings
            (vote_alerts rule readings).1
          × Spaced rule.last_statistical_alert rule.cooldown (vote_alerts rule readings).1
          × ((vote_alerts rule readings).0.strategies ≡ strategies_after F rule.strategies readings)
    unfolding vote_alerts strategies_after
    vote_alerts-Backed rule [] = (refl, tt, refl)
    vote_alerts-Backed rule ((value, now) ∷ readings) =
        by_alert (run_detectors F sensor_id rule value now).1 refl
          (vote_alerts-Backed rule' readings)
      where
        rule' : SensorRule D
        rule' = (run_detectors F sensor_id rule value now).0

        v : Voted rule value now (run_detectors F sensor_id rule value now)
        v = run-Voted rule value now

        more : List (AnomalyEvent D)
        more = (vote_alerts rule' readings).1

        same_rule :
            {last : Option ℕ}
            → rule'.last_statistical_alert ≡ last
            → Backed F rule'.votes_required rule'.cooldown rule'.last_statistical_alert
                rule'.strategies readings more
            → Backed F rule.votes_required rule.cooldown last
                (fed F rule.strategies value)
                readings
                more
        same_rule {last} at backed =
            subst₂ (λ r k. Backed F r k last (fed F rule.strategies value) readings more) v.required
              v.cooldown
              (subst₂ (λ l s. Backed F rule'.votes_required rule'.cooldown l s readings more) at
                v.strategies backed)

        by_alert :
            (alert : Option (AnomalyEvent D))
            → (run_detectors F sensor_id rule value now).1 ≡ alert
            → Backed F rule'.votes_required rule'.cooldown rule'.last_statistical_alert
                rule'.strategies readings more
              × Spaced rule'.last_statistical_alert rule'.cooldown more
              × ((vote_alerts rule' readings).0.strategies
                  ≡ strategies_after F rule'.strategies readings)
            → Backed F rule.votes_required rule.cooldown rule.last_statistical_alert rule.strategies
                ((value, now) ∷ readings)
                (to_list alert ++ more)
              × Spaced rule.last_statistical_alert rule.cooldown (to_list alert ++ more)
              × ((vote_alerts rule' readings).0.strategies
                  ≡ strategies_after F (fed F rule.strategies value) readings)
        by_alert none e (backed, spaced, seen) =
            let (last, why) = v.quiet e in
            (
              inr (why, same_rule last backed),
              subst₂ (λ l k. Spaced l k more) last v.cooldown spaced,
              seen ∙ ap (λ s. strategies_after F s readings) v.strategies,
            )
        by_alert (some event) e (backed, spaced, seen) =
            let (last, vote) = v.raised event e in
            let at : event.timestamp ≡ now = vote.5 in
            (
              inl (event, more, refl, vote, same_rule last backed),
              (
                subst (λ t. cooled_down rule.last_statistical_alert rule.cooldown t ≡ true) (sym at)
                    vote.6,
                subst₂ (λ l k. Spaced l k more) (last ∙ ap some (sym at)) v.cooldown spaced,
              ),
              seen ∙ ap (λ s. strategies_after F s readings) v.strategies,
            )
