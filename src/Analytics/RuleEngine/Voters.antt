-- ===== src/Analytics/RuleEngine/Voters.antt =====
-- `run_detectors`: which detectors vote, and what a sequence of alerts owes to them.
use Prim.Native.String.{String}
use ironpulse.Prelude.{
  ℕ, ◌≤◌, ◌<◌, ◌⊎◌, Bool, false, if◌then◌else◌, keep, map, ◌≡◌, refl, ap, ◌∙◌, true, List, [], ◌∷◌,
  Option, some, length, length-map, suc,
}
use ironpulse.Prelude.Double.{Double}
use ironpulse.Analytics.Detector.{AnomalyDetector, observe as observe_detector, name}
use ironpulse.Analytics.RuleEngine.{AnomalyEvent, cooled_down, observe_all, voters}
use ironpulse.Analytics.RuleEngine.Edges.{Reading}

module _ (F : Double) where
  open F use {D}

  pub length-observe_all :
      (strategies : List (AnomalyDetector D)) (value : D)
      → (length (observe_all F strategies value).0 ≡ length strategies)
        × (length (observe_all F strategies value).1 ≡ length strategies)
  unfolding observe_all
  length-observe_all [] value = (refl, refl)
  length-observe_all (s ∷ strategies) value =
      let (kept, counted) = length-observe_all strategies value in (ap suc kept, ap suc counted)

  -- Whether a detector calls a value an anomaly.
  abbrev pub raises : D → AnomalyDetector D → Bool
  raises value s = (observe_detector F s value).1.is_anomaly

  -- The detectors that do.
  abbrev pub raisers : List (AnomalyDetector D) → D → List (AnomalyDetector D)
  raisers strategies value = keep (raises value) strategies

  -- All detectors after they have seen a value.
  abbrev pub fed : List (AnomalyDetector D) → D → List (AnomalyDetector D)
  fed strategies value = map (λ s. (observe_detector F s value).0) strategies

  pub fed_lem :
      (strategies : List (AnomalyDetector D)) (value : D)
      → (observe_all F strategies value).0 ≡ fed strategies value
  unfolding observe_all
  fed_lem [] value = refl
  fed_lem (s ∷ strategies) value =
      ap (λ t. (observe_detector F s value).0 ∷ t) (fed_lem strategies value)

  one_voter :
      (b : Bool) (s : AnomalyDetector D) (names : List String) (others : List (AnomalyDetector D))
      → names ≡ map name others
      → (if b then name s ∷ names else names)
        ≡ map name (elim b [ true ↦ s ∷ others | false ↦ others ])
  one_voter true s names others e = ap (λ t. name s ∷ t) e
  one_voter false s names others e = e

  pub voters-observe_all :
      (strategies : List (AnomalyDetector D)) (value : D)
      → voters F (observe_all F strategies value).1 ≡ map name (raisers strategies value)
  unfolding observe_all voters
  voters-observe_all [] value = refl
  voters-observe_all (s ∷ strategies) value =
      one_voter (raises value s) s (voters F (observe_all F strategies value).1)
        (raisers strategies value) (voters-observe_all strategies value)

  pub count_voters :
      (strategies : List (AnomalyDetector D)) (value : D)
      → length (voters F (observe_all F strategies value).1) ≡ length (raisers strategies value)
  count_voters strategies value =
      ap length (voters-observe_all strategies value) ∙ length-map name (raisers strategies value)

  -- The detectors after a sequence of readings, alerts left aside.
  unfoldable pub strategies_after :
      List (AnomalyDetector D) → List (Reading D) → List (AnomalyDetector D)
  strategies_after strategies [] = strategies
  strategies_after strategies ((value, now) ∷ readings) =
      strategies_after (fed strategies value) readings

  module _ (required cooldown : ℕ) where
    -- An alert of that reading: the detectors that raise it are enough, and named, and the cooldown
    -- since the alert before is over.
    abbrev pub IsVote : Option ℕ → List (AnomalyDetector D) → D → ℕ → AnomalyEvent D → Type 0
    IsVote last strategies value now e =
        (1 ≤ length strategies)
        × (required ≤ length (raisers strategies value))
        × (e.votes ≡ length (raisers strategies value))
        × (e.detector_name ≡ map name (raisers strategies value))
        × (e.detectors_total ≡ length strategies)
        × (e.timestamp ≡ now)
        × (cooled_down last cooldown now ≡ true)

    -- Why a reading brings no alert: there is no detector, too few raise it, or it is too early.
    abbrev pub IsQuiet : Option ℕ → List (AnomalyDetector D) → D → ℕ → Type 0
    IsQuiet last strategies value now =
        (strategies ≡ [])
        ⊎ ((length (raisers strategies value) < required) ⊎ (cooled_down last cooldown now ≡ false))

    -- The alerts are those of the readings that the detectors, as the readings before left them,
    -- vote for, and each other reading has a reason to bring none.
    abbrev pub Backed :
        Option ℕ → List (AnomalyDetector D) → List (Reading D) → List (AnomalyEvent D) → Type 0
    Backed last strategies [] alerts = alerts ≡ []
    Backed last strategies ((value, now) ∷ readings) alerts =
        ((e : AnomalyEvent D) × (more : List (AnomalyEvent D)) × (alerts ≡ e ∷ more)
          × IsVote last strategies value now e
          × Backed (some now) (fed strategies value) readings more)
        ⊎ (IsQuiet last strategies value now × Backed last (fed strategies value) readings alerts)
