-- ===== src/Analytics/Detector/Examples.antt =====
-- Tests of the detectors, and their theorems at concrete readings.
use ironpulse.Prelude.{ℕ, ◌≡◌, refl, List, [], ◌∷◌, arith, ◌+◌, ◌-◌, ◌≤◌}
use ironpulse.Prelude.Double.{Double, whole}
use ironpulse.Analytics.Detector.{
  make_zscore, observe_zscore, make_ewma, observe_ewma, make_cusum, observe_cusum, compute_mean,
  compute_stddev, sigma_vote,
}
use ironpulse.Analytics.Detector.Window.{after_zscore, zscore_warmup}
use ironpulse.Analytics.Detector.Warmup.{after_ewma, ewma_warmup}
use ironpulse.Analytics.Detector.Cusum.{after_cusum, cusum_restarts}

abbrev quiet_then_loud : List ℕ
quiet_then_loud = 10 ∷ 14 ∷ 10 ∷ 14 ∷ 10 ∷ 14 ∷ []

zscore_warmup_example : (2 ≤ 6) × (2 ≤ 6) × (5 ≤ 6)
unfolding make_zscore after_zscore observe_zscore compute_mean compute_stddev sigma_vote
zscore_warmup_example = zscore_warmup whole 6 3 quiet_then_loud 90 refl

-- Whole numbers with the distance for a difference, so that a weight of 2 stands for a fraction.
abbrev distances : Double
distances = record whole { sub = λ a b. (a - b) + (b - a) }

ewma_warmup_example : (1 ≤ 2) × (1 ≤ 2)
unfolding make_ewma after_ewma observe_ewma sigma_vote
ewma_warmup_example = ewma_warmup distances 2 3 (10 ∷ 14 ∷ []) 900 (omega arith) refl

cusum_restarts_example :
    (observe_cusum whole (after_cusum whole (make_cusum whole 10 2 1 5) (12 ∷ 18 ∷ [])) 30).0
    ≡ make_cusum whole 10 2 1 5
unfolding make_cusum after_cusum observe_cusum
cusum_restarts_example = cusum_restarts whole 10 2 1 5 (12 ∷ 18 ∷ []) 30 refl
