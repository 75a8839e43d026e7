-- ===== src/Analytics/Detector/Cusum.antt =====
-- strategies/cusum.hpp: what the cumulative sums do around an alarm.
use ironpulse.Prelude.{◌≡◌, refl, ◌∙◌, List, [], ◌∷◌, arith, true}
use ironpulse.Prelude.Double.{Double, zero_point}
use ironpulse.Analytics.Detector.{CusumDetector, make_cusum, observe_cusum}

module _ (F : Double) where
  open F use {D, below}

  unfoldable pub after_cusum : CusumDetector D → List D → CusumDetector D
  after_cusum d [] = d
  after_cusum d (x ∷ xs) = after_cusum (observe_cusum F d x).0 xs

  -- The settings of a detector, with both sums at zero.
  abbrev pub reset : CusumDetector D → CusumDetector D
  reset d = record d { cumulative_high = zero_point F; cumulative_low = zero_point F }

  reset-observe : (d : CusumDetector D) (x : D) → reset (observe_cusum F d x).0 ≡ reset d
  unfolding observe_cusum
  reset-observe d x = refl

  reset-after : (d : CusumDetector D) (xs : List D) → reset (after_cusum d xs) ≡ reset d
  unfolding after_cusum
  reset-after d [] = refl
  reset-after d (x ∷ xs) = reset-after (observe_cusum F d x).0 xs ∙ reset-observe d x

  alarm_resets :
      (d : CusumDetector D) (x : D)
      → (observe_cusum F d x).1.is_anomaly ≡ true
      → (observe_cusum F d x).0 ≡ reset d
  unfolding observe_cusum
  alarm_resets d x h = ground arith

  -- Whatever a CUSUM detector has seen, an alarm leaves it as it was made: the next readings are
  -- judged with no memory of the excursion that was reported.
  pub cusum_restarts :
      (mean stddev slack threshold : D) (xs : List D) (x : D)
      → (observe_cusum F (after_cusum (make_cusum F mean stddev slack threshold) xs) x).1.is_anomaly
        ≡ true
      → (observe_cusum F (after_cusum (make_cusum F mean stddev slack threshold) xs) x).0
        ≡ make_cusum F mean stddev slack threshold
  unfolding make_cusum
  cusum_restarts mean stddev slack threshold xs x h =
      alarm_resets (after_cusum (make_cusum F mean stddev slack threshold) xs) x h
      ∙ reset-after (make_cusum F mean stddev slack threshold) xs
