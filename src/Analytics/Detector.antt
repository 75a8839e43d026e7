-- ===== src/Analytics/Detector.antt =====
-- include/ironpulse/analytics/detector.hpp, strategies/ewma.hpp and strategies/cusum.hpp: the anomaly
-- detectors, over the interface of `double`. A method returns the new object and its result.
pub mod Window
pub mod Warmup
pub mod Cusum
mod Examples
use Prim.Native.String.{String}
use ironpulse.Prelude.{
  ℕ, suc, ◌+◌, ◌/◌, ◌%◌, ◌^◌, min, max, Bool, true, false, ltb, leb, ◌&&◌, if◌then◌else◌, List, [],
  ◌∷◌, ◌++◌, length, drop,
}
use mathlib.Core.List.{foldl}
use ironpulse.Prelude.Double.{Double, smaller, larger, zero_point, one_point}

pub record AnomalyResult (D : Type 0) : Type 0 where
  pub is_anomaly : Bool
  pub score : D
  pub confidence : D

pub record ZScoreDetector (D : Type 0) : Type 0 where
  pub window_size : ℕ
  pub threshold_sigma : D
  pub warmup : ℕ
  pub window : List D

pub record EwmaDetector (D : Type 0) : Type 0 where
  pub alpha : D
  pub threshold_sigma : D
  pub warmup : ℕ
  pub samples : ℕ
  pub initialized : Bool
  pub mean : D
  pub variance : D

pub record CusumDetector (D : Type 0) : Type 0 where
  pub mean : D
  pub stddev : D
  pub slack : D
  pub threshold : D
  pub cumulative_high : D
  pub cumulative_low : D

-- The classes that implement `AnomalyDetector`.
pub data AnomalyDetector (D : Type 0) : Type 0 where
  zscore : ZScoreDetector D → AnomalyDetector D
  ewma : EwmaDetector D → AnomalyDetector D
  cusum : CusumDetector D → AnomalyDetector D

module _ (F : Double) where
  open F use {D, below, add, sub, mul, div, sqrt, abs, of_nat, literal, ceiling}

  -- `AnomalyResult result;`
  abbrev pub no_result : AnomalyResult D
  no_result = record { is_anomaly = false; score = zero_point F; confidence = zero_point F }

  -- The vote of the two detectors that measure a distance in standard deviations.
  unfoldable pub sigma_vote : D → D → AnomalyResult D
  sigma_vote z threshold_sigma = record {
    is_anomaly = below threshold_sigma z;
    score = z;
    confidence = smaller F (one_point F) (div z (mul threshold_sigma (literal 2 0)));
  }

  unfoldable pub make_zscore : ℕ → D → ZScoreDetector D
  make_zscore window_size threshold_sigma = record {
    window_size = window_size;
    threshold_sigma = threshold_sigma;
    warmup = min window_size (max 5 (window_size / 2));
    window = [];
  }

  unfoldable pub compute_mean : List D → D
  compute_mean window = div (foldl add (zero_point F) window) (of_nat (length window))

  unfoldable pub compute_stddev : List D → D → D
  compute_stddev window mean = sqrt (
      div (foldl (λ sum v. add sum (mul (sub v mean) (sub v mean))) (zero_point F) window)
        (of_nat (length window)))

  unfoldable pub observe_zscore : ZScoreDetector D → D → ZScoreDetector D × AnomalyResult D
  observe_zscore d value =
      let mean = compute_mean d.window in
      let stddev = compute_stddev d.window mean in
      let pushed = d.window ++ (value ∷ []) in
      (
        record d { window = if ltb d.window_size (length pushed) then drop 1 pushed else pushed },
        if leb (max 2 d.warmup) (length d.window) && below (literal 1 9) stddev
            then sigma_vote (div (abs (sub value mean)) stddev) d.threshold_sigma
            else no_result,
      )

  unfoldable pub make_ewma : D → D → EwmaDetector D
  make_ewma alpha threshold_sigma = record {
    alpha = alpha;
    threshold_sigma = threshold_sigma;
    warmup = ceiling (div (literal 3 0) (larger F alpha (literal 1 3)));
    samples = 0;
    initialized = false;
    mean = zero_point F;
    variance = zero_point F;
  }

  unfoldable pub observe_ewma : EwmaDetector D → D → EwmaDetector D × AnomalyResult D
  observe_ewma d value =
      let deviation = sub value d.mean in
      let stddev = sqrt d.variance in
      let samples = (d.samples + 1) % 2 ^ 64 in
      if d.initialized
      then (
        record d {
          samples = samples;
          mean = add d.mean (mul d.alpha deviation);
          variance =
              mul (sub (one_point F) d.alpha)
                (add d.variance (mul (mul d.alpha deviation) deviation));
        },
        if below (literal 1 9) stddev && leb d.warmup d.samples
            then sigma_vote (div (abs deviation) stddev) d.threshold_sigma
            else no_result,
      )
      else (
        record d { samples = samples; initialized = true; mean = value; variance = zero_point F },
        no_result,
      )

  unfoldable pub make_cusum : D → D → D → D → CusumDetector D
  make_cusum reference_mean reference_stddev slack threshold = record {
    mean = reference_mean;
    stddev = larger F reference_stddev (literal 1 9);
    slack = slack;
    threshold = threshold;
    cumulative_high = zero_point F;
    cumulative_low = zero_point F;
  }

  unfoldable pub observe_cusum : CusumDetector D → D → CusumDetector D × AnomalyResult D
  observe_cusum d value =
      let standardized = div (sub value d.mean) d.stddev in
      let high = larger F (zero_point F) (sub (add d.cumulative_high standardized) d.slack) in
      let low = larger F (zero_point F) (sub (sub d.cumulative_low standardized) d.slack) in
      let drive = larger F high low in
      let alarm = below d.threshold drive in
      (
        record d {
          cumulative_high = if alarm then zero_point F else high;
          cumulative_low = if alarm then zero_point F else low;
        },
        record {
          is_anomaly = alarm;
          score = drive;
          confidence = smaller F (one_point F) (div drive (mul d.threshold (literal 15 1)));
        },
      )

  -- The virtual call.
  unfoldable pub observe : AnomalyDetector D → D → AnomalyDetector D × AnomalyResult D
  observe (zscore d) value = let (d', r) = observe_zscore d value in (zscore d', r)
  observe (ewma d) value = let (d', r) = observe_ewma d value in (ewma d', r)
  observe (cusum d) value = let (d', r) = observe_cusum d value in (cusum d', r)

abbrev pub name : {D : Type 0} → AnomalyDetector D → String
name (zscore d) = "zscore"
name (ewma d) = "ewma"
name (cusum d) = "cusum"
