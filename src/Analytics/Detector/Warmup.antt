-- ===== src/Analytics/Detector/Warmup.antt =====
-- strategies/ewma.hpp: when the moving average votes.
use ironpulse.Prelude.{ℕ, ◌+◌, ◌^◌, ◌≤◌, ◌<◌, ◌≡◌, refl, subst, List, [], ◌∷◌, arith, length, true}
use ironpulse.Prelude.Double.{Double}
use ironpulse.Analytics.Detector.{EwmaDetector, make_ewma, observe_ewma, sigma_vote}

module _ (F : Double) where
  open F use {D}

  unfoldable pub after_ewma : EwmaDetector D → List D → EwmaDetector D
  after_ewma d [] = d
  after_ewma d (x ∷ xs) = after_ewma (observe_ewma F d x).0 xs

  -- `n` readings have been counted.
  record Counted (made d : EwmaDetector D) (n : ℕ) : Type 0 where
    warmup : d.warmup ≡ made.warmup
    counter : d.samples ≡ n
    started : d.initialized ≡ true → 1 ≤ n

  observe-Counted :
      {made d : EwmaDetector D} {n : ℕ} (x : D)
      → n + 1 < 2 ^ 64
      → Counted made d n
      → Counted made (observe_ewma F d x).0 (n + 1)
  unfolding observe_ewma
  observe-Counted x small v = ground arith

  after-Counted :
      (xs : List D) {made d : EwmaDetector D} {n : ℕ}
      → n + length xs < 2 ^ 64
      → Counted made d n
      → Counted made (after_ewma d xs) (n + length xs)
  unfolding after_ewma
  after-Counted [] {made} {d} {n} small v = subst (Counted made d) (omega arith) v
  after-Counted (x ∷ xs) {made} {d} {n} small v =
      subst (Counted made (after_ewma (observe_ewma F d x).0 xs)) (omega arith)
        (after-Counted xs (omega arith) (observe-Counted x (omega arith) v))

  votes_counted :
      (d : EwmaDetector D) (x : D)
      → (observe_ewma F d x).1.is_anomaly ≡ true
      → (d.initialized ≡ true) × (d.warmup ≤ d.samples)
  unfolding observe_ewma sigma_vote
  votes_counted d x h = ground arith

  make-Counted : (alpha sigma : D) → Counted (make_ewma F alpha sigma) (make_ewma F alpha sigma) 0
  unfolding make_ewma
  make-Counted alpha sigma = record { warmup = refl; counter = refl; started = λ h. absurd (cc) }

  -- Fed the readings `xs` (fewer than 2 ^ 64) and then `x`, the EWMA detector calls `x` an anomaly
  -- only if `xs` has at least one reading and as many as its warm-up asks for.
  pub ewma_warmup :
      (alpha sigma : D) (xs : List D) (x : D)
      → length xs < 2 ^ 64
      → (observe_ewma F (after_ewma (make_ewma F alpha sigma) xs) x).1.is_anomaly ≡ true
      → (1 ≤ length xs) × ((make_ewma F alpha sigma).warmup ≤ length xs)
  ewma_warmup alpha sigma xs x small h =
      let v = after-Counted xs {n = 0} (omega arith) (make-Counted alpha sigma) in
      let (started, late) = votes_counted (after_ewma (make_ewma F alpha sigma) xs) x h in
      omega (arith, v.started started, late, v.warmup, v.counter)
