-- ===== src/Analytics/Detector/Window.antt =====
-- detector.hpp: the rolling window of the z-score detector.
use ironpulse.Prelude.{
  ℕ, ◌+◌, ◌≤◌, ◌≡◌, refl, ap, sym, List, [], ◌∷◌, ◌++◌, arith, length, last_n, length-append,
  length-last_n, last_n-append, last_n-append_full, append_assoc, append-nil, ltb, if◌then◌else◌,
  drop, subst, true, min, max, ◌/◌, Bool-cases, inl, inr, tests, drop-nil, ◌-◌,
}
use ironpulse.Prelude.Double.{Double}
use ironpulse.Analytics.Detector.{ZScoreDetector, make_zscore, observe_zscore, sigma_vote}

module _ (F : Double) where
  open F use {D}

  -- The detector after the readings `xs`.
  unfoldable pub after_zscore : ZScoreDetector D → List D → ZScoreDetector D
  after_zscore d [] = d
  after_zscore d (x ∷ xs) = after_zscore (observe_zscore F d x).0 xs

  -- What the detector is once it has seen `history`.
  record Seen (made d : ZScoreDetector D) (history : List D) : Type 0 where
    size : d.window_size ≡ made.window_size
    sigma : d.threshold_sigma ≡ made.threshold_sigma
    warmup : d.warmup ≡ made.warmup
    window : d.window ≡ last_n made.window_size history

  slide :
      (n : ℕ) (history : List D) (x : D)
      → (if ltb n (length (last_n n history ++ (x ∷ [])))
          then drop 1 (last_n n history ++ (x ∷ []))
          else last_n n history ++ (x ∷ []))
        ≡ last_n n (history ++ (x ∷ []))
  slide n history x = elim (Bool-cases (ltb n (length (last_n n history ++ (x ∷ []))))) [
    | inl e ↦ rw e (last_n-append_full n history x (omega (tests, size, e)))
    | inr e ↦ rw e (last_n-append n history x (omega (tests, size, e)))
  ]
    where
      size : length (last_n n history ++ (x ∷ [])) ≡ min n (length history) + 1
      size = omega (arith, length-append (last_n n history) (x ∷ []), length-last_n n history)

  observe-Seen :
      {made d : ZScoreDetector D} {history : List D} (x : D)
      → Seen made d history
      → Seen made (observe_zscore F d x).0 (history ++ (x ∷ []))
  unfolding observe_zscore
  observe-Seen {made} {d} {history} x v = record {
    size = v.size;
    sigma = v.sigma;
    warmup = v.warmup;
    window = rw (v.window, v.size) (slide made.window_size history x);
  }

  after-Seen :
      (xs : List D) {made d : ZScoreDetector D} {history : List D}
      → Seen made d history
      → Seen made (after_zscore d xs) (history ++ xs)
  unfolding after_zscore
  after-Seen [] {made} {d} {history} v = subst (Seen made d) (sym (append-nil history)) v
  after-Seen (x ∷ xs) {made} {d} {history} v =
      subst (Seen made (after_zscore (observe_zscore F d x).0 xs))
        (append_assoc history (x ∷ []) xs) (after-Seen xs (observe-Seen x v))

  make-Seen : (n : ℕ) (sigma : D) → Seen (make_zscore F n sigma) (make_zscore F n sigma) []
  unfolding make_zscore
  make-Seen n sigma = record {
    size = refl;
    sigma = refl;
    warmup = refl;
    window = sym (drop-nil (0 - n));
  }

  -- After the readings `xs` the window holds the last `window_size` of them.
  pub after_zscore-window :
      (window_size : ℕ) (sigma : D) (xs : List D)
      → (after_zscore (make_zscore F window_size sigma) xs).window ≡ last_n window_size xs
  unfolding make_zscore
  after_zscore-window window_size sigma xs = (after-Seen xs (make-Seen window_size sigma)).window

  votes_late :
      (d : ZScoreDetector D) (x : D)
      → (observe_zscore F d x).1.is_anomaly ≡ true
      → max 2 d.warmup ≤ length d.window
  unfolding observe_zscore sigma_vote
  votes_late d x h = ground arith

  -- Fed the readings `xs` and then `x`, the z-score detector calls `x` an anomaly only if the window
  -- and `xs` have at least two readings, and `xs` at least half the window, five or the whole window.
  pub zscore_warmup :
      (window_size : ℕ) (sigma : D) (xs : List D) (x : D)
      → (observe_zscore F (after_zscore (make_zscore F window_size sigma) xs) x).1.is_anomaly ≡ true
      → (2 ≤ window_size)
        × (2 ≤ length xs)
        × (min window_size (max 5 (window_size / 2)) ≤ length xs)
  unfolding make_zscore
  zscore_warmup window_size sigma xs x h =
      let v = after-Seen xs (make-Seen window_size sigma) in
      omega (
        arith,
        votes_late (after_zscore (make_zscore F window_size sigma) xs) x h,
        v.warmup,
        ap (length {A = D}) v.window,
        length-last_n window_size xs,
      )
