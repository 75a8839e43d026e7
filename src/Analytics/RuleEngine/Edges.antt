-- ===== src/Analytics/RuleEngine/Edges.antt =====
-- `check_limits` over a sequence of readings: edges and cooldown.
use Prim.Native.String.{String}
use ironpulse.Prelude.{
  ℕ, ◌≡◌, ◌≢◌, ◌↔◌, refl, ap, sym, subst, ◌∙◌, true, false, if◌then◌else◌, List, [], ◌∷◌, ◌++◌,
  Option, none, some, arith, inl, inr, Bool-cases, map, All, Option-cases,
}
use mathlib.Core.Path.{subst₂}
use ironpulse.Prelude.Double.{Double}
use ironpulse.Analytics.RuleEngine.{
  SensorRule, LimitState, inside, classify, check_limits, AnomalyEvent, same_state, cooled_down,
  limit_of, limit_event, to_list,
}

-- A reading: its value and its time.
abbrev pub Reading : Type 0 → Type 0
Reading D = D × ℕ

-- Each alert is at least `cooldown` after the one before, the first after `last`.
abbrev pub Spaced : {D : Type 0} → Option ℕ → ℕ → List (AnomalyEvent D) → Type 0
Spaced last cooldown [] = Unit {0}
Spaced last cooldown (e ∷ es) =
    (cooled_down last cooldown e.timestamp ≡ true) × Spaced (some e.timestamp) cooldown es

module _ (F : Double) (sensor_id : String) where
  open F use {D}

  -- The alerts that a sequence of readings raises, in order.
  unfoldable pub limit_alerts : SensorRule D → List (Reading D) → List (AnomalyEvent D)
  limit_alerts rule [] = []
  limit_alerts rule ((value, now) ∷ readings) =
      let (rule', alert) = check_limits F sensor_id rule value now in
      to_list alert ++ limit_alerts rule' readings

  -- What one check does: it keeps the settings, records the state, and raises an alert just when a
  -- breach is entered and the cooldown is over.
  record Checked (rule : SensorRule D) (value : D) (now : ℕ)
      (out : SensorRule D × Option (AnomalyEvent D)) : Type 0 where
    cooldown : out.0.cooldown ≡ rule.cooldown
    limits : out.0.limits ≡ rule.limits
    state : out.0.limit_state ≡ classify F rule.limits value
    quiet : out.1 ≡ none → out.0.last_limit_alert ≡ rule.last_limit_alert
    raised :
        (e : AnomalyEvent D)
        → out.1 ≡ some e
        → (out.0.last_limit_alert ≡ some now)
          × (e.timestamp ≡ now)
          × (cooled_down rule.last_limit_alert rule.cooldown now ≡ true)
          × (rule.limit_state ≢ classify F rule.limits value)
          × (classify F rule.limits value ≢ inside)

  bounded_by :
      (low high : Option D) (value : D)
      → classify F (record { low = low; high = high }) value ≢ inside
      → (bound : D) × (limit_of F
            (record { low = low; high = high })
            (classify F (record { low = low; high = high }) value)
          ≡ some bound)
  unfolding classify
  bounded_by none none value h = absurd (h refl)
  bounded_by (some low) none value h = elim (Bool-cases (F.below value low)) [
    | inl e ↦ (low, rw e refl)
    | inr e ↦ absurd (h (rw e refl))
  ]
  bounded_by none (some high) value h = elim (Bool-cases (F.below high value)) [
    | inl e ↦ (high, rw e refl)
    | inr e ↦ absurd (h (rw e refl))
  ]
  bounded_by (some low) (some high) value h = elim (Bool-cases (F.below high value)) [
    | inl e ↦ (high, rw e refl)
    | inr e ↦ elim (Bool-cases (F.below value low)) [
      | inl e' ↦ (low, rw (e, e') refl)
      | inr e' ↦ absurd (h (rw (e, e') refl))
    ]
  ]

  bounded :
      (rule : SensorRule D) (value : D)
      → classify F rule.limits value ≢ inside
      → (bound : D) × (limit_of F rule.limits (classify F rule.limits value) ≡ some bound)
  bounded rule value h = bounded_by rule.limits.low rule.limits.high value h

  same_state_iff : (a b : LimitState) → (same_state a b ≡ true) ↔ (a ≡ b)
  same_state_iff inside inside = ground arith
  same_state_iff _ _ = ground arith

  not_same : {a b : LimitState} → a ≢ b → same_state a b ≡ false
  not_same {a} {b} h = ground (arith, same_state_iff a b)

  check-Checked :
      (rule : SensorRule D) (value : D) (now : ℕ)
      → Checked rule value now (check_limits F sensor_id rule value now)
  unfolding check_limits
  check-Checked rule value now = record {
    cooldown = ground arith;
    limits = ground arith;
    state = ground arith;
    quiet = λ h.
        ground (arith, bounded rule value, same_state_iff (classify F rule.limits value) inside);
    raised = λ e h. ground (
      arith,
      same_state_iff (classify F rule.limits value) inside,
      same_state_iff (classify F rule.limits value) rule.limit_state,
    );
  }

  -- Any two limit alerts of a sensor are at least the cooldown apart, and so is the first one from
  -- the last alert before the readings.
  pub limit_alerts-Spaced :
      (rule : SensorRule D) (readings : List (Reading D))
      → Spaced rule.last_limit_alert rule.cooldown (limit_alerts rule readings)
  unfolding limit_alerts
  limit_alerts-Spaced rule [] = tt
  limit_alerts-Spaced rule ((value, now) ∷ readings) =
      by_alert (check_limits F sensor_id rule value now).1 refl
        (limit_alerts-Spaced (check_limits F sensor_id rule value now).0 readings)
    where
      rule' : SensorRule D
      rule' = (check_limits F sensor_id rule value now).0

      c : Checked rule value now (check_limits F sensor_id rule value now)
      c = check-Checked rule value now

      by_alert :
          (alert : Option (AnomalyEvent D))
          → (check_limits F sensor_id rule value now).1 ≡ alert
          → Spaced rule'.last_limit_alert rule'.cooldown (limit_alerts rule' readings)
          → Spaced rule.last_limit_alert rule.cooldown
              (to_list alert ++ limit_alerts rule' readings)
      by_alert none e h =
          subst₂ (λ l k. Spaced l k (limit_alerts rule' readings)) (c.quiet e) c.cooldown h
      by_alert (some event) e h =
          let (last, at, cool, edge, out) = c.raised event e in
          (
            subst (λ t. cooled_down rule.last_limit_alert rule.cooldown t ≡ true) (sym at) cool,
            subst₂ (λ l k. Spaced l k (limit_alerts rule' readings)) (last ∙ ap some (sym at))
                c.cooldown h,
          )

  -- Nothing is raised while the value stays where it is.
  pub limit_alerts_staying :
      (rule : SensorRule D) (readings : List (Reading D))
      → All (λ r. classify F rule.limits r.0 ≡ rule.limit_state) readings
      → limit_alerts rule readings ≡ []
  unfolding limit_alerts
  limit_alerts_staying rule [] h = refl
  limit_alerts_staying rule ((value, now) ∷ readings) (same, rest) =
      rw still (limit_alerts_staying rule' readings later)
    where
      rule' : SensorRule D
      rule' = (check_limits F sensor_id rule value now).0

      c : Checked rule value now (check_limits F sensor_id rule value now)
      c = check-Checked rule value now

      still : (check_limits F sensor_id rule value now).1 ≡ none
      still = elim (Option-cases (check_limits F sensor_id rule value now).1) [
        | inl e ↦ e
        | inr (event, e) ↦
            let (last, at, cool, edge, out) = c.raised event e in absurd (edge (sym same))
      ]

      later : All (λ r. classify F rule'.limits r.0 ≡ rule'.limit_state) readings
      later =
          subst₂ (λ l s. All (λ r. classify F l r.0 ≡ s) readings) (sym c.limits)
            (sym same ∙ sym c.state) rest

  -- A breach that is entered raises an alert after the cooldown, and none within it.
  breach_alert :
      (rule : SensorRule D) (value : D) (now : ℕ)
      → classify F rule.limits value ≢ inside
      → classify F rule.limits value ≢ rule.limit_state
      → cooled_down rule.last_limit_alert rule.cooldown now ≡ true
      → (e : AnomalyEvent D) × ((check_limits F sensor_id rule value now).1 ≡ some e)
  unfolding check_limits
  breach_alert rule value now out edge cool =
      let (bound, limit) = bounded rule value out in
      (
        limit_event F sensor_id (classify F rule.limits value) value bound now,
        rw (limit, cool, not_same out, not_same edge) refl,
      )

  within_cooldown :
      (rule : SensorRule D) (value : D) (now : ℕ)
      → cooled_down rule.last_limit_alert rule.cooldown now ≡ false
      → (check_limits F sensor_id rule value now).1 ≡ none
  unfolding check_limits
  within_cooldown rule value now cool = ground arith

  -- A value that leaves its range and stays on that side is reported once, at the moment when it
  -- leaves, and not at all if that moment falls within the cooldown of the alert before.
  pub excursion_alerts :
      (rule : SensorRule D) (value : D) (now : ℕ) (readings : List (Reading D))
      → classify F rule.limits value ≢ inside
      → classify F rule.limits value ≢ rule.limit_state
      → All (λ r. classify F rule.limits r.0 ≡ classify F rule.limits value) readings
      → map (λ (e : AnomalyEvent D). e.timestamp) (limit_alerts rule ((value, now) ∷ readings))
        ≡ (if cooled_down rule.last_limit_alert rule.cooldown now then now ∷ [] else [])
  unfolding limit_alerts
  excursion_alerts rule value now readings out edge stay =
      elim (Bool-cases (cooled_down rule.last_limit_alert rule.cooldown now)) [
        | inl cool ↦
            let (e, raises) = breach_alert rule value now out edge cool in
            let (last, at, old, left, off) = c.raised e raises in rw (cool, raises, silent, at) refl
        | inr cool ↦ rw (cool, within_cooldown rule value now cool, silent) refl
      ]
    where
      rule' : SensorRule D
      rule' = (check_limits F sensor_id rule value now).0

      c : Checked rule value now (check_limits F sensor_id rule value now)
      c = check-Checked rule value now

      silent : limit_alerts rule' readings ≡ []
      silent = limit_alerts_staying rule' readings (
          subst₂ (λ l s. All (λ r. classify F l r.0 ≡ s) readings) (sym c.limits) (sym c.state)
            stay)
