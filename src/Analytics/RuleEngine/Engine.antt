-- ===== src/Analytics/RuleEngine/Engine.antt =====
-- `observe` over an interleaving of the readings of many sensors.
use Prim.Native.String.{String}
use ironpulse.Prelude.{
  ℕ, ◌≡◌, refl, ap, sym, ◌∙◌, Bool, true, false, List, [], ◌∷◌, ◌++◌, Option, none, some, arith,
  All, keep, keep-append, All-append, ap₂, subst,
}
use ironpulse.Prelude.Dict.{at_key, put, same_key, at_key-put, same_key_refl, same_key→eq}
use ironpulse.Prelude.Double.{Double}
use ironpulse.Analytics.RuleEngine.{
  Rules, SensorRule, AnomalyEvent, observe_rule, observe_found, observe, check_limits,
  run_detectors, vote_event, limit_event, to_list,
}

module _ (F : Double) where
  open F use {D}

  -- A reading of a sensor: its id, value and time.
  abbrev pub Tagged : Type 0
  Tagged = String × D × ℕ

  -- The engine after a sequence of readings, and all alerts in the order of publication.
  unfoldable pub observe_many : Rules D → List Tagged → Rules D × List (AnomalyEvent D)
  observe_many rules [] = (rules, [])
  observe_many rules ((sensor_id, value, now) ∷ readings) =
      let (rules', alerts) = observe F rules sensor_id value now in
      let (last, more) = observe_many rules' readings in (last, alerts ++ more)

  abbrev pub reading_of : String → Tagged → Bool
  reading_of sensor_id reading = same_key reading.0 sensor_id

  abbrev pub alert_of : String → AnomalyEvent D → Bool
  alert_of sensor_id alert = same_key alert.sensor_id sensor_id

  named_limit :
      (sensor_id : String) (rule : SensorRule D) (value : D) (now : ℕ) (e : AnomalyEvent D)
      → (check_limits F sensor_id rule value now).1 ≡ some e
      → e.sensor_id ≡ sensor_id
  unfolding check_limits limit_event
  named_limit sensor_id rule value now e h = ground arith

  named_vote :
      (sensor_id : String) (rule : SensorRule D) (value : D) (now : ℕ) (e : AnomalyEvent D)
      → (run_detectors F sensor_id rule value now).1 ≡ some e
      → e.sensor_id ≡ sensor_id
  unfolding run_detectors vote_event
  named_vote sensor_id rule value now e h = ground arith

  named_list :
      (sensor_id : String) (alert : Option (AnomalyEvent D))
      → ((e : AnomalyEvent D) → alert ≡ some e → e.sensor_id ≡ sensor_id)
      → All (λ e. e.sensor_id ≡ sensor_id) (to_list alert)
  named_list sensor_id none h = tt
  named_list sensor_id (some e) h = (h e refl, tt)

  named_rule :
      (sensor_id : String) (rule : SensorRule D) (value : D) (now : ℕ)
      → All (λ e. e.sensor_id ≡ sensor_id) (observe_rule F sensor_id rule value now).1
  unfolding observe_rule
  named_rule sensor_id rule value now =
      All-append (λ e. e.sensor_id ≡ sensor_id)
        (to_list (check_limits F sensor_id rule value now).1)
        (to_list
          (run_detectors F sensor_id (check_limits F sensor_id rule value now).0 value now).1)
        (named_list sensor_id (check_limits F sensor_id rule value now).1
          (named_limit sensor_id rule value now))
        (named_list sensor_id
          (run_detectors F sensor_id (check_limits F sensor_id rule value now).0 value now).1
          (named_vote sensor_id (check_limits F sensor_id rule value now).0 value now))

  keep_own :
      (sensor_id other : String) (alerts : List (AnomalyEvent D))
      → same_key other sensor_id ≡ true
      → All (λ e. e.sensor_id ≡ other) alerts
      → keep (alert_of sensor_id) alerts ≡ alerts
  keep_own sensor_id other [] same h = refl
  keep_own sensor_id other (e ∷ alerts) same (own, h) =
      ground
        (arith, ap (λ s. same_key s sensor_id) own ∙ same, keep_own sensor_id other alerts same h)

  keep_foreign :
      (sensor_id other : String) (alerts : List (AnomalyEvent D))
      → same_key other sensor_id ≡ false
      → All (λ e. e.sensor_id ≡ other) alerts
      → keep (alert_of sensor_id) alerts ≡ []
  keep_foreign sensor_id other [] differ h = refl
  keep_foreign sensor_id other (e ∷ alerts) differ (own, h) = ground (
    arith,
    ap (λ s. same_key s sensor_id) own ∙ differ,
    keep_foreign sensor_id other alerts differ h,
  )

  found-named :
      (rules : Rules D) (sensor_id : String) (value : D) (now : ℕ) (rule : Option (SensorRule D))
      → All (λ e. e.sensor_id ≡ sensor_id) (observe_found F rules sensor_id value now rule).1
  unfolding observe_found
  found-named rules sensor_id value now none = tt
  found-named rules sensor_id value now (some rule) = named_rule sensor_id rule value now

  observe-named :
      (rules : Rules D) (sensor_id : String) (value : D) (now : ℕ)
      → All (λ e. e.sensor_id ≡ sensor_id) (observe F rules sensor_id value now).1
  unfolding observe
  observe-named rules sensor_id value now =
      found-named rules sensor_id value now (at_key rules sensor_id)

  found_other :
      (rules : Rules D) (other sensor_id : String) (value : D) (now : ℕ)
      (rule : Option (SensorRule D))
      → same_key other sensor_id ≡ false
      → at_key (observe_found F rules other value now rule).0 sensor_id ≡ at_key rules sensor_id
  unfolding observe_found
  found_other rules other sensor_id value now none differ = refl
  found_other rules other sensor_id value now (some rule) differ =
      at_key-put rules other sensor_id (observe_rule F other rule value now).0 ∙ rw differ refl

  -- A reading of another sensor leaves the rule of this one as it is.
  observe_other :
      (rules : Rules D) (other sensor_id : String) (value : D) (now : ℕ)
      → same_key other sensor_id ≡ false
      → at_key (observe F rules other value now).0 sensor_id ≡ at_key rules sensor_id
  unfolding observe
  observe_other rules other sensor_id value now differ =
      found_other rules other sensor_id value now (at_key rules other) differ

  found_alike :
      (rules rules' : Rules D) (sensor_id : String) (value : D) (now : ℕ)
      (rule : Option (SensorRule D))
      → at_key rules sensor_id ≡ at_key rules' sensor_id
      → (at_key (observe_found F rules sensor_id value now rule).0 sensor_id
          ≡ at_key (observe_found F rules' sensor_id value now rule).0 sensor_id)
        × ((observe_found F rules sensor_id value now rule).1
            ≡ (observe_found F rules' sensor_id value now rule).1)
  unfolding observe_found
  found_alike rules rules' sensor_id value now none alike = (alike, refl)
  found_alike rules rules' sensor_id value now (some rule) alike =
      (after rules ∙ sym (after rules'), refl)
    where
      after :
          (r : Rules D)
          → at_key (put r sensor_id (observe_rule F sensor_id rule value now).0) sensor_id
            ≡ some (observe_rule F sensor_id rule value now).0
      after r =
          at_key-put r sensor_id sensor_id (observe_rule F sensor_id rule value now).0
          ∙ rw (same_key_refl sensor_id) refl

  -- What a reading does to its sensor depends on the rule of that sensor alone.
  observe_alike :
      (rules rules' : Rules D) (sensor_id : String) (value : D) (now : ℕ)
      → at_key rules sensor_id ≡ at_key rules' sensor_id
      → (at_key (observe F rules sensor_id value now).0 sensor_id
          ≡ at_key (observe F rules' sensor_id value now).0 sensor_id)
        × ((observe F rules sensor_id value now).1 ≡ (observe F rules' sensor_id value now).1)
  unfolding observe
  observe_alike rules rules' sensor_id value now alike =
      subst
        (λ o.
          (at_key (observe_found F rules sensor_id value now (at_key rules sensor_id)).0 sensor_id
            ≡ at_key (observe_found F rules' sensor_id value now o).0 sensor_id)
          × ((observe_found F rules sensor_id value now (at_key rules sensor_id)).1
              ≡ (observe_found F rules' sensor_id value now o).1))
        alike (found_alike rules rules' sensor_id value now (at_key rules sensor_id) alike)

  observe_same :
      (rules rules' : Rules D) (other sensor_id : String) (value : D) (now : ℕ)
      → same_key other sensor_id ≡ true
      → at_key rules sensor_id ≡ at_key rules' sensor_id
      → (at_key (observe F rules other value now).0 sensor_id
          ≡ at_key (observe F rules' other value now).0 sensor_id)
        × ((observe F rules other value now).1 ≡ (observe F rules' other value now).1)
  observe_same rules rules' other sensor_id value now same alike =
      subst
        (λ o.
          (at_key (observe F rules o value now).0 sensor_id
            ≡ at_key (observe F rules' o value now).0 sensor_id)
          × ((observe F rules o value now).1 ≡ (observe F rules' o value now).1))
        (sym (same_key→eq other sensor_id same))
        (observe_alike rules rules' sensor_id value now alike)

  -- For each sensor, the final rule and the alerts of an interleaving of readings are those of the
  -- readings of that sensor alone: what is read from other sensors has no effect on them.
  pub observe_many_alone :
      (readings : List Tagged) (sensor_id : String) (rules rules' : Rules D)
      → at_key rules sensor_id ≡ at_key rules' sensor_id
      → (at_key (observe_many rules readings).0 sensor_id
          ≡ at_key (observe_many rules' (keep (reading_of sensor_id) readings)).0 sensor_id)
        × (keep (alert_of sensor_id) (observe_many rules readings).1
            ≡ (observe_many rules' (keep (reading_of sensor_id) readings)).1)
  unfolding observe_many
  observe_many_alone [] sensor_id rules rules' alike = (alike, refl)
  observe_many_alone ((other, value, now) ∷ readings) sensor_id rules rules' alike =
      by_sensor (same_key other sensor_id) refl (observe_many_alone readings sensor_id)
    where
      a : List (AnomalyEvent D)
      a = (observe F rules other value now).1

      more : List (AnomalyEvent D)
      more = (observe_many (observe F rules other value now).0 readings).1

      own : List Tagged
      own = keep (reading_of sensor_id) readings

      by_sensor :
          (same : Bool)
          → same_key other sensor_id ≡ same
          → ((r r' : Rules D)
              → at_key r sensor_id ≡ at_key r' sensor_id
              → (at_key (observe_many r readings).0 sensor_id
                  ≡ at_key (observe_many r' own).0 sensor_id)
                × (keep (alert_of sensor_id) (observe_many r readings).1 ≡ (observe_many r' own).1))
          → (at_key (observe_many (observe F rules other value now).0 readings).0 sensor_id
              ≡ at_key
                  (observe_many rules'
                    (elim same [ true ↦ (other, value, now) ∷ own | false ↦ own ])).0
                  sensor_id)
            × (keep (alert_of sensor_id) (a ++ more)
                ≡ (observe_many rules'
                    (elim same [ true ↦ (other, value, now) ∷ own | false ↦ own ])).1)
      by_sensor true e hyp =
          let (after, alerts) = observe_same rules rules' other sensor_id value now e alike in
          let (rule, rest) =
            hyp (observe F rules other value now).0 (observe F rules' other value now).0 after in
          (
            rule,
            keep-append (alert_of sensor_id) a more
                ∙ ap₂ (λ x y. x ++ y)
                    (keep_own sensor_id other a e (observe-named rules other value now) ∙ alerts)
                    rest,
          )
      by_sensor false e hyp =
          let (rule, alerts) =
            hyp (observe F rules other value now).0 rules'
              (observe_other rules other sensor_id value now e ∙ alike) in
          (
            rule,
            keep-append (alert_of sensor_id) a more
                ∙ rw (keep_foreign sensor_id other a e (observe-named rules other value now))
                    alerts,
          )
