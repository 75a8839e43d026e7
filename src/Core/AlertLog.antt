-- ===== src/Core/AlertLog.antt =====
-- include/ironpulse/core/alert_log.hpp: the bounded history of alerts. The lock makes a call one step.
mod Examples
use ironpulse.Prelude.{
  ℕ, zero, suc, ◌+◌, ◌-◌, ◌<◌, ◌≤◌, ◌≡◌, refl, ap, ap₂, sym, ◌∙◌, min, Bool, true, false, ltb,
  if◌then◌else◌, List, [], ◌∷◌, ◌++◌, length, take, drop, last_n, arith, length-append, length-drop,
  drop-nil, take-append-drop, take-length-append, append-nil, append_assoc, last_n-append,
  last_n-append_full, length-last_n, inl, inr, Bool-cases, not_ltb→le, ltb→lt,
}

pub record AlertLog {ℓ} (A : Type ℓ) : Type ℓ where
  pub capacity : ℕ
  pub events : List A

module _ {ℓ} {A : Type ℓ} where
  -- `while (events_.size() > capacity_) events_.pop_front();`, with the length as fuel.
  unfoldable pub trim : ℕ → ℕ → List A → List A
  trim zero capacity events = events
  trim (suc fuel) capacity events =
      let rest = trim fuel capacity (drop 1 events) in
      if ltb capacity (length events) then rest else events

  unfoldable pub push : AlertLog A → A → AlertLog A
  unfolding trim
  push log event =
      let pushed = log.events ++ (event ∷ []) in
      record log { events = trim (length pushed) log.capacity pushed }

  abbrev pub reversed : List A → List A
  reversed [] = []
  reversed (x ∷ xs) = reversed xs ++ (x ∷ [])

  unfoldable pub recent : AlertLog A → ℕ → List A
  recent log count = take (min count (length log.events)) (reversed log.events)

  unfoldable pub push_all : AlertLog A → List A → AlertLog A
  unfolding push
  push_all log [] = log
  push_all log (e ∷ es) = push_all (push log e) es

  -- A run of the loop with enough fuel keeps the last `capacity` elements.
  trim-last_n :
      (fuel capacity : ℕ) (events : List A)
      → length events ≤ fuel
      → trim fuel capacity events ≡ last_n capacity events
  unfolding trim
  trim-last_n zero capacity [] h = sym (drop-nil (0 - capacity))
  trim-last_n zero capacity (e ∷ events) h = absurd (omega (arith, h))
  trim-last_n (suc fuel) capacity [] h = rw (not_below capacity) (sym (drop-nil (0 - capacity)))
    where
      not_below : (c : ℕ) → ltb c 0 ≡ false
      not_below c = ground arith
  trim-last_n (suc fuel) capacity (e ∷ events) h =
      elim (Bool-cases (ltb capacity (length (e ∷ events)))) [
        | inl more ↦ rw more (trim-last_n fuel capacity events (omega (arith, h)) ∙ one_less more)
        | inr enough ↦ rw enough (ap (λ k. drop k (e ∷ events)) (none_over enough))
      ]
    where
      one_less :
          ltb capacity (length (e ∷ events)) ≡ true
          → last_n capacity events ≡ last_n capacity (e ∷ events)
      one_less more = ap (λ k. drop k (e ∷ events)) (step more)
        where
          step :
              ltb capacity (length (e ∷ events)) ≡ true
              → suc (length events - capacity) ≡ length (e ∷ events) - capacity
          step k = omega (arith, ltb→lt capacity (length (e ∷ events)) k)

      none_over : ltb capacity (length (e ∷ events)) ≡ false → 0 ≡ length (e ∷ events) - capacity
      none_over enough = omega (arith, not_ltb→le capacity (length (e ∷ events)) enough)

  -- The last elements of a list of last elements.
  last_n-pushed :
      (c : ℕ) (xs : List A) (x : A) → last_n c (last_n c xs ++ (x ∷ [])) ≡ last_n c (xs ++ (x ∷ []))
  last_n-pushed c xs x = elim (Bool-cases (ltb (length xs) c)) [
    | inl room ↦
        ap (λ ys. last_n c (ys ++ (x ∷ [])))
          (ap (λ k. drop k xs) (all_kept (ltb→lt (length xs) c room)))
    | inr full ↦
        ap (λ k. drop k (last_n c xs ++ (x ∷ []))) (one_over (not_ltb→le (length xs) c full))
        ∙ last_n-append_full c xs x (not_ltb→le (length xs) c full)
  ]
    where
      all_kept : length xs < c → length xs - c ≡ 0
      all_kept k = omega (arith, k)

      one_over : c ≤ length xs → length (last_n c xs ++ (x ∷ [])) - c ≡ 1
      one_over k = omega (arith, k, length-append (last_n c xs) (x ∷ []), length-last_n c xs)

  push_all-last_n :
      (es h : List A) (c : ℕ) (log : AlertLog A)
      → log.capacity ≡ c
      → log.events ≡ last_n c h
      → (push_all log es).events ≡ last_n c (h ++ es)
  unfolding push_all
  push_all-last_n [] h c log cap now = now ∙ ap (last_n c) (sym (append-nil h))
  push_all-last_n (e ∷ es) h c log cap now =
      push_all-last_n es (h ++ (e ∷ [])) c (push log e) cap (
        trim-last_n (length (log.events ++ (e ∷ []))) log.capacity (log.events ++ (e ∷ []))
          (omega arith)
        ∙ ap₂ (λ k xs. last_n k (xs ++ (e ∷ []))) cap now
        ∙ last_n-pushed c h e)
      ∙ ap (last_n c) (append_assoc h (e ∷ []) es)

  reversed-append : (xs ys : List A) → reversed (xs ++ ys) ≡ reversed ys ++ reversed xs
  reversed-append [] ys = sym (append-nil (reversed ys))
  reversed-append (x ∷ xs) ys =
      ap (λ zs. zs ++ (x ∷ [])) (reversed-append xs ys)
      ∙ append_assoc (reversed ys) (reversed xs) (x ∷ [])

  length-reversed : (xs : List A) → length (reversed xs) ≡ length xs
  length-reversed [] = refl
  length-reversed (x ∷ xs) = omega (arith, length-append (reversed xs) (x ∷ []), length-reversed xs)

  take-reversed :
      (n : ℕ) (xs : List A) → n ≤ length xs → take n (reversed xs) ≡ reversed (last_n n xs)
  take-reversed n xs h =
      ap (λ ys. take n (reversed ys)) (sym (take-append-drop (length xs - n) xs))
      ∙ ap (take n) (reversed-append (take (length xs - n) xs) (last_n n xs))
      ∙ ap (λ k. take k (reversed (last_n n xs) ++ reversed (take (length xs - n) xs))) count
      ∙ take-length-append (reversed (last_n n xs)) (reversed (take (length xs - n) xs))
    where
      count : n ≡ length (reversed (last_n n xs))
      count = omega (arith, h, length-reversed (last_n n xs), length-last_n n xs)

  -- After any alerts, from an empty log, the log holds the last ones that its capacity allows, and
  -- `recent` gives the newest of them, as many as asked for and held, newest first.
  pub push_all-recent :
      (c : ℕ) (es : List A) (count : ℕ)
      → let log = push_all (record { capacity = c; events = [] }) es in
        (log.events ≡ last_n c es)
        × (recent log count ≡ reversed (last_n (min count (length (last_n c es))) (last_n c es)))
  unfolding recent
  push_all-recent c es count =
      let held =
        push_all-last_n es [] c (record { capacity = c; events = [] }) refl
          (sym (drop-nil (0 - c))) in
      (
        held,
        ap (λ events. take (min count (length events)) (reversed events)) held
            ∙ take-reversed (min count (length (last_n c es))) (last_n c es) (omega arith),
      )
