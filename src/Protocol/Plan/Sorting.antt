-- ===== src/Protocol/Plan/Sorting.antt =====
-- The sort of `plan_reads`: what it orders and what it keeps.
use ironpulse.Prelude.{
  ℕ, ◌≤◌, ◌≡◌, refl, List, [], ◌∷◌, arith, All, count, leb, Bool-cases, inl, inr, leb→le,
  not_leb→lt,
}
use ironpulse.Protocol.Plan.{insert_by, sort_by}

module _ (key : ℕ → ℕ) where
  abbrev pub Ordered : List ℕ → Type 0
  Ordered [] = Unit {0}
  Ordered (i ∷ is) = All (λ j. key i ≤ key j) is × Ordered is

  pub All-insert_by :
      (P : ℕ → Type 0) (i : ℕ) (js : List ℕ) → P i → All P js → All P (insert_by key i js)
  unfolding insert_by
  All-insert_by P i [] h k = (h, tt)
  All-insert_by P i (j ∷ js) h k = elim (Bool-cases (leb (key i) (key j))) [
    | inl e ↦ rw e (h, k)
    | inr e ↦ rw e (k.0, All-insert_by P i js h k.1)
  ]

  All-weaken : (a b : ℕ) (js : List ℕ) → a ≤ b → All (λ j. b ≤ key j) js → All (λ j. a ≤ key j) js
  All-weaken a b [] h k = tt
  All-weaken a b (j ∷ js) h k = (omega arith, All-weaken a b js h k.1)

  insert_by-Ordered : (i : ℕ) (js : List ℕ) → Ordered js → Ordered (insert_by key i js)
  unfolding insert_by
  insert_by-Ordered i [] h = (tt, tt)
  insert_by-Ordered i (j ∷ js) h = elim (Bool-cases (leb (key i) (key j))) [
    | inl e ↦
        let below = leb→le (key i) (key j) e in
        rw e ((below, All-weaken (key i) (key j) js below h.0), h)
    | inr e ↦ rw e (
      All-insert_by (λ k. key j ≤ key k) i js (omega (arith, not_leb→lt (key i) (key j) e)) h.0,
      insert_by-Ordered i js h.1,
    )
  ]

  pub sort_by-Ordered : (is : List ℕ) → Ordered (sort_by key is)
  unfolding sort_by
  sort_by-Ordered [] = tt
  sort_by-Ordered (i ∷ is) = insert_by-Ordered i (sort_by key is) (sort_by-Ordered is)

  pub All-sort_by : (P : ℕ → Type 0) (is : List ℕ) → All P is → All P (sort_by key is)
  unfolding sort_by
  All-sort_by P [] h = tt
  All-sort_by P (i ∷ is) h = All-insert_by P i (sort_by key is) h.0 (All-sort_by P is h.1)

  count-insert_by : (a i : ℕ) (js : List ℕ) → count a (insert_by key i js) ≡ count a (i ∷ js)
  unfolding insert_by
  count-insert_by a i [] = refl
  count-insert_by a i (j ∷ js) = ground (arith, count-insert_by a i js)

  pub count-sort_by : (a : ℕ) (is : List ℕ) → count a (sort_by key is) ≡ count a is
  unfolding sort_by
  count-sort_by a [] = refl
  count-sort_by a (i ∷ is) = omega (arith, count-insert_by a i (sort_by key is), count-sort_by a is)
