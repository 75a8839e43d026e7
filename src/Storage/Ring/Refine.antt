-- ===== src/Storage/Ring/Refine.antt =====
-- A buffer answers as the tail of the history that it has seen.
use ironpulse.Prelude.{
  last_n, ℕ, zero, suc, ◌+◌, ◌-◌, ◌%◌, ◌^◌, ◌≤◌, ◌<◌, min, ◌≡◌, refl, sym, ap, ap₂, subst, ◌∙◌,
  List, [], ◌∷◌, ◌++◌, arith, length, get_or, get_elem?, drop, some, append_assoc, append-nil,
}
use native.Mathlib.Nat.{mod-lt, mod-add-mod, add-mod_right}
use ironpulse.Storage.Ring.{Ring, make, push, latest, recent, recent_from, read_index, word}
use ironpulse.Storage.Ring.Window.{Holds, make-Holds, push-Holds}

module _ {ℓ} {A : Type ℓ} where
  unfoldable pub push_all : Ring A → List A → Ring A
  push_all r [] = r
  push_all r (x ∷ xs) = push_all (push r x) xs

module _ {ℓ} {A : Type ℓ} (blank : A) where
  drop-length : (h : List A) → drop (length h) h ≡ []
  drop-length [] = refl
  drop-length (x ∷ h) = drop-length h

  drop_cons : (h : List A) (i : ℕ) → i < length h → drop i h ≡ get_or h i blank ∷ drop (suc i) h
  drop_cons [] i lt = absurd (omega arith)
  drop_cons (x ∷ h) zero lt = refl
  drop_cons (x ∷ h) (suc i) lt = drop_cons h i (omega arith)

  wrapped_index :
      (c n count i : ℕ)
      → 0 < c
      → c ≤ 2 ^ 63
      → count ≤ c
      → count ≤ n
      → i < count
      → (n % c + c + (word - count) + i) % word % c ≡ (n - count + i) % c
  wrapped_index c n count i pos small le have lt =
      ap (λ k. k % c) unwrapped
      ∙ mod-add-mod n c (c - count + i)
      ∙ ap (λ k. k % c) regrouped
      ∙ add-mod_right (n - count + i) c
    where
      unwrapped : (n % c + c + (word - count) + i) % word ≡ n % c + (c - count + i)
      unwrapped = omega (arith, mod-lt n pos)

      regrouped : n + (c - count + i) ≡ n - count + i + c
      regrouped = omega arith

  recent_from-eq-drop :
      {c : ℕ} {r : Ring A} {h : List A}
      → Holds blank c r h
      → (count left i : ℕ) → count ≤ c
      → count ≤ length h
      → i + left ≡ count
      → recent_from blank r count left i ≡ drop (length h - count + i) h
  unfolding recent_from read_index
  recent_from-eq-drop {c} {r} {h} v count zero i le have e =
      sym (ap (λ k. drop k h) at_end ∙ drop-length h)
    where
      at_end : length h - count + i ≡ length h
      at_end = omega arith
  recent_from-eq-drop {c} {r} {h} v count (suc left) i le have e =
      ap₂ ◌∷◌ here
        (recent_from-eq-drop v count left (i + 1) le have (omega arith) ∙ ap (λ k. drop k h) step)
      ∙ sym (drop_cons h (length h - count + i) (omega arith))
    where
      here : get_or r.slots (read_index r count i) blank ≡ get_or h (length h - count + i) blank
      here =
          rw
            (
              v.index,
              v.cap_eq,
              wrapped_index c (length h) count i v.cap_pos v.cap_small le have (omega arith),
            )
            (v.kept (length h - count + i) (omega arith) (omega arith))

      step : length h - count + (i + 1) ≡ suc (length h - count + i)
      step = omega arith

  -- A buffer of capacity `c` that has seen `h` holds its last `c` samples and no others, and
  -- `recent` gives the last `n` of these, oldest first.
  pub recent-Holds :
      {c : ℕ} {r : Ring A} {h : List A} (n : ℕ)
      → Holds blank c r h
      → recent blank r n ≡ last_n (min n (min c (length h))) h
  unfolding recent
  recent-Holds {c} {r} {h} n v = rw (v.count) (
      recent_from-eq-drop v (min n (min c (length h))) (min n (min c (length h))) 0 (omega arith)
        (omega arith) (omega arith)
      ∙ ap (λ k. drop k h) none_skipped)
    where
      none_skipped : length h - min n (min c (length h)) + 0 ≡ length h - min n (min c (length h))
      none_skipped = omega arith

  get_elem?-eq-get_or :
      (xs : List A) (i : ℕ) → i < length xs → get_elem? xs i ≡ some (get_or xs i blank)
  get_elem?-eq-get_or [] i h = absurd (omega arith)
  get_elem?-eq-get_or (x ∷ xs) zero h = refl
  get_elem?-eq-get_or (x ∷ xs) (suc i) h = get_elem?-eq-get_or xs i (omega arith)

  wrapped_last :
      (c n : ℕ) → 0 < c → c ≤ 2 ^ 63 → 0 < n → (n % c + c + (word - 1)) % word % c ≡ (n - 1) % c
  wrapped_last c n pos small have =
      ap (λ k. k % c) (omega' (n % c + c + (word - 1)))
      ∙ wrapped_index c n 1 0 pos small pos have (omega arith)
      ∙ ap (λ k. k % c) tidy
    where
      omega' : (m : ℕ) → m % word ≡ (m + 0) % word
      omega' m = omega arith

      tidy : n - 1 + 0 ≡ n - 1
      tidy = omega arith

  slot_before :
      {c : ℕ} {r : Ring A} {h : List A}
      → Holds blank c r h
      → 0 < length h
      → get_elem? r.slots ((r.write_index + r.capacity + (word - 1)) % word % r.capacity)
        ≡ get_elem? h (length h - 1)
  slot_before {c} {r} {h} v have =
      rw (v.index, v.cap_eq, wrapped_last c (length h) v.cap_pos v.cap_small have)
        (get_elem?-eq-get_or r.slots ((length h - 1) % c)
            (omega (arith, v.room, mod-lt (length h - 1) v.cap_pos))
          ∙ ap some (v.kept (length h - 1) (omega arith) (omega (arith, v.cap_pos)))
          ∙ sym (get_elem?-eq-get_or h (length h - 1) (omega arith)))

  pub latest-Holds :
      {c : ℕ} {r : Ring A} {h : List A} → Holds blank c r h → latest r ≡ get_elem? h (length h - 1)
  unfolding latest
  latest-Holds {c} {r} {h = []} v = ground (arith, v.count)
  latest-Holds {c} {r} {h = x ∷ h} v =
      ground (arith, v.count, v.cap_pos, slot_before v (omega arith))

  pub push_all-Holds :
      (xs : List A) {c : ℕ} {r : Ring A} {h : List A}
      → Holds blank c r h
      → Holds blank c (push_all r xs) (h ++ xs)
  unfolding push_all
  push_all-Holds [] {c} {r} {h} v = rw (append-nil h) v
  push_all-Holds (x ∷ xs) {c} {r} {h} v =
      subst (Holds blank c (push_all (push r x) xs)) (append_assoc h (x ∷ []) xs)
        (push_all-Holds xs (push-Holds blank x v))

  -- The whole life of a buffer: made with a capacity from 1 to 2 ^ 63, then pushed the samples of
  -- `xs` in turn. It counts what it holds, `recent n` gives the last `n` samples of `xs` as far as
  -- the capacity reaches, oldest first, and `latest` the last one of `xs`, none if there is
  -- none.
  pub ring_refines :
      (c : ℕ) (xs : List A) (n : ℕ)
      → 0 < c
      → c ≤ 2 ^ 63
      → let r = push_all (make blank c) xs in
        (r.size ≡ min c (length xs))
        × (recent blank r n ≡ last_n (min n (min c (length xs))) xs)
        × (latest r ≡ get_elem? xs (length xs - 1))
  ring_refines c xs n pos small =
      let v = push_all-Holds xs (make-Holds blank c pos small) in
      (v.count, recent-Holds n v, latest-Holds v)
