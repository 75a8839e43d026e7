-- ===== src/Storage/Ring/Window.antt =====
-- Which samples of a history a valid buffer holds, and in which slots.
use ironpulse.Prelude.{
  ℕ, zero, suc, ◌+◌, ◌%◌, ◌^◌, ◌≤◌, ◌<◌, min, ◌≡◌, refl, sym, ap, ◌∙◌, List, [], ◌∷◌, ◌++◌, arith,
  length, get_or, set, length-append, length-set, length-replicate, get_or-set_self, get_or-set_ne,
  dec_lt,
}
use ironpulse.Prelude.Modulo.{mod-ne}
use native.Mathlib.Nat.{mod-lt, mod-eq_of_lt, mod-add-mod}
use ironpulse.Storage.Ring.{Ring, make, push, word}

module _ {ℓ} {A : Type ℓ} (blank : A) where
  -- The buffer `r` of capacity `c` has seen the samples of `h`, oldest first.
  pub record Holds (c : ℕ) (r : Ring A) (h : List A) : Type ℓ where
    pub cap_eq : r.capacity ≡ c
    pub cap_pos : 0 < c
    pub cap_small : c ≤ 2 ^ 63
    pub room : length r.slots ≡ c
    pub index : r.write_index ≡ length h % c
    pub count : r.size ≡ min c (length h)
    pub kept :
        (i : ℕ) → i < length h → length h ≤ i + c → get_or r.slots (i % c) blank ≡ get_or h i blank

  get_or-append_left :
      (xs ys : List A) (i : ℕ) → i < length xs → get_or (xs ++ ys) i blank ≡ get_or xs i blank
  get_or-append_left [] ys i h = absurd (omega arith)
  get_or-append_left (x ∷ xs) ys zero h = refl
  get_or-append_left (x ∷ xs) ys (suc i) h = get_or-append_left xs ys i (omega arith)

  get_or-append_end : (xs : List A) (x : A) → get_or (xs ++ (x ∷ [])) (length xs) blank ≡ x
  get_or-append_end [] x = refl
  get_or-append_end (y ∷ xs) x = get_or-append_end xs x

  pub make-Holds : (c : ℕ) → 0 < c → c ≤ 2 ^ 63 → Holds c (make blank c) []
  unfolding make
  make-Holds c pos small = record {
    cap_eq = refl;
    cap_pos = pos;
    cap_small = small;
    room = length-replicate c blank;
    index = omega arith;
    count = omega arith;
    kept = λ i lt near. absurd (omega arith);
  }

  next_index : (c n : ℕ) → 0 < c → c ≤ 2 ^ 63 → ((n % c + 1) % word) % c ≡ (n + 1) % c
  next_index c n pos small =
      ap (λ k. k % c) (mod-eq_of_lt (omega (arith, mod-lt n pos))) ∙ mod-add-mod n c 1

  kept-push :
      {c : ℕ} (r : Ring A) (h : List A) (x : A)
      → Holds c r h
      → (i : ℕ) → i < length (h ++ (x ∷ []))
      → length (h ++ (x ∷ [])) ≤ i + c
      → get_or (set r.slots r.write_index x) (i % c) blank ≡ get_or (h ++ (x ∷ [])) i blank
  kept-push {c} r h x v i lt near = elim (dec_lt i (length h)) [
    | yes p ↦ rw (v.index) (
        get_or-set_ne r.slots x blank (λ e. mod-ne c i (length h) p (omega (arith, grow)) (sym e))
        ∙ v.kept i p (omega (arith, grow))
        ∙ sym (get_or-append_left h (x ∷ []) i p))
    | no p ↦
        rw (v.index, at_end p)
          (get_or-set_self r.slots (length h % c) x blank
              (omega (arith, v.room, mod-lt (length h) v.cap_pos))
            ∙ sym (get_or-append_end h x))
  ]
    where
      grow : length (h ++ (x ∷ [])) ≡ length h + 1
      grow = omega (arith, length-append {ℓ} h (x ∷ []))

      at_end : ¬ (i < length h) → i ≡ length h
      at_end p = omega (arith, grow)

  pub push-Holds :
      {c : ℕ} {r : Ring A} {h : List A} (x : A) → Holds c r h → Holds c (push r x) (h ++ (x ∷ []))
  unfolding push
  push-Holds {c} {r} {h} x v = record {
    cap_eq = v.cap_eq;
    cap_pos = v.cap_pos;
    cap_small = v.cap_small;
    room = omega (arith, length-set r.slots r.write_index x, v.room);
    index =
        rw (v.cap_eq, v.index, length-append h (x ∷ []))
          (next_index c (length h) v.cap_pos v.cap_small);
    count = ground (arith, length-append h (x ∷ []), v.count, v.cap_eq);
    kept = kept-push r h x v;
  }
