-- ===== src/Prelude/Dict.antt =====
-- `std::unordered_map<std::string, V>` as an association list with distinct keys.
use text.Mathlib.Text.{◌==◌ as same}
use text.Mathlib.TextEquality.{eq_iff}
use text.Mathlib.TextPositions.{eq_refl}
use Prim.Native.String.{String}
use mathlib.Core.Path.{◌≡◌}
use mathlib.Core.Bool.{Bool, true, false}
use mathlib.Core.Option.{Option, none, some}
use mathlib.Core.List.{List, [], ◌∷◌}
use native.Mathlib.Omega.{arith}
use ironpulse.Prelude.Tests.{if◌then◌else◌}

abbrev pub Dict {ℓ} : Type ℓ → Type ℓ
Dict V = List (String × V)

-- Key equality, as the program's strings compare.
abbrev pub same_key : String → String → Bool
same_key a b = same a b

pub same_key_refl : (a : String) → same_key a a ≡ true
same_key_refl a = eq_refl a

pub same_key→eq : (a b : String) → same_key a b ≡ true → a ≡ b
same_key→eq a b h = (eq_iff a b).0 h

module _ {ℓ} {V : Type ℓ} where
  -- `find`: the value of a key
  unfoldable pub at_key : Dict V → String → Option V
  at_key [] key = none
  at_key ((other, value) ∷ more) key =
      let later = at_key more key in elim (same other key) [ true ↦ some value | false ↦ later ]

  -- `map[key] = value`
  unfoldable pub put : Dict V → String → V → Dict V
  put [] key value = (key, value) ∷ []
  put ((other, old) ∷ more) key value =
      let later = put more key value in
      elim (same other key) [ true ↦ (other, value) ∷ more | false ↦ (other, old) ∷ later ]

  -- What a key gives after a write: the written value under that key, the old one under others.
  pub at_key-put :
      (dict : Dict V) (written key : String) (value : V)
      → at_key (put dict written value) key
        ≡ (if same_key written key then some value else at_key dict key)
  unfolding at_key put
  at_key-put [] written key value = ground arith
  at_key-put ((other, old) ∷ more) written key value = ground (
    arith,
    at_key-put more written key value,
    eq_iff other written,
    eq_iff other key,
    eq_iff written key,
  )

  pub at_key-other :
      (other key : String) (value : V) (more : Dict V)
      → same_key other key ≡ false
      → at_key ((other, value) ∷ more) key ≡ at_key more key
  unfolding at_key
  at_key-other other key value more differ = ground (arith, differ)

  pub at_key-found :
      (other key : String) (value : V) (more : Dict V)
      → same_key other key ≡ true
      → at_key ((other, value) ∷ more) key ≡ some value
  unfolding at_key
  at_key-found other key value more same_keys = ground (arith, same_keys)
