-- ===== src/Core/Config/Devices/Numbers.antt =====
-- src/core/config.cpp, `get_int`, `get_number` and the loop over an array: what they let through.
use Prim.Native.String.{String}
use ironpulse.Prelude.{
  ℕ, ◌+◌, ◌≤◌, ◌≡◌, subst, true, leb, ◌&&◌, List, [], ◌∷◌, ◌++◌, Option, none, some, All, arith,
  inl, inr, Option-cases,
}
use ironpulse.Prelude.Dict.{Dict, at_key}
use ironpulse.Prelude.Double.{Double}
use ironpulse.Core.Config.Failure.{
  ◌>>=◌, Part, element, Result, done, join_path, bind_done, check_done, done-injective,
  failed_ne_done, out_of_range, expected_finite,
}
use ironpulse.Core.Config.Parser.{
  View, null, boolean, integer, negative, floating, text, array, object, int_of, get_int,
  get_number, number_of, finite, get_optional_number, optional_of, parse_each,
}

module _ (F : Double) {J : Type 0} (view : J → View J F.D) (getenv : String → Option String) where
  open F use {D, of_nat, of_negative, is_finite}

  int_of_bounds :
      (low high : ℕ) (path : List Part) (v : View J D) {n : ℕ}
      → int_of F view getenv low high path v ≡ done n
      → (low ≤ n) × (n ≤ high)
  int_of_bounds low high path (integer m) h =
      let (ok, same) =
        check_done (leb low m && leb m high) path (out_of_range low high) (done m) h in
      subst (λ k. (low ≤ k) × (k ≤ high)) (done-injective same) (both low m high ok)
    where
      both : (a b c : ℕ) → (leb a b && leb b c) ≡ true → (a ≤ b) × (b ≤ c)
      both a b c e = ground arith
  int_of_bounds low high path (negative m) h = absurd (failed_ne_done h)
  int_of_bounds low high path null h = absurd (failed_ne_done h)
  int_of_bounds low high path (boolean b) h = absurd (failed_ne_done h)
  int_of_bounds low high path (floating d) h = absurd (failed_ne_done h)
  int_of_bounds low high path (text t) h = absurd (failed_ne_done h)
  int_of_bounds low high path (array l) h = absurd (failed_ne_done h)
  int_of_bounds low high path (object o) h = absurd (failed_ne_done h)

  -- An integer that `get_int` returns is in the range, as long as the default is.
  pub get_int_bounds :
      (obj : Dict J) (key : String) (fallback : ℕ) (path : List Part) (low high : ℕ) {n : ℕ}
      → get_int F view getenv obj key fallback path low high ≡ done n
      → low ≤ fallback
      → fallback ≤ high
      → (low ≤ n) × (n ≤ high)
  unfolding get_int
  get_int_bounds obj key fallback path low high h least most =
      elim (Option-cases (at_key obj key)) [
        | inl e ↦
            subst (λ k. (low ≤ k) × (k ≤ high)) (done-injective (rw (e, get_int) at h))
              (least, most)
        | inr (v, e) ↦ int_of_bounds low high (join_path path key) (view v) (rw (e, get_int) at h)
      ]

  pub parse_each-All :
      {A : Type 0} (P : A → Type 0) (parse : J → List Part → Result A)
      → ((j : J) (path : List Part) (a : A) → parse j path ≡ done a → P a)
      → (list : List J) (path : List Part) (i : ℕ) (parsed : List A)
      → parse_each F view getenv parse path i list ≡ done parsed
      → All P parsed
  unfolding parse_each
  parse_each-All P parse sound [] path i parsed h = subst (All P) (done-injective h) tt
  parse_each-All P parse sound (j ∷ list) path i parsed h =
      let (first, one, h1) = bind_done (parse j (path ++ (element i ∷ []))) _ h in
      let (rest, more, h2) = bind_done (parse_each F view getenv parse path (i + 1) list) _ h1 in
      subst (All P) (done-injective h2) (
        sound j (path ++ (element i ∷ [])) first one,
        parse_each-All P parse sound list path (i + 1) rest more,
      )

  finite_done :
      (where_ : List Part) (n : D) {d : D}
      → finite F view getenv where_ n ≡ done d
      → is_finite d ≡ true
  finite_done where_ n h =
      let (ok, same) = check_done (is_finite n) where_ expected_finite (done n) h in
      subst (λ x. is_finite x ≡ true) (done-injective same) ok

  number_of_finite :
      (where_ : List Part) (v : View J D) {d : D}
      → number_of F view getenv where_ v ≡ done d
      → is_finite d ≡ true
  number_of_finite where_ (integer n) h = finite_done where_ (of_nat n) h
  number_of_finite where_ (negative n) h = finite_done where_ (of_negative n) h
  number_of_finite where_ (floating n) h = finite_done where_ n h
  number_of_finite where_ null h = absurd (failed_ne_done h)
  number_of_finite where_ (boolean b) h = absurd (failed_ne_done h)
  number_of_finite where_ (text t) h = absurd (failed_ne_done h)
  number_of_finite where_ (array l) h = absurd (failed_ne_done h)
  number_of_finite where_ (object o) h = absurd (failed_ne_done h)

  -- A number that `get_number` returns is finite, as long as the default is.
  pub get_number_finite :
      (obj : Dict J) (key : String) (fallback : D) (path : List Part) {d : D}
      → get_number F view getenv obj key fallback path ≡ done d
      → is_finite fallback ≡ true
      → is_finite d ≡ true
  unfolding get_number
  get_number_finite obj key fallback path h known = elim (Option-cases (at_key obj key)) [
    | inl e ↦ subst (λ x. is_finite x ≡ true) (done-injective (rw (e, get_number) at h)) known
    | inr (v, e) ↦ number_of_finite (join_path path key) (view v) (rw (e, get_number) at h)
  ]

  -- A limit that is given is finite.
  abbrev pub IsLimit : Option D → Type 0
  IsLimit none = Unit
  IsLimit (some d) = is_finite d ≡ true

  given :
      (where_ : List Part) (v : View J D) (o : Option D)
      → number_of F view getenv where_ v >>= (λ d. done (some d)) ≡ done o
      → IsLimit o
  given where_ v o h =
      let (d, e, same) = bind_done (number_of F view getenv where_ v) (λ d. done (some d)) h in
      subst IsLimit (done-injective same) (number_of_finite where_ v e)

  optional_of-IsLimit :
      (where_ : List Part) (v : View J D) (o : Option D)
      → optional_of F view getenv where_ v ≡ done o
      → IsLimit o
  optional_of-IsLimit where_ null o h = subst IsLimit (done-injective h) tt
  optional_of-IsLimit where_ (integer n) o h = given where_ (integer n) o h
  optional_of-IsLimit where_ (negative n) o h = given where_ (negative n) o h
  optional_of-IsLimit where_ (floating n) o h = given where_ (floating n) o h
  optional_of-IsLimit where_ (boolean b) o h = given where_ (boolean b) o h
  optional_of-IsLimit where_ (text t) o h = given where_ (text t) o h
  optional_of-IsLimit where_ (array l) o h = given where_ (array l) o h
  optional_of-IsLimit where_ (object f) o h = given where_ (object f) o h

  pub get_optional_number-IsLimit :
      (obj : Dict J) (key : String) (path : List Part) (o : Option D)
      → get_optional_number F view getenv obj key path ≡ done o
      → IsLimit o
  unfolding get_optional_number
  get_optional_number-IsLimit obj key path o h = elim (Option-cases (at_key obj key)) [
    | inl e ↦ subst IsLimit (done-injective (rw (e, get_optional_number) at h)) tt
    | inr (v, e) ↦
        optional_of-IsLimit (join_path path key) (view v) o (rw (e, get_optional_number) at h)
  ]
