-- ===== src/Core/Config/Failure.antt =====
-- src/core/config.cpp, `fail`: the errors of the loader as values. The texts of the exceptions are kept as
-- the path of the setting and the kind of problem.
use Prim.Native.String.{String}
use ironpulse.Prelude.{◌≡◌, ◌≢◌, refl, ℕ, Bool, true, false, List, [], ◌∷◌, ◌++◌}

pub data Part : Type 0 where
  field : String → Part
  element : ℕ → Part

pub data Problem : Type 0 where
  expected_integer expected_number expected_finite expected_string expected_boolean : Problem
  expected_object expected_array expected_entries expected_root : Problem
  out_of_range : ℕ → ℕ → Problem
  unknown_value : String → Problem
  invalid_id : String → Problem
  not_above_zero is_negative is_zero not_in_unit_interval low_not_below_high : Problem
  needs_mean_and_stddev past_last_register is_required : Problem
  bad_port same_port bad_workers no_retention : Problem
  duplicate_device duplicate_sensor : String → Problem
  not_power_of_two batch_above_queue no_directory no_segment_size budget_too_small : Problem

pub record Failure : Type 0 where
  pub path : List Part
  pub problem : Problem

pub data Result {ℓ} (A : Type ℓ) : Type ℓ where
  failed : Failure → Result A
  done : A → Result A

infixl 5 ◌>>=◌ ◌>>◌
abbrev pub ◌>>=◌ {ℓ κ} : {A : Type ℓ} {B : Type κ} → Result A → (A → Result B) → Result B
failed e >>= f = failed e
done a >>= f = f a

abbrev pub ◌>>◌ {ℓ} : {B : Type ℓ} → Result (Unit {0}) → Result B → Result B
m >> k = m >>= λ _. k

abbrev pub fail {ℓ} : {A : Type ℓ} → List Part → Problem → Result A
fail path problem = failed (record { path = path; problem = problem })

-- `if (!ok) fail(path, problem);`
abbrev pub check : Bool → List Part → Problem → Result (Unit {0})
check true path problem = done tt
check false path problem = fail path problem

abbrev pub join_path : List Part → String → List Part
join_path base key = base ++ (field key ∷ [])

pub failed_ne_done : {A : Type 0} {e : Failure} {a : A} → failed e ≢ done a
failed_ne_done h = cc

-- A chain that succeeds has first steps that succeed.
pub bind_done :
    {A B : Type 0} (m : Result A) (f : A → Result B) {b : B}
    → m >>= f ≡ done b
    → (a : A) × (m ≡ done a) × (f a ≡ done b)
bind_done (failed e) f h = absurd (failed_ne_done h)
bind_done (done a) f h = (a, refl, h)

pub check_done :
    {B : Type 0} (ok : Bool) (path : List Part) (problem : Problem) (rest : Result B) {b : B}
    → check ok path problem >> rest ≡ done b
    → (ok ≡ true) × (rest ≡ done b)
check_done true path problem rest h = (refl, h)
check_done false path problem rest h = absurd (failed_ne_done h)

pub done-injective : {A : Type 0} {a b : A} → done a ≡ done b → a ≡ b
done-injective h = cc

pub check_holds :
    (ok : Bool) (path : List Part) (problem : Problem) → check ok path problem ≡ done tt → ok ≡ true
check_holds true path problem h = refl
check_holds false path problem h = absurd (failed_ne_done h)

pub then_done :
    {B : Type 0} (m : Result (Unit {0})) (rest : Result B) {b : B}
    → m >> rest ≡ done b
    → (m ≡ done tt) × (rest ≡ done b)
then_done (failed e) rest h = absurd (failed_ne_done h)
then_done (done a) rest h = (refl, h)
