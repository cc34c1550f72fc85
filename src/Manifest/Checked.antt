-- ===== src/Manifest/Checked.antt =====
-- The result of a check, with the error that src/core/manifest.cpp reports, by its format.
use Prim.Native.String.{String}
use plugify.Prelude.{ℕ, Bool, true, false, ◌≡◌, refl, ◌↔◌}

-- `Where`: a scope, or a parameter or the return type of a method within another place.
pub data Where : Type 0 where
  scope : String → Where
  at_param : Where → String → ℕ → Where
  at_return : Where → String → Where

pub data ManifestError : Type 0 where
  duplicate_value : String → String → ManifestError
  void_parameter : Where → ManifestError
  unresolved_prototype unresolved_enum : Where → String → ManifestError
  function_without_prototype : Where → ManifestError
  var_index_out_of_range : String → String → ManifestError
  handleless_members : String → ManifestError
  duplicate_binding : String → String → ManifestError
  handleless_bind_self : String → String → ManifestError
  duplicate_method duplicate_function duplicate_class : String → ManifestError
  unnamed_definition : Where → String → ManifestError
  conflicting_definitions : Where → String → String → ManifestError
  unknown_definition : Where → String → String → ManifestError
  reference_cycle : String → ManifestError

pub data Checked {ℓ} (A : Type ℓ) : Type ℓ where
  ok : A → Checked A
  err : ManifestError → Checked A

infixl 5 ◌>>=◌ ◌>>◌
abbrev pub ◌>>=◌ {ℓ κ} : {A : Type ℓ} {B : Type κ} → Checked A → (A → Checked B) → Checked B
ok a >>= f = f a
err e >>= f = err e

abbrev pub ◌>>◌ {ℓ} : {B : Type ℓ} → Checked (Unit {0}) → Checked B → Checked B
m >> k = m >>= λ _. k

abbrev pub guard : Bool → ManifestError → Checked (Unit {0})
guard true e = ok tt
guard false e = err e

-- When checks pass.
abbrev pub Passes : Checked (Unit {0}) → Type 0
Passes m = m ≡ ok tt

pub guard-Passes : (b : Bool) (e : ManifestError) → Passes (guard b e) ↔ (b ≡ true)
guard-Passes true e = (λ _. refl, λ _. refl)
guard-Passes false e = (λ h. cc, λ h. cc)

pub both-Pass : (m k : Checked (Unit {0})) → Passes (m >> k) ↔ (Passes m × Passes k)
both-Pass (ok tt) k = (λ h. (refl, h), λ h. h.1)
both-Pass (err e) k = (λ h. absurd (cc h), λ h. absurd (cc (h.0)))
