-- ===== src/Manifest/Validity.antt =====
-- `Manifest::Validate` accepts exactly the valid manifests.
use Prim.Native.String.{String}
use plugify.Prelude.{
  ℕ, suc, ◌≡◌, ◌≢◌, refl, ◌↔◌, ◌⊎◌, inl, inr, Bool, true, false, ◌&&◌, not, Option, none, some,
  List, [], ◌∷◌, All, arith, Bool-cases, ==_iff, ltb_iff, length, ◌==◌,
}
use plugify.Manifest.Types.{
  ValueType, void_type, function_type, Definition, absent, named, defined, definition_of, Property,
  Method, no_var_args,
}
use plugify.Manifest.Checked.{
  Where, ManifestError, guard, Passes, guard-Passes, both-Pass, scope, at_param, at_return,
}
use plugify.Manifest.Validate.{
  has_value, is_linked, validate_property, validate_params, is_var_index, validate_method,
}
use plugify.Manifest.Valid.{IsLinked, IsDefined, IsUsable, IsVarIndex, IsParameter, IsSignature}
use plugify.Manifest.Uniqueness.{guard_then}

is_linked_iff : (d : Definition) (e : String → ManifestError) → Passes (is_linked d e) ↔ IsLinked d
is_linked_iff absent e = (λ _. tt, λ _. refl)
is_linked_iff (named name) e = (λ h. absurd (cc h), λ h. absurd h)
is_linked_iff (defined p) e = (λ _. tt, λ _. refl)

==_false : (a b : ℕ) → ((a == b) ≡ false) ↔ (a ≢ b)
==_false a b = ground arith

-- The last check of a property, where it has no prototype.
undefined_iff : (t : ValueType) → ((t == function_type && true) ≡ false) ↔ ((t ≢ function_type) ⊎ ⊥)
undefined_iff t = (
  λ h. inl ((==_false t function_type).0 (ground arith)),
  λ h. elim h [ inl k ↦ (let e = (==_false t function_type).1 k in rw e refl) | inr k ↦ absurd k ],
)

function_iff :
    (t : ValueType) (d : Definition)
    → ((t == function_type && not (has_value (definition_of d))) ≡ false)
      ↔ ((t ≢ function_type) ⊎ IsDefined d)
unfolding definition_of
function_iff t absent = undefined_iff t
function_iff t (named n) = undefined_iff t
function_iff t (defined p) = (λ h. inr tt, λ h. ground arith)

not-guard : (b : Bool) (e : ManifestError) → Passes (guard (not b) e) ↔ (b ≡ false)
not-guard true e = (λ h. absurd (cc h), λ h. absurd (cc h))
not-guard false e = (λ _. refl, λ _. refl)

-- The checks of a property behind the one on void.
IsUsable-iff : (p : Property) (w : Where) → Passes (validate_property p w false) ↔ IsUsable p
unfolding validate_property
IsUsable-iff p w =
    let protos = is_linked_iff p.prototype in
    let enums = is_linked_iff p.enumerate in
    let function = function_iff p.type p.prototype in
    (
      λ h.
          (let (a, b) = (both-Pass (is_linked p.prototype _) _).0 h in
            let (c, d) = (both-Pass (is_linked p.enumerate _) _).0 b in
            record {
              prototype_linked = (protos _).0 a;
              enum_linked = (enums _).0 c;
              function_defined = function.0 ((not-guard _ _).0 d);
            }),
      λ u. (both-Pass (is_linked p.prototype _) _).1 (
        (protos _).1 u.prototype_linked,
        (both-Pass (is_linked p.enumerate _) _).1
            ((enums _).1 u.enum_linked, (not-guard _ _).1 (function.1 u.function_defined)),
      ),
    )

IsParameter-iff : (p : Property) (w : Where) → Passes (validate_property p w true) ↔ IsParameter p
unfolding validate_property
IsParameter-iff p w =
    let void = ==_false p.type void_type in
    let step = guard_then (p.type == void_type) _ (validate_property p w false) in
    let rest = IsUsable-iff p w in
    (λ h. (let (a, b) = step.0 h in (void.0 a, rest.0 b)), λ (a, b). step.1 (void.1 a, rest.1 b))

params_iff :
    (prefix name : String) (i : ℕ) (ps : List Property)
    → Passes (validate_params prefix name i ps) ↔ All IsParameter ps
unfolding validate_params
params_iff prefix name i [] = (λ _. tt, λ _. refl)
params_iff prefix name i (p ∷ ps) =
    let step =
      both-Pass (validate_property p (at_param (scope prefix) name i) true)
        (validate_params prefix name (suc i) ps) in
    let first = IsParameter-iff p (at_param (scope prefix) name i) in
    let rest = params_iff prefix name (suc i) ps in
    (λ h. (let (a, b) = step.0 h in (first.0 a, rest.0 b)), λ (a, b). step.1 (first.1 a, rest.1 b))

IsVarIndex-iff : (o : Option ℕ) (n : ℕ) → (is_var_index o n ≡ true) ↔ IsVarIndex o n
IsVarIndex-iff none n = (λ _. tt, λ _. refl)
IsVarIndex-iff (some i) n = (
  λ h. elim (Bool-cases (i == no_var_args)) [
    | inl e ↦ inl ((==_iff i no_var_args).0 e)
    | inr e ↦ inr ((ltb_iff i n).0 (rw e at h))
  ],
  λ h. elim h [
    | inl e ↦ (let k = (==_iff i no_var_args).1 e in rw k refl)
    | inr e ↦ (let k = (ltb_iff i n).1 e in ground arith)
  ],
)

pub validate_method_iff :
    (m : Method) (prefix : String) → Passes (validate_method m prefix) ↔ IsSignature m
unfolding validate_method
validate_method_iff m prefix =
    let index = guard-Passes (is_var_index m.var_index (length m.param_types)) _ in
    let valid = IsVarIndex-iff m.var_index (length m.param_types) in
    let params = params_iff prefix m.name 0 m.param_types in
    let result = IsUsable-iff m.ret_type (at_return (scope prefix) m.name) in
    let first = both-Pass (guard (is_var_index m.var_index (length m.param_types)) _) _ in
    let second = both-Pass (validate_params prefix m.name 0 m.param_types) _ in
    (
      λ h.
          (let (a, b) = first.0 h in
            let (c, d) = second.0 b in
            record {
              var_index_valid = valid.0 (index.0 a);
              params_valid = params.0 c;
              return_valid = result.0 d;
            }),
      λ s. first.1 (
        index.1 (valid.1 s.var_index_valid),
        second.1 (params.1 s.params_valid, result.1 s.return_valid),
      ),
    )
