-- ===== src/Manifest/Tests.antt =====
-- Runs of `Manifest::Validate`.
use Prim.Native.String.{String}
use plugify.Prelude.{◌≡◌, ◌↔◌, refl, true, none, some, List, [], ◌∷◌}
use plugify.Prelude.Int.{pos}
use plugify.Manifest.Types.{
  Definition, absent, named, defined, Property, Method, Class, Manifest, Heap, ValueType, void_type,
  function_type, no_var_args,
}
use plugify.Manifest.Checked.{
  scope, at_param, Passes, ok, err, duplicate_function, void_parameter, unresolved_prototype,
}
use plugify.Manifest.Validate.{validate}
use plugify.Manifest.Valid.{IsValidManifest}
use plugify.Manifest.Acceptance.{validate_iff}

abbrev property : ValueType → Definition → Definition → Property
property t p e = record { type = t; ref = none; prototype = p; enumerate = e }

abbrev method : String → String → List Property → Method
method name func params = record {
  param_types = params;
  ret_type = property void_type absent absent;
  name = name;
  func_name = func;
  call_conv = none;
  var_index = some no_var_args;
}

abbrev heap : Heap
heap = record {
  method_at = λ p. method "Handler" "" (property 8 absent (defined 0) ∷ []);
  enum_at = λ p. record {
    name = "Result";
    values = record { name = "Stop"; value = pos 0 } ∷ record { name = "Go"; value = pos 1 } ∷ [];
  };
}

abbrev entity : Class
entity = record {
  name = "Entity";
  handle_type = some 12;
  constructors = some ("Create" ∷ []);
  destructor = none;
  bindings = record { name = "Kill"; bind_self = some true } ∷ [];
}

abbrev exporting : List Method → Manifest
exporting methods = record {
  methods = methods;
  prototypes = 0 ∷ [];
  enums = 0 ∷ [];
  classes = entity ∷ [];
}

abbrev hook : Method
hook = method "Hook" "Lib_Hook" (property function_type (defined 0) absent ∷ [])

accepted : validate heap (exporting (hook ∷ [])) ≡ ok tt
unfolding validate
accepted = refl

-- Two methods that export the same function.
function_twice :
    validate heap (exporting (hook ∷ method "Unhook" "Lib_Hook" [] ∷ []))
    ≡ err (duplicate_function "Lib_Hook")
unfolding validate
function_twice = refl

void_refused :
    validate heap
      (exporting (method "Hook" "Lib_Hook" (property void_type absent absent ∷ []) ∷ []))
    ≡ err (void_parameter (at_param (scope "Method") "Hook" 0))
unfolding validate
void_refused = refl

name_refused :
    validate heap (
      exporting
        (method "Hook" "Lib_Hook" (property function_type (named "Handler") absent ∷ []) ∷ []))
    ≡ err (unresolved_prototype (at_param (scope "Method") "Hook" 0) "Handler")
unfolding validate
name_refused = refl

validate_iff_example :
    Passes (validate heap (exporting (hook ∷ []))) ↔ IsValidManifest heap (exporting (hook ∷ []))
validate_iff_example = validate_iff heap (exporting (hook ∷ []))
