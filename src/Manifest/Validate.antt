-- ===== src/Manifest/Validate.antt =====
-- src/core/manifest.cpp: `Manifest::Validate` and the functions that it calls. A set of names is the list
-- of the names that were inserted.
use Prim.Native.String.{String}
use plugify.Prelude.{
  ℕ, suc, Bool, true, false, ◌&&◌, ◌||◌, not, Option, none, some, List, [], ◌∷◌, ◌==◌, ltb, length,
}
use plugify.Stages.Shared.{contains_text}
use plugify.Manifest.Types.{
  void_type, function_type, Value, Enum, Definition, absent, named, defined, definition_of,
  Property, Method, no_var_args, Binding, Class, Manifest, Heap,
}
use plugify.Manifest.Checked.{
  Where, scope, at_param, at_return, ManifestError, duplicate_value, void_parameter,
  unresolved_prototype, unresolved_enum, function_without_prototype, var_index_out_of_range,
  handleless_members, duplicate_binding, handleless_bind_self, duplicate_method, duplicate_function,
  duplicate_class, Checked, ok, err, ◌>>◌, guard,
}

unfoldable pub validate_values : String → List String → List Value → Checked (Unit {0})
validate_values enum_name seen [] = ok tt
validate_values enum_name seen (v ∷ vs) =
    guard (not (contains_text seen v.name)) (duplicate_value v.name enum_name)
    >> validate_values enum_name (v.name ∷ seen) vs

-- `ValidateEnum`.
unfoldable pub validate_enum : Enum → Checked (Unit {0})
unfolding validate_values
validate_enum e = validate_values e.name [] e.values

abbrev pub has_value {ℓ} : {A : Type ℓ} → Option A → Bool
has_value none = false
has_value (some a) = true

-- The two checks for a reference that is still a name.
abbrev pub is_linked : Definition → (String → ManifestError) → Checked (Unit {0})
is_linked absent e = ok tt
is_linked (named name) e = err (e name)
is_linked (defined p) e = ok tt

-- `ValidateProperty`.
unfoldable pub validate_property : Property → Where → Bool → Checked (Unit {0})
unfolding definition_of
validate_property prop context param =
    guard (not (param && prop.type == void_type)) (void_parameter context)
    >> (is_linked prop.prototype (unresolved_prototype context)
        >> (is_linked prop.enumerate (unresolved_enum context)
            >> guard
                (not (prop.type == function_type && not (has_value (definition_of prop.prototype))))
                (function_without_prototype context)))

unfoldable pub validate_params : String → String → ℕ → List Property → Checked (Unit {0})
unfolding validate_property
validate_params prefix name i [] = ok tt
validate_params prefix name i (p ∷ ps) =
    validate_property p (at_param (scope prefix) name i) true
    >> validate_params prefix name (suc i) ps

abbrev pub is_var_index : Option ℕ → ℕ → Bool
is_var_index none n = true
is_var_index (some i) n = i == no_var_args || ltb i n

-- `ValidateMethod`.
unfoldable pub validate_method : Method → String → Checked (Unit {0})
unfolding validate_params validate_property
validate_method m prefix =
    guard (is_var_index m.var_index (length m.param_types)) (var_index_out_of_range prefix m.name)
    >> (validate_params prefix m.name 0 m.param_types
        >> validate_property m.ret_type (at_return (scope prefix) m.name) false)

abbrev pub value_or {ℓ} : {A : Type ℓ} → Option A → A → A
value_or none a = a
value_or (some b) a = b

abbrev pub is_handleless : Class → Bool
is_handleless c = value_or c.handle_type void_type == void_type

unfoldable pub validate_bindings : String → Bool → List String → List Binding → Checked (Unit {0})
validate_bindings class_name handleless seen [] = ok tt
validate_bindings class_name handleless seen (b ∷ bs) =
    guard (not (contains_text seen b.name)) (duplicate_binding class_name b.name)
    >> (guard (not (handleless && value_or b.bind_self false))
          (handleless_bind_self class_name b.name)
        >> validate_bindings class_name handleless (b.name ∷ seen) bs)

-- `ValidateClass`.
unfoldable pub validate_class : Class → Checked (Unit {0})
unfolding validate_bindings
validate_class c =
    guard (not (is_handleless c && (has_value c.constructors || has_value c.destructor)))
      (handleless_members c.name)
    >> validate_bindings c.name (is_handleless c) [] c.bindings

-- The four loops of `Manifest::Validate`.
unfoldable pub validate_methods : List String → List String → List Method → Checked (Unit {0})
unfolding validate_method
validate_methods names functions [] = ok tt
validate_methods names functions (m ∷ ms) =
    guard (not (contains_text names m.name)) (duplicate_method m.name)
    >> (guard (not (contains_text functions m.func_name)) (duplicate_function m.func_name)
        >> (validate_method m "Method"
            >> validate_methods (m.name ∷ names) (m.func_name ∷ functions) ms))

unfoldable pub validate_prototypes : Heap → List ℕ → Checked (Unit {0})
unfolding validate_method
validate_prototypes h [] = ok tt
validate_prototypes h (p ∷ ps) =
    validate_method (h.method_at p) "Prototype" >> validate_prototypes h ps

unfoldable pub validate_enums : Heap → List ℕ → Checked (Unit {0})
unfolding validate_enum
validate_enums h [] = ok tt
validate_enums h (p ∷ ps) = validate_enum (h.enum_at p) >> validate_enums h ps

unfoldable pub validate_classes : List String → List Class → Checked (Unit {0})
unfolding validate_class
validate_classes names [] = ok tt
validate_classes names (c ∷ cs) =
    guard (not (contains_text names c.name)) (duplicate_class c.name)
    >> (validate_class c >> validate_classes (c.name ∷ names) cs)

unfoldable pub validate : Heap → Manifest → Checked (Unit {0})
unfolding validate_methods validate_prototypes validate_enums validate_classes
validate h m =
    validate_methods [] [] m.methods
    >> (validate_prototypes h m.prototypes
        >> (validate_enums h m.enums >> validate_classes [] m.classes))
