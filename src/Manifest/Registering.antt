-- ===== src/Manifest/Registering.antt =====
-- src/core/manifest.cpp: `SameDefinition` and `Register`, with which pass one of `Manifest::Resolve` puts
-- every definition into the table once. The walk that calls `Register` is not modelled.
pub mod Shared
mod Tests
use Prim.Native.String.{String}
use text.Mathlib.Text.{◌==◌ as str_eq}
use plugify.Prelude.{
  ℕ, Bool, true, false, ◌&&◌, ◌||◌, not, Option, none, some, List, [], ◌∷◌, ◌==◌, if◌then◌else◌,
}
use plugify.Prelude.Int.{ℤ, pos, negsuc}
use plugify.Stages.Shared.{find_text, insert_text}
use plugify.Manifest.Types.{Definition, absent, named, defined, Property, Value, Enum, Method, Heap}
use plugify.Manifest.Validate.{value_or}
use plugify.Manifest.Checked.{Where, unnamed_definition, conflicting_definitions, Checked, ok, err}

-- `DefinitionName`; a null pointer has the empty name.
abbrev pub definition_name : (ℕ → String) → Definition → String
definition_name names absent = ""
definition_name names (named name) = name
definition_name names (defined p) = names p

-- std::ranges::equal.
unfoldable pub ranges_equal : {A : Type 0} → (A → A → Bool) → List A → List A → Bool
ranges_equal same [] [] = true
ranges_equal same [] (b ∷ bs) = false
ranges_equal same (a ∷ as') [] = false
ranges_equal same (a ∷ as') (b ∷ bs) = same a b && ranges_equal same as' bs

abbrev pub same_bool : Bool → Bool → Bool
same_bool true b = b
same_bool false b = not b

abbrev pub same_number : Option ℕ → Option ℕ → Bool
same_number none none = true
same_number none (some b) = false
same_number (some a) none = false
same_number (some a) (some b) = a == b

abbrev pub same_int : ℤ → ℤ → Bool
same_int (pos a) (pos b) = a == b
same_int (pos a) (negsuc b) = false
same_int (negsuc a) (pos b) = false
same_int (negsuc a) (negsuc b) = a == b

-- `SameDefinition` of two properties, of two enums and of two methods.
unfoldable pub same_property : Heap → Property → Property → Bool
same_property h a b =
    a.type == b.type
    && (same_bool (value_or a.ref false) (value_or b.ref false)
        && (str_eq (definition_name (λ p. (h.method_at p).name) a.prototype)
              (definition_name (λ p. (h.method_at p).name) b.prototype)
            && str_eq (definition_name (λ p. (h.enum_at p).name) a.enumerate)
                (definition_name (λ p. (h.enum_at p).name) b.enumerate)))

unfoldable pub same_enum : Enum → Enum → Bool
unfolding ranges_equal
same_enum a b =
    ranges_equal (λ v w. str_eq v.name w.name && same_int v.value w.value) a.values b.values

unfoldable pub same_method : Heap → Method → Method → Bool
unfolding ranges_equal same_property
same_method h a b =
    if not (str_eq a.func_name b.func_name)
      || (not (same_number a.call_conv b.call_conv) || not (same_number a.var_index b.var_index))
    then false
    else (if not (same_property h a.ret_type b.ret_type)
        then false
        else ranges_equal (same_property h) a.param_types b.param_types)

-- What `Register` gives: whether the definition is new, the definition that stands for it, and the table.
abbrev pub Registered : Type 0
Registered = Bool × Definition × List (String × ℕ)

module _ (names : ℕ → String) (same : ℕ → ℕ → Bool) (type : String) (context : Where) where
  abbrev pub register_entry : Option ℕ → ℕ → List (String × ℕ) → Checked Registered
  register_entry none p table = ok (true, defined p, insert_text (names p) p table)
  register_entry (some q) p table =
      if not (q == p) && not (same q p)
      then err (conflicting_definitions context type (names p))
      else ok (false, defined q, table)

  -- `Register`.
  unfoldable pub register : Definition → List (String × ℕ) → Checked Registered
  register absent table = ok (false, absent, table)
  register (named name) table = ok (false, named name, table)
  register (defined p) table =
      if str_eq (names p) ""
      then err (unnamed_definition context type)
      else register_entry (find_text (names p) table) p table

-- `Register` with the table of prototypes, and with that of enums.
abbrev pub register_prototype : Heap → Where → Definition → List (String × ℕ) → Checked Registered
register_prototype h =
    register (λ p. (h.method_at p).name) (λ q p. same_method h (h.method_at q) (h.method_at p))
      "prototype"

abbrev pub register_enum : Heap → Where → Definition → List (String × ℕ) → Checked Registered
register_enum h =
    register (λ p. (h.enum_at p).name) (λ q p. same_enum (h.enum_at q) (h.enum_at p)) "enum"
