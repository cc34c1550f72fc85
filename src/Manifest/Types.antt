-- ===== src/Manifest/Types.antt =====
-- src/core/*_impl.hpp and include/plugify/manifest.hpp: the parts of a manifest that `Validate` and
-- `Resolve` read. A prototype or an enum is a shared object: properties and tables hold its address, and
-- a heap holds its value.
use Prim.Native.String.{String}
use plugify.Prelude.{ℕ, Bool, Option, none, some, List}
use plugify.Prelude.Int.{ℤ}

-- include/plugify/value_type.hpp: a type by the number of its enumerator.
abbrev pub ValueType : Type 0
ValueType = ℕ

abbrev pub void_type : ValueType
void_type = 1

abbrev pub function_type : ValueType
function_type = 16

pub record Value : Type 0 where
  pub name : String
  pub value : ℤ

pub record Enum : Type 0 where
  pub name : String
  pub values : List Value

-- `Definition<T>`: the null pointer of an absent field, a name, or the address of a definition.
pub data Definition : Type 0 where
  absent : Definition
  named : String → Definition
  defined : ℕ → Definition

-- `DefinitionOf`.
unfoldable pub definition_of : Definition → Option ℕ
definition_of absent = none
definition_of (named name) = none
definition_of (defined p) = some p

pub record Property : Type 0 where
  pub type : ValueType
  pub ref : Option Bool
  pub prototype : Definition
  pub enumerate : Definition

-- A method, or a prototype.
pub record Method : Type 0 where
  pub param_types : List Property
  pub ret_type : Property
  pub name : String
  pub func_name : String
  pub call_conv : Option ℕ
  pub var_index : Option ℕ

-- `Signature::kNoVarArgs`.
abbrev pub no_var_args : ℕ
no_var_args = 0xFF

pub record Binding : Type 0 where
  pub name : String
  pub bind_self : Option Bool

pub record Class : Type 0 where
  pub name : String
  pub handle_type : Option ValueType
  pub constructors : Option (List String)
  pub destructor : Option String
  pub bindings : List Binding

-- An optional vector that is absent is empty here: both functions only loop over it.
pub record Manifest : Type 0 where
  pub methods : List Method
  pub prototypes : List ℕ
  pub enums : List ℕ
  pub classes : List Class

pub record Heap : Type 0 where
  pub method_at : ℕ → Method
  pub enum_at : ℕ → Enum
