-- ===== src/Manifest/Valid.antt =====
-- What a valid manifest is, said without the order of the checks.
use Prim.Native.String.{String}
use plugify.Prelude.{
  ℕ, ◌≡◌, ◌≢◌, ◌<◌, ◌⊎◌, true, Option, none, some, List, [], ◌∷◌, map, All, length,
}
use plugify.Manifest.Types.{
  ValueType, void_type, function_type, Definition, absent, named, defined, Property, Method,
  no_var_args, Class, Manifest, Heap,
}

-- No text stands twice in the list.
abbrev pub Distinct : List String → Type 0
Distinct [] = Unit
Distinct (x ∷ xs) = All (λ y. x ≢ y) xs × Distinct xs

abbrev pub IsLinked : Definition → Type 0
IsLinked absent = Unit
IsLinked (named name) = ⊥
IsLinked (defined p) = Unit

abbrev pub IsDefined : Definition → Type 0
IsDefined absent = ⊥
IsDefined (named name) = ⊥
IsDefined (defined p) = Unit

-- A property that can be marshalled: its references are linked, and a function has a prototype.
pub record IsUsable (p : Property) : Type 0 where
  pub prototype_linked : IsLinked p.prototype
  pub enum_linked : IsLinked p.enumerate
  pub function_defined : (p.type ≢ function_type) ⊎ IsDefined p.prototype

abbrev pub IsVarIndex : Option ℕ → ℕ → Type 0
IsVarIndex none n = Unit
IsVarIndex (some i) n = (i ≡ no_var_args) ⊎ (i < n)

abbrev pub IsParameter : Property → Type 0
IsParameter p = (p.type ≢ void_type) × IsUsable p

pub record IsSignature (m : Method) : Type 0 where
  pub var_index_valid : IsVarIndex m.var_index (length m.param_types)
  pub params_valid : All IsParameter m.param_types
  pub return_valid : IsUsable m.ret_type

abbrev pub IsHandle : Option ValueType → Type 0
IsHandle none = ⊥
IsHandle (some t) = t ≢ void_type

abbrev pub HasNoMembers : Class → Type 0
HasNoMembers c =
    (c.constructors ≡ none) × (c.destructor ≡ none) × All (λ b. b.bind_self ≢ some true) c.bindings

-- A class without a handle is a namespace.
pub record IsValidClass (c : Class) : Type 0 where
  pub bindings_distinct : Distinct (map (λ b. b.name) c.bindings)
  pub handle_or_namespace : IsHandle c.handle_type ⊎ HasNoMembers c

pub record IsValidManifest (h : Heap) (m : Manifest) : Type 0 where
  pub methods_distinct : Distinct (map (λ x. x.name) m.methods)
  pub functions_distinct : Distinct (map (λ x. x.func_name) m.methods)
  pub methods_valid : All IsSignature m.methods
  pub prototypes_valid : All (λ p. IsSignature (h.method_at p)) m.prototypes
  pub values_distinct : All (λ p. Distinct (map (λ v. v.name) (h.enum_at p).values)) m.enums
  pub classes_distinct : Distinct (map (λ c. c.name) m.classes)
  pub classes_valid : All IsValidClass m.classes
