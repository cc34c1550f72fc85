-- ===== src/Extension/Core.antt =====
-- src/core/extension.cpp: `Extension::Impl` and its operations. Paths, the name and the language are
-- texts; a language module is known by a handle; a message is a constructor. The assertion of
-- `SetState` is kept as a flag: a debug build stops at it, a release build goes on.
use Prim.Native.String.{String}
use plugify.Prelude.{
  ℕ, Bool, false, ◌&&◌, not, Option, none, List, [], ◌∷◌, ◌++◌, if◌then◌else◌, empty, ◌+◌,
}
use plugify.Version.Types.{Version}
use plugify.Extension.State.{
  ExtensionState, ExtensionType, same_state, is_module, is_plugin, is_valid_transition,
}

pub record MethodTable : Type 0 where
  pub has_update : Bool
  pub has_start : Bool
  pub has_end : Bool
  pub has_export : Bool

abbrev pub no_methods : MethodTable
no_methods = record { has_update = false; has_start = false; has_end = false; has_export = false }

-- The texts that the program puts together, by their formats.
pub data Message : Type 0 where
  excluded_by_policy module_not_available method_count_mismatch unknown_extension_type : Message
  language_module_missing language_module_not_found : String → Message
  skipped_dependency dependency_failed : ℕ → Message
  took_long : ExtensionState → ℕ → Message
  invalid_methods : List ℕ → Message
  out_of_memory unknown_exception null_pointer null_language_module : Message
  call_failed : String → Message
  already_initialized nothing_to_resolve no_loading_order nothing_to_load pipeline_failed : Message
  -- A message of a part that is not modelled: a file system, a parser, a solver, an assembly.
  foreign : String → Message

pub data Result {ℓ} (A : Type ℓ) : Type ℓ where
  ok : A → Result A
  err : Message → Result A

-- A method of the manifest; the address of a loaded method is null or not.
pub record Extension : Type 0 where
  pub id : ℕ
  pub type : ExtensionType
  pub state : ExtensionState
  pub name : String
  pub version : Version
  pub language : String
  pub runtime : String
  pub platforms : List String
  pub methods : List ℕ
  pub dependencies : List String
  pub method_table : MethodTable
  pub user_data : Option ℕ
  pub language_module : Option ℕ
  pub assembly : Option ℕ
  pub methods_data : List (ℕ × Bool)
  pub timepoints : List (ExtensionState × ℕ)
  pub errors : List Message
  pub warnings : List Message
  pub asserts_hold : Bool

-- `SetState`.
unfoldable pub set_state : ExtensionState → Extension → Extension
set_state to e = record e {
  state = to;
  asserts_hold = e.asserts_hold && is_valid_transition e.state to;
}

-- `timepoints[state] = duration` of the std::map.
unfoldable pub set_timepoint :
    ExtensionState → ℕ → List (ExtensionState × ℕ) → List (ExtensionState × ℕ)
set_timepoint s t [] = (s, t) ∷ []
set_timepoint s t ((r, u) ∷ rest) =
    if same_state r s then (s, t) ∷ rest else (r, u) ∷ set_timepoint s t rest

-- `StartOperation` also notes the time, which is read only by the `EndOperation` that follows; the
-- time between the two is an argument here.
unfoldable pub start_operation : ExtensionState → Extension → Extension
unfolding set_state
start_operation to e = set_state to e

unfoldable pub end_operation : ExtensionState → ℕ → Extension → Extension
unfolding set_state set_timepoint
end_operation to duration e =
    set_state to (record e { timepoints = set_timepoint e.state duration e.timepoints })

-- `GetOperationTime`: zero where the state has no entry.
unfoldable pub get_operation_time : ExtensionState → List (ExtensionState × ℕ) → ℕ
get_operation_time s [] = 0
get_operation_time s ((r, t) ∷ rest) = if same_state r s then t else get_operation_time s rest

-- `GetTotalTime`.
unfoldable pub get_total_time : List (ExtensionState × ℕ) → ℕ
get_total_time [] = 0
get_total_time ((r, t) ∷ rest) = t + get_total_time rest

unfoldable pub add_error : Message → Extension → Extension
add_error m e = record e { errors = e.errors ++ m ∷ [] }

unfoldable pub add_warning : Message → Extension → Extension
add_warning m e = record e { warnings = e.warnings ++ m ∷ [] }

-- `HasErrors` and `HasWarnings`.
unfoldable pub has_errors : Extension → Bool
has_errors e = not (empty e.errors)

unfoldable pub has_warnings : Extension → Bool
has_warnings e = not (empty e.warnings)

-- `AddDependency` on the names of the dependencies.
unfoldable pub add_dependency : String → Extension → Extension
add_dependency d e = record e { dependencies = e.dependencies ++ d ∷ [] }

-- The setters that do nothing to an extension of the other type.
unfoldable pub set_methods_data : List (ℕ × Bool) → Extension → Extension
set_methods_data ms e = if is_plugin e.type then record e { methods_data = ms } else e

unfoldable pub set_assembly : Option ℕ → Extension → Extension
set_assembly a e = if is_module e.type then record e { assembly = a } else e

-- `GetMethods`, `GetMethodsData` and `GetAssembly`, which are empty for the other type.
unfoldable pub get_methods : Extension → List ℕ
get_methods e = if is_plugin e.type then e.methods else []

unfoldable pub get_methods_data : Extension → List (ℕ × Bool)
get_methods_data e = if is_plugin e.type then e.methods_data else []

unfoldable pub get_assembly : Extension → Option ℕ
get_assembly e = if is_module e.type then e.assembly else none
