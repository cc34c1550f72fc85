-- ===== src/Manager/Queries.antt =====
-- src/core/manager.cpp: `IsExtensionLoaded`, the two `FindExtension` and the filters. A constraint
-- is a test of a version.
use Prim.Native.String.{String}
use text.Mathlib.Text.{◌==◌ as str_eq}
use plugify.Prelude.{
  ℕ, Bool, true, false, Option, none, some, List, [], ◌∷◌, ◌==◌, if◌then◌else◌, find_if,
}
use plugify.Version.Types.{Version}
use plugify.Extension.State.{ExtensionState, same_state}
use plugify.Extension.Core.{Extension}
use plugify.Manager.Core.{Manager}

unfoldable pub find_extension : String → Manager → Option Extension
find_extension name m = find_if (λ e. str_eq e.name name) m.extensions

unfoldable pub find_extension_by_id : ℕ → Manager → Option Extension
find_extension_by_id id m = find_if (λ e. e.id == id) m.extensions

abbrev pub satisfies : Option (Version → Bool) → Extension → Bool
satisfies none e = true
satisfies (some contains) e = contains e.version

abbrev pub found_satisfying : Option (Version → Bool) → Option Extension → Bool
found_satisfying c none = false
found_satisfying c (some e) = satisfies c e

unfoldable pub is_extension_loaded : String → Option (Version → Bool) → Manager → Bool
unfolding find_extension
is_extension_loaded name c m = found_satisfying c (find_extension name m)

unfoldable pub select : (Extension → Bool) → List Extension → List Extension
select p [] = []
select p (e ∷ es) = let rest = select p es in if p e then e ∷ rest else rest

unfoldable pub get_extensions_by_state : ExtensionState → Manager → List Extension
unfolding select
get_extensions_by_state s m = select (λ e. same_state e.state s) m.extensions
