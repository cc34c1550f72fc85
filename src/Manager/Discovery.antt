-- ===== src/Manager/Discovery.antt =====
-- src/core/manager.cpp: `DiscoverExtensions`, over a listing of directories. The stack of directories
-- has its top at the head of the list.
use Prim.Native.String.{String}
use text.Mathlib.Text.{◌==◌ as str_eq}
use plugify.Prelude.{
  ℕ, zero, suc, Bool, true, false, Option, none, some, List, [], ◌∷◌, ◌++◌, reverse, if◌then◌else◌,
  any_of,
}
use plugify.Extension.State.{ExtensionType, unknown_type, module_type, plugin_type, discovered}
use plugify.Extension.Core.{Extension, no_methods}
use plugify.Version.Types.{initial}

-- What `ListDirectory` tells of an entry: a file with the type that `GetExtensionType` reads off its
-- extension, a directory with its name, or something else.
pub data Entry : Type 0 where
  file : String → ExtensionType → Entry
  directory : String → String → Entry
  other : Entry

abbrev pub is_manifest : ExtensionType → Bool
is_manifest unknown_type = false
is_manifest module_type = true
is_manifest plugin_type = true

-- The first pass over the entries: the manifests, and the subdirectories that are not excluded.
unfoldable pub manifests : List Entry → List (String × ExtensionType)
manifests [] = []
manifests (file p t ∷ es) = let rest = manifests es in if is_manifest t then (p, t) ∷ rest else rest
manifests (directory p n ∷ es) = manifests es
manifests (other ∷ es) = manifests es

unfoldable pub subdirectories : List String → List Entry → List String
subdirectories excluded [] = []
subdirectories excluded (file p t ∷ es) = subdirectories excluded es
subdirectories excluded (directory p n ∷ es) =
    let rest = subdirectories excluded es in
    if any_of (λ x. str_eq x n) excluded then rest else p ∷ rest
subdirectories excluded (other ∷ es) = subdirectories excluded es

abbrev pub entries_of : Option (List Entry) → List Entry
entries_of none = []
entries_of (some es) = es

-- A directory with a manifest is not searched further.
abbrev pub pushed_directories : List String → List Entry → List String
pushed_directories excluded es = elim (manifests es) [
  | [] ↦ reverse (subdirectories excluded es)
  | m ∷ ms ↦ []
]

-- The while loop, with fuel for the directories that it takes off the stack; none if that runs out.
unfoldable pub search_directories :
    (String → Option (List Entry))
    → List String
    → ℕ
    → List String
    → List (String × ExtensionType)
    → Option (List (String × ExtensionType))
unfolding manifests subdirectories
search_directories ls excluded fuel [] found = some found
search_directories ls excluded zero (d ∷ ds) found = none
search_directories ls excluded (suc fuel) (d ∷ ds) found =
    search_directories ls excluded fuel (pushed_directories excluded (entries_of (ls d)) ++ ds)
      (found ++ manifests (entries_of (ls d)))

-- The constructor of an extension; the name is the stem of its path, which is told by `stem`.
unfoldable pub new_extension : (String → String) → ℕ → String × ExtensionType → Extension
new_extension stem id (path, type) = record {
  id = id;
  type = type;
  state = discovered;
  name = stem path;
  version = initial;
  language = "";
  runtime = "";
  platforms = [];
  methods = [];
  dependencies = [];
  method_table = no_methods;
  user_data = none;
  language_module = none;
  assembly = none;
  methods_data = [];
  timepoints = [];
  errors = [];
  warnings = [];
  asserts_hold = true;
}

-- The last loop, which numbers the extensions from 0.
unfoldable pub number_extensions :
    (String → String) → ℕ → List (String × ExtensionType) → List Extension
unfolding new_extension
number_extensions stem id [] = []
number_extensions stem id (p ∷ ps) = new_extension stem id p ∷ number_extensions stem (suc id) ps
