-- ===== src/Manager/SearchTests.antt =====
-- The search in a directory with a plugin, an excluded directory, and a module with a directory below.
use Prim.Native.String.{String}
use text.Mathlib.Text.{◌==◌ as str_eq}
use plugify.Prelude.{◌≡◌, refl, Option, none, some, List, [], ◌∷◌, ◌++◌, arith, if◌then◌else◌}
use plugify.Extension.State.{module_type, plugin_type, unknown_type}
use plugify.Manager.Discovery.{
  Entry, file, directory, manifests, subdirectories, search_directories,
}
use plugify.Manager.Search.{
  Forest, bare, tree, Describes, roots, manifests_in, search_directories-forest,
}

abbrev ls : String → Option (List Entry)
ls d =
    if str_eq d "ext"
    then some (directory "ext/a" "a" ∷ directory "ext/logs" "logs" ∷ directory "ext/b" "b" ∷ [])
    else if str_eq d "ext/a"
    then some (file "ext/a/a.pplugin" plugin_type ∷ directory "ext/a/bin" "bin" ∷ [])
    else if str_eq d "ext/b"
    then some (file "ext/b/read.me" unknown_type ∷ file "ext/b/b.pmodule" module_type ∷ [])
    else none

abbrev forest : Forest
forest = tree "ext" (tree "ext/b" bare (tree "ext/a" bare bare)) bare

forest-Describes : Describes ls ("logs" ∷ []) forest
unfolding manifests subdirectories
forest-Describes = (refl, (refl, tt, (refl, tt, tt)), tt)

search_directories-forest_example :
    search_directories ls ("logs" ∷ []) 5 (roots forest) []
    ≡ some ([] ++ manifests_in ls ("logs" ∷ []) forest)
search_directories-forest_example =
    search_directories-forest ls ("logs" ∷ []) forest 5 [] forest-Describes (omega arith)

both_found :
    search_directories ls ("logs" ∷ []) 5 ("ext" ∷ []) []
    ≡ some (("ext/b/b.pmodule", module_type) ∷ ("ext/a/a.pplugin", plugin_type) ∷ [])
unfolding search_directories
both_found = refl
