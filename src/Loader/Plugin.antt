-- ===== src/Loader/Plugin.antt =====
-- src/core/extension_loader.hpp: the operations on plugins.
use plugify.Prelude.{
  ℕ, suc, Bool, not, ◌||◌, Option, none, some, List, [], ◌∷◌, ◌==◌, if◌then◌else◌, length,
}
use plugify.Extension.Core.{
  Extension, no_methods, Result, ok, err, module_not_available, method_count_mismatch,
  invalid_methods, get_methods, set_methods_data,
}
use plugify.Loader.Host.{
  Host, Loader, LoadData, safe_call, note, increment, decrement, time_plugin, call_through,
  on_plugin_load, on_plugin_start, on_plugin_end, on_plugin_update, on_method_export,
}

-- Whether the method at a place is another one than the manifest's, or has no address.
abbrev pub is_invalid : ℕ × Bool → ℕ → Bool
is_invalid (m, addr) exported = not (m == exported) || not addr

-- The numbers, from 1 on, of the methods that are not valid. The source stops at 100 of them and adds a
-- line that counts the rest; only whether there are any decides the outcome.
unfoldable pub invalid_numbers : ℕ → List (ℕ × Bool) → List ℕ → List ℕ
invalid_numbers i [] exported = []
invalid_numbers i (m ∷ ms) [] = []
invalid_numbers i (m ∷ ms) (e ∷ es) =
    let rest = invalid_numbers (suc i) ms es in if is_invalid m e then suc i ∷ rest else rest

abbrev pub keep_data : List ℕ → LoadData → Extension → Extension × Result (Unit {0})
keep_data [] d x = (
  set_methods_data d.methods (record x { user_data = d.user_data; method_table = d.table }),
  ok tt,
)
keep_data (n ∷ ns) d x = (x, err (invalid_methods (n ∷ ns)))

-- `ValidateAndSetPluginData`.
unfoldable pub validate_and_set_plugin_data : LoadData → Extension → Extension × Result (Unit {0})
unfolding invalid_numbers get_methods set_methods_data
validate_and_set_plugin_data d x =
    if length d.methods == length (get_methods x)
    then keep_data (invalid_numbers 0 d.methods (get_methods x)) d x
    else (x, err method_count_mismatch)

abbrev pub count_plugin : Result (Unit {0}) → Loader → Loader
count_plugin (ok _) l = record l { plugins_loaded = increment l.plugins_loaded }
count_plugin (err _) l = l

abbrev pub keep_loaded :
    Result LoadData → Loader → Extension → Loader × Extension × Result (Unit {0})
keep_loaded (err m) l x = (l, x, err m)
keep_loaded (ok d) l x = let (x', r) = validate_and_set_plugin_data d x in (count_plugin r l, x', r)

-- The body of `LoadPlugin` inside the scope of its timer, on the language module's pointer.
unfoldable pub load_plugin_body :
    Host → Option ℕ → Loader → Extension → Loader × Extension × Result (Unit {0})
unfolding safe_call validate_and_set_plugin_data
load_plugin_body h none l x = (l, x, err module_not_available)
load_plugin_body h (some m) l x =
    let x' = record x { language_module = some m } in
    keep_loaded (safe_call (h.load_data l.calls m x')) (note (on_plugin_load x.id) l) x'

-- `LoadPlugin`; the timer ends on every path.
unfoldable pub load_plugin :
    Host → Extension → Loader → Extension → Loader × Extension × Result (Unit {0})
unfolding load_plugin_body time_plugin
load_plugin h mod_ext l x =
    let (l', x', r) = load_plugin_body h mod_ext.language_module l x in
    (time_plugin (h.load_time l.calls x) x.id l', x', r)

-- `StartPlugin`, `EndPlugin` and `UpdatePlugin`: each calls the language module if the plugin has the
-- method.
unfoldable pub start_plugin : Host → Loader → Extension → Loader × Result (Unit {0})
unfolding call_through
start_plugin h l x =
    if x.method_table.has_start
    then call_through h x.language_module (on_plugin_start x.id) l
    else (l, ok tt)

unfoldable pub end_plugin : Host → Loader → Extension → Loader × Result (Unit {0})
unfolding call_through
end_plugin h l x =
    if x.method_table.has_end
    then call_through h x.language_module (on_plugin_end x.id) l
    else (l, ok tt)

unfoldable pub update_plugin : Host → Loader → Extension → Loader × Result (Unit {0})
unfolding call_through
update_plugin h l x =
    if x.method_table.has_update
    then call_through h x.language_module (on_plugin_update x.id) l
    else (l, ok tt)

-- `UnloadPlugin`.
unfoldable pub unload_plugin : Loader → Extension → Loader × Extension
unfolding set_methods_data
unload_plugin l x = (
  record l { plugins_loaded = decrement l.plugins_loaded },
  set_methods_data []
      (record x { language_module = none; user_data = none; method_table = no_methods }),
)

-- `MethodExport(module, plugin)`: asked of the plugin's table, called on the module.
unfoldable pub method_export : Host → Extension → Loader → Extension → Loader × Result (Unit {0})
unfolding call_through
method_export h mod_ext l x =
    if x.method_table.has_export
    then call_through h mod_ext.language_module (on_method_export mod_ext.id x.id) l
    else (l, ok tt)
