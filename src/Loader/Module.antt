-- ===== src/Loader/Module.antt =====
-- src/core/extension_loader.hpp: the operations on language modules. The check of the build type is
-- compiled on Windows alone and is left out.
use Prim.Native.String.{String}
use text.Mathlib.Text.{◌==◌ as str_eq}
use plugify.Prelude.{ℕ, Option, none, some, List, [], ◌∷◌, if◌then◌else◌}
use plugify.Extension.Core.{
  Extension, MethodTable, Result, ok, err, null_language_module, set_assembly, get_assembly,
}
use plugify.Loader.Host.{
  Host, Loader, safe_call, note, load_library, increment, decrement, time_module, call_through,
  initialize, shutdown, on_update,
}

unfoldable pub find_assembly : String → List (String × ℕ) → Option ℕ
find_assembly p [] = none
find_assembly p ((q, a) ∷ rest) = if str_eq q p then some a else find_assembly p rest

unfoldable pub erase_assembly : String → List (String × ℕ) → List (String × ℕ)
erase_assembly p [] = []
erase_assembly p ((q, a) ∷ rest) = if str_eq q p then rest else (q, a) ∷ erase_assembly p rest

abbrev pub add_assembly : String → Result ℕ → Loader → Loader × Result ℕ
add_assembly p (err m) l = (l, err m)
add_assembly p (ok a) l = (record l { assemblies = (p, a) ∷ l.assemblies }, ok a)

abbrev pub from_cache : Host → String → Option ℕ → Loader → Loader × Result ℕ
from_cache h p (some a) l = (l, ok a)
from_cache h p none l = add_assembly p (h.load_assembly l.calls p) (note (load_library p) l)

abbrev pub from_path : Host → Result String → Loader → Loader × Result ℕ
from_path h (err m) l = (l, err m)
from_path h (ok p) l = from_cache h p (find_assembly p l.assemblies) l

-- `GetOrLoadAssembly`: by the absolute path, from the cache first.
unfoldable pub get_or_load_assembly : Host → String → Loader → Loader × Result ℕ
unfolding find_assembly
get_or_load_assembly h runtime l = from_path h (h.absolute_path runtime) l

abbrev pub keep_module : ℕ → ℕ → Result MethodTable → Extension → Extension × Result (Unit {0})
keep_module m a (err e) x = (x, err e)
keep_module m a (ok table) x = (
  record (set_assembly (some a) (record x { language_module = some m })) { method_table = table },
  ok tt,
)

abbrev pub load_from_symbol :
    Host → Result (Option ℕ) → ℕ → Loader → Extension → Loader × Extension × Result (Unit {0})
load_from_symbol h (err m) a l x = (l, x, err m)
load_from_symbol h (ok none) a l x = (l, x, err null_language_module)
load_from_symbol h (ok (some m)) a l x =
    let (x', r) = keep_module m a (safe_call (h.initialize_module l.calls m x)) x in
    (note (initialize x.id) l, x', r)

-- `LoadLanguageModule`.
unfoldable pub load_language_module :
    Host → ℕ → Loader → Extension → Loader × Extension × Result (Unit {0})
unfolding safe_call set_assembly
load_language_module h a l x = load_from_symbol h (h.get_language_module a) a l x

abbrev pub count_module : Result (Unit {0}) → Loader → Loader
count_module (ok _) l = record l { modules_loaded = increment l.modules_loaded }
count_module (err _) l = l

abbrev pub load_from_assembly :
    Host → Result ℕ → Loader → Extension → Loader × Extension × Result (Unit {0})
load_from_assembly h (err m) l x = (l, x, err m)
load_from_assembly h (ok a) l x =
    let (l', x', r) = load_language_module h a l x in (count_module r l', x', r)

-- The body of `LoadModule` inside the scope of its timer.
unfoldable pub load_module_body : Host → Loader → Extension → Loader × Extension × Result (Unit {0})
unfolding get_or_load_assembly load_language_module
load_module_body h l x =
    let (l', a) = get_or_load_assembly h x.runtime l in load_from_assembly h a l' x

-- `LoadModule`; the timer ends on every path.
unfoldable pub load_module : Host → Loader → Extension → Loader × Extension × Result (Unit {0})
unfolding load_module_body time_module
load_module h l x =
    let (l', x', r) = load_module_body h l x in (time_module (h.load_time l.calls x) x.id l', x', r)

-- `UpdateModule`.
unfoldable pub update_module : Host → Loader → Extension → Loader × Result (Unit {0})
unfolding call_through
update_module h l x =
    if x.method_table.has_update
    then call_through h x.language_module (on_update x.id) l
    else (l, ok tt)

-- `UnloadModule`: the cache is searched by the runtime path as it is, not by the absolute path.
unfoldable pub shut_down : Host → Option ℕ → ℕ → Loader → Loader × Result (Unit {0})
unfolding safe_call
shut_down h none id l = (l, ok tt)
shut_down h (some m) id l = (note (shutdown id) l, safe_call (h.shutdown_module l.calls m))

abbrev pub drop_assembly : Option ℕ → Extension → Loader → Loader
drop_assembly none x l = l
drop_assembly (some a) x l = record l { assemblies = erase_assembly x.runtime l.assemblies }

unfoldable pub unload_module : Host → Loader → Extension → Loader × Extension × Result (Unit {0})
unfolding shut_down set_assembly get_assembly erase_assembly
unload_module h l x =
    let (l₁, r) = shut_down h x.language_module x.id l in
    let l₂ = drop_assembly (get_assembly x) x l₁ in
    (
      record l₂ { modules_loaded = decrement l₂.modules_loaded },
      set_assembly none (record x { language_module = none }),
      r,
    )
