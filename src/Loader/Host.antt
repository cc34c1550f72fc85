-- ===== src/Loader/Host.antt =====
-- src/core/extension_loader.hpp: what the loader calls (a file system, an assembly loader, language
-- modules), as functions of the calls made so far, so that an answer may change from call to call.
-- The observer `IExtensionLifecycle` is optional and absent by default, and is modelled as absent.
use Prim.Native.String.{String}
use plugify.Prelude.{ℕ, ◌+◌, ◌-◌, ◌%◌, ◌^◌, Bool, Option, none, some, List, ◌∷◌, if◌then◌else◌, ltb}
use plugify.Extension.State.{ExtensionState}
use plugify.Extension.Core.{
  Extension, MethodTable, Result, err, out_of_memory, call_failed, unknown_exception, null_pointer,
}

-- The calls that the loader makes: methods of a language module, with the extensions concerned, and
-- `Load` of the assembly loader, with the path.
pub data Call : Type 0 where
  initialize shutdown on_plugin_load on_plugin_start on_plugin_end : ℕ → Call
  on_update on_plugin_update : ℕ → Call
  on_method_export : ℕ → ℕ → Call
  load_library : String → Call

-- What a call ends with: a result of its own, or an exception.
pub data Called {ℓ} (A : Type ℓ) : Type ℓ where
  returned : Result A → Called A
  threw_bad_alloc threw_unknown : Called A
  threw : String → Called A

-- `SafeCall`.
unfoldable pub safe_call {ℓ} : {A : Type ℓ} → Called A → Result A
safe_call (returned r) = r
safe_call threw_bad_alloc = err out_of_memory
safe_call threw_unknown = err unknown_exception
safe_call (threw what) = err (call_failed what)

-- What `OnPluginLoad` hands over: each method with whether its address is not null.
pub record LoadData : Type 0 where
  pub methods : List (ℕ × Bool)
  pub user_data : Option ℕ
  pub table : MethodTable

pub record Host : Type 0 where
  pub absolute_path : String → Result String
  pub load_assembly : List Call → String → Result ℕ
  -- The symbol `GetLanguageModule` of an assembly, called: null or a module.
  pub get_language_module : ℕ → Result (Option ℕ)
  pub initialize_module : List Call → ℕ → Extension → Called MethodTable
  pub shutdown_module : List Call → ℕ → Called (Unit {0})
  pub load_data : List Call → ℕ → Extension → Called LoadData
  pub answer : List Call → Call → Called (Unit {0})
  -- The milliseconds that an operation takes.
  pub elapsed : List Call → ExtensionState → Extension → ℕ
  pub load_time : List Call → Extension → ℕ

-- `LoadStatistics`, the cache of assemblies, and the calls made so far, the latest first.
pub record Loader : Type 0 where
  pub modules_loaded : ℕ
  pub plugins_loaded : ℕ
  pub total_load_time : ℕ
  pub slowest_module_load : ℕ
  pub slowest_module : Option ℕ
  pub slowest_plugin_load : ℕ
  pub slowest_plugin : Option ℕ
  pub assemblies : List (String × ℕ)
  pub calls : List Call

abbrev pub note : Call → Loader → Loader
note c l = record l { calls = c ∷ l.calls }

-- The counters are of type size_t.
abbrev pub increment : ℕ → ℕ
increment n = (n + 1) % 2 ^ 64

abbrev pub decrement : ℕ → ℕ
decrement n = (n + 2 ^ 64 - 1) % 2 ^ 64

-- The callbacks of the two timers.
unfoldable pub time_module : ℕ → ℕ → Loader → Loader
time_module t id l = record l {
  total_load_time = l.total_load_time + t;
  slowest_module_load = if ltb l.slowest_module_load t then t else l.slowest_module_load;
  slowest_module = if ltb l.slowest_module_load t then some id else l.slowest_module;
}

unfoldable pub time_plugin : ℕ → ℕ → Loader → Loader
time_plugin t id l = record l {
  total_load_time = l.total_load_time + t;
  slowest_plugin_load = if ltb l.slowest_plugin_load t then t else l.slowest_plugin_load;
  slowest_plugin = if ltb l.slowest_plugin_load t then some id else l.slowest_plugin;
}

-- A call through the pointer that an extension holds; a null pointer is undefined behaviour in the
-- source, and an error of its own here.
unfoldable pub call_through : Host → Option ℕ → Call → Loader → Loader × Result (Unit {0})
unfolding safe_call
call_through h none c l = (l, err null_pointer)
call_through h (some m) c l = (note c l, safe_call (h.answer l.calls c))
