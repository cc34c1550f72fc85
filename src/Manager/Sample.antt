-- ===== src/Manager/Sample.antt =====
-- A host that answers every call, one language module and one plugin, for runs of the manager.
use plugify.Prelude.{◌≡◌, refl, true, false, none, some, List, [], ◌∷◌, All}
use plugify.Version.Types.{initial}
use plugify.Extension.State.{ExtensionState, ExtensionType, module_type, plugin_type, discovered}
use plugify.Extension.Core.{Extension, ok, MethodTable, no_methods}
use plugify.Loader.Host.{Host, Loader, returned, threw}
use plugify.Stages.Shared.{Env, Manifest, VisitsElements}
use plugify.Stages.States.{Now}
use plugify.Stages.Policy.{Stands}
use plugify.Manager.Core.{Manager}
use plugify.Manager.Discovery.{new_extension}

abbrev pub all_methods : MethodTable
all_methods = record { has_update = true; has_start = true; has_end = true; has_export = true }

abbrev pub host : Host
host = record {
  absolute_path = λ p. ok p;
  load_assembly = λ calls p. ok 40;
  get_language_module = λ a. ok (some 50);
  initialize_module = λ calls m e. returned (ok no_methods);
  shutdown_module = λ calls m. returned (ok tt);
  load_data = λ calls m e.
      returned (ok (record { methods = (7, true) ∷ []; user_data = none; table = all_methods }));
  answer = λ calls c. returned (ok tt);
  elapsed = λ calls s e. 5;
  load_time = λ calls e. 5;
}

abbrev pub manifest_of : ExtensionType → Manifest
manifest_of module_type = record {
  name = "python";
  version = initial;
  language = "py";
  runtime = "py.so";
  platforms = [];
  methods = [];
  dependencies = [];
}
manifest_of _ = record {
  name = "chat";
  version = initial;
  language = "py";
  runtime = "";
  platforms = [];
  methods = 7 ∷ [];
  dependencies = [];
}

abbrev pub env : Env
env = record {
  host = host;
  settings = record {
    whitelisted_extensions = [];
    blacklisted_extensions = [];
    platform = "linux";
    load_timeout = 100;
    export_timeout = 100;
    start_timeout = 1;
  };
  parse_manifest = λ e. ok (manifest_of e.type);
  resolve = λ es. record {
    issues = [];
    dependency_graph = (1, 0 ∷ []) ∷ [];
    reverse_dependency_graph = (0, 1 ∷ []) ∷ [];
    load_order = 0 ∷ 1 ∷ [];
    is_load_order_valid = true;
  };
  iteration_order = λ es. es;
}

-- The plugin's code throws when it starts.
abbrev pub failing_env : Env
failing_env = record env { host = record host { answer = λ calls c. threw "no" } }

abbrev pub env_visits : VisitsElements env
env_visits = record { visits = λ P xs h. h; visits_all = λ xs. refl }

abbrev pub python : Extension
python = new_extension (λ s. s) 0 ("python.pmodule", module_type)

abbrev pub chat : Extension
chat = new_extension (λ s. s) 1 ("chat.pplugin", plugin_type)

abbrev pub found : List Extension
found = python ∷ chat ∷ []

abbrev pub empty_loader : Loader
empty_loader = record {
  modules_loaded = 0;
  plugins_loaded = 0;
  total_load_time = 0;
  slowest_module_load = 0;
  slowest_module = none;
  slowest_plugin_load = 0;
  slowest_plugin = none;
  assemblies = [];
  calls = [];
}

abbrev pub manager : Manager
manager = record {
  extensions = [];
  initialized = false;
  loader = empty_loader;
  dep_graph = [];
  reverse_dep_graph = [];
  load_order = [];
}

abbrev pub now :
    (t : ExtensionType) (s : ExtensionState) (e : Extension)
    → e.type ≡ t
    → e.state ≡ s
    → e.asserts_hold ≡ true
    → Now t s e
now t s e h k l = record { type_is = h; state_is = k; sound = l }

pub found-Stands : All (Stands discovered) found
unfolding new_extension
found-Stands = (
  (module_type, (λ p. cc p), now module_type discovered python refl refl refl),
  ((plugin_type, (λ p. cc p), now plugin_type discovered chat refl refl refl), tt),
)
