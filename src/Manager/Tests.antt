-- ===== src/Manager/Tests.antt =====
-- Runs of the manager on one language module and one plugin.
use plugify.Prelude.{◌≡◌, refl, true, false, List, [], ◌∷◌, All}
use plugify.Extension.State.{
  ExtensionState, module_type, plugin_type, discovered, parsed, resolved, loaded, exported, running,
}
use plugify.Extension.Core.{Extension, ok, err, pipeline_failed}
use plugify.Pipeline.{execute_stage}
use plugify.Stages.Shared.{Shared}
use plugify.Stages.Outcomes.{Ends, Parses, parse_item-Parses, load-Ends, export-Ends, start-Ends}
use plugify.Stages.Parsing.{parse_item, parsing_stage}
use plugify.Stages.Loading.{do_load, loading_stage}
use plugify.Stages.Exporting.{do_export, exporting_stage}
use plugify.Stages.Starting.{do_start, starting_stage}
use plugify.Stages.Failure.{process_item}
use plugify.Stages.Resolution.{resolution_stage}
use plugify.Stages.Policy.{Stands, Resolved}
use plugify.Stages.Resolving.{resolution_pass}
use plugify.Manager.Core.{Manager, fresh, initialize, terminate}
use plugify.Manager.Discovery.{new_extension}
use plugify.Manager.Passes.{Started}
use plugify.Manager.Start.{initialize-Started}
use plugify.Manager.Stop.{Stopped, terminate-Stopped, terminate-initialize-failed}
use plugify.Extension.State.{loading}
use plugify.Extension.Core.{out_of_memory, get_methods, get_methods_data}
use plugify.Graph.{edges, contains}
use plugify.Tracker.{has_failed}
use plugify.Loader.Module.{get_or_load_assembly}
use plugify.Loader.Plugin.{load_plugin}
use plugify.Loader.Matching.{Matches, load_plugin-Matches}
use plugify.Stages.Failure.{propagate_failure_to_direct_dependents}
use plugify.Stages.Propagation.{has_failed-propagate_failure_to_direct_dependents}
use plugify.Prelude.{◌||◌, some, empty, if◌then◌else◌}
use plugify.Loader.Host.{Host, Loader, note, on_plugin_update}
use plugify.Manager.Sample.{empty_loader}
use plugify.Manager.Sample.{
  all_methods, host, env, failing_env, env_visits, python, chat, found, manager, now, found-Stands,
}

initialize_ok : (initialize env found manager).1 ≡ ok tt
unfolding initialize new_extension parsing_stage resolution_stage loading_stage exporting_stage
    starting_stage
initialize_ok = refl

initialize-Started_example :
    ((initialize env found manager).0.initialized ≡ true)
    × All Started (initialize env found manager).0.extensions
initialize-Started_example =
    initialize-Started env env_visits found manager found-Stands initialize_ok

abbrev running_manager : Manager
running_manager = (initialize env found manager).0

running_manager-initialized : running_manager.initialized ≡ true
running_manager-initialized =
    (initialize-Started env env_visits found manager found-Stands initialize_ok).0

running_manager-Started : All Started running_manager.extensions
running_manager-Started =
    (initialize-Started env env_visits found manager found-Stands initialize_ok).1

terminate-Stopped_example :
    ((terminate env running_manager).initialized ≡ false)
    × All Stopped (terminate env running_manager).extensions
terminate-Stopped_example =
    terminate-Stopped env running_manager running_manager-initialized running_manager-Started

initialize_failed : (initialize failing_env found manager).1 ≡ err pipeline_failed
unfolding initialize new_extension parsing_stage resolution_stage loading_stage exporting_stage
    starting_stage
initialize_failed = refl

-- The module is running then, and is the loader's one loaded module.
still_running : (initialize failing_env found manager).0.loader.modules_loaded ≡ 1
unfolding initialize new_extension parsing_stage resolution_stage loading_stage exporting_stage
    starting_stage
still_running = refl

terminate-initialize-failed_example :
    terminate failing_env (initialize failing_env found manager).0
    ≡ (initialize failing_env found manager).0
terminate-initialize-failed_example =
    terminate-initialize-failed failing_env found manager refl initialize_failed

-- An extension in a state, for the runs of one stage.
abbrev at : ExtensionState → Extension → Extension
at s e = record e { state = s; language = "py"; methods = 7 ∷ []; method_table = all_methods }

abbrev shared : Shared
shared = fresh manager

parse_item-Parses_example : Parses plugin_type (parse_item env 5 chat).1 (parse_item env 5 chat).0
unfolding new_extension
parse_item-Parses_example =
    parse_item-Parses env plugin_type 5 chat (now plugin_type discovered chat refl refl refl)

load-Ends_example :
    Ends module_type running
      (process_item (do_load env) shared (at resolved python)).2
      (process_item (do_load env) shared (at resolved python)).1
unfolding new_extension
load-Ends_example =
    load-Ends env module_type shared (at resolved python)
      (now module_type resolved (at resolved python) refl refl refl)

export-Ends_example :
    Ends plugin_type exported
      (process_item (do_export env) shared (at loaded chat)).2
      (process_item (do_export env) shared (at loaded chat)).1
unfolding new_extension
export-Ends_example =
    export-Ends env plugin_type shared (at loaded chat)
      (now plugin_type loaded (at loaded chat) refl refl refl)

start-Ends_example :
    Ends plugin_type running
      (process_item (do_start env) shared (at exported chat)).2
      (process_item (do_start env) shared (at exported chat)).1
unfolding new_extension
start-Ends_example =
    start-Ends env plugin_type shared (at exported chat)
      (now plugin_type exported (at exported chat) refl refl refl)

abbrev parsed_items : List Extension
parsed_items = at parsed python ∷ at parsed chat ∷ []

parsed_items-Stands : All (Stands parsed) parsed_items
unfolding new_extension
parsed_items-Stands = (
  (module_type, (λ p. cc p), now module_type parsed (at parsed python) refl refl refl),
  ((plugin_type, (λ p. cc p), now plugin_type parsed (at parsed chat) refl refl refl), tt),
)

resolution_ok : (execute_stage (resolution_stage env) shared parsed_items).1.failed ≡ 0
unfolding execute_stage resolution_stage new_extension
resolution_ok = refl

resolution_pass_example : All Resolved (execute_stage (resolution_stage env) shared parsed_items).2
resolution_pass_example =
    resolution_pass env env_visits shared parsed_items parsed_items-Stands resolution_ok

-- The plugin with its module's pointer, before it is loaded.
abbrev plugin : Extension
plugin = at loading chat

abbrev loaded_python : Extension
loaded_python = record (at running python) { language_module = some 50 }

plugin_loads : (load_plugin env.host loaded_python empty_loader plugin).2 ≡ ok tt
unfolding load_plugin new_extension
plugin_loads = refl

load_plugin-Matches_example :
    Matches
      (get_methods_data (load_plugin env.host loaded_python empty_loader plugin).1)
      (get_methods plugin)
unfolding new_extension
load_plugin-Matches_example =
    load_plugin-Matches env.host loaded_python empty_loader plugin refl plugin_loads

-- An assembly loader that loads a file once, and fails after any call.
abbrev loads_once : Host
loads_once = record host {
  load_assembly = λ calls p. if empty calls then ok 40 else err out_of_memory;
}

-- After the load the plugin 1 was updated.
abbrev later_loader : Loader
unfolding get_or_load_assembly
later_loader = note (on_plugin_update 1) (get_or_load_assembly loads_once "py.so" empty_loader).0

-- The plugin 1 depends on the module 0.
abbrev resolved_shared : Shared
resolved_shared = record (fresh manager) {
  dep_graph = (1, 0 ∷ []) ∷ [];
  reverse_dep_graph = (0, 1 ∷ []) ∷ [];
}

has_failed-propagate_failure_to_direct_dependents_example :
    has_failed 0 (propagate_failure_to_direct_dependents 1 resolved_shared).tracker
    ≡ (has_failed 0 resolved_shared.tracker || contains (edges 1 resolved_shared.dep_graph) 0)
has_failed-propagate_failure_to_direct_dependents_example =
    has_failed-propagate_failure_to_direct_dependents 1 0 resolved_shared
