-- ===== src/Manager/Core.antt =====
-- src/core/manager.cpp: `Initialize`, `Update` and `Terminate`.
use plugify.Prelude.{ℕ, Bool, true, false, List, [], ◌∷◌, ltb, if◌then◌else◌}
use plugify.Extension.State.{
  ExtensionType, module_type, plugin_type, unknown_type, running, ending, ended, terminating,
  terminated, same_state,
}
use plugify.Extension.Core.{
  Extension, Result, ok, err, already_initialized, pipeline_failed, start_operation, end_operation,
}
use plugify.Graph.{Graph}
use plugify.Loader.Host.{Host, Loader}
use plugify.Loader.Module.{update_module, unload_module}
use plugify.Loader.Plugin.{update_plugin, end_plugin, unload_plugin}
use plugify.Pipeline.{Stage, StageStatistics, execute, total_failed}
use plugify.Stages.Shared.{Env, Shared}
use plugify.Stages.Parsing.{parsing_stage}
use plugify.Stages.Resolution.{resolution_stage}
use plugify.Stages.Loading.{loading_stage}
use plugify.Stages.Exporting.{exporting_stage}
use plugify.Stages.Starting.{starting_stage}

pub record Manager : Type 0 where
  pub extensions : List Extension
  pub initialized : Bool
  pub loader : Loader
  pub dep_graph : Graph
  pub reverse_dep_graph : Graph
  pub load_order : List ℕ

abbrev pub stages : Env → List (Stage Shared Extension)
stages env =
    parsing_stage env
    ∷ resolution_stage env
    ∷ loading_stage env
    ∷ exporting_stage env
    ∷ starting_stage env
    ∷ []

-- What the new stages and the new failure tracker start with.
abbrev pub fresh : Manager → Shared
fresh m = record {
  loader = m.loader;
  tracker = [];
  loaded_modules = [];
  running_modules = [];
  dep_graph = m.dep_graph;
  reverse_dep_graph = m.reverse_dep_graph;
  load_order = m.load_order;
}

abbrev pub after_pipeline : Manager → Shared × List StageStatistics × List Extension → Manager
after_pipeline m (w, report, items) = record m {
  extensions = items;
  loader = w.loader;
  dep_graph = w.dep_graph;
  reverse_dep_graph = w.reverse_dep_graph;
  load_order = w.load_order;
}

-- `Initialize`, on the extensions that `DiscoverExtensions` finds.
unfoldable pub initialize : Env → List Extension → Manager → Manager × Result (Unit {0})
unfolding execute total_failed
initialize env found m =
    let (w, report, items) = execute (fresh m) (stages env) found in
    let m' = after_pipeline m (w, report, items) in
    if m.initialized
    then (m, err already_initialized)
    else if ltb 0 (total_failed report)
    then (m', err pipeline_failed)
    else (record m' { initialized = true }, ok tt)

-- The loop of `Update` over the running extensions; the errors are only logged.
abbrev pub update_by_type : Host → ExtensionType → Loader → Extension → Loader
update_by_type h module_type l e = (update_module h l e).0
update_by_type h plugin_type l e = (update_plugin h l e).0
update_by_type h unknown_type l e = l

unfoldable pub update_all : Host → Loader → List Extension → Loader
unfolding update_module update_plugin
update_all h l [] = l
update_all h l (e ∷ es) =
    update_all h (if same_state e.state running then update_by_type h e.type l e else l) es

unfoldable pub update : Env → Manager → Manager
unfolding update_all
update env m =
    if m.initialized then record m { loader = update_all env.host m.loader m.extensions } else m

-- The body of the first loop of `Terminate`.
abbrev pub end_by_type : Host → ExtensionType → Loader → Extension → Loader
end_by_type h module_type l e = l
end_by_type h plugin_type l e = (end_plugin h l e).0
end_by_type h unknown_type l e = l

unfoldable pub end_extension : Env → Loader → Extension → Loader × Extension
unfolding start_operation end_operation end_plugin
end_extension env l e =
    let e' = start_operation ending e in
    if same_state e.state running
    then (
      end_by_type env.host e.type l e',
      end_operation ended (env.host.elapsed l.calls ending e') e',
    )
    else (l, e)

-- The body of the second loop.
abbrev pub unload_by_type : Host → ExtensionType → Loader → Extension → Loader × Extension
unload_by_type h module_type l e = let (l', e', _) = unload_module h l e in (l', e')
unload_by_type h plugin_type l e = unload_plugin l e
unload_by_type h unknown_type l e = (l, e)

unfoldable pub terminate_extension : Env → Loader → Extension → Loader × Extension
unfolding start_operation end_operation unload_module unload_plugin
terminate_extension env l e =
    let e' = start_operation terminating e in
    let (l', e'') = unload_by_type env.host e.type l e' in
    if same_state e.state ended
    then (l', end_operation terminated (env.host.elapsed l.calls terminating e') e'')
    else (l, e)

-- A loop from the last extension to the first.
unfoldable pub for_reverse :
    (Loader → Extension → Loader × Extension) → Loader → List Extension → Loader × List Extension
for_reverse body l [] = (l, [])
for_reverse body l (e ∷ es) =
    let (l', es') = for_reverse body l es in let (l'', e') = body l' e in (l'', e' ∷ es')

unfoldable pub terminate : Env → Manager → Manager
unfolding for_reverse end_extension terminate_extension
terminate env m =
    let (l', es') = for_reverse (end_extension env) m.loader m.extensions in
    let (l'', es'') = for_reverse (terminate_extension env) l' es' in
    if m.initialized then record m { extensions = es''; loader = l''; initialized = false } else m
