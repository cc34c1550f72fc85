-- ===== src/Stages/Loading.antt =====
-- src/core/stages_impl.hpp: `LoadingStage`.
use plugify.Prelude.{ℕ, Bool, true, Option, none, some, [], if◌then◌else◌}
use plugify.Extension.State.{
  ExtensionType, module_type, plugin_type, unknown_type, failed, resolved, loading, loaded, running,
  same_state, is_module,
}
use plugify.Extension.Core.{
  Extension, Result, ok, err, language_module_not_found, unknown_extension_type, start_operation,
  end_operation,
}
use plugify.Loader.Host.{Host}
use plugify.Loader.Module.{load_module}
use plugify.Loader.Plugin.{load_plugin}
use plugify.Pipeline.{Stage, execute_sequential}
use plugify.Stages.Shared.{Env, Shared, find_text, insert_text}
use plugify.Stages.Failure.{process_item, handle_operation_failure, check_timeout}

abbrev pub should_load : Extension → Bool
should_load e = same_state e.state resolved

abbrev pub keep_loaded_module : Result (Unit {0}) → Extension → Shared → Shared
keep_loaded_module (ok _) e w = record w {
  loaded_modules = insert_text e.language e w.loaded_modules;
}
keep_loaded_module (err _) e w = w

abbrev pub load_with :
    Host → Option Extension → Shared → Extension → Shared × Extension × Result (Unit {0})
load_with h none w e = (w, e, err (language_module_not_found e.language))
load_with h (some m) w e =
    let (l, e', r) = load_plugin h m w.loader e in (record w { loader = l }, e', r)

-- The switch on the type.
unfoldable pub load_by_type :
    Host → ExtensionType → Shared → Extension → Shared × Extension × Result (Unit {0})
unfolding load_module load_plugin find_text insert_text
load_by_type h module_type w e =
    let (l, e', r) = load_module h w.loader e in
    (keep_loaded_module r e' (record w { loader = l }), e', r)
load_by_type h plugin_type w e = load_with h (find_text e.language w.loaded_modules) w e
load_by_type h unknown_type w e = (w, e, err unknown_extension_type)

abbrev pub set_running : Extension → Extension
set_running e = if is_module e.type then start_operation running e else e

abbrev pub end_loading :
    Env → ℕ → Result (Unit {0}) → Shared → Extension → Shared × Extension × Result (Unit {0})
end_loading env t (err m) w e =
    let (w', e') = handle_operation_failure failed t m w e in (w', e', err m)
end_loading env t (ok _) w e = (
  w,
  set_running (check_timeout env.settings.load_timeout loading (end_operation loaded t e)),
  ok tt,
)

-- `DoProcessItem`.
unfoldable pub do_load : Env → Shared → Extension → Shared × Extension × Result (Unit {0})
unfolding start_operation end_operation load_by_type handle_operation_failure check_timeout
do_load env w e =
    let e₀ = start_operation loading e in
    let (w', e', r) = load_by_type env.host e.type w e₀ in
    end_loading env (env.host.elapsed w.loader.calls loading e₀) r w' e'

-- A new stage object starts with an empty map.
unfoldable pub loading_stage : Env → Stage Shared Extension
unfolding process_item do_load execute_sequential
loading_stage env = record {
  required = true;
  setup = λ w items. record w { loaded_modules = [] };
  run = λ w s items.
      execute_sequential true should_load (process_item (do_load env)) (λ e. e.name) w s items;
}
